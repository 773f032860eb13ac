-- ===== src/Store/Document.antt =====
-- The JSON document of internal/store/store.go: what Open reads of what save wrote.
use lotun.Base.{
  Bool, true, false, ◌≡◌, refl, ap, List, [], ◌∷◌, Option, none, some, if◌then◌else◌, arith, elem,
  Option-cases, inl, inr,
}
use lotun.Base.Bytes.{Bytes, bytes_eq, eqb_bytes_iff}
use lotun.Base.Sort.{sort_strings, elem-sort_strings}
use lotun.Dict.{Dict, lookup, insert, keys, Entries}
use lotun.Dict.Laws.{lookup-insert}
use lotun.Json.{HasTexts, IsText}
use lotun.Store.{
  to_fields, from_fields, marshal_names, unmarshal_names, FileStore, is_claimed, held,
}

abbrev pub or_else {ℓ} : {A : Type ℓ} → Option A → Option A → Option A
or_else none o = o
or_else (some a) o = some a

-- `acc` with the entries of `m` at the keys `ks` put in, in turn.
pub fill : Dict Bytes Bool → List Bytes → Dict Bytes Bool → Dict Bytes Bool
fill m [] acc = acc
fill m (k ∷ ks) acc = elim (lookup k m) [
  | none ↦ fill m ks acc
  | some b ↦ fill m ks (insert k b acc)
]

from_fields-to_fields :
    (m : Dict Bytes Bool) (ks : List Bytes) (acc : Dict Bytes Bool)
    → from_fields acc (to_fields m ks) ≡ some (fill m ks acc)
unfolding from_fields to_fields fill
from_fields-to_fields m [] acc = refl
from_fields-to_fields m (k ∷ ks) acc = elim (Option-cases (lookup k m)) [
  | inl e ↦ rw (e, to_fields, fill) (from_fields-to_fields m ks acc)
  | inr (b, e) ↦ rw (e, to_fields, fill) (from_fields-to_fields m ks (insert k b acc))
]

lookup-fill :
    (m : Dict Bytes Bool) (ks : List Bytes) (acc : Dict Bytes Bool) (j : Bytes)
    → lookup j (fill m ks acc)
      ≡ (if elem j ks then or_else (lookup j m) (lookup j acc) else lookup j acc)
unfolding fill
lookup-fill m [] acc j = refl
lookup-fill m (k ∷ ks) acc j = elim (Option-cases (lookup k m)) [
  | inl e ↦ rw (e, fill) (ground (arith, lookup-fill m ks acc j, eqb_bytes_iff k j))
  | inr (b, e) ↦
      rw (e, fill)
        (ground
          (arith, lookup-fill m ks (insert k b acc) j, lookup-insert k j b acc, eqb_bytes_iff k j))
]

elem-keys : (m : Dict Bytes Bool) (j : Bytes) → elem j (keys m) ≡ false → lookup j m ≡ none
unfolding lookup
elem-keys [] j h = refl
elem-keys ((k, b) ∷ m) j h = ground (arith, elem-keys m j)

-- The names that Unmarshal reads of what Marshal wrote; nil is read as nil.
unfoldable pub reread : Option (Dict Bytes Bool) → Option (Dict Bytes Bool)
reread none = none
reread (some m) = some (fill m (sort_strings (keys m)) [])

pub unmarshal_names-marshal_names :
    (names : Option (Dict Bytes Bool)) → unmarshal_names (marshal_names names) ≡ some (reread names)
unfolding marshal_names unmarshal_names reread
unmarshal_names-marshal_names none = refl
unmarshal_names-marshal_names (some m) =
    rw (from_fields-to_fields m (sort_strings (keys m)) [], unmarshal_names)

pub lookup-reread :
    (m : Dict Bytes Bool) (j : Bytes) → lookup j (fill m (sort_strings (keys m)) []) ≡ lookup j m
lookup-reread m j =
    rw (lookup-fill m (sort_strings (keys m)) [] j, elem-sort_strings j (keys m))
      (unfold lookup in ground (arith, elem-keys m j))

to_fields-HasTexts :
    (valid : Bytes → Bool) (m : Dict Bytes Bool) (ks : List Bytes)
    → Entries (λ k _. valid k ≡ true) m
    → HasTexts valid (to_fields m ks)
unfolding to_fields
to_fields-HasTexts valid m [] h = tt
to_fields-HasTexts valid m (k ∷ ks) h = elim (Option-cases (lookup k m)) [
  | inl e ↦ rw (e, to_fields) (to_fields-HasTexts valid m ks h)
  | inr (b, e) ↦ rw (e, to_fields) (h k b e, tt, to_fields-HasTexts valid m ks h)
]

pub marshal_names-IsText :
    (valid : Bytes → Bool) (m : Dict Bytes Bool)
    → Entries (λ k _. valid k ≡ true) m
    → IsText valid (marshal_names (some m))
unfolding marshal_names
marshal_names-IsText valid m h = to_fields-HasTexts valid m (sort_strings (keys m)) h

-- What Open makes of the document of a store.
unfoldable pub reopened : FileStore → FileStore
unfolding reread
reopened s = record { names = reread s.names }

pub is_claimed-reopened : (s : FileStore) (j : Bytes) → is_claimed (reopened s) j ≡ is_claimed s j
unfolding is_claimed reopened
is_claimed-reopened s j = elim (Option-cases s.names) [
  | inl e ↦ rw e
  | inr (m, e) ↦ rw e (ap held (lookup-reread m j))
]

-- ===== src/Store/Restarts.antt =====
-- Open after Claim and Release: the restarts of internal/store/store.go.
use lotun.Base.{
  Bool, true, false, ◌≡◌, ◌∙◌, subst, inl, inr, Option, none, some, arith, Bool-cases, ◌==◌,
  if◌then◌else◌,
}
use lotun.Base.Bytes.{Bytes, bytes_eq}
use lotun.Dict.{Dict, lookup, Entries}
use lotun.Dict.Laws.{lookup-delete, insert-Entries}
use lotun.Json.{JsonText}
use lotun.Store.{
  FileStore, Disk, Faults, done, claim, release, is_claimed, entries, open_store, marshal_names,
}
use lotun.Store.Document.{
  reopened, is_claimed-reopened, unmarshal_names-marshal_names, marshal_names-IsText,
}
use lotun.Store.Save.{document}
use lotun.Store.Claims.{Written, Claims, claim-Claims, release-Releases}

module _ (json : JsonText) where
  -- All names of a store are UTF-8, as those of control messages are.
  abbrev pub HasValidNames : FileStore → Type 0
  HasValidNames s = Entries (λ k _. json.valid k ≡ true) (entries s)

  open_store-document :
      (names : Option (Dict Bytes Bool)) (d : Disk)
      → let s : FileStore = record { names = names } in
        HasValidNames s
        → d.file ≡ some (document json s)
        → open_store json false d ≡ some (reopened s)
  unfolding open_store reopened
  open_store-document none d v h = rw (
    h,
    open_store,
    json.parse-print (marshal_names none) (unfold marshal_names in tt),
    unmarshal_names-marshal_names none,
  )
  open_store-document (some m) d v h = rw (
    h,
    open_store,
    json.parse-print (marshal_names (some m)) (marshal_names-IsText json.valid m v),
    unmarshal_names-marshal_names (some m),
  )

  -- A store opened from what a call that returned nil left behind claims the same names.
  pub open_store_after :
      (s : FileStore) (d d' : Disk)
      → HasValidNames s
      → Written json s d done d'
      → (t : FileStore) × (open_store json false d' ≡ some t)
        × ((j : Bytes) → is_claimed t j ≡ is_claimed s j)
  open_store_after s d d' v w =
      (reopened s, open_store-document s.names d' v w.0, is_claimed-reopened s)

  claim-HasValidNames_of :
      (name : Bytes) (f : Faults) (names : Option (Dict Bytes Bool)) (d : Disk)
      → let s : FileStore = record { names = names } in
        json.valid name ≡ true → HasValidNames s → HasValidNames (claim json name f (s, d)).1
  unfolding claim is_claimed lookup
  claim-HasValidNames_of name f none d n v = v
  claim-HasValidNames_of name f (some m) d n v =
      let s : FileStore = record { names = some m } in
      elim (Bool-cases (is_claimed s name)) [
        | inl claimed ↦ rw claimed v
        | inr free ↦ rw free (insert-Entries (λ k _. json.valid k ≡ true) name true m n v)
      ]

  pub claim-HasValidNames :
      (name : Bytes) (f : Faults) (s : FileStore) (d : Disk)
      → json.valid name ≡ true
      → HasValidNames s
      → HasValidNames (claim json name f (s, d)).1
  claim-HasValidNames name f s d = claim-HasValidNames_of name f s.names d

  release-HasValidNames_of :
      (name : Bytes) (f : Faults) (names : Option (Dict Bytes Bool)) (d : Disk)
      → let s : FileStore = record { names = names } in
        HasValidNames s → HasValidNames (release json name f (s, d)).1
  unfolding release
  release-HasValidNames_of name f none d v = v
  release-HasValidNames_of name f (some m) d v =
      λ k b e. v k b (ground (arith, lookup-delete name k m))

  pub release-HasValidNames :
      (name : Bytes) (f : Faults) (s : FileStore) (d : Disk)
      → HasValidNames s
      → HasValidNames (release json name f (s, d)).1
  release-HasValidNames name f s d = release-HasValidNames_of name f s.names d

  -- If the names are valid text and Claim returns nil, then a store opened from the file that it
  -- left claims the new name and exactly the names that were claimed before.
  pub claim_persists :
      (name : Bytes) (f : Faults) (s : FileStore) (d : Disk)
      → HasValidNames s
      → json.valid name ≡ true
      → let (outcome, s', d') = claim json name f (s, d) in
        outcome ≡ done
        → (t : FileStore) × (open_store json false d' ≡ some t)
          × ((j : Bytes) → is_claimed t j ≡ (if name == j then true else is_claimed s j))
  claim_persists name f s d v n e =
      let o = claim json name f (s, d) in
      let (_, _, _, k, w) =
        subst (λ x. Claims json name f s d (x, o.1, o.2)) e (claim-Claims json name f s d) in
      let (t, opened, same) = open_store_after o.1 d o.2 (claim-HasValidNames name f s d n v) w in
      (t, opened, λ j. same j ∙ k j)

  -- If the names are valid text and Release returns nil, then a store opened from the file that
  -- it left does not claim the name and claims exactly the other names that were claimed before.
  pub release_persists :
      (name : Bytes) (f : Faults) (s : FileStore) (d : Disk)
      → HasValidNames s
      → let (outcome, s', d') = release json name f (s, d) in
        outcome ≡ done
        → (t : FileStore) × (open_store json false d' ≡ some t)
          × ((j : Bytes) → is_claimed t j ≡ (if name == j then false else is_claimed s j))
  release_persists name f s d v e =
      let o = release json name f (s, d) in
      let (k, w) = release-Releases json name f s d in
      let (t, opened, same) =
        open_store_after o.1 d o.2 (release-HasValidNames name f s d v)
          (subst (λ x. Written json o.1 d x o.2) e w) in
      (t, opened, λ j. same j ∙ k j)

-- ===== src/Dict/Laws.antt =====
-- What a map answers after each of its operations.
use lotun.Base.{
  Bool, false, ◌≡◌, ◌≢◌, refl, List, [], ◌∷◌, Option, none, some, if◌then◌else◌, Eq, ◌==◌, arith,
  Bool-cases, inl, inr, All, elem, ◌↔◌, subst, ◌++◌,
}
use lotun.Dict.{Dict, lookup, insert, delete, remove_if, keys_if, IsUnique, Entries, values}

module _ {ℓ κ} {K : Type ℓ} {V : Type κ} ⦃e : Eq K⦄ where
  pub lookup-insert :
      (k j : K) (v : V) (m : Dict K V)
      → lookup j (insert k v m) ≡ (if k == j then some v else lookup j m)
  unfolding insert lookup
  lookup-insert k j v [] = refl
  lookup-insert k j v (entry ∷ m) =
      let i = entry.0 in
      ground (arith, lookup-insert k j v m, e.beq_iff i j, e.beq_iff i k, e.beq_iff k j)

  pub lookup-insert_same : (k : K) (v : V) (m : Dict K V) → lookup k (insert k v m) ≡ some v
  lookup-insert_same k v m = ground (arith, lookup-insert k k v m, e.beq_iff k k)

  pub lookup-insert_other :
      (k j : K) (v : V) (m : Dict K V) → k ≢ j → lookup j (insert k v m) ≡ lookup j m
  lookup-insert_other k j v m h = ground (arith, lookup-insert k j v m, e.beq_iff k j)

  pub lookup-delete :
      (k j : K) (m : Dict K V) → lookup j (delete k m) ≡ (if k == j then none else lookup j m)
  unfolding lookup delete
  lookup-delete k j [] = ground arith
  lookup-delete k j ((i, w) ∷ m) =
      ground (arith, e.beq_iff k j, e.beq_iff i k, e.beq_iff i j, lookup-delete k j m)

-- What is left of an answer when the entries that pass `p` are deleted.
abbrev pub unless {κ} : {V : Type κ} → (V → Bool) → Option V → Option V
unless p none = none
unless p (some v) = if p v then none else some v

pub unless-some {κ} :
    {V : Type κ} (p : V → Bool) (o : Option V) (v : V)
    → unless p o ≡ some v
    → (o ≡ some v) × (p v ≡ false)
unless-some p none v h = cc
unless-some p (some w) v h = ground arith

-- Whether an answer is there and passes `p`.
abbrev pub is_some_and {κ} : {V : Type κ} → (V → Bool) → Option V → Bool
is_some_and p none = false
is_some_and p (some v) = p v

module _ {ℓ κ} {K : Type ℓ} {V : Type κ} ⦃e : Eq K⦄ where
  pub insert-IsUnique : (k : K) (v : V) (m : Dict K V) → IsUnique m → IsUnique (insert k v m)
  unfolding insert lookup
  insert-IsUnique k v [] u = ground arith
  insert-IsUnique k v ((i, w) ∷ m) u =
      ground (arith, e.beq_iff i k, lookup-insert k i v m, e.beq_iff k i, insert-IsUnique k v m u.1)

  lookup-remove_if-none :
      (p : V → Bool) (k : K) (m : Dict K V) → lookup k m ≡ none → lookup k (remove_if p m) ≡ none
  unfolding lookup remove_if
  lookup-remove_if-none p k [] h = refl
  lookup-remove_if-none p k ((j, v) ∷ m) h = ground (arith, lookup-remove_if-none p k m)

  pub remove_if-IsUnique : (p : V → Bool) (m : Dict K V) → IsUnique m → IsUnique (remove_if p m)
  unfolding remove_if
  remove_if-IsUnique p [] u = u
  remove_if-IsUnique p ((j, v) ∷ m) u =
      ground (arith, remove_if-IsUnique p m u.1, lookup-remove_if-none p j m u.0)

  pub lookup-remove_if :
      (p : V → Bool) (k : K) (m : Dict K V)
      → IsUnique m
      → lookup k (remove_if p m) ≡ unless p (lookup k m)
  unfolding lookup remove_if
  lookup-remove_if p k [] u = refl
  lookup-remove_if p k ((j, v) ∷ m) u =
      ground (arith, lookup-remove_if p k m u.1, lookup-remove_if-none p j m u.0, e.beq_iff j k)

  elem-keys_if-none :
      (p : V → Bool) (k : K) (m : Dict K V) → lookup k m ≡ none → elem k (keys_if p m) ≡ false
  unfolding lookup keys_if
  elem-keys_if-none p k [] h = refl
  elem-keys_if-none p k ((j, v) ∷ m) h = ground (arith, elem-keys_if-none p k m)

  pub elem-keys_if :
      (p : V → Bool) (k : K) (m : Dict K V)
      → IsUnique m
      → elem k (keys_if p m) ≡ is_some_and p (lookup k m)
  unfolding lookup keys_if
  elem-keys_if p k [] u = refl
  elem-keys_if p k ((j, v) ∷ m) u =
      ground (arith, elem-keys_if p k m u.1, elem-keys_if-none p j m u.0, e.beq_iff j k)

module _ {ℓ κ ν} {K : Type ℓ} {V : Type κ} ⦃e : Eq K⦄ (P : K → V → Type ν) where
  pub insert-Entries :
      (k : K) (v : V) (m : Dict K V) → P k v → Entries P m → Entries P (insert k v m)
  insert-Entries k v m new old j w h = elim (Bool-cases (k == j)) [
    | inl same ↦
        let v≡w : v ≡ w = ground (arith, lookup-insert k j v m) in
        rw (← ((e.beq_iff k j).0 same), ← v≡w) new
    | inr other ↦ old j w (ground (arith, lookup-insert k j v m))
  ]

  pub remove_if-Entries :
      (p : V → Bool) (m : Dict K V) → IsUnique m → Entries P m → Entries P (remove_if p m)
  remove_if-Entries p m u old j w h = old j w (ground (arith, lookup-remove_if p j m u))

-- What `range` meets are the answers, each of them.
module _ {ℓ κ ν} {K : Type ℓ} {V : Type κ} ⦃e : Eq K⦄ (P : V → Type ν) where
  Entries-tail :
      (k : K) (v : V) (m : Dict K V)
      → lookup k m ≡ none
      → Entries (λ _ w. P w) ((k, v) ∷ m)
      → Entries (λ _ w. P w) m
  unfolding lookup
  Entries-tail k v m fresh all j w h = all j w (ground (arith, e.beq_iff k j))

  pub All-values : (m : Dict K V) → IsUnique m → All P (values m) ↔ Entries (λ _ w. P w) m
  unfolding lookup
  All-values [] u = (λ _ k v h. cc, λ _. tt)
  All-values ((k, v) ∷ m) u = (
    λ all j w h. elim (Bool-cases (k == j)) [
      | inl same ↦ subst P (ground arith) all.0
      | inr other ↦ (All-values m u.1).0 all.1 j w (ground arith)
    ],
    λ all.
        (all k v (rw ((e.beq_iff k k).1 refl)), (All-values m u.1).1 (Entries-tail k v m u.0 all)),
  )

pub All-append {ℓ ν} :
    {A : Type ℓ} (P : A → Type ν) (xs ys : List A) → (All P xs × All P ys) ↔ All P (xs ++ ys)
All-append P [] ys = (λ h. h.1, λ h. (tt, h))
All-append P (x ∷ xs) ys =
    let ih = All-append P xs ys in
    (λ h. (h.0.0, ih.0 (h.0.1, h.1)), λ h. ((h.0, (ih.1 h.1).0), (ih.1 h.1).1))

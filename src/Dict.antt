-- ===== src/Dict.antt =====
-- Go's built-in maps (`map[string]*Tunnel`, `map[int]*Tunnel`, `map[string]bool`) as association
-- lists. The order of the entries stands for the order in which one `range` meets them.
pub mod Laws
use lotun.Base.{
  ℕ, Bool, true, false, ◌≡◌, List, [], ◌∷◌, Option, none, some, if◌then◌else◌, Eq, ◌==◌, map,
}

abbrev pub Dict {ℓ κ} : Type ℓ → Type κ → Type (ℓ ⊔ κ)
Dict K V = List (K × V)

module _ {ℓ κ} {K : Type ℓ} {V : Type κ} ⦃e : Eq K⦄ where
  -- v, ok := m[k]
  unfoldable pub lookup : K → Dict K V → Option V
  lookup k [] = none
  lookup k ((j, v) ∷ m) = if j == k then some v else lookup k m

  -- delete(m, k)
  unfoldable pub delete : K → Dict K V → Dict K V
  delete k [] = []
  delete k ((j, w) ∷ m) = let rest = delete k m in if j == k then rest else (j, w) ∷ rest

  -- m[k] = v
  unfoldable pub insert : K → V → Dict K V → Dict K V
  insert k v [] = (k, v) ∷ []
  insert k v ((j, w) ∷ m) = if j == k then (k, v) ∷ m else (j, w) ∷ insert k v m

-- for k, v := range m { if p(v) { delete(m, k) } }
unfoldable pub remove_if {ℓ κ} : {K : Type ℓ} {V : Type κ} → (V → Bool) → Dict K V → Dict K V
remove_if p [] = []
remove_if p ((k, v) ∷ m) = let rest = remove_if p m in if p v then rest else (k, v) ∷ rest

-- The keys that the loop above removes, in the order in which it meets them.
unfoldable pub keys_if {ℓ κ} : {K : Type ℓ} {V : Type κ} → (V → Bool) → Dict K V → List K
keys_if p [] = []
keys_if p ((k, v) ∷ m) = let rest = keys_if p m in if p v then k ∷ rest else rest

-- for _, v := range m { out = append(out, v) }
abbrev pub values {ℓ κ} : {K : Type ℓ} {V : Type κ} → Dict K V → List V
values = map (λ e. e.1)

abbrev pub keys {ℓ κ} : {K : Type ℓ} {V : Type κ} → Dict K V → List K
keys = map (λ e. e.0)

-- Each key has one entry.
abbrev pub IsUnique {ℓ κ} : {K : Type ℓ} {V : Type κ} ⦃e : Eq K⦄ → Dict K V → Type κ
IsUnique [] = Unit
IsUnique ((k, v) ∷ m) = (lookup k m ≡ none) × IsUnique m

-- Every answer satisfies `P` together with its key.
abbrev pub Entries {ℓ κ ν} :
    {K : Type ℓ} {V : Type κ} ⦃e : Eq K⦄ → (K → V → Type ν) → Dict K V → Type (ℓ ⊔ κ ⊔ ν)
Entries P m = (k : _) (v : _) → lookup k m ≡ some v → P k v

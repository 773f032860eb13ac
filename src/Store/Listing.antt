-- ===== src/Store/Listing.antt =====
-- List of internal/store/store.go.
use lotun.Base.{Bool, true, false, ◌≡◌, refl, ◌∙◌, ◌↔◌, [], ◌∷◌, none, arith, elem}
use lotun.Base.Bytes.{Bytes, bytes_eq}
use lotun.Base.Sort.{IsSorted, sort_strings-IsSorted, elem-sort_strings}
use lotun.Dict.{Dict, lookup, keys, Entries}
use lotun.Store.{FileStore, is_claimed, held, entries, list_names}

-- No name is stored with the value false. Claim and Release never store one.
abbrev pub AllHeld : FileStore → Type 0
AllHeld s = Entries (λ _ b. b ≡ true) (entries s)

elem-keys_held : (m : Dict Bytes Bool) (j : Bytes) → (lookup j m ≡ none) ↔ (elem j (keys m) ≡ false)
unfolding lookup
elem-keys_held [] j = (λ _. refl, λ _. refl)
elem-keys_held ((k, b) ∷ m) j =
    let ih = elem-keys_held m j in (λ h. ground (arith, ih), λ h. ground (arith, ih))

-- If no name is mapped to false, List is sorted and holds exactly the names that IsClaimed
-- affirms.
pub list_names_lem :
    (s : FileStore)
    → AllHeld s
    → IsSorted (list_names s) × ((j : Bytes) → elem j (list_names s) ≡ is_claimed s j)
unfolding list_names is_claimed
list_names_lem s h = (
  sort_strings-IsSorted (keys (entries s)),
  λ j.
      elem-sort_strings j (keys (entries s))
      ∙ ground (arith, elem-keys_held (entries s) j, h j (held (lookup j (entries s)))),
)

-- ===== src/Examples/Stores.antt =====
-- The theorems about internal/store/store.go on a store of one name.
use lotun.Base.{
  List, [], ◌∷◌, ◌≡◌, ◌≢◌, refl, ◌⊎◌, ◌≤◌, true, false, none, some, ◌==◌, if◌then◌else◌, arith,
}
use lotun.Base.Bytes.{Bytes, bytes, bytes_eq, eqb_bytes, eqb_bytes_iff}
use lotun.Dict.{lookup, insert}
use lotun.Store.{
  FileStore, Disk, done, failed, system, already_claimed, save, open_store, claim, release,
  is_claimed,
}
use lotun.Store.Save.{IsClean, document, save_lem}
use lotun.Store.Restarts.{HasValidNames, claim_persists}
use lotun.Store.Claims.{Claims, claim-Claims, Releases, release-Releases}
use lotun.Store.Holding.{Call, claims, releases, run, claim_failed_save}
use lotun.Store.Listing.{AllHeld}
use lotun.Examples.Text.{text}
use lotun.Examples.Data.{no_faults, full_disk, empty_disk, one_claim}

save_lem_example :
    (IsClean full_disk
      × ((save text one_claim full_disk empty_disk).0 ≡ done)
      × ((save text one_claim full_disk empty_disk).1
          ≡ record empty_disk { file = some (document text one_claim) }))
    ⊎ (¬ IsClean full_disk
        × ((e : Bytes) × ((save text one_claim full_disk empty_disk).0 ≡ failed (system e)))
        × ((save text one_claim full_disk empty_disk).1.file ≡ none)
        × (true ≡ true
            → full_disk.rename ≡ none
            → (save text one_claim full_disk empty_disk).1.strays ≡ 0)
        × ((save text one_claim full_disk empty_disk).1.strays ≤ 1))
save_lem_example = save_lem text one_claim full_disk empty_disk

claim-Claims_example :
    Claims text
      (bytes "api")
      no_faults
      one_claim
      empty_disk
      (claim text (bytes "api") no_faults (one_claim, empty_disk))
claim-Claims_example = claim-Claims text (bytes "api") no_faults one_claim empty_disk

release-Releases_example :
    Releases text
      (bytes "web")
      one_claim
      empty_disk
      (release text (bytes "web") full_disk (one_claim, empty_disk))
release-Releases_example = release-Releases text (bytes "web") full_disk one_claim empty_disk

pub one_claim-HasValidNames : HasValidNames text one_claim
one_claim-HasValidNames k b e = refl

pub claimed_api : (claim text (bytes "api") no_faults (one_claim, empty_disk)).0 ≡ done
unfolding claim is_claimed lookup eqb_bytes save insert
claimed_api = refl

claim_persists_example :
    (t : FileStore) × (open_store text false
        (claim text (bytes "api") no_faults (one_claim, empty_disk)).2
      ≡ some t)
    × ((j : Bytes) → is_claimed t j ≡ (if bytes "api" == j then true else is_claimed one_claim j))
claim_persists_example =
    claim_persists text (bytes "api") no_faults one_claim empty_disk one_claim-HasValidNames refl
      claimed_api

released_web : (release text (bytes "web") no_faults (one_claim, empty_disk)).0 ≡ done
unfolding release save
released_web = refl

refused_api :
    (claim text (bytes "api") full_disk (one_claim, empty_disk)).0
    ≡ failed (system (bytes "no space left on device"))
unfolding claim is_claimed lookup eqb_bytes save insert
refused_api = refl

false-true : false ≢ true
false-true h = cc

other_name : bytes "web" ≢ bytes "api"
unfolding eqb_bytes
other_name h = false-true ((eqb_bytes_iff (bytes "web") (bytes "api")).1 h)

-- Another name is claimed and released after that.
abbrev later : List Call
later = claims (bytes "docs") no_faults ∷ releases (bytes "web") no_faults ∷ []

abbrev stuck : FileStore × Disk
stuck =
    let (o, s, d) = claim text (bytes "api") full_disk (one_claim, empty_disk) in
    run text later (s, d)

claim_failed_save_example :
    (is_claimed one_claim (bytes "api") ≡ false)
    × ((claim text (bytes "api") full_disk (one_claim, empty_disk)).2.file ≡ none)
    × (claim text (bytes "api") no_faults (stuck.0, stuck.1)
        ≡ (failed already_claimed, stuck.0, stuck.1))
claim_failed_save_example =
    claim_failed_save text (bytes "api") (bytes "no space left on device") full_disk no_faults
      one_claim empty_disk later (tt, (other_name, tt)) refused_api

one_claim-AllHeld : AllHeld one_claim
unfolding lookup
one_claim-AllHeld k b e = ground arith

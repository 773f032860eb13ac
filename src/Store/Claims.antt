-- ===== src/Store/Claims.antt =====
-- Claim and Release of internal/store/store.go.
use lotun.Base.{
  Bool, true, false, ◌≡◌, refl, ◌≢◌, inl, inr, Option, none, some, arith, Bool-cases, ◌==◌,
  if◌then◌else◌,
}
use lotun.Base.Bytes.{Bytes, bytes_eq}
use lotun.Dict.{Dict, lookup, insert}
use lotun.Dict.Laws.{lookup-insert, lookup-delete}
use lotun.Json.{JsonText}
use lotun.Store.{
  FileStore, Disk, Faults, Outcome, done, failed, panics, system, already_claimed, save, claim,
  release, is_claimed,
}
use lotun.Store.Save.{document, first_error, ends_with, save_lem, save-ends_with}

is_claimed-insert :
    (m : Dict Bytes Bool) (name j : Bytes)
    → is_claimed (record { names = some (insert name true m) }) j
      ≡ (if name == j then true else is_claimed (record { names = some m }) j)
unfolding is_claimed
is_claimed-insert m name j = ground (arith, lookup-insert name j true m)

module _ (json : JsonText) where
  -- The file holds the document of the store, or, with `old`, what it held before.
  abbrev pub Written : FileStore → Disk → Outcome → Disk → Type 0
  Written s d done d' = (d'.file ≡ some (document json s)) × (d'.strays ≡ d.strays)
  Written s d (failed already_claimed) d' = ⊥
  Written s d (failed (system e)) d' = d'.file ≡ d.file
  Written s d panics d' = ⊥

  save-Written :
      (s : FileStore) (f : Faults) (d : Disk) → Written s d (save json s f d).0 (save json s f d).1
  save-Written s f d = elim (save_lem json s f d) [
    | inl (_, e, e') ↦ rw (e, e', Written) (refl, refl)
    | inr (_, (x, e), file, _, _) ↦ rw (e, Written) file
  ]

  -- Claim(name) on every branch, given the errors of the system.
  abbrev pub Claims : Bytes → Faults → FileStore → Disk → Outcome × FileStore × Disk → Type 0
  Claims name f s d (failed already_claimed, s', d') =
      (is_claimed s name ≡ true) × (s' ≡ s) × (d' ≡ d)
  Claims name f s d (panics, s', d') = (s.names ≡ none) × (s' ≡ s) × (d' ≡ d)
  Claims name f s d (outcome, s', d') =
      (is_claimed s name ≡ false)
      × (s.names ≢ none)
      × (outcome ≡ ends_with (first_error f))
      × ((j : Bytes) → is_claimed s' j ≡ (if name == j then true else is_claimed s j))
      × Written s' d outcome d'

  Claims-save :
      (name : Bytes) (f : Faults) (s s' : FileStore) (d d' : Disk) (o : Outcome)
      → is_claimed s name ≡ false
      → s.names ≢ none
      → o ≡ ends_with (first_error f)
      → ((j : Bytes) → is_claimed s' j ≡ (if name == j then true else is_claimed s j))
      → Written s' d o d'
      → Claims name f s d (o, s', d')
  Claims-save name f s s' d d' (failed already_claimed) h m e k w = absurd w
  Claims-save name f s s' d d' panics h m e k w = absurd w
  Claims-save name f s s' d d' done h m e k w = (h, m, e, k, w)
  Claims-save name f s s' d d' (failed (system x)) h m e k w = (h, m, e, k, w)

  claim-Claims_of :
      (name : Bytes) (f : Faults) (names : Option (Dict Bytes Bool)) (d : Disk)
      → let s : FileStore = record { names = names } in Claims name f s d (claim json name f (s, d))
  unfolding claim is_claimed lookup
  claim-Claims_of name f none d = (refl, refl, refl)
  claim-Claims_of name f (some m) d =
      let s : FileStore = record { names = some m } in
      elim (Bool-cases (is_claimed s name)) [
        | inl claimed ↦ rw claimed (claimed, refl, refl)
        | inr free ↦ rw free (
            Claims-save name f s _ d _ _ free (λ e. cc) (save-ends_with json _ f d)
              (is_claimed-insert m name) (save-Written _ f d))
      ]

  -- Claim on every branch: a held name is refused and nothing changes; on a nil map, and only
  -- there, it panics and nothing changes; otherwise exactly the name is added in memory, Claim
  -- returns nil if no call of the disk fails and else the first error, and the file holds the new
  -- document if nil is returned and what it held before if the disk fails.
  pub claim-Claims :
      (name : Bytes) (f : Faults) (s : FileStore) (d : Disk)
      → Claims name f s d (claim json name f (s, d))
  claim-Claims name f s d = claim-Claims_of name f s.names d

  -- Release(name) on every branch: it never panics, and it frees the name in memory at once.
  abbrev pub Releases : Bytes → FileStore → Disk → Outcome × FileStore × Disk → Type 0
  Releases name s d (outcome, s', d') =
      ((j : Bytes) → is_claimed s' j ≡ (if name == j then false else is_claimed s j))
      × Written s' d outcome d'

  release-Releases_of :
      (name : Bytes) (f : Faults) (names : Option (Dict Bytes Bool)) (d : Disk)
      → let s : FileStore = record { names = names } in
        Releases name s d (release json name f (s, d))
  unfolding release is_claimed lookup
  release-Releases_of name f none d = (λ j. ground arith, save-Written _ f d)
  release-Releases_of name f (some m) d =
      (λ j. ground (arith, lookup-delete name j m), save-Written _ f d)

  -- Release never panics; it frees exactly the name in memory, whether or not the disk fails, and
  -- the file holds the new document if nil is returned and what it held before otherwise.
  pub release-Releases :
      (name : Bytes) (f : Faults) (s : FileStore) (d : Disk)
      → Releases name s d (release json name f (s, d))
  release-Releases name f s d = release-Releases_of name f s.names d

  pub claim_again :
      (name : Bytes) (f : Faults) (s : FileStore) (d : Disk)
      → is_claimed s name ≡ true
      → claim json name f (s, d) ≡ (failed already_claimed, s, d)
  unfolding claim
  claim_again name f s d h = rw h

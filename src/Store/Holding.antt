-- ===== src/Store/Holding.antt =====
-- A name whose Claim failed on the disk: calls of Claim and Release in internal/store/store.go, one
-- after the other.
use lotun.Base.{true, false, ◌≡◌, ◌≢◌, refl, ◌∙◌, subst, List, [], ◌∷◌, All, arith}
use lotun.Base.Bytes.{Bytes, bytes_eq, eqb_bytes_iff}
use lotun.Json.{JsonText}
use lotun.Store.{
  FileStore, Disk, Faults, Outcome, done, failed, panics, system, already_claimed, claim, release,
  is_claimed,
}
use lotun.Store.Claims.{Claims, claim-Claims, release-Releases, claim_again}

-- A call, and what the system answers to it.
pub data Call : Type 0 where
  claims : Bytes → Faults → Call
  releases : Bytes → Faults → Call

abbrev pub KeepsName : Bytes → Call → Type 0
KeepsName name (claims other f) = Unit
KeepsName name (releases other f) = other ≢ name

module _ (json : JsonText) where
  unfoldable pub apply : Call → FileStore × Disk → FileStore × Disk
  apply (claims name f) (s, d) = let (o, s', d') = claim json name f (s, d) in (s', d')
  apply (releases name f) (s, d) = let (o, s', d') = release json name f (s, d) in (s', d')

  unfoldable pub run : List Call → FileStore × Disk → FileStore × Disk
  run [] a = a
  run (c ∷ cs) a = run cs (apply c a)

  Claims-holds :
      (name other : Bytes) (f : Faults) (s : FileStore) (d : Disk) (a : Outcome × FileStore × Disk)
      → Claims json other f s d a
      → is_claimed s name ≡ true
      → is_claimed a.1 name ≡ true
  Claims-holds name other f s d (failed already_claimed, s', d') (_, same, _) h = rw same h
  Claims-holds name other f s d (panics, s', d') (_, same, _) h = rw same h
  Claims-holds name other f s d (done, s', d') (_, _, _, known, _) h = ground (arith, known name)
  Claims-holds name other f s d (failed (system e), s', d') (_, _, _, known, _) h =
      ground (arith, known name)

  apply-holds :
      (name : Bytes) (c : Call) (s : FileStore) (d : Disk)
      → KeepsName name c
      → is_claimed s name ≡ true
      → is_claimed (apply c (s, d)).0 name ≡ true
  unfolding apply
  apply-holds name (claims other f) s d keeps h =
      Claims-holds name other f s d _ (claim-Claims json other f s d) h
  apply-holds name (releases other f) s d keeps h =
      ground (arith, (release-Releases json other f s d).0 name, eqb_bytes_iff other name)

  run-holds :
      (name : Bytes) (cs : List Call) (a : FileStore × Disk)
      → All (KeepsName name) cs
      → is_claimed a.0 name ≡ true
      → is_claimed (run cs a).0 name ≡ true
  unfolding run
  run-holds name [] a keeps h = h
  run-holds name (c ∷ cs) a (keep, keeps) h =
      run-holds name cs (apply c a) keeps (apply-holds name c a.0 a.1 keep h)

  -- If a Claim fails on the disk, the name was free and the file is unchanged, yet after any
  -- calls of Claim and Release on that store, none of which releases the name, a Claim of it is
  -- refused as already claimed, whatever the disk does then.
  pub claim_failed_save :
      (name e : Bytes) (f g : Faults) (s : FileStore) (d : Disk) (cs : List Call)
      → All (KeepsName name) cs
      → let (outcome, s', d') = claim json name f (s, d) in
        outcome ≡ failed (system e)
        → let (s₂, d₂) = run cs (s', d') in
          (is_claimed s name ≡ false)
          × (d'.file ≡ d.file)
          × (claim json name g (s₂, d₂) ≡ (failed already_claimed, s₂, d₂))
  claim_failed_save name e f g s d cs keeps h =
      let o = claim json name f (s, d) in
      let (free, _, _, known, kept) =
        subst (λ x. Claims json name f s d (x, o.1, o.2)) h (claim-Claims json name f s d) in
      let held = known name ∙ rw ((eqb_bytes_iff name name).1 refl) refl in
      let later = run cs (o.1, o.2) in
      (
        free,
        kept,
        claim_again json name g later.0 later.1 (run-holds name cs (o.1, o.2) keeps held),
      )

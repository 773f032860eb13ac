-- ===== src/Store/Save.antt =====
-- save of internal/store/store.go.
use lotun.Base.{◌+◌, ◌≤◌, true, ◌≡◌, refl, ◌⊎◌, inl, inr, Option, none, some, arith, Option-cases}
use lotun.Base.Bytes.{Bytes}
use lotun.Json.{JsonText}
use lotun.Store.{FileStore, Disk, Faults, Outcome, done, failed, system, save, marshal_names}

abbrev pub IsClean : Faults → Type 0
IsClean f = (f.create ≡ none) × (f.write ≡ none) × (f.close ≡ none) × (f.rename ≡ none)

-- The first call that fails ends a save.
abbrev pub or_else : Option Bytes → Option Bytes → Option Bytes
or_else none next = next
or_else (some e) next = some e

abbrev pub first_error : Faults → Option Bytes
first_error f = or_else f.create (or_else f.write (or_else f.close f.rename))

abbrev pub ends_with : Option Bytes → Outcome
ends_with none = done
ends_with (some e) = failed (system e)

-- The text that `save` writes.
abbrev pub document : JsonText → FileStore → Bytes
document json s = json.print (marshal_names s.names)

-- save returns nil exactly if each system call does, and then the file holds the document and
-- nothing else changes; otherwise it returns an error of the system, the file is what it was, at
-- most one temporary file is left behind, and none if rename did not fail and removals succeed.
pub save_lem :
    (json : JsonText) (s : FileStore) (f : Faults) (d : Disk)
    → let (outcome, d') = save json s f d in
      (IsClean f × (outcome ≡ done) × (d' ≡ record d { file = some (document json s) }))
      ⊎ (¬ IsClean f
          × ((e : Bytes) × (outcome ≡ failed (system e)))
          × (d'.file ≡ d.file)
          × (f.removes ≡ true → f.rename ≡ none → d'.strays ≡ d.strays)
          × (d'.strays ≤ d.strays + 1))
unfolding save
save_lem json s f d = elim (Option-cases f.create) [
  | inr (e, h) ↦ rw (h, save) (inr (λ c. cc, (e, refl), refl, λ _ _. refl, omega arith))
  | inl h₁ ↦ elim (Option-cases f.write) [
    | inr (e, h) ↦
        rw (h₁, h, save) (inr (λ c. cc, (e, refl), ground arith, λ r _. ground arith, ground arith))
    | inl h₂ ↦ elim (Option-cases f.close) [
      | inr (e, h) ↦
          rw (h₁, h₂, h, save)
            (inr (λ c. cc, (e, refl), ground arith, λ r _. ground arith, ground arith))
      | inl h₃ ↦ elim (Option-cases f.rename) [
        | inr (e, h) ↦
            rw (h₁, h₂, h₃, h, save) (inr (λ c. cc, (e, refl), refl, λ _ n. cc, omega arith))
        | inl h₄ ↦ rw (h₁, h₂, h₃, h₄, save) (inl ((refl, refl, refl, refl), refl, refl))
      ]
    ]
  ]
]

pub save-ends_with :
    (json : JsonText) (s : FileStore) (f : Faults) (d : Disk)
    → (save json s f d).0 ≡ ends_with (first_error f)
unfolding save
save-ends_with json s f d = elim (Option-cases f.create) [
  | inr (e, h) ↦ rw (h, save) refl
  | inl h₁ ↦ elim (Option-cases f.write) [
    | inr (e, h) ↦ rw (h₁, h, save) refl
    | inl h₂ ↦ elim (Option-cases f.close) [
      | inr (e, h) ↦ rw (h₁, h₂, h, save) refl
      | inl h₃ ↦ elim (Option-cases f.rename) [
        | inr (e, h) ↦ rw (h₁, h₂, h₃, h, save) refl
        | inl h₄ ↦ rw (h₁, h₂, h₃, h₄, save) refl
      ]
    ]
  ]
]

-- ===== src/Registry/FreeName.antt =====
-- freeName of internal/server/registry.go: the name of a tunnel that asks for none.
use lotun.Base.{
  ℕ, zero, suc, ◌<◌, Bool, true, false, not, ◌≡◌, ◌↔◌, refl, ◌⊎◌, inl, inr, none, arith, Bool-cases,
  ◌&&◌,
}
use lotun.Base.Bytes.{Bytes}
use lotun.Names.{Rand, generate_from}
use lotun.Registry.{Registry, sub_taken, lookup_http, free_name_from, free_name, name_tries}

-- The name that the source yields after `i` others.
unfoldable pub nth_name : ℕ → Rand → Bytes
nth_name zero rng = (generate_from rng).0
nth_name (suc i) rng = nth_name i (generate_from rng).1

-- Neither claimed nor serving an http tunnel.
abbrev pub IsFreeName : (Bytes → Bool) → Registry → Bytes → Type 0
IsFreeName claimed r n = (lookup_http r n ≡ none) × (claimed n ≡ false)

IsFreeName-iff :
    (claimed : Bytes → Bool) (r : Registry) (n : Bytes)
    → ((not (sub_taken r n) && not (claimed n)) ≡ true) ↔ IsFreeName claimed r n
unfolding sub_taken lookup_http
IsFreeName-iff claimed r n = (λ h. (ground arith, ground arith), λ h. ground (arith, h.0, h.1))

abbrev pub NoneFree : (Bytes → Bool) → Registry → ℕ → Rand → Type 0
NoneFree claimed r k rng = (j : ℕ) → j < k → ¬ IsFreeName claimed r (nth_name j rng)

NoneFree-suc :
    (claimed : Bytes → Bool) (r : Registry) (k : ℕ) (rng : Rand)
    → ¬ IsFreeName claimed r (generate_from rng).0
    → NoneFree claimed r k (generate_from rng).1
    → NoneFree claimed r (suc k) rng
unfolding nth_name
NoneFree-suc claimed r k rng now later zero lt = now
NoneFree-suc claimed r k rng now later (suc j) lt = later j (omega arith)

-- Whether the `i`-th name that the source yields is the first free one, and the answer.
abbrev pub FirstFree : (Bytes → Bool) → Registry → Rand → ℕ → Bytes → Type 0
FirstFree claimed r rng i n =
    (n ≡ nth_name i rng) × IsFreeName claimed r n × NoneFree claimed r i rng

free_name_from-FirstFree :
    (tries : ℕ) (claimed : Bytes → Bool) (r : Registry) (rng : Rand)
    → ((i : ℕ) × (i < tries) × FirstFree claimed r rng i (free_name_from tries claimed r rng).0)
      ⊎ (((free_name_from tries claimed r rng).0 ≡ nth_name tries rng)
          × NoneFree claimed r tries rng)
unfolding free_name_from nth_name
free_name_from-FirstFree zero claimed r rng = inr (refl, λ j lt. absurd (omega arith))
free_name_from-FirstFree (suc tries) claimed r rng =
    let n = (generate_from rng).0 in
    let iff = IsFreeName-iff claimed r n in
    elim (Bool-cases (not (sub_taken r n) && not (claimed n))) [
      | inl free ↦ inl (
        0,
        omega arith,
        rw (free, free_name_from) (refl, iff.0 free, λ j lt. absurd (omega arith)),
      )
      | inr busy ↦
          let now : ¬ IsFreeName claimed r n = λ h. cc (busy, iff.1 h) in
          elim (free_name_from-FirstFree tries claimed r (generate_from rng).1) [
            | inl (i, lt, (e, free, before)) ↦ inl (
              suc i,
              omega arith,
              rw (busy, free_name_from) (e, free, NoneFree-suc claimed r i rng now before),
            )
            | inr (e, none_free) ↦
                inr (rw (busy, free_name_from) e, NoneFree-suc claimed r tries rng now none_free)
          ]
    ]

-- freeName answers the first name, among the first 1000 that the source yields, that is neither
-- claimed nor serving; where none of these is free it answers the next one, whatever that is.
pub free_name-FirstFree :
    (claimed : Bytes → Bool) (r : Registry) (rng : Rand)
    → ((i : ℕ) × (i < name_tries) × FirstFree claimed r rng i (free_name claimed r rng).0)
      ⊎ (((free_name claimed r rng).0 ≡ nth_name name_tries rng)
          × NoneFree claimed r name_tries rng)
unfolding free_name
free_name-FirstFree claimed r rng = free_name_from-FirstFree name_tries claimed r rng

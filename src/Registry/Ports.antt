-- ===== src/Registry/Ports.antt =====
-- allocPort of internal/server/registry.go: which public port a tcp tunnel gets.
use lotun.Base.{
  ℕ, zero, suc, true, false, ◌≡◌, ◌≢◌, refl, ◌⊎◌, inl, inr, arith, Bool-cases, not, ◌&&◌, ◌||◌,
}
use lotun.Base.Int.{ℤ, pos, ◌+ℤ◌, ◌≤ℤ◌, ◌<ℤ◌, +ℤ_parts, eqb_ℤ, ltb_ℤ, eqb_ℤ_iff}
use lotun.Registry.{
  Registry, port_in_use, port_out_of_range, ports_exhausted, Result, ok, err, port_taken,
  scan_ports, range_size, alloc_port, in_range, in_range,
}

abbrev pub InRange : Registry → ℤ → Type 0
InRange r p = (r.port_min ≤ℤ p) × (p ≤ℤ r.port_max)

-- Every port from `p` on and below `q` is taken.
abbrev pub TakenBetween : Registry → ℤ → ℤ → Type 0
TakenBetween r p q = (s : ℤ) → p ≤ℤ s → s <ℤ q → port_taken r s ≡ true

-- A scan of `n` ports from `p` on yields the lowest free one, or finds them all taken.
abbrev Scanned : ℕ → Registry → ℤ → Result ℤ → Type 0
Scanned n r p (ok q) = (p ≤ℤ q) × (q <ℤ p +ℤ pos n) × (port_taken r q ≡ false) × TakenBetween r p q
Scanned n r p (err e) = (e ≡ ports_exhausted) × TakenBetween r p (p +ℤ pos n)

TakenBetween-step :
    (r : Registry) (p q : ℤ)
    → port_taken r p ≡ true
    → TakenBetween r (p +ℤ pos 1) q
    → TakenBetween r p q
TakenBetween-step r p q here later s lo hi = elim (Bool-cases (eqb_ℤ p s)) [
  | inl e ↦ rw (← ((eqb_ℤ_iff p s).0 e)) here
  | inr ne ↦ later s (ground (arith, +ℤ_parts p (pos 1))) hi
]

Scanned-step :
    (n : ℕ) (r : Registry) (p : ℤ) (a : Result ℤ)
    → port_taken r p ≡ true
    → Scanned n r (p +ℤ pos 1) a
    → Scanned (suc n) r p a
Scanned-step n r p (ok q) here (lo, hi, free, below) = (
  omega (arith, +ℤ_parts p (pos 1)),
  omega (arith, +ℤ_parts p (pos 1), +ℤ_parts p (pos (suc n)), +ℤ_parts (p +ℤ pos 1) (pos n)),
  free,
  TakenBetween-step r p q here below,
)
Scanned-step n r p (err e) here (e', below) = (
  e',
  TakenBetween-step r p _ here (λ s lo hi.
      below s lo (
        omega
          (arith, +ℤ_parts p (pos 1), +ℤ_parts p (pos (suc n)), +ℤ_parts (p +ℤ pos 1) (pos n)))),
)

scan_ports-Scanned : (n : ℕ) (r : Registry) (p : ℤ) → Scanned n r p (scan_ports n r p)
unfolding scan_ports
scan_ports-Scanned zero r p = (refl, λ s lo hi. absurd (omega (arith, +ℤ_parts p (pos 0))))
scan_ports-Scanned (suc n) r p = elim (Bool-cases (port_taken r p)) [
  | inl t ↦ rw (t, scan_ports) (Scanned-step n r p _ t (scan_ports-Scanned n r (p +ℤ pos 1)))
  | inr f ↦
      rw (f, scan_ports)
        (omega arith, omega (arith, +ℤ_parts p (pos (suc n))), f, λ s lo hi. absurd (omega arith))
]

-- What allocPort may answer to a wanted port and a local port.
abbrev pub Allocated : Registry → ℤ → ℤ → Result ℤ → Type 0
Allocated r want local_port (ok p) =
    InRange r p
    × (port_taken r p ≡ false)
    × (((want ≢ pos 0) × (p ≡ want))
        ⊎ ((want ≡ pos 0)
            × ((p ≡ local_port)
                ⊎ (¬ (InRange r local_port × (port_taken r local_port ≡ false))
                    × TakenBetween r r.port_min p))))
Allocated r want local_port (err port_out_of_range) = (want ≢ pos 0) × ¬ InRange r want
Allocated r want local_port (err port_in_use) =
    (want ≢ pos 0) × InRange r want × (port_taken r want ≡ true)
Allocated r want local_port (err ports_exhausted) =
    (want ≡ pos 0) × ((p : ℤ) → InRange r p → port_taken r p ≡ true)
Allocated r want local_port (err _) = ⊥

Allocated-scan :
    (r : Registry) (want local_port : ℤ) (a : Result ℤ)
    → want ≡ pos 0
    → ¬ (InRange r local_port × (port_taken r local_port ≡ false))
    → Scanned (range_size r) r r.port_min a
    → Allocated r want local_port a
unfolding range_size
Allocated-scan r want local_port (ok p) w unfit (lo, hi, free, below) = (
  (lo, omega (arith, +ℤ_parts r.port_min (pos (range_size r)))),
  free,
  inr (w, inr (unfit, below)),
)
Allocated-scan r want local_port (err ports_exhausted) w unfit (e, below) =
    (w, λ p range. below p range.0 (omega (arith, +ℤ_parts r.port_min (pos (range_size r)), range)))
Allocated-scan r want local_port (err _) w unfit (e, below) = cc

-- allocPort on every branch: a wanted port is given exactly if it is in range and free, with the
-- error that says which failed; with none wanted, the local port is given if it is in range and
-- free, and otherwise the lowest free port of the range; it reports exhaustion exactly where
-- every port of the range is taken.
pub alloc_port-Allocated :
    (r : Registry) (want local_port : ℤ)
    → Allocated r want local_port (alloc_port r want local_port)
unfolding alloc_port
alloc_port-Allocated r want local_port = elim (Bool-cases (eqb_ℤ want (pos 0))) [
  | inl zero_want ↦
      let w : want ≡ pos 0 = (eqb_ℤ_iff want (pos 0)).0 zero_want in
      elim (Bool-cases (in_range r local_port && not (port_taken r local_port))) [
        | inl fit ↦ rw (zero_want, fit) (ground arith, ground arith, inr (w, inl refl))
        | inr unfit ↦
            rw (zero_want, unfit)
              (Allocated-scan r want local_port _ w (ground arith)
                (scan_ports-Scanned (range_size r) r r.port_min))
      ]
  | inr wanted ↦
      let w : want ≢ pos 0 = λ e. ground arith in
      elim (Bool-cases (ltb_ℤ want r.port_min || ltb_ℤ r.port_max want)) [
        | inl outside ↦ rw (wanted, outside) (w, λ range. ground arith)
        | inr inside ↦ elim (Bool-cases (port_taken r want)) [
          | inl taken ↦ rw (wanted, inside, taken) (w, ground arith, taken)
          | inr free ↦ rw (wanted, inside, free) (ground arith, free, inl (w, refl))
        ]
      ]
]

-- ===== src/Registry/History.antt =====
-- The Registry of internal/server/registry.go over any sequence of calls.
use lotun.Base.{ℕ, Bool, ◌≡◌, refl, ◌∙◌, inl, inr, List, [], ◌∷◌, arith}
use lotun.Base.Int.{ℤ}
use lotun.Base.Bytes.{Bytes}
use lotun.Names.{Rand}
use lotun.Protocol.{Register}
use lotun.Registry.{
  Registry, Tunnel, Result-cases, new_registry, resolve_sub, place, register, remove,
  remove_session, requested,
}
use lotun.Registry.Valid.{
  IsValid, new_registry-IsValid, register-IsValid, remove-IsValid, remove_session-IsValid,
}

-- A call of a method that changes the table, with the claims that it reads and what it draws.
pub data Call : Type 0 where
  registers : (Bytes → Bool) → Register → ℕ → Bytes → List ℕ → Rand → Call
  removes : Bytes → Call
  removes_session : ℕ → Call

unfoldable pub apply : Registry → Call → Registry
apply r (registers claimed req sess password seed rng) =
    (register claimed r req sess password seed rng).0
apply r (removes id) = remove r id
apply r (removes_session sess) = (remove_session r sess).0

unfoldable pub run : Registry → List Call → Registry
run r [] = r
run r (c ∷ cs) = run (apply r c) cs

pub apply-IsValid : (r : Registry) (c : Call) → IsValid r → IsValid (apply r c)
unfolding apply
apply-IsValid r (registers claimed req sess password seed rng) v =
    register-IsValid claimed r req sess password seed rng v
apply-IsValid r (removes id) v = remove-IsValid r id v
apply-IsValid r (removes_session sess) v = remove_session-IsValid r sess v

run-IsValid_from : (r : Registry) (cs : List Call) → IsValid r → IsValid (run r cs)
unfolding run
run-IsValid_from r [] v = v
run-IsValid_from r (c ∷ cs) v = run-IsValid_from (apply r c) cs (apply-IsValid r c v)

-- No call moves the range of ports.
abbrev SameRange : Registry → Registry → Type 0
SameRange r r' = (r'.port_min ≡ r.port_min) × (r'.port_max ≡ r.port_max)

place-SameRange : (r : Registry) (req : Register) (tn : Tunnel) → SameRange r (place r req tn).0
unfolding place
place-SameRange r req tn = ground arith

register-SameRange :
    (claimed : Bytes → Bool) (r : Registry) (req : Register) (sess : ℕ) (password : Bytes)
    (seed : List ℕ) (rng : Rand)
    → SameRange r (register claimed r req sess password seed rng).0
unfolding register requested
register-SameRange claimed r req sess password seed rng =
    elim (Result-cases (resolve_sub claimed r req.domain rng).0) [
      | inl (e, h) ↦ rw (h, register) (refl, refl)
      | inr (sub, h) ↦ rw (h, register) (place-SameRange r req _)
    ]

apply-SameRange : (r : Registry) (c : Call) → SameRange r (apply r c)
unfolding apply remove remove_session
apply-SameRange r (registers claimed req sess password seed rng) =
    register-SameRange claimed r req sess password seed rng
apply-SameRange r (removes id) = (refl, refl)
apply-SameRange r (removes_session sess) = (refl, refl)

run-SameRange : (r : Registry) (cs : List Call) → SameRange r (run r cs)
unfolding run
run-SameRange r [] = (refl, refl)
run-SameRange r (c ∷ cs) =
    let (lo, hi) = apply-SameRange r c in
    let (lo', hi') = run-SameRange (apply r c) cs in (lo' ∙ lo, hi' ∙ hi)

-- After any sequence of Register, Remove and RemoveSession calls on a new registry the tables are
-- valid (each entry stands once under its own key, a tcp entry has its own port within the range,
-- and a private one has an address list), and the range of ports is the one that the registry was
-- made with.
pub run-IsValid :
    (lo hi : ℤ) (cs : List Call)
    → let r = run (new_registry lo hi) cs in IsValid r × (r.port_min ≡ lo) × (r.port_max ≡ hi)
unfolding new_registry
run-IsValid lo hi cs =
    let (same_lo, same_hi) = run-SameRange (new_registry lo hi) cs in
    (run-IsValid_from _ cs (new_registry-IsValid lo hi), same_lo, same_hi)

-- ===== src/Cli/Checks/Ports.antt =====
-- parsePort of cmd/lotun/commands.go.
use lotun.Base.{◌≡◌, ◌⊎◌, inl, inr, ◌↔◌, some, arith, Option-cases}
use lotun.Base.Int.{ℤ, pos, ◌≤ℤ◌, ◌<ℤ◌}
use lotun.Base.Bytes.{Bytes}
use lotun.Base.Decimal.{itoa, atoi, IsInt64, atoi-itoa}
use lotun.Cli.{accepted, rejected, port_out_of_range, parse_port}

pub parse_port_iff :
    (s : Bytes) (p : ℤ)
    → (parse_port s ≡ accepted p) ↔ ((atoi s ≡ some p) × (pos 1 ≤ℤ p) × (p ≤ℤ pos 65535))
unfolding parse_port
parse_port_iff s p = elim (Option-cases (atoi s)) [
  | inl e ↦ rw (e, parse_port) (λ h. cc, λ h. cc)
  | inr (q, e) ↦ rw (e, parse_port) (λ h. ground arith, λ h. ground arith)
]

-- parsePort of the decimal text of an int64 gives that number if it is from 1 to 65535, and
-- otherwise the error that names it as out of range.
pub parse_port-itoa :
    (n : ℤ)
    → IsInt64 n
    → ((pos 1 ≤ℤ n) × (n ≤ℤ pos 65535) × (parse_port (itoa n) ≡ accepted n))
      ⊎ (((n <ℤ pos 1) ⊎ (pos 65535 <ℤ n)) × (parse_port (itoa n) ≡ rejected (port_out_of_range n)))
unfolding parse_port
parse_port-itoa n h = rw (atoi-itoa n h, parse_port) (ground arith)

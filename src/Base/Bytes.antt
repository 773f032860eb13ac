-- ===== src/Base/Bytes.antt =====
-- Go strings, as the lists of their bytes.
use Prim.Native.Char.{code}
use Prim.Native.String.{String}
use Prim.Native.Nat.{ℕ}
use mathlib.Core.Path.{◌≡◌}
use mathlib.Core.Logic.{◌↔◌}
use mathlib.Core.Bool.{Bool, true, false, ◌&&◌}
use mathlib.Core.List.{List, [], ◌∷◌}
use native.Mathlib.Omega.{arith}
use lotun.Base.Tests.{eqb, Eq}

abbrev pub Bytes : Type 0
Bytes = List ℕ

-- The bytes of an ASCII literal.
abbrev pub bytes : String → Bytes
bytes String.[] = []
bytes (String.◌∷◌ c s) = code c ∷ bytes s

unfoldable pub eqb_bytes : Bytes → Bytes → Bool
eqb_bytes [] [] = true
eqb_bytes [] (b ∷ t) = false
eqb_bytes (a ∷ s) [] = false
eqb_bytes (a ∷ s) (b ∷ t) = eqb a b && eqb_bytes s t

pub eqb_bytes_iff : (s t : Bytes) → (eqb_bytes s t ≡ true) ↔ (s ≡ t)
unfolding eqb_bytes
eqb_bytes_iff [] [] = ground arith
eqb_bytes_iff [] (b ∷ t) = ground arith
eqb_bytes_iff (a ∷ s) [] = ground arith
eqb_bytes_iff (a ∷ s) (b ∷ t) = ground (arith, eqb_bytes_iff s t)

instance abbrev pub bytes_eq : Eq Bytes
bytes_eq = record { beq = eqb_bytes; beq_iff = eqb_bytes_iff }

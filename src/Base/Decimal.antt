-- ===== src/Base/Decimal.antt =====
-- Numbers in decimal: `%d` and strconv.Itoa, and strconv.Atoi.
use Prim.Native.Nat.{ℕ, zero, suc, ◌+◌, ◌-◌, ◌*◌, ◌/◌, ◌%◌, ◌^◌, ◌≤◌, ◌<◌}
use mathlib.Core.Path.{◌≡◌, refl, ◌∙◌}
use mathlib.Core.Bool.{Bool, ◌&&◌}
use mathlib.Core.Logic.{inl, inr, ◌≢◌}
use mathlib.Core.List.{[], ◌∷◌, ◌++◌}
use mathlib.Core.Option.{Option, none, some}
use native.Mathlib.Omega.{arith}
use lotun.Base.Tests.{ltb, leb, if◌then◌else◌, Bool-cases, eqb}
use lotun.Base.Int.{ℤ, pos, negsuc, ◌≤ℤ◌}
use lotun.Base.Bytes.{Bytes}

-- Each round takes one digit off, so `n + 1` rounds are enough for `n`.
unfoldable pub digits_from : ℕ → ℕ → Bytes
digits_from zero n = []
digits_from (suc rounds) n =
    let high = digits_from rounds (n / 10) in
    if ltb n 10 then (n + b'0') ∷ [] else high ++ ((n % 10 + b'0') ∷ [])

unfoldable pub itoa : ℤ → Bytes
unfolding digits_from
itoa (pos n) = digits_from (suc n) n
itoa (negsuc n) = b'-' ∷ digits_from (suc (suc n)) (suc n)

unfoldable pub is_digit : ℕ → Bool
is_digit c = leb b'0' c && leb c b'9'

-- The value of a run of digits, read from the left; `none` where some byte is no digit.
unfoldable pub parse_digits : ℕ → Bytes → Option ℕ
unfolding is_digit
parse_digits acc [] = some acc
parse_digits acc (c ∷ cs) = if is_digit c then parse_digits (acc * 10 + (c - b'0')) cs else none

unfoldable pub parse_unsigned : Bytes → Option ℕ
parse_unsigned [] = none
parse_unsigned (c ∷ cs) = parse_digits 0 (c ∷ cs)

-- -n, as an integer.
abbrev pub neg : ℕ → ℤ
neg zero = pos 0
neg (suc n) = negsuc n

-- The sign, then digits, then the range of an int64.
unfoldable pub atoi : Bytes → Option ℤ
atoi [] = none
atoi (c ∷ cs) =
    if eqb c b'-'
    then elim (parse_unsigned cs) [
      | none ↦ none
      | some n ↦ if leb n (2 ^ 63) then some (neg n) else none
    ]
    else elim (parse_unsigned (if eqb c b'+' then cs else c ∷ cs)) [
      | none ↦ none
      | some n ↦ if ltb n (2 ^ 63) then some (pos n) else none
    ]

parse_digits-append :
    (xs ys : Bytes) (acc v : ℕ)
    → parse_digits acc xs ≡ some v
    → parse_digits acc (xs ++ ys) ≡ parse_digits v ys
unfolding parse_digits
parse_digits-append [] ys acc v h = ground arith
parse_digits-append (x ∷ xs) ys acc v h =
    ground (arith, parse_digits-append xs ys (acc * 10 + (x - b'0')) v)

parse_digits-digits_from :
    (rounds n : ℕ) → n < rounds → parse_digits 0 (digits_from rounds n) ≡ some n
unfolding digits_from parse_digits
parse_digits-digits_from zero n h = elim h [ ]
parse_digits-digits_from (suc rounds) n h = elim (Bool-cases (ltb n 10)) [
  | inl small ↦ rw small (ground arith)
  | inr big ↦ rw big (
      parse_digits-append (digits_from rounds (n / 10)) _ 0 (n / 10)
        (parse_digits-digits_from rounds (n / 10) (ground arith))
      ∙ ground arith)
]

append-cons-ne-nil : (xs : Bytes) (c : ℕ) → xs ++ (c ∷ []) ≢ []
append-cons-ne-nil [] c h = cc
append-cons-ne-nil (x ∷ xs) c h = cc

digits_from-ne-nil : (rounds n : ℕ) → digits_from (suc rounds) n ≢ []
unfolding digits_from
digits_from-ne-nil rounds n = elim (Bool-cases (ltb n 10)) [
  | inl small ↦ rw small (λ h. cc)
  | inr big ↦ rw big (append-cons-ne-nil (digits_from rounds (n / 10)) _)
]

parse_unsigned-digits : (xs : Bytes) → xs ≢ [] → parse_unsigned xs ≡ parse_digits 0 xs
unfolding parse_unsigned
parse_unsigned-digits [] h = absurd (h refl)
parse_unsigned-digits (c ∷ cs) h = refl

atoi_digits :
    (xs : Bytes) (v : ℕ)
    → xs ≢ []
    → v < 2 ^ 63
    → parse_digits 0 xs ≡ some v
    → atoi xs ≡ some (pos v)
unfolding atoi parse_digits parse_unsigned
atoi_digits [] v ne lt h = absurd (ne refl)
atoi_digits (c ∷ cs) v ne lt h = ground arith

atoi_minus :
    (xs : Bytes) (v : ℕ)
    → xs ≢ []
    → v ≤ 2 ^ 63
    → parse_digits 0 xs ≡ some v
    → atoi (b'-' ∷ xs) ≡ some (neg v)
unfolding atoi
atoi_minus xs v ne le h = rw (parse_unsigned-digits xs ne, h) (ground arith)

-- An int64.
abbrev pub IsInt64 : ℤ → Type 0
IsInt64 n = (negsuc (2 ^ 63 - 1) ≤ℤ n) × (n ≤ℤ pos (2 ^ 63 - 1))

-- Atoi reads back what Itoa wrote of an int.
pub atoi-itoa : (n : ℤ) → IsInt64 n → atoi (itoa n) ≡ some n
unfolding itoa
atoi-itoa (pos n) h =
    atoi_digits _ n (digits_from-ne-nil n n) (omega arith)
      (parse_digits-digits_from (suc n) n (omega arith))
atoi-itoa (negsuc n) h =
    atoi_minus _ (suc n) (digits_from-ne-nil (suc n) (suc n)) (omega arith)
      (parse_digits-digits_from (suc (suc n)) (suc n) (omega arith))

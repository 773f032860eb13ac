-- ===== src/Examples/Text.antt =====
-- A text for JSON values, which shows that what the model asks of encoding/json can be had: the
-- depth of the value, then a tag before each part and a length before each string.
use lotun.Base.{
  ℕ, zero, suc, ◌+◌, ◌≤◌, Bool, true, false, ◌≡◌, refl, [], ◌∷◌, ◌++◌, Option, none, some, arith,
  length, take, drop,
}
use lotun.Base.Int.{pos, negsuc}
use lotun.Base.Bytes.{Bytes}
use lotun.Json.{
  Json, Items, Fields, JsonText, IsText, AreTexts, HasTexts, null, bool, num, real, str, arr, obj,
  nil, cons, end, field,
}
use lotun.Protocol.Frame.Chunks.{take-append, drop-append}

unfoldable mutual
  pub depth : Json → ℕ
  depth (arr xs) = suc (depth_items xs)
  depth (obj fs) = suc (depth_fields fs)
  depth _ = 1

  pub depth_items : Items → ℕ
  depth_items nil = 1
  depth_items (cons x xs) = suc (depth x + depth_items xs)

  pub depth_fields : Fields → ℕ
  depth_fields end = 1
  depth_fields (field k v fs) = suc (depth v + depth_fields fs)

-- A string with its length before it, and what follows.
abbrev pub sized : Bytes → Bytes → Bytes
sized s rest = length s ∷ (s ++ rest)

unfoldable mutual
  pub put : Json → Bytes → Bytes
  put null rest = 0 ∷ 0 ∷ rest
  put (bool false) rest = 0 ∷ 1 ∷ rest
  put (bool true) rest = 0 ∷ 2 ∷ rest
  put (num (pos n)) rest = 1 ∷ 0 ∷ n ∷ rest
  put (num (negsuc n)) rest = 1 ∷ 1 ∷ n ∷ rest
  put (real s) rest = 2 ∷ 0 ∷ sized s rest
  put (str s) rest = 2 ∷ 1 ∷ sized s rest
  put (arr xs) rest = 3 ∷ 0 ∷ put_items xs rest
  put (obj fs) rest = 3 ∷ 1 ∷ put_fields fs rest

  pub put_items : Items → Bytes → Bytes
  put_items nil rest = 0 ∷ rest
  put_items (cons x xs) rest = 1 ∷ put x (put_items xs rest)

  pub put_fields : Fields → Bytes → Bytes
  put_fields end rest = 0 ∷ rest
  put_fields (field k v fs) rest = 1 ∷ sized k (put v (put_fields fs rest))

unfoldable mutual
  pub get : ℕ → Bytes → Option (Json × Bytes)
  get (suc d) (zero ∷ zero ∷ b) = some (null, b)
  get (suc d) (zero ∷ suc zero ∷ b) = some (bool false, b)
  get (suc d) (zero ∷ suc (suc zero) ∷ b) = some (bool true, b)
  get (suc d) (suc zero ∷ zero ∷ n ∷ b) = some (num (pos n), b)
  get (suc d) (suc zero ∷ suc zero ∷ n ∷ b) = some (num (negsuc n), b)
  get (suc d) (suc (suc zero) ∷ zero ∷ n ∷ b) = some (real (take n b), drop n b)
  get (suc d) (suc (suc zero) ∷ suc zero ∷ n ∷ b) = some (str (take n b), drop n b)
  get (suc d) (suc (suc (suc zero)) ∷ zero ∷ b) = elim (get_items d b) [
    | none ↦ none
    | some (xs, b') ↦ some (arr xs, b')
  ]
  get (suc d) (suc (suc (suc zero)) ∷ suc zero ∷ b) = elim (get_fields d b) [
    | none ↦ none
    | some (fs, b') ↦ some (obj fs, b')
  ]
  get _ _ = none

  pub get_items : ℕ → Bytes → Option (Items × Bytes)
  get_items (suc d) (zero ∷ b) = some (nil, b)
  get_items (suc d) (suc zero ∷ b) = elim (get d b) [
    | none ↦ none
    | some (x, b') ↦ elim (get_items d b') [ none ↦ none | some (xs, b₂) ↦ some (cons x xs, b₂) ]
  ]
  get_items _ _ = none

  pub get_fields : ℕ → Bytes → Option (Fields × Bytes)
  get_fields (suc d) (zero ∷ b) = some (end, b)
  get_fields (suc d) (suc zero ∷ n ∷ b) = elim (get d (drop n b)) [
    | none ↦ none
    | some (v, b') ↦ elim (get_fields d b') [
      | none ↦ none
      | some (fs, b₂) ↦ some (field (take n b) v fs, b₂)
    ]
  ]
  get_fields _ _ = none

depth-pos : (j : Json) → 1 ≤ depth j
unfolding depth
depth-pos (arr xs) = omega arith
depth-pos (obj fs) = omega arith
depth-pos _ = omega arith

depth_items-pos : (xs : Items) → 1 ≤ depth_items xs
unfolding depth_items
depth_items-pos nil = omega arith
depth_items-pos (cons x xs) = omega arith

depth_fields-pos : (fs : Fields) → 1 ≤ depth_fields fs
unfolding depth_fields
depth_fields-pos end = omega arith
depth_fields-pos (field k v fs) = omega arith

mutual
  unfolding get get_items get_fields put put_items put_fields depth depth_items depth_fields

  get-put : (d : ℕ) (j : Json) (rest : Bytes) → depth j ≤ d → get d (put j rest) ≡ some (j, rest)
  get-put zero j rest h = absurd (omega (arith, depth-pos j))
  get-put (suc d) null rest h = refl
  get-put (suc d) (bool false) rest h = refl
  get-put (suc d) (bool true) rest h = refl
  get-put (suc d) (num (pos n)) rest h = refl
  get-put (suc d) (num (negsuc n)) rest h = refl
  get-put (suc d) (real s) rest h = rw (take-append s rest, drop-append s rest) refl
  get-put (suc d) (str s) rest h = rw (take-append s rest, drop-append s rest) refl
  get-put (suc d) (arr xs) rest h = rw (get_items-put_items d xs rest (omega arith)) refl
  get-put (suc d) (obj fs) rest h = rw (get_fields-put_fields d fs rest (omega arith)) refl

  get_items-put_items :
      (d : ℕ) (xs : Items) (rest : Bytes)
      → depth_items xs ≤ d
      → get_items d (put_items xs rest) ≡ some (xs, rest)
  get_items-put_items zero xs rest h = absurd (omega (arith, depth_items-pos xs))
  get_items-put_items (suc d) nil rest h = refl
  get_items-put_items (suc d) (cons x xs) rest h =
      rw
        (get-put d x (put_items xs rest) (omega arith), get_items-put_items d xs rest (omega arith))
        refl

  get_fields-put_fields :
      (d : ℕ) (fs : Fields) (rest : Bytes)
      → depth_fields fs ≤ d
      → get_fields d (put_fields fs rest) ≡ some (fs, rest)
  get_fields-put_fields zero fs rest h = absurd (omega (arith, depth_fields-pos fs))
  get_fields-put_fields (suc d) end rest h = refl
  get_fields-put_fields (suc d) (field k v fs) rest h =
      rw
        (
          drop-append k (put v (put_fields fs rest)),
          get-put d v (put_fields fs rest) (omega arith),
          get_fields-put_fields d fs rest (omega arith),
        )
        (rw (take-append k (put v (put_fields fs rest))) refl)

abbrev pub parse_text : Bytes → Option Json
parse_text [] = none
parse_text (d ∷ b) = elim (get d b) [ none ↦ none | some (j, b') ↦ some j ]

abbrev pub print_text : Json → Bytes
print_text j = depth j ∷ put j []

abbrev pub any_string : Bytes → Bool
any_string s = true

pub parse_text-print_text : (j : Json) → IsText any_string j → parse_text (print_text j) ≡ some j
parse_text-print_text j _ = rw (parse_text, get-put (depth j) j [] (omega arith)) refl

abbrev pub text : JsonText
text = record {
  print = print_text;
  parse = parse_text;
  valid = any_string;
  parse-print = parse_text-print_text;
}

mutual
  pub any_string-IsText : (j : Json) → IsText any_string j
  any_string-IsText (str s) = refl
  any_string-IsText (arr xs) = any_string-AreTexts xs
  any_string-IsText (obj fs) = any_string-HasTexts fs
  any_string-IsText _ = tt

  any_string-AreTexts : (xs : Items) → AreTexts any_string xs
  any_string-AreTexts nil = tt
  any_string-AreTexts (cons x xs) = (any_string-IsText x, any_string-AreTexts xs)

  any_string-HasTexts : (fs : Fields) → HasTexts any_string fs
  any_string-HasTexts end = tt
  any_string-HasTexts (field k v fs) = (refl, any_string-IsText v, any_string-HasTexts fs)

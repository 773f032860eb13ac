-- ===== src/Json.antt =====
-- encoding/json, as far as the program uses it: JSON values, and what the program relies on of
-- their text.
use lotun.Base.{Bool, true, ◌≡◌, Option, some}
use lotun.Base.Int.{ℤ}
use lotun.Base.Bytes.{Bytes}

-- `num` is a number written as an integer, `real` one with a fraction or an exponent.
mutual
  pub data Json : Type 0 where
    null : Json
    bool : Bool → Json
    num : ℤ → Json
    real : Bytes → Json
    str : Bytes → Json
    arr : Items → Json
    obj : Fields → Json

  pub data Items : Type 0 where
    nil : Items
    cons : Json → Items → Items

  pub data Fields : Type 0 where
    end : Fields
    field : Bytes → Json → Fields → Fields

-- Every string in a value, its keys too, satisfies `valid`.
abbrev mutual
  pub IsText : (Bytes → Bool) → Json → Type 0
  IsText valid null = Unit
  IsText valid (bool b) = Unit
  IsText valid (num n) = Unit
  IsText valid (real n) = Unit
  IsText valid (str s) = valid s ≡ true
  IsText valid (arr xs) = AreTexts valid xs
  IsText valid (obj fs) = HasTexts valid fs

  pub AreTexts : (Bytes → Bool) → Items → Type 0
  AreTexts valid nil = Unit
  AreTexts valid (cons x xs) = IsText valid x × AreTexts valid xs

  pub HasTexts : (Bytes → Bool) → Fields → Type 0
  HasTexts valid end = Unit
  HasTexts valid (field k v fs) = (valid k ≡ true) × IsText valid v × HasTexts valid fs

-- The text of a value. Marshal replaces what is not UTF-8 in a string, so only a value whose
-- strings are valid is read back as it was.
pub record JsonText : Type 0 where
  pub print : Json → Bytes
  pub parse : Bytes → Option Json
  pub valid : Bytes → Bool
  pub parse-print : (j : Json) → IsText valid j → parse (print j) ≡ some j

-- ===== src/Protocol/Decode.antt =====
-- What json.Unmarshal stores of a JSON value, by the types of Go (encoding/json).
pub mod Structs
pub mod Dispatch
pub mod FieldByField
pub mod Inverse
use lotun.Base.{
  ℕ, ◌+◌, ◌≤◌, ◌<◌, Bool, true, false, ◌&&◌, List, [], ◌∷◌, Option, none, some, if◌then◌else◌, ◌==◌,
  eqb, leb, nat_eq, is_empty,
}
use lotun.Base.Int.{ℤ, pos, negsuc, leb_ℤ, int_eq}
use lotun.Base.Bytes.{Bytes, bytes, bytes_eq}
use lotun.Json.{
  Json, Items, Fields, JsonText, null, bool, num, str, arr, obj, nil, cons, end, field,
}
use lotun.Protocol.{
  Message, Auth, Register, Registered, TunnelInfo, StreamHeader, auth, auth_ok, register,
  registered, error, claim, unclaim, list_tunnels, tunnel_list,
}
use lotun.Protocol

unfoldable pub fold_byte : ℕ → ℕ
fold_byte c = if leb b'A' c && leb c b'Z' then c + 32 else c

-- The key by which Unmarshal finds a field whose name is ASCII: letters in lower case, and the
-- two other code points that fold to one, the long s (0xc5 0xbf) and the Kelvin sign
-- (0xe2 0x84 0xaa).
unfoldable pub fold_key : Bytes → Bytes
unfolding fold_byte
fold_key [] = []
fold_key (a ∷ []) = fold_byte a ∷ []
fold_key (a ∷ b ∷ []) =
    if eqb a 0xc5 && eqb b 0xbf then b's' ∷ [] else fold_byte a ∷ fold_byte b ∷ []
fold_key (a ∷ b ∷ c ∷ cs) =
    let after_one = fold_key (b ∷ c ∷ cs) in
    let after_two = fold_key (c ∷ cs) in
    let after_three = fold_key cs in
    if eqb a 0xc5 && eqb b 0xbf
    then b's' ∷ after_two
    else (if eqb a 0xe2 && (eqb b 0x84 && eqb c 0xaa)
        then b'k' ∷ after_three
        else fold_byte a ∷ after_one)

abbrev pub is_key : Bytes → Bytes → Bool
is_key name key = fold_key key == fold_key name

-- Unmarshal of a value into a string, an int, a bool or a []string that holds `old`; null leaves
-- it (and a null entry of a list gives ""), and any other type is an error.
unfoldable pub into_string : Json → Bytes → Option Bytes
into_string (str s) old = some s
into_string null old = some old
into_string _ old = none

unfoldable pub into_int : Json → ℤ → Option ℤ
into_int (num n) old =
    if leb_ℤ (negsuc 0x7fff_ffff_ffff_ffff) n && leb_ℤ n (pos 0x7fff_ffff_ffff_ffff)
    then some n
    else none
into_int null old = some old
into_int _ old = none

unfoldable pub into_bool : Json → Bool → Option Bool
into_bool (bool b) old = some b
into_bool null old = some old
into_bool _ old = none

unfoldable pub string_items : Items → Option (List Bytes)
unfolding into_string
string_items nil = some []
string_items (cons x xs) = elim (into_string x []) [
  | none ↦ none
  | some s ↦ elim (string_items xs) [ none ↦ none | some ss ↦ some (s ∷ ss) ]
]

unfoldable pub into_strings : Json → List Bytes → Option (List Bytes)
unfolding string_items
into_strings (arr xs) old = string_items xs
into_strings null old = some []
into_strings _ old = none

-- Unmarshal into a struct, field by field: `set` stores one value, or fails, or skips the key.
module _ {A : Type 0} (set : Bytes → Json → A → Option A) where
  unfoldable pub into_fields : Fields → A → Option A
  into_fields end a = some a
  into_fields (field k v fs) a = elim (set k v a) [ none ↦ none | some a' ↦ into_fields fs a' ]

  unfoldable pub into_struct : Json → A → Option A
  unfolding into_fields
  into_struct (obj fs) a = into_fields fs a
  into_struct null a = some a
  into_struct _ a = none

-- A struct without fields: every key is skipped.
abbrev pub skip_all : Bytes → Json → Unit {0} → Option (Unit {0})
skip_all k v a = some a

-- Store what a field's value gives.
abbrev pub store : {A B : Type 0} → Option B → (B → A) → Option A
store none f = none
store (some b) f = some (f b)

-- A struct with one string, under the key `name`.
unfoldable pub set_only : Bytes → Bytes → Json → Bytes → Option Bytes
unfolding into_string fold_key
set_only name k v old = if is_key name k then into_string v old else some old

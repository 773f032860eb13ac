-- ===== src/Protocol/Frame.antt =====
-- writeFrame and readFrame of internal/protocol/protocol.go, over writers that fill up and readers
-- that deliver their bytes in chunks of any size.
pub mod Chunks
use lotun.Base.{
  ℕ, zero, suc, ◌+◌, ◌-◌, ◌*◌, ◌/◌, ◌%◌, ◌^◌, ◌≤◌, ◌<◌, Bool, true, false, ◌≡◌, refl, sym, ap, ◌∙◌,
  subst, ◌⊎◌, inl, inr, List, [], ◌∷◌, ◌++◌, Option, none, some, arith, ltb, leb, eqb,
  if◌then◌else◌, length, take, drop, is_empty, Bool-cases, length-append, All,
}
use lotun.Base.Bytes.{Bytes}

pub data ReadError : Type 0 where
  eof unexpected_eof bad_json unknown_kind : ReadError

pub data Read {ℓ} (A : Type ℓ) : Type ℓ where
  ok : A → Read A
  err : ReadError → Read A

pub Read-cases {ℓ} :
    {A : Type ℓ} (r : Read A) → ((e : ReadError) × (r ≡ err e)) ⊎ ((a : A) × (r ≡ ok a))
Read-cases (ok a) = inr (a, refl)
Read-cases (err e) = inl (e, refl)

infixl 5 ◌>>=◌
abbrev pub ◌>>=◌ {ℓ κ} : {A : Type ℓ} {B : Type κ} → Read A → (A → Read B) → Read B
ok a >>= f = f a
err e >>= f = err e

-- What each call of Read will find, in order; after the last chunk it finds the end of the stream.
abbrev pub Reader : Type 0
Reader = List Bytes

abbrev pub flatten : Reader → Bytes
flatten [] = []
flatten (c ∷ cs) = c ++ flatten cs

-- The loop of io.ReadFull with `n` bytes to go; `got` says whether it has read any.
unfoldable pub read_loop : ℕ → Bool → Reader → Read (Bytes × Reader)
read_loop zero got cs = ok ([], cs)
read_loop (suc n) got [] = err (if got then unexpected_eof else eof)
read_loop (suc n) got (c ∷ cs) =
    if leb (length c) (suc n)
    then (let rest = read_loop (suc n - length c) (if is_empty c then got else true) cs in
        do (b, cs') ← rest; ok (c ++ b, cs'))
    else ok (take (suc n) c, drop (suc n) c ∷ cs)

unfoldable pub read_full : ℕ → Reader → Read (Bytes × Reader)
unfolding read_loop
read_full n cs = read_loop n false cs

-- binary.BigEndian.PutUint32 of a uint32
unfoldable pub put_uint32 : ℕ → Bytes
put_uint32 n = (n / 2 ^ 24 % 256) ∷ (n / 2 ^ 16 % 256) ∷ (n / 2 ^ 8 % 256) ∷ (n % 256) ∷ []

-- binary.BigEndian.Uint32 of four bytes
unfoldable pub uint32 : Bytes → ℕ
uint32 (a ∷ b ∷ c ∷ d ∷ _) = a * 2 ^ 24 + b * 2 ^ 16 + c * 2 ^ 8 + d
uint32 _ = 0

unfoldable pub read_frame : Reader → Read (Bytes × Reader)
read_frame cs = do (head, cs') ← read_full 4 cs; read_full (uint32 head) cs'

-- A writer that takes `room` more bytes and then fails.
pub record Writer : Type 0 where
  pub out : Bytes
  pub room : ℕ

-- w.Write(b): whether it succeeds, and the writer afterwards.
unfoldable pub write : Writer → Bytes → Bool × Writer
write w b =
    if leb (length b) w.room
    then (true, record { out = w.out ++ b; room = w.room - length b })
    else (false, record { out = w.out ++ take w.room b; room = 0 })

unfoldable pub write_frame : Writer → Bytes → Bool × Writer
unfolding write
write_frame w b =
    let (sent, w') = write w (put_uint32 (length b % 2 ^ 32)) in
    if sent then write w' b else (false, w')

-- The bytes of a frame.
abbrev pub frame : Bytes → Bytes
frame b = put_uint32 (length b % 2 ^ 32) ++ b

-- ===== src/Protocol/Frame/Chunks.antt =====
-- readFrame and writeFrame of internal/protocol/protocol.go over chunks and full writers.
use lotun.Base.{
  ℕ, zero, suc, ◌-◌, ◌%◌, ◌^◌, ◌≤◌, ◌<◌, Bool, true, false, ◌≡◌, refl, sym, ap, ◌∙◌, subst, ◌⊎◌,
  inl, inr, [], ◌∷◌, ◌++◌, arith, leb, if◌then◌else◌, length, take, drop, is_empty, Bool-cases,
  length-append,
}
use lotun.Base.Bytes.{Bytes}
use lotun.Protocol.Frame.{
  Read, Read-cases, ok, err, eof, unexpected_eof, ◌>>=◌, Reader, flatten, read_loop, read_full,
  put_uint32, uint32, read_frame, Writer, write, write_frame, frame,
}
use mathlib.Core.List.{append_assoc}
use native.Mathlib.Nat.{sub-zero}

-- A reader yields the bytes that it holds, however they are cut into chunks.
abbrev pub ReadsFull : ℕ → Bool → Reader → Read (Bytes × Reader) → Type 0
ReadsFull n got cs (ok (b, cs')) =
    (n ≤ length (flatten cs)) × (b ≡ take n (flatten cs)) × (flatten cs' ≡ drop n (flatten cs))
ReadsFull n got cs (err e) =
    (length (flatten cs) < n)
    × (e
        ≡ (if is_empty (flatten cs) then (if got then unexpected_eof else eof) else unexpected_eof))

take-append_le : (n : ℕ) (xs ys : Bytes) → n ≤ length xs → take n (xs ++ ys) ≡ take n xs
take-append_le zero xs ys h = refl
take-append_le (suc n) [] ys h = absurd (omega arith)
take-append_le (suc n) (x ∷ xs) ys h = rw (take-append_le n xs ys (omega arith))

drop-append_le : (n : ℕ) (xs ys : Bytes) → n ≤ length xs → drop n (xs ++ ys) ≡ drop n xs ++ ys
drop-append_le zero xs ys h = refl
drop-append_le (suc n) [] ys h = absurd (omega arith)
drop-append_le (suc n) (x ∷ xs) ys h = drop-append_le n xs ys (omega arith)

take-append_ge :
    (n : ℕ) (xs ys : Bytes) → length xs ≤ n → take n (xs ++ ys) ≡ xs ++ take (n - length xs) ys
take-append_ge n [] ys h = rw (sub-zero n)
take-append_ge zero (x ∷ xs) ys h = absurd (omega arith)
take-append_ge (suc n) (x ∷ xs) ys h =
    ap (◌∷◌ x) (take-append_ge n xs ys (omega arith) ∙ ap (λ k. xs ++ take k ys) (omega arith))

drop-append_ge :
    (n : ℕ) (xs ys : Bytes) → length xs ≤ n → drop n (xs ++ ys) ≡ drop (n - length xs) ys
drop-append_ge n [] ys h = rw (sub-zero n)
drop-append_ge zero (x ∷ xs) ys h = absurd (omega arith)
drop-append_ge (suc n) (x ∷ xs) ys h =
    drop-append_ge n xs ys (omega arith) ∙ ap (λ k. drop k ys) (omega arith)

is_empty-append : (c ys : Bytes) → is_empty (c ++ ys) ≡ (if is_empty c then is_empty ys else false)
is_empty-append [] ys = refl
is_empty-append (x ∷ c) ys = refl

-- A chunk that is used up, and one that is not.
ReadsFull-chunk :
    (n : ℕ) (got : Bool) (c : Bytes) (cs : Reader) (r : Read (Bytes × Reader))
    → length c ≤ n
    → ReadsFull (n - length c) (if is_empty c then got else true) cs r
    → ReadsFull n got (c ∷ cs) (r >>= λ x. ok (c ++ x.0, x.1))
ReadsFull-chunk n got c cs (ok (b, cs')) le (enough, e, rest) = (
  omega (arith, length-append c (flatten cs)),
  ap (◌++◌ c) e ∙ sym (take-append_ge n c (flatten cs) le),
  rest ∙ sym (drop-append_ge n c (flatten cs) le),
)
ReadsFull-chunk n got c cs (err x) le (short, e) = (
  omega (arith, length-append c (flatten cs)),
  e ∙ ground (arith, is_empty-append c (flatten cs)),
)

read_loop-ReadsFull : (n : ℕ) (got : Bool) (cs : Reader) → ReadsFull n got cs (read_loop n got cs)
unfolding read_loop
read_loop-ReadsFull zero got cs = (omega arith, refl, refl)
read_loop-ReadsFull (suc n) got [] = (omega arith, refl)
read_loop-ReadsFull (suc n) got (c ∷ cs) = elim (Bool-cases (leb (length c) (suc n))) [
  | inl fits ↦ rw fits (
      ReadsFull-chunk (suc n) got c cs _ (ground arith)
        (read_loop-ReadsFull (suc n - length c) (if is_empty c then got else true) cs))
  | inr big ↦ rw big (
    ground (arith, length-append c (flatten cs)),
    sym (take-append_le (suc n) c (flatten cs) (ground arith)),
    sym (drop-append_le (suc n) c (flatten cs) (ground arith)),
  )
]

-- io.ReadFull at `n` bytes.
pub read_full-ReadsFull : (n : ℕ) (cs : Reader) → ReadsFull n false cs (read_full n cs)
unfolding read_full
read_full-ReadsFull n cs = read_loop-ReadsFull n false cs

pub take-append : (b rest : Bytes) → take (length b) (b ++ rest) ≡ b
take-append [] rest = refl
take-append (x ∷ b) rest = ap (◌∷◌ x) (take-append b rest)

pub drop-append : (b rest : Bytes) → drop (length b) (b ++ rest) ≡ rest
drop-append [] rest = refl
drop-append (x ∷ b) rest = drop-append b rest

-- A reader that holds `b` first yields it.
pub read_full-append :
    (cs : Reader) (b rest : Bytes)
    → flatten cs ≡ b ++ rest
    → (cs' : Reader) × (read_full (length b) cs ≡ ok (b, cs')) × (flatten cs' ≡ rest)
read_full-append cs b rest h = elim (Read-cases (read_full (length b) cs)) [
  | inl (e, r) ↦
      let (short, _) = rw r at (read_full-ReadsFull (length b) cs) in
      absurd (omega (arith, ap (λ xs. length xs) h, length-append b rest))
  | inr ((b', cs'), r) ↦
      let (_, got, left) = rw r at (read_full-ReadsFull (length b) cs) in
      (
        cs',
        r ∙ ap (λ x. ok (x, cs')) (got ∙ ap (take (length b)) h ∙ take-append b rest),
        left ∙ ap (drop (length b)) h ∙ drop-append b rest,
      )
]

uint32-put_uint32 : (n : ℕ) → n < 2 ^ 32 → uint32 (put_uint32 n) ≡ n
unfolding uint32 put_uint32
uint32-put_uint32 n h = omega arith

length-put_uint32 : (n : ℕ) → length (put_uint32 n) ≡ 4
unfolding put_uint32
length-put_uint32 n = refl

-- A frame of a payload shorter than 2^32 bytes is read back whole by readFrame, however the bytes
-- arrive, and what follows it is left.
pub read_frame-frame :
    (cs : Reader) (b rest : Bytes)
    → length b < 2 ^ 32
    → flatten cs ≡ frame b ++ rest
    → (cs' : Reader) × (read_frame cs ≡ ok (b, cs')) × (flatten cs' ≡ rest)
unfolding read_frame
read_frame-frame cs b rest short h =
    let head = put_uint32 (length b % 2 ^ 32) in
    let (cs₁, r₁, left₁) = read_full-append cs head (b ++ rest) (h ∙ append_assoc head b rest) in
    let (cs₂, r₂, left₂) = read_full-append cs₁ b rest left₁ in
    let size : uint32 head ≡ length b = uint32-put_uint32 _ (omega arith) ∙ omega arith in
    (
      cs₂,
      rw (subst (λ k. read_full k cs ≡ ok (head, cs₁)) (length-put_uint32 _) r₁)
          (ap (λ k. read_full k cs₁) size ∙ r₂),
      left₂,
    )

-- The writer after `b`, on either outcome.
abbrev pub Writes : Writer → Bytes → Bool × Writer → Type 0
Writes w b (sent, w') =
    ((sent ≡ true) × (length b ≤ w.room) × (w'.out ≡ w.out ++ b) × (w'.room ≡ w.room - length b))
    ⊎ ((sent ≡ false) × (w.room < length b) × (w'.out ≡ w.out ++ take w.room b))

write-Writes : (w : Writer) (b : Bytes) → Writes w b (write w b)
unfolding write
write-Writes w b = elim (Bool-cases (leb (length b) w.room)) [
  | inl fits ↦ rw fits (inl (refl, ground arith, refl, refl))
  | inr full ↦ rw full (inr (refl, ground arith, refl))
]

-- writeFrame succeeds exactly if the writer has room for the whole frame, and then appends it;
-- otherwise it fails and has appended as much of the frame as there was room for.
pub write_frame_lem :
    (w : Writer) (b : Bytes)
    → let (sent, w') = write_frame w b in
      ((sent ≡ true) × (length (frame b) ≤ w.room) × (w'.out ≡ w.out ++ frame b))
      ⊎ ((sent ≡ false) × (w.room < length (frame b)) × (w'.out ≡ w.out ++ take w.room (frame b)))
unfolding write_frame
write_frame_lem w b =
    let head = put_uint32 (length b % 2 ^ 32) in
    let w₁ = (write w head).1 in
    elim (write-Writes w head) [
      | inr (failed, short, out) ↦ rw failed (
          inr (
            refl,
            omega (arith, length-append head b),
            out ∙ ap (◌++◌ w.out) (sym (take-append_le w.room head b (omega arith))),
          ))
      | inl (sent, fits, out, room) ↦ elim (write-Writes w₁ b) [
        | inr (failed, short, out₁) ↦
            rw (sent, failed)
              (inr (
                refl,
                omega (arith, length-append head b),
                out₁
                    ∙ ap (λ x. x ++ take w₁.room b) out
                    ∙ append_assoc w.out head _
                    ∙ ap (λ k. w.out ++ (head ++ take k b)) room
                    ∙ ap (◌++◌ w.out) (sym (take-append_ge w.room head b fits)),
              ))
        | inl (sent₁, fits₁, out₁, room₁) ↦
            rw (sent, sent₁)
              (inl (
                refl,
                omega (arith, length-append head b),
                out₁ ∙ ap (λ x. x ++ b) out ∙ append_assoc w.out head b,
              ))
      ]
    ]

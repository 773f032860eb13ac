-- ===== src/Splice/Flow.antt =====
-- One direction of Splice of internal/netutil/splice.go, event by event.
pub mod Others
use lotun.Base.{
  ℕ, zero, suc, Bool, true, false, not, ◌||◌, ◌≡◌, refl, sym, ap, ap₂, ◌∙◌, if◌then◌else◌, ◌⊎◌, inl,
  inr, [], ◌∷◌, ◌++◌, arith, drop, take, is_empty, Bool-cases,
}
use lotun.Base.Bytes.{Bytes}
use lotun.Splice.{
  Conn, Copy, reading, writing, copied, returned, close, half_close, copy_turn, arrive, end_stream,
}
use mathlib.Core.List.{append_assoc, append-nil}

-- What was read and not yet written.
abbrev pub in_hand : Copy → Bytes
in_hand (writing chunk) = chunk
in_hand copy = []

-- Whether the peer of `src` has been read to its end.
abbrev pub IsDrained : Copy → Conn → Type 0
IsDrained reading src = Unit
IsDrained (writing chunk) src = Unit
IsDrained copy src = (src.ended ≡ true) × (src.arrived ≡ [])

-- The connection survives the end of one direction.
abbrev pub Outlives : Conn → Type 0
Outlives c = (c.half_closer || c.close_keeps_reads) ≡ true

-- One direction: of all that the peer of `src` has sent, `total` with what `dst` was given before,
-- the first part is written, the next in hand, and the rest unread; the connection that is written
-- stays open until all is written, and the one that is read stays readable.
pub record Flows (total : Bytes) (dst : Conn) (copy : Copy) (src : Conn) : Type 0 where
  pub whole : dst.sent ++ (in_hand copy ++ src.arrived) ≡ total
  pub drained : IsDrained copy src
  pub writable : (dst.write_open ≡ true) ⊎ (copy ≡ returned)
  pub readable : src.read_open ≡ true
  pub outlives : Outlives src

take-drop : (n : ℕ) (xs : Bytes) → take n xs ++ drop n xs ≡ xs
take-drop zero xs = refl
take-drop (suc n) [] = refl
take-drop (suc n) (x ∷ xs) = ap (◌∷◌ x) (take-drop n xs)

sent-half_close : (c : Conn) → (half_close c).sent ≡ c.sent
unfolding half_close close
sent-half_close c = ground arith

list-cases : (xs : Bytes) → (xs ≡ []) ⊎ (is_empty xs ≡ false)
list-cases [] = inl refl
list-cases (x ∷ xs) = inr refl

pub copy_turn-Flows :
    (total : Bytes) (size : ℕ) (copy : Copy) (dst src : Conn)
    → Flows total dst copy src
    → let (copy', dst', src') = copy_turn size false copy dst src in Flows total dst' copy' src'
unfolding copy_turn
copy_turn-Flows total size reading dst src f = elim (list-cases src.arrived) [
  | inl none_left ↦ elim (Bool-cases src.ended) [
    | inl over ↦
        let turn : copy_turn size false reading dst src ≡ (copied, dst, src) =
          ground (arith, f.readable) in
        rw turn (record {
          whole = f.whole;
          drained = (over, none_left);
          writable = ground (arith, f.writable);
          readable = f.readable;
          outlives = f.outlives;
        })
    | inr waits ↦
        let turn : copy_turn size false reading dst src ≡ (reading, dst, src) =
          ground (arith, f.readable) in
        rw turn f
  ]
  | inr some_left ↦
      let turn : copy_turn size false reading dst src ≡ (
        writing (take (suc size) src.arrived),
        dst,
        record src { arrived = drop (suc size) src.arrived },
      ) =
        ground (arith, f.readable) in
      rw turn (record {
        whole = rw (take-drop (suc size) src.arrived) f.whole;
        drained = tt;
        writable = ground (arith, f.writable);
        readable = f.readable;
        outlives = f.outlives;
      })
]
copy_turn-Flows total size (writing chunk) dst src f =
    let open_still : dst.write_open ≡ true = ground (arith, f.writable) in
    let turn : copy_turn size false (writing chunk) dst src
        ≡ (reading, record dst { sent = dst.sent ++ chunk }, src) =
      ground arith in
    rw turn (record {
      whole = append_assoc dst.sent chunk src.arrived ∙ f.whole;
      drained = tt;
      writable = inl open_still;
      readable = f.readable;
      outlives = f.outlives;
    })
copy_turn-Flows total size copied dst src f = record {
  whole = rw (sent-half_close dst) f.whole;
  drained = f.drained;
  writable = inr refl;
  readable = f.readable;
  outlives = f.outlives;
}
copy_turn-Flows total size returned dst src f = f

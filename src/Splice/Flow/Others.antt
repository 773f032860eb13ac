-- ===== src/Splice/Flow/Others.antt =====
-- The turns of the other goroutine and the moves of the peers, for one direction of Splice of
-- internal/netutil/splice.go.
use lotun.Base.{
  ℕ, Bool, true, false, not, ◌||◌, ◌≡◌, refl, sym, ap, ap₂, ◌∙◌, if◌then◌else◌, inl, inr, [], ◌++◌,
  arith, Bool-cases,
}
use lotun.Base.Bytes.{Bytes}
use lotun.Splice.{
  Conn, Copy, reading, writing, copied, returned, close, half_close, copy_turn, arrive, end_stream,
}
use mathlib.Core.List.{append_assoc, append-nil}
use lotun.Splice.Flow.{in_hand, IsDrained, Outlives, Flows, copy_turn-Flows}

-- What a direction depends on.
abbrev Agrees : Conn → Conn → Conn → Conn → Type 0
Agrees dst src dst' src' =
    (dst'.sent ≡ dst.sent)
    × (dst'.write_open ≡ dst.write_open)
    × (src'.arrived ≡ src.arrived)
    × (src'.ended ≡ src.ended)
    × (src'.read_open ≡ src.read_open)
    × ((src'.half_closer || src'.close_keeps_reads) ≡ (src.half_closer || src.close_keeps_reads))

IsDrained-Agrees :
    (copy : Copy) (src src' : Conn)
    → src'.arrived ≡ src.arrived
    → src'.ended ≡ src.ended
    → IsDrained copy src
    → IsDrained copy src'
IsDrained-Agrees reading src src' ha he d = tt
IsDrained-Agrees (writing chunk) src src' ha he d = tt
IsDrained-Agrees copied src src' ha he (over, none_left) = (he ∙ over, ha ∙ none_left)
IsDrained-Agrees returned src src' ha he (over, none_left) = (he ∙ over, ha ∙ none_left)

Flows-Agrees :
    (total : Bytes) (copy : Copy) (dst src dst' src' : Conn)
    → Agrees dst src dst' src'
    → Flows total dst copy src
    → Flows total dst' copy src'
Flows-Agrees total copy dst src dst' src' (hs, hw, ha, he, hr, ho) f = record {
  whole = ap₂ (λ x y. x ++ (in_hand copy ++ y)) hs ha ∙ f.whole;
  drained = IsDrained-Agrees copy src src' ha he f.drained;
  writable = ground (arith, f.writable);
  readable = hr ∙ f.readable;
  outlives = ho ∙ f.outlives;
}

-- A turn of the other goroutine writes to `src` and reads from `dst`.
copy_turn-Agrees :
    (size : ℕ) (reply : Copy) (dst src : Conn)
    → src.read_open ≡ true
    → Outlives src
    → let (reply', src', dst') = copy_turn size false reply src dst in Agrees dst src dst' src'
unfolding copy_turn half_close close
copy_turn-Agrees size reading dst src readable outlives = ground arith
copy_turn-Agrees size (writing chunk) dst src readable outlives = ground arith
copy_turn-Agrees size copied dst src readable outlives = ground arith
copy_turn-Agrees size returned dst src readable outlives = ground arith

append-assoc_mid : (a b c d : Bytes) → a ++ (b ++ (c ++ d)) ≡ (a ++ (b ++ c)) ++ d
append-assoc_mid a b c d =
    ap (λ x. a ++ x) (sym (append_assoc b c d)) ∙ sym (append_assoc a (b ++ c) d)

not-IsDrained :
    (copy : Copy) (src src' : Conn) → src.ended ≡ false → IsDrained copy src → IsDrained copy src'
not-IsDrained reading src src' goes d = tt
not-IsDrained (writing chunk) src src' goes d = tt
not-IsDrained copied src src' goes (over, _) = absurd cc
not-IsDrained returned src src' goes (over, _) = absurd cc

pub arrive-Flows :
    (total bs : Bytes) (copy : Copy) (dst src : Conn)
    → Flows total dst copy src
    → Flows (total ++ (if not src.ended then bs else [])) dst copy (arrive bs src)
unfolding arrive
arrive-Flows total bs copy dst src f = elim (Bool-cases src.ended) [
  | inl over ↦
      let same : arrive bs src ≡ src = ground arith in
      let none_more : total ++ (if not src.ended then bs else []) ≡ total =
        ground (arith, append-nil total) in
      rw (none_more, same) f
  | inr goes ↦
      let more : arrive bs src ≡ record src { arrived = src.arrived ++ bs } = ground arith in
      rw (more, goes)
        (record {
          whole =
              append-assoc_mid dst.sent (in_hand copy) src.arrived bs ∙ ap (λ x. x ++ bs) f.whole;
          drained = not-IsDrained copy src _ goes f.drained;
          writable = f.writable;
          readable = f.readable;
          outlives = f.outlives;
        })
]

ended-IsDrained : (copy : Copy) (src : Conn) → IsDrained copy src → IsDrained copy (end_stream src)
ended-IsDrained reading src d = tt
ended-IsDrained (writing chunk) src d = tt
ended-IsDrained copied src (_, none_left) = (refl, none_left)
ended-IsDrained returned src (_, none_left) = (refl, none_left)

end_stream-Flows :
    (total : Bytes) (copy : Copy) (dst src : Conn)
    → Flows total dst copy src
    → Flows total dst copy (end_stream src)
end_stream-Flows total copy dst src f = record {
  whole = f.whole;
  drained = ended-IsDrained copy src f.drained;
  writable = f.writable;
  readable = f.readable;
  outlives = f.outlives;
}

-- What the peer of `dst` does is no matter.
pub arrive-Agrees : (bs : Bytes) (dst src : Conn) → Agrees dst src (arrive bs dst) src
unfolding arrive
arrive-Agrees bs dst src = ground arith

module _ (total : Bytes) (copy reply : Copy) (dst src : Conn) (f : Flows total dst copy src) where
  pub unchanged-Flows :
      (dst' src' : Conn) → Agrees dst src dst' src' → Flows (total ++ []) dst' copy src'
  unchanged-Flows dst' src' same =
      rw (append-nil total) (Flows-Agrees total copy dst src dst' src' same f)

  pub own_turn-Flows :
      (size : ℕ) (fails : Bool)
      → fails ≡ false
      → let (copy', dst', src') = copy_turn size fails copy dst src in
        Flows (total ++ []) dst' copy' src'
  own_turn-Flows size fails h = rw (h, append-nil total) (copy_turn-Flows total size copy dst src f)

  pub reply_turn-Flows :
      (size : ℕ) (fails : Bool)
      → fails ≡ false
      → let (reply', src', dst') = copy_turn size fails reply src dst in
        Flows (total ++ []) dst' copy src'
  reply_turn-Flows size fails h =
      rw h (unchanged-Flows _ _ (copy_turn-Agrees size reply dst src f.readable f.outlives))

  pub over-Flows : Flows (total ++ []) dst copy (end_stream src)
  over-Flows = rw (append-nil total) (end_stream-Flows total copy dst src f)

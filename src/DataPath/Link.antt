-- ===== src/DataPath/Link.antt =====
-- One direction of a data stream, from the Splice that writes it to the Splice that reads it.
use lotun.Base.{
  ℕ, zero, suc, ◌+◌, Bool, true, false, not, ◌&&◌, ◌≡◌, refl, sym, ap, subst, ap₂, ◌∙◌,
  if◌then◌else◌, inl, inr, [], ◌∷◌, ◌++◌, arith, length, take, drop, is_empty, Bool-cases,
  length-append,
}
use lotun.Base.Bytes.{Bytes}
use lotun.Splice.{
  Conn, Copy, reading, writing, copied, returned, close, half_close, copy_turn, arrive, Splice,
  side_a, side_b, sends, ends, copies,
}
use lotun.Splice
use lotun.Splice.Flow.{in_hand}
use lotun.Splice.Delivery.{FlowsTo, Delivers, FlowsTo-Delivers, IsHealthy, step-FlowsTo, ended-step}
use lotun.DataPath.{in_flight, carry, carry_end}
use mathlib.Core.List.{append_assoc, append-nil}

-- What `c` has written after it was `b`: nothing once its write side is shut.
pub record Extends (c b : Conn) : Type 0 where
  pub more : Bytes
  pub sent_more : c.sent ≡ b.sent ++ more
  pub shut : b.write_open ≡ false → (c.write_open ≡ false) × (more ≡ [])

same-Extends : (c b : Conn) → c.sent ≡ b.sent → c.write_open ≡ b.write_open → Extends c b
same-Extends c b hs hw = record {
  more = [];
  sent_more = hs ∙ sym (append-nil b.sent);
  shut = λ h. (hw ∙ h, refl);
}

src-Extends :
    (size : ℕ) (fails : Bool) (copy : Copy) (dst src : Conn)
    → let (copy', dst', src') = copy_turn size fails copy dst src in
      (src'.sent ≡ src.sent) × (src'.write_open ≡ src.write_open)
unfolding copy_turn
src-Extends size fails reading dst src = ground arith
src-Extends size fails (writing chunk) dst src = ground arith
src-Extends size fails copied dst src = (refl, refl)
src-Extends size fails returned dst src = (refl, refl)

half_close-shuts : (c : Conn) → ((half_close c).sent ≡ c.sent) × ((half_close c).write_open ≡ false)
unfolding half_close close
half_close-shuts c = ground arith

reading-sends_nothing :
    (size : ℕ) (dst src : Conn)
    → let (copy', dst', src') = copy_turn size false reading dst src in
      (dst'.sent ≡ dst.sent) × (dst'.write_open ≡ dst.write_open)
unfolding copy_turn
reading-sends_nothing size dst src = ground arith

dst-Extends :
    (size : ℕ) (copy : Copy) (dst src : Conn)
    → let (copy', dst', src') = copy_turn size false copy dst src in Extends dst' dst
unfolding copy_turn
dst-Extends size reading dst src =
    let (same, open_same) = reading-sends_nothing size dst src in same-Extends _ dst same open_same
dst-Extends size (writing chunk) dst src = elim (Bool-cases dst.write_open) [
  | inl up ↦
      let turn : copy_turn size false (writing chunk) dst src
          ≡ (reading, record dst { sent = dst.sent ++ chunk }, src) =
        ground arith in
      rw turn (record { more = chunk; sent_more = refl; shut = λ h. absurd cc })
  | inr down ↦
      let turn : copy_turn size false (writing chunk) dst src ≡ (copied, dst, src) = ground arith in
      rw turn (same-Extends dst dst refl refl)
]
dst-Extends size copied dst src = record {
  more = [];
  sent_more = (half_close-shuts dst).0 ∙ sym (append-nil dst.sent);
  shut = λ h. ((half_close-shuts dst).1, refl);
}
dst-Extends size returned dst src = same-Extends dst dst refl refl

pub step-Extends : (s : Splice) (e : Splice.Event) → IsHealthy e → Extends (Splice.step s e).b s.b
unfolding Splice.step arrive
step-Extends s (sends side_a bs) h = same-Extends s.b s.b refl refl
step-Extends s (sends side_b bs) h = same-Extends (arrive bs s.b) s.b (ground arith) (ground arith)
step-Extends s (ends side_a) h = same-Extends s.b s.b refl refl
step-Extends s (ends side_b) h = same-Extends _ s.b refl refl
step-Extends s (copies side_a n fails) h =
    let (same, open_same) = src-Extends n fails s.to_a s.a s.b in same-Extends _ s.b same open_same
step-Extends s (copies side_b n fails) h = rw h (dst-Extends n s.to_b s.b s.a)

drop-append : (xs ys : Bytes) → drop (length xs) (xs ++ ys) ≡ ys
drop-append [] ys = refl
drop-append (x ∷ xs) ys = drop-append xs ys

take-drop : (n : ℕ) (xs : Bytes) → take n xs ++ drop n xs ≡ xs
take-drop zero xs = refl
take-drop (suc n) [] = refl
take-drop (suc n) (x ∷ xs) = ap (◌∷◌ x) (take-drop n xs)

take-nil : (n : ℕ) → take {A = ℕ} n [] ≡ []
take-nil zero = refl
take-nil (suc n) = refl

drop-nil : (n : ℕ) → drop {A = ℕ} n [] ≡ []
drop-nil zero = refl
drop-nil (suc n) = refl

append_cancel : (xs ys zs : Bytes) → xs ++ ys ≡ xs ++ zs → ys ≡ zs
append_cancel xs ys zs h = sym (drop-append xs ys) ∙ ap (drop (length xs)) h ∙ drop-append xs zs

is_empty-nil : (xs : Bytes) → is_empty xs ≡ true → xs ≡ []
is_empty-nil [] h = refl
is_empty-nil (x ∷ xs) h = absurd cc

-- What the peer of the reading end has received, what waits there, what is on its way, and what the
-- writing end has read and not written or not read: all of `whole`, in order. The reading end's
-- connection is shut only when the other peer has ended and all has arrived.
abbrev pub Arrives : Bytes → ℕ → Splice → Splice → Type 0
Arrives whole carried src dst =
    ((dst.a.sent ++ (in_hand dst.to_a ++ dst.b.arrived))
        ++ (in_flight carried src ++ (in_hand src.to_b ++ src.a.arrived))
      ≡ whole)
    × (dst.a.write_open ≡ false → (src.a.ended ≡ true) × (dst.a.sent ≡ whole))

-- The stream from `src` to `dst`, of which `carried` bytes have arrived: `pre` and `got` are those,
-- and `rest` is on its way. `pre` was read before Splice, `base` is what the reader's peer had before.
pub record Linked (pre base total : Bytes) (carried : ℕ) (src dst : Splice) : Type 0 where
  pub got : Bytes
  pub rest : Bytes
  pub writes : FlowsTo side_b (pre ++ total) src
  pub reads : FlowsTo side_a (base ++ got) dst
  pub split : src.b.sent ≡ (pre ++ got) ++ rest
  pub count : length (pre ++ got) ≡ carried
  pub closed : dst.b.ended ≡ true → (src.b.write_open ≡ false) × (rest ≡ [])

module _ (pre base total : Bytes) (carried : ℕ) (src dst : Splice)
    (l : Linked pre base total carried src dst) where
  flight : in_flight carried src ≡ l.rest
  flight = rw (← l.count, l.split) (drop-append (pre ++ l.got) l.rest)

  -- A move at the end that writes the stream.
  pub writer-Linked :
      (e : Splice.Event)
      → IsHealthy e
      → Linked pre base
          (total ++ Splice.Delivery.sent_by side_a src.a.ended e)
          carried
          (Splice.step src e)
          dst
  writer-Linked e h =
      let x = step-Extends src e h in
      record {
        got = l.got;
        rest = l.rest ++ x.more;
        writes = rw (← append_assoc pre total _) (step-FlowsTo side_b _ src e h l.writes);
        reads = l.reads;
        split =
            x.sent_more ∙ ap (λ s. s ++ x.more) l.split ∙ append_assoc (pre ++ l.got) l.rest x.more;
        count = l.count;
        closed = λ over.
            let (shut, none_left) = l.closed over in
            let (shut', no_more) = x.shut shut in (shut', ap₂ (λ a b. a ++ b) none_left no_more);
      }

  -- A move of the reader that is not the stream's.
  pub reader-Linked :
      (e : Splice.Event)
      → IsHealthy e
      → Splice.Delivery.sent_by side_b dst.b.ended e ≡ []
      → Splice.Delivery.ended_by side_b dst.b.ended e ≡ dst.b.ended
      → Linked pre base total carried src (Splice.step dst e)
  reader-Linked e h silent goes_on = record {
    got = l.got;
    rest = l.rest;
    writes = l.writes;
    reads =
        subst (λ t. FlowsTo side_a t (Splice.step dst e))
          (ap (λ x. (base ++ l.got) ++ x) silent ∙ append-nil (base ++ l.got))
          (step-FlowsTo side_a _ dst e h l.reads);
    split = l.split;
    count = l.count;
    closed = λ over. l.closed (sym (ended-step side_b dst e ∙ goes_on) ∙ over);
  }

  -- What is carried is not dropped: where the reader's end has ended, nothing is on its way.
  carried-whole :
      (n : ℕ) → (if not dst.b.ended then take n (in_flight carried src) else []) ≡ take n l.rest
  carried-whole n = elim (Bool-cases dst.b.ended) [
    | inl over ↦ rw (over, (l.closed over).1) (sym (take-nil n))
    | inr goes ↦ rw (goes, flight) refl
  ]

  pub carry-Linked :
      (n : ℕ)
      → Linked pre base total
          (carried + length (take n (in_flight carried src)))
          src
          (carry n carried src dst)
  carry-Linked n =
      let chunk = take n l.rest in
      record {
        got = l.got ++ chunk;
        rest = drop n l.rest;
        writes = l.writes;
        reads =
            subst (λ t. FlowsTo side_a t (carry n carried src dst))
              (ap (λ x. (base ++ l.got) ++ x) (carried-whole n) ∙ append_assoc base l.got chunk)
              (step-FlowsTo side_a _ dst (sends side_b (take n (in_flight carried src))) tt
                l.reads);
        split =
            l.split
            ∙ (ap (λ x. (pre ++ l.got) ++ x) (sym (take-drop n l.rest))
                ∙ sym (append_assoc (pre ++ l.got) chunk (drop n l.rest))
                ∙ ap (λ x. x ++ drop n l.rest) (append_assoc pre l.got chunk));
        count =
            ap length (sym (append_assoc pre l.got chunk))
            ∙ length-append (pre ++ l.got) chunk
            ∙ ap₂ (λ a b. a + b) l.count (ap (λ x. length (take n x)) (sym flight));
        closed = λ over.
            let (shut, none_left) = l.closed (
              sym (ended-step side_b dst (sends side_b (take n (in_flight carried src)))) ∙ over) in
            (shut, ap (drop n) none_left ∙ drop-nil n);
      }

  pub carry_end-Linked : Linked pre base total carried src (carry_end carried src dst)
  carry_end-Linked = elim (Bool-cases (not src.b.write_open && is_empty (in_flight carried src))) [
    | inl both ↦ rw both (record {
      got = l.got;
      rest = l.rest;
      writes = l.writes;
      reads =
          subst (λ t. FlowsTo side_a t (Splice.step dst (ends side_b))) (append-nil (base ++ l.got))
            (step-FlowsTo side_a _ dst (ends side_b) tt l.reads);
      split = l.split;
      count = l.count;
      closed = λ over. (ground arith, sym flight ∙ is_empty-nil _ (ground arith));
    })
    | inr waits ↦ rw waits l
  ]

  -- What has been carried, what is on its way, and what the writing end still has.
  got-total : l.got ++ (l.rest ++ (in_hand src.to_b ++ src.a.arrived)) ≡ total
  got-total =
      let tail = in_hand src.to_b ++ src.a.arrived in
      append_cancel pre (l.got ++ (l.rest ++ tail)) total (
        sym (append_assoc pre l.got (l.rest ++ tail))
        ∙ sym (append_assoc (pre ++ l.got) l.rest tail)
        ∙ ap (λ s. s ++ tail) (sym l.split)
        ∙ l.writes.whole)

  all_carried : dst.a.write_open ≡ false → (src.a.ended ≡ true) × (dst.a.sent ≡ base ++ total)
  all_carried shut =
      let (_, to_a_over, received) = FlowsTo-Delivers side_a _ dst l.reads in
      let (over, got_all) = received (to_a_over shut) in
      let (closed, none_left) = l.closed over in
      let (_, to_b_over, written) = FlowsTo-Delivers side_b _ src l.writes in
      let (src_over, sent_all) = written (to_b_over closed) in
      let carried_all : l.got ≡ total = append_cancel pre l.got total (
        sym (append-nil (pre ++ l.got))
        ∙ ap (λ x. (pre ++ l.got) ++ x) (sym none_left)
        ∙ sym l.split
        ∙ sent_all) in
      (src_over, got_all ∙ ap (λ x. base ++ x) carried_all)

  pub Linked-Arrives : Arrives (base ++ total) carried src dst
  Linked-Arrives = (
    ap₂ (λ x y. x ++ (y ++ (in_hand src.to_b ++ src.a.arrived))) l.reads.whole flight
        ∙ append_assoc base l.got _
        ∙ ap (λ x. base ++ x) got-total,
    all_carried,
  )

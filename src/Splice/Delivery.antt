-- ===== src/Splice/Delivery.antt =====
-- What each peer receives through Splice of internal/netutil/splice.go.
use lotun.Base.{
  ℕ, Bool, true, false, not, ◌&&◌, ◌||◌, ◌≡◌, refl, sym, ap, ◌∙◌, if◌then◌else◌, inl, List, [], ◌∷◌,
  ◌++◌, arith, All,
}
use lotun.Base.Bytes.{Bytes}
use lotun.Splice.{
  Conn, Copy, reading, writing, copied, returned, close, half_close, copy_turn, Splice, Side,
  side_a, side_b, Event, sends, ends, copies, arrive, start, step, run,
}
use mathlib.Core.List.{append_assoc, append-nil}
use lotun.Splice.Flow.{in_hand, Outlives, Flows}
use lotun.Splice.Flow.Others.{
  arrive-Flows, arrive-Agrees, unchanged-Flows, own_turn-Flows, reply_turn-Flows, over-Flows,
}

-- The side whose peer is the source of the bytes that are copied to a side.
abbrev pub across : Side → Side
across side_a = side_b
across side_b = side_a

abbrev pub conn : Side → Splice → Conn
conn side_a s = s.a
conn side_b s = s.b

abbrev pub copy_to : Side → Splice → Copy
copy_to side_a s = s.to_a
copy_to side_b s = s.to_b

abbrev pub FlowsTo : Side → Bytes → Splice → Type 0
FlowsTo side total s = Flows total (conn side s) (copy_to side s) (conn (across side) s)

abbrev pub is_at : Side → Side → Bool
is_at side_a side_a = true
is_at side_b side_b = true
is_at side other = false

-- What the peer of a side sends in one event, if it has not ended its stream, and whether it has
-- ended it then.
abbrev pub sent_by : Side → Bool → Event → Bytes
sent_by side ended (sends other bs) = if is_at side other && not ended then bs else []
sent_by side ended e = []

abbrev pub ended_by : Side → Bool → Event → Bool
ended_by side ended (ends other) = is_at side other || ended
ended_by side ended e = ended

-- What it sends in a run.
abbrev pub offered : Side → Bool → List Event → Bytes
offered side ended [] = []
offered side ended (e ∷ es) = sent_by side ended e ++ offered side (ended_by side ended e) es

-- No system call fails.
abbrev pub IsHealthy : Event → Type 0
IsHealthy (copies side size fails) = fails ≡ false
IsHealthy e = Unit

pub step-FlowsTo :
    (side : Side) (total : Bytes) (s : Splice) (e : Event)
    → IsHealthy e
    → FlowsTo side total s
    → FlowsTo side (total ++ sent_by (across side) (conn (across side) s).ended e) (step s e)
unfolding step
step-FlowsTo side_a t s (sends side_a bs) h f =
    unchanged-Flows t s.to_a s.to_b s.a s.b f _ _ (arrive-Agrees bs s.a s.b)
step-FlowsTo side_a t s (sends side_b bs) h f = arrive-Flows t bs s.to_a s.a s.b f
step-FlowsTo side_a t s (ends side_a) h f =
    unchanged-Flows t s.to_a s.to_b s.a s.b f _ _ (refl, refl, refl, refl, refl, refl)
step-FlowsTo side_a t s (ends side_b) h f = over-Flows t s.to_a s.to_b s.a s.b f
step-FlowsTo side_a t s (copies side_a n fails) h f =
    own_turn-Flows t s.to_a s.to_b s.a s.b f n fails h
step-FlowsTo side_a t s (copies side_b n fails) h f =
    reply_turn-Flows t s.to_a s.to_b s.a s.b f n fails h
step-FlowsTo side_b t s (sends side_b bs) h f =
    unchanged-Flows t s.to_b s.to_a s.b s.a f _ _ (arrive-Agrees bs s.b s.a)
step-FlowsTo side_b t s (sends side_a bs) h f = arrive-Flows t bs s.to_b s.b s.a f
step-FlowsTo side_b t s (ends side_b) h f =
    unchanged-Flows t s.to_b s.to_a s.b s.a f _ _ (refl, refl, refl, refl, refl, refl)
step-FlowsTo side_b t s (ends side_a) h f = over-Flows t s.to_b s.to_a s.b s.a f
step-FlowsTo side_b t s (copies side_b n fails) h f =
    own_turn-Flows t s.to_b s.to_a s.b s.a f n fails h
step-FlowsTo side_b t s (copies side_a n fails) h f =
    reply_turn-Flows t s.to_b s.to_a s.b s.a f n fails h

ended-copy_turn :
    (size : ℕ) (fails : Bool) (copy : Copy) (dst src : Conn)
    → let (copy', dst', src') = copy_turn size fails copy dst src in
      (dst'.ended ≡ dst.ended) × (src'.ended ≡ src.ended)
unfolding copy_turn half_close close
ended-copy_turn size fails reading dst src = ground arith
ended-copy_turn size fails (writing chunk) dst src = ground arith
ended-copy_turn size fails copied dst src = ground arith
ended-copy_turn size fails returned dst src = ground arith

pub ended-step :
    (side : Side) (s : Splice) (e : Event)
    → (conn side (step s e)).ended ≡ ended_by side (conn side s).ended e
unfolding step arrive
ended-step side_a s (sends side_a bs) = ground arith
ended-step side_a s (sends side_b bs) = refl
ended-step side_a s (ends side_a) = refl
ended-step side_a s (ends side_b) = refl
ended-step side_a s (copies side_a n fails) = (ended-copy_turn n fails s.to_a s.a s.b).0
ended-step side_a s (copies side_b n fails) = (ended-copy_turn n fails s.to_b s.b s.a).1
ended-step side_b s (sends side_a bs) = refl
ended-step side_b s (sends side_b bs) = ground arith
ended-step side_b s (ends side_a) = refl
ended-step side_b s (ends side_b) = refl
ended-step side_b s (copies side_a n fails) = (ended-copy_turn n fails s.to_a s.a s.b).1
ended-step side_b s (copies side_b n fails) = (ended-copy_turn n fails s.to_b s.b s.a).0

run-FlowsTo :
    (side : Side) (total : Bytes) (s : Splice) (es : List Event)
    → All IsHealthy es
    → FlowsTo side total s
    → FlowsTo side (total ++ offered (across side) (conn (across side) s).ended es) (run s es)
unfolding run
run-FlowsTo side total s [] h f = rw (append-nil total) f
run-FlowsTo side total s (e ∷ es) (h, hs) f =
    let rest = run-FlowsTo side _ (step s e) es hs (step-FlowsTo side total s e h f) in
    rw (← append_assoc total _ _, ← ended-step (across side) s e) rest

-- A connection that is open both ways.
abbrev pub IsFresh : Conn → Type 0
IsFresh c = (c.write_open ≡ true) × (c.read_open ≡ true) × Outlives c

-- What is to reach the peer of a side: what it had, what has arrived on the other side, and what the
-- other peer sends.
abbrev pub whole_for : Side → Splice → List Event → Bytes
whole_for side s es =
    let src = conn (across side) s in
    (conn side s).sent ++ (src.arrived ++ offered (across side) src.ended es)

-- How far a direction of a run has come.
abbrev pub Delivers : Side → Bytes → Splice → Type 0
Delivers side whole s =
    let dst = conn side s in
    let src = conn (across side) s in
    let copy = copy_to side s in
    (dst.sent ++ (in_hand copy ++ src.arrived) ≡ whole)
    × (dst.write_open ≡ false → copy ≡ returned)
    × (copy ≡ returned → (src.ended ≡ true) × (dst.sent ≡ whole))

returned-whole :
    (whole : Bytes) (copy : Copy) (dst src : Conn)
    → Flows whole dst copy src
    → copy ≡ returned
    → (src.ended ≡ true) × (dst.sent ≡ whole)
returned-whole whole reading dst src f h = absurd cc
returned-whole whole (writing chunk) dst src f h = absurd cc
returned-whole whole copied dst src f h = absurd cc
returned-whole whole returned dst src f h =
    (f.drained.0, sym (append-nil dst.sent) ∙ ap (λ x. dst.sent ++ x) (sym f.drained.1) ∙ f.whole)

pub FlowsTo-Delivers :
    (side : Side) (whole : Bytes) (s : Splice) → FlowsTo side whole s → Delivers side whole s
FlowsTo-Delivers side whole s f = (
  f.whole,
  λ shut. ground (arith, f.writable),
  returned-whole whole (copy_to side s) (conn side s) (conn (across side) s) f,
)

pub start-FlowsTo :
    (side : Side) (a b : Conn)
    → IsFresh a
    → IsFresh b
    → let s = start a b in FlowsTo side ((conn side s).sent ++ (conn (across side) s).arrived) s
start-FlowsTo side_a a b (wa, ra, oa) (wb, rb, ob) = record {
  whole = refl;
  drained = tt;
  writable = inl wa;
  readable = rb;
  outlives = ob;
}
start-FlowsTo side_b a b (wa, ra, oa) (wb, rb, ob) = record {
  whole = refl;
  drained = tt;
  writable = inl wb;
  readable = ra;
  outlives = oa;
}

-- Splice on two open connections, each of which has CloseWrite or can be read after Close, at
-- every moment of every order of events in which no system call fails, in both directions: what
-- was written, what is in hand and what is unread are together exactly what the peer sent before
-- it ended its stream, in order; the write side of the other connection is shut only when
-- copyThenHalfClose returns, and then the peer has ended and all of it was written.
pub run-Delivers :
    (a b : Conn) (es : List Event) (side : Side)
    → IsFresh a
    → IsFresh b
    → All IsHealthy es
    → Delivers side (whole_for side (start a b) es) (run (start a b) es)
run-Delivers a b es side fa fb healthy =
    let s = start a b in
    let src = conn (across side) s in
    FlowsTo-Delivers side _ (run s es) (
      rw (← append_assoc (conn side s).sent src.arrived (offered (across side) src.ended es))
        (run-FlowsTo side _ s es healthy (start-FlowsTo side a b fa fb)))

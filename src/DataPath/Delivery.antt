-- ===== src/DataPath/Delivery.antt =====
-- What the visitor of a tcp tunnel and the local service receive of each other.
use lotun.Base.{
  ℕ, Bool, true, false, not, ◌&&◌, ◌||◌, ◌≡◌, refl, if◌then◌else◌, List, [], ◌∷◌, ◌++◌, All,
  is_empty, take, Bool-cases, inl, inr,
}
use lotun.Base.Bytes.{Bytes}
use lotun.Splice.{Splice, side_a, side_b, sends, ends, copies}
use lotun.Splice.Delivery.{ended-step}
use lotun.DataPath.{
  DataPath, Place, at_server, at_client, Event, peer_sends, peer_ends, turns, carries, carries_end,
  in_flight, carry_end, step, run,
}
use lotun.DataPath.Link.{Linked, writer-Linked, reader-Linked, carry-Linked, carry_end-Linked}
use mathlib.Core.List.{append_assoc, append-nil}

-- The Splice that writes the stream of a direction, the one that reads it, and what is carried.
abbrev pub source : Place → DataPath → Splice
source at_server p = p.server
source at_client p = p.client

abbrev pub target : Place → DataPath → Splice
target at_server p = p.client
target at_client p = p.server

abbrev pub carried : Place → DataPath → ℕ
carried at_server p = p.to_client
carried at_client p = p.to_server

abbrev pub is_here : Place → Place → Bool
is_here at_server at_server = true
is_here at_client at_client = true
is_here place other = false

-- What the peer at a place sends in one event, if it has not ended its stream, and whether it has
-- ended it then.
abbrev pub sent_at : Place → Bool → Event → Bytes
sent_at place ended (peer_sends other bs) = if is_here place other && not ended then bs else []
sent_at place ended e = []

abbrev pub ended_at : Place → Bool → Event → Bool
ended_at place ended (peer_ends other) = is_here place other || ended
ended_at place ended e = ended

-- What it sends in a run.
abbrev pub offered_at : Place → Bool → List Event → Bytes
offered_at place ended [] = []
offered_at place ended (e ∷ es) =
    sent_at place ended e ++ offered_at place (ended_at place ended e) es

-- No system call fails.
abbrev pub IsHealthyAt : Event → Type 0
IsHealthyAt (turns place side size fails) = fails ≡ false
IsHealthyAt e = Unit

abbrev pub Links : Place → Bytes → Bytes → Bytes → DataPath → Type 0
Links place pre base total p =
    Linked pre base total (carried place p) (source place p) (target place p)

-- The other way round.
abbrev mirror : DataPath → DataPath
mirror p = record {
  server = p.client;
  client = p.server;
  to_client = p.to_server;
  to_server = p.to_client;
}

ended-carry_end : (n : ℕ) (src dst : Splice) → (carry_end n src dst).a.ended ≡ dst.a.ended
ended-carry_end n src dst = elim (Bool-cases (not src.b.write_open && is_empty (in_flight n src))) [
  | inl both ↦ rw both (ended-step side_a dst (ends side_b))
  | inr waits ↦ rw waits refl
]

module _ (pre base total : Bytes) where
  nothing_sent :
      (c : ℕ) (src dst : Splice)
      → Linked pre base total c src dst
      → Linked pre base (total ++ []) c src dst
  nothing_sent c src dst l = rw (append-nil total) l

  reply_end-Linked :
      (n c : ℕ) (src dst : Splice)
      → Linked pre base total c src dst
      → Linked pre base (total ++ []) c (carry_end n dst src) dst
  reply_end-Linked n c src dst l =
      elim (Bool-cases (not dst.b.write_open && is_empty (in_flight n dst))) [
        | inl both ↦ rw both (writer-Linked pre base total c src dst l (ends side_b) tt)
        | inr waits ↦ rw waits (nothing_sent c src dst l)
      ]

  -- A step in which the peer at a place may send, and whether it has ended its stream after that.
  abbrev Moves : Place → DataPath → Event → Type 0
  Moves place p e =
      Links place pre base (total ++ sent_at place (source place p).a.ended e) (step p e)
      × ((source place (step p e)).a.ended ≡ ended_at place (source place p).a.ended e)

  visitor-Moves :
      (p : DataPath) (e : Event)
      → IsHealthyAt e
      → Links at_server pre base total p
      → Moves at_server p e
  unfolding step
  visitor-Moves p (peer_sends at_server bs) h l = (
    writer-Linked pre base total _ _ _ l (sends side_a bs) tt,
    ended-step side_a p.server (sends side_a bs),
  )
  visitor-Moves p (peer_sends at_client bs) h l = (
    nothing_sent _ _ _ (reader-Linked pre base total _ _ _ l (sends side_a bs) tt refl refl),
    refl,
  )
  visitor-Moves p (peer_ends at_server) h l = (
    writer-Linked pre base total _ _ _ l (ends side_a) tt,
    ended-step side_a p.server (ends side_a),
  )
  visitor-Moves p (peer_ends at_client) h l =
      (nothing_sent _ _ _ (reader-Linked pre base total _ _ _ l (ends side_a) tt refl refl), refl)
  visitor-Moves p (turns at_server side n fails) h l = (
    writer-Linked pre base total _ _ _ l (copies side n fails) h,
    ended-step side_a p.server (copies side n fails),
  )
  visitor-Moves p (turns at_client side n fails) h l = (
    nothing_sent _ _ _ (reader-Linked pre base total _ _ _ l (copies side n fails) h refl refl),
    refl,
  )
  visitor-Moves p (carries at_server n) h l =
      (nothing_sent _ _ _ (carry-Linked pre base total _ _ _ l n), refl)
  visitor-Moves p (carries at_client n) h l = (
    writer-Linked pre base total _ _ _ l (sends side_b (take n (in_flight p.to_server p.client)))
        tt,
    ended-step side_a p.server (sends side_b (take n (in_flight p.to_server p.client))),
  )
  visitor-Moves p (carries_end at_server) h l =
      (nothing_sent _ _ _ (carry_end-Linked pre base total _ _ _ l), refl)
  visitor-Moves p (carries_end at_client) h l =
      (reply_end-Linked p.to_server _ _ _ l, ended-carry_end p.to_server p.client p.server)

  pub step-Moves :
      (place : Place) (p : DataPath) (e : Event)
      → IsHealthyAt e
      → Links place pre base total p
      → Moves place p e
  unfolding step
  step-Moves at_server p e h l = visitor-Moves p e h l
  step-Moves at_client p (peer_sends at_server bs) h l =
      visitor-Moves (mirror p) (peer_sends at_client bs) h l
  step-Moves at_client p (peer_sends at_client bs) h l =
      visitor-Moves (mirror p) (peer_sends at_server bs) h l
  step-Moves at_client p (peer_ends at_server) h l =
      visitor-Moves (mirror p) (peer_ends at_client) h l
  step-Moves at_client p (peer_ends at_client) h l =
      visitor-Moves (mirror p) (peer_ends at_server) h l
  step-Moves at_client p (turns at_server side n fails) h l =
      visitor-Moves (mirror p) (turns at_client side n fails) h l
  step-Moves at_client p (turns at_client side n fails) h l =
      visitor-Moves (mirror p) (turns at_server side n fails) h l
  step-Moves at_client p (carries at_server n) h l =
      visitor-Moves (mirror p) (carries at_client n) h l
  step-Moves at_client p (carries at_client n) h l =
      visitor-Moves (mirror p) (carries at_server n) h l
  step-Moves at_client p (carries_end at_server) h l =
      visitor-Moves (mirror p) (carries_end at_client) h l
  step-Moves at_client p (carries_end at_client) h l =
      visitor-Moves (mirror p) (carries_end at_server) h l

pub run-Links :
    (place : Place) (pre base total : Bytes) (p : DataPath) (es : List Event)
    → All IsHealthyAt es
    → Links place pre base total p
    → Links place pre base (total ++ offered_at place (source place p).a.ended es) (run p es)
unfolding run
run-Links place pre base total p [] h l = rw (append-nil total) l
run-Links place pre base total p (e ∷ es) (h, hs) l =
    let (moved, still) = step-Moves pre base total place p e h l in
    rw (← append_assoc total _ _, ← still) (run-Links place pre base _ (step p e) es hs moved)

-- ===== src/Server/Peer/Whole.antt =====
-- A control connection of internal/server/server.go, message by message and as a whole.
use lotun.Base.{
  ℕ, ◌≤◌, true, ◌≡◌, refl, ap, inl, inr, List, [], ◌∷◌, none, some, arith, Option-cases, Bool-cases,
  length,
}
use lotun.Json.{JsonText}
use lotun.Protocol.{Message}
use lotun.Server.{Server, Draws, end_session}
use lotun.Server.Control.{Round, dispatch, serve_control, authenticate, handle_control_conn}
use lotun.Server.Peer.{greeting, serving, over, Peer, hang_up, serve_round, greet, answer}

-- The rounds of serveControl in which a client sends the messages, in which every reply goes out.
abbrev pub rounds_of : List Message → List Draws → List Round
rounds_of [] ws = []
rounds_of (m ∷ ms) [] = []
rounds_of (m ∷ ms) (w ∷ ws) =
    record { message = some m; draws = w; writes = true } ∷ rounds_of ms ws

-- A client that sends the messages one after the other, as long as it is answered, and closes.
unfoldable pub talk : JsonText → Peer → List Message → Peer × List Message
talk json p [] = (hang_up p, [])
talk json p (m ∷ ms) =
    let (p', reply) = answer json p m in
    elim reply [
      | none ↦ (hang_up p', [])
      | some a ↦ let (q, answers) = talk json p' ms in (q, a ∷ answers)
    ]

abbrev pub serving_as : Server → ℕ → List Draws → Peer
serving_as s sess ws = record { server = s; sess = sess; phase = serving; draws = ws }

abbrev pub over_as : Server → ℕ → List Draws → Peer
over_as s sess ws = record { server = s; sess = sess; phase = over; draws = ws }

over-talk :
    (json : JsonText) (s : Server) (sess : ℕ) (ws : List Draws) (ms : List Message)
    → talk json (over_as s sess ws) ms ≡ (over_as s sess ws, [])
unfolding talk answer hang_up
over-talk json s sess ws [] = refl
over-talk json s sess ws (m ∷ ms) = refl

talk-serve_control :
    (json : JsonText) (s : Server) (sess : ℕ) (ms : List Message) (ws : List Draws)
    → length ms ≤ length ws
    → let (p, answers) = talk json (serving_as s sess ws) ms in
      let (s', answers') = serve_control json s sess (rounds_of ms ws) in
      (p.server ≡ end_session s' sess) × (answers ≡ answers')
unfolding talk answer serve_round hang_up serve_control
talk-serve_control json s sess [] ws le = (refl, refl)
talk-serve_control json s sess (m ∷ ms) [] le = absurd (omega arith)
talk-serve_control json s sess (m ∷ ms) (w ∷ ws) le =
    elim (Option-cases (dispatch json s sess m w).1) [
      | inl none_sent ↦
          let last : answer json (serving_as s sess (w ∷ ws)) m
              ≡ (over_as (end_session (dispatch json s sess m w).0 sess) sess ws, none) =
            rw (none_sent, answer, serve_round) refl in
          rw (none_sent, last, serve_control, talk) (refl, refl)
      | inr (a, sent) ↦
          let rest =
            talk-serve_control json (dispatch json s sess m w).0 sess ms ws (omega arith) in
          let next : answer json (serving_as s sess (w ∷ ws)) m
              ≡ (serving_as (dispatch json s sess m w).0 sess ws, some a) =
            rw (sent, answer, serve_round) refl in
          rw (sent, next, serve_control, talk) (rest.0, ap (◌∷◌ a) rest.1)
    ]

abbrev pub greeting_as : Server → ℕ → List Draws → Peer
greeting_as s sess ws = record { server = s; sess = sess; phase = greeting; draws = ws }

-- A client that sends a first message and, answered, the others, each of which has its draws, and
-- then closes the connection, leaves the server and gets the later answers exactly as
-- handleControlConn says for that connection.
pub talk-handle_control_conn :
    (json : JsonText) (s : Server) (sess : ℕ) (first : Message) (ms : List Message)
    (ws : List Draws)
    → length ms ≤ length ws
    → let (p, reply) = answer json (greeting_as s sess ws) first in
      let (q, answers) = talk json p ms in
      let (s', answers') = handle_control_conn json s sess (some first) true (rounds_of ms ws) in
      (q.server ≡ s') × (answers ≡ answers')
unfolding answer greet handle_control_conn
talk-handle_control_conn json s sess first ms ws le =
    elim (Bool-cases (authenticate s (some first) true).0) [
      | inl admitted ↦ rw (admitted, handle_control_conn) (talk-serve_control json s sess ms ws le)
      | inr refused ↦ rw (refused, over-talk json s sess ws ms, handle_control_conn) (refl, refl)
    ]

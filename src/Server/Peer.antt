-- ===== src/Server/Peer.antt =====
-- A control connection of internal/server/server.go, message by message, as a client meets it.
pub mod Whole
use lotun.Base.{
  ℕ, suc, ◌≤◌, Bool, true, false, ◌≡◌, refl, ap, ◌∙◌, sym, inl, inr, List, [], ◌∷◌, Option, none,
  some, arith, Option-cases, Bool-cases, length, if◌then◌else◌,
}
use lotun.Json.{JsonText}
use lotun.Protocol.{Message}
use lotun.Client.{Remote}
use lotun.Server.{Server, Draws, end_session}
use lotun.Server.Control.{Round, dispatch, serve_control, authenticate, handle_control_conn}

-- Before the first message, in serveControl, or over.
pub data Phase : Type 0 where
  greeting serving over : Phase

-- The server, the session of the connection, and what its requests will draw. A connection whose
-- list is used up breaks.
pub record Peer : Type 0 where
  pub server : Server
  pub sess : ℕ
  pub phase : Phase
  pub draws : List Draws

-- The end of the connection.
unfoldable pub hang_up : Peer → Peer
hang_up p = elim p.phase [
  | greeting ↦ record p { phase = over }
  | serving ↦ record p { phase = over; server = end_session p.server p.sess }
  | over ↦ p
]

module _ (json : JsonText) where
  -- One round of serveControl.
  unfoldable pub serve_round : Peer → Message → Peer × Option Message
  unfolding hang_up
  serve_round p m = elim p.draws [
    | [] ↦ (hang_up p, none)
    | w ∷ ws ↦
        let (s', reply) = dispatch json p.server p.sess m w in
        let p' : Peer = record p { server = s'; draws = ws } in
        elim reply [ none ↦ (hang_up p', none) | some a ↦ (p', some a) ]
  ]

  -- authenticate, where the reply goes out.
  unfoldable pub greet : Peer → Message → Peer × Option Message
  greet p m =
      let (admitted, reply) = authenticate p.server (some m) true in
      (record p { phase = if admitted then serving else over }, reply)

  unfoldable pub answer : Peer → Message → Peer × Option Message
  unfolding serve_round greet
  answer p m = elim p.phase [ greeting ↦ greet p m | serving ↦ serve_round p m | over ↦ (p, none) ]

  -- The server as a client meets it that reaches it.
  abbrev pub remote : Remote Peer
  remote = record { dials = λ opts p. true; answer = answer; hang_up = hang_up }

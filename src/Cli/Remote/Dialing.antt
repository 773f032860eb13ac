-- ===== src/Cli/Remote/Dialing.antt =====
-- dial and the one-shot commands of cmd/lotun/commands.go at a server of internal/server/server.go.
use lotun.Base.{
  ℕ, true, false, ◌≡◌, refl, ap, inl, inr, List, ◌∷◌, Option, some, Option-cases, ◌==◌,
}
use lotun.Base.Bytes.{Bytes, bytes, bytes_eq}
use lotun.Json.{JsonText}
use lotun.Protocol.{Message, auth_ok, error}
use lotun.Server.{Server, Draws, end_session}
use lotun.Server.Control.{dispatch, authenticate}
use lotun.Server.Peer.{Peer, hang_up, serve_round, greet, answer, remote}
use lotun.Server.Peer.Whole.{greeting_as, serving_as, over_as}
use lotun.Client.{Reply, hello, connect, connected, connect_with, connect_over_conn}
use lotun.Cli.{ClientConfig, accepted, rejected, said}
use lotun.Cli.Remote.{dial, finish, one_shot}

answer-admitted :
    (json : JsonText) (s : Server) (sess : ℕ) (ws : List Draws) (token : Bytes)
    → (token == s.token) ≡ true
    → answer json (greeting_as s sess ws) (hello token) ≡ (serving_as s sess ws, some auth_ok)
unfolding answer greet authenticate
answer-admitted json s sess ws token same = rw (same, answer, greet, authenticate) refl

answer-refused :
    (json : JsonText) (s : Server) (sess : ℕ) (ws : List Draws) (token : Bytes)
    → (token == s.token) ≡ false
    → answer json (greeting_as s sess ws) (hello token)
      ≡ (over_as s sess ws, some (error (bytes "invalid token")))
unfolding answer greet authenticate
answer-refused json s sess ws token other = rw (other, answer, greet, authenticate) refl

pub dial-admitted :
    (json : JsonText) (s : Server) (sess : ℕ) (ws : List Draws) (cfg : ClientConfig)
    → (cfg.token == s.token) ≡ true
    → dial (remote json) cfg (greeting_as s sess ws) ≡ (serving_as s sess ws, accepted tt)
unfolding dial connect_with connect_over_conn connected connect
dial-admitted json s sess ws cfg same =
    rw (answer-admitted json s sess ws cfg.token same, dial, connect_with, connect_over_conn) refl

pub dial-refused :
    (json : JsonText) (s : Server) (sess : ℕ) (ws : List Draws) (cfg : ClientConfig)
    → (cfg.token == s.token) ≡ false
    → dial (remote json) cfg (greeting_as s sess ws)
      ≡ (over_as s sess ws, rejected (said (bytes "auth rejected: invalid token")))
unfolding dial connect_with connect_over_conn connected connect hang_up
dial-refused json s sess ws cfg other =
    rw
      (
        answer-refused json s sess ws cfg.token other,
        dial,
        connect_with,
        connect_over_conn,
        hang_up,
      )
      refl

-- A message that is sent while the connection is served, and the end of the connection after it.
pub answer-dispatch :
    (json : JsonText) (s : Server) (sess : ℕ) (w : Draws) (ws : List Draws) (m : Message)
    → let (p, reply) = answer json (serving_as s sess (w ∷ ws)) m in
      let (s', reply') = dispatch json s sess m w in
      (reply ≡ reply') × ((hang_up p).server ≡ end_session s' sess)
unfolding answer serve_round hang_up
answer-dispatch json s sess w ws m = elim (Option-cases (dispatch json s sess m w).1) [
  | inl none_sent ↦ rw (none_sent, answer, serve_round) (refl, refl)
  | inr (a, sent) ↦ rw (sent, answer, serve_round) (refl, refl)
]

-- A one-shot command whose token is the server's.
pub one_shot-dispatch :
    {A : Type 0} (json : JsonText) (s : Server) (sess : ℕ) (w : Draws) (ws : List Draws)
    (m : Message) (call : Peer → Peer × Reply A) (of_reply : Option Message → Reply A)
    (output : A → Bytes) (cfg : ClientConfig)
    → ((p : Peer) → call p ≡ ((answer json p m).0, of_reply (answer json p m).1))
    → (cfg.token == s.token) ≡ true
    → let (p, result) =
        one_shot (remote json) call output (accepted cfg) (greeting_as s sess (w ∷ ws)) in
      let (s', reply) = dispatch json s sess m w in
      (p.server ≡ end_session s' sess) × (result ≡ finish output (of_reply reply))
unfolding one_shot
one_shot-dispatch json s sess w ws m call of_reply output cfg calls same =
    let (replied, closed) = answer-dispatch json s sess w ws m in
    rw (dial-admitted json s sess (w ∷ ws) cfg same, one_shot, calls)
      (closed, ap (λ x. finish output (of_reply x)) replied)

pub one_shot-refused :
    {A : Type 0} (json : JsonText) (s : Server) (sess : ℕ) (ws : List Draws)
    (call : Peer → Peer × Reply A) (output : A → Bytes) (cfg : ClientConfig)
    → (cfg.token == s.token) ≡ false
    → one_shot (remote json) call output (accepted cfg) (greeting_as s sess ws)
      ≡ (over_as s sess ws, rejected (said (bytes "auth rejected: invalid token")))
unfolding one_shot
one_shot-refused json s sess ws call output cfg other =
    rw (dial-refused json s sess ws cfg other, one_shot) refl

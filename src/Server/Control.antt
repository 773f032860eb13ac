-- ===== src/Server/Control.antt =====
-- The control connection of internal/server/server.go: authenticate, serveControl and
-- handleControlConn.
use lotun.Base.{
  ℕ, Bool, true, false, not, List, [], ◌∷◌, ◌++◌, Option, none, some, if◌then◌else◌, ◌==◌,
}
use lotun.Base.Int.{int_eq}
use lotun.Base.Bytes.{Bytes, bytes, bytes_eq}
use lotun.Json.{JsonText}
use lotun.Protocol.{
  Message, auth, auth_ok, register, registered, error, claim, unclaim, ok, list_tunnels,
  tunnel_list,
}
use lotun.Server.{
  Server, Draws, handle_register, handle_claim, handle_unclaim, handle_list, end_session,
}

-- The text that `%T` prints of a message.
unfoldable pub type_name : Message → Bytes
type_name (auth a) = bytes "protocol.Auth"
type_name auth_ok = bytes "protocol.AuthOK"
type_name (register r) = bytes "protocol.Register"
type_name (registered r) = bytes "protocol.Registered"
type_name (error e) = bytes "protocol.Error"
type_name (claim n) = bytes "protocol.Claim"
type_name (unclaim n) = bytes "protocol.Unclaim"
type_name ok = bytes "protocol.OK"
type_name list_tunnels = bytes "protocol.ListTunnels"
type_name (tunnel_list ts) = bytes "protocol.TunnelList"

-- The switch of serveControl on one message; no reply where the store panics.
unfoldable pub dispatch : JsonText → Server → ℕ → Message → Draws → Server × Option Message
unfolding handle_claim handle_unclaim
dispatch json s sess (register req) w = let (s', m) = handle_register s req sess w in (s', some m)
dispatch json s sess (claim name) w = handle_claim json s name w
dispatch json s sess (unclaim name) w = handle_unclaim json s name w
dispatch json s sess list_tunnels w = (s, some (handle_list s))
dispatch json s sess m w = (s, some (error (bytes "unexpected message " ++ type_name m)))

-- What one round of serveControl meets: the message that it reads, or none where the read fails,
-- what the handler draws, and whether the reply can be written.
pub record Round : Type 0 where
  pub message : Option Message
  pub draws : Draws
  pub writes : Bool

-- serveControl over the rounds of one connection, with the replies in order.
unfoldable pub serve_control : JsonText → Server → ℕ → List Round → Server × List Message
serve_control json s sess [] = (s, [])
serve_control json s sess (r ∷ rs) = elim r.message [
  | none ↦ (s, [])
  | some m ↦
      let (s', reply) = dispatch json s sess m r.draws in
      elim reply [
        | none ↦ (s', [])
        | some answer ↦ elim r.writes [
          | false ↦ (s', [])
          | true ↦ let (s₂, answers) = serve_control json s' sess rs in (s₂, answer ∷ answers)
        ]
      ]
]

-- authenticate: whether the client may proceed, and the reply.
unfoldable pub authenticate : Server → Option Message → Bool → Bool × Option Message
authenticate s none writes = (false, none)
authenticate s (some (auth a)) writes =
    if not (a.token == s.token)
    then (false, some (error (bytes "invalid token")))
    else (writes, some auth_ok)
authenticate s (some m) writes = (false, some (error (bytes "expected auth")))

-- handleControlConn from the first message on.
unfoldable pub handle_control_conn :
    JsonText → Server → ℕ → Option Message → Bool → List Round → Server × List Message
handle_control_conn json s sess first writes rs =
    if (authenticate s first writes).0
    then (let (s', answers) = serve_control json s sess rs in (end_session s' sess, answers))
    else (s, [])

-- ===== src/Client.antt =====
-- internal/client/client.go: the handshake, the requests over the control stream and the address
-- that a data stream is forwarded to.
pub mod Replies
pub mod Serving
pub mod Handles
use lotun.Base.{Bool, List, [], ◌++◌, Option, none, some, if◌then◌else◌}
use lotun.Base.Int.{ℤ}
use lotun.Base.Bytes.{Bytes, bytes}
use lotun.Base.Decimal.{itoa}
use lotun.Json.{JsonText}
use lotun.Protocol.{
  Message, Auth, Register, Registered, TunnelInfo, TunnelType, auth, auth_ok, register, registered,
  error, claim, unclaim, list_tunnels, tunnel_list,
}
use lotun.Protocol
use lotun.Protocol.Frame.{Reader, ok, err}
use lotun.Protocol.Codec.{read_stream_header}

pub record TunnelRequest : Type 0 where
  pub type : TunnelType
  pub domain : Bytes
  pub local_port : ℤ
  pub remote_port : ℤ
  pub private : Bool
  pub password : Bytes
  pub allow_ips : List Bytes

-- How a request ends: its result, an error of the stream, what the server said, or a reply of
-- another kind.
pub data Reply {ℓ} (A : Type ℓ) : Type ℓ where
  received : A → Reply A
  broken : Reply A
  failed : Bytes → Reply A
  unexpected : Message → Reply A

-- Each function takes what ReadMessage returns for the reply: none where the stream breaks.
-- The handshake of connectOverConn, and its first message.
abbrev pub hello : Bytes → Message
hello token = auth (record { token = token })

unfoldable pub connect : Option Message → Reply (Unit {0})
connect none = broken
connect (some auth_ok) = received tt
connect (some (error m)) = failed m
connect (some m) = unexpected m

-- The message that Register(req) sends.
unfoldable pub register_message : TunnelRequest → Register
register_message req = record {
  type = req.type;
  domain = req.domain;
  local_port = req.local_port;
  remote_port = req.remote_port;
  private = req.private;
  password = req.password;
  allow_ips = req.allow_ips;
}

unfoldable pub register_reply : Option Message → Reply Registered
register_reply none = broken
register_reply (some (registered r)) = received r
register_reply (some (error m)) = failed m
register_reply (some m) = unexpected m

unfoldable pub expect_ok : Option Message → Reply (Unit {0})
expect_ok none = broken
expect_ok (some Protocol.ok) = received tt
expect_ok (some (error m)) = failed m
expect_ok (some m) = unexpected m

unfoldable pub list_reply : Option Message → Reply (List TunnelInfo)
list_reply none = broken
list_reply (some (tunnel_list ts)) = received ts
list_reply (some (error m)) = failed m
list_reply (some m) = unexpected m

-- handleStream: the local address that it dials, if it can read the header.
unfoldable pub handle_stream : JsonText → Reader → Option (Bytes × Reader)
handle_stream json cs = elim (read_stream_header json cs) [
  | err e ↦ none
  | ok (h, cs') ↦ some (bytes "127.0.0.1:" ++ itoa h.local_port, cs')
]

pub record Options : Type 0 where
  pub control_addr : Bytes
  pub token : Bytes
  pub use_tls : Bool
  pub tls_insecure : Bool

-- The other end of a control stream: whether net.Dial or tls.Dial and the set-up of yamux succeed
-- with the options, what it answers to a message, or not where the stream breaks, and that it is told
-- when the connection is closed.
pub record Remote (S : Type 0) : Type 0 where
  pub dials : Options → S → Bool
  pub answer : S → Message → S × Option Message
  pub hang_up : S → S

-- Close() is `hang_up`, which the functions below call where a connection ends.
module _ {S : Type 0} (remote : Remote S) where
  -- request(m): one message, one reply.
  abbrev pub request : S → Message → S × Option Message
  request s m = remote.answer s m

  -- connectOverConn(conn, token) behind the open control stream; every failure closes the connection.
  unfoldable pub connected : S × Option Message → S × Reply (Unit {0})
  unfolding connect
  connected (s, reply) = elim (connect reply) [
    | received u ↦ (s, received u)
    | broken ↦ (remote.hang_up s, broken)
    | failed m ↦ (remote.hang_up s, failed (bytes "auth rejected: " ++ m))
    | unexpected m ↦ (remote.hang_up s, unexpected m)
  ]

  unfoldable pub connect_over_conn : Bytes → S → S × Reply (Unit {0})
  unfolding connected
  connect_over_conn token s = connected (request s (hello token))

  -- Connect(opts)
  unfoldable pub connect_with : Options → S → S × Reply (Unit {0})
  unfolding connect_over_conn
  connect_with opts s = if remote.dials opts s then connect_over_conn opts.token s else (s, broken)

  -- Register(req), Claim(name), Unclaim(name) and ListTunnels()
  unfoldable pub register_tunnel : TunnelRequest → S → S × Reply Registered
  unfolding register_message register_reply
  register_tunnel req s =
      let (s', reply) = request s (register (register_message req)) in (s', register_reply reply)

  unfoldable pub claim_name : Bytes → S → S × Reply (Unit {0})
  unfolding expect_ok
  claim_name name s = let (s', reply) = request s (claim name) in (s', expect_ok reply)

  unfoldable pub unclaim_name : Bytes → S → S × Reply (Unit {0})
  unfolding expect_ok
  unclaim_name name s = let (s', reply) = request s (unclaim name) in (s', expect_ok reply)

  unfoldable pub list_all : S → S × Reply (List TunnelInfo)
  unfolding list_reply
  list_all s = let (s', reply) = request s list_tunnels in (s', list_reply reply)

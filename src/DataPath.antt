-- ===== src/DataPath.antt =====
-- The bytes of one tcp connection: spliceTCP of internal/server/tcp.go, openDataStream of
-- internal/server/http.go and handleStream of internal/client/client.go, with the stream of yamux
-- between their two calls of Splice.
pub mod Link
pub mod Delivery
pub mod Opening
pub mod Accepting
use lotun.Base.{
  ℕ, ◌+◌, Bool, true, false, not, ◌&&◌, List, [], ◌∷◌, Option, none, some, if◌then◌else◌, is_empty,
  length, take, drop,
}
use lotun.Base.Bytes.{Bytes}
use lotun.Json.{JsonText}
use lotun.Protocol.Frame.{Reader, Writer, flatten}
use lotun.Protocol.Codec.{write_stream_header}
use lotun.Registry.{Tunnel}
use lotun.Http.{stream_header}
use lotun.Client.{handle_stream}
use lotun.Splice.{Conn, Splice, Side, side_a, side_b, sends, ends, copies, close}
use lotun.Splice

-- openDataStream(tn), where Session.Open() gives a stream as a writer, or fails; a stream on which the
-- header cannot be written is closed.
unfoldable pub open_data_stream : JsonText → Option Writer → Tunnel → Option Writer
open_data_stream json none tn = none
open_data_stream json (some w) tn =
    let (sent, w') = write_stream_header json w (stream_header tn) in if sent then some w' else none

-- What becomes of a connection: it is closed, or Splice runs on it.
pub data Fate : Type 0 where
  closed : Conn → Fate
  spliced : Splice → Fate

-- spliceTCP(tn, conn) until Splice begins, on a stream that is `stream` but for what is written to it.
unfoldable pub splice_tcp : JsonText → Option Writer → Tunnel → Conn → Conn → Fate
splice_tcp json opened tn conn stream = elim (open_data_stream json opened tn) [
  | none ↦ closed (close conn)
  | some w ↦ spliced (Splice.start conn (record stream { sent = w.out }))
]

-- handleStream(stream) until Splice begins: `cs` is what ReadStreamHeader reads from, and `dials`
-- what net.Dial gives for an address.
unfoldable pub forward_stream : JsonText → Reader → (Bytes → Option Conn) → Conn → Fate
forward_stream json cs dials stream = elim (handle_stream json cs) [
  | none ↦ closed (close stream)
  | some (addr, cs') ↦ elim (dials addr) [
    | none ↦ closed (close stream)
    | some local ↦ spliced (Splice.start local (record stream { arrived = flatten cs' }))
  ]
]

-- Both calls of Splice, and how many bytes of the stream have been carried to the client and to the
-- server.
pub record DataPath : Type 0 where
  pub server : Splice
  pub client : Splice
  pub to_client : ℕ
  pub to_server : ℕ

pub data Place : Type 0 where
  at_server at_client : Place

-- The visitor (at the server) or the local service (at the client) sends or ends its stream; a
-- goroutine of a Splice takes a turn; yamux carries at most so many bytes that were written at a
-- place to the other one, or the close of the stream.
pub data Event : Type 0 where
  peer_sends : Place → Bytes → Event
  peer_ends : Place → Event
  turns : Place → Side → ℕ → Bool → Event
  carries : Place → ℕ → Event
  carries_end : Place → Event

-- What of a Splice's writes to its stream has not been carried.
abbrev pub in_flight : ℕ → Splice → Bytes
in_flight carried s = drop carried s.b.sent

abbrev pub carry : ℕ → ℕ → Splice → Splice → Splice
carry n carried src dst = Splice.step dst (sends side_b (take n (in_flight carried src)))

-- The close follows the last byte.
abbrev pub carry_end : ℕ → Splice → Splice → Splice
carry_end carried src dst =
    if not src.b.write_open && is_empty (in_flight carried src)
    then Splice.step dst (ends side_b)
    else dst

unfoldable pub step : DataPath → Event → DataPath
step p (peer_sends at_server bs) = record p { server = Splice.step p.server (sends side_a bs) }
step p (peer_sends at_client bs) = record p { client = Splice.step p.client (sends side_a bs) }
step p (peer_ends at_server) = record p { server = Splice.step p.server (ends side_a) }
step p (peer_ends at_client) = record p { client = Splice.step p.client (ends side_a) }
step p (turns at_server side size fails) = record p {
  server = Splice.step p.server (copies side size fails);
}
step p (turns at_client side size fails) = record p {
  client = Splice.step p.client (copies side size fails);
}
step p (carries at_server n) = record p {
  client = carry n p.to_client p.server p.client;
  to_client = p.to_client + length (take n (in_flight p.to_client p.server));
}
step p (carries at_client n) = record p {
  server = carry n p.to_server p.client p.server;
  to_server = p.to_server + length (take n (in_flight p.to_server p.client));
}
step p (carries_end at_server) = record p { client = carry_end p.to_client p.server p.client }
step p (carries_end at_client) = record p { server = carry_end p.to_server p.client p.server }

unfoldable pub run : DataPath → List Event → DataPath
unfolding step
run p [] = p
run p (e ∷ es) = run (step p e) es

-- The server splices the visitor `conn` to a stream, and the client, which reads the header in the
-- chunks `cs`, splices the other end to the local service that it dials.
unfoldable pub open_path :
    JsonText
    → Tunnel
    → Option Writer
    → Reader
    → (Bytes → Option Conn)
    → Conn
    → Conn
    → Conn
    → Option DataPath
unfolding splice_tcp forward_stream
open_path json tn opened cs dials conn near far = elim (splice_tcp json opened tn conn near) [
  | closed c ↦ none
  | spliced server ↦ elim (forward_stream json cs dials far) [
    | closed c ↦ none
    | spliced client ↦ some (record {
      server = server;
      client = client;
      to_client = length (flatten cs);
      to_server = 0;
    })
  ]
]

-- ===== src/DataPath/Opening.antt =====
-- A data stream from its header to the last byte: the two ends that spliceTCP and handleStream splice.
use lotun.Base.{
  ◌<◌, ◌^◌, true, false, ◌≡◌, refl, sym, ap, ◌∙◌, List, [], ◌++◌, Option, some, All, length,
}
use lotun.Base.Bytes.{Bytes, bytes}
use lotun.Base.Decimal.{itoa, IsInt64}
use lotun.Json.{JsonText, IsText}
use lotun.Protocol.Frame.{Reader, Writer, flatten}
use lotun.Protocol.Encode.{header_json}
use lotun.Protocol.Codec.{write_stream_header}
use lotun.Registry.{Tunnel}
use lotun.Http.{stream_header}
use lotun.Client.{handle_stream}
use lotun.Client.Replies.{handle_stream-stream_header}
use lotun.Splice.{Conn, side_a, side_b, start}
use lotun.Splice.Delivery.{IsFresh, start-FlowsTo}
use lotun.DataPath.{
  DataPath, Place, at_server, at_client, Event, run, open_data_stream, splice_tcp, forward_stream,
  open_path, spliced,
}
use lotun.DataPath.Link.{Arrives, Linked, Linked-Arrives}
use lotun.DataPath.Delivery.{source, target, carried, offered_at, IsHealthyAt, Links, run-Links}
use mathlib.Core.List.{append-nil}

-- An end of a stream that yamux has just opened.
abbrev pub IsStream : Conn → Type 0
IsStream c = IsFresh c × (c.arrived ≡ []) × (c.ended ≡ false) × (c.sent ≡ [])

-- Both ends as Splice begins on them: the server's has written the header, and the client's has read
-- it.
abbrev pub opened : Bytes → Conn → Conn → Conn → Conn → DataPath
opened header visitor near local far = record {
  server = start visitor (record near { sent = header });
  client = start local far;
  to_client = length header;
  to_server = 0;
}

start-Linked :
    (pre : Bytes) (a b c d : Conn)
    → IsFresh a
    → IsFresh b
    → IsFresh c
    → IsFresh d
    → b.sent ≡ pre
    → d.arrived ≡ []
    → d.ended ≡ false
    → Linked pre c.sent a.arrived (length pre) (start a b) (start c d)
start-Linked pre a b c d fa fb fc fd header none_yet goes = record {
  got = [];
  rest = [];
  writes = rw (← header) (start-FlowsTo side_b a b fa fb);
  reads = rw (← none_yet) (start-FlowsTo side_a c d fc fd);
  split = header ∙ sym (append-nil pre) ∙ sym (append-nil (pre ++ []));
  count = ap length (append-nil pre);
  closed = λ over. absurd cc;
}

-- What is to reach the peer of the reading end: what it had, and what the other one had sent and sends.
abbrev pub whole_at : Place → DataPath → List Event → Bytes
whole_at place p es =
    let src = (source place p).a in
    (target place p).a.sent ++ (src.arrived ++ offered_at place src.ended es)

module _ (visitor near local far : Conn) (fv : IsFresh visitor) (sn : IsStream near)
    (fl : IsFresh local) (sf : IsStream far) where
  opened-Links :
      (header : Bytes) (place : Place)
      → let p = opened header visitor near local far in
        (pre : Bytes) × Links place pre (target place p).a.sent (source place p).a.arrived p
  opened-Links header at_server = (
    header,
    start-Linked header visitor (record near { sent = header }) local far fv sn.0 fl sf.0 refl sf.1
        sf.2,
  )
  opened-Links header at_client = (
    [],
    start-Linked [] local far visitor (record near { sent = header }) fl sf.0 fv sn.0 sf.3 sn.1
        sn.2,
  )

  run-Arrives :
      (header : Bytes) (place : Place) (es : List Event)
      → All IsHealthyAt es
      → let p = opened header visitor near local far in
        let q = run p es in
        Arrives (whole_at place p es) (carried place q) (source place q) (target place q)
  run-Arrives header place es healthy =
      let p = opened header visitor near local far in
      let (pre, l) = opened-Links header place in
      Linked-Arrives pre _ _ _ _ _ (run-Links place pre _ _ p es healthy l)

module _ (json : JsonText) (tn : Tunnel) (w : Writer) where
  -- What openDataStream writes on the stream.
  abbrev pub header : Bytes
  header = (write_stream_header json w (stream_header tn)).1.out

  opens :
      (write_stream_header json w (stream_header tn)).0 ≡ true
      → open_data_stream json (some w) tn ≡ some (write_stream_header json w (stream_header tn)).1
  unfolding open_data_stream
  opens sent = rw sent refl

  splices :
      (visitor near : Conn)
      → (write_stream_header json w (stream_header tn)).0 ≡ true
      → splice_tcp json (some w) tn visitor near
        ≡ spliced (start visitor (record near { sent = header }))
  unfolding splice_tcp
  splices visitor near sent = rw (opens sent, splice_tcp) refl

  forwards :
      (cs cs' : Reader) (addr : Bytes) (dials : Bytes → Option Conn) (local far : Conn)
      → handle_stream json cs ≡ some (addr, cs')
      → dials addr ≡ some local
      → flatten cs' ≡ []
      → far.arrived ≡ []
      → forward_stream json cs dials far ≡ spliced (start local far)
  unfolding forward_stream
  forwards cs cs' addr dials local far read dialled left none_yet =
      let same : record far { arrived = flatten cs' } ≡ far =
        ap (λ x. record far { arrived = x }) (left ∙ sym none_yet) in
      rw (read, dialled, forward_stream) (ap (λ x. spliced (start local x)) same)

  -- The whole way of a tcp connection: if openDataStream writes its header on a new stream, whose
  -- tunnel ID survives JSON, with a port that is a Go int, a text shorter than 2^32 bytes and the
  -- first write to its writer, and the client reads it, in any chunks, and can dial the tunnel's
  -- local port on 127.0.0.1, then both ends are spliced; and at every moment of every order of
  -- events in which no system call fails, for open connections that survive half a close and a
  -- stream that carries its bytes in order and its close last, in both directions: what was
  -- received, what waits at each place and what is on its way are together exactly what the other
  -- peer sent before it ended, in order, and a connection is shut for writing only when that peer
  -- has ended and all of it was received.
  pub open_path-Arrives :
      (cs : Reader) (dials : Bytes → Option Conn) (visitor near local far : Conn) (place : Place)
      (es : List Event)
      → IsText json.valid (header_json (stream_header tn))
      → IsInt64 tn.local_port
      → length (json.print (header_json (stream_header tn))) < 2 ^ 32
      → (write_stream_header json w (stream_header tn)).0 ≡ true
      → w.out ≡ []
      → flatten cs ≡ header
      → dials (bytes "127.0.0.1:" ++ itoa tn.local_port) ≡ some local
      → IsFresh visitor
      → IsStream near
      → IsFresh local
      → IsStream far
      → All IsHealthyAt es
      → let p = opened header visitor near local far in
        let q = run p es in
        (open_path json tn (some w) cs dials visitor near far ≡ some p)
        × Arrives (whole_at place p es) (carried place q) (source place q) (target place q)
  unfolding open_path
  open_path-Arrives cs dials visitor near local far place es text int short sent fresh whole dialled
        fv sn fl sf healthy =
      let (cs', read, left) =
        handle_stream-stream_header json tn w cs [] text int short sent fresh
          (whole ∙ sym (append-nil header)) in
      let ready = forwards cs cs' _ dials local far read dialled left sf.1 in
      (
        rw (splices visitor near sent, open_path) (rw (ready, whole) refl),
        run-Arrives visitor near local far fv sn fl sf header place es healthy,
      )

-- ===== src/Protocol/Codec/RoundTrip.antt =====
-- The writers and readers of internal/protocol/protocol.go against each other.
use lotun.Base.{◌<◌, true, ◌≡◌, refl, inl, inr, [], ◌++◌, arith, nat_eq, length, ◌^◌}
use lotun.Base.Int.{int_eq}
use lotun.Base.Bytes.{Bytes, bytes_eq}
use lotun.Base.Decimal.{IsInt64}
use lotun.Json.{JsonText, IsText}
use lotun.Protocol.{Message, StreamHeader}
use lotun.Protocol.Encode.{envelope_json, header_json}
use lotun.Protocol.Frame.{Reader, ok, flatten, read_frame, Writer, write_frame}
use lotun.Protocol.Frame.Chunks.{read_frame-frame, write_frame_lem}
use lotun.Protocol.Codec.{read_message, write_message, read_stream_header, write_stream_header}
use lotun.Protocol.Decode.FieldByField.{of_header}
use lotun.Protocol.Decode.Inverse.{HasInts, of_json-envelope_json}

-- A frame that was written whole is read back, and what follows it is left.
read_frame-write_frame :
    (b : Bytes) (w : Writer) (cs : Reader) (rest : Bytes)
    → length b < 2 ^ 32
    → (write_frame w b).0 ≡ true
    → w.out ≡ []
    → flatten cs ≡ (write_frame w b).1.out ++ rest
    → (cs' : Reader) × (read_frame cs ≡ ok (b, cs')) × (flatten cs' ≡ rest)
read_frame-write_frame b w cs rest short sent fresh out = elim (write_frame_lem w b) [
  | inr (failed, _, _) ↦ ground arith
  | inl (_, _, written) ↦ read_frame-frame cs b rest short (rw (out, written, fresh) refl)
]

-- ReadMessage gives back the message that WriteMessage wrote, however the stream is cut in
-- chunks, and leaves what follows it, if the strings of the message survive JSON, its numbers are
-- Go ints, its text is shorter than 2^32 bytes, and the write was the first to its writer and
-- succeeded.
pub read_message-write_message :
    (json : JsonText) (m : Message) (w : Writer) (cs : Reader) (rest : Bytes)
    → IsText json.valid (envelope_json m)
    → HasInts m
    → length (json.print (envelope_json m)) < 2 ^ 32
    → (write_message json w m).0 ≡ true
    → w.out ≡ []
    → flatten cs ≡ (write_message json w m).1.out ++ rest
    → (cs' : Reader) × (read_message json cs ≡ ok (m, cs')) × (flatten cs' ≡ rest)
unfolding read_message write_message
read_message-write_message json m w cs rest text ints short sent fresh out =
    let (cs', read, left) =
      read_frame-write_frame (json.print (envelope_json m)) w cs rest short sent fresh out in
    (
      cs',
      rw (read, json.parse-print (envelope_json m) text, of_json-envelope_json m ints) refl,
      left,
    )

-- ReadStreamHeader gives back the header that WriteStreamHeader wrote, however the stream is cut
-- in chunks, and leaves what follows it, if the tunnel's ID survives JSON, the port is a Go int,
-- the text is shorter than 2^32 bytes, and the write was the first to its writer and succeeded.
pub read_stream_header-write_stream_header :
    (json : JsonText) (h : StreamHeader) (w : Writer) (cs : Reader) (rest : Bytes)
    → IsText json.valid (header_json h)
    → IsInt64 h.local_port
    → length (json.print (header_json h)) < 2 ^ 32
    → (write_stream_header json w h).0 ≡ true
    → w.out ≡ []
    → flatten cs ≡ (write_stream_header json w h).1.out ++ rest
    → (cs' : Reader) × (read_stream_header json cs ≡ ok (h, cs')) × (flatten cs' ≡ rest)
unfolding read_stream_header write_stream_header
read_stream_header-write_stream_header json h w cs rest text int short sent fresh out =
    let (cs', read, left) =
      read_frame-write_frame (json.print (header_json h)) w cs rest short sent fresh out in
    (cs', rw (read, json.parse-print (header_json h) text, of_header h int) refl, left)

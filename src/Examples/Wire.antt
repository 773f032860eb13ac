-- ===== src/Examples/Wire.antt =====
-- The theorems about internal/protocol/protocol.go on a request that arrives in two chunks.
use lotun.Base.{◌≡◌, refl, ◌^◌, ◌<◌, true, false, [], ◌∷◌, ◌++◌, arith, length}
use lotun.Base.Bytes.{Bytes, eqb_bytes}
use lotun.Protocol.{register}
use lotun.Protocol.Frame.{ok, Reader, flatten, read_full, Writer, write_frame, frame, put_uint32}
use lotun.Protocol.Frame.Chunks.{ReadsFull, read_full-ReadsFull}
use lotun.Protocol.Encode.{envelope_json}
use lotun.Protocol.Codec.{write_message, read_message}
use lotun.Protocol.Codec.RoundTrip.{read_message-write_message}
use lotun.Examples.Text.{text, any_string-IsText, put, depth}
use lotun.Examples.Data.{web_request}

abbrev chunks : Reader
chunks = (0 ∷ 0 ∷ []) ∷ [] ∷ (0 ∷ 2 ∷ 7 ∷ []) ∷ (8 ∷ 9 ∷ []) ∷ []

read_full-ReadsFull_example : ReadsFull 4 false chunks (read_full 4 chunks)
read_full-ReadsFull_example = read_full-ReadsFull 4 chunks

framed : flatten chunks ≡ frame (7 ∷ 8 ∷ []) ++ (9 ∷ [])
unfolding put_uint32
framed = refl

abbrev narrow : Writer
narrow = record { out = []; room = 5 }

abbrev wide : Writer
wide = record { out = []; room = 1000 }

abbrev sent : Bytes
sent = (write_message text wide (register web_request)).1.out

short :
    (length (text.print (envelope_json (register web_request))) < 2 ^ 32)
    × ((write_message text wide (register web_request)).0 ≡ true)
unfolding envelope_json write_message write_frame put_uint32 put depth eqb_bytes
short = (omega arith, refl)

read_message-write_message_example :
    (cs : Reader) × (read_message text (sent ∷ (1 ∷ []) ∷ []) ≡ ok (register web_request, cs))
    × (flatten cs ≡ 1 ∷ [])
read_message-write_message_example =
    read_message-write_message text (register web_request) wide (sent ∷ (1 ∷ []) ∷ []) (1 ∷ [])
      (any_string-IsText _) ((omega arith, omega arith), (omega arith, omega arith)) short.0 short.1
      refl refl

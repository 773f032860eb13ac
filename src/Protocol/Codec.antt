-- ===== src/Protocol/Codec.antt =====
-- WriteMessage, ReadMessage and the stream headers of internal/protocol/protocol.go.
pub mod RoundTrip
use lotun.Base.{
  ℕ, ◌+◌, ◌≤◌, ◌<◌, Bool, true, false, ◌&&◌, List, [], ◌∷◌, Option, none, some, if◌then◌else◌, ◌==◌,
  eqb, leb, nat_eq, is_empty,
}
use lotun.Base.Int.{ℤ, pos, negsuc, leb_ℤ, int_eq}
use lotun.Base.Bytes.{Bytes, bytes, bytes_eq}
use lotun.Json.{
  Json, Items, Fields, JsonText, null, bool, num, str, arr, obj, nil, cons, end, field,
}
use lotun.Protocol.{
  Message, Auth, Register, Registered, TunnelInfo, StreamHeader, auth, auth_ok, register,
  registered, error, claim, unclaim, list_tunnels, tunnel_list,
}
use lotun.Protocol
use lotun.Protocol.Frame.{
  Read, Reader, ok, err, bad_json, unknown_kind, ◌>>=◌, read_frame, Writer, write_frame,
}
use lotun.Protocol.Decode.{
  is_key, into_string, into_int, into_bool, into_strings, into_fields, into_struct, fold_key, store,
}
use lotun.Protocol.Decode.Structs.{
  set_register, set_registered, set_tunnel_info, set_header, set_infos, zero_register,
  zero_registered, zero_info, zero_header,
}
use lotun.Protocol.Encode.{envelope_json, header_json}
use lotun.Protocol.Decode.Dispatch.{of_json}

module _ (json : JsonText) where
  -- WriteMessage(w, m)
  unfoldable pub write_message : Writer → Message → Bool × Writer
  write_message w m = write_frame w (json.print (envelope_json m))

  -- ReadMessage(r)
  unfoldable pub read_message : Reader → Read (Message × Reader)
  read_message cs = do
    (text, cs') ← read_frame cs
    elim (json.parse text) [ none ↦ err bad_json | some j ↦ do m ← of_json j; ok (m, cs') ]

  -- WriteStreamHeader(w, h)
  unfoldable pub write_stream_header : Writer → StreamHeader → Bool × Writer
  write_stream_header w h = write_frame w (json.print (header_json h))

  -- ReadStreamHeader(r)
  unfoldable pub read_stream_header : Reader → Read (StreamHeader × Reader)
  read_stream_header cs = do
    (text, cs') ← read_frame cs
    elim (json.parse text) [
      | none ↦ err bad_json
      | some j ↦ elim (into_struct set_header j zero_header) [
        | none ↦ err bad_json
        | some h ↦ ok (h, cs')
      ]
    ]

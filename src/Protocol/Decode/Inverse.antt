-- ===== src/Protocol/Decode/Inverse.antt =====
-- Decoding the envelopes of internal/protocol/protocol.go.
use lotun.Base.{◌≡◌, refl, ◌∙◌, [], none, some, nat_eq, All}
use lotun.Base.Int.{int_eq}
use lotun.Base.Bytes.{eqb_bytes, Bytes, bytes, bytes_eq}
use lotun.Base.Decimal.{IsInt64}
use lotun.Json.{Json, arr, end}
use lotun.Protocol.{
  Message, Auth, Register, Registered, TunnelInfo, StreamHeader, auth, auth_ok, register,
  registered, error, claim, unclaim, list_tunnels, tunnel_list,
}
use lotun.Protocol
use lotun.Protocol.Encode.{tunnel_infos, payload_json, envelope_json, kind}
use lotun.Protocol.Decode.{fold_key, into_string, into_fields, into_struct, set_only}
use lotun.Protocol.Decode.Structs.{set_infos, zero_register, zero_registered, into_infos}
use lotun.Protocol.Decode.Dispatch.{
  of_json, of_envelope, of_payload, zero_message, set_envelope, Envelope,
}
use lotun.Protocol.Frame.{ok}
use lotun.Protocol.Decode.FieldByField.{
  into_fields-field, of_register, of_registered, of_tunnel_infos,
}

-- The numbers of a message are Go ints.
abbrev pub HasInts : Message → Type 0
HasInts (register r) = IsInt64 r.local_port × IsInt64 r.remote_port
HasInts (registered r) = IsInt64 r.port
HasInts (tunnel_list ts) = All (λ t. IsInt64 t.port × IsInt64 t.local_port) ts
HasInts (auth _) = Unit
HasInts auth_ok = Unit
HasInts (error _) = Unit
HasInts (claim _) = Unit
HasInts (unclaim _) = Unit
HasInts Protocol.ok = Unit
HasInts list_tunnels = Unit

abbrev sent_envelope : Message → Envelope
sent_envelope m = record { kind = kind m; payload = some (payload_json m) }

set_envelope-envelope_json :
    (m : Message)
    → into_struct set_envelope (envelope_json m) (record { kind = []; payload = none })
      ≡ some (sent_envelope m)
unfolding into_struct into_fields set_envelope envelope_json fold_key into_string eqb_bytes
set_envelope-envelope_json m = refl

of_envelope_lem :
    (k : Bytes) (p : Json) (z m : Message)
    → zero_message k ≡ some z
    → of_payload z p ≡ some m
    → of_envelope (record { kind = k; payload = some p }) ≡ ok m
unfolding of_envelope
of_envelope_lem k p z m h₁ h₂ = rw (of_envelope, h₁, h₂) refl

of_json_lem :
    (j : Json) (e : Envelope)
    → into_struct set_envelope j (record { kind = []; payload = none }) ≡ some e
    → of_json j ≡ of_envelope e
unfolding of_json
of_json_lem j e h = rw (of_json, h) refl

of_envelope_json :
    (m z : Message)
    → zero_message (kind m) ≡ some z
    → of_payload z (payload_json m) ≡ some m
    → of_json (envelope_json m) ≡ ok m
of_envelope_json m z h₁ h₂ =
    of_json_lem (envelope_json m) (sent_envelope m) (set_envelope-envelope_json m)
    ∙ of_envelope_lem (kind m) (payload_json m) z m h₁ h₂

-- Unmarshal gives back what Marshal made of a message whose numbers are Go ints.
pub of_json-envelope_json : (m : Message) → HasInts m → of_json (envelope_json m) ≡ ok m
unfolding of_payload payload_json zero_message kind eqb_bytes into_struct into_fields set_only
    set_infos into_infos fold_key into_string
of_json-envelope_json (auth a) h =
    of_envelope_json (auth a) (auth (record { token = [] })) refl refl
of_json-envelope_json auth_ok h = of_envelope_json auth_ok auth_ok refl refl
of_json-envelope_json (register r) (l, m) =
    of_envelope_json (register r) (register zero_register) refl (rw (of_register r l m) refl)
of_json-envelope_json (registered r) h =
    of_envelope_json (registered r) (registered zero_registered) refl (rw (of_registered r h) refl)
of_json-envelope_json (error e) h = of_envelope_json (error e) (error []) refl refl
of_json-envelope_json (claim n) h = of_envelope_json (claim n) (claim []) refl refl
of_json-envelope_json (unclaim n) h = of_envelope_json (unclaim n) (unclaim []) refl refl
of_json-envelope_json Protocol.ok h = of_envelope_json Protocol.ok Protocol.ok refl refl
of_json-envelope_json list_tunnels h = of_envelope_json list_tunnels list_tunnels refl refl
of_json-envelope_json (tunnel_list ts) h = of_envelope_json (tunnel_list ts) (tunnel_list []) refl (
    rw
      (into_fields-field set_infos (bytes "tunnels") (arr (tunnel_infos ts)) end [] ts
        (of_tunnel_infos ts h))
      refl)

-- ===== src/Protocol/Decode/Dispatch.antt =====
-- ReadMessage of internal/protocol/protocol.go behind its frame: the envelope, the switch on the
-- kind and the payload.
use lotun.Base.{[], Option, none, some, if◌then◌else◌, ◌==◌, nat_eq}
use lotun.Base.Int.{int_eq}
use lotun.Base.Bytes.{Bytes, bytes, bytes_eq}
use lotun.Json.{Json}
use lotun.Protocol.{
  Message, Auth, Register, Registered, TunnelInfo, StreamHeader, auth, auth_ok, register,
  registered, error, claim, unclaim, list_tunnels, tunnel_list,
}
use lotun.Protocol
use lotun.Protocol.Frame.{Read, ok, err, bad_json, unknown_kind}
use lotun.Protocol.Decode.{is_key, into_string, into_struct, fold_key, store, set_only, skip_all}
use lotun.Protocol.Decode.Structs.{
  set_register, set_registered, set_infos, zero_register, zero_registered,
}

-- The envelope; its payload is kept as a value, and is missing (`none`) if no field gave one.
pub record Envelope : Type 0 where
  pub kind : Bytes
  pub payload : Option Json

unfoldable pub set_envelope : Bytes → Json → Envelope → Option Envelope
unfolding into_string fold_key
set_envelope k v e =
    if is_key (bytes "kind") k
    then store (into_string v e.kind) (λ x. record e { kind = x })
    else (if is_key (bytes "payload") k then some (record e { payload = some v }) else some e)

-- The message that Unmarshal makes of a payload by its kind; `none` is an error of json.
unfoldable pub of_payload : Message → Json → Option Message
unfolding into_struct set_only set_register set_registered set_infos
of_payload (auth _) j =
    store (into_struct (set_only (bytes "token")) j []) (λ t. auth (record { token = t }))
of_payload auth_ok j = store (into_struct skip_all j tt) (λ _. auth_ok)
of_payload (register _) j = store (into_struct set_register j zero_register) register
of_payload (registered _) j = store (into_struct set_registered j zero_registered) registered
of_payload (error _) j = store (into_struct (set_only (bytes "message")) j []) error
of_payload (claim _) j = store (into_struct (set_only (bytes "name")) j []) claim
of_payload (unclaim _) j = store (into_struct (set_only (bytes "name")) j []) unclaim
of_payload Protocol.ok j = store (into_struct skip_all j tt) (λ _. Protocol.ok)
of_payload list_tunnels j = store (into_struct skip_all j tt) (λ _. list_tunnels)
of_payload (tunnel_list _) j = store (into_struct set_infos j []) tunnel_list

-- The switch on env.Kind: the zero message of that kind.
unfoldable pub zero_message : Bytes → Option Message
zero_message k =
    if k == bytes "auth"
    then some (auth (record { token = [] }))
    else (if k == bytes "authok"
        then some auth_ok
        else (if k == bytes "register"
            then some (register zero_register)
            else (if k == bytes "registered"
                then some (registered zero_registered)
                else (if k == bytes "error"
                    then some (error [])
                    else (if k == bytes "claim"
                        then some (claim [])
                        else (if k == bytes "unclaim"
                            then some (unclaim [])
                            else (if k == bytes "ok"
                                then some Protocol.ok
                                else (if k == bytes "list"
                                    then some list_tunnels
                                    else (if k == bytes "tunnellist"
                                        then some (tunnel_list [])
                                        else none)))))))))

-- The part of ReadMessage behind the envelope.
unfoldable pub of_envelope : Envelope → Read Message
unfolding of_payload zero_message
of_envelope e = elim (zero_message e.kind) [
  | none ↦ err unknown_kind
  | some m ↦ elim e.payload [
    | none ↦ err bad_json
    | some j ↦ elim (of_payload m j) [ none ↦ err bad_json | some m' ↦ ok m' ]
  ]
]

unfoldable pub of_json : Json → Read Message
unfolding of_envelope into_struct set_envelope
of_json j = elim (into_struct set_envelope j (record { kind = []; payload = none })) [
  | none ↦ err bad_json
  | some e ↦ of_envelope e
]

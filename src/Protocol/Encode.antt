-- ===== src/Protocol/Encode.antt =====
-- What json.Marshal makes of the messages of internal/protocol/protocol.go.
use lotun.Base.{Bool, true, false, List, [], ◌∷◌, ◌==◌, nat_eq, is_empty}
use lotun.Base.Int.{pos, int_eq}
use lotun.Base.Bytes.{Bytes, bytes, bytes_eq}
use lotun.Json.{Json, Items, Fields, bool, num, str, arr, obj, nil, cons, end, field}
use lotun.Protocol.{
  Message, Auth, Register, Registered, TunnelInfo, StreamHeader, auth, auth_ok, register,
  registered, error, claim, unclaim, list_tunnels, tunnel_list,
}
use lotun.Protocol

-- Kind()
unfoldable pub kind : Message → Bytes
kind (auth _) = bytes "auth"
kind auth_ok = bytes "authok"
kind (register _) = bytes "register"
kind (registered _) = bytes "registered"
kind (error _) = bytes "error"
kind (claim _) = bytes "claim"
kind (unclaim _) = bytes "unclaim"
kind Protocol.ok = bytes "ok"
kind list_tunnels = bytes "list"
kind (tunnel_list _) = bytes "tunnellist"

abbrev pub strings : List Bytes → Items
strings [] = nil
strings (s ∷ ss) = cons (str s) (strings ss)

-- A field with `omitempty`: the fields that follow, with this one before them unless it is empty.
abbrev pub optional : Bool → Bytes → Json → Fields → Fields
optional true k v fs = fs
optional false k v fs = field k v fs

unfoldable pub register_json : Register → Json
register_json r =
    let allow =
      optional (is_empty r.allow_ips) (bytes "allowIPs") (arr (strings r.allow_ips)) end in
    let password = optional (r.password == []) (bytes "password") (str r.password) allow in
    let private = field (bytes "private") (bool r.private) password in
    let remote =
      optional (r.remote_port == pos 0) (bytes "remotePort") (num r.remote_port) private in
    let local = field (bytes "localPort") (num r.local_port) remote in
    let domain = optional (r.domain == []) (bytes "domain") (str r.domain) local in
    obj (field (bytes "type") (str r.type) domain)

unfoldable pub registered_json : Registered → Json
registered_json r =
    let generated =
      optional (r.generated_password == []) (bytes "generatedPassword") (str r.generated_password)
        end in
    obj (
      field (bytes "publicURL") (str r.public_url)
        (field (bytes "host") (str r.host) (field (bytes "port") (num r.port) generated)))

unfoldable pub tunnel_info_json : TunnelInfo → Json
tunnel_info_json t = obj (
    field (bytes "type") (str t.type) (
      field (bytes "subdomain") (str t.subdomain) (
        field (bytes "publicURL") (str t.public_url)
          (field (bytes "port") (num t.port) (field (bytes "localPort") (num t.local_port) end)))))

unfoldable pub tunnel_infos : List TunnelInfo → Items
unfolding tunnel_info_json
tunnel_infos [] = nil
tunnel_infos (t ∷ ts) = cons (tunnel_info_json t) (tunnel_infos ts)

-- json.Marshal of a message. The server never sends a nil list of tunnels, which would be null.
unfoldable pub payload_json : Message → Json
unfolding register_json registered_json tunnel_infos
payload_json (auth a) = obj (field (bytes "token") (str a.token) end)
payload_json auth_ok = obj end
payload_json (register r) = register_json r
payload_json (registered r) = registered_json r
payload_json (error m) = obj (field (bytes "message") (str m) end)
payload_json (claim n) = obj (field (bytes "name") (str n) end)
payload_json (unclaim n) = obj (field (bytes "name") (str n) end)
payload_json Protocol.ok = obj end
payload_json list_tunnels = obj end
payload_json (tunnel_list ts) = obj (field (bytes "tunnels") (arr (tunnel_infos ts)) end)

-- json.Marshal of the envelope, which holds the payload as it stands.
unfoldable pub envelope_json : Message → Json
unfolding kind payload_json
envelope_json m =
    obj (field (bytes "kind") (str (kind m)) (field (bytes "payload") (payload_json m) end))

unfoldable pub header_json : StreamHeader → Json
header_json h =
    obj (
      field (bytes "tunnelId") (str h.tunnel_id) (field (bytes "localPort") (num h.local_port) end))

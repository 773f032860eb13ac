-- ===== src/Protocol/Decode/Structs.antt =====
-- json.Unmarshal into the structs of internal/protocol/protocol.go.
use lotun.Base.{false, List, [], ◌∷◌, Option, none, some, if◌then◌else◌, nat_eq}
use lotun.Base.Int.{pos, int_eq}
use lotun.Base.Bytes.{Bytes, bytes, bytes_eq}
use lotun.Json.{Json, Items, null, arr, nil, cons}
use lotun.Protocol.{Register, Registered, TunnelInfo, StreamHeader}
use lotun.Protocol.Decode.{
  is_key, into_string, into_int, into_bool, into_strings, into_struct, fold_key, store,
}

unfoldable pub set_register : Bytes → Json → Register → Option Register
unfolding into_string into_int into_bool into_strings fold_key
set_register k v r =
    if is_key (bytes "type") k
    then store (into_string v r.type) (λ x. record r { type = x })
    else (if is_key (bytes "domain") k
        then store (into_string v r.domain) (λ x. record r { domain = x })
        else (if is_key (bytes "localPort") k
            then store (into_int v r.local_port) (λ x. record r { local_port = x })
            else (if is_key (bytes "remotePort") k
                then store (into_int v r.remote_port) (λ x. record r { remote_port = x })
                else (if is_key (bytes "private") k
                    then store (into_bool v r.private) (λ x. record r { private = x })
                    else (if is_key (bytes "password") k
                        then store (into_string v r.password) (λ x. record r { password = x })
                        else (if is_key (bytes "allowIPs") k
                            then store (into_strings v r.allow_ips)
                                (λ x. record r { allow_ips = x })
                            else some r))))))

unfoldable pub set_registered : Bytes → Json → Registered → Option Registered
unfolding into_string into_int fold_key
set_registered k v r =
    if is_key (bytes "publicURL") k
    then store (into_string v r.public_url) (λ x. record r { public_url = x })
    else (if is_key (bytes "host") k
        then store (into_string v r.host) (λ x. record r { host = x })
        else (if is_key (bytes "port") k
            then store (into_int v r.port) (λ x. record r { port = x })
            else (if is_key (bytes "generatedPassword") k
                then store (into_string v r.generated_password)
                    (λ x. record r { generated_password = x })
                else some r)))

unfoldable pub set_tunnel_info : Bytes → Json → TunnelInfo → Option TunnelInfo
unfolding into_string into_int fold_key
set_tunnel_info k v t =
    if is_key (bytes "type") k
    then store (into_string v t.type) (λ x. record t { type = x })
    else (if is_key (bytes "subdomain") k
        then store (into_string v t.subdomain) (λ x. record t { subdomain = x })
        else (if is_key (bytes "publicURL") k
            then store (into_string v t.public_url) (λ x. record t { public_url = x })
            else (if is_key (bytes "port") k
                then store (into_int v t.port) (λ x. record t { port = x })
                else (if is_key (bytes "localPort") k
                    then store (into_int v t.local_port) (λ x. record t { local_port = x })
                    else some t))))

unfoldable pub set_header : Bytes → Json → StreamHeader → Option StreamHeader
unfolding into_string into_int fold_key
set_header k v h =
    if is_key (bytes "tunnelId") k
    then store (into_string v h.tunnel_id) (λ x. record h { tunnel_id = x })
    else (if is_key (bytes "localPort") k
        then store (into_int v h.local_port) (λ x. record h { local_port = x })
        else some h)

-- The zero values that decoding starts from.
abbrev pub zero_register : Register
zero_register = record {
  type = [];
  domain = [];
  local_port = pos 0;
  remote_port = pos 0;
  private = false;
  password = [];
  allow_ips = [];
}

abbrev pub zero_registered : Registered
zero_registered = record { public_url = []; host = []; port = pos 0; generated_password = [] }

abbrev pub zero_info : TunnelInfo
zero_info = record { type = []; subdomain = []; public_url = []; port = pos 0; local_port = pos 0 }

abbrev pub zero_header : StreamHeader
zero_header = record { tunnel_id = []; local_port = pos 0 }

unfoldable pub info_items : Items → Option (List TunnelInfo)
unfolding into_struct set_tunnel_info
info_items nil = some []
info_items (cons x xs) = elim (into_struct set_tunnel_info x zero_info) [
  | none ↦ none
  | some t ↦ elim (info_items xs) [ none ↦ none | some ts ↦ some (t ∷ ts) ]
]

unfoldable pub into_infos : Json → List TunnelInfo → Option (List TunnelInfo)
unfolding info_items
into_infos (arr xs) old = info_items xs
into_infos null old = some []
into_infos _ old = none

unfoldable pub set_infos : Bytes → Json → List TunnelInfo → Option (List TunnelInfo)
unfolding into_infos fold_key
set_infos k v old = if is_key (bytes "tunnels") k then into_infos v old else some old

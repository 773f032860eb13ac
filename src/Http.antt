-- ===== src/Http.antt =====
-- internal/server/http.go, and the checks of internal/server/server.go that guard public traffic.
pub mod Hosts
pub mod Access
pub mod Tcp
pub mod DrawnNames
use lotun.Base.{
  ℕ, zero, suc, ◌+◌, ◌-◌, Bool, true, false, not, ◌&&◌, ◌||◌, List, [], ◌∷◌, ◌++◌, Option, none,
  some, if◌then◌else◌, ◌==◌, leb, eqb, is_empty, length, take, drop, elem, nat_eq,
}
use lotun.Base.Int.{ℤ}
use lotun.Base.Bytes.{Bytes, bytes, bytes_eq}
use lotun.Dict.{Dict, lookup, insert}
use lotun.Protocol.{StreamHeader}
use lotun.Registry.{Registry, Tunnel, lookup_http}

-- The position of the first byte `c`, and of the last.
unfoldable pub index_byte : ℕ → Bytes → Option ℕ
index_byte c [] = none
index_byte c (x ∷ xs) =
    let rest = index_byte c xs in
    if x == c then some 0 else elim rest [ none ↦ none | some i ↦ some (suc i) ]

unfoldable pub last_index_byte : ℕ → Bytes → Option ℕ
last_index_byte c [] = none
last_index_byte c (x ∷ xs) = elim (last_index_byte c xs) [
  | some i ↦ some (suc i)
  | none ↦ if x == c then some 0 else none
]

-- The end of net.SplitHostPort, with `i` the last colon, and `j` and `k` where brackets may not stand.
unfoldable pub split_at : Bytes → Bytes → ℕ → ℕ → ℕ → Option (Bytes × Bytes)
split_at hostport host i j k =
    if elem b'[' (drop j hostport) || elem b']' (drop k hostport)
    then none
    else some (host, drop (suc i) hostport)

-- net.SplitHostPort; `none` is an error.
unfoldable pub split_host_port : Bytes → Option (Bytes × Bytes)
unfolding split_at
split_host_port hostport = elim (last_index_byte b':' hostport) [
  | none ↦ none
  | some i ↦
      if elem b'[' (take 1 hostport)
      then elim (index_byte b']' hostport) [
        | none ↦ none
        | some end ↦
            if suc end == i
            then split_at hostport (drop 1 (take end hostport)) i 1 (suc end)
            else none
      ]
      else (if elem b':' (take i hostport) then none else split_at hostport (take i hostport) i 0 0)
]

-- if h, _, err := net.SplitHostPort(host); err == nil { host = h }
unfoldable pub strip_port : Bytes → Bytes
strip_port host = elim (split_host_port host) [ none ↦ host | some (h, p) ↦ h ]

unfoldable pub has_suffix : Bytes → Bytes → Bool
has_suffix s suffix =
    leb (length suffix) (length s) && (drop (length s - length suffix) s == suffix)

unfoldable pub trim_suffix : Bytes → Bytes → Bytes
trim_suffix s suffix = if has_suffix s suffix then take (length s - length suffix) s else s

unfoldable pub subdomain_from_host : Bytes → Bytes → Option Bytes
subdomain_from_host host base =
    let h = strip_port host in
    let suffix = b'.' ∷ base in
    if not (has_suffix h suffix)
    then none
    else (if trim_suffix h suffix == [] then none else some (trim_suffix h suffix))

-- The part of a request that the proxy looks at; `credentials` is what r.BasicAuth() finds.
pub record Request : Type 0 where
  pub host : Bytes
  pub credentials : Option (Bytes × Bytes)

-- subtle.ConstantTimeCompare is 1 exactly for equal contents.
unfoldable pub basic_auth_ok : Request → Bytes → Bool
basic_auth_ok r password = elim r.credentials [
  | none ↦ false
  | some (user, pass) ↦ (user == bytes "lotun") && (pass == password)
]

unfoldable pub ip_allowed : Bytes → List Bytes → Bool
ip_allowed remote_addr allow = if is_empty allow then true else elem (strip_port remote_addr) allow

pub data Response : Type 0 where
  not_found unauthorized : Response
  proxied : Tunnel → Response

-- The cache of reverse proxies: under each tunnel ID, the tunnel that the proxy dials.
abbrev pub Proxies : Type 0
Proxies = Dict Bytes Tunnel

unfoldable pub proxy_for : Proxies → Tunnel → Tunnel × Proxies
proxy_for proxies tn = elim (lookup tn.id proxies) [
  | some cached ↦ (cached, proxies)
  | none ↦ (tn, insert tn.id tn proxies)
]

unfoldable pub serve_http : Registry → Bytes → Proxies → Request → Response × Proxies
serve_http registry base proxies r = elim (subdomain_from_host r.host base) [
  | none ↦ (not_found, proxies)
  | some sub ↦ elim (lookup_http registry sub) [
    | none ↦ (not_found, proxies)
    | some tn ↦
        if tn.private && not (basic_auth_ok r tn.password)
        then (unauthorized, proxies)
        else (let (target, proxies') = proxy_for proxies tn in (proxied target, proxies'))
  ]
]

-- The header that openDataStream writes on a new stream of the tunnel's session.
unfoldable pub stream_header : Tunnel → StreamHeader
stream_header tn = record { tunnel_id = tn.id; local_port = tn.local_port }

-- The test of acceptTCP on the address of a new connection.
unfoldable pub accepts_tcp : Tunnel → Bytes → Bool
accepts_tcp tn remote_addr = not (tn.private && not (ip_allowed remote_addr tn.allow_ips))

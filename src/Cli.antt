-- ===== src/Cli.antt =====
-- cmd/lotun/commands.go: the checks that the commands make before they connect, the requests that
-- they send, and the pauses of `lotun serve`.
pub mod Checks
pub mod Registering
pub mod Commands
pub mod Login
pub mod Remote
pub mod Table
pub mod Pauses
use lotun.Base.{
  ℕ, ◌+◌, ◌*◌, Bool, true, false, not, ◌&&◌, ◌||◌, List, [], ◌∷◌, ◌++◌, Option, none, some, map,
  if◌then◌else◌, ◌==◌, leb, ltb, is_empty,
}
use lotun.Base.Int.{ℤ, pos, ltb_ℤ}
use lotun.Base.Bytes.{Bytes, bytes, bytes_eq}
use lotun.Base.Decimal.{itoa, atoi}
use lotun.Protocol.{Message, TunnelType, Registered, http, tcp}
use lotun.Client.{TunnelRequest}

-- The errors of the checks, of config.LoadClient, of the system and of the client: a text that the
-- server sent is `said`, and `canceled` is context.Canceled. `at_tunnel` is `tunnels[%d]: %w`.
pub data Fault : Type 0 where
  port_not_a_number : Bytes → Fault
  port_out_of_range : ℤ → Fault
  password_for_tcp private_without_ips : Fault
  invalid_type : Bytes → Fault
  no_tunnels not_configured login_incomplete insecure_without_tls : Fault
  at_tunnel : ℕ → Fault → Fault
  unreadable_config connection_broken canceled : Fault
  system said : Bytes → Fault
  unexpected_reply : Message → Fault

pub data Checked {ℓ} (A : Type ℓ) : Type ℓ where
  accepted : A → Checked A
  rejected : Fault → Checked A

-- config.TunnelConfig and config.ClientConfig
pub record TunnelConfig : Type 0 where
  pub type : Bytes
  pub domain : Bytes
  pub port : ℤ
  pub remote_port : ℤ
  pub private : Bool
  pub password : Bytes
  pub allow_ips : List Bytes

pub record ClientConfig : Type 0 where
  pub control_addr : Bytes
  pub token : Bytes
  pub default_domain : Bytes
  pub tls : Bool
  pub tls_insecure : Bool
  pub tunnels : List TunnelConfig

abbrev pub out_of_range : ℤ → Bool
out_of_range p = ltb_ℤ p (pos 1) || ltb_ℤ (pos 65535) p

-- parsePort(s)
unfoldable pub parse_port : Bytes → Checked ℤ
parse_port s = elim (atoi s) [
  | none ↦ rejected (port_not_a_number s)
  | some p ↦ if out_of_range p then rejected (port_out_of_range p) else accepted p
]

-- validateTCPFlags(private, allowIPs, password): `none` is nil.
unfoldable pub validate_tcp_flags : Bool → List Bytes → Bytes → Option Fault
validate_tcp_flags private allow_ips password =
    if not (password == [])
    then some password_for_tcp
    else (if private && is_empty allow_ips then some private_without_ips else none)

-- loadConnectedConfig, behind config.LoadClient.
unfoldable pub connected_config : ClientConfig → Checked ClientConfig
connected_config c =
    if (c.control_addr == []) || (c.token == []) then rejected not_configured else accepted c

-- strings.ToLower on ASCII. No other code point has h, t, p or c as its lower case.
unfoldable pub to_lower : Bytes → Bytes
to_lower = map (λ c. if leb b'A' c && leb c b'Z' then c + 32 else c)

-- parseTunnelType(s)
unfoldable pub parse_tunnel_type : Bytes → Checked TunnelType
unfolding to_lower
parse_tunnel_type s =
    if to_lower s == http
    then accepted http
    else (if to_lower s == tcp then accepted tcp else rejected (invalid_type s))

abbrev pub request_of : TunnelType → TunnelConfig → TunnelRequest
request_of type t = record {
  type = type;
  domain = t.domain;
  local_port = t.port;
  remote_port = t.remote_port;
  private = t.private;
  password = t.password;
  allow_ips = t.allow_ips;
}

-- The body of the loop of tunnelRequests, without the index.
unfoldable pub tunnel_request : TunnelConfig → Checked TunnelRequest
unfolding parse_tunnel_type validate_tcp_flags
tunnel_request t = elim (parse_tunnel_type t.type) [
  | rejected e ↦ rejected e
  | accepted type ↦
      if out_of_range t.port
      then rejected (port_out_of_range t.port)
      else elim (if type == tcp
          then validate_tcp_flags t.private t.allow_ips t.password
          else none) [ some e ↦ rejected e | none ↦ accepted (request_of type t) ]
]

-- The loop, from index `i` on.
unfoldable pub tunnel_requests_from : ℕ → List TunnelConfig → Checked (List TunnelRequest)
unfolding tunnel_request
tunnel_requests_from i [] = accepted []
tunnel_requests_from i (t ∷ ts) = elim (tunnel_request t) [
  | rejected e ↦ rejected (at_tunnel i e)
  | accepted req ↦ elim (tunnel_requests_from (i + 1) ts) [
    | rejected e ↦ rejected e
    | accepted reqs ↦ accepted (req ∷ reqs)
  ]
]

-- tunnelRequests(tunnels)
unfoldable pub tunnel_requests : List TunnelConfig → Checked (List TunnelRequest)
unfolding tunnel_requests_from
tunnel_requests ts = if is_empty ts then rejected no_tunnels else tunnel_requests_from 0 ts

-- The flags of `lotun login`; `none` is a flag that was not passed.
pub record LoginFlags : Type 0 where
  pub server : Bytes
  pub token : Bytes
  pub default_domain : Option Bytes
  pub tls : Option Bool
  pub tls_insecure : Option Bool

abbrev pub flag {ℓ} : {A : Type ℓ} → Option A → A → A
flag none old = old
flag (some a) old = a

-- The checks of `lotun login` before it loads the configuration.
unfoldable pub login_check : LoginFlags → Option Fault
login_check f =
    if (f.server == []) || (f.token == [])
    then some login_incomplete
    else (if flag f.tls_insecure false && not (flag f.tls false)
        then some insecure_without_tls
        else none)

-- What `lotun login` makes of the configuration that it has loaded.
unfoldable pub logged_in : LoginFlags → ClientConfig → ClientConfig
logged_in f c = record c {
  control_addr = f.server;
  token = f.token;
  default_domain = flag f.default_domain c.default_domain;
  tls = flag f.tls c.tls;
  tls_insecure = flag f.tls_insecure c.tls_insecure;
}

-- printRegistered
unfoldable pub print_registered : TunnelRequest → Registered → Bytes
print_registered req reg =
    let target = bytes " -> localhost:" ++ (itoa req.local_port ++ bytes "\n") in
    let line =
      if req.type == http
      then bytes "Tunnel ready: " ++ (reg.public_url ++ target)
      else bytes "Tunnel ready: " ++ (reg.host ++ (bytes ":" ++ (itoa reg.port ++ target))) in
    if reg.generated_password == []
    then line
    else line ++ (bytes "Generated password: " ++ (reg.generated_password ++ bytes "\n"))

-- Nanoseconds, as time.Duration counts them.
abbrev pub min_backoff : ℕ
min_backoff = 1000000000

abbrev pub max_backoff : ℕ
max_backoff = 30000000000

-- One round of serveWithRetry: how long serveOnce lasted, whether the context was cancelled by
-- then, and whether it is cancelled during the pause.
pub record Attempt : Type 0 where
  pub lasted : ℕ
  pub cancelled : Bool
  pub cancelled_in_pause : Bool

unfoldable pub next_backoff : ℕ → ℕ
next_backoff b =
    if ltb b max_backoff then (if ltb max_backoff (b * 2) then max_backoff else b * 2) else b

-- The pauses that serveWithRetry announces, from a backoff on.
unfoldable pub pauses_from : ℕ → List Attempt → List ℕ
unfolding next_backoff
pauses_from backoff [] = []
pauses_from backoff (a ∷ later) =
    let b = if ltb max_backoff a.lasted then min_backoff else backoff in
    let rest = pauses_from (next_backoff b) later in
    if a.cancelled then [] else (if a.cancelled_in_pause then b ∷ [] else b ∷ rest)

unfoldable pub serve_with_retry : List Attempt → List ℕ
unfolding pauses_from
serve_with_retry attempts = pauses_from min_backoff attempts

-- ===== src/Server.antt =====
-- internal/server/server.go and tcp.go: the control connection and the listeners of tcp tunnels.
pub mod Control
pub mod Undo
pub mod Grants
pub mod Requests
pub mod Routing
pub mod Sessions
pub mod Connections
pub mod Peer
use lotun.Base.{
  ℕ, ◌+◌, ◌%◌, Bool, true, false, not, ◌&&◌, List, [], ◌∷◌, ◌++◌, Option, none, some, map,
  if◌then◌else◌, ◌==◌, get_or,
}
use lotun.Base.Int.{ℤ, pos, int_eq}
use lotun.Base.Bytes.{Bytes, bytes, bytes_eq}
use lotun.Base.Decimal.{itoa}
use lotun.Dict.{Dict, lookup, insert, delete}
use lotun.Json.{JsonText}
use lotun.Names.{Rand}
use lotun.Protocol.{
  Message, Register, TunnelInfo, http, tcp, auth, auth_ok, register, registered, error, claim,
  unclaim, ok, list_tunnels, tunnel_list,
}
use lotun.Store.{FileStore, Disk, Faults, Outcome, StoreError, done, failed, panics, is_claimed}
use lotun.Store
use lotun.Registry.{Registry, Tunnel, Error}
use lotun.Registry

-- The state behind a Server. `listeners` is tcpListeners.
pub record Server : Type 0 where
  pub token : Bytes
  pub base_domain : Bytes
  pub store : FileStore
  pub disk : Disk
  pub registry : Registry
  pub listeners : Dict ℤ ℕ
  pub rng : Rand

-- What one request draws from its surroundings: eight bytes for a tunnel ID, sixteen for a
-- password, the answers of the file system, and the listener that net.Listen makes or its error.
pub record Draws : Type 0 where
  pub id_seed : List ℕ
  pub password_seed : List ℕ
  pub faults : Faults
  pub listen_error : Option Bytes
  pub listener : ℕ

-- New(cfg, claims)
unfoldable pub new_server : Bytes → Bytes → ℤ → ℤ → FileStore → Disk → Rand → Option Server
new_server token base lo hi store disk rng =
    if token == []
    then none
    else (if base == []
        then none
        else some (record {
          token = token;
          base_domain = base;
          store = store;
          disk = disk;
          registry = Registry.new_registry lo hi;
          listeners = [];
          rng = rng;
        }))

abbrev pub password_alphabet : Bytes
password_alphabet = bytes "0123456789ABCDEFGHIJKLMNOPQRSTUVWXYZabcdefghijklmnopqrstuvwxyz"

-- generatePassword(), from the sixteen bytes that crypto/rand yields.
unfoldable pub generate_password : List ℕ → Bytes
generate_password = map (λ v. get_or password_alphabet (v % 62) 0)

-- The texts of the registry's errors.
unfoldable pub error_text : Error → Bytes
error_text Registry.not_claimed = bytes "registry: subdomain not claimed"
error_text Registry.subdomain_in_use = bytes "registry: subdomain already has an http tunnel"
error_text Registry.port_in_use = bytes "registry: tcp port already in use"
error_text Registry.port_out_of_range = bytes "registry: requested port outside allowed range"
error_text Registry.ports_exhausted = bytes "registry: no free tcp ports in range"
error_text Registry.allow_ips_required =
    bytes "registry: private tcp tunnel requires at least one --allow-ip"

unfoldable pub store_error_text : StoreError → Bytes
store_error_text Store.already_claimed = bytes "store: subdomain already claimed"
store_error_text (Store.system e) = e

-- fmt.Sprintf("%s.%s", tn.Subdomain, s.cfg.BaseDomain)
unfoldable pub host_of : Server → Tunnel → Bytes
host_of s tn = tn.subdomain ++ (b'.' ∷ s.base_domain)

-- fmt.Sprintf("tcp://%s:%d", host, tn.Port)
unfoldable pub tcp_url : Server → Tunnel → Bytes
unfolding host_of
tcp_url s tn = bytes "tcp://" ++ (host_of s tn ++ (b':' ∷ itoa tn.port))

unfoldable pub http_url : Server → Tunnel → Bytes
unfolding host_of
http_url s tn = bytes "https://" ++ host_of s tn

-- startTCPTunnel(tn): `none` is nil.
unfoldable pub start_tcp_tunnel : Server → Tunnel → Draws → Server × Option Bytes
start_tcp_tunnel s tn w = elim w.listen_error [
  | some e ↦ (s, some e)
  | none ↦ (record s { listeners = insert tn.port w.listener s.listeners }, none)
]

unfoldable pub remove_tunnel : Server → Tunnel → Server
remove_tunnel s tn = record s { registry = Registry.remove s.registry tn.id }

-- The switch on tn.Type of handleRegister.
unfoldable pub serve_tunnel : Server → Tunnel → Bytes → Draws → Server × Message
unfolding start_tcp_tunnel remove_tunnel
serve_tunnel s tn generated w =
    if tn.type == http
    then (
      s,
      registered (record {
        public_url = http_url s tn;
        host = host_of s tn;
        port = pos 443;
        generated_password = generated;
      }),
    )
    else (if tn.type == tcp
        then (let (s', failure) = start_tcp_tunnel s tn w in
            elim failure [
              | some e ↦ (remove_tunnel s' tn, error e)
              | none ↦ (
                s',
                registered (record {
                  public_url = tcp_url s tn;
                  host = host_of s tn;
                  port = tn.port;
                  generated_password = [];
                }),
              )
            ])
        else (remove_tunnel s tn, error (bytes "unknown tunnel type")))

-- Whether handleRegister invents a password.
unfoldable pub wants_password : Register → Bool
wants_password req = (req.type == http) && (req.private && (req.password == []))

-- The locals `password` and `generated` of handleRegister.
unfoldable pub chosen_password : Register → Draws → Bytes
unfolding wants_password
chosen_password req w =
    if wants_password req then generate_password w.password_seed else req.password

unfoldable pub generated_password : Register → Draws → Bytes
unfolding wants_password
generated_password req w = if wants_password req then generate_password w.password_seed else []

unfoldable pub handle_register : Server → Register → ℕ → Draws → Server × Message
handle_register s req sess w =
    let (registry', answer, rng') =
      Registry.register (is_claimed s.store) s.registry req sess (chosen_password req w) w.id_seed
        s.rng in
    let s' : Server = record s { registry = registry'; rng = rng' } in
    elim answer [
      | Registry.err e ↦ (s', error (error_text e))
      | Registry.ok tn ↦ serve_tunnel s' tn (generated_password req w) w
    ]

-- The reply to a call of the store; `none` where it panics.
unfoldable pub store_reply : Outcome → Option Message
store_reply done = some ok
store_reply (failed e) = some (error (store_error_text e))
store_reply panics = none

module _ (json : JsonText) where
  unfoldable pub handle_claim : Server → Bytes → Draws → Server × Option Message
  handle_claim s name w =
      let (outcome, store', disk') = Store.claim json name w.faults (s.store, s.disk) in
      (record s { store = store'; disk = disk' }, store_reply outcome)

  unfoldable pub handle_unclaim : Server → Bytes → Draws → Server × Option Message
  handle_unclaim s name w =
      let (outcome, store', disk') = Store.release json name w.faults (s.store, s.disk) in
      (record s { store = store'; disk = disk' }, store_reply outcome)

unfoldable pub tunnel_info : Server → Tunnel → TunnelInfo
tunnel_info s tn = record {
  type = tn.type;
  subdomain = tn.subdomain;
  public_url = if tn.type == http then http_url s tn else tcp_url s tn;
  port = tn.port;
  local_port = tn.local_port;
}

unfoldable pub handle_list : Server → Message
handle_list s = tunnel_list (map (tunnel_info s) (Registry.list s.registry))

-- closeTCP(port) for each port in turn. Closing a listener frees it in the operating system.
unfoldable pub close_tcp : Server → ℤ → Server
close_tcp s port = record s { listeners = delete port s.listeners }

unfoldable pub close_ports : Server → List ℤ → Server
unfolding close_tcp
close_ports s [] = s
close_ports s (p ∷ ps) = close_ports (close_tcp s p) ps

-- closeAllTCP()
unfoldable pub close_all_tcp : Server → Server
close_all_tcp s = record s { listeners = [] }

-- The deferred clean-up of handleControlConn.
unfoldable pub end_session : Server → ℕ → Server
end_session s sess =
    let (registry', ports) = Registry.remove_session s.registry sess in
    close_ports (record s { registry = registry' }) ports

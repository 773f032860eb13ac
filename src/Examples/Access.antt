-- ===== src/Examples/Access.antt =====
-- The theorems about internal/server/http.go and tcp.go on a table of two tunnels.
use lotun.Base.{◌≡◌, ◌≢◌, ◌↔◌, refl, true, [], ◌∷◌, some, arith, ◌++◌}
use lotun.Base.Int.{pos, int_eq}
use lotun.Base.Bytes.{bytes, bytes_eq, eqb_bytes}
use lotun.Dict.{lookup, insert}
use lotun.Dict.Laws.{insert-Entries}
use lotun.Registry.Valid.{IsValid, add_tcp-IsValid, new_registry-IsValid}
use lotun.Registry.{Registry, Tunnel, lookup_tcp, new_registry}
use lotun.Http.{Request, Proxies, subdomain_from_host, strip_port, serve_http}
use lotun.Http.Hosts.{subdomain_from_host_iff}
use lotun.Http.Access.{Answers, serve_http-Answers, HasOwnIds}
use lotun.Names.{generate_from}
use lotun.Http.DrawnNames.{IsName, subdomain_from_drawn_host}
use lotun.Examples.Data.{routed, rng}

abbrev visit : Request
visit = record { host = bytes "web.lvh.me:443"; credentials = some (bytes "lotun", bytes "secret") }

abbrev web : Tunnel
web = record {
  id = bytes "0102030405060708";
  type = bytes "http";
  subdomain = bytes "web";
  port = pos 0;
  local_port = pos 8080;
  private = true;
  password = bytes "secret";
  allow_ips = [];
  session = 1;
}

subdomain_from_host_iff_example :
    (subdomain_from_host (bytes "web.lvh.me:443") (bytes "lvh.me") ≡ some (bytes "web"))
    ↔ ((strip_port (bytes "web.lvh.me:443") ≡ bytes "web.lvh.me") × (bytes "web" ≢ []))
subdomain_from_host_iff_example =
    subdomain_from_host_iff (bytes "web.lvh.me:443") (bytes "lvh.me") (bytes "web")

web-ne-nil : bytes "web" ≢ []
web-ne-nil h = cc

serve_http-Answers_example :
    Answers routed (bytes "lvh.me") [] visit (serve_http routed (bytes "lvh.me") [] visit).0
serve_http-Answers_example = serve_http-Answers routed (bytes "lvh.me") [] visit

abbrev one_proxy : Proxies
one_proxy = insert web.id web []

one_proxy-HasOwnIds : HasOwnIds one_proxy
unfolding lookup
one_proxy-HasOwnIds = insert-Entries (λ id tn. tn.id ≡ id) web.id web [] refl (λ id tn e. cc)

abbrev pub ssh : Tunnel
ssh = record {
  id = bytes "090102030405060708";
  type = bytes "tcp";
  subdomain = bytes "cosmic-bison";
  port = pos 20001;
  local_port = pos 20001;
  private = true;
  password = [];
  allow_ips = bytes "10.0.0.7" ∷ [];
  session = 2;
}

abbrev pub one_port : Registry
one_port = record (new_registry (pos 20000) (pos 20002)) { tcp_by_port = insert (pos 20001) ssh [] }

pub one_port-IsValid : IsValid one_port
unfolding new_registry eqb_bytes
one_port-IsValid =
    add_tcp-IsValid (new_registry (pos 20000) (pos 20002)) (pos 20001) ssh
      (new_registry-IsValid _ _) (refl, refl, (omega arith, omega arith), refl)

pub one_port-ssh : lookup_tcp one_port (pos 20001) ≡ some ssh
unfolding lookup_tcp lookup insert
one_port-ssh = refl

subdomain_from_drawn_host_example :
    let name = (generate_from rng).0 in
    IsName name
    × (subdomain_from_host (name ++ bytes ".lvh.me") (bytes "lvh.me") ≡ some name)
    × (subdomain_from_host ((name ++ bytes ".lvh.me") ++ bytes ":443") (bytes "lvh.me") ≡ some name)
subdomain_from_drawn_host_example =
    subdomain_from_drawn_host rng (bytes "lvh.me") (bytes "443") (refl, refl, refl)
      (refl, refl, refl)

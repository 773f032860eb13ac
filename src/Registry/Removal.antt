-- ===== src/Registry/Removal.antt =====
-- Remove, RemoveSession and List of internal/server/registry.go.
use lotun.Base.{ℕ, ◌≡◌, ◌↔◌, ◌==◌, nat_eq, All, elem}
use lotun.Base.Int.{ℤ, int_eq}
use lotun.Base.Bytes.{Bytes, bytes_eq}
use lotun.Dict.{Entries, values}
use lotun.Dict.Laws.{lookup-remove_if, elem-keys_if, unless, is_some_and, All-values, All-append}
use lotun.Registry.{Registry, Tunnel, lookup_http, lookup_tcp, remove, remove_session, list}
use lotun.Registry.Valid.{IsValid}

-- Remove on a valid table: each lookup answers as before except that the tunnels with the ID are
-- gone.
pub remove_lem :
    (r : Registry) (id : Bytes) (s : Bytes) (p : ℤ)
    → IsValid r
    → (lookup_http (remove r id) s ≡ unless (λ tn. tn.id == id) (lookup_http r s))
      × (lookup_tcp (remove r id) p ≡ unless (λ tn. tn.id == id) (lookup_tcp r p))
unfolding remove lookup_http lookup_tcp
remove_lem r id s p v = (
  lookup-remove_if _ s r.http_by_sub v.http_unique,
  lookup-remove_if _ p r.tcp_by_port v.tcp_unique,
)

-- RemoveSession on a valid table: each lookup answers as before except that the session's tunnels
-- are gone, and the ports it returns are exactly those at which the session had a tcp tunnel.
pub remove_session_lem :
    (r : Registry) (sess : ℕ) (s : Bytes) (p : ℤ)
    → IsValid r
    → let (r', freed) = remove_session r sess in
      (lookup_http r' s ≡ unless (λ tn. tn.session == sess) (lookup_http r s))
      × (lookup_tcp r' p ≡ unless (λ tn. tn.session == sess) (lookup_tcp r p))
      × (elem p freed ≡ is_some_and (λ tn. tn.session == sess) (lookup_tcp r p))
unfolding remove_session lookup_http lookup_tcp
remove_session_lem r sess s p v = (
  lookup-remove_if _ s r.http_by_sub v.http_unique,
  lookup-remove_if _ p r.tcp_by_port v.tcp_unique,
  elem-keys_if _ p r.tcp_by_port v.tcp_unique,
)

-- List on a valid table returns the routed tunnels: a predicate holds of all of it exactly if it
-- holds of every answer of the two lookups.
pub list_lem :
    (r : Registry) (P : Tunnel → Type 0)
    → IsValid r
    → All P (list r) ↔ (Entries (λ _ tn. P tn) r.http_by_sub × Entries (λ _ tn. P tn) r.tcp_by_port)
unfolding list
list_lem r P v =
    let hs = All-values P r.http_by_sub v.http_unique in
    let ts = All-values P r.tcp_by_port v.tcp_unique in
    let app = All-append P (values r.http_by_sub) (values r.tcp_by_port) in
    (λ all. (hs.0 (app.1 all).0, ts.0 (app.1 all).1), λ both. app.0 (hs.1 both.0, ts.1 both.1))

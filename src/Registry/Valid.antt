-- ===== src/Registry/Valid.antt =====
-- The invariant of the Registry of internal/server/registry.go.
use lotun.Base.{
  ℕ, Bool, false, ◌≡◌, refl, ◌∙◌, inl, inr, List, Bool-cases, ◌==◌, nat_eq, ◌&&◌, is_empty,
}
use lotun.Base.Int.{ℤ, pos, int_eq}
use lotun.Base.Bytes.{Bytes, bytes_eq, eqb_bytes_iff}
use lotun.Dict.{lookup, insert, remove_if, IsUnique, Entries}
use lotun.Dict.Laws.{insert-Entries, remove_if-Entries, insert-IsUnique, remove_if-IsUnique}
use lotun.Names.{Rand}
use lotun.Protocol.{Register, http, tcp}
use lotun.Registry.{
  Registry, Tunnel, Result-cases, new_registry, lookup_http, lookup_tcp, place, requested,
  resolve_sub, register, remove, remove_session, alloc_port, sub_taken,
}
use lotun.Registry.Ports.{InRange, alloc_port-Allocated}

-- What an entry of either table says of its tunnel.
abbrev pub IsHttpEntry : Bytes → Tunnel → Type 0
IsHttpEntry s tn = (tn.type ≡ http) × (tn.subdomain ≡ s) × (tn.port ≡ pos 0)

abbrev pub IsTcpEntry : Registry → ℤ → Tunnel → Type 0
IsTcpEntry r p tn =
    (tn.type ≡ tcp) × (tn.port ≡ p) × InRange r p × ((tn.private && is_empty tn.allow_ips) ≡ false)

pub record IsValid (r : Registry) : Type 0 where
  pub http_unique : IsUnique r.http_by_sub
  pub tcp_unique : IsUnique r.tcp_by_port
  pub http_entries : Entries IsHttpEntry r.http_by_sub
  pub tcp_entries : Entries (IsTcpEntry r) r.tcp_by_port

pub new_registry-IsValid : (lo hi : ℤ) → IsValid (new_registry lo hi)
unfolding new_registry lookup_http lookup_tcp lookup
new_registry-IsValid lo hi = record {
  http_unique = tt;
  tcp_unique = tt;
  http_entries = λ s tn e. cc;
  tcp_entries = λ p tn e. cc;
}

add_http-IsValid :
    (r : Registry) (tn : Tunnel)
    → IsValid r
    → tn.type ≡ http
    → tn.port ≡ pos 0
    → IsValid (record r { http_by_sub = insert tn.subdomain tn r.http_by_sub })
add_http-IsValid r tn v t p = record {
  http_unique = insert-IsUnique tn.subdomain tn r.http_by_sub v.http_unique;
  tcp_unique = v.tcp_unique;
  http_entries = insert-Entries IsHttpEntry tn.subdomain tn _ (t, refl, p) v.http_entries;
  tcp_entries = v.tcp_entries;
}

pub add_tcp-IsValid :
    (r : Registry) (p : ℤ) (tn : Tunnel)
    → IsValid r
    → IsTcpEntry r p tn
    → IsValid (record r { tcp_by_port = insert p tn r.tcp_by_port })
add_tcp-IsValid r p tn v h = record {
  http_unique = v.http_unique;
  tcp_unique = insert-IsUnique p tn r.tcp_by_port v.tcp_unique;
  http_entries = v.http_entries;
  tcp_entries = insert-Entries (IsTcpEntry r) p tn _ h v.tcp_entries;
}

-- Deleting tunnels, whichever they are.
remove_if-IsValid :
    (r : Registry) (p : Tunnel → Bool)
    → IsValid r
    → IsValid (record r {
      http_by_sub = remove_if p r.http_by_sub;
      tcp_by_port = remove_if p r.tcp_by_port;
    })
remove_if-IsValid r p v = record {
  http_unique = remove_if-IsUnique p r.http_by_sub v.http_unique;
  tcp_unique = remove_if-IsUnique p r.tcp_by_port v.tcp_unique;
  http_entries = remove_if-Entries IsHttpEntry p _ v.http_unique v.http_entries;
  tcp_entries = remove_if-Entries (IsTcpEntry r) p _ v.tcp_unique v.tcp_entries;
}

pub remove-IsValid : (r : Registry) (id : Bytes) → IsValid r → IsValid (remove r id)
unfolding remove
remove-IsValid r id v = remove_if-IsValid r (λ tn. tn.id == id) v

pub remove_session-IsValid :
    (r : Registry) (sess : ℕ) → IsValid r → IsValid (remove_session r sess).0
unfolding remove_session
remove_session-IsValid r sess v = remove_if-IsValid r (λ tn. tn.session == sess) v

place-IsValid :
    (r : Registry) (req : Register) (tn : Tunnel)
    → IsValid r
    → tn.type ≡ req.type
    → tn.port ≡ pos 0
    → tn.private ≡ req.private
    → tn.allow_ips ≡ req.allow_ips
    → IsValid (place r req tn).0
unfolding place
place-IsValid r req tn v t p pr al = elim (Bool-cases (req.type == http)) [
  | inl is_http ↦ elim (Bool-cases (sub_taken r tn.subdomain)) [
    | inl taken ↦ rw (is_http, taken) v
    | inr free ↦ rw (is_http, free) (add_http-IsValid r tn v (t ∙ (eqb_bytes_iff _ _).0 is_http) p)
  ]
  | inr not_http ↦ elim (Bool-cases (req.type == tcp)) [
    | inr other ↦ rw (not_http, other) v
    | inl is_tcp ↦ elim (Bool-cases (req.private && is_empty req.allow_ips)) [
      | inl open_list ↦ rw (not_http, is_tcp, open_list) v
      | inr listed ↦ elim (Result-cases (alloc_port r req.remote_port req.local_port)) [
        | inl (e, failed) ↦ rw (not_http, is_tcp, listed, failed) v
        | inr (q, got) ↦
            rw (not_http, is_tcp, listed, got)
              (add_tcp-IsValid r q (record tn { port = q }) v
                (
                  t ∙ (eqb_bytes_iff _ _).0 is_tcp,
                  refl,
                  (rw got at (alloc_port-Allocated r req.remote_port req.local_port)).0,
                  rw (pr, al) listed,
                ))
      ]
    ]
  ]
]

pub register-IsValid :
    (claimed : Bytes → Bool) (r : Registry) (req : Register) (sess : ℕ) (password : Bytes)
    (seed : List ℕ) (rng : Rand)
    → IsValid r
    → IsValid (register claimed r req sess password seed rng).0
unfolding register
register-IsValid claimed r req sess password seed rng v =
    elim (Result-cases (resolve_sub claimed r req.domain rng).0) [
      | inl (e, failed) ↦ rw (failed, register) v
      | inr (s, got) ↦
          rw (got, register)
            (place-IsValid r req (requested req sess password seed s) v refl refl refl refl)
    ]

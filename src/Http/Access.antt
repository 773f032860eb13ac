-- ===== src/Http/Access.antt =====
-- Who reaches a tunnel: ServeHTTP of internal/server/http.go with basicAuthOK, and ipAllowed.
use lotun.Base.{
  true, false, not, ◌&&◌, ◌≡◌, ◌↔◌, refl, ◌⊎◌, inl, inr, none, some, arith, Bool-cases,
  Option-cases,
}
use lotun.Base.Bytes.{Bytes, bytes, bytes_eq, eqb_bytes_iff}
use lotun.Dict.{lookup, Entries}
use lotun.Dict.Laws.{insert-Entries}
use lotun.Registry.{Registry, Tunnel, lookup_http}
use lotun.Http.{
  Request, Response, not_found, unauthorized, proxied, Proxies, serve_http, proxy_for,
  basic_auth_ok, subdomain_from_host,
}

pub basic_auth_ok_iff :
    (r : Request) (password : Bytes)
    → (basic_auth_ok r password ≡ true) ↔ (r.credentials ≡ some (bytes "lotun", password))
unfolding basic_auth_ok
basic_auth_ok_iff r password = elim (Option-cases r.credentials) [
  | inl e ↦ rw (e, basic_auth_ok) (λ h. cc, λ h. cc)
  | inr ((user, pass), e) ↦
      rw (e, basic_auth_ok)
        (
          λ h. ground (arith, eqb_bytes_iff user (bytes "lotun"), eqb_bytes_iff pass password),
          λ h. ground (arith, eqb_bytes_iff user (bytes "lotun"), eqb_bytes_iff pass password),
        )
]

-- What a tunnel demands of a request that its subdomain leads to.
abbrev pub Admits : Tunnel → Request → Type 0
Admits tn r = (tn.private ≡ false) ⊎ (r.credentials ≡ some (bytes "lotun", tn.password))

-- The answer to a request: the proxy that it reaches is that of the tunnel which its Host names,
-- if the tunnel is public or the request has its password.
abbrev pub Answers : Registry → Bytes → Proxies → Request → Response → Type 0
Answers reg base proxies r not_found =
    (sub : Bytes) → subdomain_from_host r.host base ≡ some sub → lookup_http reg sub ≡ none
Answers reg base proxies r unauthorized =
    (sub : Bytes) × (tn : Tunnel) × (subdomain_from_host r.host base ≡ some sub)
    × (lookup_http reg sub ≡ some tn)
    × ¬ Admits tn r
Answers reg base proxies r (proxied target) =
    (sub : Bytes) × (tn : Tunnel) × (subdomain_from_host r.host base ≡ some sub)
    × (lookup_http reg sub ≡ some tn)
    × Admits tn r
    × (target ≡ (proxy_for proxies tn).0)

Admits-iff :
    (tn : Tunnel) (r : Request)
    → (((tn.private && not (basic_auth_ok r tn.password)) ≡ true) → ¬ Admits tn r)
      × (((tn.private && not (basic_auth_ok r tn.password)) ≡ false) → Admits tn r)
Admits-iff tn r =
    let auth = basic_auth_ok_iff r tn.password in
    (
      λ h. elim [ inl open_tunnel ↦ ground arith | inr c ↦ ground (arith, auth.1 c) ],
      λ h. elim (Bool-cases tn.private) [
        | inr open_tunnel ↦ inl open_tunnel
        | inl closed ↦ inr (auth.0 (ground arith))
      ],
    )

-- ServeHTTP on every branch: a request is proxied exactly to the proxy of the tunnel that its
-- Host names, and only if the tunnel is public or the request has the user lotun and the tunnel's
-- password; it is unauthorized only if the tunnel is private and the credentials are wrong, and
-- not found only if the Host leads to no tunnel.
pub serve_http-Answers :
    (reg : Registry) (base : Bytes) (proxies : Proxies) (r : Request)
    → Answers reg base proxies r (serve_http reg base proxies r).0
unfolding serve_http
serve_http-Answers reg base proxies r = elim (Option-cases (subdomain_from_host r.host base)) [
  | inl e ↦ rw (e, serve_http) (λ sub h. cc)
  | inr (sub, e) ↦ elim (Option-cases (lookup_http reg sub)) [
    | inl e' ↦ rw (e, e', serve_http) (λ sub' h. cc)
    | inr (tn, e') ↦ elim (Bool-cases (tn.private && not (basic_auth_ok r tn.password))) [
      | inl refused ↦ rw (e, e', refused, serve_http) (sub, tn, e, e', (Admits-iff tn r).0 refused)
      | inr admitted ↦
          rw (e, e', admitted, serve_http) (sub, tn, e, e', (Admits-iff tn r).1 admitted, refl)
    ]
  ]
]

-- Each proxy in the cache dials a tunnel with the ID that it is kept under.
abbrev pub HasOwnIds : Proxies → Type 0
HasOwnIds proxies = Entries (λ id tn. tn.id ≡ id) proxies

-- If every cached proxy dials a tunnel with the ID that it is kept under, then so it is after
-- proxyFor, and the proxy that it answers dials a tunnel with the ID asked for.
pub proxy_for-HasOwnIds :
    (proxies : Proxies) (tn : Tunnel)
    → HasOwnIds proxies
    → HasOwnIds (proxy_for proxies tn).1 × ((proxy_for proxies tn).0.id ≡ tn.id)
unfolding proxy_for
proxy_for-HasOwnIds proxies tn h = elim (Option-cases (lookup tn.id proxies)) [
  | inl e ↦ rw (e, proxy_for) (insert-Entries _ tn.id tn proxies refl h, refl)
  | inr (cached, e) ↦ rw (e, proxy_for) (h, h tn.id cached e)
]

-- ===== src/Server/Routing.antt =====
-- From handleRegister of internal/server/server.go to ServeHTTP of internal/server/http.go.
use lotun.Base.{
  ℕ, zero, suc, Bool, false, not, ◌&&◌, ◌≡◌, ◌≢◌, refl, sym, ap, ◌∙◌, subst, inl, inr, [], none,
  some, arith,
}
use lotun.Base.Bytes.{Bytes, bytes, bytes_eq, eqb_bytes_iff}
use lotun.Dict.{lookup}
use lotun.Names.{Rand}
use lotun.Protocol.{Register, registered, http, Registered}
use lotun.Store.{is_claimed}
use lotun.Registry.{Registry, Tunnel, lookup_http, new_id, requested, ok}
use lotun.Registry.Valid.{IsValid}
use lotun.Registry.FreeName.{nth_name, free_name-FirstFree}
use lotun.Registry.Placement.{Resolved}
use lotun.Http.{
  Request, Proxies, proxied, serve_http, proxy_for, basic_auth_ok, subdomain_from_host,
}
use lotun.Http.Hosts.{IsPlain, subdomain_from_public_host}
use lotun.Http.Access.{basic_auth_ok_iff}
use lotun.Http.DrawnNames.{append-ne-nil, generate_from-IsName}
use lotun.Server.{Server, Draws, handle_register, chosen_password, host_of}
use lotun.Server.Undo.{IsFreshId}
use lotun.Server.Grants.{Granted}
use lotun.Server.Requests.{Handled, handle_register-Handled}

nth_name-ne-nil : (i : ℕ) (rng : Rand) → nth_name i rng ≢ []
unfolding nth_name
nth_name-ne-nil zero rng h =
    let (a, b, _, _, e) = generate_from-IsName rng in append-ne-nil a b'-' b (sym e ∙ h)
nth_name-ne-nil (suc i) rng h = nth_name-ne-nil i _ h

-- A subdomain is never empty.
Resolved-ne-nil :
    (claimed : Bytes → Bool) (r : Registry) (domain sub : Bytes) (rng rng' : Rand)
    → Resolved claimed r domain rng (ok sub, rng')
    → sub ≢ []
Resolved-ne-nil claimed r domain sub rng rng' (inr (given, same, _, _)) h = given (sym same ∙ h)
Resolved-ne-nil claimed r domain sub rng rng' (inl (_, drawn)) h =
    let e = sym (ap (λ x. x.0) drawn) ∙ h in
    elim (free_name-FirstFree claimed r rng) [
      | inl (i, _, (named, _, _)) ↦ nth_name-ne-nil i rng (sym named ∙ e)
      | inr (named, _) ↦ nth_name-ne-nil _ rng (sym named ∙ e)
    ]

proxy_for-unseen :
    (proxies : Proxies) (tn : Tunnel) → lookup tn.id proxies ≡ none → (proxy_for proxies tn).0 ≡ tn
unfolding proxy_for
proxy_for-unseen proxies tn e = rw (e, proxy_for) refl

serve_http-proxied :
    (reg : Registry) (base sub : Bytes) (proxies : Proxies) (r : Request) (tn : Tunnel)
    → subdomain_from_host r.host base ≡ some sub
    → lookup_http reg sub ≡ some tn
    → r.credentials ≡ some (bytes "lotun", tn.password)
    → lookup tn.id proxies ≡ none
    → (serve_http reg base proxies r).0 ≡ proxied tn
unfolding serve_http
serve_http-proxied reg base sub proxies r tn e e' credentials unseen =
    let passes : (tn.private && not (basic_auth_ok r tn.password)) ≡ false =
      ground (arith, (basic_auth_ok_iff r tn.password).1 credentials) in
    rw (e, e', passes, serve_http) (ap proxied (proxy_for-unseen proxies tn unseen))

-- The request is that of someone who knows the reply's host and the tunnel's password.
Granted-proxied :
    (s s' : Server) (w : Draws) (tn : Tunnel) (reply : Registered) (proxies : Proxies) (r : Request)
    → Granted s w tn reply s'
    → tn.type ≡ http
    → tn.subdomain ≢ []
    → IsPlain reply.host
    → r.host ≡ reply.host
    → r.credentials ≡ some (bytes "lotun", tn.password)
    → lookup tn.id proxies ≡ none
    → (serve_http s'.registry s.base_domain proxies r).0 ≡ proxied tn
unfolding host_of
Granted-proxied s s' w tn reply proxies r g kind ne plain named login unseen =
    let found : subdomain_from_host r.host s.base_domain ≡ some tn.subdomain =
      rw (named, g.host)
        (subdomain_from_public_host tn.subdomain s.base_domain [] ne (subst IsPlain g.host plain)
          (refl, refl, refl)).0 in
    let routed : lookup_http s'.registry tn.subdomain ≡ some tn =
      rw ((eqb_bytes_iff tn.type http).1 kind, (eqb_bytes_iff tn.subdomain tn.subdomain).1 refl) at
        (g.registers.http_after tn.subdomain) in
    serve_http-proxied s'.registry s.base_domain tn.subdomain proxies r tn found routed login unseen

-- If handleRegister grants an http request at a valid table, with a fresh ID that no cached proxy
-- has, then a visitor who sends the host of the reply and the user lotun with the tunnel's
-- password is proxied to a tunnel of that session and local port, for hosts without colons and
-- brackets.
pub handle_register-proxied :
    (s : Server) (req : Register) (sess : ℕ) (w : Draws) (reply : Registered) (proxies : Proxies)
    (r : Request)
    → IsValid s.registry
    → IsFreshId s.registry (new_id w.id_seed)
    → lookup (new_id w.id_seed) proxies ≡ none
    → req.type ≡ http
    → (handle_register s req sess w).1 ≡ registered reply
    → IsPlain reply.host
    → r.host ≡ reply.host
    → r.credentials ≡ some (bytes "lotun", chosen_password req w)
    → let reg = (handle_register s req sess w).0.registry in
      (tn : Tunnel) × ((serve_http reg s.base_domain proxies r).0 ≡ proxied tn)
      × (tn.session ≡ sess)
      × (tn.local_port ≡ req.local_port)
unfolding requested
handle_register-proxied s req sess w reply proxies r valid fresh unseen is_http granted plain named
      login =
    let a = handle_register s req sess w in
    let (sub, tn, resolved, same, g, _) =
      subst (λ m. Handled s req sess w (a.0, m)) granted
        (handle_register-Handled s req sess w valid fresh) in
    let named_sub : tn.subdomain ≡ sub = ap (λ x. x.subdomain) same in
    let ne = Resolved-ne-nil (is_claimed s.store) s.registry req.domain sub s.rng _ resolved in
    (
      tn,
      Granted-proxied s a.0 w tn reply proxies r g (ap (λ x. x.type) same ∙ is_http)
          (λ h. ne (sym named_sub ∙ h)) plain named
          (login ∙ ap (λ x. some (bytes "lotun", x)) (sym (ap (λ x. x.password) same)))
          (ap (λ x. lookup x.id proxies) same ∙ unseen),
      ap (λ x. x.session) same,
      ap (λ x. x.local_port) same,
    )

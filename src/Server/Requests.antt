-- ===== src/Server/Requests.antt =====
-- handleRegister of internal/server/server.go.
use lotun.Base.{ℕ, ◌≡◌, refl, sym, ap, ◌∙◌, subst, inl, inr, [], arith, if◌then◌else◌, ◌==◌}
use lotun.Base.Int.{int_eq}
use lotun.Base.Bytes.{Bytes, bytes_eq}
use lotun.Names.{Rand}
use lotun.Protocol.{Message, Register, http, registered, error}
use lotun.Store.{is_claimed}
use lotun.Registry.{
  Registry, Tunnel, Result-cases, lookup_http, lookup_tcp, is_in, new_id, requested, err, ok,
}
use lotun.Registry
use lotun.Registry.Valid.{IsValid, register-IsValid}
use lotun.Registry.Placement.{register-Registration, Resolved}
use lotun.Server.Undo.{IsFreshId, SameRoutes-of_eq}
use lotun.Server.{Server, Draws, serve_tunnel, handle_register, chosen_password, generated_password}
use lotun.Server.Grants.{Untouched, Granted, Served, with_table, serve_tunnel-Served}

-- The answer to a registration. A granted one is what was asked for, under a subdomain that was
-- claimed or drawn; a refused one leaves the routes, listeners and claims as they were.
abbrev pub Handled : Server → Register → ℕ → Draws → Server × Message → Type 0
Handled s req sess w (s', registered reply) =
    (sub : Bytes) × (tn : Tunnel) × Resolved (is_claimed s.store) s.registry req.domain s.rng
      (ok sub, s'.rng)
    × (tn ≡ record (requested req sess (chosen_password req w) w.id_seed sub) { port = tn.port })
    × Granted s w tn reply s'
    × (reply.generated_password ≡ generated_password req w)
Handled s req sess w (s', error e) = Untouched s s'
Handled s req sess w (s', _) = ⊥

generated_http :
    (req : Register) (w : Draws) (tn : Tunnel)
    → tn.type ≡ req.type
    → (if tn.type == http then generated_password req w else []) ≡ generated_password req w
unfolding generated_password
generated_http req w tn t = rw t (ground arith)

Handled-Served :
    (s : Server) (req : Register) (sess : ℕ) (w : Draws) (sub : Bytes) (tn : Tunnel)
    (a : Server × Message)
    → Resolved (is_claimed s.store) s.registry req.domain s.rng (ok sub, a.0.rng)
    → (tn ≡ record (requested req sess (chosen_password req w) w.id_seed sub) { port = tn.port })
    → Served s w (generated_password req w) tn a
    → Handled s req sess w a
unfolding requested
Handled-Served s req sess w sub tn (s', registered reply) res e (g, p) =
    (sub, tn, res, e, g, p ∙ generated_http req w tn (ap (λ x. x.type) e))
Handled-Served s req sess w sub tn (s', error x) res e u = u
Handled-Served s req sess w sub tn (s', _) res e u = absurd u

serve_tunnel-rng :
    (s : Server) (tn : Tunnel) (generated : Bytes) (w : Draws)
    → (serve_tunnel s tn generated w).0.rng ≡ s.rng
unfolding serve_tunnel
serve_tunnel-rng s tn generated w = ground arith

refused_Untouched :
    (s : Server) (r' : Registry) (rng' : Rand)
    → r' ≡ s.registry
    → Untouched s (record s { registry = r'; rng = rng' })
refused_Untouched s r' rng' e = record {
  routes = SameRoutes-of_eq s.registry r' e;
  listeners = refl;
  store = refl;
  disk = refl;
}

-- handleRegister on every branch, at a valid table and a fresh ID: a granted request adds exactly
-- the requested tunnel under a claimed or drawn subdomain, binds the listener of a tcp tunnel,
-- and its reply names host, port, URL and generated password; a refused one leaves the routes,
-- listeners, claims and file as they were.
pub handle_register-Handled :
    (s : Server) (req : Register) (sess : ℕ) (w : Draws)
    → IsValid s.registry
    → IsFreshId s.registry (new_id w.id_seed)
    → Handled s req sess w (handle_register s req sess w)
unfolding handle_register requested
handle_register-Handled s req sess w valid fresh =
    let claimed = is_claimed s.store in
    let password = chosen_password req w in
    let R = Registry.register claimed s.registry req sess password w.id_seed s.rng in
    let untouched = λ (same : R.0 ≡ s.registry). refused_Untouched s R.0 R.2 same in
    let valid' = register-IsValid claimed s.registry req sess password w.id_seed s.rng valid in
    elim (register-Registration claimed s.registry req sess password w.id_seed s.rng) [
      | inl (e, answer, same, _) ↦ rw (answer, handle_register) (untouched same)
      | inr (sub, resolved, placed) ↦ elim (Result-cases R.1) [
        | inl (e, answer) ↦ rw (answer, handle_register) (untouched (rw answer at placed).0)
        | inr (tn, answer) ↦
            let found = rw answer at placed in
            rw (answer, handle_register)
              (Handled-Served s req sess w sub tn _
                (subst (λ x. Resolved claimed s.registry req.domain s.rng (ok sub, x))
                  (sym (serve_tunnel-rng (with_table s R.0 R.2) tn (generated_password req w) w))
                  resolved)
                found.0
                (serve_tunnel-Served s R.0 R.2 w tn (generated_password req w) valid'
                  (subst (IsFreshId s.registry) (sym (ap (λ x. x.id) found.0)) fresh) found.2))
      ]
    ]

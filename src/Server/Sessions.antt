-- ===== src/Server/Sessions.antt =====
-- The invariant of the Server of internal/server/server.go over requests and ended sessions.
use lotun.Base.{
  ℕ, Bool, ◌≡◌, refl, ◌⊎◌, inl, inr, List, [], ◌∷◌, none, arith, if◌then◌else◌, ◌==◌, elem, nat_eq,
}
use lotun.Base.Int.{ℤ, int_eq}
use lotun.Base.Bytes.{Bytes, bytes_eq}
use lotun.Dict.{lookup}
use lotun.Dict.Laws.{lookup-delete, unless, is_some_and}
use lotun.Protocol.{Message, Register, registered, error}
use lotun.Store.{is_claimed}
use lotun.Registry.{Registry, Tunnel, Result-cases, lookup_http, lookup_tcp, is_in, new_id, err, ok}
use lotun.Registry
use lotun.Registry.Valid.{IsValid, register-IsValid, remove-IsValid, remove_session-IsValid}
use lotun.Registry.Removal.{remove_session_lem}
use lotun.Server.{
  Server, Draws, serve_tunnel, handle_register, chosen_password, generated_password, close_tcp,
  close_ports, end_session,
}
use lotun.Server.Undo.{IsFreshId}
use lotun.Server.Requests.{Handled, handle_register-Handled}

-- The routing table is valid, and exactly the routed tcp ports have a listener.
pub record IsSound (s : Server) : Type 0 where
  pub registry_valid : IsValid s.registry
  pub listeners_match : (p : ℤ) → is_in (lookup p s.listeners) ≡ is_in (lookup_tcp s.registry p)

serve_tunnel-registry :
    (s : Server) (tn : Tunnel) (generated : Bytes) (w : Draws)
    → ((serve_tunnel s tn generated w).0.registry ≡ s.registry)
      ⊎ ((serve_tunnel s tn generated w).0.registry ≡ Registry.remove s.registry tn.id)
unfolding serve_tunnel
serve_tunnel-registry s tn generated w = ground arith

serve_tunnel-IsValid :
    (s : Server) (tn : Tunnel) (generated : Bytes) (w : Draws)
    → IsValid s.registry
    → IsValid (serve_tunnel s tn generated w).0.registry
serve_tunnel-IsValid s tn generated w v = elim (serve_tunnel-registry s tn generated w) [
  | inl kept ↦ rw kept v
  | inr removed ↦ rw removed (remove-IsValid s.registry tn.id v)
]

handle_register-IsValid :
    (s : Server) (req : Register) (sess : ℕ) (w : Draws)
    → IsValid s.registry
    → IsValid (handle_register s req sess w).0.registry
unfolding handle_register
handle_register-IsValid s req sess w v =
    let claimed = is_claimed s.store in
    let password = chosen_password req w in
    let R = Registry.register claimed s.registry req sess password w.id_seed s.rng in
    let v' = register-IsValid claimed s.registry req sess password w.id_seed s.rng v in
    elim (Result-cases R.1) [
      | inl (e, answer) ↦ rw (answer, handle_register) v'
      | inr (tn, answer) ↦
          rw (answer, handle_register)
            (serve_tunnel-IsValid (record s { registry = R.0; rng = R.2 }) tn
              (generated_password req w) w v')
    ]

-- Exactly the routed tcp ports have a listener.
abbrev Match : Server → Type 0
Match s = (p : ℤ) → is_in (lookup p s.listeners) ≡ is_in (lookup_tcp s.registry p)

Handled-Match :
    (s : Server) (req : Register) (sess : ℕ) (w : Draws) (a : Server × Message)
    → Handled s req sess w a
    → Match s
    → Match a.0
Handled-Match s req sess w (s', registered reply) (sub, tn, _, _, g, _) m p =
    rw (g.listeners p, g.registers.tcp_after p) (ground (arith, m p))
Handled-Match s req sess w (s', error e) u m p = rw (u.listeners, u.routes.1 p) (m p)
Handled-Match s req sess w (s', _) h m p = absurd h

pub handle_register-IsSound :
    (s : Server) (req : Register) (sess : ℕ) (w : Draws)
    → IsSound s
    → IsFreshId s.registry (new_id w.id_seed)
    → IsSound (handle_register s req sess w).0
handle_register-IsSound s req sess w sound fresh = record {
  registry_valid = handle_register-IsValid s req sess w sound.registry_valid;
  listeners_match =
      Handled-Match s req sess w _ (handle_register-Handled s req sess w sound.registry_valid fresh)
        sound.listeners_match;
}

lookup-close_ports :
    (s : Server) (ps : List ℤ) (p : ℤ)
    → lookup p (close_ports s ps).listeners ≡ (if elem p ps then none else lookup p s.listeners)
unfolding close_ports
lookup-close_ports s [] p = refl
lookup-close_ports s (q ∷ qs) p =
    ground (arith, lookup-close_ports (close_tcp s q) qs p, lookup-delete q p s.listeners)

registry-close_ports :
    (s : Server) (ps : List ℤ)
    → ((close_ports s ps).registry ≡ s.registry)
      × ((close_ports s ps).store ≡ s.store)
      × ((close_ports s ps).disk ≡ s.disk)
unfolding close_ports
registry-close_ports s [] = (refl, refl, refl)
registry-close_ports s (q ∷ qs) = registry-close_ports (close_tcp s q) qs

-- The end of a session on a sound server: lookups answer as before except for the session's
-- tunnels, a listener is gone exactly if its port was routed to the session, and the claims and
-- the file stay.
pub end_session_lem :
    (s : Server) (sess : ℕ) (sub : Bytes) (p : ℤ)
    → IsSound s
    → let s' = end_session s sess in
      let owned : Tunnel → Bool = λ tn. tn.session == sess in
      (lookup_http s'.registry sub ≡ unless owned (lookup_http s.registry sub))
      × (lookup_tcp s'.registry p ≡ unless owned (lookup_tcp s.registry p))
      × (lookup p s'.listeners
          ≡ (if is_some_and owned (lookup_tcp s.registry p) then none else lookup p s.listeners))
      × (s'.store ≡ s.store)
      × (s'.disk ≡ s.disk)
unfolding end_session
end_session_lem s sess sub p sound =
    let (routes, tcp_routes, freed) =
      remove_session_lem s.registry sess sub p sound.registry_valid in
    let gone = Registry.remove_session s.registry sess in
    let s₁ : Server = record s { registry = gone.0 } in
    let kept = registry-close_ports s₁ gone.1 in
    (
      rw kept.0 routes,
      rw kept.0 tcp_routes,
      rw (← freed) (lookup-close_ports s₁ gone.1 p),
      kept.1,
      kept.2,
    )

end_session-IsValid :
    (s : Server) (sess : ℕ) → IsValid s.registry → IsValid (end_session s sess).registry
unfolding end_session
end_session-IsValid s sess v =
    rw (registry-close_ports _ _).0 (remove_session-IsValid s.registry sess v)

pub end_session-IsSound : (s : Server) (sess : ℕ) → IsSound s → IsSound (end_session s sess)
end_session-IsSound s sess sound = record {
  registry_valid = end_session-IsValid s sess sound.registry_valid;
  listeners_match = λ p.
      let after = end_session_lem s sess [] p sound in
      rw (after.2, after.1) (ground (arith, sound.listeners_match p));
}

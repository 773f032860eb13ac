-- ===== src/Server/Grants.antt =====
-- The switch on the tunnel type in handleRegister of internal/server/server.go.
use lotun.Base.{
  true, false, ◌&&◌, ◌≡◌, refl, ◌⊎◌, inl, inr, [], none, some, Bool-cases, Option-cases,
  if◌then◌else◌, ◌==◌,
}
use lotun.Base.Int.{ℤ, pos, int_eq}
use lotun.Base.Bytes.{Bytes, bytes_eq, eqb_bytes_iff, eqb_bytes}
use lotun.Names.{Rand}
use lotun.Dict.{lookup, insert}
use lotun.Dict.Laws.{lookup-insert}
use lotun.Protocol.{Message, Registered, http, tcp, registered, error}
use lotun.Registry.{Registry, Tunnel}
use lotun.Registry.Valid.{IsValid}
use lotun.Registry.Placement.{Registers}
use lotun.Server.Undo.{IsFreshId, SameRoutes, remove_undoes}
use lotun.Server.{
  Server, Draws, serve_tunnel, host_of, tcp_url, http_url, remove_tunnel, start_tcp_tunnel,
}

-- A request that leaves no trace but the randomness it used.
pub record Untouched (s s' : Server) : Type 0 where
  pub routes : SameRoutes s.registry s'.registry
  pub listeners : s'.listeners ≡ s.listeners
  pub store : s'.store ≡ s.store
  pub disk : s'.disk ≡ s.disk

-- A request that is granted: the new tunnel is routed, a tcp one has its listener, the reply names it.
pub record Granted (s : Server) (w : Draws) (tn : Tunnel) (reply : Registered) (s' : Server)
    : Type 0 where
  pub registers : Registers s.registry tn s'.registry
  pub listeners :
      (p : ℤ)
      → lookup p s'.listeners
        ≡ (if (tn.type == tcp) && (tn.port == p) then some w.listener else lookup p s.listeners)
  pub store : s'.store ≡ s.store
  pub disk : s'.disk ≡ s.disk
  pub host : reply.host ≡ host_of s tn
  pub kind :
      ((tn.type ≡ http) × (reply.port ≡ pos 443) × (reply.public_url ≡ http_url s tn))
      ⊎ ((tn.type ≡ tcp) × (reply.port ≡ tn.port) × (reply.public_url ≡ tcp_url s tn))

abbrev pub Served : Server → Draws → Bytes → Tunnel → Server × Message → Type 0
Served s w generated tn (s', registered reply) =
    Granted s w tn reply s'
    × (reply.generated_password ≡ (if tn.type == http then generated else []))
Served s w generated tn (s', error e) = Untouched s s'
Served s w generated tn (s', _) = ⊥

not_tcp : (t : Bytes) → (t == http) ≡ true → (t == tcp) ≡ false
unfolding eqb_bytes
not_tcp t h = rw ((eqb_bytes_iff t http).0 h)

start_refused :
    (s : Server) (tn : Tunnel) (w : Draws) (e : Bytes)
    → w.listen_error ≡ some e
    → start_tcp_tunnel s tn w ≡ (s, some e)
unfolding start_tcp_tunnel
start_refused s tn w e h = rw h

start_bound :
    (s : Server) (tn : Tunnel) (w : Draws)
    → w.listen_error ≡ none
    → start_tcp_tunnel s tn w
      ≡ (record s { listeners = insert tn.port w.listener s.listeners }, none)
unfolding start_tcp_tunnel
start_bound s tn w h = rw h

abbrev pub with_table : Server → Registry → Rand → Server
with_table s r' rng' = record s { registry = r'; rng = rng' }

module _ (s : Server) (r' : Registry) (rng' : Rand) (w : Draws) (tn : Tunnel)
    (generated : Bytes) where
  serve_http-Granted :
      Registers s.registry tn r'
      → (tn.type == http) ≡ true
      → Granted s w tn
          (record {
            public_url = http_url (with_table s r' rng') tn;
            host = host_of (with_table s r' rng') tn;
            port = pos 443;
            generated_password = generated;
          })
          (with_table s r' rng')
  unfolding host_of http_url
  serve_http-Granted added h = record {
    registers = added;
    listeners = λ p. rw (not_tcp _ h);
    store = refl;
    disk = refl;
    host = refl;
    kind = inl ((eqb_bytes_iff _ _).0 h, refl, refl);
  }

  serve_tcp-Granted :
      Registers s.registry tn r'
      → (tn.type == tcp) ≡ true
      → Granted s w tn
          (record {
            public_url = tcp_url (with_table s r' rng') tn;
            host = host_of (with_table s r' rng') tn;
            port = tn.port;
            generated_password = [];
          })
          (record s {
            registry = r';
            rng = rng';
            listeners = insert tn.port w.listener s.listeners;
          })
  unfolding host_of tcp_url
  serve_tcp-Granted added h = record {
    registers = added;
    listeners = λ p. rw h (lookup-insert tn.port p w.listener s.listeners);
    store = refl;
    disk = refl;
    host = refl;
    kind = inr ((eqb_bytes_iff _ _).0 h, refl, refl);
  }

  pub serve_tunnel-Served :
      IsValid r'
      → IsFreshId s.registry tn.id
      → Registers s.registry tn r'
      → Served s w generated tn (serve_tunnel (with_table s r' rng') tn generated w)
  unfolding serve_tunnel
  serve_tunnel-Served valid fresh added =
      let s₁ = with_table s r' rng' in
      let undone : Untouched s (remove_tunnel s₁ tn) = record {
        routes = remove_undoes s.registry r' tn valid fresh added;
        listeners = refl;
        store = refl;
        disk = refl;
      } in
      elim (Bool-cases (tn.type == http)) [
        | inl is_http ↦ rw is_http (serve_http-Granted added is_http, rw is_http)
        | inr not_http ↦ elim (Bool-cases (tn.type == tcp)) [
          | inr other ↦ rw (not_http, other) undone
          | inl is_tcp ↦ elim (Option-cases w.listen_error) [
            | inr (e, h) ↦
                rw (not_http, is_tcp, start_refused s₁ tn w e h)
                  (rw (start_refused s₁ tn w e h) undone)
            | inl h ↦
                rw (not_http, is_tcp, start_bound s₁ tn w h)
                  (rw (start_bound s₁ tn w h) (serve_tcp-Granted added is_tcp, rw not_http))
          ]
        ]
      ]

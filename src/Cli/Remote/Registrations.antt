-- ===== src/Cli/Remote/Registrations.antt =====
-- The registrations of serveOnce of cmd/lotun/commands.go at a server of internal/server.
use lotun.Base.{ℕ, ◌≡◌, refl, ap, subst, ◌⊎◌, inl, inr, List, [], ◌∷◌, ◌++◌, some, All}
use lotun.Base.Bytes.{Bytes, bytes, bytes_eq}
use lotun.Json.{JsonText}
use lotun.Protocol.{Message, Registered, registered, error}
use lotun.Registry.{Tunnel, new_id, requested}
use lotun.Server.{Server, Draws, end_session, handle_register}
use lotun.Server.Control.{dispatch}
use lotun.Server.Undo.{IsFreshId}
use lotun.Server.Requests.{Handled, handle_register-Handled}
use lotun.Server.Sessions.{IsSound, handle_register-IsSound, end_session-IsSound}
use lotun.Server.Connections.{IsGone, end_session-IsGone}
use lotun.Server.Peer.{Peer, hang_up, serve_round, answer, remote}
use lotun.Server.Peer.Whole.{serving_as, over_as}
use lotun.Client.{TunnelRequest, Reply, register_tunnel, register_message, register_reply, broken}
use lotun.Cli.{Fault, Checked, accepted, rejected, said, connection_broken, print_registered}
use lotun.Cli.Remote.{checked_reply, register_all}
use lotun.Cli.Checks.{Checked-cases}
use lotun.Cli.Commands.{accepted-injective}
use lotun.Cli.Remote.Up.{IsUp, Keeps, Granted-Keeps, Granted-IsUp}

-- A tunnel of the session that answers the request is up.
abbrev pub IsServed : Server → ℕ → TunnelRequest → Type 0
IsServed s sess req =
    (tn : Tunnel) × IsUp s tn
    × (tn.session ≡ sess)
    × (tn.local_port ≡ req.local_port)
    × (tn.private ≡ req.private)

-- The IDs that the registrations draw are fresh when they come.
abbrev pub FreshFor : Server → ℕ → List TunnelRequest → List Draws → Type 0
FreshFor s sess [] ws = Unit
FreshFor s sess (req ∷ reqs) [] = Unit
FreshFor s sess (req ∷ reqs) (w ∷ ws) =
    IsFreshId s.registry (new_id w.id_seed)
    × FreshFor (handle_register s (register_message req) sess w).0 sess reqs ws

-- What the loop of serveOnce leaves: all tunnels up, or a connection that leaves none when it is
-- closed.
abbrev pub RegisteredAll :
    Server → ℕ → List TunnelRequest → Peer × Bytes × Checked (Unit {0}) → Type 0
RegisteredAll s sess reqs (p, out, accepted _) =
    ((ws : List Draws) × (p ≡ serving_as p.server sess ws))
    × IsSound p.server
    × Keeps s p.server
    × All (IsServed p.server sess) reqs
RegisteredAll s sess reqs (p, out, rejected e) =
    IsSound (hang_up p).server × IsGone (hang_up p).server sess

-- The registrations as the server handles them, one after the other: the server that they leave, what
-- serveOnce prints, and the error of the first that the server refuses. A connection that breaks ends
-- the session.
abbrev pub Registers :
    Server → ℕ → List TunnelRequest → List Draws → Server → Bytes → Checked (Unit {0}) → Type 0
Registers s sess [] ws s' out result = (s' ≡ s) × (out ≡ []) × (result ≡ accepted tt)
Registers s sess (req ∷ reqs) [] s' out result =
    (s' ≡ end_session s sess) × (out ≡ []) × (result ≡ rejected connection_broken)
Registers s sess (req ∷ reqs) (w ∷ ws) s' out result =
    let (s₁, reply) = handle_register s (register_message req) sess w in
    ((text : Bytes) × (reply ≡ error text)
      × (s' ≡ s₁)
      × (out ≡ [])
      × (result ≡ rejected (said (bytes "register failed: " ++ text))))
    ⊎ ((reg : Registered) × (rest : Bytes) × (reply ≡ registered reg)
        × (out ≡ print_registered req reg ++ rest)
        × Registers s₁ sess reqs ws s' rest result)

answer-register :
    (json : JsonText) (s : Server) (sess : ℕ) (w : Draws) (ws : List Draws) (req : TunnelRequest)
    → let (s', m) = handle_register s (register_message req) sess w in
      register_tunnel (remote json) req (serving_as s sess (w ∷ ws))
      ≡ (serving_as s' sess ws, register_reply (some m))
unfolding register_tunnel answer serve_round dispatch
answer-register json s sess w ws req = refl

answer-exhausted :
    (json : JsonText) (s : Server) (sess : ℕ) (req : TunnelRequest)
    → register_tunnel (remote json) req (serving_as s sess [])
      ≡ (over_as (end_session s sess) sess [], broken)
unfolding register_tunnel answer serve_round register_reply hang_up
answer-exhausted json s sess req = refl

-- What one registration leaves.
abbrev Answered : Server → ℕ → TunnelRequest → Draws → Server → Message → Type 0
Answered s sess req w s' (registered reply) = Keeps s s' × IsServed s' sess req
Answered s sess req w s' _ = Unit

Handled-Answered :
    (s : Server) (req : TunnelRequest) (sess : ℕ) (w : Draws) (a : Server × Message)
    → Handled s (register_message req) sess w a
    → Answered s sess req w a.0 a.1
unfolding requested register_message
Handled-Answered s req sess w (s', registered reply) (sub, tn, _, same, granted, _) = (
  Granted-Keeps s s' w tn reply granted,
  (
    tn,
    Granted-IsUp s s' w tn reply granted,
    ap (λ x. x.session) same,
    ap (λ x. x.local_port) same,
    ap (λ x. x.private) same,
  ),
)
Handled-Answered s req sess w (s', _) h = tt

abbrev words : Bytes
words = bytes "register failed: "

module _ (json : JsonText) (req : TunnelRequest) (reqs : List TunnelRequest) (p p₁ : Peer)
    (reply : Reply Registered) (asked : register_tunnel (remote json) req p ≡ (p₁, reply)) where
  register_all-accepted :
      (reg : Registered)
      → checked_reply words reply ≡ accepted reg
      → let (p₂, out, result) = register_all (remote json) reqs p₁ in
        register_all (remote json) (req ∷ reqs) p ≡ (p₂, print_registered req reg ++ out, result)
  unfolding register_all
  register_all-accepted reg h = rw (asked, h, asked, register_all) refl

  register_all-rejected :
      (e : Fault)
      → checked_reply words reply ≡ rejected e
      → register_all (remote json) (req ∷ reqs) p ≡ (p₁, [], rejected e)
  unfolding register_all
  register_all-rejected e h = rw (asked, h, asked, register_all) refl

replied :
    (m : Message) (reg : Registered)
    → checked_reply words (register_reply (some m)) ≡ accepted reg
    → m ≡ registered reg
unfolding register_reply
replied (registered r) reg h = ap registered (accepted-injective r reg h)
replied (error e) reg h = absurd cc
replied _ reg h = absurd cc

more-IsServed :
    (s s' : Server) (sess : ℕ) (reqs : List TunnelRequest)
    → Keeps s s'
    → (req : TunnelRequest) → IsServed s sess req
    → IsServed s' sess req
more-IsServed s s' sess reqs keeps req (tn, up, sess', port, private) =
    (tn, keeps tn up, sess', port, private)

All-more-IsServed :
    (s s' : Server) (sess : ℕ) (reqs : List TunnelRequest)
    → Keeps s s'
    → All (IsServed s sess) reqs
    → All (IsServed s' sess) reqs
All-more-IsServed s s' sess [] keeps h = tt
All-more-IsServed s s' sess (req ∷ reqs) keeps (h, hs) =
    (more-IsServed s s' sess reqs keeps req h, All-more-IsServed s s' sess reqs keeps hs)

hung_up :
    (s : Server) (sess : ℕ)
    → IsSound s
    → IsSound (end_session s sess) × IsGone (end_session s sess) sess
hung_up s sess sound = (end_session-IsSound s sess sound, end_session-IsGone s sess sound)

next-RegisteredAll :
    (s s' : Server) (sess : ℕ) (req : TunnelRequest) (reqs : List TunnelRequest) (line : Bytes)
    (a : Peer × Bytes × Checked (Unit {0}))
    → Keeps s s'
    → IsServed s' sess req
    → RegisteredAll s' sess reqs a
    → RegisteredAll s sess (req ∷ reqs) (a.0, line ++ a.1, a.2)
next-RegisteredAll s s' sess req reqs line (p, out, accepted u) keeps served
      (goes, sound, later, all) =
    (
      goes,
      sound,
      λ tn up. later tn (keeps tn up),
      (more-IsServed s' p.server sess reqs later req served, all),
    )
next-RegisteredAll s s' sess req reqs line (p, out, rejected e) keeps served h = h

pub register_all-RegisteredAll :
    (json : JsonText) (s : Server) (sess : ℕ) (reqs : List TunnelRequest) (ws : List Draws)
    → IsSound s
    → FreshFor s sess reqs ws
    → RegisteredAll s sess reqs (register_all (remote json) reqs (serving_as s sess ws))
unfolding register_all hang_up
register_all-RegisteredAll json s sess [] ws sound fresh = ((ws, refl), sound, λ tn up. up, tt)
register_all-RegisteredAll json s sess (req ∷ reqs) [] sound fresh =
    rw (register_all-rejected json req reqs _ _ broken (answer-exhausted json s sess req) _ refl)
      (hung_up s sess sound)
register_all-RegisteredAll json s sess (req ∷ reqs) (w ∷ ws) sound (fresh, more) =
    let handled = handle_register s (register_message req) sess w in
    let s' = handled.0 in
    let sound' = handle_register-IsSound s (register_message req) sess w sound fresh in
    let asked = answer-register json s sess w ws req in
    elim (Checked-cases (checked_reply words (register_reply (some handled.1)))) [
      | inr (e, bad) ↦
          rw (register_all-rejected json req reqs _ _ _ asked e bad) (hung_up s' sess sound')
      | inl (reg, good) ↦
          let (keeps, served) = subst (Answered s sess req w s') (replied handled.1 reg good) (
            Handled-Answered s req sess w handled (
              handle_register-Handled s (register_message req) sess w sound.registry_valid
                fresh)) in
          rw (register_all-accepted json req reqs _ _ _ asked reg good) (
            next-RegisteredAll s s' sess req reqs (print_registered req reg)
              (register_all (remote json) reqs (serving_as s' sess ws)) keeps served
              (register_all-RegisteredAll json s' sess reqs ws sound' more))
    ]

refused :
    (s : Server) (req : TunnelRequest) (sess : ℕ) (w : Draws) (a : Server × Message) (e : Fault)
    → Handled s (register_message req) sess w a
    → checked_reply words (register_reply (some a.1)) ≡ rejected e
    → (text : Bytes) × (a.1 ≡ error text) × (e ≡ said (words ++ text))
unfolding register_reply
refused s req sess w (s', registered reply) e handled bad = absurd cc
refused s req sess w (s', error text) e handled bad = (text, refl, cc)
refused s req sess w (s', _) e handled bad = absurd handled

pub register_all-Registers :
    (json : JsonText) (s : Server) (sess : ℕ) (reqs : List TunnelRequest) (ws : List Draws)
    → IsSound s
    → FreshFor s sess reqs ws
    → let (p, out, result) = register_all (remote json) reqs (serving_as s sess ws) in
      Registers s sess reqs ws p.server out result
unfolding register_all
register_all-Registers json s sess [] ws sound fresh = (refl, refl, refl)
register_all-Registers json s sess (req ∷ reqs) [] sound fresh =
    rw (register_all-rejected json req reqs _ _ broken (answer-exhausted json s sess req) _ refl)
      (refl, refl, refl)
register_all-Registers json s sess (req ∷ reqs) (w ∷ ws) sound (fresh, more) =
    let handled = handle_register s (register_message req) sess w in
    let s' = handled.0 in
    let sound' = handle_register-IsSound s (register_message req) sess w sound fresh in
    let asked = answer-register json s sess w ws req in
    elim (Checked-cases (checked_reply words (register_reply (some handled.1)))) [
      | inr (e, bad) ↦
          let (text, sent, why) =
            refused s req sess w handled e
              (handle_register-Handled s (register_message req) sess w sound.registry_valid fresh)
              bad in
          rw (register_all-rejected json req reqs _ _ _ asked e bad)
            (inl (text, sent, refl, refl, ap rejected why))
      | inl (reg, good) ↦
          let (p, out, result) = register_all (remote json) reqs (serving_as s' sess ws) in
          rw (register_all-accepted json req reqs _ _ _ asked reg good) (
            inr (
              reg,
              out,
              replied handled.1 reg good,
              refl,
              register_all-Registers json s' sess reqs ws sound' more,
            ))
    ]

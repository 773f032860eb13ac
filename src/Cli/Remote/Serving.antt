-- ===== src/Cli/Remote/Serving.antt =====
-- serveOnce of cmd/lotun/commands.go at a server of internal/server.
use lotun.Base.{ℕ, ◌≡◌, refl, ap, ◌⊎◌, inl, inr, List, ◌++◌, All}
use lotun.Base.Bytes.{Bytes, bytes, bytes_eq, eqb_bytes_iff}
use lotun.Json.{JsonText}
use lotun.Server.{Server, Draws, end_session}
use lotun.Server.Sessions.{IsSound}
use lotun.Server.Connections.{IsGone, end_session-IsGone}
use lotun.Server.Peer.{Peer, serving, over, hang_up, remote}
use lotun.Server.Peer.Whole.{greeting_as, serving_as}
use lotun.Client.{TunnelRequest}
use lotun.Cli.{ClientConfig, Fault, Checked, accepted, rejected}
use lotun.Cli.Remote.{register_all, serve_after, serve_once}
use lotun.Cli.Remote.Dialing.{dial-admitted}
use lotun.Cli.Remote.Up.{Keeps}
use lotun.Cli.Remote.Registrations.{
  IsServed, FreshFor, Registers, RegisteredAll, register_all-RegisteredAll, register_all-Registers,
}

-- What happens during Serve: requests of other sessions, data streams, and in the end a signal or a
-- lost connection. The server stays sound; and it still serves the session, or it has ended it.
abbrev pub ServesSoundly : ℕ → (Peer → Peer × Fault) → Type 0
ServesSoundly sess serve =
    (p : Peer)
    → IsSound p.server
    → p.phase ≡ serving
    → p.sess ≡ sess
    → let q = (serve p).0 in
      IsSound q.server
      × (((q.phase ≡ serving) × (q.sess ≡ sess)) ⊎ ((q.phase ≡ over) × IsGone q.server sess))

hang_up-IsGone :
    (p : Peer) (sess : ℕ)
    → IsSound p.server
    → p.phase ≡ serving
    → p.sess ≡ sess
    → IsGone (hang_up p).server sess
unfolding hang_up
hang_up-IsGone p sess sound phase own =
    let closed : (hang_up p).server ≡ end_session p.server sess =
      rw (phase, hang_up) (ap (end_session p.server) own) in
    rw closed (end_session-IsGone p.server sess sound)

over-IsGone :
    (p : Peer) (sess : ℕ) → p.phase ≡ over → IsGone p.server sess → IsGone (hang_up p).server sess
unfolding hang_up
over-IsGone p sess phase gone =
    let same : (hang_up p).server ≡ p.server = rw (phase, hang_up) refl in rw same gone

-- serveOnce after its registrations.
abbrev pub Session :
    (Peer → Peer × Fault)
    → Server
    → ℕ
    → List TunnelRequest
    → Peer × Bytes × Checked (Unit {0})
    → Peer × Bytes × Fault
    → Type 0
Session serve s sess reqs (p, out, accepted _) b =
    All (IsServed p.server sess) reqs
    × Keeps s p.server
    × (b ≡ (
      hang_up (serve p).0,
      out ++ bytes "Forwarding traffic. Press Ctrl-C to stop.\n",
      (serve p).1,
    ))
Session serve s sess reqs (p, out, rejected e) b = b ≡ (hang_up p, out, e)

RegisteredAll-Session :
    (serve : Peer → Peer × Fault) (json : JsonText) (s : Server) (sess : ℕ)
    (reqs : List TunnelRequest) (a : Peer × Bytes × Checked (Unit {0}))
    → ServesSoundly sess serve
    → RegisteredAll s sess reqs a
    → let b = serve_after (remote json) serve a in
      Session serve s sess reqs a b × IsGone b.0.server sess
RegisteredAll-Session serve json s sess reqs (p, out, accepted u) sure
      ((ws, same), sound, keeps, all) =
    let (sound', how) = sure p sound (ap (λ x. x.phase) same) (ap (λ x. x.sess) same) in
    (
      (all, keeps, refl),
      elim how [
        | inl (phase, own) ↦ hang_up-IsGone (serve p).0 sess sound' phase own
        | inr (phase, gone') ↦ over-IsGone (serve p).0 sess phase gone'
      ],
    )
RegisteredAll-Session serve json s sess reqs (p, out, rejected e) sure (sound, gone) = (refl, gone)

-- serveOnce at a sound server, with the server's token and fresh tunnel IDs, if what happens
-- during Serve keeps the server sound and the server then still serves the session or has ended
-- it: the requests go to handleRegister in order up to the first that it refuses, and each
-- granted one prints its lines; if all are granted, when Serve begins a tunnel of the session is
-- up for each of them at the same time, with its local port and privacy, and every tunnel that
-- was up before still is; otherwise serveOnce ends with the text of the first refusal behind
-- `register failed: `, or with a broken connection; and however it ends, the server then routes
-- nothing to the session.
pub serve_once-Session :
    (json : JsonText) (serve : Peer → Peer × Fault) (s : Server) (sess : ℕ) (ws : List Draws)
    (cfg : ClientConfig) (reqs : List TunnelRequest)
    → IsSound s
    → cfg.token ≡ s.token
    → FreshFor s sess reqs ws
    → ServesSoundly sess serve
    → let b = serve_once (remote json) serve cfg reqs (greeting_as s sess ws) in
      let a = register_all (remote json) reqs (serving_as s sess ws) in
      Registers s sess reqs ws a.0.server a.1 a.2
      × Session serve s sess reqs a b
      × IsGone b.0.server sess
unfolding serve_once
serve_once-Session json serve s sess ws cfg reqs sound token fresh sure =
    let (session, gone) =
      RegisteredAll-Session serve json s sess reqs _ sure
        (register_all-RegisteredAll json s sess reqs ws sound fresh) in
    rw (dial-admitted json s sess ws cfg ((eqb_bytes_iff cfg.token s.token).1 token), serve_once)
      (register_all-Registers json s sess reqs ws sound fresh, session, gone)

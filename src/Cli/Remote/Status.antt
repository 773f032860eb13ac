-- ===== src/Cli/Remote/Status.antt =====
-- `lotun status` of cmd/lotun/commands.go at a server of internal/server.
use lotun.Base.{ℕ, ◌≡◌, ◌↔◌, refl, List, ◌∷◌, All, nat_eq}
use lotun.Base.Int.{int_eq}
use lotun.Base.Bytes.{Bytes, bytes_eq, eqb_bytes_iff}
use lotun.Dict.{Entries}
use lotun.Json.{JsonText}
use lotun.Protocol.{list_tunnels}
use lotun.Registry.{Tunnel, list}
use lotun.Registry.Removal.{list_lem}
use lotun.Server.{Server, Draws, handle_list}
use lotun.Server.Control.{dispatch}
use lotun.Server.Undo.{SameRoutes}
use lotun.Server.Sessions.{IsSound}
use lotun.Server.Connections.{IsGone}
use lotun.Server.Peer.{remote}
use lotun.Server.Peer.Whole.{greeting_as}
use lotun.Client.{list_reply, list_all}
use lotun.Cli.{ClientConfig, accepted}
use lotun.Cli.Remote.{status_command, status_output}
use lotun.Cli.Remote.Printed.{Prints, status_output-Prints}
use lotun.Cli.Remote.Dialing.{one_shot-dispatch}
use lotun.Cli.Remote.Claiming.{end_session-idle}

pub status_command-lists :
    (json : JsonText) (s : Server) (sess : ℕ) (w : Draws) (ws : List Draws) (cfg : ClientConfig)
    (P : Tunnel → Type 0)
    → IsSound s
    → IsGone s sess
    → cfg.token ≡ s.token
    → let (p, result) = status_command (remote json) (accepted cfg) (greeting_as s sess (w ∷ ws)) in
      let listed = list s.registry in
      ((out : Bytes) × (result ≡ accepted out) × Prints s listed out)
      × (All P listed ↔ (
          Entries (λ _ tn. P tn) s.registry.http_by_sub
          × Entries (λ _ tn. P tn) s.registry.tcp_by_port))
      × SameRoutes s.registry p.server.registry
unfolding status_command list_all dispatch handle_list list_reply
status_command-lists json s sess w ws cfg P sound gone token =
    let same = (eqb_bytes_iff cfg.token s.token).1 token in
    let (server, result) =
      one_shot-dispatch json s sess w ws list_tunnels (list_all (remote json)) list_reply
        (status_output) cfg (λ p. refl) same in
    rw server (
      (_, result, status_output-Prints s (list s.registry)),
      list_lem s.registry P sound.registry_valid,
      end_session-idle s sess sound gone,
    )

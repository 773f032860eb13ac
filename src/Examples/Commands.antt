-- ===== src/Examples/Commands.antt =====
-- The theorems about the commands of cmd/lotun/commands.go, about internal/config/config.go and
-- about Serve of internal/client/client.go, with the viper of Examples/Configs.
use lotun.Base.{◌≡◌, ◌≢◌, ◌↔◌, ◌⊎◌, refl, inl, true, [], ◌∷◌, none, some, All, arith}
use lotun.Base.Int.{pos, int_eq}
use lotun.Base.Bytes.{Bytes, bytes, bytes_eq, eqb_bytes}
use lotun.Dict.{lookup, insert, Entries}
use lotun.Protocol.{http}
use lotun.Registry.{list, new_registry, lookup_http, lookup_tcp}
use lotun.Server.{Server}
use lotun.Server.Sessions.{IsSound}
use lotun.Server.Undo.{SameRoutes}
use lotun.Server.Connections.{IsGone}
use lotun.Server.Peer.{Peer, remote}
use lotun.Server.Peer.Whole.{greeting_as, serving_as}
use lotun.Client.{TunnelRequest}
use lotun.Client.Serving.{
  cancels, closes, accepts, start, turn, turns, accept_turn, is_over, Explains, serve-Returns,
}
use lotun.Cli.{
  ClientConfig, LoginFlags, Fault, accepted, rejected, said, canceled, logged_in, login_check,
}
use lotun.Cli.Login.{load_connected_config, login, login-load_connected_config}
use lotun.Cli.Remote.{claim_command, status_command, register_all, serve_once}
use lotun.Cli.Remote.Printed.{Prints}
use lotun.Cli.Remote.Claiming.{Concludes, claim_command-Concludes}
use lotun.Cli.Remote.Status.{status_command-lists}
use lotun.Cli.Remote.Registrations.{Registers}
use lotun.Cli.Remote.Serving.{Session, serve_once-Session}
use lotun.Config.{Access, load_client, save_client, write_file}
use lotun.Config.Saving.{Leaves, save_client_lem}
use lotun.Examples.Text.{text}
use lotun.Examples.Configs.{
  viper, config_path, viper-ReadsBack, old_config, saved, quiet, saved-loads,
}
use lotun.Examples.Data.{draws, idle}
use lotun.Examples.Access.{one_port, one_port-IsValid}
use lotun.Examples.Servers.{fresh, idle-IsSound, idle-IsGone}

abbrev flags : LoginFlags
flags = record {
  server = bytes "lotun.example:7000";
  token = bytes "t0ken";
  default_domain = none;
  tls = some true;
  tls_insecure = none;
}

logs_in :
    (login viper saved quiet config_path flags).0 ≡ accepted (bytes "Saved config to config.yaml\n")
unfolding login login_check save_client write_file logged_in eqb_bytes
logs_in = rw (saved-loads, login) refl

login-load_connected_config_example :
    (c : ClientConfig) × (load_client viper saved quiet config_path ≡ some c)
    × (load_connected_config viper (login viper saved quiet config_path flags).1 quiet config_path
        ≡ accepted (logged_in flags c))
login-load_connected_config_example =
    login-load_connected_config viper saved quiet quiet config_path flags
      (bytes "Saved config to config.yaml\n") viper-ReadsBack (λ h. cc) refl logs_in

abbrev token_config : ClientConfig
token_config = record old_config { token = bytes "t0ken"; tunnels = [] }

abbrev cut_off : Access
cut_off = record quiet { write = some (1, bytes "no space left on device") }

save_client_lem_example :
    let (failure, files') = save_client viper [] cut_off config_path token_config in
    Leaves viper [] cut_off config_path token_config failure (lookup config_path files')
    × (lookup [] files' ≡ none)
unfolding lookup
save_client_lem_example = save_client_lem viper [] cut_off config_path [] token_config (λ h. cc)

claim_command-Concludes_example :
    let (p, result) =
      claim_command
        (remote text)
        (λ s. s)
        (bytes "api")
        (accepted token_config)
        (greeting_as idle 1 (draws ∷ [])) in
    SameRoutes idle.registry p.server.registry
    × (((token_config.token ≡ idle.token)
          × Concludes text idle draws.faults
              (bytes "api")
              (bytes "Claimed api\n")
              result
              p.server.store
              p.server.disk)
        ⊎ ((token_config.token ≢ idle.token)
            × (result ≡ rejected (said (bytes "auth rejected: invalid token")))
            × (p.server ≡ idle)))
claim_command-Concludes_example =
    claim_command-Concludes text (λ s. s) idle 1 draws [] (bytes "api") token_config idle-IsSound
      idle-IsGone

-- A server with one tunnel, which is another client's.
abbrev tunnelled : Server
tunnelled = record idle { registry = one_port; listeners = insert (pos 20001) 5 [] }

tunnelled-IsSound : IsSound tunnelled
unfolding new_registry lookup insert lookup_tcp
tunnelled-IsSound = record {
  registry_valid = one_port-IsValid;
  listeners_match = λ p. ground (arith, int_eq.beq_iff (pos 20001) p);
}

tunnelled-IsGone : IsGone tunnelled 1
unfolding new_registry lookup insert lookup_http lookup_tcp
tunnelled-IsGone = (λ sub tn e. cc, λ p tn e. ground arith)

status_command-lists_example :
    let (p, result) =
      status_command (remote text) (accepted token_config) (greeting_as tunnelled 1 (draws ∷ [])) in
    ((out : Bytes) × (result ≡ accepted out) × Prints tunnelled (list one_port) out)
    × (All (λ tn. tn.session ≡ 1) (list one_port) ↔ (
        Entries (λ _ tn. tn.session ≡ 1) one_port.http_by_sub
        × Entries (λ _ tn. tn.session ≡ 1) one_port.tcp_by_port))
    × SameRoutes one_port p.server.registry
status_command-lists_example =
    status_command-lists text tunnelled 1 draws [] token_config (λ tn. tn.session ≡ 1)
      tunnelled-IsSound tunnelled-IsGone refl

signalled : (turns start (accepts none ∷ cancels ∷ [])).cancelled ≡ true
unfolding turns turn accept_turn
signalled = refl

serve-Returns_example :
    let all = accepts none ∷ cancels ∷ accepts none ∷ closes ∷ accepts none ∷ [] in
    let s = turns start all in (is_over s.result ≡ true) × Explains s all s.result
serve-Returns_example =
    serve-Returns (accepts none ∷ cancels ∷ []) (accepts none ∷ closes ∷ []) (accepts none ∷ [])
      signalled refl refl

abbrev web_tunnel : TunnelRequest
web_tunnel = record {
  type = http;
  domain = bytes "web";
  local_port = pos 8080;
  remote_port = pos 0;
  private = true;
  password = [];
  allow_ips = [];
}

-- Serve ends at once, as at Ctrl-C.
abbrev interrupted : Peer → Peer × Fault
interrupted p = (p, canceled)

serve_once-Session_example :
    let b =
      serve_once
        (remote text)
        interrupted
        token_config
        (web_tunnel ∷ [])
        (greeting_as idle 1 (draws ∷ [])) in
    let a = register_all (remote text) (web_tunnel ∷ []) (serving_as idle 1 (draws ∷ [])) in
    Registers idle 1 (web_tunnel ∷ []) (draws ∷ []) a.0.server a.1 a.2
    × Session interrupted idle 1 (web_tunnel ∷ []) a b
    × IsGone b.0.server 1
serve_once-Session_example =
    serve_once-Session text interrupted idle 1 (draws ∷ []) token_config (web_tunnel ∷ [])
      idle-IsSound refl (fresh, tt) (λ p sound phase own. (sound, inl (phase, own)))

-- ===== src/Examples/Servers.antt =====
-- The theorems about internal/server/server.go on a server without tunnels and on one connection.
use lotun.Base.{◌≡◌, ◌≢◌, refl, true, [], none, some, nat_eq}
use lotun.Base.Int.{pos, int_eq}
use lotun.Base.Bytes.{bytes, bytes_eq, eqb_bytes}
use lotun.Dict.{lookup}
use lotun.Protocol.{auth, register, list_tunnels}
use lotun.Registry.{Tunnel, new_registry, new_id, lookup_http, lookup_tcp}
use lotun.Http.{Request, proxied, serve_http}
use lotun.Server.Routing.{handle_register-proxied}
use lotun.Protocol.{Registered, registered}
use lotun.Registry.{resolve_sub, place, sub_taken, requested}
use lotun.Registry
use lotun.Store.{is_claimed}
use lotun.Server.{
  serve_tunnel, http_url, host_of, generated_password, wants_password, generate_password,
  chosen_password, Server, new_server, handle_register, end_session,
}
use lotun.Server.Control.{dispatch, handle_control_conn}
use lotun.Server.Undo.{IsFreshId}
use lotun.Server.Requests.{Handled, handle_register-Handled}
use lotun.Server.Sessions.{IsSound}
use lotun.Server.Connections.{
  Reach, here, next, requests, ends, Reach-IsSound, new_server-IsSound, IsGone,
  handle_control_conn_lem,
}
use lotun.Examples.Text.{text}
use lotun.Examples.Data.{rng, one_claim, empty_disk, web_request, draws, idle, rounds}

made :
    new_server (bytes "t0ken") (bytes "lvh.me") (pos 20000) (pos 20002) one_claim empty_disk rng
    ≡ some idle
unfolding new_server eqb_bytes
made = refl

pub idle-IsSound : IsSound idle
idle-IsSound =
    new_server-IsSound (bytes "t0ken") (bytes "lvh.me") (pos 20000) (pos 20002) one_claim empty_disk
      rng idle made

pub fresh : IsFreshId idle.registry (new_id draws.id_seed)
unfolding new_registry lookup
fresh = (λ k tn e. cc, λ k tn e. cc)

handle_register-Handled_example :
    Handled idle web_request 1 draws (handle_register idle web_request 1 draws)
handle_register-Handled_example =
    handle_register-Handled idle web_request 1 draws idle-IsSound.registry_valid fresh

abbrev busy : Server
busy = (dispatch text idle 1 (register web_request) draws).0

one_request : Reach text idle busy
one_request = next here (requests idle 1 (register web_request) draws fresh)

Reach-IsSound_example : IsSound (end_session busy 1)
Reach-IsSound_example = Reach-IsSound idle-IsSound (next one_request (ends busy 1))

busy-IsSound : IsSound busy
busy-IsSound = Reach-IsSound idle-IsSound one_request

pub idle-IsGone : IsGone idle 1
unfolding new_registry lookup lookup_http lookup_tcp
idle-IsGone = (λ k tn e. cc, λ k tn e. cc)

handle_control_conn_lem_example :
    let result = handle_control_conn text idle 1 (some list_tunnels) true rounds in
    IsSound result.0
    × IsGone result.0 1
    × (some list_tunnels ≢ some (auth (record { token = idle.token }))
        → (result.0 ≡ idle) × (result.1 ≡ []))
handle_control_conn_lem_example =
    handle_control_conn_lem text idle 1 (some list_tunnels) true rounds idle-IsSound idle-IsGone
      (fresh, λ m e. tt)

abbrev web_reply : Registered
web_reply = record {
  public_url = bytes "https://web.lvh.me";
  host = bytes "web.lvh.me";
  port = pos 443;
  generated_password = bytes "12345678";
}

granted_web : (handle_register idle web_request 1 draws).1 ≡ registered web_reply
unfolding handle_register Registry.register resolve_sub is_claimed lookup place sub_taken
    new_registry requested serve_tunnel http_url host_of generated_password wants_password
    generate_password eqb_bytes
granted_web = refl

abbrev visit : Request
visit = record {
  host = bytes "web.lvh.me";
  credentials = some (bytes "lotun", chosen_password web_request draws);
}

unseen : lookup {V = Tunnel} (new_id draws.id_seed) [] ≡ none
unfolding lookup
unseen = refl

handle_register-proxied_example :
    (tn : Tunnel) × ((serve_http
        (handle_register idle web_request 1 draws).0.registry
        (bytes "lvh.me")
        []
        visit).0
      ≡ proxied tn)
    × (tn.session ≡ 1)
    × (tn.local_port ≡ pos 8080)
handle_register-proxied_example =
    handle_register-proxied idle web_request 1 draws web_reply [] visit idle-IsSound.registry_valid
      fresh unseen refl granted_web (refl, refl, refl) refl refl

-- ===== src/Examples/Clients.antt =====
-- The theorems about internal/client/client.go and cmd/lotun/commands.go on concrete requests.
use lotun.Base.{◌≡◌, ◌≢◌, ◌⊎◌, refl, true, false, List, [], ◌∷◌, some, ◌<◌, ◌^◌, length, arith, All}
use lotun.Base.Int.{pos, int_eq}
use lotun.Base.Bytes.{Bytes, bytes, bytes_eq, eqb_bytes}
use lotun.Base.Decimal.{atoi, parse_unsigned, parse_digits, is_digit}
use lotun.Protocol.{http, tcp, auth_ok}
use lotun.Protocol.Encode.{header_json}
use lotun.Protocol.Frame.{Writer, write_frame, put_uint32}
use lotun.Protocol.Codec.{write_stream_header}
use lotun.Registry.{Tunnel}
use lotun.Registry.Valid.{new_registry-IsValid}
use lotun.Http.{stream_header}
use lotun.Server.{handle_register}
use lotun.Client.{TunnelRequest, register_message, register_reply}
use lotun.Client.Handles.{Meets, Connected, connect_handles, connect_handles-Connected}
use lotun.Client.Replies.{Learns, register_reply-handle_register}
use lotun.Cli.{
  TunnelConfig, Attempt, min_backoff, ClientConfig, connected_config, accepted, rejected,
  no_tunnels, parse_port, tunnel_requests, tunnel_request, tunnel_requests_from, parse_tunnel_type,
  to_lower, validate_tcp_flags, request_of, serve_with_retry,
}
use lotun.Cli.Checks.{Lists, tunnel_requests_lem}
use lotun.Cli.Commands.{tcp_command, AsksTcp, tcp_command-AsksTcp}
use lotun.Cli.Pauses.{InBounds, serve_with_retry-InBounds, doubling, serve_with_retry-drops}
use lotun.Examples.Servers.{fresh}
use lotun.Examples.Text.{text, put, depth}
use lotun.Examples.Data.{draws, idle}

abbrev game : TunnelConfig
game = record {
  type = bytes "TCP";
  domain = bytes "web";
  port = pos 25565;
  remote_port = pos 20002;
  private = true;
  password = [];
  allow_ips = bytes "10.0.0.7" ∷ [];
}

abbrev game_request : TunnelRequest
game_request = request_of tcp game

register_reply-handle_register_example :
    Learns idle game_request draws
      (handle_register idle (register_message game_request) 1 draws).0
      (register_reply (some (handle_register idle (register_message game_request) 1 draws).1))
register_reply-handle_register_example =
    register_reply-handle_register idle game_request 1 draws
      (new_registry-IsValid (pos 20000) (pos 20002)) fresh

abbrev pub web : Tunnel
web = record {
  id = bytes "0102030405060708";
  type = http;
  subdomain = bytes "web";
  port = pos 0;
  local_port = pos 8080;
  private = false;
  password = [];
  allow_ips = [];
  session = 1;
}

abbrev pub wide : Writer
wide = record { out = []; room = 1000 }

abbrev pub sent : Bytes
sent = (write_stream_header text wide (stream_header web)).1.out

pub short :
    (length (text.print (header_json (stream_header web))) < 2 ^ 32)
    × ((write_stream_header text wide (stream_header web)).0 ≡ true)
unfolding stream_header header_json write_stream_header write_frame put_uint32 put depth
short = (omega arith, refl)

abbrev listed : List TunnelConfig
listed = game ∷ record game { port = pos 0 } ∷ []

tunnel_requests_lem_example :
    ((listed ≡ []) × (tunnel_requests listed ≡ rejected no_tunnels))
    ⊎ ((listed ≢ []) × Lists 0 listed (tunnel_requests listed))
tunnel_requests_lem_example = tunnel_requests_lem listed

one_accepted : tunnel_requests (game ∷ []) ≡ accepted (game_request ∷ [])
unfolding tunnel_requests tunnel_requests_from tunnel_request parse_tunnel_type to_lower
    validate_tcp_flags eqb_bytes
one_accepted = refl

abbrev welcomed : Meets
welcomed = record { session = true; stream = true; written = true; reply = some auth_ok }

connect_handles-Connected_example : Connected welcomed (connect_handles welcomed)
connect_handles-Connected_example = connect_handles-Connected welcomed

abbrev drop_early : Attempt
drop_early = record { lasted = 5; cancelled = false; cancelled_in_pause = false }

serve_with_retry-InBounds_example :
    All InBounds (serve_with_retry (drop_early ∷ record drop_early { lasted = 40000000000 } ∷ []))
serve_with_retry-InBounds_example =
    serve_with_retry-InBounds (drop_early ∷ record drop_early { lasted = 40000000000 } ∷ [])

serve_with_retry-drops_example :
    serve_with_retry (drop_early ∷ drop_early ∷ []) ≡ doubling min_backoff 2
serve_with_retry-drops_example =
    serve_with_retry-drops (drop_early ∷ drop_early ∷ [])
      ((refl, refl, refl), ((refl, refl, refl), tt))

abbrev config : ClientConfig
config = record {
  control_addr = bytes "lotun.example:7000";
  token = bytes "t0ken";
  default_domain = bytes "web";
  tls = true;
  tls_insecure = false;
  tunnels = [];
}

abbrev ssh_request : TunnelRequest
ssh_request = record {
  type = tcp;
  domain = bytes "web";
  local_port = pos 22;
  remote_port = pos 0;
  private = true;
  password = [];
  allow_ips = bytes "10.0.0.7" ∷ [];
}

ssh_command :
    tcp_command (bytes "22") [] (pos 0) true (bytes "10.0.0.7" ∷ []) [] config
    ≡ accepted ssh_request
unfolding tcp_command parse_port atoi parse_unsigned parse_digits is_digit connected_config
    validate_tcp_flags eqb_bytes
ssh_command = refl

tcp_command-AsksTcp_example :
    AsksTcp (bytes "22") [] (pos 0) true (bytes "10.0.0.7" ∷ []) [] config ssh_request
tcp_command-AsksTcp_example =
    tcp_command-AsksTcp (bytes "22") [] (pos 0) true (bytes "10.0.0.7" ∷ []) [] config ssh_request
      ssh_command

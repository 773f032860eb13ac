-- ===== src/Cli/Remote.antt =====
-- The commands of cmd/lotun/commands.go that talk to a server: dial, the one-shot commands claim,
-- unclaim and status, serveOnce and runTunnel.
pub mod Dialing
pub mod Claiming
pub mod Printed
pub mod Status
pub mod Up
pub mod Registrations
pub mod Serving
use lotun.Base.{Bool, true, false, List, [], ◌∷◌, ◌++◌, Option, none, some, if◌then◌else◌, is_empty}
use lotun.Base.Bytes.{Bytes, bytes}
use lotun.Protocol.{Registered, TunnelInfo}
use lotun.Client.{
  Reply, received, broken, failed, unexpected, Remote, TunnelRequest, Options, connect_with,
  register_tunnel, claim_name, unclaim_name, list_all,
}
use lotun.Cli.{
  ClientConfig, Fault, connection_broken, said, unexpected_reply, canceled, Checked, accepted,
  rejected, tunnel_requests, print_registered,
}
use lotun.Cli.Table.{table}

-- The error that a command makes of a reply, with the words before the server's text.
abbrev pub checked_reply : {A : Type 0} → Bytes → Reply A → Checked A
checked_reply words (received a) = accepted a
checked_reply words broken = rejected connection_broken
checked_reply words (failed m) = rejected (said (words ++ m))
checked_reply words (unexpected m) = rejected (unexpected_reply m)

-- What a one-shot command makes of the reply to its call.
abbrev pub finish : {A : Type 0} → (A → Bytes) → Reply A → Checked Bytes
finish output (received a) = accepted (output a)
finish output broken = rejected connection_broken
finish output (failed m) = rejected (said m)
finish output (unexpected m) = rejected (unexpected_reply m)

abbrev pub status_output : List TunnelInfo → Bytes
status_output ts = if is_empty ts then bytes "No active tunnels.\n" else table ts

abbrev pub options_of : ClientConfig → Options
options_of c = record {
  control_addr = c.control_addr;
  token = c.token;
  use_tls = c.tls;
  tls_insecure = c.tls_insecure;
}

module _ {S : Type 0} (remote : Remote S) where
  abbrev pub checked_dial : S × Reply (Unit {0}) → S × Checked (Unit {0})
  checked_dial (s, reply) = (s, checked_reply [] reply)

  -- dial(c)
  unfoldable pub dial : ClientConfig → S → S × Checked (Unit {0})
  dial c s = checked_dial (connect_with remote (options_of c) s)

  -- The deferred Close of a one-shot command, and what it prints or returns.
  abbrev pub closing : {A : Type 0} → (A → Bytes) → S × Reply A → S × Checked Bytes
  closing output (s, reply) = (remote.hang_up s, finish output reply)

  abbrev pub if_dialed : S × Checked (Unit {0}) → (S → S × Checked Bytes) → S × Checked Bytes
  if_dialed (s, rejected e) next = (s, rejected e)
  if_dialed (s, accepted _) next = next s

  -- The body of a one-shot command behind loadConnectedConfig: dial, one call, and the output.
  unfoldable pub one_shot :
      {A : Type 0} → (S → S × Reply A) → (A → Bytes) → Checked ClientConfig → S → S × Checked Bytes
  unfolding dial
  one_shot call output loaded s = elim loaded [
    | rejected e ↦ (s, rejected e)
    | accepted cfg ↦ if_dialed (dial cfg s) (λ s₁. closing output (call s₁))
  ]

  -- `lotun claim <name>` and `lotun unclaim <name>`, given strconv.Quote.
  unfoldable pub claim_command :
      (Bytes → Bytes) → Bytes → Checked ClientConfig → S → S × Checked Bytes
  unfolding one_shot
  claim_command quote name =
      one_shot (claim_name remote name) (λ _. bytes "Claimed " ++ (quote name ++ bytes "\n"))

  unfoldable pub unclaim_command :
      (Bytes → Bytes) → Bytes → Checked ClientConfig → S → S × Checked Bytes
  unfolding one_shot
  unclaim_command quote name =
      one_shot (unclaim_name remote name) (λ _. bytes "Unclaimed " ++ (quote name ++ bytes "\n"))

  -- `lotun status`
  unfoldable pub status_command : Checked ClientConfig → S → S × Checked Bytes
  unfolding one_shot
  status_command = one_shot (list_all remote) status_output

  -- The loop of serveOnce: its output, and the error that ends it early.
  unfoldable pub register_all : List TunnelRequest → S → S × Bytes × Checked (Unit {0})
  register_all [] s = (s, [], accepted tt)
  register_all (req ∷ reqs) s =
      let (s₁, reply) = register_tunnel remote req s in
      elim (checked_reply (bytes "register failed: ") reply) [
        | rejected e ↦ (s₁, [], rejected e)
        | accepted reg ↦
            let (s₂, out, result) = register_all reqs s₁ in
            (s₂, print_registered req reg ++ out, result)
      ]

  -- The end of serveOnce, where `serve` is what happens during Serve, and its error.
  abbrev pub serve_after : (S → S × Fault) → S × Bytes × Checked (Unit {0}) → S × Bytes × Fault
  serve_after serve (s, out, rejected e) = (remote.hang_up s, out, e)
  serve_after serve (s, out, accepted _) =
      let (s', e) = serve s in
      (remote.hang_up s', out ++ bytes "Forwarding traffic. Press Ctrl-C to stop.\n", e)

  abbrev pub register_after :
      (S → S × Fault) → List TunnelRequest → S × Checked (Unit {0}) → S × Bytes × Fault
  register_after serve reqs (s, rejected e) = (s, [], e)
  register_after serve reqs (s, accepted _) = serve_after serve (register_all reqs s)

  -- serveOnce(ctx, out, cfg, reqs)
  unfoldable pub serve_once :
      (S → S × Fault) → ClientConfig → List TunnelRequest → S → S × Bytes × Fault
  serve_once serve cfg reqs s = register_after serve reqs (dial cfg s)

  -- runTunnel(cmd, cfg, req): none is nil, as after context.Canceled.
  unfoldable pub run_tunnel :
      (S → S × Fault) → ClientConfig → TunnelRequest → S → S × Bytes × Option Fault
  unfolding serve_once
  run_tunnel serve cfg req s =
      let (s', out, e) = serve_once serve cfg (req ∷ []) s in
      (s', out, elim e [ canceled ↦ none | other ↦ some other ])

-- `lotun serve`, up to its loop: the configuration and the requests that it serves.
unfoldable pub serve_command : Checked ClientConfig → Checked (ClientConfig × List TunnelRequest)
serve_command loaded = elim loaded [
  | rejected e ↦ rejected e
  | accepted cfg ↦ elim (tunnel_requests cfg.tunnels) [
    | rejected e ↦ rejected e
    | accepted reqs ↦ accepted (cfg, reqs)
  ]
]

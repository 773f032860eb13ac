-- ===== src/Examples/Runs.antt =====
-- The theorems about Run of internal/server/server.go and about cmd/lotund/main.go on an idle server.
use lotun.Base.{
  ◌≡◌, ◌≢◌, refl, true, false, List, [], ◌∷◌, none, some, All, arith, if◌then◌else◌, ◌==◌,
}
use lotun.Base.Int.{pos}
use lotun.Base.Bytes.{bytes, bytes_eq, eqb_bytes}
use lotun.Dict.{lookup, insert}
use lotun.Protocol
use lotun.Store.{save, claim, is_claimed}
use lotun.Store.Restarts.{claim_persists}
use lotun.Server.{handle_claim, store_reply, new_server}
use lotun.Running.{
  bound, refused, Running, serving_at, Turn, cancels, closes, waits_done, serves, accepts, closed,
  close_from, serve_turn, fail_serve, accept_turn, wait_turn, turn, turns, start_run,
  listen_control, Started, serving, failed,
}
use lotun.Running.Loops.{AcceptsWell}
use lotun.Running.Results.{Explains, turns-Returns}
use lotun.Running.Shutdown.{turns-ShutsDown}
use lotun.Running.Shutdown.Sweep.{IsQuiet}
use lotun.Config.{ServerConfig}
use lotun.Lotund.{Machine, run}
use lotun.Lotund.Starting.{Starts, run-Starts}
use lotun.Lotund.Restarting.{run-remembers}
use lotun.Examples.Text.{text}
use lotun.Examples.Data.{rng, draws, idle, empty_disk, no_faults, one_claim}
use lotun.Examples.Stores.{one_claim-HasValidNames, claimed_api}

abbrev serving_idle : Running
serving_idle = serving_at idle (bytes ":7000") (bytes ":8000")

-- The http server fails; Run returns that error only after a signal.
abbrev failing : List Turn
failing =
    serves (some (bytes "accept4: too many open files"))
    ∷ waits_done
    ∷ accepts false
    ∷ cancels
    ∷ closes
    ∷ accepts false
    ∷ waits_done
    ∷ []

failed_at_last :
    (turns text serving_idle failing).result ≡ some (some (bytes "accept4: too many open files"))
unfolding turns turn serve_turn fail_serve accept_turn wait_turn close_from
failed_at_last = refl

turns-Returns_example :
    let r = turns text serving_idle failing in
    (r.http_loop ≡ false)
    × (r.accept_loop ≡ false)
    × (r.http_open ≡ false)
    × Explains r failing (some (bytes "accept4: too many open files"))
    × (r.http_shut ≡ true → r.cancelled ≡ true)
    × (All AcceptsWell failing → (r.cancelled ≡ true) × (r.control_open ≡ false))
turns-Returns_example =
    turns-Returns text idle (bytes ":7000") (bytes ":8000") failing
      (some (bytes "accept4: too many open files")) failed_at_last

abbrev signal : List Turn
signal = accepts false ∷ cancels ∷ []

signalled : (turns text serving_idle signal).cancelled ≡ true
unfolding turns turn accept_turn
signalled = refl

turns-ShutsDown_example :
    let r = turns text serving_idle signal in
    let r' =
      turns text
        (turns text
          (turns text r (closes ∷ closes ∷ closes ∷ []))
          (accepts false ∷ serves none ∷ []))
        (waits_done ∷ []) in
    (r'.result ≡ some r'.errc)
    × (r'.closer ≡ closed)
    × (r'.control_open ≡ false)
    × (r'.http_open ≡ false)
    × (r.closer ≢ closed
        → All IsQuiet (closes ∷ closes ∷ closes ∷ [])
          × All IsQuiet (accepts false ∷ serves none ∷ [])
          × All IsQuiet (waits_done ∷ [])
        → r'.server.listeners ≡ [])
turns-ShutsDown_example =
    turns-ShutsDown text idle (bytes ":7000") (bytes ":8000") signal (closes ∷ closes ∷ closes ∷ [])
      (accepts false ∷ serves none ∷ []) (waits_done ∷ []) signalled (omega arith) (omega arith)
      (omega arith) (omega arith)

abbrev config : ServerConfig
config = record {
  control_addr = bytes ":7000";
  control_tls_cert = [];
  control_tls_key = [];
  http_addr = bytes ":8000";
  base_domain = bytes "lvh.me";
  tcp_port_min = pos 20000;
  tcp_port_max = pos 20002;
  token = bytes "t0ken";
  data_dir = bytes "./data";
}

abbrev machine : Machine
machine = record {
  mkdir = none;
  disk = empty_disk;
  unreadable = false;
  open_error = [];
  sockets = record {
    key_pair_error = none;
    control = bound (bytes "[::]:7000");
    http = refused (bytes "address already in use");
  };
  rng = rng;
}

run-Starts_example : Starts text config machine (run text config machine)
run-Starts_example = run-Starts text config machine

granted : (handle_claim text idle (bytes "api") draws).1 ≡ some Protocol.ok
unfolding handle_claim claim is_claimed lookup eqb_bytes save insert store_reply
granted = refl

-- The machine after that claim, on which both listeners bind.
abbrev restarted : Machine
restarted = record machine {
  disk = (handle_claim text idle (bytes "api") draws).0.disk;
  sockets = record machine.sockets { http = bound (bytes "[::]:8000") };
}

abbrev running : Started → Running
running (serving r) = r
running (failed e open_still) = serving_idle

serves_again : run text config restarted ≡ serving (running (run text config restarted))
unfolding run new_server start_run listen_control eqb_bytes handle_claim
serves_again =
    let (t, opened, known) =
      claim_persists text (bytes "api") no_faults one_claim empty_disk one_claim-HasValidNames refl
        claimed_api in
    rw (opened, run) refl

run-remembers_example :
    is_claimed (running (run text config restarted)).server.store (bytes "web")
    ≡ (if bytes "api" == bytes "web" then true else is_claimed idle.store (bytes "web"))
run-remembers_example =
    run-remembers text idle (bytes "api") draws config restarted
      (running (run text config restarted)) one_claim-HasValidNames refl granted refl refl
      serves_again (bytes "web")

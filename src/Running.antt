-- ===== src/Running.antt =====
-- internal/server/server.go: Run, from its listeners to its return, turn by turn of its goroutines,
-- with listenControl, acceptControl, ControlAddr and HTTPAddr.
pub mod Loops
pub mod Results
pub mod Shutdown
use lotun.Base.{
  ℕ, suc, ◌+◌, Bool, true, false, not, ◌&&◌, ◌||◌, List, [], ◌∷◌, ◌++◌, Option, none, some,
  if◌then◌else◌, ◌==◌,
}
use lotun.Base.Bytes.{Bytes, bytes, bytes_eq}
use lotun.Json.{JsonText}
use lotun.Protocol.{Message}
use lotun.Server.{Server, Draws, end_session, close_all_tcp}
use lotun.Server.Control.{dispatch}

-- What net.Listen and tls.Listen give: a listener and the address that it is bound to, or an error.
pub data Listen : Type 0 where
  bound : Bytes → Listen
  refused : Bytes → Listen

-- What the system answers while Run starts: the error of tls.LoadX509KeyPair, if any, and the two
-- listeners.
pub record Sockets : Type 0 where
  pub key_pair_error : Option Bytes
  pub control : Listen
  pub http : Listen

-- listenControl(), given cfg.ControlTLSCert.
unfoldable pub listen_control : Bytes → Sockets → Listen
listen_control cert w =
    if not (cert == [])
    then elim w.key_pair_error [ some e ↦ refused e | none ↦ w.control ]
    else w.control

-- The goroutine that waits for the cancellation, before each of its calls.
pub data Closer : Type 0 where
  waits closes_http closes_tcp closed : Closer

-- Run behind its two listeners. `http_loop` and `accept_loop` tell whether Serve and acceptControl
-- still run, `http_shut` whether httpSrv.Close was called, `errc` is the channel, `handlers` counts
-- the calls of handleControlConn, and `result` is what Run has returned.
pub record Running : Type 0 where
  pub server : Server
  pub ctrl_addr : Bytes
  pub http_addr : Bytes
  pub cancelled : Bool
  pub closer : Closer
  pub control_open : Bool
  pub http_open : Bool
  pub http_shut : Bool
  pub http_loop : Bool
  pub accept_loop : Bool
  pub errc : Option Bytes
  pub handlers : ℕ
  pub result : Option (Option Bytes)

-- How Run starts: it serves, or it returns an error and leaves listeners open or not.
pub data Started : Type 0 where
  serving : Running → Started
  failed : Bytes → Bool → Started

abbrev pub serving_at : Server → Bytes → Bytes → Running
serving_at s ctrl http = record {
  server = s;
  ctrl_addr = ctrl;
  http_addr = http;
  cancelled = false;
  closer = waits;
  control_open = true;
  http_open = true;
  http_shut = false;
  http_loop = true;
  accept_loop = true;
  errc = none;
  handlers = 0;
  result = none;
}

unfoldable pub start_run : Server → Bytes → Sockets → Started
unfolding listen_control
start_run s cert w = elim (listen_control cert w) [
  | refused e ↦ failed (bytes "server: control listen: " ++ e) false
  | bound ctrl ↦ elim w.http [
    | refused e ↦ failed (bytes "server: http listen: " ++ e) false
    | bound http ↦ serving (serving_at s ctrl http)
  ]
]

-- One turn: the context is cancelled; the goroutine of the cancellation makes its next call; Serve
-- goes on or meets an error; Accept gives a connection or an error; a control connection handles a
-- message or ends; Run looks whether its goroutines are done.
pub data Turn : Type 0 where
  cancels closes waits_done : Turn
  serves : Option Bytes → Turn
  accepts : Bool → Turn
  handles : ℕ → Message → Draws → Turn
  hangs_up : ℕ → Turn

unfoldable pub close_from : Closer → Running → Running
close_from waits r =
    if r.cancelled then record r { control_open = false; closer = closes_http } else r
close_from closes_http r = record r { http_shut = true; http_open = false; closer = closes_tcp }
close_from closes_tcp r = record r { server = close_all_tcp r.server; closer = closed }
close_from closed r = r

abbrev pub close_turn : Running → Running
close_turn r = close_from r.closer r

-- httpSrv.Serve(httpLn), which closes its listener when it ends; ErrServerClosed is no error.
unfoldable pub fail_serve : Option Bytes → Running → Running
fail_serve none r = r
fail_serve (some e) r = record r { http_loop = false; http_open = false; errc = some e }

unfoldable pub serve_turn : Option Bytes → Running → Running
unfolding fail_serve
serve_turn failure r =
    if not r.http_loop
    then r
    else (if r.http_shut
        then record r { http_loop = false; http_open = false }
        else fail_serve failure r)

-- acceptControl: Accept fails on a closed listener, and may fail on an open one.
unfoldable pub accept_turn : Bool → Running → Running
accept_turn fails r =
    if not r.accept_loop
    then r
    else (if fails || not r.control_open
        then record r { accept_loop = false }
        else record r { handlers = suc r.handlers })

-- wg.Wait(), and what Run reads from errc then.
unfoldable pub wait_turn : Running → Running
wait_turn r = if r.http_loop || r.accept_loop then r else record r { result = some r.errc }

module _ (json : JsonText) where
  unfoldable pub turn : Running → Turn → Running
  unfolding close_from serve_turn accept_turn wait_turn
  turn r cancels = record r { cancelled = true }
  turn r closes = close_turn r
  turn r (serves failure) = serve_turn failure r
  turn r (accepts fails) = accept_turn fails r
  turn r (handles sess m w) = record r { server = (dispatch json r.server sess m w).0 }
  turn r (hangs_up sess) = record r { server = end_session r.server sess }
  turn r waits_done = wait_turn r

  unfoldable pub turns : Running → List Turn → Running
  unfolding turn
  turns r [] = r
  turns r (t ∷ ts) = turns (turn r t) ts

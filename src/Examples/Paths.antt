-- ===== src/Examples/Paths.antt =====
-- The theorems about internal/server/tcp.go and the two ends of a data stream on concrete
-- connections.
use lotun.Base.{◌≡◌, refl, true, false, List, [], ◌∷◌, Option, none, some, arith}
use lotun.Base.Int.{pos}
use lotun.Base.Bytes.{Bytes, bytes, bytes_eq, eqb_bytes}
use lotun.Splice.{Conn, close, side_a, side_b}
use lotun.DataPath.{
  at_server, at_client, Event, peer_sends, peer_ends, turns, carries, carries_end, run, open_path,
}
use lotun.DataPath.Link.{Arrives}
use lotun.DataPath.Delivery.{source, target, carried}
use lotun.DataPath.Opening.{opened, whole_at, open_path-Arrives}
use lotun.DataPath.Accepting.{Visitor, accept_all, accepting, accept_all-Sorts}
use mathlib.Core.List.{append-nil}
use lotun.Examples.Text.{text, any_string-IsText}
use lotun.Examples.Clients.{web, wide, sent, short}
use lotun.Examples.Splices.{tcp_conn, stream}
use lotun.Examples.Access.{ssh, one_port, one_port-IsValid, one_port-ssh}

abbrev dials_all : Bytes → Option Conn
dials_all addr = some tcp_conn

-- The visitor sends a request and ends its stream; it reaches the local service in two parts.
abbrev request : List Event
request =
    peer_sends at_server (bytes "ping")
    ∷ peer_ends at_server
    ∷ turns at_server side_b 9 false
    ∷ turns at_server side_b 0 false
    ∷ carries at_server 3
    ∷ turns at_client side_a 9 false
    ∷ turns at_client side_a 0 false
    ∷ turns at_server side_b 0 false
    ∷ turns at_server side_b 0 false
    ∷ carries at_server 9
    ∷ carries_end at_server
    ∷ turns at_client side_a 9 false
    ∷ []

open_path-Arrives_example :
    let p = opened sent tcp_conn stream tcp_conn stream in
    let q = run p request in
    (open_path text web (some wide) (sent ∷ []) dials_all tcp_conn stream stream ≡ some p)
    × Arrives
        (whole_at at_server p request)
        (carried at_server q)
        (source at_server q)
        (target at_server q)
open_path-Arrives_example =
    open_path-Arrives text web wide (sent ∷ []) dials_all tcp_conn stream tcp_conn stream at_server
      request (any_string-IsText _) (omega arith, omega arith) short.0 short.1 refl
      (append-nil sent) refl (refl, refl, refl) ((refl, refl, refl), refl, refl, refl)
      (refl, refl, refl) ((refl, refl, refl), refl, refl, refl)
      (tt, (tt, (refl, (refl, (tt, (refl, (refl, (refl, (refl, (tt, (tt, (refl, tt))))))))))))

abbrev friend : Visitor
friend = record { ip = bytes "10.0.0.7"; port = bytes "5000"; conn = tcp_conn }

abbrev stranger : Visitor
stranger = record friend { ip = bytes "10.0.0.8" }

accept_all-Sorts_example :
    accept_all ssh accepting (
      some (bytes "10.0.0.8:5000", tcp_conn)
      ∷ some (bytes "10.0.0.7:5000", tcp_conn)
      ∷ none
      ∷ some (bytes "10.0.0.7:5000", tcp_conn)
      ∷ [])
    ≡ (record { handed = tcp_conn ∷ []; refused = close tcp_conn ∷ []; returned = true })
unfolding eqb_bytes
accept_all-Sorts_example =
    accept_all-Sorts one_port (pos 20001) ssh one_port-IsValid one_port-ssh (stranger ∷ friend ∷ [])
      (some (bytes "10.0.0.7:5000", tcp_conn) ∷ [])
      (((refl, refl, refl), (refl, refl, refl)), (((refl, refl, refl), (refl, refl, refl)), tt))

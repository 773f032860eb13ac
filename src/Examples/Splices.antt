-- ===== src/Examples/Splices.antt =====
-- The theorems about internal/netutil/splice.go on a TCP connection and a stream of yamux.
use lotun.Base.{refl, true, false, List, [], ◌∷◌, All, arith}
use lotun.Base.Bytes.{bytes}
use lotun.Splice.{Conn, Splice, side_a, side_b, Event, sends, ends, copies, start, run, HasReturned}
use lotun.Splice.Delivery.{IsHealthy, Delivers, whole_for, run-Delivers}
use lotun.Splice.Ending.{run-HasReturned}

abbrev pub tcp_conn : Conn
tcp_conn = record {
  half_closer = true;
  close_keeps_reads = false;
  arrived = [];
  ended = false;
  sent = [];
  write_open = true;
  read_open = true;
}

abbrev pub stream : Conn
stream = record tcp_conn { half_closer = false; close_keeps_reads = true }

-- A visitor sends a request and ends its stream before the reply comes.
abbrev visit : List Event
visit =
    sends side_a (bytes "ping")
    ∷ ends side_a
    ∷ copies side_b 2 false
    ∷ copies side_b 0 false
    ∷ copies side_b 9 false
    ∷ copies side_b 0 false
    ∷ copies side_b 0 false
    ∷ copies side_b 0 false
    ∷ sends side_b (bytes "pong")
    ∷ copies side_a 9 false
    ∷ copies side_a 0 false
    ∷ []

visit-IsHealthy : All IsHealthy visit
visit-IsHealthy =
    (tt, (tt, (refl, (refl, (refl, (refl, (refl, (refl, (tt, (refl, (refl, tt)))))))))))

run-Delivers_example :
    Delivers side_a
      (whole_for side_a (start tcp_conn stream) visit)
      (run (start tcp_conn stream) visit)
run-Delivers_example =
    run-Delivers tcp_conn stream visit side_a (refl, refl, refl) (refl, refl, refl) visit-IsHealthy

-- Both peers have ended their streams, and one byte waits on each side.
abbrev ending : Splice
ending =
    start (record tcp_conn { ended = true; arrived = 1 ∷ [] })
      (record stream { ended = true; arrived = 2 ∷ [] })

-- Four turns of each goroutine, the last reads of which fail.
abbrev turns_left : List Event
turns_left =
    copies side_a 0 false
    ∷ copies side_b 0 false
    ∷ copies side_b 0 false
    ∷ copies side_b 0 true
    ∷ copies side_b 0 false
    ∷ copies side_a 0 false
    ∷ copies side_a 0 true
    ∷ copies side_a 0 false
    ∷ []

run-HasReturned_example : HasReturned (run ending turns_left)
run-HasReturned_example = run-HasReturned ending turns_left (refl, refl) (omega arith) (omega arith)

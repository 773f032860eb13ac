-- ===== src/Splice.antt =====
-- internal/netutil/splice.go: Splice and copyThenHalfClose, turn by turn of the two goroutines and of
-- the peers of the two connections.
pub mod Flow
pub mod Delivery
pub mod Ending
use lotun.Base.{
  ℕ, suc, ◌+◌, ◌*◌, ◌≡◌, Bool, true, false, not, ◌&&◌, ◌||◌, List, [], ◌∷◌, ◌++◌, if◌then◌else◌,
  is_empty, length, take, drop,
}
use lotun.Base.Bytes.{Bytes}

-- A net.Conn. Its peer has sent `arrived`, which nobody has read yet, and has `ended` its stream or
-- not; `sent` is what was written to it. `half_closer` tells whether it has CloseWrite, and
-- `close_keeps_reads` whether it can still be read after Close.
pub record Conn : Type 0 where
  pub half_closer : Bool
  pub close_keeps_reads : Bool
  pub arrived : Bytes
  pub ended : Bool
  pub sent : Bytes
  pub write_open : Bool
  pub read_open : Bool

-- Where copyThenHalfClose is: about to read, about to write what it has read, behind io.Copy, or at
-- its end.
pub data Copy : Type 0 where
  reading : Copy
  writing : Bytes → Copy
  copied returned : Copy

unfoldable pub close : Conn → Conn
close c = record c { write_open = false; read_open = c.read_open && c.close_keeps_reads }

-- What follows io.Copy.
unfoldable pub half_close : Conn → Conn
unfolding close
half_close dst = if dst.half_closer then record dst { write_open = false } else close dst

-- One turn of copyThenHalfClose(dst, src): a Read of at most `size` + 1 bytes, a Write, or what
-- follows. Where a system call `fails`, at most `size` bytes were written. A Read of a silent peer
-- waits.
unfoldable pub copy_turn : ℕ → Bool → Copy → Conn → Conn → Copy × Conn × Conn
unfolding half_close
copy_turn size fails reading dst src =
    if fails || not src.read_open
    then (copied, dst, src)
    else (if is_empty src.arrived then (if src.ended then copied else reading, dst, src) else (
      writing (take (suc size) src.arrived),
      dst,
      record src { arrived = drop (suc size) src.arrived },
    ))
copy_turn size fails (writing chunk) dst src =
    if not dst.write_open
    then (copied, dst, src)
    else (if fails
        then (copied, record dst { sent = dst.sent ++ take size chunk }, src)
        else (reading, record dst { sent = dst.sent ++ chunk }, src))
copy_turn size fails copied dst src = (returned, half_close dst, src)
copy_turn size fails returned dst src = (returned, dst, src)

-- Splice(a, b): the goroutine that copies to `a`, and the one that copies to `b`.
pub record Splice : Type 0 where
  pub a : Conn
  pub b : Conn
  pub to_a : Copy
  pub to_b : Copy

pub data Side : Type 0 where
  side_a side_b : Side

-- Splice(a, b) as it begins.
abbrev pub start : Conn → Conn → Splice
start a b = record { a = a; b = b; to_a = reading; to_b = reading }

-- A peer sends or ends its stream, or the goroutine that copies to a side takes a turn.
pub data Event : Type 0 where
  sends : Side → Bytes → Event
  ends : Side → Event
  copies : Side → ℕ → Bool → Event

-- A peer that has ended its stream sends no more.
unfoldable pub arrive : Bytes → Conn → Conn
arrive bs c = if c.ended then c else record c { arrived = c.arrived ++ bs }

abbrev pub end_stream : Conn → Conn
end_stream c = record c { ended = true }

unfoldable pub step : Splice → Event → Splice
step s (sends side_a bs) = record s { a = arrive bs s.a }
step s (sends side_b bs) = record s { b = arrive bs s.b }
step s (ends side_a) = record s { a = end_stream s.a }
step s (ends side_b) = record s { b = end_stream s.b }
step s (copies side_a size fails) =
    let (copy, dst, src) = copy_turn size fails s.to_a s.a s.b in
    record s { to_a = copy; a = dst; b = src }
step s (copies side_b size fails) =
    let (copy, dst, src) = copy_turn size fails s.to_b s.b s.a in
    record s { to_b = copy; b = dst; a = src }

unfoldable pub run : Splice → List Event → Splice
unfolding step
run s [] = s
run s (e ∷ es) = run (step s e) es

-- Splice returns once both goroutines have.
abbrev pub HasReturned : Splice → Type 0
HasReturned s = (s.to_a ≡ returned) × (s.to_b ≡ returned)

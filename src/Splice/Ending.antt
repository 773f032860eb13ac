-- ===== src/Splice/Ending.antt =====
-- That Splice of internal/netutil/splice.go returns.
use lotun.Base.{
  ℕ, zero, suc, ◌+◌, ◌-◌, ◌*◌, ◌≤◌, Bool, true, false, ◌≡◌, refl, List, [], ◌∷◌, arith, length,
  drop, is_empty,
}
use lotun.Base.Bytes.{Bytes}
use lotun.Splice.{
  Conn, Copy, reading, writing, copied, returned, close, half_close, copy_turn, Splice, Side,
  side_a, side_b, Event, sends, ends, copies, arrive, step, run, HasReturned,
}

-- The turns that copyThenHalfClose still needs once the peer of `src` has ended.
abbrev pub work : Copy → Conn → ℕ
work reading src = 2 + length src.arrived * 2
work (writing chunk) src = 3 + length src.arrived * 2
work copied src = 1
work returned src = 0

length-drop :
    (n : ℕ) (xs : Bytes) → is_empty xs ≡ false → suc (length (drop (suc n) xs)) ≤ length xs
length-drop n [] h = absurd cc
length-drop zero (x ∷ xs) h = omega arith
length-drop (suc n) (x ∷ []) h = omega arith
length-drop (suc n) (x ∷ y ∷ ys) h = omega (arith, length-drop n (y ∷ ys) refl)

-- A turn does one unit of the work, and leaves that of the other goroutine alone.
copy_turn-work :
    (size : ℕ) (fails : Bool) (copy : Copy) (dst src : Conn)
    → src.ended ≡ true
    → let (copy', dst', src') = copy_turn size fails copy dst src in
      (work copy' src' ≤ work copy src - 1)
      × (src'.ended ≡ true)
      × (dst'.ended ≡ dst.ended)
      × (dst'.arrived ≡ dst.arrived)
unfolding copy_turn half_close close
copy_turn-work size fails reading dst src e = ground (arith, length-drop size src.arrived)
copy_turn-work size fails (writing chunk) dst src e = ground arith
copy_turn-work size fails copied dst src e = ground arith
copy_turn-work size fails returned dst src e = ground arith

-- How often the goroutine that copies to a side takes a turn.
abbrev pub is_turn : Side → Event → ℕ
is_turn side_a (copies side_a size fails) = 1
is_turn side_b (copies side_b size fails) = 1
is_turn side e = 0

abbrev pub turns : Side → List Event → ℕ
turns side [] = 0
turns side (e ∷ es) = is_turn side e + turns side es

-- Both peers have ended their streams.
abbrev pub BothEnded : Splice → Type 0
BothEnded s = (s.a.ended ≡ true) × (s.b.ended ≡ true)

step-work :
    (s : Splice) (e : Event)
    → BothEnded s
    → let s' = step s e in
      BothEnded s'
      × (work s'.to_a s'.b ≤ work s.to_a s.b - is_turn side_a e)
      × (work s'.to_b s'.a ≤ work s.to_b s.a - is_turn side_b e)
unfolding step arrive
step-work s (sends side_a bs) (ea, eb) = ground arith
step-work s (sends side_b bs) (ea, eb) = ground arith
step-work s (ends side_a) (ea, eb) = ground arith
step-work s (ends side_b) (ea, eb) = ground arith
step-work s (copies side_a size fails) (ea, eb) =
    let (less, still, dst_ended, dst_arrived) = copy_turn-work size fails s.to_a s.a s.b eb in
    ground (arith, less)
step-work s (copies side_b size fails) (ea, eb) =
    let (less, still, dst_ended, dst_arrived) = copy_turn-work size fails s.to_b s.b s.a ea in
    ground (arith, less)

run-work :
    (s : Splice) (es : List Event)
    → BothEnded s
    → let s' = run s es in
      (work s'.to_a s'.b ≤ work s.to_a s.b - turns side_a es)
      × (work s'.to_b s'.a ≤ work s.to_b s.a - turns side_b es)
unfolding run
run-work s [] ended = (omega arith, omega arith)
run-work s (e ∷ es) ended =
    let (ended', less_a, less_b) = step-work s e ended in
    let (rest_a, rest_b) = run-work (step s e) es ended' in
    (omega (arith, less_a, rest_a), omega (arith, less_b, rest_b))

no_work : (copy : Copy) (src : Conn) → work copy src ≤ 0 → copy ≡ returned
no_work reading src h = absurd (omega arith)
no_work (writing chunk) src h = absurd (omega arith)
no_work copied src h = absurd (omega arith)
no_work returned src h = refl

-- Once both peers have ended their streams, Splice returns whatever its goroutines meet, errors
-- of the system included, in every order of turns in which each goroutine gets the turns that its
-- place and the bytes that wait for it need: two for each byte, and three.
pub run-HasReturned :
    (s : Splice) (es : List Event)
    → BothEnded s
    → work s.to_a s.b ≤ turns side_a es
    → work s.to_b s.a ≤ turns side_b es
    → HasReturned (run s es)
run-HasReturned s es ended enough_a enough_b =
    let (left_a, left_b) = run-work s es ended in
    let t = run s es in (no_work t.to_a t.b (omega arith), no_work t.to_b t.a (omega arith))

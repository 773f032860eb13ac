-- ===== src/Running/Shutdown/Progress.antt =====
-- How far the goroutines of Run of internal/server/server.go are from their ends.
use lotun.Base.{
  ℕ, ◌+◌, ◌-◌, ◌≤◌, Bool, true, false, ◌≡◌, refl, ap, ◌∙◌, inl, inr, List, [], ◌∷◌, Option, none,
  some, arith, if◌then◌else◌, Option-cases,
}
use lotun.Base.Bytes.{Bytes}
use lotun.Json.{JsonText}
use lotun.Base.Int.{int_eq}
use lotun.Running.{
  Closer, waits, closes_http, closes_tcp, closed, Running, Turn, cancels, closes, waits_done,
  serves, accepts, handles, hangs_up, close_from, fail_serve, serve_turn, accept_turn, wait_turn,
  turn, turns,
}
use lotun.Running.Loops.{IsRun}

-- The calls that the goroutine of the cancellation has before it.
abbrev pub calls_left : Closer → ℕ
calls_left waits = 3
calls_left closes_http = 2
calls_left closes_tcp = 1
calls_left closed = 0

-- How often a turn is that of a goroutine.
abbrev pub is_closes : Turn → ℕ
is_closes closes = 1
is_closes t = 0

abbrev pub is_serves : Turn → ℕ
is_serves (serves failure) = 1
is_serves t = 0

abbrev pub is_accepts : Turn → ℕ
is_accepts (accepts fails) = 1
is_accepts t = 0

abbrev pub is_waits : Turn → ℕ
is_waits waits_done = 1
is_waits t = 0

abbrev pub count : (Turn → ℕ) → List Turn → ℕ
count which [] = 0
count which (t ∷ ts) = which t + count which ts

close_from-calls :
    (c : Closer) (r : Running)
    → r.cancelled ≡ true
    → r.closer ≡ c
    → calls_left (close_from c r).closer ≤ calls_left c - 1
unfolding close_from
close_from-calls waits r on e = ground arith
close_from-calls closes_http r on e = omega arith
close_from-calls closes_tcp r on e = omega arith
close_from-calls closed r on e = ground arith

close_from-shut :
    (c : Closer) (r : Running)
    → let r' = close_from c r in
      (r.cancelled ≡ true → r'.cancelled ≡ true)
      × (r.control_open ≡ false → r'.control_open ≡ false)
      × (r.http_shut ≡ true → r'.http_shut ≡ true)
unfolding close_from
close_from-shut waits r = ground arith
close_from-shut closes_http r = ground arith
close_from-shut closes_tcp r = ground arith
close_from-shut closed r = ground arith

close_from-loops :
    (c : Closer) (r : Running)
    → let r' = close_from c r in
      (r'.http_loop ≡ r.http_loop) × (r'.accept_loop ≡ r.accept_loop) × (r'.result ≡ r.result)
unfolding close_from
close_from-loops waits r = ground arith
close_from-loops closes_http r = ground arith
close_from-loops closes_tcp r = ground arith
close_from-loops closed r = ground arith

abbrev pub flag_of : Bool → ℕ
flag_of b = if b then 1 else 0

abbrev pub pending : Option (Option Bytes) → ℕ
pending none = 1
pending (some x) = 0

pub no_calls : (c : Closer) → calls_left c ≤ 0 → c ≡ closed
no_calls waits h = absurd (omega arith)
no_calls closes_http h = absurd (omega arith)
no_calls closes_tcp h = absurd (omega arith)
no_calls closed h = refl

pub calls-le : (c : Closer) → calls_left c ≤ 3
calls-le waits = omega arith
calls-le closes_http = omega arith
calls-le closes_tcp = omega arith
calls-le closed = omega arith

no_one : 1 ≤ 0 → ⊥
no_one h = omega arith

pub pending-result : (r : Running) → pending r.result ≤ 0 → IsRun r → r.result ≡ some r.errc
pending-result r h v = elim (Option-cases r.result) [
  | inl none_yet ↦ absurd (no_one (rw none_yet at h))
  | inr (x, e) ↦ e ∙ ap some (v.7 x e).2
]

pub closed-IsShut :
    (r : Running)
    → r.cancelled ≡ true
    → IsRun r
    → r.closer ≡ closed
    → (r.control_open ≡ false) × (r.http_shut ≡ true)
closed-IsShut r on v e = (v.0 (λ w. cc), v.3 e)

pub flag-off : (b : Bool) → flag_of b ≤ 0 → b ≡ false
flag-off true h = absurd (omega arith)
flag-off false h = refl

pub flag-le : (b : Bool) → flag_of b ≤ 1
flag-le true = omega arith
flag-le false = omega arith

pub pending-le : (x : Option (Option Bytes)) → pending x ≤ 1
pending-le none = omega arith
pending-le (some x) = omega arith

module _ (json : JsonText) where
  turn-calls :
      (r : Running) (t : Turn)
      → r.cancelled ≡ true
      → calls_left (turn json r t).closer ≤ calls_left r.closer - is_closes t
  unfolding turn accept_turn serve_turn fail_serve wait_turn
  turn-calls r cancels on = ground arith
  turn-calls r closes on = close_from-calls r.closer r on refl
  turn-calls r (serves none) on = ground arith
  turn-calls r (serves (some e)) on = ground arith
  turn-calls r (accepts fails) on = ground arith
  turn-calls r (handles sess m w) on = ground arith
  turn-calls r (hangs_up sess) on = ground arith
  turn-calls r waits_done on = ground arith

  -- Both listeners are closed for good.
  abbrev pub IsShut : Running → Type 0
  IsShut r = (r.cancelled ≡ true) × (r.control_open ≡ false) × (r.http_shut ≡ true)

  cancelled-turn : (r : Running) (t : Turn) → r.cancelled ≡ true → (turn json r t).cancelled ≡ true
  unfolding turn accept_turn serve_turn fail_serve wait_turn
  cancelled-turn r cancels on = refl
  cancelled-turn r closes on = (close_from-shut r.closer r).0 on
  cancelled-turn r (serves none) on = ground arith
  cancelled-turn r (serves (some e)) on = ground arith
  cancelled-turn r (accepts fails) on = ground arith
  cancelled-turn r (handles sess m w) on = on
  cancelled-turn r (hangs_up sess) on = on
  cancelled-turn r waits_done on = ground arith

  turn-IsShut : (r : Running) (t : Turn) → IsShut r → IsShut (turn json r t)
  unfolding turn accept_turn serve_turn fail_serve wait_turn
  turn-IsShut r cancels h = ground arith
  turn-IsShut r closes h =
      let (on, control, http) = close_from-shut r.closer r in (on h.0, control h.1, http h.2)
  turn-IsShut r (serves none) h = ground arith
  turn-IsShut r (serves (some e)) h = ground arith
  turn-IsShut r (accepts fails) h = ground arith
  turn-IsShut r (handles sess m w) h = h
  turn-IsShut r (hangs_up sess) h = h
  turn-IsShut r waits_done h = ground arith

  -- The loops that still run.
  turn-loops :
      (r : Running) (t : Turn)
      → IsShut r
      → (flag_of (turn json r t).http_loop ≤ flag_of r.http_loop - is_serves t)
        × (flag_of (turn json r t).accept_loop ≤ flag_of r.accept_loop - is_accepts t)
  unfolding turn accept_turn serve_turn fail_serve wait_turn
  turn-loops r cancels h = ground arith
  turn-loops r closes h = ground (arith, close_from-loops r.closer r)
  turn-loops r (serves none) h = ground arith
  turn-loops r (serves (some e)) h = ground arith
  turn-loops r (accepts fails) h = ground arith
  turn-loops r (handles sess m w) h = ground arith
  turn-loops r (hangs_up sess) h = ground arith
  turn-loops r waits_done h = ground arith

  pub turns-calls :
      (r : Running) (ts : List Turn)
      → r.cancelled ≡ true
      → (calls_left (turns json r ts).closer ≤ calls_left r.closer - count is_closes ts)
        × ((turns json r ts).cancelled ≡ true)
  unfolding turns
  turns-calls r [] on = (omega arith, on)
  turns-calls r (t ∷ ts) on =
      let (rest, still) = turns-calls (turn json r t) ts (cancelled-turn r t on) in
      (omega (arith, turn-calls r t on, rest), still)

  pub turns-loops :
      (r : Running) (ts : List Turn)
      → IsShut r
      → let r' = turns json r ts in
        IsShut r'
        × (flag_of r'.http_loop ≤ flag_of r.http_loop - count is_serves ts)
        × (flag_of r'.accept_loop ≤ flag_of r.accept_loop - count is_accepts ts)
  unfolding turns
  turns-loops r [] h = (h, omega arith, omega arith)
  turns-loops r (t ∷ ts) h =
      let (still, http, accept) = turns-loops (turn json r t) ts (turn-IsShut r t h) in
      let (less_http, less_accept) = turn-loops r t h in
      (still, omega (arith, less_http, http), omega (arith, less_accept, accept))

  turn-result :
      (r : Running) (t : Turn)
      → r.http_loop ≡ false
      → r.accept_loop ≡ false
      → pending (turn json r t).result ≤ pending r.result - is_waits t
  unfolding turn accept_turn serve_turn fail_serve wait_turn
  turn-result r cancels http accept = ground arith
  turn-result r closes http accept = ground (arith, close_from-loops r.closer r)
  turn-result r (serves none) http accept = ground arith
  turn-result r (serves (some e)) http accept = ground arith
  turn-result r (accepts fails) http accept = ground arith
  turn-result r (handles sess m w) http accept = ground arith
  turn-result r (hangs_up sess) http accept = ground arith
  turn-result r waits_done http accept = ground arith

  pub turns-result :
      (r : Running) (ts : List Turn)
      → IsShut r
      → r.http_loop ≡ false
      → r.accept_loop ≡ false
      → pending (turns json r ts).result ≤ pending r.result - count is_waits ts
  unfolding turns
  turns-result r [] h http accept = omega arith
  turns-result r (t ∷ ts) h http accept =
      let (http_less, accept_less) = turn-loops r t h in
      let rest =
        turns-result (turn json r t) ts (turn-IsShut r t h) (ground arith) (ground arith) in
      omega (arith, turn-result r t http accept, rest)

-- ===== src/Client/Serving.antt =====
-- Serve of internal/client/client.go, turn by turn of its loop and of the goroutine that waits for
-- the cancellation.
use lotun.Base.{
  ℕ, suc, Bool, true, false, ◌≡◌, refl, ◌∙◌, ◌⊎◌, inl, inr, List, [], ◌∷◌, ◌++◌, Option, none, some,
  arith, if◌then◌else◌,
}
use lotun.Base.Bytes.{Bytes, bytes}

-- The error that Serve returns: ctx.Err(), or that of Accept.
pub data ServeError : Type 0 where
  canceled : ServeError
  dropped : Bytes → ServeError

-- Whether the context is cancelled and the session open, how many streams were handed to
-- handleStream, and what Serve has returned.
pub record Serving : Type 0 where
  pub cancelled : Bool
  pub sess_open : Bool
  pub streams : ℕ
  pub result : Option ServeError

-- The context is cancelled; the goroutine behind ctx.Done() closes the session; Accept gives a stream
-- or an error.
pub data Turn : Type 0 where
  cancels closes : Turn
  accepts : Option Bytes → Turn

abbrev pub start : Serving
start = record { cancelled = false; sess_open = true; streams = 0; result = none }

-- The return of the loop at an error of Accept.
abbrev pub fail : Bytes → Serving → Serving
fail e s = record s { result = some (if s.cancelled then canceled else dropped e) }

unfoldable pub accept_turn : Option Bytes → Serving → Serving
accept_turn (some e) s = fail e s
accept_turn none s =
    if s.sess_open then record s { streams = suc s.streams } else fail (bytes "session shutdown") s

abbrev pub is_over : Option ServeError → Bool
is_over none = false
is_over (some e) = true

unfoldable pub turn : Serving → Turn → Serving
unfolding accept_turn
turn s cancels = record s { cancelled = true }
turn s closes = if s.cancelled then record s { sess_open = false } else s
turn s (accepts failure) = if is_over s.result then s else accept_turn failure s

unfoldable pub turns : Serving → List Turn → Serving
unfolding turn
turns s [] = s
turns s (t ∷ ts) = turns (turn s t) ts

abbrev pub Occurs : Turn → List Turn → Type 0
Occurs t [] = ⊥
Occurs t (u ∷ us) = (u ≡ t) ⊎ Occurs t us

-- How many streams Accept gives in a run.
abbrev pub given : List Turn → ℕ
given [] = 0
given (accepts none ∷ ts) = suc (given ts)
given (t ∷ ts) = given ts

-- The session is closed, and Serve ends with ctx.Err(), only after a cancellation.
abbrev IsServing : Serving → Type 0
IsServing s =
    (s.sess_open ≡ false → s.cancelled ≡ true) × (s.result ≡ some canceled → s.cancelled ≡ true)

start-IsServing : IsServing start
start-IsServing = ground arith

turn-IsServing : (s : Serving) (t : Turn) → IsServing s → IsServing (turn s t)
unfolding turn accept_turn
turn-IsServing s cancels h = ground arith
turn-IsServing s closes h = ground arith
turn-IsServing s (accepts none) h = ground arith
turn-IsServing s (accepts (some e)) h = ground arith

turns-IsServing : (s : Serving) (ts : List Turn) → IsServing s → IsServing (turns s ts)
unfolding turns
turns-IsServing s [] h = h
turns-IsServing s (t ∷ ts) h = turns-IsServing (turn s t) ts (turn-IsServing s t h)

dropped-turn :
    (s : Serving) (t : Turn) (e : Bytes)
    → IsServing s
    → (turn s t).result ≡ some (dropped e)
    → (s.result ≡ some (dropped e)) ⊎ (t ≡ accepts (some e))
unfolding turn accept_turn
dropped-turn s cancels e v h = inl h
dropped-turn s closes e v h = ground arith
dropped-turn s (accepts none) e v h = ground arith
dropped-turn s (accepts (some x)) e v h = ground arith

dropped-turns :
    (s : Serving) (ts : List Turn) (e : Bytes)
    → IsServing s
    → (turns s ts).result ≡ some (dropped e)
    → (s.result ≡ some (dropped e)) ⊎ Occurs (accepts (some e)) ts
unfolding turns
dropped-turns s [] e v h = inl h
dropped-turns s (t ∷ ts) e v h = elim (dropped-turns (turn s t) ts e (turn-IsServing s t v) h) [
  | inr later ↦ inr (inr later)
  | inl now ↦ elim (dropped-turn s t e v now) [
    | inl before ↦ inl before
    | inr this ↦ inr (inl this)
  ]
]

-- Whether the goroutine of the cancellation, or the loop, takes a turn in a run.
abbrev pub has_closes : List Turn → Bool
has_closes [] = false
has_closes (closes ∷ ts) = true
has_closes (t ∷ ts) = has_closes ts

abbrev pub has_accepts : List Turn → Bool
has_accepts [] = false
has_accepts (accepts failure ∷ ts) = true
has_accepts (t ∷ ts) = has_accepts ts

-- What a turn keeps: a cancellation, a closed session, and a result.
turn-keeps :
    (s : Serving) (t : Turn)
    → (s.cancelled ≡ true → (turn s t).cancelled ≡ true)
      × (s.sess_open ≡ false → (turn s t).sess_open ≡ false)
      × (is_over s.result ≡ true → is_over (turn s t).result ≡ true)
unfolding turn accept_turn
turn-keeps s cancels = ground arith
turn-keeps s closes = ground arith
turn-keeps s (accepts none) = ground arith
turn-keeps s (accepts (some e)) = ground arith

turns-keep :
    (s : Serving) (ts : List Turn)
    → (s.sess_open ≡ false → (turns s ts).sess_open ≡ false)
      × (is_over s.result ≡ true → is_over (turns s ts).result ≡ true)
unfolding turns
turns-keep s [] = (λ h. h, λ h. h)
turns-keep s (t ∷ ts) =
    let (_, shut, over) = turn-keeps s t in
    let (shut', over') = turns-keep (turn s t) ts in (λ h. shut' (shut h), λ h. over' (over h))

closes-session :
    (s : Serving) (ts : List Turn)
    → s.cancelled ≡ true
    → has_closes ts ≡ true
    → (turns s ts).sess_open ≡ false
unfolding turns turn
closes-session s [] on h = absurd cc
closes-session s (closes ∷ ts) on h = (turns-keep (turn s closes) ts).0 (rw (on, turn) refl)
closes-session s (cancels ∷ ts) on h = closes-session (turn s cancels) ts refl h
closes-session s (accepts failure ∷ ts) on h =
    closes-session (turn s (accepts failure)) ts ((turn-keeps s (accepts failure)).0 on) h

accept_ends :
    (s : Serving) (failure : Option Bytes)
    → s.sess_open ≡ false
    → is_over (turn s (accepts failure)).result ≡ true
unfolding turn accept_turn
accept_ends s none shut = ground arith
accept_ends s (some e) shut = ground arith

ends-loop :
    (s : Serving) (ts : List Turn)
    → s.sess_open ≡ false
    → has_accepts ts ≡ true
    → is_over (turns s ts).result ≡ true
unfolding turns turn
ends-loop s [] shut h = absurd cc
ends-loop s (accepts failure ∷ ts) shut h =
    (turns-keep (turn s (accepts failure)) ts).1 (accept_ends s failure shut)
ends-loop s (cancels ∷ ts) shut h = ends-loop (turn s cancels) ts shut h
ends-loop s (closes ∷ ts) shut h = ends-loop (turn s closes) ts ((turn-keeps s closes).1 shut) h

-- Why Serve has returned.
abbrev pub Explains : Serving → List Turn → Option ServeError → Type 0
Explains s ts none = Unit
Explains s ts (some canceled) = s.cancelled ≡ true
Explains s ts (some (dropped e)) = Occurs (accepts (some e)) ts

explains :
    (ts : List Turn) (x : Option ServeError)
    → (turns start ts).result ≡ x
    → Explains (turns start ts) ts x
explains ts none h = tt
explains ts (some canceled) h = (turns-IsServing start ts start-IsServing).1 h
explains ts (some (dropped e)) h = elim (dropped-turns start ts e start-IsServing h) [
  | inl before ↦ absurd cc
  | inr happened ↦ happened
]

turns-append : (s : Serving) (ts us : List Turn) → turns s (ts ++ us) ≡ turns (turns s ts) us
unfolding turns
turns-append s [] us = refl
turns-append s (t ∷ ts) us = turns-append (turn s t) ts us

-- Once the context is cancelled, Serve returns as soon as the goroutine that waits for that, and
-- then the loop, get a turn, whatever else happens in between; and what it returns is the error
-- of the context or one that Accept gave.
pub serve-Returns :
    (before es fs : List Turn)
    → (turns start before).cancelled ≡ true
    → has_closes es ≡ true
    → has_accepts fs ≡ true
    → let all = before ++ (es ++ fs) in
      let s = turns start all in (is_over s.result ≡ true) × Explains s all s.result
serve-Returns before es fs on closed asked =
    let s = turns start before in
    let over = ends-loop (turns s es) fs (closes-session s es on closed) asked in
    let split = turns-append start before (es ++ fs) ∙ turns-append s es fs in
    (rw split over, explains (before ++ (es ++ fs)) _ refl)

-- ===== src/Running/Loops.antt =====
-- The goroutines of Run of internal/server/server.go, turn by turn.
use lotun.Base.{
  Bool, true, false, ◌≡◌, ◌≢◌, refl, sym, ◌∙◌, ◌⊎◌, inl, inr, List, [], ◌∷◌, Option, none, some,
  arith, All,
}
use lotun.Base.Bytes.{Bytes}
use lotun.Json.{JsonText}
use lotun.Server.{Server}
use lotun.Running.{
  Closer, waits, closes_http, closes_tcp, closed, Running, serving_at, Turn, cancels, closes,
  waits_done, serves, accepts, handles, hangs_up, close_from, fail_serve, serve_turn, accept_turn,
  wait_turn, turn, turns,
}

-- How the goroutines of Run depend on each other.
abbrev pub IsRun : Running → Type 0
IsRun r =
    (r.closer ≢ waits → r.control_open ≡ false)
    × (r.control_open ≡ false → r.cancelled ≡ true)
    × (r.http_shut ≡ true → r.control_open ≡ false)
    × (r.closer ≡ closed → r.http_shut ≡ true)
    × (r.closer ≡ closes_tcp → r.http_shut ≡ true)
    × (r.http_loop ≡ false → (r.http_open ≡ false) × (r.errc ≡ none → r.http_shut ≡ true))
    × (r.errc ≢ none → r.http_loop ≡ false)
    × ((x : Option Bytes)
        → r.result ≡ some x
        → (r.http_loop ≡ false) × (r.accept_loop ≡ false) × (x ≡ r.errc))

pub start-IsRun : (s : Server) (ctrl http : Bytes) → IsRun (serving_at s ctrl http)
start-IsRun s ctrl http = ground arith

pub close_from-IsRun : (c : Closer) (r : Running) → r.closer ≡ c → IsRun r → IsRun (close_from c r)
unfolding close_from
close_from-IsRun waits r e v = ground arith
close_from-IsRun closes_http r e v = ground arith
close_from-IsRun closes_tcp r e v = ground arith
close_from-IsRun closed r e v = v

serve_turn-IsRun : (failure : Option Bytes) (r : Running) → IsRun r → IsRun (serve_turn failure r)
unfolding serve_turn fail_serve
serve_turn-IsRun none r v = ground arith
serve_turn-IsRun (some e) r v = ground arith

accept_turn-IsRun : (fails : Bool) (r : Running) → IsRun r → IsRun (accept_turn fails r)
unfolding accept_turn
accept_turn-IsRun fails r v = ground arith

wait_turn-IsRun : (r : Running) → IsRun r → IsRun (wait_turn r)
unfolding wait_turn
wait_turn-IsRun r v = ground arith

-- A turn happens in a run.
abbrev pub Occurs : Turn → List Turn → Type 0
Occurs t [] = ⊥
Occurs t (u ∷ us) = (u ≡ t) ⊎ Occurs t us

-- Accept does not fail on an open listener.
abbrev pub AcceptsWell : Turn → Type 0
AcceptsWell (accepts fails) = fails ≡ false
AcceptsWell t = Unit

-- acceptControl has ended only because of the cancellation.
abbrev pub AcceptsUntilClosed : Running → Type 0
AcceptsUntilClosed r = r.accept_loop ≡ false → r.control_open ≡ false

errc-serve_turn :
    (failure : Option Bytes) (r : Running) (e : Bytes)
    → (serve_turn failure r).errc ≡ some e
    → (r.errc ≡ some e) ⊎ (failure ≡ some e)
unfolding serve_turn fail_serve
errc-serve_turn none r e h = ground arith
errc-serve_turn (some e') r e h = ground arith

close_from-accepts :
    (c : Closer) (r : Running) → AcceptsUntilClosed r → AcceptsUntilClosed (close_from c r)
unfolding close_from
close_from-accepts waits r h = ground arith
close_from-accepts closes_http r h = h
close_from-accepts closes_tcp r h = h
close_from-accepts closed r h = h

errc-close_from : (c : Closer) (r : Running) → (close_from c r).errc ≡ r.errc
unfolding close_from
errc-close_from waits r = ground arith
errc-close_from closes_http r = refl
errc-close_from closes_tcp r = refl
errc-close_from closed r = refl

module _ (json : JsonText) where
  pub turn-IsRun : (r : Running) (t : Turn) → IsRun r → IsRun (turn json r t)
  unfolding turn
  turn-IsRun r cancels v = ground arith
  turn-IsRun r closes v = close_from-IsRun r.closer r refl v
  turn-IsRun r (serves failure) v = serve_turn-IsRun failure r v
  turn-IsRun r (accepts fails) v = accept_turn-IsRun fails r v
  turn-IsRun r (handles sess m w) v = v
  turn-IsRun r (hangs_up sess) v = v
  turn-IsRun r waits_done v = wait_turn-IsRun r v

  pub turns-IsRun : (r : Running) (ts : List Turn) → IsRun r → IsRun (turns json r ts)
  unfolding turns
  turns-IsRun r [] v = v
  turns-IsRun r (t ∷ ts) v = turns-IsRun (turn json r t) ts (turn-IsRun r t v)

  errc-turn :
      (r : Running) (t : Turn) (e : Bytes)
      → (turn json r t).errc ≡ some e
      → (r.errc ≡ some e) ⊎ (t ≡ serves (some e))
  unfolding turn accept_turn wait_turn
  errc-turn r cancels e h = inl h
  errc-turn r closes e h = inl (sym (errc-close_from r.closer r) ∙ h)
  errc-turn r (serves failure) e h = ground (arith, errc-serve_turn failure r e h)
  errc-turn r (accepts fails) e h = ground arith
  errc-turn r (handles sess m w) e h = inl h
  errc-turn r (hangs_up sess) e h = inl h
  errc-turn r waits_done e h = ground arith

  pub errc-turns :
      (r : Running) (ts : List Turn) (e : Bytes)
      → (turns json r ts).errc ≡ some e
      → (r.errc ≡ some e) ⊎ Occurs (serves (some e)) ts
  unfolding turns
  errc-turns r [] e h = inl h
  errc-turns r (t ∷ ts) e h = elim (errc-turns (turn json r t) ts e h) [
    | inr later ↦ inr (inr later)
    | inl now ↦ elim (errc-turn r t e now) [ inl before ↦ inl before | inr this ↦ inr (inl this) ]
  ]

  turn-accepts :
      (r : Running) (t : Turn)
      → AcceptsWell t
      → AcceptsUntilClosed r
      → AcceptsUntilClosed (turn json r t)
  unfolding turn accept_turn serve_turn wait_turn
  turn-accepts r cancels w h = h
  turn-accepts r closes w h = close_from-accepts r.closer r h
  turn-accepts r (serves none) w h = ground arith
  turn-accepts r (serves (some e)) w h = ground arith
  turn-accepts r (accepts fails) w h = ground arith
  turn-accepts r (handles sess m d) w h = h
  turn-accepts r (hangs_up sess) w h = h
  turn-accepts r waits_done w h = ground arith

  pub turns-accepts :
      (r : Running) (ts : List Turn)
      → All AcceptsWell ts
      → AcceptsUntilClosed r
      → AcceptsUntilClosed (turns json r ts)
  unfolding turns
  turns-accepts r [] w h = h
  turns-accepts r (t ∷ ts) (w, ws) h = turns-accepts (turn json r t) ts ws (turn-accepts r t w h)

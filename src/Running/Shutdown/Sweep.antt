-- ===== src/Running/Shutdown/Sweep.antt =====
-- The tcp listeners when Run of internal/server/server.go shuts down.
use lotun.Base.{ℕ, ◌≡◌, refl, ap, List, [], ◌∷◌, none, some, arith, All}
use lotun.Json.{JsonText}
use lotun.Base.Int.{ℤ, int_eq}
use lotun.Dict.{delete}
use lotun.Server.{Server, close_tcp, close_ports, close_all_tcp, end_session}
use lotun.Running.{
  Closer, waits, closes_http, closes_tcp, closed, Running, Turn, cancels, closes, waits_done,
  serves, accepts, handles, hangs_up, close_from, fail_serve, serve_turn, accept_turn, wait_turn,
  turn, turns,
}

close_ports-unbound :
    (s : Server) (ps : List ℤ) → s.listeners ≡ [] → (close_ports s ps).listeners ≡ []
unfolding close_ports close_tcp delete
close_ports-unbound s [] h = h
close_ports-unbound s (p ∷ ps) h = close_ports-unbound (close_tcp s p) ps (ap (delete p) h)

end_session-unbound :
    (s : Server) (sess : ℕ) → s.listeners ≡ [] → (end_session s sess).listeners ≡ []
unfolding end_session
end_session-unbound s sess h = close_ports-unbound _ _ h

close_from-swept :
    (c : Closer) (r : Running)
    → r.closer ≡ c
    → (r.closer ≡ closed → r.server.listeners ≡ [])
    → (close_from c r).closer ≡ closed
    → (close_from c r).server.listeners ≡ []
unfolding close_from close_all_tcp
close_from-swept waits r e h = ground arith
close_from-swept closes_http r e h = λ x. cc
close_from-swept closes_tcp r e h = λ _. refl
close_from-swept closed r e h = h

-- No request is handled; sessions may end.
abbrev pub IsQuiet : Turn → Type 0
IsQuiet (handles sess m w) = ⊥
IsQuiet t = Unit

module _ (json : JsonText) where
  -- The goroutine of the cancellation has closed all tcp listeners, if it is done.
  abbrev pub IsSwept : Running → Type 0
  IsSwept r = r.closer ≡ closed → r.server.listeners ≡ []

  turn-IsSwept : (r : Running) (t : Turn) → IsQuiet t → IsSwept r → IsSwept (turn json r t)
  unfolding turn accept_turn serve_turn fail_serve wait_turn
  turn-IsSwept r cancels q h = h
  turn-IsSwept r closes q h = close_from-swept r.closer r refl h
  turn-IsSwept r (serves none) q h = ground arith
  turn-IsSwept r (serves (some e)) q h = ground arith
  turn-IsSwept r (accepts fails) q h = ground arith
  turn-IsSwept r (handles sess m w) q h = absurd q
  turn-IsSwept r (hangs_up sess) q h = λ e. end_session-unbound r.server sess (h e)
  turn-IsSwept r waits_done q h = ground arith

  pub turns-IsSwept :
      (r : Running) (ts : List Turn) → All IsQuiet ts → IsSwept r → IsSwept (turns json r ts)
  unfolding turns
  turns-IsSwept r [] q h = h
  turns-IsSwept r (t ∷ ts) (q, qs) h = turns-IsSwept (turn json r t) ts qs (turn-IsSwept r t q h)

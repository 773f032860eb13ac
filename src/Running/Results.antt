-- ===== src/Running/Results.antt =====
-- With what Run of internal/server/server.go returns.
use lotun.Base.{true, false, ◌≡◌, refl, sym, inl, inr, List, Option, none, some, arith, All}
use lotun.Base.Bytes.{Bytes}
use lotun.Json.{JsonText}
use lotun.Server.{Server}
use lotun.Running.{Running, serving_at, Turn, serves, turns}
use lotun.Running.Loops.{
  IsRun, Occurs, AcceptsWell, start-IsRun, turns-IsRun, errc-turns, turns-accepts,
}

-- What Run returns: nil after httpSrv.Close, or an error that Serve met.
abbrev pub Explains : Running → List Turn → Option Bytes → Type 0
Explains r ts none = r.http_shut ≡ true
Explains r ts (some e) = Occurs (serves (some e)) ts

explained :
    (json : JsonText) (start : Running) (ts : List Turn) (x : Option Bytes)
    → start.errc ≡ none
    → let r = turns json start ts in IsRun r → r.http_loop ≡ false → x ≡ r.errc → Explains r ts x
explained json start ts none fresh v ended same = ground (arith, v)
explained json start ts (some e) fresh v ended same = elim (errc-turns json start ts e (sym same)) [
  | inl before ↦ absurd cc
  | inr happened ↦ happened
]

-- Run, whatever turns its goroutines, requests and clients take: once it has returned, both loops
-- have ended and the http listener is closed; it returned nil only if the http server was shut
-- down, after a cancellation, and otherwise an error that Serve met; and unless Accept failed on
-- the open control listener, Run returned only after a cancellation, with that listener closed,
-- even if the http server had failed before.
pub turns-Returns :
    (json : JsonText) (s : Server) (ctrl http : Bytes) (ts : List Turn) (x : Option Bytes)
    → let r = turns json (serving_at s ctrl http) ts in
      r.result ≡ some x
      → (r.http_loop ≡ false)
        × (r.accept_loop ≡ false)
        × (r.http_open ≡ false)
        × Explains r ts x
        × (r.http_shut ≡ true → r.cancelled ≡ true)
        × (All AcceptsWell ts → (r.cancelled ≡ true) × (r.control_open ≡ false))
turns-Returns json s ctrl http ts x h =
    let start = serving_at s ctrl http in
    let v = turns-IsRun json start ts (start-IsRun s ctrl http) in
    let (closes, cancel, shut, _, _, ends, _, returns) = v in
    let (http_over, accept_over, same) = returns x h in
    (
      http_over,
      accept_over,
      (ends http_over).0,
      explained json start ts x refl v http_over same,
      λ s. cancel (shut s),
      λ well.
          let down = turns-accepts json start ts well (λ on. absurd cc) accept_over in
          (cancel down, down),
    )

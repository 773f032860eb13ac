-- ===== src/Running/Shutdown.antt =====
-- That Run of internal/server/server.go returns after a cancellation.
pub mod Progress
pub mod Sweep
use lotun.Base.{
  ℕ, zero, suc, ◌+◌, ◌-◌, ◌≤◌, Bool, true, false, not, ◌&&◌, ◌||◌, ◌≡◌, ◌≢◌, refl, sym, ap, ◌∙◌,
  ◌⊎◌, inl, inr, List, [], ◌∷◌, ◌++◌, Option, none, some, arith, All, if◌then◌else◌, Option-cases,
}
use lotun.Base.Bytes.{Bytes}
use lotun.Json.{JsonText}
use lotun.Protocol.{Message}
use lotun.Server.{Server, Draws}
use lotun.Running.{
  Closer, waits, closes_http, closes_tcp, closed, Running, serving_at, Turn, cancels, closes,
  waits_done, serves, accepts, handles, hangs_up, close_from, close_turn, fail_serve, serve_turn,
  accept_turn, wait_turn, turn, turns,
}
use lotun.Running.Loops.{IsRun, start-IsRun, turns-IsRun}
use lotun.Running.Shutdown.Progress.{
  calls_left, is_closes, is_serves, is_accepts, is_waits, count, flag_of, pending, no_calls,
  calls-le, pending-result, closed-IsShut, flag-off, flag-le, pending-le, turns-calls, turns-loops,
  turns-result,
}
use lotun.Running.Shutdown.Sweep.{IsQuiet, turns-IsSwept}

-- Once the context is cancelled, Run returns, with both listeners closed and the tcp listeners
-- told to close, in every order of turns in which first the goroutine of the cancellation gets
-- its three, then both loops get one, and then Run itself, whatever else happens in between.
pub turns-ShutsDown :
    (json : JsonText) (s : Server) (ctrl http : Bytes) (before ts₁ ts₂ ts₃ : List Turn)
    → let r = turns json (serving_at s ctrl http) before in
      r.cancelled ≡ true
      → 3 ≤ count is_closes ts₁
      → 1 ≤ count is_serves ts₂
      → 1 ≤ count is_accepts ts₂
      → 1 ≤ count is_waits ts₃
      → let r' = turns json (turns json (turns json r ts₁) ts₂) ts₃ in
        (r'.result ≡ some r'.errc)
        × (r'.closer ≡ closed)
        × (r'.control_open ≡ false)
        × (r'.http_open ≡ false)
        × (r.closer ≢ closed
            → All IsQuiet ts₁ × All IsQuiet ts₂ × All IsQuiet ts₃
            → r'.server.listeners ≡ [])
turns-ShutsDown json s ctrl http before ts₁ ts₂ ts₃ on enough_closes one_serve one_accept one_wait =
    let r = turns json (serving_at s ctrl http) before in
    let r₁ = turns json r ts₁ in
    let r₂ = turns json r₁ ts₂ in
    let r₃ = turns json r₂ ts₃ in
    let v = turns-IsRun json _ before (start-IsRun s ctrl http) in
    let v₁ = turns-IsRun json r ts₁ v in
    let v₂ = turns-IsRun json r₁ ts₂ v₁ in
    let v₃ = turns-IsRun json r₂ ts₃ v₂ in
    let (calls, on₁) = turns-calls json r ts₁ on in
    let done = no_calls r₁.closer (omega (arith, calls-le r.closer)) in
    let (control, shut) = closed-IsShut r₁ on₁ v₁ done in
    let (shut₂, http_left, accept_left) = turns-loops json r₁ ts₂ (on₁, control, shut) in
    let http_over = flag-off r₂.http_loop (omega (arith, flag-le r₁.http_loop)) in
    let accept_over = flag-off r₂.accept_loop (omega (arith, flag-le r₁.accept_loop)) in
    let (shut₃, http_left₃, _) = turns-loops json r₂ ts₃ shut₂ in
    let left = turns-result json r₂ ts₃ shut₂ http_over accept_over in
    let calls₂ = (turns-calls json r₁ ts₂ on₁).0 in
    let calls₃ = (turns-calls json r₂ ts₃ shut₂.0).0 in
    let still = no_calls r₃.closer (omega (arith, ap calls_left done)) in
    (
      pending-result r₃ (omega (arith, pending-le r₂.result)) v₃,
      still,
      shut₃.1,
      (v₃.5 (flag-off r₃.http_loop (omega (arith, ap flag_of http_over)))).0,
      λ (not_yet : r.closer ≢ closed) (q : All IsQuiet ts₁ × All IsQuiet ts₂ × All IsQuiet ts₃).
          turns-IsSwept json r₂ ts₃ q.2
            (turns-IsSwept json r₁ ts₂ q.1 (turns-IsSwept json r ts₁ q.0 (λ e. absurd (not_yet e))))
            still,
    )

-- ===== src/Lotund/Restarting.antt =====
-- What a lotund of cmd/lotund/main.go knows of the claims that an earlier one has granted.
use lotun.Base.{true, false, ◌≡◌, refl, sym, ap, ◌∙◌, subst, some, if◌then◌else◌, ◌==◌}
use lotun.Base.Bytes.{Bytes, bytes_eq}
use mathlib.Core.Option.{some-injective}
use lotun.Json.{JsonText}
use lotun.Protocol.{Message}
use lotun.Protocol
use lotun.Store.{Outcome, done, failed, panics, is_claimed, open_store}
use lotun.Store.Restarts.{HasValidNames, claim_persists}
use lotun.Server.{Server, Draws, handle_claim, store_reply}
use lotun.Running.{Running, serving}
use lotun.Config.{ServerConfig}
use lotun.Lotund.{Machine, run}
use lotun.Lotund.Starting.{Starts, run-Starts}

store_reply-ok : (o : Outcome) → store_reply o ≡ some Protocol.ok → o ≡ done
unfolding store_reply
store_reply-ok done h = refl
store_reply-ok (failed e) h = absurd cc
store_reply-ok panics h = absurd cc

-- A claim that the server has answered with OK is known to every lotund that starts on the file
-- that it left, together with exactly the names that were claimed before, whatever its
-- configuration, if the names are valid text and the file can be read.
pub run-remembers :
    (json : JsonText) (s : Server) (name : Bytes) (w : Draws) (cfg : ServerConfig) (m : Machine)
    (r : Running)
    → HasValidNames json s.store
    → json.valid name ≡ true
    → let (s', reply) = handle_claim json s name w in
      reply ≡ some Protocol.ok
      → m.disk ≡ s'.disk
      → m.unreadable ≡ false
      → run json cfg m ≡ serving r
      → (j : Bytes)
      → is_claimed r.server.store j ≡ (if name == j then true else is_claimed s.store j)
unfolding handle_claim
run-remembers json s name w cfg m r valid text granted same readable serves j =
    let ok = store_reply-ok _ granted in
    let (t, opened, known) = claim_persists json name w.faults s.store s.disk valid text ok in
    let (_, loaded, _, _, _, _, _, _, _, _, _, _) =
      subst (Starts json cfg m) serves (run-Starts json cfg m) in
    let store : some t ≡ some r.server.store =
      sym opened
      ∙ (ap (open_store json false) (sym same)
          ∙ (ap (λ b. open_store json b m.disk) (sym readable) ∙ loaded)) in
    ap (λ x. is_claimed x j) (sym (some-injective t r.server.store store)) ∙ known j

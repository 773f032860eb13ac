-- ===== src/Cli/Remote/Claiming.antt =====
-- `lotun claim` of cmd/lotun/commands.go at a server of internal/server.
use lotun.Base.{
  ℕ, true, false, ◌≡◌, ◌≢◌, refl, ◌∙◌, ◌⊎◌, inl, inr, List, [], ◌∷◌, ◌++◌, Option, none, some,
  arith, Bool-cases, ◌==◌, if◌then◌else◌, nat_eq,
}
use lotun.Base.Int.{pos, int_eq}
use lotun.Base.Bytes.{Bytes, bytes, bytes_eq, eqb_bytes_iff}
use lotun.Dict.Laws.{unless}
use lotun.Json.{JsonText}
use lotun.Protocol.{claim}
use lotun.Store.{
  FileStore, Disk, Faults, Outcome, done, failed, panics, already_claimed, system, is_claimed,
}
use lotun.Store.Save.{first_error, ends_with}
use lotun.Store.Claims.{Claims, Written, claim-Claims}
use lotun.Registry.{Tunnel, lookup_http, lookup_tcp}
use lotun.Server.{Server, Draws, end_session, handle_claim, store_reply, store_error_text}
use lotun.Server.Control.{dispatch}
use lotun.Server.Undo.{SameRoutes}
use lotun.Server.Sessions.{IsSound, end_session_lem}
use lotun.Server.Connections.{IsGone}
use lotun.Server.Peer.{remote}
use lotun.Server.Peer.Whole.{greeting_as}
use lotun.Client.{expect_ok, claim_name}
use lotun.Cli.{ClientConfig, Checked, accepted, rejected, said, connection_broken}
use lotun.Cli.Remote.{finish, claim_command}
use lotun.Cli.Remote.Dialing.{one_shot-dispatch, one_shot-refused}

unless_kept :
    (sess : ℕ) (o : Option Tunnel)
    → ((tn : Tunnel) → o ≡ some tn → tn.session ≢ sess)
    → unless (λ tn. tn.session == sess) o ≡ o
unless_kept sess none h = refl
unless_kept sess (some tn) h = ground (arith, h tn refl)

-- The end of a session that has no tunnel.
pub end_session-idle :
    (s : Server) (sess : ℕ)
    → IsSound s
    → IsGone s sess
    → SameRoutes s.registry (end_session s sess).registry
end_session-idle s sess sound (no_http, no_tcp) = (
  λ sub.
      (end_session_lem s sess sub (pos 0) sound).0
      ∙ unless_kept sess (lookup_http s.registry sub) (no_http sub),
  λ p.
      (end_session_lem s sess [] p sound).1 ∙ unless_kept sess (lookup_tcp s.registry p) (no_tcp p),
)

-- The name is free, and exactly it is added to the claims in memory.
abbrev pub Adds : FileStore → Bytes → FileStore → Type 0
Adds old name new =
    (is_claimed old name ≡ false)
    × (old.names ≢ none)
    × ((j : Bytes) → is_claimed new j ≡ (if name == j then true else is_claimed old j))

-- How `lotun claim` ends whose token is the server's, given the errors of the disk.
abbrev pub Concludes :
    JsonText → Server → Faults → Bytes → Bytes → Checked Bytes → FileStore → Disk → Type 0
Concludes json s f name line (accepted out) store disk =
    (out ≡ line)
    × (first_error f ≡ none)
    × Adds s.store name store
    × Written json store s.disk done disk
Concludes json s f name line (rejected (said text)) store disk =
    ((is_claimed s.store name ≡ true)
      × (text ≡ bytes "store: subdomain already claimed")
      × (store ≡ s.store)
      × (disk ≡ s.disk))
    ⊎ ((first_error f ≡ some text) × Adds s.store name store × (disk.file ≡ s.disk.file))
Concludes json s f name line (rejected connection_broken) store disk =
    (s.store.names ≡ none) × (store ≡ s.store) × (disk ≡ s.disk)
Concludes json s f name line (rejected _) store disk = ⊥

ended_with : (o : Option Bytes) → done ≡ ends_with o → o ≡ none
ended_with none h = refl
ended_with (some e) h = absurd cc

failed_with : (e : Bytes) (o : Option Bytes) → failed (system e) ≡ ends_with o → o ≡ some e
failed_with e none h = absurd cc
failed_with e (some x) h = cc

Claims-Concludes :
    (json : JsonText) (s : Server) (f : Faults) (name line : Bytes) (a : Outcome × FileStore × Disk)
    → Claims json name f s.store s.disk a
    → Concludes json s f name line (finish (λ _. line) (expect_ok (store_reply a.0))) a.1 a.2
unfolding expect_ok store_reply store_error_text
Claims-Concludes json s f name line (done, store, disk) (free, map, ended, known, written) =
    (refl, ended_with (first_error f) ended, (free, map, known), written)
Claims-Concludes json s f name line (failed already_claimed, store, disk) (taken, same, kept) =
    inl (taken, refl, same, kept)
Claims-Concludes json s f name line (failed (system e), store, disk)
      (free, map, ended, known, kept) =
    inr (failed_with e (first_error f) ended, (free, map, known), kept)
Claims-Concludes json s f name line (panics, store, disk) (broken, same, kept) =
    (broken, same, kept)

claimed-IsSound :
    (json : JsonText) (s : Server) (name : Bytes) (w : Draws)
    → IsSound s
    → IsSound (handle_claim json s name w).0
unfolding handle_claim
claimed-IsSound json s name w v = record {
  registry_valid = v.registry_valid;
  listeners_match = v.listeners_match;
}

claimed-IsGone :
    (json : JsonText) (s : Server) (sess : ℕ) (name : Bytes) (w : Draws)
    → IsGone s sess
    → IsGone (handle_claim json s name w).0 sess
unfolding handle_claim
claimed-IsGone json s sess name w h = h

-- The server when `lotun claim` has ended, and the command's result.
abbrev Ended : JsonText → Server → Faults → Bytes → Bytes → Server × Checked Bytes → Type 0
Ended json s f name line (s', result) =
    SameRoutes s.registry s'.registry × Concludes json s f name line result s'.store s'.disk

claimed-Ended :
    (json : JsonText) (s : Server) (sess : ℕ) (name line : Bytes) (w : Draws)
    → IsSound s
    → IsGone s sess
    → let (s', reply) = handle_claim json s name w in
      Ended json s w.faults name line (end_session s' sess, finish (λ _. line) (expect_ok reply))
unfolding handle_claim
claimed-Ended json s sess name line w sound gone =
    let s' = (handle_claim json s name w).0 in
    let sound' = claimed-IsSound json s name w sound in
    let (_, _, _, store, disk) = end_session_lem s' sess [] (pos 0) sound' in
    (
      end_session-idle s' sess sound' (claimed-IsGone json s sess name w gone),
      rw (store, disk)
          (Claims-Concludes json s w.faults name line _
            (claim-Claims json name w.faults s.store s.disk)),
    )

-- `lotun claim` at a sound server, in a session that has no tunnel: with another token than the
-- server's it is refused and changes nothing; with the server's, a name that is claimed is
-- reported as such, with nothing changed; on a nil map of claims, and on no other, the connection
-- breaks, with nothing changed; otherwise exactly the name is added in memory, and the command
-- reports success if no call of the disk fails, and the file then holds the claims, or else the
-- text of the first error of the disk, and the file is what it was; and the routes stay in every
-- case.
pub claim_command-Concludes :
    (json : JsonText) (quote : Bytes → Bytes) (s : Server) (sess : ℕ) (w : Draws) (ws : List Draws)
    (name : Bytes) (cfg : ClientConfig)
    → IsSound s
    → IsGone s sess
    → let (p, result) =
        claim_command (remote json) quote name (accepted cfg) (greeting_as s sess (w ∷ ws)) in
      SameRoutes s.registry p.server.registry
      × (((cfg.token ≡ s.token)
            × Concludes json s w.faults name
                (bytes "Claimed " ++ (quote name ++ bytes "\n"))
                result
                p.server.store
                p.server.disk)
          ⊎ ((cfg.token ≢ s.token)
              × (result ≡ rejected (said (bytes "auth rejected: invalid token")))
              × (p.server ≡ s)))
unfolding claim_command claim_name dispatch
claim_command-Concludes json quote s sess w ws name cfg sound gone =
    let line = bytes "Claimed " ++ (quote name ++ bytes "\n") in
    let output : Unit {0} → Bytes = λ _. line in
    elim (Bool-cases (cfg.token == s.token)) [
      | inl same ↦
          let (server, result) =
            one_shot-dispatch json s sess w ws (claim name) (claim_name (remote json) name)
              expect_ok output cfg (λ p. refl) same in
          let (routes, concludes) = claimed-Ended json s sess name line w sound gone in
          rw (server, result) (routes, inl ((eqb_bytes_iff cfg.token s.token).0 same, concludes))
      | inr other ↦
          rw
            (one_shot-refused json s sess (w ∷ ws) (claim_name (remote json) name) output cfg other)
            (
              (λ sub. refl, λ p. refl),
              inr (λ h. cc (other, (eqb_bytes_iff cfg.token s.token).1 h), refl, refl),
            )
    ]

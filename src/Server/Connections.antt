-- ===== src/Server/Connections.antt =====
-- Control connections of internal/server/server.go: who may speak, and what any mix of requests
-- and ended sessions leaves.
use lotun.Base.{
  ℕ, Bool, true, ◌≡◌, ◌≢◌, ◌↔◌, refl, sym, ◌∙◌, inl, inr, List, [], ◌∷◌, Option, none, some, arith,
  Bool-cases, Option-cases, ◌==◌, nat_eq, eqb_iff,
}
use lotun.Base.Int.{ℤ, pos}
use lotun.Base.Bytes.{Bytes, bytes_eq, eqb_bytes_iff}
use lotun.Dict.{lookup}
use lotun.Dict.Laws.{unless-some, unless}
use lotun.Json.{JsonText}
use lotun.Names.{Rand}
use lotun.Protocol.{Message, auth, register, claim, unclaim}
use lotun.Store.{FileStore, Disk}
use lotun.Registry.{Tunnel, lookup_http, lookup_tcp, new_id, new_registry}
use lotun.Registry.Valid.{new_registry-IsValid}
use lotun.Server.{Server, Draws, new_server, end_session}
use lotun.Server.Control.{Round, dispatch, serve_control, authenticate, handle_control_conn}
use lotun.Server.Undo.{IsFreshId}
use lotun.Server.Sessions.{IsSound, handle_register-IsSound, end_session-IsSound, end_session_lem}

-- One request of some session, or the end of a session.
pub data Step (json : JsonText) : Server → Server → Type 0 where
  requests :
      (s : Server) (sess : ℕ) (m : Message) (w : Draws)
      → IsFreshId s.registry (new_id w.id_seed)
      → Step json s (dispatch json s sess m w).0
  ends : (s : Server) (sess : ℕ) → Step json s (end_session s sess)

pub data Reach (json : JsonText) (s : Server) : Server → Type 0 where
  here : Reach json s s
  next : {t u : Server} → Reach json s t → Step json t u → Reach json s u

dispatch-IsSound :
    (json : JsonText) (s : Server) (sess : ℕ) (m : Message) (w : Draws)
    → IsSound s
    → IsFreshId s.registry (new_id w.id_seed)
    → IsSound (dispatch json s sess m w).0
unfolding dispatch
dispatch-IsSound json s sess (register req) w v fresh = handle_register-IsSound s req sess w v fresh
dispatch-IsSound json s sess (claim name) w v fresh = record {
  registry_valid = v.registry_valid;
  listeners_match = v.listeners_match;
}
dispatch-IsSound json s sess (unclaim name) w v fresh = record {
  registry_valid = v.registry_valid;
  listeners_match = v.listeners_match;
}
dispatch-IsSound json s sess _ w v fresh = v

-- Any mix of requests of any sessions, each with a fresh tunnel ID, and of ended sessions keeps a
-- sound server sound: its table is valid and exactly the routed tcp ports have a listener.
pub Reach-IsSound : {json : JsonText} {s t : Server} → IsSound s → Reach json s t → IsSound t
Reach-IsSound v here = v
Reach-IsSound v (next r (requests t sess m w fresh)) =
    dispatch-IsSound _ t sess m w (Reach-IsSound v r) fresh
Reach-IsSound v (next r (ends t sess)) = end_session-IsSound t sess (Reach-IsSound v r)

new_server-empty :
    (token base : Bytes) (lo hi : ℤ) (store : FileStore) (disk : Disk) (rng : Rand) (s : Server)
    → new_server token base lo hi store disk rng ≡ some s
    → (s.registry ≡ new_registry lo hi) × (s.listeners ≡ [])
unfolding new_server
new_server-empty token base lo hi store disk rng s e = ground arith

-- A server that New returns is sound.
pub new_server-IsSound :
    (token base : Bytes) (lo hi : ℤ) (store : FileStore) (disk : Disk) (rng : Rand) (s : Server)
    → new_server token base lo hi store disk rng ≡ some s
    → IsSound s
unfolding new_registry lookup_tcp lookup
new_server-IsSound token base lo hi store disk rng s e =
    let (table, none_bound) = new_server-empty token base lo hi store disk rng s e in
    record {
      registry_valid = rw table (new_registry-IsValid lo hi);
      listeners_match = λ p. rw (table, none_bound);
    }

-- The ID that each round of a connection would draw is fresh when the round comes.
abbrev pub AllFresh : JsonText → Server → ℕ → List Round → Type 0
AllFresh json s sess [] = Unit
AllFresh json s sess (r ∷ rs) =
    IsFreshId s.registry (new_id r.draws.id_seed)
    × ((m : Message)
        → r.message ≡ some m
        → AllFresh json (dispatch json s sess m r.draws).0 sess rs)

Reach-trans : {json : JsonText} {s t u : Server} → Reach json s t → Reach json t u → Reach json s u
Reach-trans p here = p
Reach-trans p (next q st) = next (Reach-trans p q) st

round-Reach :
    (json : JsonText) (s : Server) (sess : ℕ) (message : Option Message) (w : Draws) (writes : Bool)
    (rs : List Round)
    → IsFreshId s.registry (new_id w.id_seed)
    → ((m : Message)
        → message ≡ some m
        → let s' = (dispatch json s sess m w).0 in Reach json s' (serve_control json s' sess rs).0)
    → let r : Round = record { message = message; draws = w; writes = writes } in
      Reach json s (serve_control json s sess (r ∷ rs)).0
unfolding serve_control
round-Reach json s sess none w writes rs fresh rest = here
round-Reach json s sess (some m) w writes rs fresh rest =
    let once = next here (requests s sess m w fresh) in
    elim (Option-cases (dispatch json s sess m w).1) [
      | inl e ↦ rw (e, serve_control) once
      | inr (answer, e) ↦ elim (Bool-cases writes) [
        | inl sent ↦ rw (e, sent, serve_control) (Reach-trans once (rest m refl))
        | inr lost ↦ rw (e, lost, serve_control) once
      ]
    ]

-- Whatever the rounds of one connection meet, if each draws a fresh tunnel ID, the state that
-- serveControl ends in is one that single requests reach.
pub serve_control-Reach :
    (json : JsonText) (s : Server) (sess : ℕ) (rs : List Round)
    → AllFresh json s sess rs
    → Reach json s (serve_control json s sess rs).0
unfolding serve_control
serve_control-Reach json s sess [] h = here
serve_control-Reach json s sess (r ∷ rs) h =
    round-Reach json s sess r.message r.draws r.writes rs h.0
      λ m e. serve_control-Reach json (dispatch json s sess m r.draws).0 sess rs (h.1 m e)

-- authenticate lets a client proceed exactly if its first message is Auth with the server's token
-- and the reply goes out.
pub authenticate_iff :
    (s : Server) (first : Option Message) (writes : Bool)
    → ((authenticate s first writes).0 ≡ true)
      ↔ ((first ≡ some (auth (record { token = s.token }))) × (writes ≡ true))
unfolding authenticate
authenticate_iff s none writes = (λ h. cc, λ h. cc)
authenticate_iff s (some (auth a)) writes = (
  λ h. ground (arith, eqb_bytes_iff a.token s.token),
  λ h. ground (arith, eqb_bytes_iff a.token s.token),
)
authenticate_iff s (some _) writes = (λ h. cc, λ h. cc)

-- No tunnel of the session is routed.
abbrev pub IsGone : Server → ℕ → Type 0
IsGone s sess =
    ((sub : Bytes) (tn : Tunnel) → lookup_http s.registry sub ≡ some tn → tn.session ≢ sess)
    × ((p : ℤ) (tn : Tunnel) → lookup_tcp s.registry p ≡ some tn → tn.session ≢ sess)

not_owned :
    (sess : ℕ) (before after : Option Tunnel) (tn : Tunnel)
    → after ≡ unless (λ u. u.session == sess) before
    → after ≡ some tn
    → tn.session ≢ sess
not_owned sess before after tn kept e own = cc (
  (unless-some (λ u. u.session == sess) before tn (sym kept ∙ e)).1,
  (eqb_iff tn.session sess).1 own,
)

pub end_session-IsGone : (s : Server) (sess : ℕ) → IsSound s → IsGone (end_session s sess) sess
end_session-IsGone s sess v = (
  λ sub tn.
      not_owned sess (lookup_http s.registry sub) _ tn (end_session_lem s sess sub (pos 0) v).0,
  λ p tn. not_owned sess (lookup_tcp s.registry p) _ tn (end_session_lem s sess [] p v).1,
)

-- A control connection as a whole, from a sound server that routes nothing to the session, if
-- each request draws a fresh tunnel ID: a client whose first message is not Auth with the
-- server's token changes nothing and gets no request answered, and in every case the server is
-- sound at the end and routes nothing to the session.
pub handle_control_conn_lem :
    (json : JsonText) (s : Server) (sess : ℕ) (first : Option Message) (writes : Bool)
    (rs : List Round)
    → IsSound s
    → IsGone s sess
    → AllFresh json s sess rs
    → let (s', answers) = handle_control_conn json s sess first writes rs in
      IsSound s'
      × IsGone s' sess
      × (first ≢ some (auth (record { token = s.token })) → (s' ≡ s) × (answers ≡ []))
unfolding handle_control_conn
handle_control_conn_lem json s sess first writes rs v gone fresh =
    elim (Bool-cases (authenticate s first writes).0) [
      | inl admitted ↦
          let v' = Reach-IsSound v (serve_control-Reach json s sess rs fresh) in
          rw admitted (
            end_session-IsSound _ sess v',
            end_session-IsGone _ sess v',
            λ no_token. absurd (no_token ((authenticate_iff s first writes).0 admitted).0),
          )
      | inr refused ↦ rw refused (v, gone, λ _. (refl, refl))
    ]

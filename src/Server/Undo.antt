-- ===== src/Server/Undo.antt =====
-- Undoing a registration, as handleRegister of internal/server/server.go does where it fails later.
use lotun.Base.{
  Bool, true, false, ◌&&◌, ◌≡◌, refl, ap, ◌∙◌, subst, [], Option, none, some, arith, if◌then◌else◌,
  ◌==◌,
}
use lotun.Base.Int.{ℤ, pos, int_eq, eqb_ℤ_iff}
use lotun.Base.Bytes.{Bytes, bytes_eq, eqb_bytes_iff}
use lotun.Dict.{Entries}
use lotun.Dict.Laws.{unless}
use lotun.Protocol.{http, tcp}
use lotun.Registry.{
  Registry, Tunnel, Result-cases, lookup_http, lookup_tcp, is_in, new_id, requested, err, ok,
}
use lotun.Registry
use lotun.Registry.Valid.{IsValid}
use lotun.Registry.Placement.{Registers}
use lotun.Registry.Removal.{remove_lem}

-- No routed tunnel bears the ID. IDs are eight bytes of crypto/rand.
abbrev pub IsFreshId : Registry → Bytes → Type 0
IsFreshId r id =
    Entries (λ _ tn. (tn.id == id) ≡ false) r.http_by_sub
    × Entries (λ _ tn. (tn.id == id) ≡ false) r.tcp_by_port

-- Two tables route alike.
abbrev pub SameRoutes : Registry → Registry → Type 0
SameRoutes r r' =
    ((s : Bytes) → lookup_http r' s ≡ lookup_http r s)
    × ((p : ℤ) → lookup_tcp r' p ≡ lookup_tcp r p)

pub SameRoutes-of_eq : (r r' : Registry) → r' ≡ r → SameRoutes r r'
SameRoutes-of_eq r r' e = (λ s. ap (λ x. lookup_http x s) e, λ p. ap (λ x. lookup_tcp x p) e)

unless_fresh :
    (id : Bytes) (tn : Tunnel) (here : Bool) (before after : Option Tunnel)
    → tn.id ≡ id
    → (here ≡ true → before ≡ none)
    → ((u : Tunnel) → before ≡ some u → (u.id == id) ≡ false)
    → after ≡ (if here then some tn else before)
    → unless (λ u. u.id == id) after ≡ before
unless_fresh id tn true before after own none_here fresh e =
    rw (e, none_here refl, (eqb_bytes_iff _ _).1 own)
unless_fresh id tn false none after own none_here fresh e = rw e
unless_fresh id tn false (some u) after own none_here fresh e = rw (e, fresh u refl)

-- Removing the tunnel that was just added restores the routes.
pub remove_undoes :
    (r r' : Registry) (tn : Tunnel)
    → IsValid r'
    → IsFreshId r tn.id
    → Registers r tn r'
    → SameRoutes r (Registry.remove r' tn.id)
unfolding lookup_http lookup_tcp
remove_undoes r r' tn v fresh added = (
  λ s.
      (remove_lem r' tn.id s (pos 0) v).0
      ∙ unless_fresh tn.id tn ((tn.type == http) && (tn.subdomain == s)) (lookup_http r s)
          (lookup_http r' s) refl (http_free s) (fresh.0 s) (added.http_after s),
  λ p.
      (remove_lem r' tn.id [] p v).1
      ∙ unless_fresh tn.id tn ((tn.type == tcp) && (tn.port == p)) (lookup_tcp r p)
          (lookup_tcp r' p) refl (tcp_free p) (fresh.1 p) (added.tcp_after p),
)
  where
    http_free :
        (s : Bytes) → ((tn.type == http) && (tn.subdomain == s)) ≡ true → lookup_http r s ≡ none
    http_free s h =
        let kind : (tn.type == http) ≡ true = ground arith in
        let name : (tn.subdomain == s) ≡ true = ground arith in
        subst (λ x. lookup_http r x ≡ none) ((eqb_bytes_iff _ _).0 name)
          (added.http_fresh ((eqb_bytes_iff _ _).0 kind))

    tcp_free : (p : ℤ) → ((tn.type == tcp) && (tn.port == p)) ≡ true → lookup_tcp r p ≡ none
    tcp_free p h =
        let kind : (tn.type == tcp) ≡ true = ground arith in
        let port : (tn.port == p) ≡ true = ground arith in
        subst (λ x. lookup_tcp r x ≡ none) ((eqb_ℤ_iff _ _).0 port)
          (added.tcp_fresh ((eqb_bytes_iff _ _).0 kind))

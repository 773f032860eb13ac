-- ===== src/Cli/Remote/Up.antt =====
-- Tunnels that are up at the server of internal/server while a client registers others.
use lotun.Base.{
  Bool, true, false, ◌≡◌, refl, ap, ◌∙◌, sym, ◌⊎◌, inl, inr, Option, none, some, arith, ◌==◌, ◌&&◌,
  if◌then◌else◌,
}
use lotun.Base.Int.{int_eq, eqb_ℤ_iff}
use lotun.Base.Bytes.{bytes_eq, eqb_bytes_iff}
use lotun.Dict.{lookup}
use lotun.Protocol.{Registered, http, tcp}
use lotun.Registry.{Tunnel, lookup_http, lookup_tcp, is_in}
use lotun.Server.{Server, Draws}
use lotun.Server.Grants.{Granted, Untouched}

-- The tunnel is routed, and listens if it is a tcp one.
abbrev pub IsUp : Server → Tunnel → Type 0
IsUp s tn =
    ((tn.type ≡ http) × (lookup_http s.registry tn.subdomain ≡ some tn))
    ⊎ ((tn.type ≡ tcp)
        × (lookup_tcp s.registry tn.port ≡ some tn)
        × (is_in (lookup tn.port s.listeners) ≡ true))

-- What is up stays up.
abbrev pub Keeps : Server → Server → Type 0
Keeps s s' = (tn : Tunnel) → IsUp s tn → IsUp s' tn

kept_route :
    (new tn : Tunnel) (here : Bool) (before after : Option Tunnel)
    → after ≡ (if here then some new else before)
    → (here ≡ true → before ≡ none)
    → before ≡ some tn
    → after ≡ some tn
kept_route new tn true before after e fresh old = absurd (cc (fresh refl, old))
kept_route new tn false before after e fresh old = e ∙ old

and-true : (a b : Bool) → (a && b) ≡ true → (a ≡ true) × (b ≡ true)
and-true true b h = (refl, h)
and-true false b h = absurd cc

pub Granted-Keeps :
    (s s' : Server) (w : Draws) (new : Tunnel) (reply : Registered)
    → Granted s w new reply s'
    → Keeps s s'
Granted-Keeps s s' w new reply g tn (inl (kind, routed)) = inl (
  kind,
  kept_route new tn ((new.type == http) && (new.subdomain == tn.subdomain)) _ _
      (g.registers.http_after tn.subdomain)
      (λ h.
        let (is_http, same) = and-true _ _ h in
        ap (lookup_http s.registry) (sym ((eqb_bytes_iff _ _).0 same))
        ∙ g.registers.http_fresh ((eqb_bytes_iff _ _).0 is_http))
      routed,
)
Granted-Keeps s s' w new reply g tn (inr (kind, routed, listens)) = inr (
  kind,
  kept_route new tn ((new.type == tcp) && (new.port == tn.port)) _ _ (g.registers.tcp_after tn.port)
      (λ h.
        let (is_tcp, same) = and-true _ _ h in
        ap (lookup_tcp s.registry) (sym ((eqb_ℤ_iff _ _).0 same))
        ∙ g.registers.tcp_fresh ((eqb_bytes_iff _ _).0 is_tcp))
      routed,
  rw (g.listeners tn.port) (ground arith),
)

pub Untouched-Keeps : (s s' : Server) → Untouched s s' → Keeps s s'
Untouched-Keeps s s' u tn (inl (kind, routed)) = inl (kind, u.routes.0 tn.subdomain ∙ routed)
Untouched-Keeps s s' u tn (inr (kind, routed, listens)) =
    inr (kind, u.routes.1 tn.port ∙ routed, rw u.listeners listens)

pub Granted-IsUp :
    (s s' : Server) (w : Draws) (new : Tunnel) (reply : Registered)
    → Granted s w new reply s'
    → IsUp s' new
Granted-IsUp s s' w new reply g = elim g.kind [
  | inl (kind, _, _) ↦ inl (
    kind,
    g.registers.http_after new.subdomain
        ∙ ground (arith, eqb_bytes_iff new.type http, eqb_bytes_iff new.subdomain new.subdomain),
  )
  | inr (kind, _, _) ↦ inr (
    kind,
    g.registers.tcp_after new.port
        ∙ ground (arith, eqb_bytes_iff new.type tcp, eqb_ℤ_iff new.port new.port),
    rw (g.listeners new.port)
        (ground (arith, eqb_bytes_iff new.type tcp, eqb_ℤ_iff new.port new.port)),
  )
]

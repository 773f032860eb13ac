-- ===== src/Cli/Registering.antt =====
-- The requests of `lotun serve` (cmd/lotun/commands.go) at the server's registry.
use lotun.Base.{ℕ, Bool, true, ◌≡◌, ◌≢◌, sym, ap, ◌∙◌, ◌⊎◌, inl, inr, List, [], ◌∷◌, All, subst}
use lotun.Base.Bytes.{Bytes}
use lotun.Names.{Rand}
use lotun.Protocol.{Register, http, tcp}
use lotun.Registry.{Registry, Tunnel, Result, register, err, allow_ips_required, requested}
use lotun.Registry.Placement.{Registration, register-Registration, Placed}
use lotun.Client.{TunnelRequest, register_message}
use lotun.Cli.{TunnelConfig, accepted, tunnel_requests}
use lotun.Cli.Checks.{Accepts, BecomeRequests, Lists, tunnel_requests_lem}

refused_without_ips :
    (claimed : Bytes → Bool) (r : Registry) (req : Register) (sess : ℕ) (password : Bytes)
    (seed : List ℕ) (rng : Rand) (a : Registry × Result Tunnel × Rand)
    → Registration claimed r req sess password seed rng a
    → a.1 ≡ err allow_ips_required
    → (req.type ≡ tcp) × (req.private ≡ true) × (req.allow_ips ≡ [])
unfolding requested
refused_without_ips claimed r req sess password seed rng (r', answer, rng') (inl (e, h, _, res)) x =
    cc (res.0, h, x)
refused_without_ips claimed r req sess password seed rng (r', answer, rng') (inr (s, _, placed)) x =
    (subst (λ y. Placed r req (requested req sess password seed s) (r', y)) x placed).1

-- No registry refuses the request for lack of addresses.
abbrev pub NeverLacksIps : TunnelRequest → Type 0
NeverLacksIps req =
    (claimed : Bytes → Bool) (r : Registry) (sess : ℕ) (password : Bytes) (seed : List ℕ)
    (rng : Rand)
    → (register claimed r (register_message req) sess password seed rng).1 ≢ err allow_ips_required

Accepts-NeverLacksIps : (t : TunnelConfig) (req : TunnelRequest) → Accepts t req → NeverLacksIps req
unfolding register_message
Accepts-NeverLacksIps t req a claimed r sess password seed rng h =
    let (is_tcp, private, none_listed) =
      refused_without_ips claimed r (register_message req) sess password seed rng _
        (register-Registration claimed r (register_message req) sess password seed rng) h in
    (a.flags is_tcp).1 (sym (ap (λ x. x.private) a.copied) ∙ private)
      (sym (ap (λ x. x.allow_ips) a.copied) ∙ none_listed)

BecomeRequests-NeverLacksIps :
    (ts : List TunnelConfig) (reqs : List TunnelRequest)
    → BecomeRequests ts reqs
    → All (λ req. ((req.type ≡ http) ⊎ (req.type ≡ tcp)) × NeverLacksIps req) reqs
BecomeRequests-NeverLacksIps [] [] h = tt
BecomeRequests-NeverLacksIps (t ∷ ts) (req ∷ reqs) (a, h) =
    ((a.kind, Accepts-NeverLacksIps t req a), BecomeRequests-NeverLacksIps ts reqs h)
BecomeRequests-NeverLacksIps [] (req ∷ reqs) h = absurd h
BecomeRequests-NeverLacksIps (t ∷ ts) [] h = absurd h

-- If tunnelRequests accepts a list, each of its requests has type http or tcp, and no registry
-- ever refuses one for lack of allowed addresses.
pub tunnel_requests-NeverLacksIps :
    (ts : List TunnelConfig) (reqs : List TunnelRequest)
    → tunnel_requests ts ≡ accepted reqs
    → All (λ req. ((req.type ≡ http) ⊎ (req.type ≡ tcp)) × NeverLacksIps req) reqs
tunnel_requests-NeverLacksIps ts reqs h = elim (tunnel_requests_lem ts) [
  | inl (_, e) ↦ cc
  | inr (_, lists) ↦ BecomeRequests-NeverLacksIps ts reqs (subst (Lists 0 ts) h lists)
]

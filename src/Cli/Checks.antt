-- ===== src/Cli/Checks.antt =====
-- The checks of cmd/lotun/commands.go against what they promise, and against the server's own.
pub mod Ports
use lotun.Base.{
  ℕ, zero, suc, ◌+◌, ◌<◌, Bool, true, false, not, ◌&&◌, ◌≡◌, ◌≢◌, refl, sym, ap, ◌∙◌, ◌⊎◌, inl, inr,
  List, [], ◌∷◌, Option, none, some, arith, Bool-cases, Option-cases, ◌==◌, All, get_elem?, take,
  is_empty, if◌then◌else◌, subst,
}
use lotun.Base.Int.{ℤ, pos, ◌≤ℤ◌, ◌<ℤ◌}
use lotun.Base.Bytes.{Bytes, bytes_eq, eqb_bytes_iff, eqb_bytes}
use lotun.Protocol.{http, tcp}
use lotun.Client.{TunnelRequest}
use lotun.Cli.{
  TunnelConfig, Checked, accepted, rejected, Fault, port_out_of_range, password_for_tcp,
  private_without_ips, invalid_type, no_tunnels, at_tunnel, out_of_range, validate_tcp_flags,
  to_lower, parse_tunnel_type, request_of, tunnel_request, tunnel_requests_from, tunnel_requests,
}

pub Checked-cases {ℓ} :
    {A : Type ℓ} (c : Checked A) → ((a : A) × (c ≡ accepted a)) ⊎ ((e : Fault) × (c ≡ rejected e))
Checked-cases (accepted a) = inl (a, refl)
Checked-cases (rejected e) = inr (e, refl)

-- Entry `t` of the list becomes the request `req`.
pub record Accepts (t : TunnelConfig) (req : TunnelRequest) : Type 0 where
  pub copied : req ≡ request_of req.type t
  pub named : req.type ≡ to_lower t.type
  pub kind : (req.type ≡ http) ⊎ (req.type ≡ tcp)
  pub port : (pos 1 ≤ℤ t.port) × (t.port ≤ℤ pos 65535)
  pub flags : req.type ≡ tcp → (t.password ≡ []) × (t.private ≡ true → t.allow_ips ≢ [])

-- Why entry `t` is rejected.
abbrev pub Rejects : TunnelConfig → Fault → Type 0
Rejects t (invalid_type s) = (s ≡ t.type) × (to_lower s ≢ http) × (to_lower s ≢ tcp)
Rejects t (port_out_of_range p) = (p ≡ t.port) × ((p <ℤ pos 1) ⊎ (pos 65535 <ℤ p))
Rejects t password_for_tcp = (to_lower t.type ≡ tcp) × (t.password ≢ [])
Rejects t private_without_ips = (to_lower t.type ≡ tcp) × (t.private ≡ true) × (t.allow_ips ≡ [])
Rejects t _ = ⊥

abbrev pub Decides : TunnelConfig → Checked TunnelRequest → Type 0
Decides t (accepted req) = Accepts t req
Decides t (rejected e) = Rejects t e

http-ne-tcp : http ≢ tcp
http-ne-tcp h = cc

-- The outcome of validateTCPFlags.
abbrev pub FlagsOf : Bool → List Bytes → Bytes → Option Fault → Type 0
FlagsOf private ips password none = (password ≡ []) × (private ≡ true → ips ≢ [])
FlagsOf private ips password (some password_for_tcp) = password ≢ []
FlagsOf private ips password (some private_without_ips) = (private ≡ true) × (ips ≡ [])
FlagsOf private ips password (some _) = ⊥

pub validate_tcp_flags-FlagsOf :
    (private : Bool) (ips : List Bytes) (password : Bytes)
    → FlagsOf private ips password (validate_tcp_flags private ips password)
unfolding validate_tcp_flags eqb_bytes
validate_tcp_flags-FlagsOf private ips (c ∷ cs) = λ h. cc
validate_tcp_flags-FlagsOf true [] [] = (refl, refl)
validate_tcp_flags-FlagsOf true (ip ∷ ips) [] = (refl, λ _ h. cc)
validate_tcp_flags-FlagsOf false ips [] = (refl, λ h. cc)

Rejects-flags :
    (t : TunnelConfig) (e : Fault)
    → to_lower t.type ≡ tcp
    → FlagsOf t.private t.allow_ips t.password (some e)
    → Rejects t e
Rejects-flags t password_for_tcp h f = (h, f)
Rejects-flags t private_without_ips h f = (h, f.0, f.1)
Rejects-flags t _ h f = absurd f

in_bounds : (p : ℤ) → out_of_range p ≡ false → (pos 1 ≤ℤ p) × (p ≤ℤ pos 65535)
in_bounds p h = ground arith

out_of_bounds : (p : ℤ) → out_of_range p ≡ true → (p <ℤ pos 1) ⊎ (pos 65535 <ℤ p)
out_of_bounds p h = ground arith

Decides-tcp :
    (t : TunnelConfig)
    → to_lower t.type ≡ tcp
    → (pos 1 ≤ℤ t.port) × (t.port ≤ℤ pos 65535)
    → (o : Option Fault) → FlagsOf t.private t.allow_ips t.password o
    → Decides t (elim o [ some e ↦ rejected e | none ↦ accepted (request_of tcp t) ])
Decides-tcp t is_tcp fine (some e) f = Rejects-flags t e is_tcp f
Decides-tcp t is_tcp fine none f = record {
  copied = refl;
  named = sym is_tcp;
  kind = inr refl;
  port = fine;
  flags = λ _. f;
}

tunnel_request-Decides : (t : TunnelConfig) → Decides t (tunnel_request t)
unfolding tunnel_request parse_tunnel_type eqb_bytes
tunnel_request-Decides t =
    let is : (k : Bytes) → (to_lower t.type == k) ≡ true → to_lower t.type ≡ k =
      λ k. (eqb_bytes_iff (to_lower t.type) k).0 in
    let is_not : (k : Bytes) → (to_lower t.type == k) ≡ false → to_lower t.type ≢ k =
      λ k no yes. cc (no, (eqb_bytes_iff (to_lower t.type) k).1 yes) in
    elim (Bool-cases (to_lower t.type == http)) [
      | inl is_http ↦ elim (Bool-cases (out_of_range t.port)) [
        | inl bad ↦ rw (is_http, bad, tunnel_request) (refl, out_of_bounds t.port bad)
        | inr fine ↦
            rw (is_http, fine, tunnel_request)
              (record {
                copied = refl;
                named = sym (is http is_http);
                kind = inl refl;
                port = in_bounds t.port fine;
                flags = λ h. absurd (http-ne-tcp h);
              })
      ]
      | inr not_http ↦ elim (Bool-cases (to_lower t.type == tcp)) [
        | inr not_tcp ↦
            rw (not_http, not_tcp, tunnel_request) (refl, is_not http not_http, is_not tcp not_tcp)
        | inl is_tcp ↦ elim (Bool-cases (out_of_range t.port)) [
          | inl bad ↦ rw (not_http, is_tcp, bad, tunnel_request) (refl, out_of_bounds t.port bad)
          | inr fine ↦
              rw (not_http, is_tcp, fine, tunnel_request)
                (Decides-tcp t (is tcp is_tcp) (in_bounds t.port fine)
                  (validate_tcp_flags t.private t.allow_ips t.password)
                  (validate_tcp_flags-FlagsOf t.private t.allow_ips t.password))
        ]
      ]
    ]

-- Each entry becomes the request at its place.
abbrev pub BecomeRequests : List TunnelConfig → List TunnelRequest → Type 0
BecomeRequests [] [] = Unit
BecomeRequests (t ∷ ts) (req ∷ reqs) = Accepts t req × BecomeRequests ts reqs
BecomeRequests _ _ = ⊥

-- The first entry that is rejected, counted from `i`, is the cause of `f`.
abbrev pub FirstBad : ℕ → List TunnelConfig → Fault → Type 0
FirstBad i [] f = ⊥
FirstBad i (t ∷ ts) f =
    ((e : Fault) × (f ≡ at_tunnel i e) × Rejects t e)
    ⊎ (((req : TunnelRequest) × Accepts t req) × FirstBad (i + 1) ts f)

abbrev pub Lists : ℕ → List TunnelConfig → Checked (List TunnelRequest) → Type 0
Lists i ts (accepted reqs) = BecomeRequests ts reqs
Lists i ts (rejected f) = FirstBad i ts f

tunnel_requests_from-Lists :
    (i : ℕ) (ts : List TunnelConfig) → Lists i ts (tunnel_requests_from i ts)
unfolding tunnel_requests_from
tunnel_requests_from-Lists i [] = tt
tunnel_requests_from-Lists i (t ∷ ts) =
    let here = tunnel_request-Decides t in
    let later = tunnel_requests_from-Lists (i + 1) ts in
    elim (Checked-cases (tunnel_request t)) [
      | inr (e, h) ↦ rw (h, tunnel_requests_from) (inl (e, refl, subst (Decides t) h here))
      | inl (req, h) ↦
          let good : Accepts t req = subst (Decides t) h here in
          elim (Checked-cases (tunnel_requests_from (i + 1) ts)) [
            | inl (reqs, h') ↦
                rw (h, h', tunnel_requests_from) (good, subst (Lists (i + 1) ts) h' later)
            | inr (f, h') ↦
                rw (h, h', tunnel_requests_from)
                  (inr ((req, good), subst (Lists (i + 1) ts) h' later))
          ]
    ]

-- tunnelRequests on every list: an empty one is rejected; otherwise each entry becomes the
-- request at its place, or the error names the first entry that is rejected and why; an accepted
-- request has type http or tcp in lower case, a port from 1 to 65535, and, for tcp, no password
-- and, if private, an address.
pub tunnel_requests_lem :
    (ts : List TunnelConfig)
    → ((ts ≡ []) × (tunnel_requests ts ≡ rejected no_tunnels))
      ⊎ ((ts ≢ []) × Lists 0 ts (tunnel_requests ts))
unfolding tunnel_requests
tunnel_requests_lem [] = inl (refl, refl)
tunnel_requests_lem (t ∷ ts) = inr (λ h. cc, tunnel_requests_from-Lists 0 (t ∷ ts))

-- ===== src/Registry/Placement.antt =====
-- Register of internal/server/registry.go.
use lotun.Base.{
  ℕ, Bool, true, false, ◌≡◌, ◌≢◌, refl, ◌∙◌, ◌⊎◌, inl, inr, List, [], none, some, arith, Bool-cases,
  ◌==◌, ◌&&◌, is_empty, if◌then◌else◌,
}
use lotun.Base.Int.{ℤ, int_eq}
use lotun.Base.Bytes.{Bytes, bytes_eq, eqb_bytes_iff, eqb_bytes}
use lotun.Dict.{insert}
use lotun.Dict.Laws.{lookup-insert}
use lotun.Names.{Rand}
use lotun.Protocol.{Register, http, tcp}
use lotun.Registry.{
  Registry, Tunnel, Result, Error, ok, err, Result-cases, lookup_http, lookup_tcp, place, requested,
  resolve_sub, register, alloc_port, sub_taken, port_taken, subdomain_in_use, allow_ips_required,
  not_claimed, free_name,
}
use lotun.Registry.Ports.{alloc_port-Allocated, Allocated}

-- What a call that succeeds leaves: the new tunnel is routed where nothing was, and no other route changes.
pub record Registers (r : Registry) (tn : Tunnel) (r' : Registry) : Type 0 where
  pub http_after :
      (s : Bytes)
      → lookup_http r' s
        ≡ (if (tn.type == http) && (tn.subdomain == s) then some tn else lookup_http r s)
  pub tcp_after :
      (p : ℤ)
      → lookup_tcp r' p ≡ (if (tn.type == tcp) && (tn.port == p) then some tn else lookup_tcp r p)
  pub http_fresh : tn.type ≡ http → lookup_http r tn.subdomain ≡ none
  pub tcp_fresh : tn.type ≡ tcp → lookup_tcp r tn.port ≡ none

-- Why a request for the tunnel `tn` is refused once its subdomain is settled.
abbrev pub Refused : Registry → Register → Tunnel → Error → Type 0
Refused r req tn subdomain_in_use = (tn.type ≡ http) × (sub_taken r tn.subdomain ≡ true)
Refused r req tn allow_ips_required = (tn.type ≡ tcp) × (tn.private ≡ true) × (tn.allow_ips ≡ [])
Refused r req tn e = (tn.type ≡ tcp) × Allocated r req.remote_port req.local_port (err e)

-- The public port of a placed tunnel.
abbrev pub PortOf : Registry → Register → Tunnel → ℤ → Type 0
PortOf r req tn p =
    if tn.type == tcp then Allocated r req.remote_port req.local_port (ok p) else (p ≡ tn.port)

abbrev pub Placed : Registry → Register → Tunnel → Registry × Result Tunnel → Type 0
Placed r req tn (r', ok u) =
    (u ≡ record tn { port = u.port }) × PortOf r req tn u.port × Registers r u r'
Placed r req tn (r', err e) = (r' ≡ r) × Refused r req tn e

http-ne-tcp : (t : Bytes) → t ≡ http → (t == tcp) ≡ false
unfolding eqb_bytes
http-ne-tcp t h = rw h

tcp-ne-http : (t : Bytes) → t ≡ tcp → (t == http) ≡ false
unfolding eqb_bytes
tcp-ne-http t h = rw h

place_http :
    (r : Registry) (tn : Tunnel)
    → tn.type ≡ http
    → sub_taken r tn.subdomain ≡ false
    → Registers r tn (record r { http_by_sub = insert tn.subdomain tn r.http_by_sub })
unfolding lookup_http lookup_tcp sub_taken
place_http r tn t free = record {
  http_after = λ s. rw ((eqb_bytes_iff _ _).1 t) (lookup-insert tn.subdomain s tn r.http_by_sub);
  tcp_after = λ p. rw (http-ne-tcp _ t) refl;
  http_fresh = λ _. ground arith;
  tcp_fresh = λ h. ground (arith, http-ne-tcp tn.type t, eqb_bytes_iff tn.type tcp);
}

place_tcp :
    (r : Registry) (tn : Tunnel)
    → tn.type ≡ tcp
    → port_taken r tn.port ≡ false
    → Registers r tn (record r { tcp_by_port = insert tn.port tn r.tcp_by_port })
unfolding lookup_http lookup_tcp port_taken
place_tcp r tn t free = record {
  http_after = λ s. rw (tcp-ne-http _ t) refl;
  tcp_after = λ p. rw ((eqb_bytes_iff _ _).1 t) (lookup-insert tn.port p tn r.tcp_by_port);
  http_fresh = λ h. ground (arith, http-ne-tcp tn.type h, eqb_bytes_iff tn.type tcp);
  tcp_fresh = λ h. ground arith;
}

place_neither :
    (r : Registry) (tn : Tunnel)
    → (tn.type == http) ≡ false
    → (tn.type == tcp) ≡ false
    → Registers r tn r
place_neither r tn h t = record {
  http_after = λ s. rw h;
  tcp_after = λ p. rw t;
  http_fresh = λ e. ground (arith, eqb_bytes_iff tn.type http);
  tcp_fresh = λ e. ground (arith, eqb_bytes_iff tn.type tcp);
}

Refused-Allocated :
    (r : Registry) (req : Register) (tn : Tunnel) (e : Error)
    → tn.type ≡ tcp
    → Allocated r req.remote_port req.local_port (err e)
    → Refused r req tn e
Refused-Allocated r req tn subdomain_in_use t a = absurd a
Refused-Allocated r req tn allow_ips_required t a = absurd a
Refused-Allocated r req tn _ t a = (t, a)

-- `switch req.Type` on every branch. A type that is neither http nor tcp is accepted and routed nowhere.
place-Placed :
    (r : Registry) (req : Register) (tn : Tunnel)
    → tn.type ≡ req.type
    → tn.private ≡ req.private
    → tn.allow_ips ≡ req.allow_ips
    → Placed r req tn (place r req tn)
unfolding place
place-Placed r req tn t pr al = elim (Bool-cases (req.type == http)) [
  | inl is_http ↦
      let th : tn.type ≡ http = t ∙ (eqb_bytes_iff _ _).0 is_http in
      elim (Bool-cases (sub_taken r tn.subdomain)) [
        | inl taken ↦ rw (is_http, taken) (refl, (th, taken))
        | inr free ↦ rw (is_http, free) (refl, rw (http-ne-tcp _ th) refl, place_http r tn th free)
      ]
  | inr not_http ↦ elim (Bool-cases (req.type == tcp)) [
    | inr other ↦
        rw (not_http, other)
          (refl, rw (t, other) refl, place_neither r tn (rw t not_http) (rw t other))
    | inl is_tcp ↦
        let t' : tn.type ≡ tcp = t ∙ (eqb_bytes_iff _ _).0 is_tcp in
        let granted = alloc_port-Allocated r req.remote_port req.local_port in
        elim (Bool-cases (req.private && is_empty req.allow_ips)) [
          | inl open_list ↦
              rw (not_http, is_tcp, open_list) (refl, (t', ground arith, ground arith))
          | inr listed ↦ elim (Result-cases (alloc_port r req.remote_port req.local_port)) [
            | inl (e, failed) ↦
                rw (not_http, is_tcp, listed, failed)
                  (refl, Refused-Allocated r req tn e t' (rw failed at granted))
            | inr (q, got) ↦
                rw (not_http, is_tcp, listed, got)
                  (
                    refl,
                    rw ((eqb_bytes_iff _ _).1 t') (rw got at granted),
                    place_tcp r (record tn { port = q }) t' (rw got at granted).1,
                  )
          ]
        ]
  ]
]

-- The subdomain that a request gets, or why it gets none.
abbrev pub Resolved : (Bytes → Bool) → Registry → Bytes → Rand → Result Bytes × Rand → Type 0
Resolved claimed r domain rng (ok s, rng') =
    ((domain ≡ []) × ((s, rng') ≡ free_name claimed r rng))
    ⊎ ((domain ≢ []) × (s ≡ domain) × (claimed domain ≡ true) × (rng' ≡ rng))
Resolved claimed r domain rng (err e, rng') =
    (e ≡ not_claimed) × (domain ≢ []) × (claimed domain ≡ false) × (rng' ≡ rng)

resolve_sub-Resolved :
    (claimed : Bytes → Bool) (r : Registry) (domain : Bytes) (rng : Rand)
    → Resolved claimed r domain rng (resolve_sub claimed r domain rng)
unfolding resolve_sub
resolve_sub-Resolved claimed r domain rng = elim (Bool-cases (domain == [])) [
  | inl auto ↦ rw auto (inl ((eqb_bytes_iff _ _).0 auto, refl))
  | inr explicit ↦
      let named : domain ≢ [] = λ e. ground (arith, eqb_bytes_iff domain []) in
      elim (Bool-cases (claimed domain)) [
        | inl held ↦ rw (explicit, held) (inr (named, refl, held, refl))
        | inr free ↦ rw (explicit, free) (refl, named, free, refl)
      ]
]

-- A call on every branch: where it fails the table is as before.
abbrev pub Registration :
    (Bytes → Bool)
    → Registry
    → Register
    → ℕ
    → Bytes
    → List ℕ
    → Rand
    → Registry × Result Tunnel × Rand
    → Type 0
Registration claimed r req sess password seed rng (r', answer, rng') =
    ((e : Error) × (answer ≡ err e) × (r' ≡ r) × Resolved claimed r req.domain rng (err e, rng'))
    ⊎ ((s : Bytes) × Resolved claimed r req.domain rng (ok s, rng')
        × Placed r req (requested req sess password seed s) (r', answer))

-- Register on every branch: a request for an unclaimed subdomain is refused and changes nothing;
-- otherwise the tunnel gets its subdomain, its ID and, for tcp, the allocated port, is routed
-- where nothing was, and no other route changes; each refusal has its cause and changes nothing.
pub register-Registration :
    (claimed : Bytes → Bool) (r : Registry) (req : Register) (sess : ℕ) (password : Bytes)
    (seed : List ℕ) (rng : Rand)
    → Registration claimed r req sess password seed rng
        (register claimed r req sess password seed rng)
unfolding register
register-Registration claimed r req sess password seed rng =
    let resolved = resolve_sub-Resolved claimed r req.domain rng in
    elim (Result-cases (resolve_sub claimed r req.domain rng).0) [
      | inl (e, failed) ↦ rw (failed, register) (inl (e, refl, refl, rw failed at resolved))
      | inr (s, got) ↦
          rw (got, register) (inr (s, rw got at resolved, place-Placed r req _ refl refl refl))
    ]

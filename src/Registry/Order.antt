-- ===== src/Registry/Order.antt =====
-- The order of Go's maps: two tables of internal/server/registry.go whose lookups agree cannot be
-- told apart, however their entries lie.
use lotun.Base.{
  ℕ, zero, suc, Bool, ◌&&◌, ◌≡◌, refl, sym, ap, ap₂, fun_ext, ◌∙◌, inl, inr, List, [], ◌∷◌, arith,
  ◌==◌, nat_eq, elem, Bool-cases, is_empty,
}
use lotun.Base.Int.{ℤ, pos, ◌+ℤ◌, int_eq}
use lotun.Base.Bytes.{Bytes, bytes_eq}
use lotun.Dict.{insert}
use lotun.Dict.Laws.{lookup-insert, unless, is_some_and}
use lotun.Names.{Rand, generate_from}
use lotun.Protocol.{Register, http, tcp}
use lotun.Registry.{
  Registry, Tunnel, Result, Result-cases, lookup_http, lookup_tcp, port_taken, sub_taken, in_range,
  scan_ports, range_size, alloc_port, free_name_from, free_name, name_tries, resolve_sub, place,
  requested, register, remove, remove_session,
}
use lotun.Registry.Valid.{IsValid}
use lotun.Registry.Removal.{remove_lem, remove_session_lem}
use lotun.Registry.History.{Call, registers, removes, removes_session, apply, run, apply-IsValid}

-- Two tables with the same range of ports whose lookups answer alike.
pub record Agree (r r' : Registry) : Type 0 where
  pub on_http : (s : Bytes) → lookup_http r s ≡ lookup_http r' s
  pub on_tcp : (p : ℤ) → lookup_tcp r p ≡ lookup_tcp r' p
  pub on_min : r.port_min ≡ r'.port_min
  pub on_max : r.port_max ≡ r'.port_max

module _ (r r' : Registry) (a : Agree r r') where
  port_taken-Agree : (p : ℤ) → port_taken r p ≡ port_taken r' p
  unfolding port_taken lookup_tcp
  port_taken-Agree p = rw (a.on_tcp p) refl

  sub_taken-Agree : (s : Bytes) → sub_taken r s ≡ sub_taken r' s
  unfolding sub_taken lookup_http
  sub_taken-Agree s = rw (a.on_http s) refl

  scan_ports-Agree : (n : ℕ) (p : ℤ) → scan_ports n r p ≡ scan_ports n r' p
  unfolding scan_ports
  scan_ports-Agree zero p = refl
  scan_ports-Agree (suc n) p = ground (arith, port_taken-Agree p, scan_ports-Agree n (p +ℤ pos 1))

  alloc_port-Agree :
      (want local_port : ℤ) → alloc_port r want local_port ≡ alloc_port r' want local_port
  unfolding alloc_port in_range range_size
  alloc_port-Agree want local_port =
      rw
        (
          port_taken-Agree want,
          port_taken-Agree local_port,
          scan_ports-Agree _ _,
          a.on_min,
          a.on_max,
        )
        refl

  free_name_from-Agree :
      (n : ℕ) (claimed : Bytes → Bool) (rng : Rand)
      → free_name_from n claimed r rng ≡ free_name_from n claimed r' rng
  unfolding free_name_from
  free_name_from-Agree zero claimed rng = refl
  free_name_from-Agree (suc n) claimed rng = ground (
    arith,
    sub_taken-Agree (generate_from rng).0,
    free_name_from-Agree n claimed (generate_from rng).1,
  )

  resolve_sub-Agree :
      (claimed : Bytes → Bool) (domain : Bytes) (rng : Rand)
      → resolve_sub claimed r domain rng ≡ resolve_sub claimed r' domain rng
  unfolding resolve_sub free_name
  resolve_sub-Agree claimed domain rng = rw (free_name_from-Agree name_tries claimed rng) refl

  add_http-Agree :
      (tn : Tunnel)
      → Agree
          (record r { http_by_sub = insert tn.subdomain tn r.http_by_sub })
          (record r' { http_by_sub = insert tn.subdomain tn r'.http_by_sub })
  unfolding lookup_http lookup_tcp
  add_http-Agree tn = record {
    on_http = λ s. ground (
      arith,
      a.on_http s,
      lookup-insert tn.subdomain s tn r.http_by_sub,
      lookup-insert tn.subdomain s tn r'.http_by_sub,
    );
    on_tcp = a.on_tcp;
    on_min = a.on_min;
    on_max = a.on_max;
  }

  add_tcp-Agree :
      (q : ℤ) (tn : Tunnel)
      → Agree
          (record r { tcp_by_port = insert q tn r.tcp_by_port })
          (record r' { tcp_by_port = insert q tn r'.tcp_by_port })
  unfolding lookup_http lookup_tcp
  add_tcp-Agree q tn = record {
    on_http = a.on_http;
    on_tcp = λ p. ground (
      arith,
      a.on_tcp p,
      lookup-insert q p tn r.tcp_by_port,
      lookup-insert q p tn r'.tcp_by_port,
    );
    on_min = a.on_min;
    on_max = a.on_max;
  }

  place-Agree :
      (req : Register) (tn : Tunnel)
      → Agree (place r req tn).0 (place r' req tn).0 × ((place r req tn).1 ≡ (place r' req tn).1)
  unfolding place
  place-Agree req tn = elim (Bool-cases (req.type == http)) [
    | inl is_http ↦ elim (Bool-cases (sub_taken r tn.subdomain)) [
      | inl taken ↦ rw (is_http, taken, sym (sub_taken-Agree tn.subdomain) ∙ taken) (a, refl)
      | inr free ↦
          rw (is_http, free, sym (sub_taken-Agree tn.subdomain) ∙ free) (add_http-Agree tn, refl)
    ]
    | inr not_http ↦ elim (Bool-cases (req.type == tcp)) [
      | inr other ↦ rw (not_http, other) (a, refl)
      | inl is_tcp ↦ elim (Bool-cases (req.private && is_empty req.allow_ips)) [
        | inl open_list ↦ rw (not_http, is_tcp, open_list) (a, refl)
        | inr listed ↦
            let same = alloc_port-Agree req.remote_port req.local_port in
            elim (Result-cases (alloc_port r req.remote_port req.local_port)) [
              | inl (e, failed) ↦ rw (not_http, is_tcp, listed, failed, sym same ∙ failed) (a, refl)
              | inr (q, got) ↦
                  rw (not_http, is_tcp, listed, got, sym same ∙ got)
                    (add_tcp-Agree q (record tn { port = q }), refl)
            ]
      ]
    ]
  ]

  register-Agree :
      (claimed : Bytes → Bool) (req : Register) (sess : ℕ) (password : Bytes) (seed : List ℕ)
      (rng : Rand)
      → let (t, answer, rest) = register claimed r req sess password seed rng in
        let (t', answer', rest') = register claimed r' req sess password seed rng in
        Agree t t' × (answer ≡ answer') × (rest ≡ rest')
  unfolding register
  register-Agree claimed req sess password seed rng =
      let same = resolve_sub-Agree claimed req.domain rng in
      elim (Result-cases (resolve_sub claimed r' req.domain rng).0) [
        | inl (e, failed) ↦
            rw (same, register) (rw (failed, register) (a, refl, ap (λ x. x.1) same))
        | inr (s, got) ↦
            rw (same, register)
              (rw (got, register)
                (let (agree, answers) = place-Agree req (requested req sess password seed s) in
                  (agree, answers, ap (λ x. x.1) same)))
      ]

  module _ (v : IsValid r) (v' : IsValid r') where
    remove-Agree : (id : Bytes) → Agree (remove r id) (remove r' id)
    unfolding remove
    remove-Agree id = record {
      on_http = λ s.
          (remove_lem r id s (pos 0) v).0
          ∙ ap (unless (λ tn. tn.id == id)) (a.on_http s)
          ∙ sym (remove_lem r' id s (pos 0) v').0;
      on_tcp = λ p.
          (remove_lem r id [] p v).1
          ∙ ap (unless (λ tn. tn.id == id)) (a.on_tcp p)
          ∙ sym (remove_lem r' id [] p v').1;
      on_min = a.on_min;
      on_max = a.on_max;
    }

    remove_session-Agree : (sess : ℕ) → Agree (remove_session r sess).0 (remove_session r' sess).0
    unfolding remove_session
    remove_session-Agree sess = record {
      on_http = λ s.
          (remove_session_lem r sess s (pos 0) v).0
          ∙ ap (unless (λ tn. tn.session == sess)) (a.on_http s)
          ∙ sym (remove_session_lem r' sess s (pos 0) v').0;
      on_tcp = λ p.
          (remove_session_lem r sess [] p v).1
          ∙ ap (unless (λ tn. tn.session == sess)) (a.on_tcp p)
          ∙ sym (remove_session_lem r' sess [] p v').1;
      on_min = a.on_min;
      on_max = a.on_max;
    }

    freed-Agree :
        (sess : ℕ) (p : ℤ) → elem p (remove_session r sess).1 ≡ elem p (remove_session r' sess).1
    freed-Agree sess p =
        (remove_session_lem r sess [] p v).2
        ∙ ap (is_some_and (λ tn. tn.session == sess)) (a.on_tcp p)
        ∙ sym (remove_session_lem r' sess [] p v').2

-- What a call answers. Of the ports that RemoveSession frees only which they are counts, since the
-- server closes the listener of each.
pub data Answer : Type 0 where
  registration : Result Tunnel → Rand → Answer
  removed : Answer
  freed : (ℤ → Bool) → Answer

abbrev pub answer : Registry → Call → Answer
answer r (registers claimed req sess password seed rng) =
    let (r', answer, rest) = register claimed r req sess password seed rng in
    registration answer rest
answer r (removes id) = removed
answer r (removes_session sess) = freed (λ p. elem p (remove_session r sess).1)

abbrev pub answers : Registry → List Call → List Answer
answers r [] = []
answers r (c ∷ cs) = answer r c ∷ answers (apply r c) cs

pub apply-Agree :
    (r r' : Registry) (c : Call)
    → IsValid r
    → IsValid r'
    → Agree r r'
    → Agree (apply r c) (apply r' c) × (answer r c ≡ answer r' c)
unfolding apply
apply-Agree r r' (registers claimed req sess password seed rng) v v' a =
    let (agree, same, rest) = register-Agree r r' a claimed req sess password seed rng in
    (agree, ap₂ registration same rest)
apply-Agree r r' (removes id) v v' a = (remove-Agree r r' a v v' id, refl)
apply-Agree r r' (removes_session sess) v v' a =
    (remove_session-Agree r r' a v v' sess, ap freed (fun_ext (freed-Agree r r' a v v' sess)))

-- The order of Go's maps cannot be seen: two valid tables with the same range of ports, whose
-- lookups answer alike, give the same answers to every sequence of Register, Remove and
-- RemoveSession calls, ports that RemoveSession frees counted without their order, and their
-- lookups answer alike afterwards.
pub run-Agree :
    (r r' : Registry) (cs : List Call)
    → IsValid r
    → IsValid r'
    → Agree r r'
    → Agree (run r cs) (run r' cs) × (answers r cs ≡ answers r' cs)
unfolding run
run-Agree r r' [] v v' a = (a, refl)
run-Agree r r' (c ∷ cs) v v' a =
    let (agree, same) = apply-Agree r r' c v v' a in
    let (agree', same') =
      run-Agree (apply r c) (apply r' c) cs (apply-IsValid r c v) (apply-IsValid r' c v') agree in
    (agree', ap₂ (◌∷◌) same same')

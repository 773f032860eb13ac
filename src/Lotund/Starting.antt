-- ===== src/Lotund/Starting.antt =====
-- How `lotund` of cmd/lotund/main.go starts, or why it does not.
use lotun.Base.{
  false, ◌≡◌, ◌≢◌, refl, sym, ap, ◌∙◌, ◌⊎◌, inl, inr, [], ◌++◌, Option, none, some, arith,
  Option-cases,
}
use lotun.Base.Bytes.{Bytes, bytes, bytes_eq, eqb_bytes_iff}
use lotun.Json.{JsonText}
use lotun.Store.{FileStore, open_store}
use lotun.Server.{Server, new_server}
use lotun.Server.Sessions.{IsSound}
use lotun.Server.Connections.{new_server-IsSound}
use lotun.Running.{
  Listen, bound, refused, Started, serving, failed, serving_at, listen_control, start_run,
}
use lotun.Running.Loops.{IsRun, start-IsRun}
use lotun.Config.{ServerConfig}
use lotun.Lotund.{Machine, init_error, run}

-- The causes of each outcome of a start, the first one that applies.
abbrev pub Starts : JsonText → ServerConfig → Machine → Started → Type 0
Starts json cfg m (serving r) =
    (m.mkdir ≡ none)
    × (open_store json m.unreadable m.disk ≡ some r.server.store)
    × (r.server.disk ≡ m.disk)
    × (r.server.token ≡ cfg.token)
    × (cfg.token ≢ [])
    × (r.server.base_domain ≡ cfg.base_domain)
    × (cfg.base_domain ≢ [])
    × IsSound r.server
    × (listen_control cfg.control_tls_cert m.sockets ≡ bound r.ctrl_addr)
    × (m.sockets.http ≡ bound r.http_addr)
    × IsRun r
    × (r.result ≡ none)
Starts json cfg m (failed e open_still) =
    (open_still ≡ false)
    × (((e' : Bytes) × (m.mkdir ≡ some e') × (e ≡ bytes "create data dir: " ++ e'))
        ⊎ ((m.mkdir ≡ none)
            × (open_store json m.unreadable m.disk ≡ none)
            × (e ≡ bytes "open claim store: " ++ m.open_error))
        ⊎ ((m.mkdir ≡ none)
            × (open_store json m.unreadable m.disk ≢ none)
            × ((cfg.token ≡ []) ⊎ (cfg.base_domain ≡ []))
            × (e ≡ bytes "init server: " ++ init_error cfg))
        ⊎ ((m.mkdir ≡ none)
            × (open_store json m.unreadable m.disk ≢ none)
            × ((cfg.token ≢ []) × (cfg.base_domain ≢ []))
            × (((e' : Bytes) × (listen_control cfg.control_tls_cert m.sockets ≡ refused e')
                  × (e ≡ bytes "server: control listen: " ++ e'))
                ⊎ ((e' : Bytes) × (a : Bytes) × (listen_control cfg.control_tls_cert m.sockets
                      ≡ bound a)
                    × (m.sockets.http ≡ refused e')
                    × (e ≡ bytes "server: http listen: " ++ e')))))

Listen-cases : (l : Listen) → ((a : Bytes) × (l ≡ bound a)) ⊎ ((e : Bytes) × (l ≡ refused e))
Listen-cases (bound a) = inl (a, refl)
Listen-cases (refused e) = inr (e, refl)

new_server-none :
    (cfg : ServerConfig) (m : Machine) (claims : FileStore)
    → new_server cfg.token cfg.base_domain cfg.tcp_port_min cfg.tcp_port_max claims m.disk m.rng
      ≡ none
    → (cfg.token ≡ []) ⊎ (cfg.base_domain ≡ [])
unfolding new_server
new_server-none cfg m claims h =
    ground (arith, eqb_bytes_iff cfg.token [], eqb_bytes_iff cfg.base_domain [])

new_server-some :
    (cfg : ServerConfig) (m : Machine) (claims : FileStore) (s : Server)
    → new_server cfg.token cfg.base_domain cfg.tcp_port_min cfg.tcp_port_max claims m.disk m.rng
      ≡ some s
    → (s.token ≡ cfg.token)
      × (cfg.token ≢ [])
      × (s.base_domain ≡ cfg.base_domain)
      × (cfg.base_domain ≢ [])
      × (s.store ≡ claims)
      × (s.disk ≡ m.disk)
unfolding new_server
new_server-some cfg m claims s h =
    ground (arith, eqb_bytes_iff cfg.token [], eqb_bytes_iff cfg.base_domain [])

some-ne-none : {A : Type 0} {o : Option A} {a : A} → o ≡ some a → o ≢ none
some-ne-none e h = cc

-- From a server that New has made.
start_run-Starts :
    (json : JsonText) (cfg : ServerConfig) (m : Machine) (claims : FileStore) (s : Server)
    → m.mkdir ≡ none
    → open_store json m.unreadable m.disk ≡ some claims
    → new_server cfg.token cfg.base_domain cfg.tcp_port_min cfg.tcp_port_max claims m.disk m.rng
      ≡ some s
    → Starts json cfg m (start_run s cfg.control_tls_cert m.sockets)
unfolding start_run
start_run-Starts json cfg m claims s made opened new =
    let (token, has_token, base, has_base, store, disk) = new_server-some cfg m claims s new in
    let ready = some-ne-none opened in
    let sound = new_server-IsSound _ _ _ _ claims m.disk m.rng s new in
    elim (Listen-cases (listen_control cfg.control_tls_cert m.sockets)) [
      | inr (e, no_control) ↦
          let is : start_run s cfg.control_tls_cert m.sockets
              ≡ failed (bytes "server: control listen: " ++ e) false =
            rw (no_control, start_run) refl in
          rw is
            (refl, inr (inr (inr (made, ready, (has_token, has_base), inl (e, no_control, refl)))))
      | inl (a, control) ↦ elim (Listen-cases m.sockets.http) [
        | inr (e, no_http) ↦
            let is : start_run s cfg.control_tls_cert m.sockets
                ≡ failed (bytes "server: http listen: " ++ e) false =
              rw (control, no_http, start_run) refl in
            rw is (
              refl,
              inr (
                  inr
                    (inr (made, ready, (has_token, has_base), inr (e, a, control, no_http, refl)))),
            )
        | inl (h, http) ↦
            let is : start_run s cfg.control_tls_cert m.sockets ≡ serving (serving_at s a h) =
              rw (control, http, start_run) refl in
            rw is (
              made,
              opened ∙ ap some (sym store),
              disk,
              token,
              has_token,
              base,
              has_base,
              sound,
              control,
              http,
              start-IsRun s a h,
              refl,
            )
      ]
    ]

-- How lotund starts, on every branch: it serves exactly if the data directory is made, the claims
-- are read, token and base domain are set and both listeners bind, and then its server holds the
-- claims of the file and is sound; otherwise it ends with the error of the first of these that
-- fails, and leaves no listener open.
pub run-Starts :
    (json : JsonText) (cfg : ServerConfig) (m : Machine) → Starts json cfg m (run json cfg m)
unfolding run
run-Starts json cfg m = elim (Option-cases m.mkdir) [
  | inr (e, no_dir) ↦
      let is : run json cfg m ≡ failed (bytes "create data dir: " ++ e) false =
        rw (no_dir, run) refl in
      rw is (refl, inl (e, no_dir, refl))
  | inl made ↦ elim (Option-cases (open_store json m.unreadable m.disk)) [
    | inl broken ↦
        let is : run json cfg m ≡ failed (bytes "open claim store: " ++ m.open_error) false =
          rw (made, broken, run) refl in
        rw is (refl, inr (inl (made, broken, refl)))
    | inr (claims, opened) ↦
        elim (Option-cases (
          new_server cfg.token cfg.base_domain cfg.tcp_port_min cfg.tcp_port_max claims m.disk
            m.rng)) [
              | inl bad ↦
                  let is : run json cfg m ≡ failed (bytes "init server: " ++ init_error cfg) false =
                    rw (made, opened, bad, run) refl in
                  rw is (
                    refl,
                    inr (
                        inr (
                          inl (made, some-ne-none opened, new_server-none cfg m claims bad, refl))),
                  )
              | inr (s, new) ↦
                  let is : run json cfg m ≡ start_run s cfg.control_tls_cert m.sockets =
                    rw (made, opened, new, run) refl in
                  rw is (start_run-Starts json cfg m claims s made opened new)
            ]
  ]
]

-- ===== src/Cli/Login.antt =====
-- `lotun login` of cmd/lotun/commands.go and loadConnectedConfig, over the files that they read and
-- write.
use lotun.Base.{
  ℕ, true, false, ◌≡◌, ◌≢◌, refl, subst, inl, inr, [], ◌++◌, none, some, arith, Option-cases, ◌==◌,
}
use lotun.Base.Bytes.{Bytes, bytes, bytes_eq, eqb_bytes_iff}
use lotun.Dict.{Dict, lookup}
use lotun.Cli.{
  ClientConfig, unreadable_config, system, Checked, accepted, rejected, LoginFlags, login_check,
  logged_in, connected_config,
}
use lotun.Config.Saving.{Leaves, save_client-left}
use lotun.Cli.Commands.{rejected-ne-accepted}
use lotun.Config.{File, Viper, Access, text, new_viper, contents, load_client, save_client}

-- loadConnectedConfig(path)
unfoldable pub load_connected_config :
    Viper → Dict Bytes File → Access → Bytes → Checked ClientConfig
load_connected_config viper files access path = elim (load_client viper files access path) [
  | none ↦ rejected unreadable_config
  | some c ↦ connected_config c
]

-- `lotun login`: its output or its error, and the files.
unfoldable pub login :
    Viper → Dict Bytes File → Access → Bytes → LoginFlags → Checked Bytes × Dict Bytes File
login viper files access path flags = elim (login_check flags) [
  | some e ↦ (rejected e, files)
  | none ↦ elim (load_client viper files access path) [
    | none ↦ (rejected unreadable_config, files)
    | some c ↦
        let (failure, files') = save_client viper files access path (logged_in flags c) in
        elim failure [
          | some e ↦ (rejected (system e), files')
          | none ↦ (accepted (bytes "Saved config to " ++ (path ++ bytes "\n")), files')
        ]
  ]
]

-- Viper reads what yaml.Marshal wrote at a path as what it was given, as it does at a path with the
-- extension of YAML where the environment sets none of the keys.
abbrev pub ReadsBack : Viper → Bytes → Type 0
ReadsBack viper path =
    (c : ClientConfig) (t : Bytes)
    → viper.marshal c ≡ some t
    → (viper.read_in_config path (some t) ≡ text t)
      × (viper.unmarshal_client (record (new_viper (bytes "LOTUN") path) { file = some t })
          ≡ some c)

pub load_client-saved :
    (viper : Viper) (files : Dict Bytes File) (access : Access) (path : Bytes) (c : ClientConfig)
    (t : Bytes) (mode : ℕ)
    → ReadsBack viper path
    → path ≢ []
    → access.readable ≡ true
    → viper.marshal c ≡ some t
    → lookup path files ≡ some (record { text = t; mode = mode })
    → load_client viper files access path ≡ some c
unfolding load_client
load_client-saved viper files access path c t mode back ne readable ht stored =
    let (read, loaded) = back c t ht in
    let named : (path == []) ≡ false = ground (arith, eqb_bytes_iff path []) in
    let found : contents viper files access path ≡ some t = rw (stored, readable, contents) refl in
    rw (named, found, read, load_client) loaded

checked : (flags : LoginFlags) → login_check flags ≡ none → (flags.server ≢ []) × (flags.token ≢ [])
unfolding login_check
checked flags h = ground (arith, eqb_bytes_iff flags.server [], eqb_bytes_iff flags.token [])

connected_config-logged_in :
    (flags : LoginFlags) (c : ClientConfig)
    → login_check flags ≡ none
    → connected_config (logged_in flags c) ≡ accepted (logged_in flags c)
unfolding connected_config logged_in
connected_config-logged_in flags c h =
    let (server, token) = checked flags h in
    ground (arith, eqb_bytes_iff flags.server [], eqb_bytes_iff flags.token [])

-- After `lotun login` has saved what it made of the configuration `c`.
load_connected_config-saved :
    (viper : Viper) (files files' : Dict Bytes File) (access access' : Access) (path : Bytes)
    (flags : LoginFlags) (c : ClientConfig)
    → ReadsBack viper path
    → path ≢ []
    → access'.readable ≡ true
    → login_check flags ≡ none
    → Leaves viper files access path (logged_in flags c) none (lookup path files')
    → load_connected_config viper files' access' path ≡ accepted (logged_in flags c)
unfolding load_connected_config
load_connected_config-saved viper files files' access access' path flags c back ne readable ok
      left =
    let (t, printed, stored, _, _, _) = left in
    rw
      (
        load_client-saved viper files' access' path (logged_in flags c) t _ back ne readable printed
            stored,
        load_connected_config,
      )
      (connected_config-logged_in flags c ok)

pub login-load_connected_config :
    (viper : Viper) (files : Dict Bytes File) (access access' : Access) (path : Bytes)
    (flags : LoginFlags) (out : Bytes)
    → ReadsBack viper path
    → path ≢ []
    → access'.readable ≡ true
    → let (result, files') = login viper files access path flags in
      result ≡ accepted out
      → (c : ClientConfig) × (load_client viper files access path ≡ some c)
        × (load_connected_config viper files' access' path ≡ accepted (logged_in flags c))
unfolding login
login-load_connected_config viper files access access' path flags out back ne readable h =
    elim (Option-cases (login_check flags)) [
      | inr (e, bad) ↦ absurd (rejected-ne-accepted _ _ (rw (bad, login) at h))
      | inl ok ↦ elim (Option-cases (load_client viper files access path)) [
        | inl broken ↦ absurd (rejected-ne-accepted _ _ (rw (ok, broken, login) at h))
        | inr (c, loaded) ↦
            let saved = save_client viper files access path (logged_in flags c) in
            elim (Option-cases saved.0) [
              | inr (e, lost) ↦
                  absurd (rejected-ne-accepted _ _ (rw (ok, loaded, lost, login) at h))
              | inl kept ↦
                  let left =
                    subst
                      (λ x.
                        Leaves viper files access path (logged_in flags c) x (lookup path saved.1))
                      kept (save_client-left viper files access path (logged_in flags c)) in
                  let read =
                    load_connected_config-saved viper files saved.1 access access' path flags c back
                      ne readable ok left in
                  (c, loaded, rw (ok, loaded, kept, login) read)
            ]
      ]
    ]

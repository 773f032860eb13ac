-- ===== src/Config/Saving.antt =====
-- SaveClient of internal/config/config.go, and what LoadClient makes of the file.
use lotun.Base.{ℕ, ◌≡◌, ◌≢◌, refl, ◌⊎◌, inl, inr, Option, none, some, Option-cases, take}
use lotun.Base.Bytes.{Bytes, bytes_eq}
use lotun.Dict.{Dict, lookup}
use lotun.Dict.Laws.{lookup-insert_same, lookup-insert_other}
use lotun.Cli.{ClientConfig}
use lotun.Config.{File, Viper, Access, mode_of, write_file, save_client}

-- What SaveClient leaves at its path, for each of its results.
abbrev pub Leaves :
    Viper → Dict Bytes File → Access → Bytes → ClientConfig → Option Bytes → Option File → Type 0
Leaves viper files access path c none after =
    (t : Bytes) × (viper.marshal c ≡ some t)
    × (after ≡ some (record { text = t; mode = mode_of (lookup path files) 384 }))
    × (access.mkdir ≡ none)
    × (access.create ≡ none)
    × (access.write ≡ none)
Leaves viper files access path c (some e) after =
    ((after ≡ lookup path files)
      × ((access.mkdir ≢ none) ⊎ (viper.marshal c ≡ none) ⊎ (access.create ≢ none)))
    ⊎ ((t : Bytes) × (n : ℕ) × (viper.marshal c ≡ some t)
        × (access.write ≡ some (n, e))
        × (after ≡ some (record { text = take n t; mode = mode_of (lookup path files) 384 })))

save_client-Leaves :
    (viper : Viper) (files : Dict Bytes File) (access : Access) (path : Bytes) (c : ClientConfig)
    (mkdir : Option Bytes) (t : Option Bytes) (create : Option Bytes) (write : Option (ℕ × Bytes))
    → access.mkdir ≡ mkdir
    → viper.marshal c ≡ t
    → access.create ≡ create
    → access.write ≡ write
    → let (failure, files') = save_client viper files access path c in
      Leaves viper files access path c failure (lookup path files')
unfolding save_client write_file
save_client-Leaves viper files access path c (some e) t create write hm ht hc hw =
    rw (hm, save_client) (inl (refl, inl (λ h. cc)))
save_client-Leaves viper files access path c none none create write hm ht hc hw =
    rw (hm, ht, save_client) (inl (refl, inr (inl ht)))
save_client-Leaves viper files access path c none (some t) (some e) write hm ht hc hw =
    rw (hm, ht, hc, save_client, write_file) (inl (refl, inr (inr (λ h. cc))))
save_client-Leaves viper files access path c none (some t) none (some (n, e)) hm ht hc hw =
    rw (hm, ht, hc, hw, save_client, write_file, lookup-insert_same path)
      (inr (t, n, ht, refl, refl))
save_client-Leaves viper files access path c none (some t) none none hm ht hc hw =
    rw (hm, ht, hc, hw, save_client, write_file, lookup-insert_same path)
      (t, ht, refl, refl, refl, refl)

pub save_client-left :
    (viper : Viper) (files : Dict Bytes File) (access : Access) (path : Bytes) (c : ClientConfig)
    → let (failure, files') = save_client viper files access path c in
      Leaves viper files access path c failure (lookup path files')
save_client-left viper files access path c =
    save_client-Leaves viper files access path c access.mkdir (viper.marshal c) access.create
      access.write refl refl refl refl

save_client-others :
    (viper : Viper) (files : Dict Bytes File) (access : Access) (path other : Bytes)
    (c : ClientConfig)
    → path ≢ other
    → lookup other (save_client viper files access path c).1 ≡ lookup other files
unfolding save_client write_file
save_client-others viper files access path other c ne = elim (Option-cases access.mkdir) [
  | inr (e, hm) ↦ rw (hm, save_client) refl
  | inl hm ↦ elim (Option-cases (viper.marshal c)) [
    | inl ht ↦ rw (hm, ht, save_client) refl
    | inr (t, ht) ↦ elim (Option-cases access.create) [
      | inr (e, hc) ↦ rw (hm, ht, hc, save_client, write_file) refl
      | inl hc ↦ elim (Option-cases access.write) [
        | inr ((n, e), hw) ↦
            rw (hm, ht, hc, hw, save_client, write_file) (lookup-insert_other path other _ files ne)
        | inl hw ↦
            rw (hm, ht, hc, hw, save_client, write_file) (lookup-insert_other path other _ files ne)
      ]
    ]
  ]
]

-- SaveClient on every branch: it returns nil exactly if every call does, and then its path holds
-- the YAML of the configuration, with the permissions of the file that stood there, or 0600 if
-- none did; if a write fails, a part of the text has replaced what the file held; every other
-- error leaves the file as it was; and no other path is touched.
pub save_client_lem :
    (viper : Viper) (files : Dict Bytes File) (access : Access) (path other : Bytes)
    (c : ClientConfig)
    → path ≢ other
    → let (failure, files') = save_client viper files access path c in
      Leaves viper files access path c failure (lookup path files')
      × (lookup other files' ≡ lookup other files)
save_client_lem viper files access path other c ne = (
  save_client-left viper files access path c,
  save_client-others viper files access path other c ne,
)

-- ===== src/Config.antt =====
-- internal/config/config.go: what is loaded from files and the environment, and what is saved.
pub mod Saving
use lotun.Base.{ℕ, Bool, true, false, List, [], ◌∷◌, Option, none, some, if◌then◌else◌, ◌==◌, take}
use lotun.Base.Int.{ℤ, pos}
use lotun.Base.Bytes.{Bytes, bytes, bytes_eq}
use lotun.Dict.{Dict, lookup, insert}
use lotun.Cli.{ClientConfig}

pub record ServerConfig : Type 0 where
  pub control_addr : Bytes
  pub control_tls_cert : Bytes
  pub control_tls_key : Bytes
  pub http_addr : Bytes
  pub base_domain : Bytes
  pub tcp_port_min : ℤ
  pub tcp_port_max : ℤ
  pub token : Bytes
  pub data_dir : Bytes

-- A file and its permissions.
pub record File : Type 0 where
  pub text : Bytes
  pub mode : ℕ

-- The values that SetDefault is given.
pub data Default : Type 0 where
  string : Bytes → Default
  int : ℤ → Default

-- A viper instance as newViper, SetDefault and ReadInConfig leave it: the prefix of its environment
-- variables, its defaults in order, the path of its file and the text that was read of it.
pub record Layers : Type 0 where
  pub prefix : Bytes
  pub defaults : List (Bytes × Default)
  pub path : Bytes
  pub file : Option Bytes

-- How ReadInConfig ends: with the text of the file, a *os.PathError, or another error, as of the
-- parser or for an extension that is not known.
pub data Read : Type 0 where
  text : Bytes → Read
  path_error other_error : Read

-- What the program calls of viper and yaml, in one environment: ReadInConfig for a path, given what
-- the system gives for it (none is a *os.PathError); Unmarshal into the two structs (none is an
-- error), which like ReadInConfig may depend on the path, whose extension names the parser; and
-- yaml.Marshal.
pub record Viper : Type 0 where
  pub read_in_config : Bytes → Option Bytes → Read
  pub unmarshal_server : Layers → Option ServerConfig
  pub unmarshal_client : Layers → Option ClientConfig
  pub marshal : ClientConfig → Option Bytes

-- What the system answers to one os.ReadFile or one SaveClient: whether a file that exists can be
-- read, the errors of MkdirAll and of opening the file, and how many bytes are written before an
-- error.
pub record Access : Type 0 where
  pub readable : Bool
  pub mkdir : Option Bytes
  pub create : Option Bytes
  pub write : Option (ℕ × Bytes)

-- newViper(prefix, path), before a file is read.
abbrev pub new_viper : Bytes → Bytes → Layers
new_viper prefix path = record { prefix = prefix; defaults = []; path = path; file = none }

-- The permissions of a file, or those that it is to be made with.
abbrev pub mode_of : Option File → ℕ → ℕ
mode_of none mode = mode
mode_of (some f) mode = f.mode

module _ (viper : Viper) (files : Dict Bytes File) (access : Access) where
  -- What the system gives for a path: none is an error.
  unfoldable pub contents : Bytes → Option Bytes
  contents path = elim (lookup path files) [
    | none ↦ none
    | some f ↦ if access.readable then some f.text else none
  ]

  abbrev pub server_defaults : List (Bytes × Default)
  server_defaults =
      (bytes "control_addr", string (bytes ":7000"))
      ∷ (bytes "http_addr", string (bytes ":8000"))
      ∷ (bytes "tcp_port_min", int (pos 20000))
      ∷ (bytes "tcp_port_max", int (pos 30000))
      ∷ (bytes "data_dir", string (bytes "./data"))
      ∷ []

  -- LoadServer(path): none is an error.
  unfoldable pub load_server : Bytes → Option ServerConfig
  unfolding contents
  load_server path =
      let v : Layers = record (new_viper (bytes "LOTUND") path) { defaults = server_defaults } in
      if path == []
      then viper.unmarshal_server v
      else elim (viper.read_in_config path (contents path)) [
        | text t ↦ viper.unmarshal_server (record v { file = some t })
        | path_error ↦ none
        | other_error ↦ none
      ]

  -- LoadClient(path): none is an error. A file that cannot be opened is none.
  unfoldable pub load_client : Bytes → Option ClientConfig
  unfolding contents
  load_client path =
      let v = new_viper (bytes "LOTUN") path in
      if path == []
      then viper.unmarshal_client v
      else elim (viper.read_in_config path (contents path)) [
        | text t ↦ viper.unmarshal_client (record v { file = some t })
        | path_error ↦ viper.unmarshal_client v
        | other_error ↦ none
      ]

  -- os.WriteFile: a file that exists is cut off and keeps its permissions.
  unfoldable pub write_file : Bytes → Bytes → ℕ → Option Bytes × Dict Bytes File
  write_file path t mode =
      let kept = mode_of (lookup path files) mode in
      elim access.create [
        | some e ↦ (some e, files)
        | none ↦ elim access.write [
          | some (n, e) ↦ (some e, insert path (record { text = take n t; mode = kept }) files)
          | none ↦ (none, insert path (record { text = t; mode = kept }) files)
        ]
      ]

  -- SaveClient(path, c), with 0600 in decimal. An error of yaml.Marshal has no text.
  unfoldable pub save_client : Bytes → ClientConfig → Option Bytes × Dict Bytes File
  unfolding write_file
  save_client path c = elim access.mkdir [
    | some e ↦ (some e, files)
    | none ↦ elim (viper.marshal c) [ none ↦ (some [], files) | some t ↦ write_file path t 384 ]
  ]

-- ===== src/Lotund.antt =====
-- cmd/lotund/main.go: the start of the server from its configuration, and the log of its addresses.
pub mod Starting
pub mod Restarting
use lotun.Base.{
  Bool, true, false, not, ◌&&◌, List, [], ◌∷◌, ◌++◌, Option, none, some, if◌then◌else◌, ◌==◌,
}
use lotun.Base.Bytes.{Bytes, bytes, bytes_eq}
use lotun.Dict.{Dict}
use lotun.Json.{JsonText}
use lotun.Names.{Rand}
use lotun.Store.{Disk, open_store}
use lotun.Server.{new_server}
use lotun.Running.{Sockets, Started, serving, failed, start_run}
use lotun.Config.{ServerConfig, File, Viper, Access, load_server}

-- What the process finds: the error of os.MkdirAll, the file of claims in the data directory, whether
-- it exists but cannot be read, the text of the error that store.Open gives if it fails, the
-- listeners, and the numbers that names are drawn from.
pub record Machine : Type 0 where
  pub mkdir : Option Bytes
  pub disk : Disk
  pub unreadable : Bool
  pub open_error : Bytes
  pub sockets : Sockets
  pub rng : Rand

-- The errors of server.New.
abbrev pub init_error : ServerConfig → Bytes
init_error cfg =
    if cfg.token == [] then bytes "server: empty token" else bytes "server: empty base domain"

-- run(ctx, cfg), up to the loops of Run.
unfoldable pub run : JsonText → ServerConfig → Machine → Started
run json cfg m = elim m.mkdir [
  | some e ↦ failed (bytes "create data dir: " ++ e) false
  | none ↦ elim (open_store json m.unreadable m.disk) [
    | none ↦ failed (bytes "open claim store: " ++ m.open_error) false
    | some claims ↦
        elim (new_server cfg.token cfg.base_domain cfg.tcp_port_min cfg.tcp_port_max claims m.disk
          m.rng) [
            | none ↦ failed (bytes "init server: " ++ init_error cfg) false
            | some srv ↦ start_run srv cfg.control_tls_cert m.sockets
          ]
  ]
]

-- The command lotund, given the text of the error that LoadServer gives if it fails.
unfoldable pub lotund :
    JsonText → Viper → Dict Bytes File → Access → Bytes → Bytes → Machine → Started
unfolding run
lotund json viper files access path load_error m = elim (load_server viper files access path) [
  | none ↦ failed (bytes "load config: " ++ load_error) false
  | some cfg ↦ run json cfg m
]

-- What one round of logBoundAddrs sees: ControlAddr(), HTTPAddr(), and whether the context is
-- cancelled before the next tick.
pub record Poll : Type 0 where
  pub ctrl : Bytes
  pub http : Bytes
  pub cancelled : Bool

abbrev pub is_bound : Poll → Bool
is_bound p = not (p.ctrl == []) && not (p.http == [])

abbrev pub bound_lines : Poll → List Bytes
bound_lines p =
    (bytes "lotund: control listening on " ++ p.ctrl)
    ∷ (bytes "lotund: http listening on " ++ p.http)
    ∷ []

-- logBoundAddrs: the lines that it logs.
unfoldable pub log_bound_addrs : List Poll → List Bytes
log_bound_addrs [] = []
log_bound_addrs (p ∷ ps) =
    let rest = log_bound_addrs ps in
    if is_bound p then bound_lines p else (if p.cancelled then [] else rest)

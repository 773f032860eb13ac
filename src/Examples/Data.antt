-- ===== src/Examples/Data.antt =====
-- The requests, tables and servers that the examples share.
use lotun.Base.{ℕ, ◌+◌, ◌*◌, true, List, [], ◌∷◌, none, some}
use lotun.Base.Int.{pos}
use lotun.Base.Bytes.{bytes, bytes_eq}
use lotun.Names.{Rand}
use lotun.Protocol.{Register, http, tcp, register}
use lotun.Store.{FileStore, Disk, Faults, is_claimed}
use lotun.Registry.{Registry, new_registry}
use lotun.Registry.History.{Call, registers, run}
use lotun.Server.{Server, Draws}
use lotun.Server.Control.{Round}

abbrev pub rng : Rand
rng = record { draws = λ i. 7 * i + 3; used = 0 }

abbrev pub seed : List ℕ
seed = 1 ∷ 2 ∷ 3 ∷ 4 ∷ 5 ∷ 6 ∷ 7 ∷ 8 ∷ []

abbrev pub no_faults : Faults
no_faults = record { create = none; write = none; close = none; rename = none; removes = true }

abbrev pub full_disk : Faults
full_disk = record no_faults { write = some (bytes "no space left on device") }

abbrev pub empty_disk : Disk
empty_disk = record { file = none; strays = 0 }

abbrev pub one_claim : FileStore
one_claim = record { names = some ((bytes "web", true) ∷ []) }

-- A private http tunnel at a claimed name, without a password of its own.
abbrev pub web_request : Register
web_request = record {
  type = http;
  domain = bytes "web";
  local_port = pos 8080;
  remote_port = pos 0;
  private = true;
  password = [];
  allow_ips = [];
}

-- A private tcp tunnel that asks for no name and no port.
abbrev pub ssh_request : Register
ssh_request = record {
  type = tcp;
  domain = [];
  local_port = pos 20001;
  remote_port = pos 0;
  private = true;
  password = [];
  allow_ips = bytes "10.0.0.7" ∷ [];
}

abbrev pub calls : List Call
calls =
    registers (is_claimed one_claim) web_request 1 (bytes "secret") seed rng
    ∷ registers (is_claimed one_claim) ssh_request 2 [] (9 ∷ seed) rng
    ∷ []

-- A table that routes both, over three ports.
abbrev pub routed : Registry
routed = run (new_registry (pos 20000) (pos 20002)) calls

abbrev pub draws : Draws
draws = record {
  id_seed = seed;
  password_seed = seed;
  faults = no_faults;
  listen_error = none;
  listener = 5;
}

abbrev pub idle : Server
idle = record {
  token = bytes "t0ken";
  base_domain = bytes "lvh.me";
  store = one_claim;
  disk = empty_disk;
  registry = new_registry (pos 20000) (pos 20002);
  listeners = [];
  rng = rng;
}

abbrev pub rounds : List Round
rounds = record { message = some (register ssh_request); draws = draws; writes = true } ∷ []

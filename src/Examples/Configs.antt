-- ===== src/Examples/Configs.antt =====
-- A viper that reads back all that it writes, at paths with the extension of YAML, and a saved
-- configuration with a tunnel.
use lotun.Base.{
  ◌≡◌, refl, sym, ap, ap₂, ◌∙◌, true, false, List, [], ◌∷◌, Option, none, some, if◌then◌else◌,
}
use lotun.Base.Int.{pos}
use lotun.Base.Bytes.{Bytes, bytes, bytes_eq, eqb_bytes}
use lotun.Dict.{Dict, lookup}
use lotun.Json.{Json, Items, num, bool, str, arr, nil, cons}
use lotun.Http.{has_suffix}
use lotun.Cli.{ClientConfig, TunnelConfig}
use lotun.Cli.Login.{ReadsBack, load_client-saved}
use lotun.Config.{Viper, Read, path_error, other_error, File, Access, load_client}
use lotun.Config
use lotun.Examples.Text.{print_text, parse_text, parse_text-print_text, any_string-IsText}

abbrev strings : List Bytes → Items
strings [] = nil
strings (s ∷ ss) = cons (str s) (strings ss)

abbrev tunnel_json : TunnelConfig → Json
tunnel_json u = arr (
    cons (str u.type) (
      cons (str u.domain) (
        cons (num u.port) (
          cons (num u.remote_port)
            (cons (bool u.private) (cons (str u.password) (strings u.allow_ips)))))))

abbrev tunnels_json : List TunnelConfig → Items
tunnels_json [] = nil
tunnels_json (u ∷ us) = cons (tunnel_json u) (tunnels_json us)

abbrev config_json : ClientConfig → Json
config_json c = arr (
    cons (str c.control_addr) (
      cons (str c.token) (
        cons (str c.default_domain)
          (cons (bool c.tls) (cons (bool c.tls_insecure) (tunnels_json c.tunnels))))))

abbrev of_strings : Items → List Bytes
of_strings (cons (str s) xs) = s ∷ of_strings xs
of_strings _ = []

abbrev no_tunnel : TunnelConfig
no_tunnel = record {
  type = [];
  domain = [];
  port = pos 0;
  remote_port = pos 0;
  private = false;
  password = [];
  allow_ips = [];
}

abbrev of_tunnel : Json → TunnelConfig
of_tunnel
      (arr (
        cons (str type) (
          cons (str domain) (
            cons
              (num port)
              (cons (num remote) (cons (bool private) (cons (str password) ips))))))) =
    record {
      type = type;
      domain = domain;
      port = port;
      remote_port = remote;
      private = private;
      password = password;
      allow_ips = of_strings ips;
    }
of_tunnel _ = no_tunnel

abbrev of_tunnels : Items → List TunnelConfig
of_tunnels nil = []
of_tunnels (cons j xs) = of_tunnel j ∷ of_tunnels xs

abbrev empty_config : ClientConfig
empty_config = record {
  control_addr = [];
  token = [];
  default_domain = [];
  tls = false;
  tls_insecure = false;
  tunnels = [];
}

abbrev of_config : Json → Option ClientConfig
of_config
      (arr (
        cons (str addr) (
          cons (str token) (cons (str domain) (cons (bool tls) (cons (bool insecure) tunnels)))))) =
    some (record {
      control_addr = addr;
      token = token;
      default_domain = domain;
      tls = tls;
      tls_insecure = insecure;
      tunnels = of_tunnels tunnels;
    })
of_config _ = none

of_strings-strings : (ss : List Bytes) → of_strings (strings ss) ≡ ss
of_strings-strings [] = refl
of_strings-strings (s ∷ ss) = ap (◌∷◌ s) (of_strings-strings ss)

of_tunnel-tunnel_json : (u : TunnelConfig) → of_tunnel (tunnel_json u) ≡ u
of_tunnel-tunnel_json u = ap (λ ips. record u { allow_ips = ips }) (of_strings-strings u.allow_ips)

of_tunnels-tunnels_json : (us : List TunnelConfig) → of_tunnels (tunnels_json us) ≡ us
of_tunnels-tunnels_json [] = refl
of_tunnels-tunnels_json (u ∷ us) = ap₂ (◌∷◌) (of_tunnel-tunnel_json u) (of_tunnels-tunnels_json us)

of_config-config_json : (c : ClientConfig) → of_config (config_json c) ≡ some c
of_config-config_json c =
    ap (λ us. some (record c { tunnels = us })) (of_tunnels-tunnels_json c.tunnels)

abbrev decode : Option Json → Option ClientConfig
decode none = none
decode (some j) = of_config j

abbrev decode_file : Option Bytes → Option ClientConfig
decode_file none = some empty_config
decode_file (some t) = decode (parse_text t)

abbrev read_file : Bytes → Option Bytes → Read
read_file path none = path_error
read_file path (some t) = if has_suffix path (bytes ".yaml") then Config.text t else other_error

abbrev pub viper : Viper
viper = record {
  read_in_config = read_file;
  unmarshal_server = λ v. none;
  unmarshal_client = λ v. decode_file v.file;
  marshal = λ c. some (print_text (config_json c));
}

abbrev pub config_path : Bytes
config_path = bytes "config.yaml"

yaml : has_suffix config_path (bytes ".yaml") ≡ true
unfolding has_suffix eqb_bytes
yaml = refl

decode_file-print : (c : ClientConfig) → decode_file (some (print_text (config_json c))) ≡ some c
decode_file-print c =
    ap decode (parse_text-print_text (config_json c) (any_string-IsText (config_json c)))
    ∙ of_config-config_json c

some-injective : (t u : Bytes) → some t ≡ some u → t ≡ u
some-injective t u h = cc

pub viper-ReadsBack : ReadsBack viper config_path
viper-ReadsBack c t h = (
  rw yaml refl,
  ap (λ x. decode_file (some x)) (sym (some-injective (print_text (config_json c)) t h))
      ∙ decode_file-print c,
)

abbrev pub quiet : Access
quiet = record { readable = true; mkdir = none; create = none; write = none }

-- A client that has a tunnel, and the address of a server.
abbrev pub old_config : ClientConfig
old_config = record empty_config {
  control_addr = bytes "lotun.example:7000";
  token = bytes "old";
  tunnels =
      record no_tunnel {
        type = bytes "tcp";
        port = pos 22;
        private = true;
        allow_ips = bytes "10.0.0.7" ∷ [];
      }
      ∷ [];
}

abbrev pub saved : Dict Bytes File
saved = (config_path, record { text = print_text (config_json old_config); mode = 384 }) ∷ []

pub saved-loads : load_client viper saved quiet config_path ≡ some old_config
unfolding lookup eqb_bytes
saved-loads =
    load_client-saved viper saved quiet config_path old_config (print_text (config_json old_config))
      384 viper-ReadsBack (λ h. cc) refl refl refl

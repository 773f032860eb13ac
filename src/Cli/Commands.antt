-- ===== src/Cli/Commands.antt =====
-- `lotun http` and `lotun tcp` of cmd/lotun/commands.go, up to the request that they register.
use lotun.Base.{
  Bool, true, ◌≡◌, ◌≢◌, subst, refl, ap, inl, inr, List, [], none, some, arith, Option-cases,
  if◌then◌else◌, ◌==◌,
}
use lotun.Base.Int.{ℤ, pos, ◌≤ℤ◌}
use lotun.Base.Bytes.{Bytes, bytes_eq, eqb_bytes_iff}
use lotun.Base.Decimal.{atoi}
use lotun.Protocol.{http, tcp}
use lotun.Client.{TunnelRequest}
use lotun.Cli.{
  ClientConfig, Fault, Checked, accepted, rejected, parse_port, connected_config,
  validate_tcp_flags,
}
use lotun.Cli.Checks.{Checked-cases, validate_tcp_flags-FlagsOf}
use lotun.Cli.Checks.Ports.{parse_port_iff}

-- The flag, or the configured default where it is empty.
abbrev pub domain_or : Bytes → ClientConfig → Bytes
domain_or domain c = if domain == [] then c.default_domain else domain

-- Both commands behind config.LoadClient: the port, then the configuration, then the request.
unfoldable pub http_command : Bytes → Bytes → Bytes → Bool → ClientConfig → Checked TunnelRequest
http_command arg domain password private c = elim (parse_port arg) [
  | rejected e ↦ rejected e
  | accepted port ↦ elim (connected_config c) [
    | rejected e ↦ rejected e
    | accepted cfg ↦ accepted (record {
      type = http;
      domain = domain_or domain cfg;
      local_port = port;
      remote_port = pos 0;
      private = private;
      password = password;
      allow_ips = [];
    })
  ]
]

unfoldable pub tcp_command :
    Bytes → Bytes → ℤ → Bool → List Bytes → Bytes → ClientConfig → Checked TunnelRequest
tcp_command arg domain remote_port private allow_ips password c =
    elim (validate_tcp_flags private allow_ips password) [
      | some e ↦ rejected e
      | none ↦ elim (parse_port arg) [
        | rejected e ↦ rejected e
        | accepted port ↦ elim (connected_config c) [
          | rejected e ↦ rejected e
          | accepted cfg ↦ accepted (record {
            type = tcp;
            domain = domain_or domain cfg;
            local_port = port;
            remote_port = remote_port;
            private = private;
            password = [];
            allow_ips = allow_ips;
          })
        ]
      ]
    ]

connected_config-same :
    (c cfg : ClientConfig)
    → connected_config c ≡ accepted cfg
    → (cfg ≡ c) × (c.control_addr ≢ []) × (c.token ≢ [])
unfolding connected_config
connected_config-same c cfg h =
    ground (arith, eqb_bytes_iff c.control_addr [], eqb_bytes_iff c.token [])

-- What `lotun tcp` asks the server for.
abbrev pub AsksTcp :
    Bytes → Bytes → ℤ → Bool → List Bytes → Bytes → ClientConfig → TunnelRequest → Type 0
AsksTcp arg domain remote_port private allow_ips password c req =
    (req.type ≡ tcp)
    × (atoi arg ≡ some req.local_port)
    × (pos 1 ≤ℤ req.local_port)
    × (req.local_port ≤ℤ pos 65535)
    × (req.domain ≡ domain_or domain c)
    × (req.remote_port ≡ remote_port)
    × (password ≡ [])
    × (req.private ≡ private)
    × (req.allow_ips ≡ allow_ips)
    × (private ≡ true → allow_ips ≢ [])
    × (c.token ≢ [])

pub rejected-ne-accepted : {A : Type 0} (e : Fault) (a : A) → rejected e ≢ accepted a
rejected-ne-accepted e a h = cc

pub accepted-injective : {A : Type 0} (a b : A) → accepted a ≡ accepted b → a ≡ b
accepted-injective a b h = cc

-- If the checks of `lotun tcp` accept its arguments, the request is a tcp one for the number that
-- the argument spells, from 1 to 65535, under the given or the default domain, with the given
-- remote port, privacy and addresses; no password was given, a private tunnel has an address, and
-- a token is configured.
pub tcp_command-AsksTcp :
    (arg domain : Bytes) (remote_port : ℤ) (private : Bool) (allow_ips : List Bytes)
    (password : Bytes) (c : ClientConfig) (req : TunnelRequest)
    → tcp_command arg domain remote_port private allow_ips password c ≡ accepted req
    → AsksTcp arg domain remote_port private allow_ips password c req
unfolding tcp_command
tcp_command-AsksTcp arg domain remote_port private allow_ips password c req h =
    elim (Option-cases (validate_tcp_flags private allow_ips password)) [
      | inr (e, bad) ↦ absurd (rejected-ne-accepted _ _ (rw (bad, tcp_command) at h))
      | inl fine ↦ elim (Checked-cases (parse_port arg)) [
        | inr (e, bad) ↦ absurd (rejected-ne-accepted _ _ (rw (fine, bad, tcp_command) at h))
        | inl (port, parsed) ↦ elim (Checked-cases (connected_config c)) [
          | inr (e, bad) ↦
              absurd (rejected-ne-accepted _ _ (rw (fine, parsed, bad, tcp_command) at h))
          | inl (cfg, loaded) ↦
              let same = accepted-injective _ _ (rw (fine, parsed, loaded, tcp_command) at h) in
              let flags = rw fine at (validate_tcp_flags-FlagsOf private allow_ips password) in
              let (number, low, high) = (parse_port_iff arg port).0 parsed in
              let (kept, _, has_token) = connected_config-same c cfg loaded in
              subst (AsksTcp arg domain remote_port private allow_ips password c) same (
                refl,
                number,
                low,
                high,
                ap (domain_or domain) kept,
                refl,
                flags.0,
                refl,
                refl,
                flags.1,
                has_token,
              )
        ]
      ]
    ]

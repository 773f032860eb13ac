-- ===== src/Registry.antt =====
-- internal/server/registry.go: the table of active tunnels.
pub mod Ports
pub mod Valid
pub mod Placement
pub mod Removal
pub mod FreeName
pub mod History
pub mod Order
pub mod Tables
use lotun.Base.{
  ℕ, zero, suc, ◌+◌, ◌-◌, Bool, true, false, not, ◌&&◌, ◌||◌, List, [], ◌∷◌, ◌++◌, Option, none,
  some, if◌then◌else◌, ◌==◌, ltb, nat_eq, ◌≡◌, ◌⊎◌, inl, inr, refl, ◌/◌, ◌%◌, is_empty,
}
use lotun.Base.Int.{ℤ, pos, ◌+ℤ◌, pos_part, neg_part, ltb_ℤ, leb_ℤ, int_eq}
use lotun.Base.Bytes.{Bytes, bytes_eq}
use lotun.Dict.{Dict, lookup, insert, remove_if, keys_if, values}
use lotun.Names.{Rand, generate_from}
use lotun.Protocol.{TunnelType, Register, http, tcp}

pub data Error : Type 0 where
  not_claimed subdomain_in_use port_in_use port_out_of_range ports_exhausted : Error
  allow_ips_required : Error

pub data Result {ℓ} (A : Type ℓ) : Type ℓ where
  ok : A → Result A
  err : Error → Result A

pub Result-cases {ℓ} :
    {A : Type ℓ} (a : Result A) → ((e : Error) × (a ≡ err e)) ⊎ ((x : A) × (a ≡ ok x))
Result-cases (ok x) = inr (x, refl)
Result-cases (err e) = inl (e, refl)

-- A yamux session is a pointer: all that the registry does with one is to compare it.
pub record Tunnel : Type 0 where
  pub id : Bytes
  pub type : TunnelType
  pub subdomain : Bytes
  pub port : ℤ
  pub local_port : ℤ
  pub private : Bool
  pub password : Bytes
  pub allow_ips : List Bytes
  pub session : ℕ

pub record Registry : Type 0 where
  pub http_by_sub : Dict Bytes Tunnel
  pub tcp_by_port : Dict ℤ Tunnel
  pub port_min : ℤ
  pub port_max : ℤ

unfoldable pub new_registry : ℤ → ℤ → Registry
new_registry lo hi = record { http_by_sub = []; tcp_by_port = []; port_min = lo; port_max = hi }

-- _, inUse := m[k]
abbrev pub is_in {ℓ} : {V : Type ℓ} → Option V → Bool
is_in none = false
is_in (some v) = true

unfoldable pub port_taken : Registry → ℤ → Bool
port_taken r p = is_in (lookup p r.tcp_by_port)

unfoldable pub sub_taken : Registry → Bytes → Bool
sub_taken r s = is_in (lookup s r.http_by_sub)

unfoldable pub in_range : Registry → ℤ → Bool
in_range r p = leb_ℤ r.port_min p && leb_ℤ p r.port_max

-- The rest of `for p := r.portMin; p <= r.portMax; p++`, with the number of rounds left.
unfoldable pub scan_ports : ℕ → Registry → ℤ → Result ℤ
scan_ports zero r p = err ports_exhausted
scan_ports (suc rounds) r p = elim (port_taken r p) [
  | true ↦ scan_ports rounds r (p +ℤ pos 1)
  | false ↦ ok p
]

-- portMax - portMin + 1, or 0 where the range is empty.
unfoldable pub range_size : Registry → ℕ
range_size r =
    pos_part r.port_max + neg_part r.port_min + 1 - (pos_part r.port_min + neg_part r.port_max)

unfoldable pub alloc_port : Registry → ℤ → ℤ → Result ℤ
unfolding in_range
alloc_port r want local_port =
    if not (want == pos 0)
    then (if ltb_ℤ want r.port_min || ltb_ℤ r.port_max want
        then err port_out_of_range
        else (if port_taken r want then err port_in_use else ok want))
    else (if in_range r local_port && not (port_taken r local_port)
        then ok local_port
        else scan_ports (range_size r) r r.port_min)

-- The rest of `for i := 0; i < 1000; i++`, with the number of tries left; then the fallback.
unfoldable pub free_name_from : ℕ → (Bytes → Bool) → Registry → Rand → Bytes × Rand
free_name_from zero claimed r rng = generate_from rng
free_name_from (suc tries) claimed r rng =
    let (n, rng') = generate_from rng in
    elim (not (sub_taken r n) && not (claimed n)) [
      | true ↦ (n, rng')
      | false ↦ free_name_from tries claimed r rng'
    ]

abbrev pub name_tries : ℕ
name_tries = 1000

unfoldable pub free_name : (Bytes → Bool) → Registry → Rand → Bytes × Rand
free_name claimed r rng = free_name_from name_tries claimed r rng

-- One byte as two digits of "0123456789abcdef".
unfoldable pub hex_digit : ℕ → ℕ
hex_digit d = if ltb d 10 then d + b'0' else d - 10 + b'a'

unfoldable pub encode_hex : List ℕ → Bytes
encode_hex [] = []
encode_hex (b ∷ bs) = hex_digit (b / 16) ∷ hex_digit (b % 16) ∷ encode_hex bs

-- newID(), from the eight bytes that crypto/rand yields.
unfoldable pub new_id : List ℕ → Bytes
new_id seed = encode_hex seed

-- The subdomain of a new tunnel: an explicit one must be claimed.
unfoldable pub resolve_sub : (Bytes → Bool) → Registry → Bytes → Rand → Result Bytes × Rand
resolve_sub claimed r domain rng =
    if domain == []
    then (let (n, rng') = free_name claimed r rng in (ok n, rng'))
    else (if claimed domain then (ok domain, rng) else (err not_claimed, rng))

-- The `switch req.Type`, which has no default case.
unfoldable pub place : Registry → Register → Tunnel → Registry × Result Tunnel
place r req tn =
    if req.type == http
    then (if sub_taken r tn.subdomain
        then (r, err subdomain_in_use)
        else (record r { http_by_sub = insert tn.subdomain tn r.http_by_sub }, ok tn))
    else (if req.type == tcp
        then (if req.private && is_empty req.allow_ips
            then (r, err allow_ips_required)
            else elim (alloc_port r req.remote_port req.local_port) [
              | err e ↦ (r, err e)
              | ok p ↦
                  let bound : Tunnel = record tn { port = p } in
                  (record r { tcp_by_port = insert p bound r.tcp_by_port }, ok bound)
            ])
        else (r, ok tn))

-- The tunnel that a request asks for, before a port is allocated.
unfoldable pub requested : Register → ℕ → Bytes → List ℕ → Bytes → Tunnel
requested req sess password seed sub = record {
  id = new_id seed;
  type = req.type;
  subdomain = sub;
  port = pos 0;
  local_port = req.local_port;
  private = req.private;
  password = password;
  allow_ips = req.allow_ips;
  session = sess;
}

-- Register(req, sess, password): the table afterwards, the answer, and the rest of the randomness.
unfoldable pub register :
    (Bytes → Bool)
    → Registry
    → Register
    → ℕ
    → Bytes
    → List ℕ
    → Rand
    → Registry × Result Tunnel × Rand
unfolding requested
register claimed r req sess password seed rng =
    let (sub, rng') = resolve_sub claimed r req.domain rng in
    elim sub [
      | err e ↦ (r, err e, rng')
      | ok s ↦
          let (r', answer) = place r req (requested req sess password seed s) in (r', answer, rng')
    ]

unfoldable pub lookup_http : Registry → Bytes → Option Tunnel
lookup_http r sub = lookup sub r.http_by_sub

unfoldable pub lookup_tcp : Registry → ℤ → Option Tunnel
lookup_tcp r p = lookup p r.tcp_by_port

-- Remove(id)
unfoldable pub remove : Registry → Bytes → Registry
remove r id = record r {
  http_by_sub = remove_if (λ tn. tn.id == id) r.http_by_sub;
  tcp_by_port = remove_if (λ tn. tn.id == id) r.tcp_by_port;
}

-- RemoveSession(sess): the table afterwards and the freed ports.
unfoldable pub remove_session : Registry → ℕ → Registry × List ℤ
remove_session r sess = (
  record r {
    http_by_sub = remove_if (λ tn. tn.session == sess) r.http_by_sub;
    tcp_by_port = remove_if (λ tn. tn.session == sess) r.tcp_by_port;
  },
  keys_if (λ tn. tn.session == sess) r.tcp_by_port,
)

-- List()
unfoldable pub list : Registry → List Tunnel
list r = values r.http_by_sub ++ values r.tcp_by_port

-- ===== src/Protocol/Decode/FieldByField.antt =====
-- Decoding the structs of internal/protocol/protocol.go field by field.
use lotun.Base.{
  Bool, true, false, ◌≡◌, refl, sym, ap, ◌∙◌, List, [], ◌∷◌, Option, some, arith, ◌==◌, nat_eq,
  is_empty, All,
}
use lotun.Base.Int.{eqb_ℤ_iff, ℤ, pos, int_eq}
use lotun.Base.Bytes.{eqb_bytes, eqb_bytes_iff, Bytes, bytes, bytes_eq}
use lotun.Base.Decimal.{IsInt64}
use lotun.Json.{Json, Fields, bool, num, str, arr, end, field}
use lotun.Protocol.{Register, Registered, TunnelInfo, StreamHeader}
use lotun.Protocol.Encode.{
  optional, strings, register_json, registered_json, tunnel_info_json, tunnel_infos, header_json,
}
use lotun.Protocol.Decode.{
  fold_key, into_string, into_int, into_bool, into_strings, string_items, into_fields, into_struct,
}
use lotun.Protocol.Decode.Structs.{
  set_register, set_registered, set_tunnel_info, set_header, zero_register, zero_registered,
  zero_info, zero_header, info_items,
}

string_items-strings : (ss : List Bytes) → string_items (strings ss) ≡ some ss
unfolding string_items into_string
string_items-strings [] = refl
string_items-strings (s ∷ ss) = rw (string_items-strings ss) refl

into_int-num : (n old : ℤ) → IsInt64 n → into_int (num n) old ≡ some n
unfolding into_int
into_int-num n old h = ground arith

module _ {A : Type 0} (set : Bytes → Json → A → Option A) where
  -- A field that is stored.
  pub into_fields-field :
      (k : Bytes) (v : Json) (fs : Fields) (a b : A)
      → set k v a ≡ some b
      → into_fields set (field k v fs) a ≡ into_fields set fs b
  unfolding into_fields
  into_fields-field k v fs a b h = rw (into_fields, h) refl

  into_fields-end : (a : A) → into_fields set end a ≡ some a
  unfolding into_fields
  into_fields-end a = refl

  -- A field that is left out stood for the value that is there already.
  into_fields-optional :
      (c : Bool) (k : Bytes) (v : Json) (fs : Fields) (a b : A)
      → set k v a ≡ some b
      → (c ≡ true → a ≡ b)
      → into_fields set (optional c k v fs) a ≡ into_fields set fs b
  unfolding into_fields
  into_fields-optional true k v fs a b h same = rw (same refl) refl
  into_fields-optional false k v fs a b h same = rw (into_fields, h) refl

is_empty_lem : {A : Type 0} (xs : List A) → is_empty xs ≡ true → [] ≡ xs
is_empty_lem [] h = refl
is_empty_lem (x ∷ xs) h = ground arith

pub of_register :
    (r : Register)
    → IsInt64 r.local_port
    → IsInt64 r.remote_port
    → into_struct set_register (register_json r) zero_register ≡ some r
unfolding into_struct register_json set_register fold_key into_string into_strings into_bool
    eqb_bytes
of_register r l m =
    let r₁ = record zero_register { type = r.type } in
    let r₂ = record r₁ { domain = r.domain } in
    let r₃ = record r₂ { local_port = r.local_port } in
    let r₄ = record r₃ { remote_port = r.remote_port } in
    let r₅ = record r₄ { private = r.private } in
    let r₆ = record r₅ { password = r.password } in
    let allow =
      optional (is_empty r.allow_ips) (bytes "allowIPs") (arr (strings r.allow_ips)) end in
    let password = optional (r.password == []) (bytes "password") (str r.password) allow in
    let private = field (bytes "private") (bool r.private) password in
    let remote =
      optional (r.remote_port == pos 0) (bytes "remotePort") (num r.remote_port) private in
    let local = field (bytes "localPort") (num r.local_port) remote in
    let domain = optional (r.domain == []) (bytes "domain") (str r.domain) local in
    into_fields-field set_register (bytes "type") (str r.type) domain zero_register r₁ refl
    ∙ into_fields-optional set_register (r.domain == []) (bytes "domain") (str r.domain) local r₁ r₂
        refl (λ h. ap (λ x. record r₁ { domain = x }) (sym ((eqb_bytes_iff r.domain []).0 h)))
    ∙ into_fields-field set_register (bytes "localPort") (num r.local_port) remote r₂ r₃
        (rw (into_int-num r.local_port (pos 0) l) refl)
    ∙ into_fields-optional set_register (r.remote_port == pos 0) (bytes "remotePort")
        (num r.remote_port) private r₃ r₄ (rw (into_int-num r.remote_port (pos 0) m) refl)
        (λ h. ap (λ x. record r₃ { remote_port = x }) (sym ((eqb_ℤ_iff r.remote_port (pos 0)).0 h)))
    ∙ into_fields-field set_register (bytes "private") (bool r.private) password r₄ r₅ refl
    ∙ into_fields-optional set_register (r.password == []) (bytes "password") (str r.password) allow
        r₅ r₆ refl
        (λ h. ap (λ x. record r₅ { password = x }) (sym ((eqb_bytes_iff r.password []).0 h)))
    ∙ into_fields-optional set_register (is_empty r.allow_ips) (bytes "allowIPs")
        (arr (strings r.allow_ips)) end r₆ r (rw (string_items-strings r.allow_ips) refl)
        (λ h. ap (λ x. record r₆ { allow_ips = x }) (is_empty_lem r.allow_ips h))

pub of_registered :
    (r : Registered)
    → IsInt64 r.port
    → into_struct set_registered (registered_json r) zero_registered ≡ some r
unfolding into_struct registered_json set_registered fold_key into_string eqb_bytes
of_registered r p =
    let r₁ = record zero_registered { public_url = r.public_url } in
    let r₂ = record r₁ { host = r.host } in
    let r₃ = record r₂ { port = r.port } in
    let generated =
      optional (r.generated_password == []) (bytes "generatedPassword") (str r.generated_password)
        end in
    let port = field (bytes "port") (num r.port) generated in
    let host = field (bytes "host") (str r.host) port in
    into_fields-field set_registered (bytes "publicURL") (str r.public_url) host zero_registered r₁
      refl
    ∙ into_fields-field set_registered (bytes "host") (str r.host) port r₁ r₂ refl
    ∙ into_fields-field set_registered (bytes "port") (num r.port) generated r₂ r₃
        (rw (into_int-num r.port (pos 0) p) refl)
    ∙ into_fields-optional set_registered (r.generated_password == []) (bytes "generatedPassword")
        (str r.generated_password) end r₃ r refl
        (λ h.
          ap (λ x. record r₃ { generated_password = x })
            (sym ((eqb_bytes_iff r.generated_password []).0 h)))

pub of_tunnel_info :
    (t : TunnelInfo)
    → IsInt64 t.port
    → IsInt64 t.local_port
    → into_struct set_tunnel_info (tunnel_info_json t) zero_info ≡ some t
unfolding into_struct into_fields tunnel_info_json set_tunnel_info fold_key into_string eqb_bytes
of_tunnel_info t p l =
    rw
      (
        into_struct,
        tunnel_info_json,
        into_fields,
        into_int-num t.port (pos 0) p,
        into_int-num t.local_port (pos 0) l,
      )
      refl

pub of_tunnel_infos :
    (ts : List TunnelInfo)
    → All (λ t. IsInt64 t.port × IsInt64 t.local_port) ts
    → info_items (tunnel_infos ts) ≡ some ts
unfolding info_items tunnel_infos
of_tunnel_infos [] h = refl
of_tunnel_infos (t ∷ ts) ((p, l), h) =
    rw (info_items, of_tunnel_info t p l, of_tunnel_infos ts h) refl

pub of_header :
    (h : StreamHeader)
    → IsInt64 h.local_port
    → into_struct set_header (header_json h) zero_header ≡ some h
unfolding into_struct header_json set_header fold_key into_string eqb_bytes
of_header h l =
    let h₁ = record zero_header { tunnel_id = h.tunnel_id } in
    let local = field (bytes "localPort") (num h.local_port) end in
    into_fields-field set_header (bytes "tunnelId") (str h.tunnel_id) local zero_header h₁ refl
    ∙ into_fields-field set_header (bytes "localPort") (num h.local_port) end h₁ h
        (rw (into_int-num h.local_port (pos 0) l) refl)
    ∙ into_fields-end set_header h

-- ===== src/Http/Hosts.antt =====
-- Which subdomain a Host header names: subdomainFromHost of internal/server/server.go.
use lotun.Base.{
  ℕ, zero, suc, ◌-◌, true, false, ◌≡◌, ◌≢◌, ◌↔◌, refl, sym, ap, ◌∙◌, List, [], ◌∷◌, ◌++◌, none,
  some, arith, if◌then◌else◌, ◌==◌, length, take, drop, elem, elem-append, length-append, nat_eq,
}
use lotun.Base.Bytes.{Bytes, bytes_eq, eqb_bytes_iff}
use lotun.Http.{
  split_host_port, strip_port, has_suffix, trim_suffix, subdomain_from_host, last_index_byte,
}

take-append_length {ℓ} : {A : Type ℓ} (xs ys : List A) → take (length xs) (xs ++ ys) ≡ xs
take-append_length [] ys = refl
take-append_length (x ∷ xs) ys = rw (take-append_length xs ys)

drop-append_length {ℓ} : {A : Type ℓ} (xs ys : List A) → drop (length xs) (xs ++ ys) ≡ ys
drop-append_length [] ys = refl
drop-append_length (x ∷ xs) ys = drop-append_length xs ys

drop-append_suc {ℓ} :
    {A : Type ℓ} (xs : List A) (y : A) (ys : List A) → drop (suc (length xs)) (xs ++ (y ∷ ys)) ≡ ys
drop-append_suc [] y ys = refl
drop-append_suc (x ∷ xs) y ys = drop-append_suc xs y ys

take-append-drop {ℓ} : {A : Type ℓ} (n : ℕ) (xs : List A) → take n xs ++ drop n xs ≡ xs
take-append-drop zero xs = refl
take-append-drop (suc n) [] = refl
take-append-drop (suc n) (x ∷ xs) = rw (take-append-drop n xs)

prefix_length {ℓ} : {A : Type ℓ} (xs ys : List A) → length (xs ++ ys) - length ys ≡ length xs
prefix_length xs ys = omega (arith, length-append xs ys)

has_suffix-append : (xs ys : Bytes) → has_suffix (xs ++ ys) ys ≡ true
unfolding has_suffix
has_suffix-append xs ys =
    rw (prefix_length xs ys, drop-append_length xs ys)
      (ground (arith, length-append xs ys, eqb_bytes_iff ys ys))

trim_suffix-append : (xs ys : Bytes) → trim_suffix (xs ++ ys) ys ≡ xs
unfolding trim_suffix
trim_suffix-append xs ys =
    rw (has_suffix-append xs ys, prefix_length xs ys) (take-append_length xs ys)

append-trim_suffix : (s ys : Bytes) → has_suffix s ys ≡ true → trim_suffix s ys ++ ys ≡ s
unfolding trim_suffix has_suffix
append-trim_suffix s ys h =
    rw (h, if◌then◌else◌)
      (let e : drop (length s - length ys) s ≡ ys = (eqb_bytes_iff _ _).0 (ground arith) in
        ap (◌++◌ (take (length s - length ys) s)) (sym e)
        ∙ take-append-drop (length s - length ys) s)

-- subdomainFromHost gives a subdomain exactly if the host, without its port, is that subdomain, a
-- dot and the base domain, and the subdomain is not empty; it may hold dots.
pub subdomain_from_host_iff :
    (host base sub : Bytes)
    → (subdomain_from_host host base ≡ some sub)
      ↔ ((strip_port host ≡ sub ++ (b'.' ∷ base)) × (sub ≢ []))
unfolding subdomain_from_host
subdomain_from_host_iff host base sub =
    let h = strip_port host in
    let suffix = b'.' ∷ base in
    (
      λ found.
          let fits : has_suffix h suffix ≡ true = ground arith in
          let e : trim_suffix h suffix ≡ sub = ground arith in
          (
            sym (append-trim_suffix h suffix fits) ∙ ap (λ x. x ++ suffix) e,
            λ empty. ground (arith, eqb_bytes_iff (trim_suffix h suffix) []),
          ),
      λ given.
          rw (given.0, has_suffix-append sub suffix, trim_suffix-append sub suffix)
            (ground (arith, eqb_bytes_iff sub [], given.1)),
    )

last_index_byte-none : (c : ℕ) (xs : Bytes) → elem c xs ≡ false → last_index_byte c xs ≡ none
unfolding last_index_byte
last_index_byte-none c [] h = refl
last_index_byte-none c (x ∷ xs) h = ground (arith, last_index_byte-none c xs)

last_index_byte-append :
    (c : ℕ) (xs ys : Bytes)
    → elem c ys ≡ false
    → last_index_byte c (xs ++ (c ∷ ys)) ≡ some (length xs)
unfolding last_index_byte
last_index_byte-append c [] ys h = ground (arith, last_index_byte-none c ys)
last_index_byte-append c (x ∷ xs) ys h = rw (last_index_byte-append c xs ys h)

elem-take_one : (c : ℕ) (xs : Bytes) → elem c xs ≡ false → elem c (take 1 xs) ≡ false
elem-take_one c [] h = refl
elem-take_one c (x ∷ xs) h = ground arith

-- No colon and no bracket: a name, an IPv4 address or a port number.
abbrev pub IsPlain : Bytes → Type 0
IsPlain s = (elem b':' s ≡ false) × (elem b'[' s ≡ false) × (elem b']' s ≡ false)

pub strip_port-no_port : (host : Bytes) → elem b':' host ≡ false → strip_port host ≡ host
unfolding strip_port split_host_port
strip_port-no_port host h = rw (last_index_byte-none b':' host h, split_host_port, strip_port)

no_bracket :
    (c : ℕ) (host port : Bytes)
    → (c == b':') ≡ false
    → elem c host ≡ false
    → elem c port ≡ false
    → elem c (host ++ (b':' ∷ port)) ≡ false
no_bracket c host port n h p = ground (arith, elem-append c host (b':' ∷ port))

-- Reading back what net.JoinHostPort writes for a plain host.
split_host_port-join :
    (host port : Bytes)
    → IsPlain host
    → IsPlain port
    → split_host_port (host ++ (b':' ∷ port)) ≡ some (host, port)
unfolding split_host_port
split_host_port-join host port h p =
    let opening = no_bracket b'[' host port refl h.1 p.1 in
    let closing = no_bracket b']' host port refl h.2 p.2 in
    rw (last_index_byte-append b':' host port p.0, split_host_port)
      (rw
        (elem-take_one b'[' _ opening, take-append_length host (b':' ∷ port), h.0, opening, closing)
        (ap (λ x. some (host, x)) (drop-append_suc host b':' port)))

pub strip_port-port :
    (host port : Bytes) → IsPlain host → IsPlain port → strip_port (host ++ (b':' ∷ port)) ≡ host
unfolding strip_port
strip_port-port host port h p = rw (split_host_port-join host port h p, strip_port)

-- The public host of a tunnel, alone or with a port, leads back to its subdomain, if that is not
-- empty and neither part holds a colon or a bracket.
pub subdomain_from_public_host :
    (sub base port : Bytes)
    → sub ≢ []
    → IsPlain (sub ++ (b'.' ∷ base))
    → IsPlain port
    → let host = sub ++ (b'.' ∷ base) in
      (subdomain_from_host host base ≡ some sub)
      × (subdomain_from_host (host ++ (b':' ∷ port)) base ≡ some sub)
subdomain_from_public_host sub base port ne h p =
    let host = sub ++ (b'.' ∷ base) in
    (
      (subdomain_from_host_iff host base sub).1 (strip_port-no_port host h.0, ne),
      (subdomain_from_host_iff _ base sub).1 (strip_port-port host port h p, ne),
    )

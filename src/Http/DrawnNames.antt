-- ===== src/Http/DrawnNames.antt =====
-- The names of internal/names/names.go as public hosts (internal/server/server.go).
use lotun.Base.{
  elem-append, subst, ℕ, ◌+◌, ◌%◌, ◌<◌, Bool, true, false, not, ◌&&◌, ◌≡◌, ◌≢◌, refl, sym, ◌∙◌,
  List, [], ◌∷◌, ◌++◌, some, arith, elem, length, get_or, ◌==◌, nat_eq, Bool-cases, inl, inr, zero,
  suc,
}
use lotun.Base.Bytes.{Bytes, bytes_eq, eqb_bytes_iff}
use lotun.Names.{adjectives, animals, Rand, generate_from}
use lotun.Http.{subdomain_from_host}
use lotun.Http.Hosts.{IsPlain, subdomain_from_public_host}

-- A word without colons, brackets and dots.
abbrev is_word : Bytes → Bool
is_word s = not (elem b':' s) && (not (elem b'[' s) && not (elem b']' s))

abbrev all_words : List Bytes → Bool
all_words [] = true
all_words (s ∷ ss) = is_word s && all_words ss

get_or-elem : (ss : List Bytes) (i : ℕ) → i < length ss → elem (get_or ss i []) ss ≡ true
get_or-elem [] i h = absurd (omega arith)
get_or-elem (s ∷ ss) zero h = rw ((eqb_bytes_iff s s).1 refl)
get_or-elem (s ∷ ss) (suc i) h = ground (arith, get_or-elem ss i)

pub append-ne-nil : (s : Bytes) (c : ℕ) (t : Bytes) → s ++ (c ∷ t) ≢ []
append-ne-nil [] c t h = cc
append-ne-nil (x ∷ s) c t h = cc

and_split : (a b : Bool) → (a && b) ≡ true → (a ≡ true) × (b ≡ true)
and_split true true h = (refl, refl)
and_split true false h = cc
and_split false b h = cc

word_of_elem :
    (s : Bytes) (ss : List Bytes) → all_words ss ≡ true → elem s ss ≡ true → is_word s ≡ true
word_of_elem s [] h e = cc
word_of_elem s (t ∷ ts) h e =
    let (first, others) = and_split (is_word t) (all_words ts) h in
    elim (Bool-cases (t == s)) [
      | inl same ↦ subst (λ x. is_word x ≡ true) ((eqb_bytes_iff t s).0 same) first
      | inr other ↦ word_of_elem s ts others (rw other at e)
    ]

IsPlain-of_word : (s : Bytes) → is_word s ≡ true → IsPlain s
IsPlain-of_word s h = ground arith

IsPlain-join :
    (s t : Bytes) (c : ℕ) → IsPlain (c ∷ []) → IsPlain s → IsPlain t → IsPlain (s ++ (c ∷ t))
IsPlain-join s t c hc hs ht = (
  no_byte b':' s t c hc.0 hs.0 ht.0,
  no_byte b'[' s t c hc.1 hs.1 ht.1,
  no_byte b']' s t c hc.2 hs.2 ht.2,
)
  where
    no_byte :
        (k : ℕ) (s t : Bytes) (c : ℕ)
        → elem k (c ∷ []) ≡ false
        → elem k s ≡ false
        → elem k t ≡ false
        → elem k (s ++ (c ∷ t)) ≡ false
    no_byte k s t c hc hs ht = ground (arith, elem-append k s (c ∷ t))

-- An adjective, a dash and an animal.
abbrev pub IsName : Bytes → Type 0
IsName n =
    (a : Bytes) × (b : Bytes) × (elem a adjectives ≡ true)
    × (elem b animals ≡ true)
    × (n ≡ a ++ (b'-' ∷ b))

-- The words of a drawn name.
pub generate_from-IsName : (rng : Rand) → IsName (generate_from rng).0
unfolding generate_from
generate_from-IsName rng =
    let i = rng.draws rng.used % length adjectives in
    let j = rng.draws (rng.used + 1) % length animals in
    let i_small : i < length adjectives = omega arith in
    let j_small : j < length animals = omega arith in
    (
      get_or adjectives i [],
      get_or animals j [],
      get_or-elem adjectives i i_small,
      get_or-elem animals j j_small,
      refl,
    )

words : (all_words adjectives ≡ true) × (all_words animals ≡ true)
words = (refl, refl)

-- A drawn name is one of the adjectives, a dash and one of the animals, and its public host,
-- alone or with a port, leads back to it, if base and port hold no colon or bracket.
pub subdomain_from_drawn_host :
    (rng : Rand) (base port : Bytes)
    → IsPlain base
    → IsPlain port
    → let name = (generate_from rng).0 in
      let host = name ++ (b'.' ∷ base) in
      IsName name
      × (subdomain_from_host host base ≡ some name)
      × (subdomain_from_host (host ++ (b':' ∷ port)) base ≡ some name)
subdomain_from_drawn_host rng base port hb hp =
    let (a, b, in_a, in_b, e) = generate_from-IsName rng in
    let plain_a = IsPlain-of_word a (word_of_elem a adjectives words.0 in_a) in
    let plain_b = IsPlain-of_word b (word_of_elem b animals words.1 in_b) in
    let joined : IsPlain (a ++ (b'-' ∷ b)) =
      IsPlain-join a b b'-' (refl, refl, refl) plain_a plain_b in
    let plain : IsPlain (generate_from rng).0 = subst IsPlain (sym e) joined in
    let (alone, with_port) =
      subdomain_from_public_host (generate_from rng).0 base port
        (λ h. append-ne-nil a b'-' b (sym e ∙ h))
        (IsPlain-join (generate_from rng).0 base b'.' (refl, refl, refl) plain hb) hp in
    (generate_from-IsName rng, alone, with_port)

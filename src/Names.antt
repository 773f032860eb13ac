-- ===== src/Names.antt =====
-- internal/names/names.go: random "adjective-animal" subdomain names.
use lotun.Base.{ℕ, ◌+◌, ◌%◌, List, [], ◌∷◌, ◌++◌, length, get_or}
use lotun.Base.Bytes.{Bytes, bytes}

abbrev pub adjectives : List Bytes
adjectives =
    bytes "brave"
    ∷ bytes "calm"
    ∷ bytes "clever"
    ∷ bytes "cosmic"
    ∷ bytes "crimson"
    ∷ bytes "dapper"
    ∷ bytes "eager"
    ∷ bytes "fuzzy"
    ∷ bytes "gentle"
    ∷ bytes "golden"
    ∷ bytes "happy"
    ∷ bytes "jolly"
    ∷ bytes "keen"
    ∷ bytes "lucky"
    ∷ bytes "mellow"
    ∷ bytes "nimble"
    ∷ bytes "plucky"
    ∷ bytes "quiet"
    ∷ bytes "rapid"
    ∷ bytes "shiny"
    ∷ bytes "silent"
    ∷ bytes "snappy"
    ∷ bytes "spry"
    ∷ bytes "sunny"
    ∷ bytes "swift"
    ∷ bytes "tidy"
    ∷ bytes "vivid"
    ∷ bytes "witty"
    ∷ bytes "zany"
    ∷ bytes "zesty"
    ∷ []

abbrev pub animals : List Bytes
animals =
    bytes "otter"
    ∷ bytes "falcon"
    ∷ bytes "badger"
    ∷ bytes "panda"
    ∷ bytes "lynx"
    ∷ bytes "heron"
    ∷ bytes "marten"
    ∷ bytes "gecko"
    ∷ bytes "walrus"
    ∷ bytes "puffin"
    ∷ bytes "beaver"
    ∷ bytes "ferret"
    ∷ bytes "raven"
    ∷ bytes "moose"
    ∷ bytes "koala"
    ∷ bytes "bison"
    ∷ bytes "cobra"
    ∷ bytes "dingo"
    ∷ bytes "egret"
    ∷ bytes "finch"
    ∷ bytes "gopher"
    ∷ bytes "hare"
    ∷ bytes "ibex"
    ∷ bytes "jackal"
    ∷ bytes "kestrel"
    ∷ bytes "lemur"
    ∷ bytes "meerkat"
    ∷ bytes "newt"
    ∷ bytes "osprey"
    ∷ bytes "quokka"
    ∷ []

-- A *rand.Rand: the numbers that it will yield, and how many it has yielded so far.
pub record Rand : Type 0 where
  pub draws : ℕ → ℕ
  pub used : ℕ

-- r.Intn(n) at a positive n, as a number below n.
unfoldable pub intn : Rand → ℕ → ℕ × Rand
intn r n = (r.draws r.used % n, record r { used = r.used + 1 })

-- strings.Join(parts, sep)
unfoldable pub join : List Bytes → Bytes → Bytes
join [] sep = []
join (p ∷ []) sep = p
join (p ∷ q ∷ ps) sep = p ++ (sep ++ join (q ∷ ps) sep)

-- GenerateFrom(r). An index that `intn` yields is in range, so the default is never taken.
unfoldable pub generate_from : Rand → Bytes × Rand
unfolding intn join
generate_from r =
    let (i, r₁) = intn r (length adjectives) in
    let (j, r₂) = intn r₁ (length animals) in
    (join (get_or adjectives i [] ∷ get_or animals j [] ∷ []) (bytes "-"), r₂)

-- ===== src/Cli/Pauses.antt =====
-- The pauses of serveWithRetry in cmd/lotun/commands.go.
use lotun.Base.{
  ℕ, zero, suc, ◌*◌, ◌≤◌, Bool, true, false, ◌≡◌, refl, List, [], ◌∷◌, arith, All, if◌then◌else◌,
  ltb, leb, length,
}
use lotun.Cli.{Attempt, min_backoff, max_backoff, next_backoff, pauses_from, serve_with_retry}

abbrev pub InBounds : ℕ → Type 0
InBounds b = (min_backoff ≤ b) × (b ≤ max_backoff)

next_backoff-InBounds : (b : ℕ) → InBounds b → InBounds (next_backoff b)
unfolding next_backoff
next_backoff-InBounds b h = ground arith

branches-InBounds :
    (b : ℕ) (rest : List ℕ) (cancelled in_pause : Bool)
    → InBounds b
    → All InBounds rest
    → All InBounds (if cancelled then [] else (if in_pause then b ∷ [] else b ∷ rest))
branches-InBounds b rest true in_pause h hs = tt
branches-InBounds b rest false true h hs = (h, tt)
branches-InBounds b rest false false h hs = (h, hs)

pauses_from-InBounds :
    (b : ℕ) (attempts : List Attempt) → InBounds b → All InBounds (pauses_from b attempts)
unfolding pauses_from
pauses_from-InBounds b [] h = tt
pauses_from-InBounds b (a ∷ later) h =
    let b' = if ltb max_backoff a.lasted then min_backoff else b in
    let within : InBounds b' = ground arith in
    branches-InBounds b' (pauses_from (next_backoff b') later) a.cancelled a.cancelled_in_pause
      within (pauses_from-InBounds (next_backoff b') later (next_backoff-InBounds b' within))

-- Whatever the sessions of serveWithRetry do, each pause lasts from 1 s to 30 s.
pub serve_with_retry-InBounds : (attempts : List Attempt) → All InBounds (serve_with_retry attempts)
unfolding serve_with_retry
serve_with_retry-InBounds attempts =
    pauses_from-InBounds min_backoff attempts (omega arith, omega arith)

-- An attempt that drops early, with nothing cancelled.
abbrev pub IsDrop : Attempt → Type 0
IsDrop a =
    (ltb max_backoff a.lasted ≡ false) × (a.cancelled ≡ false) × (a.cancelled_in_pause ≡ false)

-- A pause, but no longer than the longest.
abbrev pub cap : ℕ → ℕ
cap b = if leb b max_backoff then b else max_backoff

-- The first `n` pauses that start at `b` and double up to the longest.
abbrev pub doubling : ℕ → ℕ → List ℕ
doubling b zero = []
doubling b (suc n) = cap b ∷ doubling (b * 2) n

next_backoff-cap : (b : ℕ) → next_backoff (cap b) ≡ cap (b * 2)
unfolding next_backoff
next_backoff-cap b = ground arith

pauses_from-drops :
    (b : ℕ) (attempts : List Attempt)
    → All IsDrop attempts
    → pauses_from (cap b) attempts ≡ doubling b (length attempts)
unfolding pauses_from
pauses_from-drops b [] h = refl
pauses_from-drops b (a ∷ later) ((short, going, waiting), h) =
    let rest : pauses_from (next_backoff (cap b)) later ≡ doubling (b * 2) (length later) =
      rw (next_backoff-cap b) (pauses_from-drops (b * 2) later h) in
    rw (short, going, waiting, rest, pauses_from) refl

-- If every session of serveWithRetry drops within 30 s and nothing is cancelled, the pauses start
-- at 1 s and double, up to 30 s.
pub serve_with_retry-drops :
    (attempts : List Attempt)
    → All IsDrop attempts
    → serve_with_retry attempts ≡ doubling min_backoff (length attempts)
unfolding serve_with_retry
serve_with_retry-drops attempts h = pauses_from-drops min_backoff attempts h

-- ===== src/Base/Sort.antt =====
-- sort.Strings: the bytewise order of Go strings, and a sort by it.
use mathlib.Core.Path.{◌≡◌, refl}
use mathlib.Core.Bool.{Bool, true, false}
use mathlib.Core.List.{List, [], ◌∷◌}
use native.Mathlib.Omega.{arith}
use lotun.Base.Tests.{ltb, if◌then◌else◌, ◌==◌}
use lotun.Base.Lists.{elem}
use lotun.Base.Bytes.{Bytes, bytes_eq}

unfoldable pub leb_bytes : Bytes → Bytes → Bool
leb_bytes [] t = true
leb_bytes (a ∷ s) [] = false
leb_bytes (a ∷ s) (b ∷ t) =
    let rest = leb_bytes s t in if ltb a b then true else (if ltb b a then false else rest)

pub leb_bytes_total : (s t : Bytes) → leb_bytes s t ≡ false → leb_bytes t s ≡ true
unfolding leb_bytes
leb_bytes_total [] t h = cc
leb_bytes_total (a ∷ s) [] h = refl
leb_bytes_total (a ∷ s) (b ∷ t) h = ground (arith, leb_bytes_total s t)

unfoldable pub insert_sorted : Bytes → List Bytes → List Bytes
insert_sorted s [] = s ∷ []
insert_sorted s (t ∷ ts) =
    let rest = insert_sorted s ts in if leb_bytes s t then s ∷ t ∷ ts else t ∷ rest

unfoldable pub sort_strings : List Bytes → List Bytes
sort_strings [] = []
sort_strings (s ∷ ss) = insert_sorted s (sort_strings ss)

-- Each entry is at most the next one.
abbrev pub IsSorted : List Bytes → Type 0
IsSorted [] = Unit
IsSorted (s ∷ []) = Unit
IsSorted (s ∷ t ∷ ts) = (leb_bytes s t ≡ true) × IsSorted (t ∷ ts)

insert_sorted-IsSorted : (s : Bytes) (ts : List Bytes) → IsSorted ts → IsSorted (insert_sorted s ts)
unfolding insert_sorted
insert_sorted-IsSorted s [] h = tt
insert_sorted-IsSorted s (t ∷ []) h = ground (arith, leb_bytes_total s t)
insert_sorted-IsSorted s (t ∷ u ∷ us) h =
    ground (arith, leb_bytes_total s t, insert_sorted-IsSorted s (u ∷ us) h.1)

pub sort_strings-IsSorted : (ss : List Bytes) → IsSorted (sort_strings ss)
unfolding sort_strings
sort_strings-IsSorted [] = tt
sort_strings-IsSorted (s ∷ ss) =
    insert_sorted-IsSorted s (sort_strings ss) (sort_strings-IsSorted ss)

elem-insert_sorted :
    (k s : Bytes) (ts : List Bytes)
    → elem k (insert_sorted s ts) ≡ (if s == k then true else elem k ts)
unfolding insert_sorted
elem-insert_sorted k s [] = refl
elem-insert_sorted k s (t ∷ ts) = ground (arith, elem-insert_sorted k s ts)

pub elem-sort_strings : (k : Bytes) (ss : List Bytes) → elem k (sort_strings ss) ≡ elem k ss
unfolding sort_strings
elem-sort_strings k [] = refl
elem-sort_strings k (s ∷ ss) =
    ground (arith, elem-insert_sorted k s (sort_strings ss), elem-sort_strings k ss)

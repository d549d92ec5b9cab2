-- ===== src/FreeList/Carve.antt =====
-- What mm_alloc of Kernel/drivers/freeListMemoryManager.c takes out of the free blocks, and how that fits in
-- again: a whole block, or the first bytes of one.
use tpe_so_2023_tp.Base.{
  ℕ, ◌+◌, ◌-◌, ◌≤◌, ◌<◌, ◌≡◌, ap, arith, [], ◌∷◌, ltb, if◌then◌else◌, Bool-cases, true, inl, inr,
}
use tpe_so_2023_tp.FreeList.Chain.{Spans, IsSorted, bytes_in, head-le-end, Fits}
use tpe_so_2023_tp.FreeList.Places.{insert}
use tpe_so_2023_tp.FreeList.Alloc.{found, found_size, removed}

-- The spans when the first that fits loses its first `n` bytes.
abbrev pub carved : ℕ → Spans → Spans
carved n [] = []
carved n ((b, t) ∷ xs) = if ltb t n then (b, t) ∷ carved n xs else (b + n, t - n) ∷ xs

pub found-bounds :
    (e n a s : ℕ) (xs : Spans)
    → IsSorted e ((a, s) ∷ xs)
    → found e n xs < e
    → (a + s < found e n xs) × (n ≤ found_size n xs) × (found e n xs + found_size n xs ≤ e)
found-bounds e n a s [] so lt = absurd (omega arith)
found-bounds e n a s ((c, t) ∷ xs) (ac, so) lt = elim (Bool-cases (ltb t n)) [
  | inl small ↦ ground (arith, found-bounds e n c t xs so)
  | inr fits ↦ ground (arith, head-le-end e c t xs so)
]

pub removed-bytes_in :
    (e n : ℕ) (xs : Spans)
    → found e n xs < e
    → found_size n xs + bytes_in (removed n xs) ≡ bytes_in xs
removed-bytes_in e n [] lt = absurd (omega arith)
removed-bytes_in e n ((c, t) ∷ xs) lt = ground (arith, removed-bytes_in e n xs)

pub carved-bytes_in :
    (e n : ℕ) (xs : Spans) → found e n xs < e → n + bytes_in (carved n xs) ≡ bytes_in xs
carved-bytes_in e n [] lt = absurd (omega arith)
carved-bytes_in e n ((c, t) ∷ xs) lt = ground (arith, carved-bytes_in e n xs)

pub removed-IsSorted :
    (e n a s : ℕ) (xs : Spans)
    → IsSorted e ((a, s) ∷ xs)
    → found e n xs < e
    → IsSorted e ((a, s) ∷ removed n xs)
removed-IsSorted e n a s [] so lt = absurd (omega arith)
removed-IsSorted e n a s ((c, t) ∷ xs) (ac, so) lt = elim (Bool-cases (ltb t n)) [
  | inl small ↦ rw small (ac, removed-IsSorted e n c t xs so (ground arith))
  | inr fits ↦ rw fits (past e a s c t xs ac so)
]
  where
    past :
        (e a s c t : ℕ) (ys : Spans)
        → a + s < c
        → IsSorted e ((c, t) ∷ ys)
        → IsSorted e ((a, s) ∷ ys)
    past e a s c t [] ac so = (omega arith, omega arith)
    past e a s c t ((d, u) ∷ ys) ac (cd, so) = (omega arith, so)

-- A part of the block overlaps no other span.
pub removed-Fits :
    (e n a s b sb : ℕ) (xs : Spans)
    → IsSorted e ((a, s) ∷ xs)
    → found e n xs < e
    → found e n xs ≤ b
    → b < found e n xs + found_size n xs
    → b + sb ≤ found e n xs + found_size n xs
    → Fits e b sb (removed n xs)
removed-Fits e n a s b sb [] so lt lo hi fit = absurd (omega arith)
removed-Fits e n a s b sb ((c, t) ∷ xs) (ac, so) lt lo hi fit = elim (Bool-cases (ltb t n)) [
  | inl small ↦
      let lt' : found e n xs < e = ground arith in
      let ahead = found-bounds e n c t xs so lt' in
      rw small (
        inr (
          ground arith,
          ground arith,
          removed-Fits e n c t b sb xs so lt' (ground arith) (ground arith) (ground arith),
        ))
  | inr fits ↦ rw fits (ahead xs so (ground arith) (ground arith))
]
  where
    ahead : (ys : Spans) → IsSorted e ((c, t) ∷ ys) → b < c + t → b + sb ≤ c + t → Fits e b sb ys
    ahead [] so hi fit = (omega arith, omega arith)
    ahead ((d, u) ∷ ys) so hi fit = inl (omega arith, omega arith)

pub carved-Fits :
    (e n a s : ℕ) (xs : Spans)
    → IsSorted e ((a, s) ∷ xs)
    → found e n xs < e
    → 0 < n
    → Fits e (found e n xs) n (carved n xs)
carved-Fits e n a s [] so lt some_n = absurd (omega arith)
carved-Fits e n a s ((c, t) ∷ xs) (ac, so) lt some_n = elim (Bool-cases (ltb t n)) [
  | inl small ↦
      let lt' : found e n xs < e = ground arith in
      let ahead = found-bounds e n c t xs so lt' in
      rw small
        (inr (omega (arith, ahead), omega (arith, ahead), carved-Fits e n c t xs so lt' some_n))
  | inr fits ↦ rw fits (inl (omega arith, omega arith))
]

-- The rest of a block goes where the block was: the used bytes before it keep it apart.
pub insert-carved :
    (e n a s : ℕ) (xs : Spans)
    → IsSorted e ((a, s) ∷ xs)
    → found e n xs < e
    → 0 < n
    → n < found_size n xs
    → insert (found e n xs + n) (found_size n xs - n) a s (removed n xs) ≡ (a, s) ∷ carved n xs
unfolding insert
insert-carved e n a s [] so lt some_n less = absurd (omega arith)
insert-carved e n a s ((c, t) ∷ xs) (ac, so) lt some_n less = elim (Bool-cases (ltb t n)) [
  | inl small ↦
      let lt' : found e n xs < e = ground arith in
      let rest = insert-carved e n c t xs so lt' some_n in
      let on : ltb c (found e n xs + n) ≡ true = ground (arith, found-bounds e n c t xs so lt') in
      rw small (rw on (ap (λ ys. (a, s) ∷ ys) (rest (ground arith))))
  | inr fits ↦ rw fits (first xs so (ground arith))
]
  where
    first :
        (ys : Spans)
        → IsSorted e ((c, t) ∷ ys)
        → n < t
        → insert (c + n) (t - n) a s ys ≡ (a, s) ∷ (c + n, t - n) ∷ ys
    first [] so less = ground arith
    first ((d, u) ∷ ys) (cd, so) less = ground arith

-- Both come back to where they were.
pub insert-carved_back :
    (e n a s : ℕ) (xs : Spans)
    → IsSorted e ((a, s) ∷ xs)
    → found e n xs < e
    → 0 < n
    → insert (found e n xs) n a s (carved n xs) ≡ (a, s) ∷ xs
unfolding insert
insert-carved_back e n a s [] so lt some_n = absurd (omega arith)
insert-carved_back e n a s ((c, t) ∷ xs) (ac, so) lt some_n = elim (Bool-cases (ltb t n)) [
  | inl small ↦
      let lt' : found e n xs < e = ground arith in
      let on : ltb c (found e n xs) ≡ true = ground (arith, found-bounds e n c t xs so lt') in
      rw small (rw on (ap (λ ys. (a, s) ∷ ys) (insert-carved_back e n c t xs so lt' some_n)))
  | inr fits ↦ rw fits (ground arith)
]

pub insert-removed_back :
    (e n a s : ℕ) (xs : Spans)
    → IsSorted e ((a, s) ∷ xs)
    → found e n xs < e
    → insert (found e n xs) (found_size n xs) a s (removed n xs) ≡ (a, s) ∷ xs
unfolding insert
insert-removed_back e n a s [] so lt = absurd (omega arith)
insert-removed_back e n a s ((c, t) ∷ xs) (ac, so) lt = elim (Bool-cases (ltb t n)) [
  | inl small ↦
      let lt' : found e n xs < e = ground arith in
      let on : ltb c (found e n xs) ≡ true = ground (arith, found-bounds e n c t xs so lt') in
      rw small (rw on (ap (λ ys. (a, s) ∷ ys) (insert-removed_back e n c t xs so lt')))
  | inr fits ↦ rw fits (first xs so)
]
  where
    first : (ys : Spans) → IsSorted e ((c, t) ∷ ys) → insert c t a s ys ≡ (a, s) ∷ (c, t) ∷ ys
    first [] so = ground arith
    first ((d, u) ∷ ys) (cd, so) = ground arith

-- ===== src/FreeList/Places.antt =====
-- Where insert_block of Kernel/drivers/freeListMemoryManager.c puts a block among the free ones.
use tpe_so_2023_tp.Base.{
  ℕ, ◌+◌, ◌≤◌, ◌<◌, ◌≡◌, refl, arith, [], ◌∷◌, ◌==◌, ltb, if◌then◌else◌, Bool-cases, true, false,
  inl, inr,
}
use tpe_so_2023_tp.FreeList.Chain.{
  Spans, head_or, IsSorted, bytes_in, head-lt-end, tail-IsSorted, Fits,
}

-- A span put before others swallows the next one if it touches it, except that the end stays.
abbrev pub join : ℕ → ℕ → Spans → Spans
join b sb [] = (b, sb) ∷ []
join b sb ((c, t) ∷ xs) = if b + sb == c then (b, sb + t) ∷ xs else (b, sb) ∷ (c, t) ∷ xs

-- Put behind (a, s), which grows if the two touch.
abbrev pub place : ℕ → ℕ → ℕ → ℕ → Spans → Spans
place b sb a s xs = if a + s == b then join a (s + sb) xs else (a, s) ∷ join b sb xs

-- The same, at its place among the spans behind (a, s).
unfoldable pub insert : ℕ → ℕ → ℕ → ℕ → Spans → Spans
insert b sb a s [] = place b sb a s []
insert b sb a s ((c, t) ∷ xs) =
    let rest = insert b sb c t xs in if ltb c b then (a, s) ∷ rest else place b sb a s ((c, t) ∷ xs)

pub insert-head : (e b sb a s : ℕ) (xs : Spans) → head_or e (insert b sb a s xs) ≡ a
unfolding insert
insert-head e b sb a s [] = ground arith
insert-head e b sb a s ((c, t) ∷ xs) = ground arith

-- One span for two that touch.
absorb :
    (e b sb t c : ℕ) (xs : Spans)
    → b + sb ≡ c
    → b < e
    → IsSorted e ((c, t) ∷ xs)
    → IsSorted e ((b, sb + t) ∷ xs)
absorb e b sb t c [] touch be (fit, ce) = (omega arith, be)
absorb e b sb t c ((d, u) ∷ xs) touch be (lt, so) = (omega arith, so)

join-IsSorted :
    (e b sb : ℕ) (xs : Spans)
    → b < e
    → b + sb ≤ head_or e xs
    → IsSorted e xs
    → IsSorted e (join b sb xs)
join-IsSorted e b sb [] be fit so = (fit, be)
join-IsSorted e b sb ((c, t) ∷ xs) be fit so = elim (Bool-cases (b + sb == c)) [
  | inl touch ↦ rw touch (absorb e b sb t c xs (ground arith) be so)
  | inr apart ↦ rw apart (ground arith, so)
]

join-head : (e b sb : ℕ) (xs : Spans) → head_or e (join b sb xs) ≡ b
join-head e b sb [] = refl
join-head e b sb ((c, t) ∷ xs) = ground arith

pub cons-IsSorted :
    (e a s : ℕ) (xs : Spans) → a + s < head_or e xs → IsSorted e xs → IsSorted e ((a, s) ∷ xs)
cons-IsSorted e a s [] lt so = (omega arith, omega arith)
cons-IsSorted e a s ((c, t) ∷ xs) lt so = (lt, so)

place-IsSorted :
    (e b sb a s : ℕ) (xs : Spans)
    → IsSorted e ((a, s) ∷ xs)
    → a + s ≤ b
    → b < e
    → b + sb ≤ head_or e xs
    → IsSorted e (place b sb a s xs)
place-IsSorted e b sb a s xs so asb be fit = elim (Bool-cases (a + s == b)) [
  | inl touch ↦
      rw touch
        (join-IsSorted e a (s + sb) xs (omega arith) (ground arith) (tail-IsSorted e a s xs so))
  | inr apart ↦ rw apart (
      cons-IsSorted e a s (join b sb xs) (ground (arith, join-head e b sb xs))
        (join-IsSorted e b sb xs be fit (tail-IsSorted e a s xs so)))
]

pub insert-IsSorted :
    (e b sb a s : ℕ) (xs : Spans)
    → IsSorted e ((a, s) ∷ xs)
    → a + s ≤ b
    → Fits e b sb xs
    → IsSorted e (insert b sb a s xs)
unfolding insert
insert-IsSorted e b sb a s [] so asb (be, fit) = place-IsSorted e b sb a s [] so asb be fit
insert-IsSorted e b sb a s ((c, t) ∷ xs) (ac, so) asb (inl (bc, fit)) =
    let here : ltb c b ≡ false = ground arith in
    rw here (
      place-IsSorted e b sb a s ((c, t) ∷ xs) (ac, so) asb (omega (arith, head-lt-end e c t xs so))
        fit)
insert-IsSorted e b sb a s ((c, t) ∷ xs) (ac, so) asb (inr (cb, ctb, fits)) =
    let on : ltb c b ≡ true = ground arith in
    rw on (
      cons-IsSorted e a s (insert b sb c t xs) (ground (arith, insert-head e b sb c t xs))
        (insert-IsSorted e b sb c t xs so ctb fits))

join-bytes_in : (b sb : ℕ) (xs : Spans) → bytes_in (join b sb xs) ≡ sb + bytes_in xs
join-bytes_in b sb [] = refl
join-bytes_in b sb ((c, t) ∷ xs) = ground arith

place-bytes_in : (b sb a s : ℕ) (xs : Spans) → bytes_in (place b sb a s xs) ≡ s + sb + bytes_in xs
place-bytes_in b sb a s xs = ground (arith, join-bytes_in a (s + sb) xs, join-bytes_in b sb xs)

-- No byte is lost or won.
pub insert-bytes_in :
    (b sb a s : ℕ) (xs : Spans) → bytes_in (insert b sb a s xs) ≡ sb + bytes_in ((a, s) ∷ xs)
unfolding insert
insert-bytes_in b sb a s [] = ground (arith, place-bytes_in b sb a s [])
insert-bytes_in b sb a s ((c, t) ∷ xs) =
    ground (arith, place-bytes_in b sb a s ((c, t) ∷ xs), insert-bytes_in b sb c t xs)

-- The place of a span in the whole list.
abbrev pub put : ℕ → ℕ → Spans → Spans
put b sb [] = (b, sb) ∷ []
put b sb ((c, t) ∷ xs) = if ltb c b then insert b sb c t xs else join b sb ((c, t) ∷ xs)

pub insert-put : (b sb a : ℕ) (xs : Spans) → a < b → insert b sb a 0 xs ≡ (a, 0) ∷ put b sb xs
unfolding insert
insert-put b sb a [] lt = ground arith
insert-put b sb a ((c, t) ∷ xs) lt = ground arith

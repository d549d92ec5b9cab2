-- ===== src/Buddy/Overlap.antt =====
-- mm_alloc of Kernel/drivers/buddyMemoryManager.c, for a size that get_level gives a level below its own.
use native.Mathlib.Nat.{one-le-pow, pow-le-pow_right}
use tpe_so_2023_tp.Base.{
  ℕ, ◌+◌, ◌-◌, ◌*◌, ◌^◌, ◌≤◌, ◌<◌, ◌≡◌, ◌⊎◌, inl, inr, subst, arith, true, List, length,
}
use tpe_so_2023_tp.Buddy.{Buddy, get_level, get_ptr, is_taken, mm_alloc}
use tpe_so_2023_tp.Buddy.Level.{level_too_small}
use tpe_so_2023_tp.Buddy.Live.{IsTree, OnLevel, Allocates, first_lem, mm_alloc_lem}

-- The next node of a level begins where the block of a node ends.
next_ptr :
    (b : Buddy) (level i : ℕ)
    → level ≤ 15
    → OnLevel level i
    → get_ptr b (i + 1) level ≡ get_ptr b i level + 256 * 2 ^ level
unfolding get_ptr
next_ptr b level i h (lo, _) =
    let first = 2 ^ (15 - level) - 1 in
    let one_more : i + 1 - first ≡ (i - first) + 1 = omega arith in
    rw (first_lem level h, one_more) (omega arith)

-- A refusal because the level is full, or a block that ends 2^l bytes before the bytes asked for do.
abbrev pub EndsEarly : Buddy → ℕ → ℕ → ℕ → Type 0
EndsEarly b level size ptr =
    ((ptr ≡ 0) × ((i : ℕ) → OnLevel level i → is_taken b i ≡ true))
    ⊎ ((i : ℕ) × (ptr ≡ get_ptr b i level)
        × OnLevel level i
        × (get_ptr b (i + 1) level + 2 ^ level ≡ ptr + size))

from_Allocates :
    (b b' : Buddy) (live : List ℕ) (level size ptr : ℕ)
    → level ≤ 14
    → size ≡ 257 * 2 ^ level
    → get_level size ≡ level
    → Allocates b live size (ptr, b')
    → EndsEarly b level size ptr
from_Allocates b b' live level size ptr h e at (inl (null, _, reasons)) =
    let most : 2 ^ level ≤ 2 ^ 14 = pow-le-pow_right (omega arith) h in
    let least : 1 ≤ 2 ^ level = one-le-pow level 2 (omega arith) in
    elim reasons [
      | inl none ↦ absurd (omega arith)
      | inr (inl large) ↦ absurd (omega arith)
      | inr (inr (inl beyond)) ↦ absurd (omega arith)
      | inr (inr (inr full)) ↦
          inl (null, subst (λ l. (i : ℕ) → OnLevel l i → is_taken b i ≡ true) at full)
    ]
from_Allocates b b' live level size ptr h e at (inr (i, there, on, _, _)) =
    let there' : ptr ≡ get_ptr b i level = subst (λ l. ptr ≡ get_ptr b i l) at there in
    let on' : OnLevel level i = subst (λ l. OnLevel l i) at on in
    inr (i, there', on', omega (arith, next_ptr b level i (omega arith) on', there', e))

-- At each of the levels 0 to 14 there is a size, 257 * 2^l bytes, for which mm_alloc never hands out enough: it
-- returns NULL when each node of the level is taken or lies above or below one that is, and else
-- a block of 256 * 2^l bytes, so that the last 2^l bytes of what was asked for lie in the next
-- block of the level, or beyond the heap behind the last one.
pub block_too_small :
    (b : Buddy) (live : List ℕ) (level size : ℕ)
    → IsTree b live
    → length live + 1 < 2 ^ 32
    → level ≤ 14
    → size ≡ 257 * 2 ^ level
    → EndsEarly b level size (mm_alloc b size).0
block_too_small b live level size t few h e =
    from_Allocates b (mm_alloc b size).1 live level size (mm_alloc b size).0 h e
      (level_too_small level size (omega arith) e).0 (mm_alloc_lem b live size t few)

-- ===== src/Buddy/Level.antt =====
-- get_level of Kernel/drivers/buddyMemoryManager.c: which blocks are chosen for a size.
use native.Mathlib.Nat.{one-le-pow, pow-le-pow_right}
use tpe_so_2023_tp.Base.{
  ℕ, zero, suc, ◌+◌, ◌-◌, ◌*◌, ◌/◌, ◌%◌, ◌^◌, ◌≤◌, ◌<◌, ◌≡◌, inl, inr, refl, arith, ltb, Bool-cases,
}
use tpe_so_2023_tp.Buddy.{get_level, level_of}

-- A size less one, and the level that is chosen for it.
abbrev Chosen : ℕ → ℕ → Type 0
Chosen s zero = s < 257
Chosen s (suc level) = (s < 257 * 2 ^ suc level) × (257 * 2 ^ level ≤ s)

level_of-suc : (fuel s level : ℕ) → level_of fuel s (level + 1) ≡ suc (level_of fuel s level)
unfolding level_of
level_of-suc zero s level = omega arith
level_of-suc (suc fuel) s level = ground (arith, level_of-suc fuel (s / 2) (level + 1))

halved-Chosen : (s level : ℕ) → 256 < s → Chosen (s / 2) level → Chosen s (suc level)
halved-Chosen s zero h upper = (omega arith, omega arith)
halved-Chosen s (suc level) h (upper, lower) = (omega arith, omega arith)

level_of-Chosen : (fuel s : ℕ) → s < 2 ^ fuel → Chosen s (level_of fuel s 0)
unfolding level_of
level_of-Chosen zero s h = omega arith
level_of-Chosen (suc fuel) s h = elim (Bool-cases (ltb 256 s)) [
  | inl big ↦
      rw (level_of, big, level_of-suc fuel (s / 2) 0)
        (halved-Chosen s _ (ground arith) (level_of-Chosen fuel (s / 2) (omega arith)))
  | inr small ↦ rw (level_of, small) (ground arith)
]

Chosen-bounds :
    (size level : ℕ)
    → 0 < size
    → Chosen (size - 1) level
    → (size ≤ 257 * 2 ^ level) × ((lower : ℕ) → level ≡ suc lower → 257 * 2 ^ lower < size)
Chosen-bounds size zero h upper = (omega arith, λ lower e. absurd (omega arith))
Chosen-bounds size (suc level) h (upper, lower) =
    (omega arith, λ l e. let same : l ≡ level = omega arith in rw same (omega arith))

-- get_level chooses the least level whose blocks, of 256 bytes times a power of two, are smaller than the
-- size by at most one part in 256: a size gets level `l` only when it is at most 257 * 2^l, and above
-- 257 * 2^(l - 1) unless `l` is 0.
pub get_level_lem :
    (size : ℕ)
    → 0 < size
    → size < 2 ^ 64
    → (size ≤ 257 * 2 ^ get_level size)
      × ((lower : ℕ) → get_level size ≡ suc lower → 257 * 2 ^ lower < size)
unfolding get_level
get_level_lem size some_bytes small =
    let less_one : (size + 2 ^ 64 - 1) % 2 ^ 64 ≡ size - 1 = omega arith in
    rw less_one (Chosen-bounds size _ some_bytes (level_of-Chosen 64 (size - 1) (omega arith)))

level_of-small :
    (level fuel s : ℕ) → level < fuel → s + 1 ≡ 257 * 2 ^ level → level_of fuel s 0 ≡ level
unfolding level_of
level_of-small level zero s h e = absurd (omega arith)
level_of-small zero (suc fuel) s h e = ground arith
level_of-small (suc level) (suc fuel) s h e = ground (
  arith,
  level_of-suc fuel (s / 2) 0,
  level_of-small level fuel (s / 2) (omega arith) (omega arith),
)

-- A size of 257 * 2^l bytes gets the level of the blocks of 256 * 2^l bytes.
pub level_too_small :
    (level size : ℕ)
    → level ≤ 15
    → size ≡ 257 * 2 ^ level
    → (get_level size ≡ level) × (256 * 2 ^ get_level size < size)
unfolding get_level
level_too_small level size h e =
    let most : 2 ^ level ≤ 2 ^ 15 = pow-le-pow_right (omega arith) h in
    let least : 1 ≤ 2 ^ level = one-le-pow level 2 (omega arith) in
    let less_one : (size + 2 ^ 64 - 1) % 2 ^ 64 ≡ size - 1 = omega arith in
    let chosen = level_of-small level 64 (size - 1) (omega arith) (omega arith) in
    rw (less_one, chosen) (refl, omega arith)

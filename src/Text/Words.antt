-- ===== src/Text/Words.antt =====
-- memset and memcpy of Kernel/libc/libc.c: the loops fill and copy the bytes that they are asked to.
use tpe_so_2023_tp.Base.{
  ℕ, zero, suc, ◌*◌, ◌/◌, ◌%◌, ◌<◌, ◌≤◌, ◌≡◌, refl, ap, ◌∙◌, arith, List, [], ◌∷◌, ◌++◌, length,
  take, drop, set, replicate, All, length-set,
}
use tpe_so_2023_tp.Text.{memset, memcpy, load_words, store_words}

-- A word of four bytes has those bytes back.
store-load :
    (k : ℕ) (bytes : List ℕ)
    → All (λ b. b < 256) bytes
    → 4 * k ≤ length bytes
    → store_words (load_words k bytes) ≡ take (4 * k) bytes
unfolding load_words store_words
store-load zero bytes small h = refl
store-load (suc k) [] small h = absurd (omega arith)
store-load (suc k) (a ∷ []) small h = absurd (omega arith)
store-load (suc k) (a ∷ b ∷ []) small h = absurd (omega arith)
store-load (suc k) (a ∷ b ∷ c ∷ []) small h = absurd (omega arith)
store-load (suc k) (a ∷ b ∷ c ∷ d ∷ rest) (la, (lb, (lc, (ld, small)))) h =
    let four : 4 * suc k ≡ suc (suc (suc (suc (4 * k)))) = omega arith in
    let ih = store-load k rest small (omega arith) in rw four (ground (arith, ih))

-- Whatever the addresses are, by words or by bytes, memcpy stores the first `n` bytes of the source.
pub memcpy_lem :
    (destination source : ℕ) (bytes : List ℕ) (n : ℕ)
    → All (λ b. b < 256) bytes
    → n ≤ length bytes
    → memcpy destination source bytes n ≡ take n bytes
unfolding memcpy
memcpy_lem destination source bytes n small h =
    let whole : n % 4 ≡ 0 → 4 * (n / 4) ≡ n = λ e. omega arith in
    ground (arith, store-load (n / 4) bytes small (omega arith))

drop-set : (xs : List ℕ) (n v : ℕ) → n < length xs → drop n (set xs n v) ≡ v ∷ drop (suc n) xs
drop-set [] n v h = absurd (omega arith)
drop-set (x ∷ xs) zero v h = refl
drop-set (x ∷ xs) (suc n) v h = drop-set xs n v (omega arith)

replicate-cons : (n v : ℕ) (ys : List ℕ) → replicate n v ++ v ∷ ys ≡ v ∷ replicate n v ++ ys
replicate-cons zero v ys = refl
replicate-cons (suc n) v ys = ap (◌∷◌ v) (replicate-cons n v ys)

-- memset fills the first `n` bytes with the low byte of `chr` and leaves the others.
pub memset_lem :
    (bytes : List ℕ) (chr n : ℕ)
    → n ≤ length bytes
    → memset bytes chr n ≡ replicate n (chr % 256) ++ drop n bytes
unfolding memset
memset_lem bytes chr zero h = refl
memset_lem bytes chr (suc n) h =
    memset_lem (set bytes n (chr % 256)) chr n (omega (arith, length-set bytes n (chr % 256)))
    ∙ rw (drop-set bytes n (chr % 256) h) (replicate-cons n (chr % 256) (drop (suc n) bytes))

-- ===== src/Buddy/Walk.antt =====
-- The walk of search_node in Kernel/drivers/buddyMemoryManager.c, down to the node of a block.
use native.Mathlib.Nat.{pow-suc, one-le-pow, mul-lt-mul_of_pos_right, mul-le-mul_right}
use native.Mathlib.Decide.{dec_lt}
use tpe_so_2023_tp.Base.{
  ℕ, zero, suc, ◌+◌, ◌-◌, ◌*◌, ◌^◌, ◌≤◌, ◌<◌, ◌≡◌, inl, inr, refl, ap, sym, ◌∙◌, arith, ltb,
  if◌then◌else◌, Bool-cases, some,
}
use tpe_so_2023_tp.Buddy.{Buddy, search_node, get_ptr, get_left_child, get_right_child}
use tpe_so_2023_tp.Buddy.Live.{first_lem}

-- The first node of a level of the tree.
abbrev pub first : ℕ → ℕ
first level = 2 ^ (15 - level) - 1

pub halves : (level : ℕ) → suc level ≤ 15 → first level ≡ 2 * first (suc level) + 1
halves level h =
    let e : 15 - level ≡ suc (15 - suc level) = omega arith in
    let least : 1 ≤ 2 ^ (15 - suc level) = one-le-pow (15 - suc level) 2 (omega arith) in
    rw (e, pow-suc) (omega arith)

pub get_ptr_lem :
    (b : Buddy) (level q : ℕ)
    → level ≤ 15
    → get_ptr b (first level + q) level ≡ b.heap_start + q * 2 ^ level * 256
unfolding get_ptr
get_ptr_lem b level q h =
    let past : first level + q - first level ≡ q = omega arith in rw (first_lem level h, past) refl

search_here :
    (b : Buddy) (level index ptr : ℕ)
    → (b.block_tree index).used ≡ 1
    → ptr ≡ get_ptr b index level
    → search_node (suc level) b index ptr ≡ some (index, level)
unfolding search_node
search_here b level index ptr here at = ground (arith, at)

search_down :
    (b : Buddy) (level index ptr : ℕ)
    → (b.block_tree index).used ≡ 0
    → search_node (suc level) b index ptr
      ≡ search_node level b
          (if ltb ptr (get_ptr b (get_right_child index) (level - 1))
            then get_left_child index
            else get_right_child index)
          ptr
unfolding search_node
search_down b level index ptr free = rw (search_node, free) refl

left_half : (q r a p : ℕ) → r < a → 0 < p → (q * (a * 2) + r) * p < (2 * q + 1) * (p * a)
left_half q r a p h some_p =
    let less : r * p < a * p = mul-lt-mul_of_pos_right h some_p in omega (arith, less)

right_half : (q r a p : ℕ) → a ≤ r → (2 * q + 1) * (p * a) ≤ (q * (a * 2) + r) * p
right_half q r a p h = let less : a * p ≤ r * p = mul-le-mul_right p h in omega (arith, less)

-- `k` is the position of a block in its level, and `e` levels up the one that holds it is at `p`.
abbrev pub Holds : ℕ → ℕ → ℕ → Type 0
Holds k e p = (s : ℕ) × (s < 2 ^ e) × (k ≡ p * 2 ^ e + s)

pub pow_add : (l d : ℕ) → 2 ^ (l + d) ≡ 2 ^ l * 2 ^ d
pow_add l zero = let e : l + zero ≡ l = omega arith in rw e (omega arith)
pow_add l (suc d) =
    let e : l + suc d ≡ suc (l + d) = omega arith in
    rw (e, pow-suc, pow-suc, pow_add l d) (omega arith)

-- The test of search_node at a level above the block's goes the way that the block lies.
turns :
    (b : Buddy) (l d m k q r ptr : ℕ)
    → m ≡ l + d
    → suc m ≤ 15
    → k ≡ q * 2 ^ suc d + r
    → ptr ≡ b.heap_start + k * 2 ^ l * 256
    → ltb ptr (get_ptr b (get_right_child (first (suc m) + q)) m) ≡ ltb r (2 ^ d)
turns b l d m k q r ptr hm deep hk hp =
    let child : get_right_child (first (suc m) + q) ≡ first m + (2 * q + 1) =
      omega (arith, halves m deep) in
    let some_l : 1 ≤ 2 ^ l = one-le-pow l 2 (omega arith) in
    let at : k * 2 ^ l ≡ (q * (2 ^ d * 2) + r) * 2 ^ l = rw (hk, pow-suc) refl in
    let size : 2 ^ m ≡ 2 ^ l * 2 ^ d = rw hm (pow_add l d) in
    rw (child, get_ptr_lem b m (2 * q + 1) (omega arith), hp, size, at)
      (elim (dec_lt r (2 ^ d)) [
        | yes left ↦ ground (arith, left_half q r (2 ^ d) (2 ^ l) left some_l)
        | no right ↦ ground (arith, right_half q r (2 ^ d) (2 ^ l) (omega arith))
      ])

pub walk :
    (d : ℕ) (b : Buddy) (l m k q r ptr : ℕ)
    → m ≡ l + d
    → m ≤ 15
    → r < 2 ^ d
    → k ≡ q * 2 ^ d + r
    → ptr ≡ b.heap_start + k * 2 ^ l * 256
    → (b.block_tree (first l + k)).used ≡ 1
    → ((e p : ℕ) → 0 < e → l + e ≤ 15 → Holds k e p → (b.block_tree (first (l + e) + p)).used ≡ 0)
    → search_node (suc m) b (first m + q) ptr ≡ some (first l + k, l)
walk zero b l m k q r ptr hm deep hr hk hp here above =
    let ml : m ≡ l = omega arith in
    let qk : q ≡ k = omega arith in
    rw (ml, qk)
      (search_here b l (first l + k) ptr here (hp ∙ sym (get_ptr_lem b l k (omega arith))))
walk (suc d) b l zero k q r ptr hm deep hr hk hp here above = absurd (omega arith)
walk (suc d) b l (suc m) k q r ptr hm deep hr hk hp here above =
    let free : (b.block_tree (first (suc m) + q)).used ≡ 0 =
      rw hm (above (suc d) q (omega arith) (omega arith) (r, hr, hk)) in
    let down : suc m - 1 ≡ m = omega arith in
    let turn = turns b l d m k q r ptr (omega arith) deep hk hp in
    let twice : 2 ^ suc d ≡ 2 ^ d * 2 = pow-suc 2 d in
    let split : k ≡ q * (2 ^ d * 2) + r = hk ∙ ap (λ n. q * n + r) twice in
    elim (Bool-cases (ltb r (2 ^ d))) [
      | inl left ↦
          let child : get_left_child (first (suc m) + q) ≡ first m + 2 * q =
            omega (arith, halves m deep) in
          rw (search_down b (suc m) (first (suc m) + q) ptr free, down, turn, left, child)
            (walk d b l m k (2 * q) r ptr (omega arith) (omega arith) (ground arith)
              (omega (arith, split)) hp here above)
      | inr right ↦
          let child : get_right_child (first (suc m) + q) ≡ first m + (2 * q + 1) =
            omega (arith, halves m deep) in
          rw (search_down b (suc m) (first (suc m) + q) ptr free, down, turn, right, child)
            (walk d b l m k (2 * q + 1) (r - 2 ^ d) ptr (omega arith) (omega arith)
              (ground (arith, twice)) (ground (arith, split)) hp here above)
    ]

-- ===== src/Buddy/Find.antt =====
-- How mm_free of Kernel/drivers/buddyMemoryManager.c finds the node of a block by its address.
use native.Mathlib.Nat.{
  pow-suc, one-le-pow, mul-lt-mul_of_pos_right, mul-div-mul_right, mod-lt, div-add-mod',
  mul-mod_right, pow-le-pow_right,
}
use native.Mathlib.Decide.{ℕ_discrete}
use tpe_so_2023_tp.Base.{
  ℕ, zero, suc, ◌+◌, ◌-◌, ◌*◌, ◌/◌, ◌%◌, ◌^◌, ◌≤◌, ◌<◌, ◌≡◌, refl, subst, ap, sym, ◌∙◌, arith, true,
  false, ◌||◌, ◌==◌, ltb, List, length, some,
}
use tpe_so_2023_tp.Buddy.{
  Buddy, search_node, get_ptr, max_level_from, get_initial_index, mm_free, freed_node,
  get_max_level, heap_size,
}
use tpe_so_2023_tp.Buddy.Tree.{is_below-zero}
use tpe_so_2023_tp.Buddy.Live.{first_lem, IsTree, OnLevel}
use tpe_so_2023_tp.Buddy.Release.{AreApart, contains, remove, covered-remove, freed_node-IsTree}
use tpe_so_2023_tp.Buddy.Walk.{first, get_ptr_lem, pow_add, walk}
use tpe_so_2023_tp.Buddy.Ancestors.{is_below-more, unused_above}

level_found :
    (level l offset : ℕ) → l ≤ level → offset % 2 ^ l ≡ 0 → l ≤ max_level_from level offset
unfolding max_level_from
level_found zero l offset h e = ground arith
level_found (suc level) l offset h e = elim (ℕ_discrete l (suc level)) [
  | yes same ↦
      let whole : offset % 2 ^ suc level ≡ 0 = subst (λ n. offset % 2 ^ n ≡ 0) same e in
      ground (arith, whole)
  | no other ↦ ground (arith, level_found level l offset (omega arith) e)
]

level_small : (level offset : ℕ) → max_level_from level offset ≤ level
unfolding max_level_from
level_small zero offset = ground arith
level_small (suc level) offset = ground (arith, level_small level offset)

used_self :
    (b : Buddy) (live : List ℕ) (i : ℕ)
    → IsTree b live
    → contains i live ≡ true
    → i < 65535
    → (b.block_tree i).used ≡ 1
used_self b live i t h lt =
    ground
      (arith, t.used i lt, covered-remove i i live h, is_below-more 15 0 i i, is_below-zero i i)

-- The search starts at the node that holds the block at the level that its address is aligned to.
start_at :
    (l d k : ℕ)
    → l + d ≤ 15
    → get_initial_index (k * 2 ^ l * 256) (l + d) ≡ first (l + d) + k / 2 ^ d
unfolding get_initial_index
start_at l d k h =
    let some_l : 1 ≤ 2 ^ l = one-le-pow l 2 (omega arith) in
    let positive : 0 < 2 ^ l * 256 = omega (arith, some_l) in
    let above : k * 2 ^ l * 256 ≡ k * (2 ^ l * 256) = omega arith in
    let below : 2 ^ (l + d) * 256 ≡ 2 ^ d * (2 ^ l * 256) = rw (pow_add l d) (omega arith) in
    rw (first_lem (l + d) h, above, below, mul-div-mul_right {m = 2 ^ l * 256} k (2 ^ d) positive)
      refl

-- The walk of mm_free from there.
finds :
    (b : Buddy) (live : List ℕ) (l d k : ℕ)
    → IsTree b live
    → AreApart live
    → contains (first l + k) live ≡ true
    → first l + k < 65535
    → l + d ≤ 15
    → search_node (suc (l + d)) b (first (l + d) + k / 2 ^ d) (get_ptr b (first l + k) l)
      ≡ some (first l + k, l)
finds b live l d k t a h lt deep =
    let some_d : 1 ≤ 2 ^ d = one-le-pow d 2 (omega arith) in
    walk d b l (l + d) k (k / 2 ^ d) (k % 2 ^ d) _ refl deep (mod-lt k some_d)
      (sym (div-add-mod' k (2 ^ d))) (get_ptr_lem b l k (omega arith))
      (used_self b live (first l + k) t h lt)
      (λ e p some_levels high holds. unused_above b live l k e p t a h lt some_levels high holds)

in_heap :
    (l k : ℕ) → l ≤ 15 → k < 2 ^ (15 - l) → (k * 2 ^ l * 256 < 8388608) × (first l + k < 65535)
in_heap l k deep h =
    let whole : 15 - l + l ≡ 15 = omega arith in
    let size : 2 ^ (15 - l) * 2 ^ l ≡ 2 ^ 15 = sym (pow_add (15 - l) l) ∙ ap (λ n. 2 ^ n) whole in
    let some_l : 1 ≤ 2 ^ l = one-le-pow l 2 (omega arith) in
    let fits : k * 2 ^ l < 2 ^ (15 - l) * 2 ^ l = mul-lt-mul_of_pos_right h some_l in
    let most : 2 ^ (15 - l) ≤ 2 ^ 15 =
      pow-le-pow_right {n = 2} (omega arith) {i = 15 - l} {j = 15} (omega arith) in
    (omega (arith, size, fits), omega arith)

mm_free_found :
    (b : Buddy) (ptr offset level index l : ℕ)
    → (ptr == 0 || ltb ptr b.heap_start || ltb (b.heap_start + heap_size) ptr) ≡ false
    → ptr - b.heap_start ≡ offset
    → get_max_level offset ≡ level
    → search_node (suc level) b (get_initial_index offset level) ptr ≡ some (index, l)
    → mm_free b ptr ≡ freed_node b index l
unfolding mm_free
mm_free_found b ptr offset level index l inside off lev e =
    let one : level + 1 ≡ suc level = omega arith in rw (mm_free, inside, off, lev, one, e) refl

-- mm_free of the address of a block that is handed out finds the block's node, whatever else is handed
-- out, if no block is another or lies above or below it.
pub mm_free_lem :
    (b : Buddy) (live : List ℕ) (l k : ℕ)
    → IsTree b live
    → AreApart live
    → contains (first l + k) live ≡ true
    → l ≤ 15
    → k < 2 ^ (15 - l)
    → 0 < b.heap_start
    → mm_free b (get_ptr b (first l + k) l) ≡ freed_node b (first l + k) l
unfolding get_max_level
mm_free_lem b live l k t a h deep hk there =
    let offset = k * 2 ^ l * 256 in
    let at = get_ptr_lem b l k deep in
    let past : get_ptr b (first l + k) l - b.heap_start ≡ offset = omega (arith, at) in
    let (fits, lt) = in_heap l k deep hk in
    let inside : (get_ptr b (first l + k) l == 0
          || ltb (get_ptr b (first l + k) l) b.heap_start
          || ltb (b.heap_start + heap_size) (get_ptr b (first l + k) l))
        ≡ false =
      ground (arith, at, fits) in
    let aligned : offset % 2 ^ l ≡ 0 =
      let factor : offset ≡ 2 ^ l * (k * 256) = omega arith in
      rw factor (mul-mod_right (2 ^ l) (k * 256)) in
    let lo : l ≤ get_max_level offset = level_found 15 l offset deep aligned in
    let hi : get_max_level offset ≤ 15 = level_small 15 offset in
    let level : get_max_level offset ≡ l + (get_max_level offset - l) = omega (arith, lo) in
    let d = get_max_level offset - l in
    mm_free_found b (get_ptr b (first l + k) l) offset (l + d) (first l + k) l inside past level (
      rw (start_at l d k (omega (arith, level, hi)))
        (finds b live l d k t a h lt (omega (arith, level, hi))))

-- mm_free of the address of any block that is handed out takes exactly that block back: where the tree
-- says what a list of nodes handed out says, none of which is another or lies above or below it, it
-- afterwards says the same of the list without that node.
pub mm_free-IsTree :
    (b : Buddy) (live : List ℕ) (l i : ℕ)
    → IsTree b live
    → AreApart live
    → contains i live ≡ true
    → l ≤ 15
    → OnLevel l i
    → 0 < b.heap_start
    → length live < 2 ^ 32
    → IsTree (mm_free b (get_ptr b i l)) (remove i live)
mm_free-IsTree b live l i t a h deep (lo, hi) there few =
    let at : i ≡ first l + (i - first l) = omega (arith, lo) in
    let up : 16 - l ≡ suc (15 - l) = omega arith in
    let width : 2 ^ (16 - l) ≡ 2 ^ (15 - l) * 2 = rw up (pow-suc 2 (15 - l)) in
    let least : 1 ≤ 2 ^ (15 - l) = one-le-pow (15 - l) 2 (omega arith) in
    let handed_out : contains (first l + (i - first l)) live ≡ true =
      subst (λ n. contains n live ≡ true) at h in
    let freed =
      mm_free_lem b live l (i - first l) t a handed_out deep (omega (arith, lo, hi, width, least))
        there in
    subst (λ n. IsTree (mm_free b (get_ptr b n l)) (remove n live)) (sym at)
      (subst (λ c. IsTree c (remove (first l + (i - first l)) live)) (sym freed)
        (freed_node-IsTree b live (first l + (i - first l)) l t a handed_out few))

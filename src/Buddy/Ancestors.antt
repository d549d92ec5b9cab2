-- ===== src/Buddy/Ancestors.antt =====
-- The nodes of the tree of Kernel/drivers/buddyMemoryManager.c that lie above a block.
use native.Mathlib.Nat.{pow-suc}
use native.Mathlib.Decide.{ℕ_discrete}
use tpe_so_2023_tp.Base.{
  ℕ, zero, suc, ◌+◌, ◌-◌, ◌*◌, ◌/◌, ◌^◌, ◌≤◌, ◌<◌, ◌≡◌, ◌≢◌, inl, inr, refl, subst, ap, sym, ◌∙◌,
  arith, true, false, ◌==◌, Bool-cases, List, [], ◌∷◌,
}
use tpe_so_2023_tp.Buddy.{Buddy, get_parent}
use tpe_so_2023_tp.Buddy.Tree.{is_below, is_below-zero, is_below-suc, is_below-le, is_below-deeper}
use tpe_so_2023_tp.Buddy.Live.{IsTree, AllApart, covered}
use tpe_so_2023_tp.Buddy.Release.{AreApart, contains, remove, covered-remove, AreApart-remove}
use tpe_so_2023_tp.Buddy.Walk.{first, halves, Holds}

parent_at :
    (level k : ℕ) → suc level ≤ 15 → get_parent (first level + k) ≡ first (suc level) + k / 2
parent_at level k h = omega (arith, halves level h)

-- A block lies below those that hold it.
below_holder :
    (e level k p : ℕ)
    → level + e ≤ 15
    → Holds k e p
    → is_below e (first level + k) (first (level + e) + p) ≡ true
below_holder zero level k p deep (s, hs, hk) =
    let e0 : level + zero ≡ level = omega arith in rw (e0, is_below-zero) (ground arith)
below_holder (suc e) level k p deep (s, hs, hk) =
    let up : level + suc e ≡ suc level + e = omega arith in
    let split : k ≡ p * (2 ^ e * 2) + s = hk ∙ ap (λ n. p * n + s) (pow-suc 2 e) in
    let twice : 2 ^ suc e ≡ 2 ^ e * 2 = pow-suc 2 e in
    let inner =
      below_holder e (suc level) (k / 2) p (omega arith)
        (s / 2, omega (arith, twice), omega (arith, split)) in
    let parent = parent_at level k (omega arith) in
    let positive : first level ≢ 0 = omega (arith, halves level (omega arith)) in
    rw (is_below-suc, up, parent) (ground (arith, inner, positive))

pub is_below-more :
    (more depth j i : ℕ) → is_below depth j i ≡ true → is_below (more + depth) j i ≡ true
is_below-more zero depth j i h = let none : zero + depth ≡ depth = omega arith in rw none h
is_below-more (suc more) depth j i h =
    let one : suc more + depth ≡ suc (more + depth) = omega arith in
    rw one (is_below-deeper (more + depth) j i (is_below-more more depth j i h))

is_below_trans :
    (d e j m i : ℕ) → is_below d j m ≡ true → is_below e m i ≡ true → is_below (d + e) j i ≡ true
is_below_trans zero e j m i hm hi =
    let none : zero + e ≡ e = omega arith in
    let same : m ≡ j = ground (arith, is_below-zero j m) in
    rw none (subst (λ n. is_below e n i ≡ true) same hi)
is_below_trans (suc d) e j m i hm hi = elim (ℕ_discrete j m) [
  | yes same ↦ is_below-more (suc d) e j i (subst (λ n. is_below e n i ≡ true) (sym same) hi)
  | no other ↦
      let one : suc d + e ≡ suc (d + e) = omega arith in
      let further : is_below d (get_parent j) m ≡ true = ground (arith, is_below-suc d j m) in
      let rest = is_below_trans d e (get_parent j) m i further hi in
      rw (one, is_below-suc) (ground (arith, rest, is_below-suc d j m))
]

is_below-root : (more i : ℕ) → is_below more 0 i ≡ (0 == i)
is_below-root zero i = is_below-zero 0 i
is_below-root (suc more) i = rw is_below-suc (ground arith)

is_below-enough :
    (depth more j i : ℕ) → j + 1 < 2 ^ suc depth → is_below (depth + more) j i ≡ is_below depth j i
is_below-enough zero more j i h =
    let none : zero + more ≡ more = omega arith in
    let root : j ≡ 0 = omega arith in
    rw (none, root) (is_below-root more i ∙ sym (is_below-zero 0 i))
is_below-enough (suc depth) more j i h =
    let one : suc depth + more ≡ suc (depth + more) = omega arith in
    rw
      (
        one,
        is_below-suc (depth + more) j i,
        is_below-suc depth j i,
        is_below-enough depth more (get_parent j) i (omega arith),
      )
      refl

-- A node above one that is handed out is neither handed out nor below another that is.
covered-above :
    (i idx : ℕ) (live : List ℕ)
    → i < 65535
    → AllApart i live
    → is_below 15 i idx ≡ true
    → covered idx live ≡ false
covered-above i idx [] lt a up = refl
covered-above i idx (l ∷ live) lt (il, li, a) up = elim (Bool-cases (is_below 15 idx l)) [
  | inl over ↦ absurd (
      ground (is_below-enough 15 15 i l (omega arith), is_below_trans 15 15 i idx l up over, arith))
  | inr apart ↦ ground (arith, covered-above i idx live lt a up)
]

-- No node that holds the block of one that is handed out, but the node itself, is marked as used.
pub unused_above :
    (b : Buddy) (live : List ℕ) (l k e p : ℕ)
    → IsTree b live
    → AreApart live
    → contains (first l + k) live ≡ true
    → first l + k < 65535
    → 0 < e
    → l + e ≤ 15
    → Holds k e p
    → (b.block_tree (first (l + e) + p)).used ≡ 0
unused_above b live l k zero p t a h lt some_levels deep holds = absurd (omega arith)
unused_above b live l k (suc e) p t a h lt some_levels deep (s, hs, hk) =
    let i = first l + k in
    let idx = first (l + suc e) + p in
    let near : is_below (suc e) i idx ≡ true = below_holder (suc e) l k p deep (s, hs, hk) in
    let depth : 15 - suc e + suc e ≡ 15 = omega arith in
    let above : is_below 15 i idx ≡ true =
      subst (λ n. is_below n i idx ≡ true) depth (is_below-more (15 - suc e) (suc e) i idx near) in
    let twice : 2 ^ suc e ≡ 2 ^ e * 2 = pow-suc 2 e in
    let split : k ≡ p * (2 ^ e * 2) + s = hk ∙ ap (λ n. p * n + s) twice in
    let up : l + suc e ≡ suc l + e = omega arith in
    let parent : is_below e (first (suc l) + k / 2) idx ≡ true = rw up (
      below_holder e (suc l) (k / 2) p (omega arith)
        (s / 2, omega (arith, twice), omega (arith, split))) in
    let smaller : idx < i =
      omega (arith, halves l (omega arith), is_below-le e (first (suc l) + k / 2) idx parent) in
    let not_below : is_below 15 idx i ≡ false = ground (arith, is_below-le 15 idx i, smaller) in
    ground (
      arith,
      t.used idx (omega arith),
      covered-remove i idx live h,
      not_below,
      covered-above i idx (remove i live) lt (AreApart-remove i live a h) above,
    )

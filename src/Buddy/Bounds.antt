-- ===== src/Buddy/Bounds.antt =====
-- The bounds on the walks of the tree of Kernel/drivers/buddyMemoryManager.c.
use native.Mathlib.Nat.{pow-suc}
use tpe_so_2023_tp.Base.{
  ℕ, zero, suc, ◌+◌, ◌*◌, ◌^◌, ◌≤◌, ◌<◌, ◌≡◌, refl, sym, ◌∙◌, arith, Bool, true, leb,
}
use tpe_so_2023_tp.Buddy.{
  Buddy, mark, climb, count_node, get_parent, get_left_child, get_right_child, max_nodes,
}
use tpe_so_2023_tp.Buddy.Tree.{mark-suc, mark-zero, climb-suc, climb-zero, set_one}

stays_at_root : (more : ℕ) (b : Buddy) (up : Bool) → climb more b 0 up ≡ b
stays_at_root zero b up = climb-zero b 0 up
stays_at_root (suc more) b up = climb-suc more b 0 up

climb_more :
    (fuel more : ℕ) (b : Buddy) (i : ℕ) (up : Bool)
    → i + 1 < 2 ^ suc fuel
    → climb (fuel + more) b i up ≡ climb fuel b i up
climb_more zero more b zero up h =
    let shorter : zero + more ≡ more = omega arith in
    rw shorter (stays_at_root more b up ∙ sym (climb-zero b 0 up))
climb_more zero more b (suc i) up h = absurd (omega arith)
climb_more (suc fuel) more b i up h =
    let p = get_parent i in
    let longer : suc fuel + more ≡ suc (fuel + more) = omega arith in
    rw
      (
        longer,
        climb-suc (fuel + more) b i up,
        climb-suc fuel b i up,
        climb_more fuel more (count_node b p up) p up (omega arith),
      )
      refl

mark_outside : (depth : ℕ) (b : Buddy) (i state : ℕ) → 65535 ≤ i → mark depth b i state ≡ b
mark_outside zero b i state h = mark-zero b i state
mark_outside (suc depth) b i state h =
    let outside : leb max_nodes i ≡ true = ground arith in
    rw (mark-suc depth b i state, outside) refl

half_of : (i p : ℕ) → (2 * i + 1 + 1) * p ≡ (i + 1) * (p * 2)
half_of i p = omega arith

mark_more :
    (depth more : ℕ) (b : Buddy) (i state : ℕ)
    → 65536 ≤ (i + 1) * 2 ^ depth
    → mark (depth + more) b i state ≡ mark depth b i state
mark_more zero more b i state h =
    let shorter : zero + more ≡ more = omega arith in
    rw shorter (mark_outside more b i state (omega arith) ∙ sym (mark-zero b i state))
mark_more (suc depth) more b i state h =
    let longer : suc depth + more ≡ suc (depth + more) = omega arith in
    let b1 = set_one b i state in
    let right : 65536 ≤ (get_right_child i + 1) * 2 ^ depth = grind arith in
    let left : 65536 ≤ (get_left_child i + 1) * 2 ^ depth =
      rw (half_of i (2 ^ depth)) (rw pow-suc at h) in
    rw
      (
        longer,
        mark-suc (depth + more) b i state,
        mark-suc depth b i state,
        mark_more depth more b1 (get_right_child i) state right,
        mark_more depth more (mark depth b1 (get_right_child i) state) (get_left_child i) state
            left,
      )
      refl

-- The bounds on the loop of update_parents and on the recursion of set_used never show: at a node of the tree
-- larger ones, by any number, give the same.
pub walks_enough :
    (more : ℕ) (b : Buddy) (i state : ℕ) (up : Bool)
    → i < 65535
    → (climb (15 + more) b i up ≡ climb 15 b i up)
      × (mark (16 + more) b i state ≡ mark 16 b i state)
walks_enough more b i state up h =
    (climb_more 15 more b i up (omega arith), mark_more 16 more b i state (omega arith))

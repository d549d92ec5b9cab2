-- ===== src/Buddy/Tree.antt =====
-- The tree of Kernel/drivers/buddyMemoryManager.c: which nodes update_parents and set_used change.
use tpe_so_2023_tp.Base.{
  ℕ, zero, suc, ◌≤◌, ◌<◌, ◌≡◌, ◌⊎◌, inl, inr, refl, arith, Bool, true, false, ◌&&◌, ◌||◌, not, leb,
  ◌==◌, if◌then◌else◌, Bool-cases,
}
use tpe_so_2023_tp.Buddy.{
  Buddy, mark, climb, set_used, update_parents, counted, count_node, put_node, get_parent,
  get_left_child, get_right_child, max_nodes,
}

-- Whether node `j` is node `i` or lies below it, at most `depth` levels.
pub is_below : ℕ → ℕ → ℕ → Bool
is_below zero j i = j == i
is_below (suc depth) j i =
    let above = is_below depth (get_parent j) i in
    if j == i then true else if j == 0 then false else above

pub is_below-le : (depth j i : ℕ) → is_below depth j i ≡ true → i ≤ j
unfolding is_below
is_below-le zero j i h = ground arith
is_below-le (suc depth) j i h = ground (arith, is_below-le depth (get_parent j) i)

pub is_below-zero : (j i : ℕ) → is_below zero j i ≡ (j == i)
unfolding is_below
is_below-zero j i = refl

-- The descendants of a node are those of its children and itself.
is_below-children :
    (depth j i : ℕ)
    → is_below (suc depth) j i
      ≡ ((j == i) || is_below depth j (get_right_child i) || is_below depth j (get_left_child i))
unfolding is_below
is_below-children zero j i = ground arith
is_below-children (suc depth) j i = ground (arith, is_below-children depth (get_parent j) i)

pub is_below-deeper : (depth j i : ℕ) → is_below depth j i ≡ true → is_below (suc depth) j i ≡ true
unfolding is_below
is_below-deeper zero j i h = ground arith
is_below-deeper (suc depth) j i h = ground (arith, is_below-deeper depth (get_parent j) i)

-- Of two nodes above a third one lies above the other.
pub above_comparable :
    (depth j i l : ℕ)
    → is_below depth j i ≡ true
    → is_below depth j l ≡ true
    → (is_below depth i l ≡ true) ⊎ (is_below depth l i ≡ true)
unfolding is_below
above_comparable zero j i l hi hl = inl (ground arith)
above_comparable (suc depth) j i l hi hl = ground (
  arith,
  above_comparable depth (get_parent j) i l,
  is_below-deeper depth i l,
  is_below-deeper depth l i,
)

abbrev pub set_one : Buddy → ℕ → ℕ → Buddy
set_one b i state = put_node b i (record (b.block_tree i) { used = state })

pub mark-suc :
    (depth : ℕ) (b : Buddy) (i state : ℕ)
    → mark (suc depth) b i state ≡ (
        if leb max_nodes i
        then b
        else mark depth
            (mark depth (set_one b i state) (get_right_child i) state)
            (get_left_child i)
            state)
unfolding mark
mark-suc depth b i state = refl

pub mark-zero : (b : Buddy) (i state : ℕ) → mark zero b i state ≡ b
unfolding mark
mark-zero b i state = refl

-- `mark` sets `used` of a node and its descendants in the tree, and nothing else of any node.
mark_lem :
    (depth : ℕ) (b : Buddy) (i state j : ℕ)
    → j < 65535
    → (((mark (suc depth) b i state).block_tree j).used
        ≡ (if is_below depth j i then state else (b.block_tree j).used))
      × (((mark (suc depth) b i state).block_tree j).used_subnodes ≡ (b.block_tree j).used_subnodes)
mark_lem zero b i state j h =
    rw (mark-suc zero b i state, mark-zero, mark-zero)
      (ground (arith, is_below-zero j i), ground arith)
mark_lem (suc depth) b i state j h =
    let b1 = set_one b i state in
    let b2 = mark (suc depth) b1 (get_right_child i) state in
    let (used2, same2) = mark_lem depth b1 (get_right_child i) state j h in
    let (used3, same3) = mark_lem depth b2 (get_left_child i) state j h in
    elim (Bool-cases (leb max_nodes i)) [
      | inl outside ↦
          rw (mark-suc (suc depth) b i state, outside)
            (ground (arith, is_below-le (suc depth) j i), refl)
      | inr inside ↦
          rw (mark-suc (suc depth) b i state, inside)
            (
              ground (arith, used2, used3, is_below-children depth j i),
              ground (arith, same2, same3),
            )
    ]

pub climb-suc :
    (fuel : ℕ) (b : Buddy) (i : ℕ) (up : Bool)
    → climb (suc fuel) b i up
      ≡ (if i == 0 then b else climb fuel (count_node b (get_parent i) up) (get_parent i) up)
unfolding climb
climb-suc fuel b i up = refl

pub climb-zero : (b : Buddy) (i : ℕ) (up : Bool) → climb zero b i up ≡ b
unfolding climb
climb-zero b i up = refl

pub is_below-suc :
    (depth j i : ℕ)
    → is_below (suc depth) j i
      ≡ (if j == i then true else if j == 0 then false else is_below depth (get_parent j) i)
unfolding is_below
is_below-suc depth j i = refl

-- The climb from a node counts its proper ancestors.
climb_lem :
    (fuel : ℕ) (b : Buddy) (i : ℕ) (up : Bool) (j : ℕ)
    → let node = b.block_tree j in
      let counts = not (i == 0) && is_below fuel (get_parent i) j in
      (((climb (suc fuel) b i up).block_tree j).used ≡ node.used)
      × (((climb (suc fuel) b i up).block_tree j).used_subnodes
          ≡ (if counts then counted up node.used_subnodes else node.used_subnodes))
climb_lem zero b i up j =
    rw (climb-suc zero b i up, climb-zero)
      (ground arith, ground (arith, is_below-zero (get_parent i) j))
climb_lem (suc fuel) b i up j =
    let p = get_parent i in
    let (used, subnodes) = climb_lem fuel (count_node b p up) p up j in
    elim (Bool-cases (i == 0)) [
      | inl root ↦ rw (climb-suc (suc fuel) b i up, root) (refl, refl)
      | inr below ↦
          rw (climb-suc (suc fuel) b i up, below)
            (
              ground (arith, used),
              ground (arith, subnodes, is_below-suc fuel p j, is_below-le fuel (get_parent p) j),
            )
    ]

-- set_used sets `used` of a node and of those below it, and leaves the counts.
pub set_used_lem :
    (b : Buddy) (i state j : ℕ)
    → j < 65535
    → (((set_used b i state).block_tree j).used
        ≡ (if is_below 15 j i then state else (b.block_tree j).used))
      × (((set_used b i state).block_tree j).used_subnodes ≡ (b.block_tree j).used_subnodes)
unfolding set_used
set_used_lem b i state j h = mark_lem 15 b i state j h

counted_up :
    (fuel : ℕ) (b : Buddy) (i : ℕ) (up : Bool) (j : ℕ)
    → (((climb (suc fuel) (count_node b i up) i up).block_tree j).used ≡ (b.block_tree j).used)
      × (((climb (suc fuel) (count_node b i up) i up).block_tree j).used_subnodes ≡ (
          if is_below (suc fuel) i j
          then counted up (b.block_tree j).used_subnodes
          else (b.block_tree j).used_subnodes))
counted_up fuel b i up j =
    let (used, subnodes) = climb_lem fuel (count_node b i up) i up j in
    (
      ground (arith, used),
      ground (arith, subnodes, is_below-suc fuel i j, is_below-le fuel (get_parent i) j),
    )

-- update_parents counts a node and those above it up or down, and leaves `used`.
pub update_parents_lem :
    (b : Buddy) (i : ℕ) (up : Bool) (j : ℕ)
    → (((update_parents b i up).block_tree j).used ≡ (b.block_tree j).used)
      × (((update_parents b i up).block_tree j).used_subnodes ≡ (
          if is_below 15 i j
          then counted up (b.block_tree j).used_subnodes
          else (b.block_tree j).used_subnodes))
unfolding update_parents
update_parents_lem b i up j = counted_up 14 b i up j

-- ===== src/Buddy/Live.antt =====
-- The blocks that Kernel/drivers/buddyMemoryManager.c has handed out, as nodes of its tree.
use native.Mathlib.Nat.{pow-le-pow_right}
use native.Mathlib.Decide.{dec_lt}
use tpe_so_2023_tp.Base.{
  ℕ, ◌+◌, ◌-◌, ◌%◌, ◌^◌, ◌≤◌, ◌<◌, ◌≡◌, ◌⊎◌, inl, inr, refl, ap, arith, Bool, true, false, ◌||◌,
  not, ◌==◌, ltb, if◌then◌else◌, Bool-cases, List, [], ◌∷◌, length, FirstIndex, found, missing,
  first_index-FirstIndex,
}
use tpe_so_2023_tp.Buddy.{
  Buddy, update_parents, taken_node, is_taken, get_first_index, get_first_free_index, get_level,
  get_ptr, mm_alloc, heap_size, max_level,
}
use tpe_so_2023_tp.Buddy.Tree.{is_below, set_used_lem, update_parents_lem}

-- Whether a node is one of those handed out or lies below one.
abbrev pub covered : ℕ → List ℕ → Bool
covered j [] = false
covered j (i ∷ is) = is_below 15 j i || covered j is

-- How many of those handed out are a node or lie below it.
abbrev pub count_below : ℕ → List ℕ → ℕ
count_below j [] = 0
count_below j (i ∷ is) = (if is_below 15 i j then 1 else 0) + count_below j is

-- The tree says of each node what the list of the nodes handed out says.
pub record IsTree (b : Buddy) (live : List ℕ) : Type 0 where
  pub used : (j : ℕ) → j < 65535 → (b.block_tree j).used ≡ (if covered j live then 1 else 0)
  pub subnodes : (j : ℕ) → j < 65535 → (b.block_tree j).used_subnodes ≡ count_below j live

-- The node `i` is neither one of the others nor above or below one in the tree.
abbrev pub AllApart : ℕ → List ℕ → Type 0
AllApart i [] = Unit {0}
AllApart i (l ∷ live) = (is_below 15 i l ≡ false) × (is_below 15 l i ≡ false) × AllApart i live

pub count_below-le : (j : ℕ) (live : List ℕ) → count_below j live ≤ length live
count_below-le j [] = omega arith
count_below-le j (i ∷ live) = ground (arith, count_below-le j live)

apart : (i : ℕ) (live : List ℕ) → covered i live ≡ false → count_below i live ≡ 0 → AllApart i live
apart i [] c n = record {}
apart i (l ∷ live) c n = (ground arith, ground arith, apart i live (ground arith) (ground arith))

free-AllApart :
    (b : Buddy) (live : List ℕ) (i : ℕ)
    → IsTree b live
    → i < 65535
    → is_taken b i ≡ false
    → AllApart i live
free-AllApart b live i t lt free =
    apart i live (ground (arith, t.used i lt)) (ground (arith, t.subnodes i lt))

pub taken_node-IsTree :
    (b : Buddy) (live : List ℕ) (i level : ℕ)
    → IsTree b live
    → length live + 1 < 2 ^ 32
    → IsTree (taken_node b i level) (i ∷ live)
taken_node-IsTree b live i level t few = record {
  used = λ j lt.
      let b1 = update_parents b i true in
      ground (arith, (set_used_lem b1 i 1 j lt).0, (update_parents_lem b i true j).0, t.used j lt);
  subnodes = λ j lt.
      let b1 = update_parents b i true in
      ground (
        arith,
        (set_used_lem b1 i 1 j lt).1,
        (update_parents_lem b i true j).1,
        t.subnodes j lt,
        count_below-le j live,
      );
}

-- The nodes of a level, of which there are 2^(15 - level).
abbrev pub OnLevel : ℕ → ℕ → Type 0
OnLevel level i = (2 ^ (15 - level) - 1 ≤ i) × (i < 2 ^ (16 - level) - 1)

pub first_lem : (level : ℕ) → level ≤ 15 → get_first_index level ≡ 2 ^ (15 - level) - 1
unfolding get_first_index
first_lem level h = ap (λ n. 2 ^ n - 1) (omega arith)

below_lem :
    (level : ℕ)
    → level ≤ 15
    → get_first_index ((level + 2 ^ 32 - 1) % 2 ^ 32) ≡ 2 ^ (16 - level) - 1
unfolding get_first_index
below_lem level h = ap (λ n. 2 ^ n - 1) (omega arith)

OnLevel-in_tree : (level i : ℕ) → OnLevel level i → i < 65535
OnLevel-in_tree level i (lo, hi) =
    let most : 2 ^ (16 - level) ≤ 2 ^ 16 =
      pow-le-pow_right {n = 2} (omega arith) {i = 16 - level} {j = 16} (omega arith) in
    omega arith

get_first_free_index-FirstIndex :
    (b : Buddy) (level : ℕ)
    → level ≤ 15
    → FirstIndex
        (2 ^ (15 - level) - 1)
        (2 ^ (16 - level) - 1)
        (λ i. not (is_taken b i))
        (get_first_free_index b level)
unfolding get_first_free_index
get_first_free_index-FirstIndex b level h =
    let grows : 2 ^ (15 - level) ≤ 2 ^ (16 - level) =
      pow-le-pow_right (omega arith) (omega arith) in
    rw (first_lem level h, below_lem level h) (first_index-FirstIndex _ _ _ _ (omega arith))

-- What mm_alloc comes to, when the nodes in `live` are handed out.
abbrev pub Allocates : Buddy → List ℕ → ℕ → ℕ × Buddy → Type 0
Allocates b live size (ptr, b') =
    ((ptr ≡ 0)
      × (b' ≡ b)
      × ((size ≡ 0)
          ⊎ (8388608 < size)
          ⊎ (15 < get_level size)
          ⊎ ((i : ℕ) → OnLevel (get_level size) i → is_taken b i ≡ true)))
    ⊎ ((i : ℕ) × (ptr ≡ get_ptr b i (get_level size))
        × OnLevel (get_level size) i
        × AllApart i live
        × IsTree b' (i ∷ live))

refused_size :
    (size : ℕ)
    → (ltb heap_size size || size == 0 || ltb max_level (get_level size)) ≡ true
    → {A : Type 0} → (size ≡ 0) ⊎ (8388608 < size) ⊎ (15 < get_level size) ⊎ A
refused_size size h = elim (dec_lt 0 size) [
  | no none ↦ inl (omega arith)
  | yes some_bytes ↦ elim (dec_lt 8388608 size) [
    | yes large ↦ inr (inl large)
    | no fits ↦ inr (inr (inl (ground arith)))
  ]
]

-- mm_alloc hands out a node of the level of the size that neither is nor lies above or below one that is
-- handed out, and the tree then says so; or it returns NULL and changes nothing, when the size is 0 or too
-- large, or each node of that level is taken or lies above or below one that is.
pub mm_alloc_lem :
    (b : Buddy) (live : List ℕ) (size : ℕ)
    → IsTree b live
    → length live + 1 < 2 ^ 32
    → Allocates b live size (mm_alloc b size)
unfolding mm_alloc
mm_alloc_lem b live size t few =
    elim (Bool-cases (ltb heap_size size || size == 0 || ltb max_level (get_level size))) [
      | inl refused ↦ rw (mm_alloc, refused) (inl (refl, refl, refused_size size refused))
      | inr served ↦ elim (get_first_free_index-FirstIndex b (get_level size) (ground arith)) [
        | found i lo hi e free before ↦
            let at = OnLevel-in_tree (get_level size) i (lo, hi) in
            rw (mm_alloc, served, e)
              (inr (
                i,
                refl,
                (lo, hi),
                free-AllApart b live i t at (ground arith),
                taken_node-IsTree b live i (get_level size) t few,
              ))
        | missing e full ↦
            rw (mm_alloc, served, e)
              (inl (refl, refl, inr (inr (inr (λ i (lo, hi). ground (arith, full i lo hi))))))
      ]
    ]

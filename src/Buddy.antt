-- ===== src/Buddy.antt =====
-- Kernel/drivers/buddyMemoryManager.c: a heap of 8 MB that is split into blocks of 256 bytes times a power
-- of two. The blocks are the nodes of a complete binary tree, which is an array: node 0 is the heap, and
-- the halves of node `i` are nodes `2 * i + 1` and `2 * i + 2`.
pub mod Level
pub mod Tree
pub mod Live
pub mod Overlap
pub mod Release
pub mod Bounds
pub mod Walk
pub mod Ancestors
pub mod Find
mod Tests
use tpe_so_2023_tp.Base.{
  ℕ, zero, suc, ◌+◌, ◌-◌, ◌*◌, ◌/◌, ◌%◌, ◌^◌, Bool, true, false, ◌&&◌, ◌||◌, not, Option, none,
  some, ltb, leb, ◌==◌, if◌then◌else◌, ℤ, pos, ◌==ℤ◌, minus_one, pos_part, update, first_index,
}

abbrev pub max_level : ℕ
max_level = 15

abbrev pub min_block : ℕ
min_block = 256

-- MEMORY_SIZE and HEAP_SIZE
abbrev pub memory_size : ℕ
memory_size = 9437184

abbrev pub heap_size : ℕ
heap_size = 8388608

abbrev pub max_nodes : ℕ
max_nodes = 65535

-- sizeof(Node)
abbrev node_size : ℕ
node_size = 8

pub record Node : Type 0 where
  pub used : ℕ
  pub used_subnodes : ℕ

-- The static variables.
pub record Buddy : Type 0 where
  pub heap_start : ℕ
  pub block_tree : ℕ → Node
  pub total_mem : ℕ
  pub used_mem : ℕ
  pub mem_chuncks : ℕ

abbrev pub get_parent : ℕ → ℕ
get_parent index = (index + 1) / 2 - 1

abbrev pub get_left_child : ℕ → ℕ
get_left_child index = 2 * index + 1

abbrev pub get_right_child : ℕ → ℕ
get_right_child index = 2 * index + 2

-- The level is an unsigned int: for the one below 0 the shift is by 16.
pub get_first_index : ℕ → ℕ
get_first_index level = 2 ^ ((max_level + 2 ^ 32 - level) % 2 ^ 32) - 1

abbrev pub is_taken : Buddy → ℕ → Bool
is_taken b index =
    not ((b.block_tree index).used == 0) || not ((b.block_tree index).used_subnodes == 0)

-- The nodes of a level are those from its first index up to that of the level below.
pub get_first_free_index : Buddy → ℕ → ℤ
get_first_free_index b level =
    let first = get_first_index level in
    let last = get_first_index ((level + 2 ^ 32 - 1) % 2 ^ 32) in
    first_index (last - first) first (λ i. not (is_taken b i))

pub get_ptr : Buddy → ℕ → ℕ → ℕ
get_ptr b index level = b.heap_start + (index - get_first_index level) * 2 ^ level * min_block

-- while (size > MIN_BLOCK), on the size less one; a size_t has 64 bits, so 64 rounds do.
level_of : ℕ → ℕ → ℕ → ℕ
level_of zero size level = level
level_of (suc fuel) size level =
    let rest = level_of fuel (size / 2) (level + 1) in if ltb min_block size then rest else level

pub get_level : ℕ → ℕ
unfolding level_of
get_level size = level_of 64 ((size + 2 ^ 64 - 1) % 2 ^ 64) 0

abbrev put_node : Buddy → ℕ → Node → Buddy
put_node b index node = record b { block_tree = update b.block_tree index node }

-- An unsigned int counts up for `true` and down for `false`.
abbrev counted : Bool → ℕ → ℕ
counted up n = if up then (n + 1) % 2 ^ 32 else (n + 2 ^ 32 - 1) % 2 ^ 32

abbrev count_node : Buddy → ℕ → Bool → Buddy
count_node b index up =
    let node = b.block_tree index in
    put_node b index (record node { used_subnodes = counted up node.used_subnodes })

-- The loop to the root. The tree has 16 levels, so a node has at most 15 ancestors.
pub climb : ℕ → Buddy → ℕ → Bool → Buddy
climb zero b index up = b
climb (suc fuel) b index up =
    let parent = get_parent index in
    let rest = climb fuel (count_node b parent up) parent up in if index == 0 then b else rest

pub update_parents : Buddy → ℕ → Bool → Buddy
unfolding climb
update_parents b index up = climb 15 (count_node b index up) index up

-- The descendants of a node, the right ones first. The tree has 16 levels.
pub mark : ℕ → Buddy → ℕ → ℕ → Buddy
mark zero b index state = b
mark (suc depth) b index state =
    let b1 = put_node b index (record (b.block_tree index) { used = state }) in
    let b2 = mark depth b1 (get_right_child index) state in
    let b3 = mark depth b2 (get_left_child index) state in if leb max_nodes index then b else b3

pub set_used : Buddy → ℕ → ℕ → Buddy
unfolding mark
set_used b index state = mark 16 b index state

-- The node at `ptr` and its level. The first argument is the level of `index` plus one; where it ends the
-- code's level is below 0. At level 0 the pointer that is compared does not matter: the next
-- call ends.
pub search_node : ℕ → Buddy → ℕ → ℕ → Option (ℕ × ℕ)
search_node zero b index ptr = none
search_node (suc level) b index ptr =
    let right_child = get_right_child index in
    let next =
      if ltb ptr (get_ptr b right_child (level - 1)) then get_left_child index else right_child in
    let rest = search_node level b next ptr in
    if (b.block_tree index).used == 0
    then rest
    else if ptr == get_ptr b index level
    then some (index, level)
    else none

pub get_initial_index : ℕ → ℕ → ℕ
get_initial_index offset level = get_first_index level + offset / (2 ^ level * min_block)

-- The loop of get_max_level from a level down; at level 0 the remainder is 0.
pub max_level_from : ℕ → ℕ → ℕ
max_level_from zero offset = zero
max_level_from (suc level) offset =
    let rest = max_level_from level offset in
    if offset % 2 ^ suc level == 0 then suc level else rest

pub get_max_level : ℕ → ℕ
get_max_level offset = max_level_from max_level offset

-- WORD_ALIGN_UP
abbrev word_align_up : ℕ → ℕ
word_align_up value = (value + 7) / 8 * 8

-- With too little memory nothing is initialised.
pub mm_init : Buddy → ℕ → ℕ → Buddy
mm_init b start_address size =
    let true_start = word_align_up start_address in
    if ltb ((size + 2 ^ 64 - (true_start - start_address)) % 2 ^ 64) memory_size
    then b
    else record {
      heap_start = true_start + node_size * max_nodes;
      block_tree =
          λ i. if ltb i max_nodes then record { used = 0; used_subnodes = 0 } else b.block_tree i;
      total_mem = heap_size;
      used_mem = 0;
      mem_chuncks = 0;
    }

-- What mm_alloc does at the node that it found.
abbrev taken_node : Buddy → ℕ → ℕ → Buddy
taken_node b index level =
    let b1 = set_used (update_parents b index true) index 1 in
    record b1 {
      mem_chuncks = (b1.mem_chuncks + 1) % 2 ^ 32;
      used_mem = (b1.used_mem + 2 ^ level * min_block) % 2 ^ 64;
    }

pub mm_alloc : Buddy → ℕ → ℕ × Buddy
mm_alloc b size =
    let level = get_level size in
    let index = get_first_free_index b level in
    if ltb heap_size size || size == 0 || ltb max_level level
    then (0, b)
    else if index ==ℤ minus_one
    then (0, b)
    else (get_ptr b (pos_part index) level, taken_node b (pos_part index) level)

abbrev freed_node : Buddy → ℕ → ℕ → Buddy
freed_node b index level =
    let b1 = set_used (update_parents b index false) index 0 in
    record b1 {
      mem_chuncks = (b1.mem_chuncks + 2 ^ 32 - 1) % 2 ^ 32;
      used_mem = (b1.used_mem + 2 ^ 64 - 2 ^ level * min_block) % 2 ^ 64;
    }

pub mm_free : Buddy → ℕ → Buddy
unfolding search_node
mm_free b ptr =
    if ptr == 0 || ltb ptr b.heap_start || ltb (b.heap_start + heap_size) ptr
    then b
    else (let offset = ptr - b.heap_start in
        let level = get_max_level offset in
        elim (search_node (level + 1) b (get_initial_index offset level) ptr) [
          | none ↦ b
          | some (index, l) ↦ freed_node b index l
        ])

-- The bytes themselves are not in the model: the copy of `size` bytes from the old block is left out.
pub mm_realloc : Buddy → ℕ → ℕ → ℕ × Buddy
mm_realloc b ptr size =
    let (new_ptr, b1) = mm_alloc b size in (new_ptr, if new_ptr == 0 then b1 else mm_free b1 ptr)

-- The total, the used bytes and the number of blocks.
pub mm_state : Buddy → ℕ × ℕ × ℕ
mm_state b = (b.total_mem, b.used_mem, b.mem_chuncks)

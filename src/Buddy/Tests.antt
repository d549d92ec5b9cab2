-- ===== src/Buddy/Tests.antt =====
-- Runs of the buddy allocator, and its theorems at such inputs.
use tpe_so_2023_tp.Base.{◌+◌, ◌<◌, ◌≡◌, refl, arith, [], ◌∷◌}
use tpe_so_2023_tp.Buddy.{
  Buddy, mm_alloc, mm_free, get_level, level_of, climb, mark, taken_node, set_used, update_parents,
  get_ptr, get_first_index,
}
use tpe_so_2023_tp.Buddy.Overlap.{EndsEarly, block_too_small}
use tpe_so_2023_tp.Buddy.Live.{IsTree, Allocates, mm_alloc_lem, taken_node-IsTree}
use tpe_so_2023_tp.Buddy.Find.{mm_free-IsTree}

abbrev empty : Buddy
empty = record {
  heap_start = 4096;
  block_tree = λ i. record { used = 0; used_subnodes = 0 };
  total_mem = 8388608;
  used_mem = 0;
  mem_chuncks = 0;
}

empty-IsTree : IsTree empty []
empty-IsTree = record { used = λ j h. refl; subnodes = λ j h. refl }

level_of_stack : get_level 4096 ≡ 4
unfolding get_level level_of
level_of_stack = refl

second_block : get_ptr empty 2048 4 ≡ 4096 + 4096
unfolding get_ptr get_first_index
second_block = refl

block_too_small_example : EndsEarly empty 4 4112 (mm_alloc empty 4112).0
block_too_small_example =
    block_too_small empty [] 4 4112 empty-IsTree (omega arith) (omega arith) refl

mm_alloc_lem_example : Allocates empty [] 4096 (mm_alloc empty 4096)
mm_alloc_lem_example = mm_alloc_lem empty [] 4096 empty-IsTree (omega arith)

abbrev one_block : Buddy
one_block = taken_node empty 32767 0

one_block_there : 0 < one_block.heap_start
unfolding set_used mark update_parents climb
one_block_there = omega arith

mm_free-IsTree_example : IsTree (mm_free one_block (get_ptr one_block 32767 0)) []
mm_free-IsTree_example =
    mm_free-IsTree one_block (32767 ∷ []) 0 32767
      (taken_node-IsTree empty [] 32767 0 empty-IsTree (omega arith)) (record {}, record {}) refl
      (omega arith) (omega arith, omega arith) one_block_there (omega arith)

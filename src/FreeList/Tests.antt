-- ===== src/FreeList/Tests.antt =====
-- Runs of Kernel/drivers/freeListMemoryManager.c on a heap of 4096 bytes at 1001, and the theorems on it.
use tpe_so_2023_tp.Base.{◌+◌, ◌-◌, ◌%◌, ◌^◌, ◌≡◌, refl, arith, [], ◌∷◌, inl, inr}
use tpe_so_2023_tp.FreeList.{
  FreeList, mm_init, mm_alloc, mm_free, mm_realloc, mm_state, needed_size, first_fit, take_block,
  insert_block, find_place, hang, release,
}
use tpe_so_2023_tp.FreeList.Chain.{block, IsHeap}
use tpe_so_2023_tp.FreeList.Mark.{Granted}
use tpe_so_2023_tp.FreeList.Places.{insert}
use tpe_so_2023_tp.FreeList.Heap.{mm_alloc-Granted, mm_alloc-refused}
use tpe_so_2023_tp.FreeList.Release.{mm_init-IsHeap, mm_free-IsHeap, mm_free-mm_alloc-IsHeap}

abbrev boot : FreeList
boot = record {
  blocks = λ a. block 0 0;
  start_block = 8;
  end_block = 0;
  total_mem = 0;
  used_mem = 0;
  mem_chunks = 0;
  allocated_bit = 0;
}

abbrev heap : FreeList
heap = mm_init boot 1001 4096

heap-IsHeap : IsHeap heap ((1008, 4072) ∷ [])
heap-IsHeap = mm_init-IsHeap boot 1001 4096 refl (omega arith) (omega arith) (omega arith)

-- 100 bytes and the header, up to 120.
needed_100 : needed_size 100 ≡ 120
unfolding needed_size
needed_100 = refl

end_of_heap : heap.end_block ≡ 5080
unfolding mm_init
end_of_heap = refl

mm_alloc-Granted_example :
    ((mm_alloc heap 100).0 ≡ 1024)
    × Granted heap (needed_size 100) ((1008, 4072) ∷ []) (mm_alloc heap 100).1
unfolding needed_size mm_init
mm_alloc-Granted_example =
    mm_alloc-Granted heap 100 ((1008, 4072) ∷ []) heap-IsHeap (omega arith) (omega arith)
      (omega arith)

mm_alloc-refused_example : mm_alloc heap 5000 ≡ (0, heap)
unfolding needed_size mm_init
mm_alloc-refused_example =
    mm_alloc-refused heap 5000 ((1008, 4072) ∷ []) heap-IsHeap (omega arith) (inr (inr refl))

mm_free-mm_alloc-IsHeap_example :
    (let (address, m') = mm_alloc heap 100 in
      IsHeap (mm_free m' address) ((1008, 4072) ∷ [])
      × ((mm_free m' address).used_mem ≡ heap.used_mem))
unfolding needed_size mm_init
mm_free-mm_alloc-IsHeap_example =
    mm_free-mm_alloc-IsHeap heap 100 ((1008, 4072) ∷ []) heap-IsHeap (omega arith) (omega arith)
      (omega arith)

-- Two blocks are taken and the first is freed: two free blocks.
abbrev two_taken : FreeList
two_taken = (mm_alloc (mm_alloc heap 100).1 40).1

freed_first : mm_state (mm_free two_taken 1024) ≡ (4072, 56, 1)
unfolding mm_state mm_free mm_alloc needed_size first_fit take_block insert_block find_place hang
    release mm_init
freed_first = refl

freed_header : (mm_free two_taken 1024).blocks 1008 ≡ block 1184 120
unfolding mm_state mm_free mm_alloc needed_size first_fit take_block insert_block find_place hang
    release mm_init
freed_header = refl

-- The block of 120 bytes at 1008, with the rest of the heap free.
abbrev one_taken : FreeList
one_taken = (mm_alloc heap 100).1

one_taken-Granted : Granted heap (needed_size 100) ((1008, 4072) ∷ []) one_taken
one_taken-Granted = mm_alloc-Granted_example.1

mm_free-IsHeap_example :
    (let m' = mm_free one_taken 1024 in
      IsHeap m' ((1008, 4072) ∷ [])
      × (m'.used_mem ≡ one_taken.used_mem - 120)
      × (m'.mem_chunks ≡ (one_taken.mem_chunks + 2 ^ 32 - 1) % 2 ^ 32))
unfolding needed_size mm_init mm_alloc first_fit take_block insert_block find_place hang insert
mm_free-IsHeap_example =
    mm_free-IsHeap one_taken 1008 120 ((1128, 3952) ∷ []) one_taken-Granted.heap
      one_taken-Granted.header (omega arith) (inl (omega arith, omega arith)) (omega arith)

-- A block is grown in an other place.
grown : (mm_realloc (mm_alloc heap 8).1 1024 16).0 ≡ 1048
unfolding mm_realloc mm_state mm_free mm_alloc needed_size first_fit take_block insert_block
    find_place hang release mm_init
grown = refl

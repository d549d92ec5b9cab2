-- ===== src/Memory.antt =====
-- Kernel/include/memoryManager.h as its clients see it. Two allocators implement it, chosen when the
-- kernel is built (Kernel/drivers/buddyMemoryManager.c and freeListMemoryManager.c); what either of
-- them answers is determined by the calls made so far, so the state that a client can tell apart is
-- the record of those calls, newest first, and the answers are a function of it.
use tpe_so_2023_tp.Base.{ℕ, ◌+◌, List, [], ◌∷◌, ◌==◌, if◌then◌else◌}

pub data MemCall : Type 0 where
  -- mm_alloc(size), and the address that it returned, or 0 for NULL
  allocated : ℕ → ℕ → MemCall
  -- mm_free(ptr)
  freed : ℕ → MemCall

pub record Memory : Type 0 where
  pub answer : List MemCall → ℕ → ℕ
  pub calls : List MemCall

abbrev pub mm_alloc : Memory → ℕ → ℕ × Memory
mm_alloc m size =
    let ptr = m.answer m.calls size in (ptr, record m { calls = allocated size ptr ∷ m.calls })

abbrev pub mm_free : Memory → ℕ → Memory
mm_free m ptr = record m { calls = freed ptr ∷ m.calls }

-- How often an address was handed out, and how often it was given back.
unfoldable pub allocs : ℕ → List MemCall → ℕ
allocs p [] = 0
allocs p (allocated _ q ∷ cs) = (if q == p then 1 else 0) + allocs p cs
allocs p (freed _ ∷ cs) = allocs p cs

unfoldable pub frees : ℕ → List MemCall → ℕ
frees p [] = 0
frees p (allocated _ _ ∷ cs) = frees p cs
frees p (freed q ∷ cs) = (if q == p then 1 else 0) + frees p cs

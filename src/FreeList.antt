-- ===== src/FreeList.antt =====
-- Kernel/drivers/freeListMemoryManager.c: a heap whose free blocks hang in a list by address, each with its
-- header in the block itself. Only headers are in the model: `blocks` gives the header that lies at an address.
pub mod Chain
pub mod Places
pub mod Insert
pub mod Alloc
pub mod Carve
pub mod Take
pub mod Mark
pub mod Heap
pub mod Release
mod Tests
use tpe_so_2023_tp.Base.{
  ℕ, zero, suc, ◌+◌, ◌-◌, ◌*◌, ◌/◌, ◌%◌, ◌^◌, Bool, true, false, ◌&&◌, ◌||◌, not, ltb, leb, ◌==◌,
  if◌then◌else◌, update,
}

-- `struct Node`
pub record MemoryBlock : Type 0 where
  pub next : ℕ
  pub block_size : ℕ

-- The static variables. `start_block` lies in the kernel's data, at its own address.
pub record FreeList : Type 0 where
  pub blocks : ℕ → MemoryBlock
  pub start_block : ℕ
  pub end_block : ℕ
  pub total_mem : ℕ
  pub used_mem : ℕ
  pub mem_chunks : ℕ
  pub allocated_bit : ℕ

-- struct_size and HEAP_MINIMUM_BLOCK_SIZE
abbrev pub struct_size : ℕ
struct_size = 16

abbrev pub heap_minimum_block_size : ℕ
heap_minimum_block_size = 32

abbrev next_at : FreeList → ℕ → ℕ
next_at m a = (m.blocks a).next

abbrev size_at : FreeList → ℕ → ℕ
size_at m a = (m.blocks a).block_size

abbrev set_next : FreeList → ℕ → ℕ → FreeList
set_next m a p = record m { blocks = update m.blocks a (record (m.blocks a) { next = p }) }

abbrev set_size : FreeList → ℕ → ℕ → FreeList
set_size m a s = record m { blocks = update m.blocks a (record (m.blocks a) { block_size = s }) }

-- `x & bit`, where `bit` is 0, as before mm_init, or a power of two.
abbrev pub masked : ℕ → ℕ → ℕ
masked x bit = if bit == 0 then 0 else x / bit % 2 * bit

-- The loop of insert_block; a step leads to a higher address, so the end's address bounds the rounds.
pub find_place : ℕ → FreeList → ℕ → ℕ → ℕ
find_place zero m iterator block_to_insert = iterator
find_place (suc fuel) m iterator block_to_insert =
    let rest = find_place fuel m (next_at m iterator) block_to_insert in
    if ltb (next_at m iterator) block_to_insert then rest else iterator

-- Its other statements. The block may be joined to the one before, and to the one behind.
abbrev join_before : FreeList → ℕ → ℕ → ℕ × FreeList
join_before m iterator block =
    if iterator + size_at m iterator == block
    then (iterator, set_size m iterator (size_at m iterator + size_at m block))
    else (block, m)

abbrev join_behind : FreeList → ℕ → ℕ → FreeList
join_behind m iterator block =
    let behind = next_at m iterator in
    if block + size_at m block == behind
    then if not (behind == m.end_block)
      then (let m1 = set_size m block (size_at m block + size_at m behind) in
          set_next m1 block (next_at m1 (next_at m1 iterator)))
      else set_next m block m.end_block
    else set_next m block behind

pub hang : FreeList → ℕ → ℕ → FreeList
hang m iterator block_to_insert =
    let (block, m1) = join_before m iterator block_to_insert in
    let m2 = join_behind m1 iterator block in
    if not (iterator == block) then set_next m2 iterator block else m2

pub insert_block : FreeList → ℕ → FreeList
insert_block m block_to_insert =
    hang m (find_place (suc m.end_block) m m.start_block block_to_insert) block_to_insert

-- The size of the block that mm_alloc looks for: with the header, up to a multiple of 8; 0 is a refusal.
pub needed_size : ℕ → ℕ
needed_size size =
    let with_header = (size + struct_size) % 2 ^ 64 in
    let aligned = (with_header + (8 - with_header % 8)) % 2 ^ 64 in
    if not (ltb 0 size && ltb size with_header)
    then 0
    else if with_header % 8 == 0
    then with_header
    else if ltb with_header aligned
    then aligned
    else 0

-- The loop of mm_alloc: the block before, and the block.
pub first_fit : ℕ → FreeList → ℕ → ℕ → ℕ → ℕ × ℕ
first_fit zero m previous_block block size = (previous_block, block)
first_fit (suc fuel) m previous_block block size =
    let rest = first_fit fuel m block (next_at m block) size in
    if ltb (size_at m block) size && not (next_at m block == 0)
    then rest
    else (previous_block, block)

-- What a block is too large by becomes a free block of its own.
abbrev split : FreeList → ℕ → ℕ → FreeList
split m block size =
    let left = (size_at m block + 2 ^ 64 - size) % 2 ^ 64 in
    if ltb heap_minimum_block_size left
    then insert_block (set_size (set_size m (block + size) left) block size) (block + size)
    else m

pub take_block : FreeList → ℕ → ℕ → ℕ → ℕ × FreeList
take_block m previous_block block size =
    let return_ptr = next_at m previous_block + struct_size in
    let m1 = split (set_next m previous_block (next_at m block)) block size in
    let marked =
      if masked (size_at m1 block) m1.allocated_bit == 0
      then size_at m1 block + m1.allocated_bit
      else size_at m1 block in
    let m2 = record m1 { used_mem = (m1.used_mem + size_at m1 block) % 2 ^ 64 } in
    let m3 = set_next (set_size m2 block marked) block 0 in
    (return_ptr, record m3 { mem_chunks = (m3.mem_chunks + 1) % 2 ^ 32 })

pub mm_alloc : FreeList → ℕ → ℕ × FreeList
mm_alloc m size =
    let needed = needed_size size in
    let (previous_block, block) =
      first_fit (suc m.end_block) m m.start_block (next_at m m.start_block) needed in
    if not (masked size m.allocated_bit == 0)
    then (0, m)
    else if not (ltb 0 needed && leb needed ((m.total_mem + 2 ^ 64 - m.used_mem) % 2 ^ 64))
    then (0, m)
    else if block == m.end_block
    then (0, m)
    else take_block m previous_block block needed

-- The statements of mm_free below its guards.
pub release : FreeList → ℕ → ℕ → FreeList
release m link bit =
    let m1 = set_size m link (size_at m link - bit) in
    let m2 = record m1 { used_mem = (m1.used_mem + 2 ^ 64 - size_at m1 link) % 2 ^ 64 } in
    let m3 = insert_block m2 link in
    record m3 { mem_chunks = (m3.mem_chunks + 2 ^ 32 - 1) % 2 ^ 32 }

-- A block that is marked and hangs in no list is put back.
pub mm_free : FreeList → ℕ → FreeList
mm_free m address =
    let link = (address + 2 ^ 64 - struct_size) % 2 ^ 64 in
    let bit = masked (size_at m link) m.allocated_bit in
    if address == 0 || bit == 0 || not (next_at m link == 0) then m else release m link bit

pub mm_init : FreeList → ℕ → ℕ → FreeList
mm_init m start_address size =
    let true_start =
      if start_address % 8 == 0 then start_address else (start_address + 7) / 8 * 8 in
    let total_heap_size = (size + 2 ^ 64 - (true_start - start_address)) % 2 ^ 64 in
    let end = (true_start + total_heap_size - struct_size) / 8 * 8 in
    let start : MemoryBlock = record { next = true_start; block_size = 0 } in
    let last : MemoryBlock = record { next = 0; block_size = 0 } in
    let all : MemoryBlock = record { next = end; block_size = end - true_start } in
    record m {
      blocks = update (update (update m.blocks m.start_block start) end last) true_start all;
      end_block = end;
      total_mem = end - true_start;
      allocated_bit = 2 ^ 63;
    }

-- The bytes themselves are not in the model: the copy of `size` bytes from the old block is left out.
pub mm_realloc : FreeList → ℕ → ℕ → ℕ × FreeList
mm_realloc m ptr size =
    let (new_ptr, m1) = mm_alloc m size in (new_ptr, if new_ptr == 0 then m1 else mm_free m1 ptr)

-- The total, the used bytes and the number of blocks.
pub mm_state : FreeList → ℕ × ℕ × ℕ
mm_state m = (m.total_mem, m.used_mem, m.mem_chunks)

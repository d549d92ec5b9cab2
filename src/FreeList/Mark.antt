-- ===== src/FreeList/Mark.antt =====
-- The header of the block that mm_alloc hands out, in Kernel/drivers/freeListMemoryManager.c.
use tpe_so_2023_tp.Base.{
  ℕ, ◌+◌, ◌%◌, ◌^◌, ◌<◌, ◌≡◌, ◌≢◌, refl, sym, ap, subst, ◌∙◌, arith, ◌∷◌, ◌==◌, if◌then◌else◌,
}
use tpe_so_2023_tp.FreeList.{
  MemoryBlock, FreeList, struct_size, masked, split, set_next, set_size, take_block,
}
use tpe_so_2023_tp.FreeList.Chain.{
  Spans, block, Chain, IsSorted, bytes_in, Absent, tail-IsSorted, Fits-Absent, IsHeap, Chain-update,
}
use tpe_so_2023_tp.FreeList.Alloc.{found, Walked}
use tpe_so_2023_tp.FreeList.Carve.{found-bounds}
use tpe_so_2023_tp.FreeList.Take.{given, left_over, split-Parted, left_over-Fits, given-bytes_in}

-- What a request for `n` bytes, header included, leaves behind when a block fits.
pub record Granted (m : FreeList) (n : ℕ) (xs : Spans) (m' : FreeList) : Type 0 where
  pub heap : IsHeap m' (left_over n xs)
  pub header : m'.blocks (found m.end_block n xs) ≡ block 0 (given n xs + 2 ^ 63)
  pub used : m'.used_mem ≡ m.used_mem + given n xs
  pub chunks : m'.mem_chunks ≡ (m.mem_chunks + 1) % 2 ^ 32
  pub start : m'.start_block ≡ m.start_block
  pub end : m'.end_block ≡ m.end_block
  pub total : m'.total_mem ≡ m.total_mem

-- The last statements of mm_alloc: the header of the block.
abbrev mark : FreeList → ℕ → FreeList
mark m1 block =
    let marked =
      if masked (m1.blocks block).block_size m1.allocated_bit == 0
      then (m1.blocks block).block_size + m1.allocated_bit
      else (m1.blocks block).block_size in
    let m2 = record m1 { used_mem = (m1.used_mem + (m1.blocks block).block_size) % 2 ^ 64 } in
    let m3 = set_next (set_size m2 block marked) block 0 in
    record m3 { mem_chunks = (m3.mem_chunks + 1) % 2 ^ 32 }

pub masked-small : (x : ℕ) → x < 2 ^ 63 → masked x (2 ^ 63) ≡ 0
masked-small x lt = omega arith

pub masked-bit : (x : ℕ) → x < 2 ^ 63 → masked (x + 2 ^ 63) (2 ^ 63) ≡ 2 ^ 63
masked-bit x lt = omega arith

marked_header :
    (h : ℕ → MemoryBlock) (q g bit : ℕ)
    → (h q).block_size ≡ g
    → g < 2 ^ 63
    → bit ≡ 2 ^ 63
    → (if masked (h q).block_size bit == 0 then (h q).block_size + bit else (h q).block_size)
      ≡ g + 2 ^ 63
marked_header h q g bit e lt eb = rw (e, eb) (ground (arith, masked-small g lt))

pub set_both-Chain :
    (m : FreeList) (e q s p : ℕ) (ys : Spans)
    → e ≢ q
    → Absent q ys
    → Chain m.blocks e ys
    → Chain (set_next (set_size m q s) q p).blocks e ys
set_both-Chain m e q s p ys eq absent cs =
    let m1 = set_size m q s in
    Chain-update m1.blocks e q (record (m1.blocks q) { next = p }) ys eq absent
      (Chain-update m.blocks e q (record (m.blocks q) { block_size = s }) ys eq absent cs)

pub set_both-header :
    (m : FreeList) (q s p : ℕ) → (set_next (set_size m q s) q p).blocks q ≡ block p s
set_both-header m q s p = ground arith

mark-Granted :
    (m : FreeList) (n : ℕ) (xs : Spans) (h : ℕ → MemoryBlock)
    → IsHeap m xs
    → 0 < n
    → found m.end_block n xs < m.end_block
    → Chain h m.end_block ((m.start_block, 0) ∷ left_over n xs)
    → IsSorted m.end_block ((m.start_block, 0) ∷ left_over n xs)
    → (h (found m.end_block n xs)).block_size ≡ given n xs
    → Granted m n xs (mark (record m { blocks = h }) (found m.end_block n xs))
mark-Granted m n xs h heap some_n lt cs so sized =
    let e = m.end_block in
    let q = found e n xs in
    let g = given n xs in
    let a = m.start_block in
    let parts = given-bytes_in e n xs lt in
    let bounds = found-bounds e n a 0 xs heap.order lt in
    let absent =
      Fits-Absent e q g (left_over n xs) (tail-IsSorted e a 0 (left_over n xs) so)
        (left_over-Fits e n a xs heap.order lt some_n) in
    let small : g < 2 ^ 63 = omega (arith, heap.bytes, heap.within, heap.half) in
    let sum : (m.used_mem + (h q).block_size) % 2 ^ 64 ≡ m.used_mem + g =
      rw sized (omega (arith, heap.bytes, heap.within, heap.half)) in
    let header = marked_header h q g m.allocated_bit sized small heap.bit in
    let m1 = record m { blocks = h } in
    let s =
      if masked (h q).block_size m.allocated_bit == 0
      then (h q).block_size + m.allocated_bit
      else (h q).block_size in
    record {
      heap = record {
        links =
            set_both-Chain m1 e q s 0 ((a, 0) ∷ left_over n xs) (omega arith)
              (omega (arith, bounds), absent) cs;
        order = so;
        bytes = ap (λ u. u + bytes_in (left_over n xs)) sum ∙ omega (arith, heap.bytes, parts);
        within = heap.within;
        half = heap.half;
        bit = heap.bit;
      };
      header = set_both-header m1 q s 0 ∙ ap (block 0) header;
      used = sum;
      chunks = refl;
      start = refl;
      end = refl;
      total = refl;
    }

set_next-other : (m : FreeList) (p k q : ℕ) → q ≢ p → (set_next m p k).blocks q ≡ m.blocks q
set_next-other m p k q qp = ground arith

pub take_block-Granted :
    (m : FreeList) (n p : ℕ) (xs : Spans)
    → IsHeap m xs
    → 0 < n
    → found m.end_block n xs < m.end_block
    → Walked m n m.start_block 0 xs p (found m.end_block n xs)
    → (let (address, m') = take_block m p (found m.end_block n xs) n in
        (address ≡ found m.end_block n xs + struct_size) × Granted m n xs m')
unfolding take_block
take_block-Granted m n p xs heap some_n lt walked =
    let q = found m.end_block n xs in
    let m0 = set_next m p (m.blocks q).next in
    let m1 = split m0 q n in
    let size =
      ap (λ h. h.block_size) (set_next-other m p (m.blocks q).next q (omega (arith, walked.before)))
      ∙ walked.size in
    let parted = split-Parted m0 n xs heap.order heap.half lt some_n (walked.unlinked lt) size in
    (
      ap (λ k. k + struct_size) walked.next,
      subst (λ z. Granted m n xs (mark z q)) (sym parted.fields)
          (mark-Granted m n xs m1.blocks heap some_n lt parted.links parted.order parted.sized),
    )

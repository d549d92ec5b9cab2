-- ===== src/FreeList/Release.antt =====
-- mm_init and mm_free of Kernel/drivers/freeListMemoryManager.c: what each makes of the heap.
use tpe_so_2023_tp.Base.{
  ℕ, ◌+◌, ◌-◌, ◌*◌, ◌/◌, ◌%◌, ◌^◌, ◌≤◌, ◌<◌, ◌≡◌, refl, sym, ap, ap₂, subst, ◌∙◌, arith, [], ◌∷◌,
  ◌==◌, if◌then◌else◌, update,
}
use tpe_so_2023_tp.FreeList.{
  MemoryBlock, FreeList, struct_size, insert_block, needed_size, masked, set_size, set_size,
  mm_alloc, mm_free, release, mm_init,
}
use tpe_so_2023_tp.FreeList.Chain.{
  Spans, block, Chain, IsSorted, bytes_in, Fits, Fits-end, tail-IsSorted, Fits-Absent, IsHeap,
  Chain-update,
}
use tpe_so_2023_tp.FreeList.Places.{put}
use tpe_so_2023_tp.FreeList.Insert.{insert_block-Chain, insert_block-fields}
use tpe_so_2023_tp.FreeList.Alloc.{found}
use tpe_so_2023_tp.FreeList.Carve.{found-bounds}
use tpe_so_2023_tp.FreeList.Mark.{masked-bit}
use tpe_so_2023_tp.FreeList.Heap.{mm_alloc-Granted, needed_size_lem}
use tpe_so_2023_tp.FreeList.Take.{given, left_over, left_over-Fits, put-left_over}

init_links :
    (h : ℕ → MemoryBlock) (a ts e : ℕ)
    → a < ts
    → ts < e
    → Chain
        (update (update (update h a (block ts 0)) e (block 0 0)) ts (block e (e - ts)))
        e
        ((a, 0) ∷ (ts, e - ts) ∷ [])
init_links h a ts e below room = (ground arith, (ground arith, ground arith))

-- mm_init makes one free block of the memory between the first and the last multiple of 8, the end's header left out.
pub mm_init-IsHeap :
    (m : FreeList) (start_address size : ℕ)
    → m.used_mem ≡ 0
    → start_address + size ≤ 2 ^ 63
    → 40 ≤ size
    → m.start_block < start_address
    → (let true_start = (start_address + 7) / 8 * 8 in
        let end = (start_address + size - 16) / 8 * 8 in
        IsHeap (mm_init m start_address size) ((true_start, end - true_start) ∷ []))
unfolding mm_init
mm_init-IsHeap m start_address size used fits large below =
    let ts = (start_address + 7) / 8 * 8 in
    let e = (start_address + size - 16) / 8 * 8 in
    let first : (if start_address % 8 == 0 then start_address else ts) ≡ ts = ground arith in
    let last : (ts + (size + 2 ^ 64 - (ts - start_address)) % 2 ^ 64 - 16) / 8 * 8 ≡ e =
      omega arith in
    let room : ts + 8 ≤ e = omega arith in
    let above : m.start_block < ts = omega arith in
    let end : e < 2 ^ 63 = omega arith in
    rw (first, last)
      (record {
        links = init_links m.blocks m.start_block ts e above (omega arith);
        order = (omega arith, (omega arith, omega arith));
        bytes = omega arith;
        within = omega arith;
        half = omega arith;
        bit = refl;
      })

mm_free-release :
    (m : FreeList) (b sb : ℕ)
    → m.allocated_bit ≡ 2 ^ 63
    → m.blocks b ≡ block 0 (sb + 2 ^ 63)
    → b < 2 ^ 63
    → sb < 2 ^ 63
    → mm_free m (b + struct_size) ≡ release m b (2 ^ 63)
unfolding mm_free
mm_free-release m b sb bit header bl sl =
    let link : (b + struct_size + 2 ^ 64 - struct_size) % 2 ^ 64 ≡ b = omega arith in
    let size : (m.blocks b).block_size ≡ sb + 2 ^ 63 = ap (λ h. h.block_size) header in
    let next : (m.blocks b).next ≡ 0 = ap (λ h. h.next) header in
    let mask : masked (m.blocks b).block_size m.allocated_bit ≡ 2 ^ 63 =
      ap₂ masked size bit ∙ masked-bit sb sl in
    rw (link, mask, next) (ground arith)

-- What release comes to, when the block is put back into `m`.
abbrev one_less : FreeList → FreeList
one_less m3 = record m3 { mem_chunks = (m3.mem_chunks + 2 ^ 32 - 1) % 2 ^ 32 }

put_back-IsHeap :
    (m : FreeList) (b sb : ℕ) (xs : Spans)
    → Chain m.blocks m.end_block ((m.start_block, 0) ∷ xs)
    → IsSorted m.end_block ((m.start_block, 0) ∷ xs)
    → m.used_mem + (sb + bytes_in xs) ≡ m.total_mem
    → m.total_mem ≤ m.end_block
    → m.end_block < 2 ^ 63
    → m.allocated_bit ≡ 2 ^ 63
    → (m.blocks b).block_size ≡ sb
    → m.start_block < b
    → Fits m.end_block b sb xs
    → (let m' = one_less (insert_block m b) in
        IsHeap m' (put b sb xs)
        × (m'.used_mem ≡ m.used_mem)
        × (m'.mem_chunks ≡ (m.mem_chunks + 2 ^ 32 - 1) % 2 ^ 32))
put_back-IsHeap m b sb xs cs so bytes within half bit size above fits =
    let (chain, order, sum) = insert_block-Chain m b sb xs cs so size above fits in
    subst
      (λ z.
        IsHeap (one_less z) (put b sb xs)
        × ((one_less z).used_mem ≡ m.used_mem)
        × ((one_less z).mem_chunks ≡ (m.mem_chunks + 2 ^ 32 - 1) % 2 ^ 32))
      (sym (insert_block-fields m b))
      (
        record {
          links = chain;
          order = order;
          bytes = ap (λ k. m.used_mem + k) sum ∙ bytes;
          within = within;
          half = half;
          bit = bit;
        },
        refl,
        refl,
      )

unmarked :
    (m : FreeList) (b sb : ℕ)
    → (m.blocks b).block_size ≡ sb + 2 ^ 63
    → ((set_size m b ((m.blocks b).block_size - 2 ^ 63)).blocks b).block_size ≡ sb
unmarked m b sb header = ground (arith, header)

release-IsHeap :
    (m : FreeList) (b sb : ℕ) (xs : Spans)
    → IsHeap m xs
    → (m.blocks b).block_size ≡ sb + 2 ^ 63
    → m.start_block < b
    → Fits m.end_block b sb xs
    → sb ≤ m.used_mem
    → b < m.end_block
    → (let m' = release m b (2 ^ 63) in
        IsHeap m' (put b sb xs)
        × (m'.used_mem ≡ m.used_mem - sb)
        × (m'.mem_chunks ≡ (m.mem_chunks + 2 ^ 32 - 1) % 2 ^ 32))
unfolding release
release-IsHeap m b sb xs heap header above fits used be =
    let a = m.start_block in
    let e = m.end_block in
    let m1 = set_size m b ((m.blocks b).block_size - 2 ^ 63) in
    let size = unmarked m b sb header in
    let rest : (m.used_mem + 2 ^ 64 - (m1.blocks b).block_size) % 2 ^ 64 ≡ m.used_mem - sb =
      rw size (omega (arith, heap.bytes, heap.within, heap.half)) in
    let m2 = record m1 { used_mem = (m.used_mem + 2 ^ 64 - (m1.blocks b).block_size) % 2 ^ 64 } in
    let absent = Fits-Absent e b sb xs (tail-IsSorted e a 0 xs heap.order) fits in
    let chain =
      Chain-update m.blocks e b
        (record (m.blocks b) { block_size = (m.blocks b).block_size - 2 ^ 63 }) ((a, 0) ∷ xs)
        (omega arith) (omega arith, absent) heap.links in
    let sum : (m.used_mem + 2 ^ 64 - (m1.blocks b).block_size) % 2 ^ 64 + (sb + bytes_in xs)
        ≡ m.total_mem =
      rw rest (omega (arith, heap.bytes)) in
    let (back, used', chunks) =
      put_back-IsHeap m2 b sb xs chain heap.order sum heap.within heap.half heap.bit size above
        fits in
    (back, used' ∙ rest, chunks)

-- A block that mm_alloc gave, marked and in no list, is free again, joined to the free blocks it touches.
pub mm_free-IsHeap :
    (m : FreeList) (b sb : ℕ) (xs : Spans)
    → IsHeap m xs
    → m.blocks b ≡ block 0 (sb + 2 ^ 63)
    → m.start_block < b
    → Fits m.end_block b sb xs
    → sb ≤ m.used_mem
    → (let m' = mm_free m (b + struct_size) in
        IsHeap m' (put b sb xs)
        × (m'.used_mem ≡ m.used_mem - sb)
        × (m'.mem_chunks ≡ (m.mem_chunks + 2 ^ 32 - 1) % 2 ^ 32))
mm_free-IsHeap m b sb xs heap header above fits used =
    let (be, bse) =
      Fits-end m.end_block b sb xs (tail-IsSorted m.end_block m.start_block 0 xs heap.order) fits in
    let small : sb < 2 ^ 63 = omega (arith, heap.half) in
    subst
      (λ m'.
        IsHeap m' (put b sb xs)
        × (m'.used_mem ≡ m.used_mem - sb)
        × (m'.mem_chunks ≡ (m.mem_chunks + 2 ^ 32 - 1) % 2 ^ 32))
      (sym (mm_free-release m b sb heap.bit header (omega (arith, heap.half)) small))
      (release-IsHeap m b sb xs heap (ap (λ h. h.block_size) header) above fits used be)

-- Freeing what mm_alloc has just given leaves the free list and the count of used bytes as they were.
pub mm_free-mm_alloc-IsHeap :
    (m : FreeList) (size : ℕ) (xs : Spans)
    → IsHeap m xs
    → 0 < size
    → size < 2 ^ 63
    → found m.end_block (needed_size size) xs < m.end_block
    → (let (address, m') = mm_alloc m size in
        IsHeap (mm_free m' address) xs × ((mm_free m' address).used_mem ≡ m.used_mem))
mm_free-mm_alloc-IsHeap m size xs heap some_size half lt =
    let n = needed_size size in
    let e = m.end_block in
    let a = m.start_block in
    let q = found e n xs in
    let g = given n xs in
    let m' = (mm_alloc m size).1 in
    let (at, granted) = mm_alloc-Granted m size xs heap some_size half lt in
    let some_n : 0 < n = ground (arith, needed_size_lem size half) in
    let bounds = found-bounds e n a 0 xs heap.order lt in
    let fits =
      subst (λ z. Fits z q g (left_over n xs)) (sym granted.end)
        (left_over-Fits e n a xs heap.order lt some_n) in
    let (freed, used, chunks) =
      mm_free-IsHeap m' q g (left_over n xs) granted.heap granted.header
        (omega (arith, granted.start, bounds)) fits (omega (arith, granted.used)) in
    let same = put-left_over e n a xs heap.order lt some_n in
    subst (λ k. IsHeap (mm_free m' k) xs × ((mm_free m' k).used_mem ≡ m.used_mem)) (sym at)
      (
        subst (λ ys. IsHeap (mm_free m' (q + struct_size)) ys) same freed,
        omega (arith, used, granted.used),
      )

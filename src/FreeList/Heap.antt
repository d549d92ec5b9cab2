-- ===== src/FreeList/Heap.antt =====
-- mm_alloc of Kernel/drivers/freeListMemoryManager.c: the block that a request gets, and the requests that are refused.
use tpe_so_2023_tp.Base.{
  ℕ, suc, ◌+◌, ◌-◌, ◌*◌, ◌/◌, ◌%◌, ◌^◌, ◌≤◌, ◌<◌, ◌≡◌, ◌≢◌, refl, sym, ap, subst, ◌∙◌, arith,
  length, ◌==◌, ltb, leb, if◌then◌else◌, true, ◌&&◌, inl, inr, ◌⊎◌,
}
use native.Mathlib.Decide.{dec_lt}
use tpe_so_2023_tp.FreeList.{
  FreeList, struct_size, needed_size, first_fit, masked, take_block, mm_alloc,
}
use tpe_so_2023_tp.FreeList.Chain.{Spans, head_or, bytes_in, IsHeap, length-le-end}
use tpe_so_2023_tp.FreeList.Alloc.{found, found_size, Walked, first_fit-Walked}
use tpe_so_2023_tp.FreeList.Carve.{found-bounds}
use tpe_so_2023_tp.FreeList.Mark.{Granted, masked-small, take_block-Granted}
use tpe_so_2023_tp.FreeList.Take.{given, given-bytes_in}

-- The size with the header, up to a multiple of 8; a request of nothing is refused.
pub needed_size_lem :
    (size : ℕ)
    → size < 2 ^ 63
    → needed_size size ≡ (if size == 0 then 0 else (size + 16 + 7) / 8 * 8)
unfolding needed_size
needed_size_lem size lt =
    let e : (size + 16) % 2 ^ 64 ≡ size + 16 = omega arith in rw e (ground arith)

mm_alloc_cases :
    (m : FreeList) (size p q : ℕ)
    → first_fit (suc m.end_block) m m.start_block (m.blocks m.start_block).next (needed_size size)
      ≡ (p, q)
    → masked size m.allocated_bit ≡ 0
    → mm_alloc m size ≡ (
        if ltb 0 (needed_size size)
          && leb (needed_size size) ((m.total_mem + 2 ^ 64 - m.used_mem) % 2 ^ 64)
        then (if q == m.end_block then (0, m) else take_block m p q (needed_size size))
        else (0, m))
unfolding mm_alloc
mm_alloc_cases m size p q e small = rw (e, small) (ground arith)

-- The loop from the start block finds the first block that fits, or the end.
first_fit-start-Walked :
    (m : FreeList) (n : ℕ) (xs : Spans)
    → IsHeap m xs
    → 0 < n
    → (p : ℕ) × ((first_fit (suc m.end_block) m m.start_block (m.blocks m.start_block).next n
          ≡ (p, found m.end_block n xs))
        × Walked m n m.start_block 0 xs p (found m.end_block n xs))
first_fit-start-Walked m n xs heap some_n =
    let e = m.end_block in
    let a = m.start_block in
    let rounds : length xs < suc e = omega (arith, length-le-end e a 0 xs heap.order) in
    let next : (m.blocks a).next ≡ head_or e xs = ap (λ h. h.next) heap.links.0 in
    let walked = first_fit-Walked (suc e) m n a 0 xs rounds some_n heap.links heap.order in
    let r = first_fit (suc e) m a (head_or e xs) n in
    let back : r ≡ (r.0, found e n xs) = ap (λ k. (r.0, k)) walked.at in
    (
      r.0,
      (
        ap (λ c. first_fit (suc e) m a c n) next ∙ back,
        subst (λ q. Walked m n a 0 xs r.0 q) walked.at walked,
      ),
    )

leb-true : (a b : ℕ) → a ≤ b → leb a b ≡ true
leb-true a b h = ground arith

given-ge : (n : ℕ) (xs : Spans) → n ≤ found_size n xs → n ≤ given n xs
given-ge n xs h = ground arith

taken :
    (m : FreeList) (n q : ℕ) (r : ℕ × FreeList)
    → 0 < n
    → q < m.end_block
    → (if ltb 0 n && true then (if q == m.end_block then (0, m) else r) else (0, m)) ≡ r
taken m n q r some_n lt = ground arith

available :
    (m : FreeList) (xs : Spans)
    → IsHeap m xs
    → (m.total_mem + 2 ^ 64 - m.used_mem) % 2 ^ 64 ≡ bytes_in xs
available m xs heap = omega (arith, heap.bytes, heap.within, heap.half)

-- The first block that is large enough is given; what is too much of it by more than 32 bytes stays in the list.
pub mm_alloc-Granted :
    (m : FreeList) (size : ℕ) (xs : Spans)
    → IsHeap m xs
    → 0 < size
    → size < 2 ^ 63
    → found m.end_block (needed_size size) xs < m.end_block
    → (let (address, m') = mm_alloc m size in
        (address ≡ found m.end_block (needed_size size) xs + struct_size)
        × Granted m (needed_size size) xs m')
mm_alloc-Granted m size xs heap some_size half lt =
    let e = m.end_block in
    let n = needed_size size in
    let q = found e n xs in
    let some_n : 0 < n = ground (arith, needed_size_lem size half) in
    let (p, (loop, walked)) = first_fit-start-Walked m n xs heap some_n in
    let small : masked size m.allocated_bit ≡ 0 = rw (heap.bit) (masked-small size half) in
    let bounds = found-bounds e n m.start_block 0 xs heap.order lt in
    let parts = given-bytes_in e n xs lt in
    let enough : n ≤ given n xs = given-ge n xs bounds.1 in
    let room : leb n ((m.total_mem + 2 ^ 64 - m.used_mem) % 2 ^ 64) ≡ true =
      rw (available m xs heap) (leb-true n (bytes_in xs) (omega (arith, enough, parts))) in
    let done : mm_alloc m size ≡ take_block m p q n =
      mm_alloc_cases m size p q loop small ∙ rw room (taken m n q (take_block m p q n) some_n lt) in
    subst (λ z. (z.0 ≡ q + struct_size) × Granted m n xs z.1) (sym done)
      (take_block-Granted m n p xs heap some_n lt walked)

mm_alloc_half :
    (m : FreeList) (size : ℕ) → masked size m.allocated_bit ≢ 0 → mm_alloc m size ≡ (0, m)
unfolding mm_alloc
mm_alloc_half m size large = ground arith

-- A request for nothing, for more than half the addresses or for more than any block has changes nothing.
pub mm_alloc-refused :
    (m : FreeList) (size : ℕ) (xs : Spans)
    → IsHeap m xs
    → size < 2 ^ 64
    → (size ≡ 0) ⊎ ((2 ^ 63 ≤ size) ⊎ (found m.end_block (needed_size size) xs ≡ m.end_block))
    → mm_alloc m size ≡ (0, m)
mm_alloc-refused m size xs heap lt why = elim (dec_lt size (2 ^ 63)) [
  | no large ↦ mm_alloc_half m size (rw (heap.bit) (omega arith))
  | yes half ↦
      let small : masked size m.allocated_bit ≡ 0 = rw (heap.bit) (masked-small size half) in
      elim (dec_lt 0 (needed_size size)) [
        | no none ↦ mm_alloc_cases m size _ _ refl small ∙ ground arith
        | yes some_n ↦
            let (p, (loop, walked)) = first_fit-start-Walked m (needed_size size) xs heap some_n in
            let end : found m.end_block (needed_size size) xs ≡ m.end_block = elim why [
              | inl nothing ↦ absurd (ground (arith, needed_size_lem size half))
              | inr (inl large) ↦ absurd (omega arith)
              | inr (inr e) ↦ e
            ] in
            mm_alloc_cases m size p m.end_block (loop ∙ ap (λ q. (p, q)) end) small ∙ ground arith
      ]
]

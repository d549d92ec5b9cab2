-- ===== src/FreeList/Take.antt =====
-- The block that mm_alloc of Kernel/drivers/freeListMemoryManager.c takes: split if it is too large, its
-- header marked, the rest put back.
use tpe_so_2023_tp.Base.{
  ℕ, ◌+◌, ◌-◌, ◌%◌, ◌^◌, ◌≤◌, ◌<◌, ◌≡◌, ◌≢◌, refl, sym, ap, subst, ◌∙◌, arith, [], ◌∷◌, ltb,
  if◌then◌else◌, Bool-cases, inl, inr, ◌⊎◌,
}
use tpe_so_2023_tp.FreeList.{FreeList, insert_block, split, set_size, heap_minimum_block_size}
use tpe_so_2023_tp.FreeList.Chain.{
  Spans, Chain, IsSorted, bytes_in, Chain-outside, Fits, tail-IsSorted, Fits-Absent,
}
use tpe_so_2023_tp.FreeList.Places.{put, insert-put}
use tpe_so_2023_tp.FreeList.Insert.{insert_block-Chain, insert_block-fields, insert_block-elsewhere}
use tpe_so_2023_tp.FreeList.Alloc.{found, found_size, removed}
use tpe_so_2023_tp.FreeList.Carve.{
  carved, found-bounds, removed-bytes_in, carved-bytes_in, removed-IsSorted, removed-Fits,
  carved-Fits, insert-carved, insert-carved_back, insert-removed_back,
}

-- The bytes that a request for `n` gets from the first block that fits, and the free spans that are left.
abbrev pub given : ℕ → Spans → ℕ
given n xs = if ltb heap_minimum_block_size (found_size n xs - n) then n else found_size n xs

abbrev pub left_over : ℕ → Spans → Spans
left_over n xs =
    if ltb heap_minimum_block_size (found_size n xs - n) then carved n xs else removed n xs

abbrev rest_of : Spans → Spans
rest_of [] = []
rest_of (x ∷ xs) = xs

pub put-carved :
    (e n a : ℕ) (xs : Spans)
    → IsSorted e ((a, 0) ∷ xs)
    → found e n xs < e
    → 0 < n
    → n < found_size n xs
    → put (found e n xs + n) (found_size n xs - n) (removed n xs) ≡ carved n xs
put-carved e n a xs so lt some_n less =
    let bounds = found-bounds e n a 0 xs so lt in
    let b = found e n xs + n in
    ap rest_of (
      sym (insert-put b (found_size n xs - n) a (removed n xs) (omega (arith, bounds.0)))
      ∙ insert-carved e n a 0 xs so lt some_n less)

-- What is left over takes back what was given.
pub put-left_over :
    (e n a : ℕ) (xs : Spans)
    → IsSorted e ((a, 0) ∷ xs)
    → found e n xs < e
    → 0 < n
    → put (found e n xs) (given n xs) (left_over n xs) ≡ xs
put-left_over e n a xs so lt some_n = elim (Bool-cases (ltb 32 (found_size n xs - n))) [
  | inl large ↦ rw large (
      ap rest_of (
        sym (
          insert-put (found e n xs) n a (carved n xs)
            (omega (arith, found-bounds e n a 0 xs so lt)))
        ∙ insert-carved_back e n a 0 xs so lt some_n))
  | inr whole ↦ rw whole (
      ap rest_of (
        sym (
          insert-put (found e n xs) (found_size n xs) a (removed n xs)
            (omega (arith, found-bounds e n a 0 xs so lt)))
        ∙ insert-removed_back e n a 0 xs so lt))
]

pub given-bytes_in :
    (e n : ℕ) (xs : Spans) → found e n xs < e → given n xs + bytes_in (left_over n xs) ≡ bytes_in xs
given-bytes_in e n xs lt = ground (arith, removed-bytes_in e n xs lt, carved-bytes_in e n xs lt)

pub left_over-Fits :
    (e n a : ℕ) (xs : Spans)
    → IsSorted e ((a, 0) ∷ xs)
    → found e n xs < e
    → 0 < n
    → Fits e (found e n xs) (given n xs) (left_over n xs)
left_over-Fits e n a xs so lt some_n = elim (Bool-cases (ltb 32 (found_size n xs - n))) [
  | inl large ↦ rw large (carved-Fits e n a 0 xs so lt some_n)
  | inr whole ↦ rw whole (
      removed-Fits e n a 0 (found e n xs) (found_size n xs) xs so lt (omega arith)
        (omega (arith, found-bounds e n a 0 xs so lt)) (omega arith))
]

-- The header of `q` has `size` bytes, and the others link the spans `ys`.
pub record Parted (m : FreeList) (q size : ℕ) (ys : Spans) (m1 : FreeList) : Type 0 where
  pub links : Chain m1.blocks m.end_block ((m.start_block, 0) ∷ ys)
  pub order : IsSorted m.end_block ((m.start_block, 0) ∷ ys)
  pub sized : (m1.blocks q).block_size ≡ size
  pub fields : m1 ≡ record m { blocks = m1.blocks }

-- A block of `n` bytes at `q`, and one of `l` behind it.
abbrev halves : FreeList → ℕ → ℕ → ℕ → FreeList
halves m q n l = set_size (set_size m (q + n) l) q n

halves-outside :
    (m : FreeList) (q n l x : ℕ) → x ≢ q → x ≢ q + n → (halves m q n l).blocks x ≡ m.blocks x
halves-outside m q n l x xq xn = ground arith

halves-behind :
    (m : FreeList) (q n l : ℕ) → 0 < n → ((halves m q n l).blocks (q + n)).block_size ≡ l
halves-behind m q n l some_n = ground arith

halves-first : (m : FreeList) (q n l : ℕ) → ((halves m q n l).blocks q).block_size ≡ n
halves-first m q n l = ground arith

pub split-Parted :
    (m : FreeList) (n : ℕ) (xs : Spans)
    → IsSorted m.end_block ((m.start_block, 0) ∷ xs)
    → m.end_block < 2 ^ 63
    → found m.end_block n xs < m.end_block
    → 0 < n
    → Chain m.blocks m.end_block ((m.start_block, 0) ∷ removed n xs)
    → (m.blocks (found m.end_block n xs)).block_size ≡ found_size n xs
    → Parted m
        (found m.end_block n xs)
        (given n xs)
        (left_over n xs)
        (split m (found m.end_block n xs) n)
split-Parted m n xs so half lt some_n cs size =
    let e = m.end_block in
    let q = found e n xs in
    let t = found_size n xs in
    let a = m.start_block in
    let bounds = found-bounds e n a 0 xs so lt in
    let order = removed-IsSorted e n a 0 xs so lt in
    let left : ((m.blocks q).block_size + 2 ^ 64 - n) % 2 ^ 64 ≡ t - n =
      rw size (omega (arith, bounds)) in
    elim (Bool-cases (ltb 32 (t - n))) [
      | inl large ↦
          let m1 = halves m q n (t - n) in
          let less : n < t = ground arith in
          let apart : (x : ℕ) → (x < q) ⊎ (q + t ≤ x) → x ≢ q = λ x out. omega arith in
          let apart_n : (x : ℕ) → (x < q) ⊎ (q + t ≤ x) → x ≢ q + n = λ x out. omega arith in
          let whole = removed-Fits e n a 0 q t xs so lt (omega arith) (omega arith) (omega arith) in
          let all : Fits e q t ((a, 0) ∷ removed n xs) =
            inr (omega (arith, bounds), omega (arith, bounds), whole) in
          let keep : Chain m1.blocks e ((a, 0) ∷ removed n xs) =
            Chain-outside m.blocks m1.blocks e q t ((a, 0) ∷ removed n xs) order all
              (λ x out. halves-outside m q n (t - n) x (apart x out) (apart_n x out)) cs in
          let fits =
            removed-Fits e n a 0 (q + n) (t - n) xs so lt (omega arith) (omega arith)
              (omega arith) in
          let back =
            insert_block-Chain m1 (q + n) (t - n) (removed n xs) keep order
              (halves-behind m q n (t - n) some_n) (omega (arith, bounds)) fits in
          let same = put-carved e n a xs so lt some_n less in
          let stays =
            insert_block-elsewhere m1 (q + n) q (removed n xs) keep (omega (arith, bounds))
              (omega (arith, bounds)) (omega arith)
              (Fits-Absent e q t (removed n xs) (tail-IsSorted e a 0 (removed n xs) order) whole) in
          rw left (
            rw large (record {
              links =
                  subst (λ ys. Chain (insert_block m1 (q + n)).blocks e ((a, 0) ∷ ys)) same back.0;
              order = subst (λ ys. IsSorted e ((a, 0) ∷ ys)) same back.1;
              sized = ap (λ h. h.block_size) stays ∙ halves-first m q n (t - n);
              fields = insert_block-fields m1 (q + n);
            }))
      | inr whole ↦
          rw left (rw whole (record { links = cs; order = order; sized = size; fields = refl }))
    ]

-- ===== src/FreeList/Alloc.antt =====
-- mm_alloc of Kernel/drivers/freeListMemoryManager.c on the list of free blocks: the loop, and the block
-- that leaves the list.
use tpe_so_2023_tp.Base.{
  ℕ, zero, suc, ◌+◌, ◌≤◌, ◌<◌, ◌≡◌, ◌≢◌, refl, ◌∙◌, arith, [], ◌∷◌, length, ◌==◌, ltb,
  if◌then◌else◌, Bool-cases, ◌&&◌, not, inl, inr,
}
use tpe_so_2023_tp.FreeList.{FreeList, first_fit, set_next}
use tpe_so_2023_tp.FreeList.Chain.{Spans, block, head_or, Chain, IsSorted, Chain-above}

-- The address of the first span of at least `n` bytes, or the end.
abbrev pub found : ℕ → ℕ → Spans → ℕ
found e n [] = e
found e n ((b, t) ∷ xs) = if ltb t n then found e n xs else b

abbrev pub found_size : ℕ → Spans → ℕ
found_size n [] = 0
found_size n ((b, t) ∷ xs) = if ltb t n then found_size n xs else t

-- The spans without it.
abbrev pub removed : ℕ → Spans → Spans
removed n [] = []
removed n ((b, t) ∷ xs) = if ltb t n then (b, t) ∷ removed n xs else xs

first_fit-suc :
    (fuel : ℕ) (m : FreeList) (p b n : ℕ)
    → first_fit (suc fuel) m p b n ≡ (
        if ltb (m.blocks b).block_size n && not ((m.blocks b).next == 0)
        then first_fit fuel m b (m.blocks b).next n
        else (p, b))
unfolding first_fit
first_fit-suc fuel m p b n = refl

-- What the loop hands on, from (a, s) on: the block found, the one before it, and that a header changed in
-- the latter takes the former out of the chain.
pub record Walked (m : FreeList) (n a s : ℕ) (xs : Spans) (p q : ℕ) : Type 0 where
  pub at : q ≡ found m.end_block n xs
  pub size : (m.blocks q).block_size ≡ found_size n xs
  pub next : (m.blocks p).next ≡ q
  pub above : a ≤ p
  pub before : p < q
  pub unlinked :
      q < m.end_block
      → Chain (set_next m p (m.blocks q).next).blocks m.end_block ((a, s) ∷ removed n xs)

-- Every block but the end has a successor.
next_ne :
    (m : FreeList) (c t : ℕ) (xs : Spans)
    → IsSorted m.end_block ((c, t) ∷ xs)
    → head_or m.end_block xs ≢ 0
next_ne m c t [] so = omega arith
next_ne m c t ((d, u) ∷ xs) so = omega arith

unlink :
    (m : FreeList) (a s c t : ℕ) (xs : Spans)
    → m.blocks a ≡ block c s
    → m.blocks c ≡ block (head_or m.end_block xs) t
    → Chain m.blocks m.end_block xs
    → a + s < c
    → IsSorted m.end_block ((c, t) ∷ xs)
    → Chain (set_next m a (m.blocks c).next).blocks m.end_block ((a, s) ∷ xs)
unlink m a s c t xs ha hc cs ac so = (ground arith, go xs cs so)
  where
    go :
        (ys : Spans)
        → Chain m.blocks m.end_block ys
        → IsSorted m.end_block ((c, t) ∷ ys)
        → Chain (set_next m a (m.blocks c).next).blocks m.end_block ys
    go [] cs so = ground arith
    go ((d, u) ∷ ys) cs (cd, so) =
        Chain-above m.blocks (set_next m a (m.blocks c).next).blocks m.end_block d ((d, u) ∷ ys) so
          (omega arith) (λ x lo. ground arith) cs

set_next-other : (m : FreeList) (p k a : ℕ) → a < p → (set_next m p k).blocks a ≡ m.blocks a
set_next-other m p k a lt = ground arith

pub first_fit-Walked :
    (fuel : ℕ) (m : FreeList) (n a s : ℕ) (xs : Spans)
    → length xs < fuel
    → 0 < n
    → Chain m.blocks m.end_block ((a, s) ∷ xs)
    → IsSorted m.end_block ((a, s) ∷ xs)
    → (let r = first_fit fuel m a (head_or m.end_block xs) n in Walked m n a s xs r.0 r.1)
first_fit-Walked zero m n a s xs lt pos_n cs so = absurd (omega arith)
first_fit-Walked (suc fuel) m n a s [] lt pos_n (ha, he) so =
    let stop : first_fit (suc fuel) m a m.end_block n ≡ (a, m.end_block) =
      ground (arith, first_fit-suc fuel m a m.end_block n, he) in
    rw stop (record {
      at = refl;
      size = ground arith;
      next = ground arith;
      above = omega arith;
      before = omega arith;
      unlinked = λ lt. absurd (omega arith);
    })
first_fit-Walked (suc fuel) m n a s ((c, t) ∷ xs) lt pos_n (ha, (hc, cs)) (ac, so) =
    elim (Bool-cases (ltb t n)) [
      | inr fits ↦
          let stop : first_fit (suc fuel) m a c n ≡ (a, c) =
            ground (arith, first_fit-suc fuel m a c n, hc) in
          rw stop (record {
            at = ground arith;
            size = ground arith;
            next = ground arith;
            above = omega arith;
            before = omega arith;
            unlinked = λ lt. rw fits (unlink m a s c t xs ha hc cs ac so);
          })
      | inl small ↦
          let on : first_fit (suc fuel) m a c n ≡ first_fit fuel m c (head_or m.end_block xs) n =
            ground (arith, first_fit-suc fuel m a c n, hc, next_ne m c t xs so) in
          let r = first_fit fuel m c (head_or m.end_block xs) n in
          let rest = first_fit-Walked fuel m n c t xs (omega arith) pos_n (hc, cs) so in
          rw on (record {
            at = ground (arith, rest.at);
            size = ground (arith, rest.size);
            next = rest.next;
            above = omega (arith, rest.above);
            before = rest.before;
            unlinked = λ lt. rw small (
              set_next-other m r.0 (m.blocks r.1).next a (omega (arith, rest.above)) ∙ ha,
              rest.unlinked lt,
            );
          })
    ]

-- ===== src/FreeList/Insert.antt =====
-- insert_block of Kernel/drivers/freeListMemoryManager.c on the list of free blocks.
use tpe_so_2023_tp.Base.{
  ℕ, zero, suc, ◌+◌, ◌≤◌, ◌<◌, ◌≡◌, ◌≢◌, refl, sym, ap, ◌∙◌, arith, [], ◌∷◌, length, ◌==◌, ltb,
  if◌then◌else◌, Bool-cases, true, false, ◌&&◌, not, subst, inl, inr,
}
use tpe_so_2023_tp.FreeList.{MemoryBlock, FreeList, find_place, hang, insert_block}
use tpe_so_2023_tp.FreeList.Places.{
  place, insert, insert-head, insert-put, put, insert-IsSorted, insert-bytes_in,
}
use tpe_so_2023_tp.FreeList.Chain.{
  Spans, block, head_or, Chain, IsSorted, bytes_in, head-lt-end, length-le-end, Chain-above, Fits,
  Absent,
}

-- Every header after `hang`.
hang-blocks :
    (m : FreeList) (a b n s : ℕ)
    → m.blocks a ≡ block n s
    → a < n
    → a < b
    → b < n
    → (x : ℕ)
    → (hang m a b).blocks x ≡ (
        let sb = (m.blocks b).block_size in
        let behind = m.blocks n in
        if a + s == b
        then (if a == x
            then (if (a + (s + sb) == n) && not (n == m.end_block)
                then block behind.next (s + sb + behind.block_size)
                else block n (s + sb))
            else m.blocks x)
        else if a == x
        then block b s
        else if b == x
        then (if (b + sb == n) && not (n == m.end_block)
            then block behind.next (sb + behind.block_size)
            else block n sb)
        else m.blocks x)
unfolding hang
hang-blocks m a b n s ha an ab bn x = ground (arith, ha)

hang-others :
    (m : FreeList) (a b n s x : ℕ)
    → m.blocks a ≡ block n s
    → a < n
    → a < b
    → b < n
    → a ≢ x
    → b ≢ x
    → (hang m a b).blocks x ≡ m.blocks x
hang-others m a b n s x ha an ab bn ax bx = ground (arith, hang-blocks m a b n s ha an ab bn x)

-- What lies behind (c, t) does not notice changes up to c.
rest_above :
    (m : FreeList) (h : ℕ → MemoryBlock) (c t : ℕ) (xs : Spans)
    → IsSorted m.end_block ((c, t) ∷ xs)
    → ((x : ℕ) → c < x → h x ≡ m.blocks x)
    → Chain m.blocks m.end_block xs
    → Chain h m.end_block xs
rest_above m h c t [] so same cs = same m.end_block (omega arith) ∙ cs
rest_above m h c t ((d, u) ∷ xs) (cd, so) same cs =
    Chain-above m.blocks h m.end_block d ((d, u) ∷ xs) so (omega arith)
      (λ x lo. same x (omega arith)) cs

hang-Chain :
    (m : FreeList) (a s b sb : ℕ) (xs : Spans)
    → Chain m.blocks m.end_block ((a, s) ∷ xs)
    → IsSorted m.end_block ((a, s) ∷ xs)
    → (m.blocks b).block_size ≡ sb
    → a < b
    → a + s ≤ b
    → b < head_or m.end_block xs
    → b + sb ≤ head_or m.end_block xs
    → Chain (hang m a b).blocks m.end_block (place b sb a s xs)
hang-Chain m a s b sb [] (ha, he) so hb ab asb be fit =
    let at = hang-blocks m a b m.end_block s ha (omega arith) ab be in
    ground (arith, at a, at b, at m.end_block)
hang-Chain m a s b sb ((c, t) ∷ xs) (ha, (hc, hs)) (ac, so) hb ab asb be fit =
    let at = hang-blocks m a b c s ha (omega arith) ab be in
    let same : (x : ℕ) → c ≤ x → (hang m a b).blocks x ≡ m.blocks x =
      λ x lo. hang-others m a b c s x ha (omega arith) ab be (omega arith) (omega arith) in
    let all =
      Chain-above m.blocks (hang m a b).blocks m.end_block c ((c, t) ∷ xs) so (omega arith) same
        (hc, hs) in
    let behind = rest_above m (hang m a b).blocks c t xs so (λ x lo. same x (omega arith)) hs in
    let ce = head-lt-end m.end_block c t xs so in
    elim (Bool-cases (a + s == b)) [
      | inl t1 ↦ elim (Bool-cases (a + (s + sb) == c)) [
        | inl t2 ↦ rw (t1, t2) ((ground (arith, at a), behind))
        | inr f2 ↦ rw (t1, f2) ((ground (arith, at a), all))
      ]
      | inr f1 ↦ elim (Bool-cases (b + sb == c)) [
        | inl t2 ↦ rw (f1, t2) ((ground (arith, at a), (ground (arith, at b), behind)))
        | inr f2 ↦ rw (f1, f2) ((ground (arith, at a), (ground (arith, at b), all)))
      ]
    ]

find_place-suc :
    (fuel : ℕ) (m : FreeList) (a b : ℕ)
    → find_place (suc fuel) m a b
      ≡ (if ltb (m.blocks a).next b then find_place fuel m (m.blocks a).next b else a)
unfolding find_place
find_place-suc fuel m a b = refl

-- From a block before it on, the loop finds the place, and nothing below that block is written.
find_place-Chain :
    (fuel : ℕ) (m : FreeList) (a s b sb : ℕ) (xs : Spans)
    → length xs < fuel
    → Chain m.blocks m.end_block ((a, s) ∷ xs)
    → IsSorted m.end_block ((a, s) ∷ xs)
    → (m.blocks b).block_size ≡ sb
    → a < b
    → a + s ≤ b
    → Fits m.end_block b sb xs
    → (let after = (hang m (find_place fuel m a b) b).blocks in
        Chain after m.end_block (insert b sb a s xs) × ((x : ℕ) → x < a → after x ≡ m.blocks x))
unfolding insert
find_place-Chain zero m a s b sb xs lt cs so hb ab asb fits = absurd (omega arith)
find_place-Chain (suc fuel) m a s b sb [] lt (ha, he) so hb ab asb (be, fit) =
    let stop : find_place (suc fuel) m a b ≡ a = ground (arith, find_place-suc fuel m a b, ha) in
    rw stop (
      hang-Chain m a s b sb [] (ha, he) so hb ab asb be fit,
      λ x lo. hang-others m a b m.end_block s x ha (omega arith) ab be (omega arith) (omega arith),
    )
find_place-Chain (suc fuel) m a s b sb ((c, t) ∷ xs) lt (ha, cs) (ac, so) hb ab asb
      (inl (bc, fit)) =
    let stop : find_place (suc fuel) m a b ≡ a = ground (arith, find_place-suc fuel m a b, ha) in
    let here : ltb c b ≡ false = ground arith in
    rw (stop, here)
      (
        hang-Chain m a s b sb ((c, t) ∷ xs) (ha, cs) (ac, so) hb ab asb bc fit,
        λ x lo. hang-others m a b c s x ha (omega arith) ab bc (omega arith) (omega arith),
      )
find_place-Chain (suc fuel) m a s b sb ((c, t) ∷ xs) lt (ha, cs) (ac, so) hb ab asb
      (inr (cb, ctb, fits)) =
    let go : find_place (suc fuel) m a b ≡ find_place fuel m c b =
      ground (arith, find_place-suc fuel m a b, ha) in
    let on : ltb c b ≡ true = ground arith in
    let (chain, below) = find_place-Chain fuel m c t b sb xs (omega arith) cs so hb cb ctb fits in
    rw (go, on)
      (
        (
          below a (omega arith)
              ∙ ha
              ∙ ap (λ k. block k s) (sym (insert-head m.end_block b sb c t xs)),
          chain,
        ),
        λ x lo. below x (omega arith),
      )

-- Only headers change.
hang-fields : (m : FreeList) (a b : ℕ) → hang m a b ≡ record m { blocks = (hang m a b).blocks }
unfolding hang
hang-fields m a b = ground arith

pub insert_block-fields :
    (m : FreeList) (b : ℕ) → insert_block m b ≡ record m { blocks = (insert_block m b).blocks }
unfolding insert_block
insert_block-fields m b = hang-fields m (find_place (suc m.end_block) m m.start_block b) b

pub insert_block-Chain :
    (m : FreeList) (b sb : ℕ) (xs : Spans)
    → Chain m.blocks m.end_block ((m.start_block, 0) ∷ xs)
    → IsSorted m.end_block ((m.start_block, 0) ∷ xs)
    → (m.blocks b).block_size ≡ sb
    → m.start_block < b
    → Fits m.end_block b sb xs
    → Chain (insert_block m b).blocks m.end_block ((m.start_block, 0) ∷ put b sb xs)
      × IsSorted m.end_block ((m.start_block, 0) ∷ put b sb xs)
      × (bytes_in (put b sb xs) ≡ sb + bytes_in xs)
unfolding insert_block
insert_block-Chain m b sb xs cs so hb lt fits =
    let rounds : length xs < suc m.end_block =
      omega (arith, length-le-end m.end_block m.start_block 0 xs so) in
    let (chain, below) =
      find_place-Chain (suc m.end_block) m m.start_block 0 b sb xs rounds cs so hb lt (omega arith)
        fits in
    let sorted = insert-IsSorted m.end_block b sb m.start_block 0 xs so (omega arith) fits in
    let bytes = insert-bytes_in b sb m.start_block 0 xs in
    let same = insert-put b sb m.start_block xs lt in
    (
      subst (λ ys. Chain (insert_block m b).blocks m.end_block ys) same chain,
      subst (λ ys. IsSorted m.end_block ys) same sorted,
      omega (arith, sym (ap bytes_in same) ∙ bytes),
    )

hang-elsewhere : (m : FreeList) (a b x : ℕ) → a ≢ x → b ≢ x → (hang m a b).blocks x ≡ m.blocks x
unfolding hang
hang-elsewhere m a b x ax bx = ground arith

find_place-ne :
    (fuel : ℕ) (m : FreeList) (a s b x : ℕ) (xs : Spans)
    → Chain m.blocks m.end_block ((a, s) ∷ xs)
    → b < m.end_block
    → a ≢ x
    → Absent x xs
    → find_place fuel m a b ≢ x
unfolding find_place
find_place-ne zero m a s b x xs cs be ax absent = ax
find_place-ne (suc fuel) m a s b x [] (ha, he) be ax absent = ground arith
find_place-ne (suc fuel) m a s b x ((c, t) ∷ xs) (ha, cs) be ax (cx, absent) =
    let rest = find_place-ne fuel m c t b x xs cs be cx absent in ground (arith, rest)

-- A header that is no span's, nor that of the block, stays.
pub insert_block-elsewhere :
    (m : FreeList) (b x : ℕ) (xs : Spans)
    → Chain m.blocks m.end_block ((m.start_block, 0) ∷ xs)
    → b < m.end_block
    → m.start_block ≢ x
    → b ≢ x
    → Absent x xs
    → (insert_block m b).blocks x ≡ m.blocks x
unfolding insert_block
insert_block-elsewhere m b x xs cs be sx bx absent =
    hang-elsewhere m (find_place (suc m.end_block) m m.start_block b) b x
      (find_place-ne (suc m.end_block) m m.start_block 0 b x xs cs be sx absent) bx

-- ===== src/FreeList/Chain.antt =====
-- What the list of free blocks of Kernel/drivers/freeListMemoryManager.c holds, as addresses and sizes.
use tpe_so_2023_tp.Base.{
  ℕ, ◌+◌, ◌≤◌, ◌<◌, ◌≡◌, ◌∙◌, arith, List, [], ◌∷◌, length, update, All, ◌≢◌, inl, inr, ◌⊎◌, ◌^◌,
}
use tpe_so_2023_tp.FreeList.{MemoryBlock, FreeList}

-- Address and size of each block.
abbrev pub Spans : Type 0
Spans = List (ℕ × ℕ)

abbrev pub block : ℕ → ℕ → MemoryBlock
block p s = record { next = p; block_size = s }

abbrev pub head_or : ℕ → Spans → ℕ
head_or e [] = e
head_or e ((a, s) ∷ xs) = a

-- The headers link the spans, one after the other, and then the end, which has no size and no successor.
abbrev pub Chain : (ℕ → MemoryBlock) → ℕ → Spans → Type 0
Chain h e [] = h e ≡ block 0 0
Chain h e ((a, s) ∷ xs) = (h a ≡ block (head_or e xs) s) × Chain h e xs

-- By address, each ending before the next begins, with used memory between them.
abbrev pub IsSorted : ℕ → Spans → Type 0
IsSorted e [] = Unit {0}
IsSorted e ((a, s) ∷ []) = (a + s ≤ e) × (a < e)
IsSorted e ((a, s) ∷ (c, t) ∷ xs) = (a + s < c) × IsSorted e ((c, t) ∷ xs)

abbrev pub bytes_in : Spans → ℕ
bytes_in [] = 0
bytes_in ((a, s) ∷ xs) = s + bytes_in xs

pub head-le-end : (e a s : ℕ) (xs : Spans) → IsSorted e ((a, s) ∷ xs) → a + s ≤ e
head-le-end e a s [] h = h.0
head-le-end e a s ((c, t) ∷ xs) (lt, h) = omega (arith, head-le-end e c t xs h)

pub head-lt-end : (e a s : ℕ) (xs : Spans) → IsSorted e ((a, s) ∷ xs) → a < e
head-lt-end e a s [] h = h.1
head-lt-end e a s ((c, t) ∷ xs) (lt, h) = omega (arith, head-lt-end e c t xs h)

pub tail-IsSorted : (e a s : ℕ) (xs : Spans) → IsSorted e ((a, s) ∷ xs) → IsSorted e xs
tail-IsSorted e a s [] so = tt
tail-IsSorted e a s ((c, t) ∷ xs) so = so.1

-- There are no more spans than addresses up to the end.
pub length-le-end : (e a s : ℕ) (xs : Spans) → IsSorted e ((a, s) ∷ xs) → a + length xs ≤ e
length-le-end e a s [] h = omega arith
length-le-end e a s ((c, t) ∷ xs) (lt, h) = omega (arith, length-le-end e c t xs h)

-- A chain survives changes below its first address.
pub Chain-above :
    (h h' : ℕ → MemoryBlock) (e lo : ℕ) (xs : Spans)
    → IsSorted e xs
    → lo ≤ head_or e xs
    → ((a : ℕ) → lo ≤ a → h' a ≡ h a)
    → Chain h e xs
    → Chain h' e xs
Chain-above h h' e lo [] so lt same c = same e lt ∙ c
Chain-above h h' e lo ((a, s) ∷ []) so lt same (c, last) =
    (same a lt ∙ c, same e (omega arith) ∙ last)
Chain-above h h' e lo ((a, s) ∷ (b, t) ∷ xs) (ab, so) lt same (c, cs) =
    (same a lt ∙ c, Chain-above h h' e lo ((b, t) ∷ xs) so (omega arith) same cs)

-- A block overlaps no span, and ends where the heap ends at the latest.
abbrev pub Fits : ℕ → ℕ → ℕ → Spans → Type 0
Fits e b sb [] = (b < e) × (b + sb ≤ e)
Fits e b sb ((c, t) ∷ xs) = ((b < c) × (b + sb ≤ c)) ⊎ ((c < b) × (c + t ≤ b) × Fits e b sb xs)

pub Fits-end : (e b sb : ℕ) (xs : Spans) → IsSorted e xs → Fits e b sb xs → (b < e) × (b + sb ≤ e)
Fits-end e b sb [] so fits = fits
Fits-end e b sb ((c, t) ∷ xs) so (inl (bc, fit)) =
    (omega (arith, head-lt-end e c t xs so), omega (arith, head-le-end e c t xs so))
Fits-end e b sb ((c, t) ∷ xs) so (inr (cb, ctb, fits)) =
    Fits-end e b sb xs (tail-IsSorted e c t xs so) fits

-- A chain survives changes inside a block that it does not overlap.
pub Chain-outside :
    (h h' : ℕ → MemoryBlock) (e b sb : ℕ) (xs : Spans)
    → IsSorted e xs
    → Fits e b sb xs
    → ((a : ℕ) → (a < b) ⊎ (b + sb ≤ a) → h' a ≡ h a)
    → Chain h e xs
    → Chain h' e xs
Chain-outside h h' e b sb [] so (be, fit) same c = same e (inr fit) ∙ c
Chain-outside h h' e b sb ((c, t) ∷ xs) so (inl (bc, fit)) same cs =
    Chain-above h h' e (b + sb) ((c, t) ∷ xs) so fit (λ a lo. same a (inr lo)) cs
Chain-outside h h' e b sb ((c, t) ∷ xs) so (inr (cb, ctb, fits)) same (hc, cs) =
    (same c (inl cb) ∙ hc, Chain-outside h h' e b sb xs (tail-IsSorted e c t xs so) fits same cs)

-- The address of no span.
abbrev pub Absent : ℕ → Spans → Type 0
Absent x xs = All (λ span. span.0 ≢ x) xs

Absent-below :
    (e x c t : ℕ) (xs : Spans) → x < c → IsSorted e ((c, t) ∷ xs) → Absent x ((c, t) ∷ xs)
Absent-below e x c t [] lt so = (omega arith, tt)
Absent-below e x c t ((d, u) ∷ xs) lt (cd, so) =
    (omega arith, Absent-below e x d u xs (omega arith) so)

-- A block that overlaps no span is not one of them.
pub Fits-Absent : (e x k : ℕ) (xs : Spans) → IsSorted e xs → Fits e x k xs → Absent x xs
Fits-Absent e x k [] so fits = tt
Fits-Absent e x k ((c, t) ∷ xs) so (inl (xc, fit)) = Absent-below e x c t xs xc so
Fits-Absent e x k ((c, t) ∷ xs) so (inr (cx, ctx, fits)) =
    (omega arith, Fits-Absent e x k xs (tail-IsSorted e c t xs so) fits)

pub Chain-update :
    (h : ℕ → MemoryBlock) (e x : ℕ) (v : MemoryBlock) (xs : Spans)
    → e ≢ x
    → Absent x xs
    → Chain h e xs
    → Chain (update h x v) e xs
Chain-update h e x v [] ex absent c = ground arith
Chain-update h e x v ((c, t) ∷ xs) ex (cx, absent) (hc, cs) =
    (ground arith, Chain-update h e x v xs ex absent cs)

-- The free list of a heap: the start block, which has no bytes, the free blocks, and the end.
pub record IsHeap (m : FreeList) (xs : Spans) : Type 0 where
  pub links : Chain m.blocks m.end_block ((m.start_block, 0) ∷ xs)
  pub order : IsSorted m.end_block ((m.start_block, 0) ∷ xs)
  pub bytes : m.used_mem + bytes_in xs ≡ m.total_mem
  pub within : m.total_mem ≤ m.end_block
  pub half : m.end_block < 2 ^ 63
  pub bit : m.allocated_bit ≡ 2 ^ 63

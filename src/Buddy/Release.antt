-- ===== src/Buddy/Release.antt =====
-- What mm_free of Kernel/drivers/buddyMemoryManager.c does at the block that it found.
use tpe_so_2023_tp.Base.{
  ℕ, ◌+◌, ◌^◌, ◌<◌, ◌≡◌, inl, inr, refl, subst, arith, Bool, true, false, ◌||◌, ◌==◌, if◌then◌else◌,
  Bool-cases, List, [], ◌∷◌, length,
}
use tpe_so_2023_tp.Buddy.{Buddy, update_parents, freed_node}
use tpe_so_2023_tp.Buddy.Tree.{is_below, above_comparable, set_used_lem, update_parents_lem}
use tpe_so_2023_tp.Buddy.Live.{IsTree, covered, count_below, AllApart, count_below-le}

-- No node handed out is another or lies above or below it.
abbrev pub AreApart : List ℕ → Type 0
AreApart [] = Unit {0}
AreApart (l ∷ live) = AllApart l live × AreApart live

abbrev pub contains : ℕ → List ℕ → Bool
contains i [] = false
contains i (l ∷ live) = (l == i) || contains i live

abbrev pub remove : ℕ → List ℕ → List ℕ
remove i [] = []
remove i (l ∷ live) = if l == i then live else l ∷ remove i live

covered-apart :
    (i j : ℕ) (live : List ℕ) → AllApart i live → is_below 15 j i ≡ true → covered j live ≡ false
covered-apart i j [] a h = refl
covered-apart i j (l ∷ live) (il, li, a) h =
    ground (arith, above_comparable 15 j i l h, covered-apart i j live a h)

pub covered-remove :
    (i j : ℕ) (live : List ℕ)
    → contains i live ≡ true
    → covered j live ≡ (is_below 15 j i || covered j (remove i live))
covered-remove i j [] h = absurd (ground arith)
covered-remove i j (l ∷ live) h = ground (arith, covered-remove i j live)

count_below-remove :
    (i j : ℕ) (live : List ℕ)
    → contains i live ≡ true
    → count_below j live ≡ (if is_below 15 i j then 1 else 0) + count_below j (remove i live)
count_below-remove i j [] h = absurd (ground arith)
count_below-remove i j (l ∷ live) h = ground (arith, count_below-remove i j live)

AllApart-contains :
    (i l : ℕ) (live : List ℕ)
    → AllApart l live
    → contains i live ≡ true
    → (is_below 15 l i ≡ false) × (is_below 15 i l ≡ false)
AllApart-contains i l [] a h = absurd (ground arith)
AllApart-contains i l (m ∷ live) (lm, ml, a) h = elim (Bool-cases (m == i)) [
  | inl same ↦ (ground arith, ground arith)
  | inr other ↦ AllApart-contains i l live a (ground arith)
]

pub AreApart-remove :
    (i : ℕ) (live : List ℕ) → AreApart live → contains i live ≡ true → AllApart i (remove i live)
AreApart-remove i [] a h = absurd (ground arith)
AreApart-remove i (l ∷ live) (al, a) h = elim (Bool-cases (l == i)) [
  | inl same ↦ rw same (subst (λ x. AllApart x live) (ground arith) al)
  | inr other ↦
      let (above, below) = AllApart-contains i l live al (ground arith) in
      rw other (below, above, AreApart-remove i live a (ground arith))
]

-- Where the tree says what a list of nodes handed out says, none of which is another or lies above or
-- below it, what mm_free does at one of them leaves a tree that says the same of the list without it.
pub freed_node-IsTree :
    (b : Buddy) (live : List ℕ) (i level : ℕ)
    → IsTree b live
    → AreApart live
    → contains i live ≡ true
    → length live < 2 ^ 32
    → IsTree (freed_node b i level) (remove i live)
freed_node-IsTree b live i level t a h few =
    let b1 = update_parents b i false in
    record {
      used = λ j lt. ground (
        arith,
        (set_used_lem b1 i 0 j lt).0,
        (update_parents_lem b i false j).0,
        t.used j lt,
        covered-remove i j live h,
        covered-apart i j (remove i live) (AreApart-remove i live a h),
      );
      subnodes = λ j lt. ground (
        arith,
        (set_used_lem b1 i 0 j lt).1,
        (update_parents_lem b i false j).1,
        t.subnodes j lt,
        count_below-le j live,
        count_below-remove i j live h,
      );
    }

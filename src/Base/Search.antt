-- ===== src/Base/Search.antt =====
-- The loop `for (i = start; i < start + n; i++) if (test(i)) return i; return -1;` over a table.
use Prim.Native.Nat.{ℕ, zero, suc, ◌+◌, ◌≤◌, ◌<◌}
use mathlib.Core.Path.{◌≡◌, refl, ap, ◌∙◌}
use mathlib.Core.Bool.{Bool, true, false}
use native.Mathlib.Omega.{arith}
use native.Mathlib.Decide.{ℕ_discrete, dec_lt}
use mathlib.Core.Logic.{inl, inr}
use tpe_so_2023_tp.Base.Tests.{if◌then◌else◌, Bool-cases}
use tpe_so_2023_tp.Base.Int.{ℤ, pos, minus_one}

unfoldable pub first_index : ℕ → ℕ → (ℕ → Bool) → ℤ
first_index zero i test = minus_one
first_index (suc n) i test = let rest = first_index n (i + 1) test in if test i then pos i else rest

-- What the search returns: the first index that passes the test, or -1 when none does.
pub data FirstIndex (lo hi : ℕ) (test : ℕ → Bool) (r : ℤ) : Type 0 where
  found :
      (i : ℕ)
      → lo ≤ i
      → i < hi
      → r ≡ pos i
      → test i ≡ true
      → ((j : ℕ) → lo ≤ j → j < i → test j ≡ false)
      → FirstIndex lo hi test r
  missing : r ≡ minus_one → ((j : ℕ) → lo ≤ j → j < hi → test j ≡ false) → FirstIndex lo hi test r

also_before :
    (test : ℕ → Bool) (i k : ℕ)
    → test i ≡ false
    → ((j : ℕ) → i + 1 ≤ j → j < k → test j ≡ false)
    → (j : ℕ) → i ≤ j
    → j < k
    → test j ≡ false
also_before test i k f h j lo hi = elim (ℕ_discrete j i) [
  | yes same ↦ ground arith
  | no other ↦ h j (omega arith) hi
]

pub first_index-FirstIndex :
    (n i hi : ℕ) (test : ℕ → Bool) → i + n ≡ hi → FirstIndex i hi test (first_index n i test)
unfolding first_index
first_index-FirstIndex zero i hi test e = missing refl (λ j lo h. absurd (omega arith))
first_index-FirstIndex (suc n) i hi test e = elim (Bool-cases (test i)) [
  | inl t ↦ found i (omega arith) (omega arith) (ground arith) t (λ j lo h. absurd (omega arith))
  | inr f ↦ rw f (elim (first_index-FirstIndex n (i + 1) hi test (omega arith)) [
    | found k lo h e' t before ↦ found k (omega arith) h e' t (also_before test i k f before)
    | missing e' none_passes ↦ missing e' (also_before test i hi f none_passes)
  ])
]

-- An index that passes, with none before it that does, is the result.
pub FirstIndex-eq :
    {lo hi : ℕ} {test : ℕ → Bool} {r : ℤ} (i : ℕ)
    → FirstIndex lo hi test r
    → lo ≤ i
    → i < hi
    → test i ≡ true
    → ((j : ℕ) → lo ≤ j → j < i → test j ≡ false)
    → r ≡ pos i
FirstIndex-eq {test = test} i (found k lo hi e t before) li hi' ti before' = elim (dec_lt k i) [
  | yes less ↦ absurd (ground (arith, before' k lo less))
  | no more ↦ elim (dec_lt i k) [
    | yes less ↦ absurd (ground (arith, before i li less))
    | no same ↦ e ∙ ap pos (omega arith)
  ]
]
FirstIndex-eq i (missing e none_passes) li hi' ti before' =
    absurd (ground (arith, none_passes i li hi'))

pub FirstIndex-none :
    {lo hi : ℕ} {test : ℕ → Bool} {r : ℤ}
    → FirstIndex lo hi test r
    → ((j : ℕ) → lo ≤ j → j < hi → test j ≡ false)
    → r ≡ minus_one
FirstIndex-none (found k lo hi e t before) fails = absurd (ground (arith, fails k lo hi))
FirstIndex-none (missing e none_passes) fails = e

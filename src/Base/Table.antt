-- ===== src/Base/Table.antt =====
-- C arrays with a fixed number of entries, as functions of the index. An access that the code does
-- not guard is shown to be in range where it matters.
use Prim.Native.Nat.{ℕ}
use tpe_so_2023_tp.Base.Tests.{◌==◌, if◌then◌else◌}

module _ {ℓ} {A : Type ℓ} where
  -- `t[i] = v`
  abbrev pub update : (ℕ → A) → ℕ → A → ℕ → A
  update t i v j = if i == j then v else t j

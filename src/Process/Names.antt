-- ===== src/Process/Names.antt =====
-- valid_name of Kernel/processes/process.c: which names a process may have.
use tpe_so_2023_tp.Base.{ℕ, zero, suc, ◌+◌, ◌≡◌, arith, List, [], ◌∷◌, ltb, some}
use tpe_so_2023_tp.Text.{strlen}
use tpe_so_2023_tp.Process.{valid_name, name_from}

name_from-strlen : (n i : ℕ) (name : List ℕ) → name_from n i name ≡ ltb (strlen name) n
unfolding name_from strlen
name_from-strlen zero i name = ground arith
name_from-strlen (suc n) i [] = ground arith
name_from-strlen (suc n) i (c ∷ name) = ground (arith, name_from-strlen n (i + 1) name)

-- valid_name accepts a name exactly when it is shorter than 16 characters, whatever they are: no
-- character is both below 'A' and above 'Z', so the test of the characters rejects none.
pub valid_name-strlen : (name : List ℕ) → valid_name (some name) ≡ ltb (strlen name) 16
unfolding valid_name
valid_name-strlen name = name_from-strlen 16 0 name

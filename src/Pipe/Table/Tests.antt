-- ===== src/Pipe/Table/Tests.antt =====
-- Runs of the pipes' tables, and their theorems at such inputs.
use tpe_so_2023_tp.Base.{
  ℕ, ◌≡◌, ◌<◌, refl, arith, List, [], ◌∷◌, true, false, some, pos, first_index,
}
use tpe_so_2023_tp.Text.{strcmp, strlen, isalpha, isalnum}
use tpe_so_2023_tp.Pipe.Table.{
  pipe_create, pipe_open, find_free_pipe, is_name_valid, all_alnum, has_name,
}
use tpe_so_2023_tp.Pipe.Table.Open.{Opens, pipe_open-Opens}
use tpe_so_2023_tp.Pipe.Table.Descriptors.{OnlyOf}
use tpe_so_2023_tp.Sample.{kernel}

abbrev other : List ℕ
other = b'q' ∷ b'2' ∷ []

next_pipe : find_free_pipe kernel ≡ pos 1
unfolding find_free_pipe first_index
next_pipe = refl

other_new : (j : ℕ) → j < 32 → has_name kernel other j ≡ false
unfolding strcmp
other_new j h = ground arith

other_valid : is_name_valid (some other) ≡ true
unfolding is_name_valid all_alnum strlen isalpha isalnum
other_valid = refl

pipe_open-Opens_example : Opens kernel 2050 (pipe_create kernel) (pipe_open kernel 2050)
pipe_open-Opens_example = pipe_open-Opens kernel 2050 (omega arith) other_new other_valid

only_pipe_0 : OnlyOf kernel (pos 0) (pos 2) (pos 3)
only_pipe_0 j h e = ground arith

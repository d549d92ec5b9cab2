-- ===== src/Pipe/Callbacks/Tests.antt =====
-- Runs of the pipes' callbacks, and their theorems at such inputs.
use tpe_so_2023_tp.Base.{◌≡◌, refl, arith, [], ◌∷◌, some, pos, first_index}
use tpe_so_2023_tp.Pipe.Buffer.Ring.{IsRing}
use tpe_so_2023_tp.Pipe.Table.{get_pipe_fd}
use tpe_so_2023_tp.Pipe.Table.Descriptors.{OnlyOf}
use tpe_so_2023_tp.Pipe.Callbacks.{read_callback, write_callback, crashes}
use tpe_so_2023_tp.Pipe.Callbacks.Transfer.{Writes, write_callback_lem}
use tpe_so_2023_tp.Pipe.Callbacks.Receive.{Reads, read_callback_lem}
use tpe_so_2023_tp.Pipe.Callbacks.Closing.{close_callback}
use tpe_so_2023_tp.Pipe.Callbacks.Closing.Orphan.{last_writer_crashes}
use tpe_so_2023_tp.Sample.{kernel, writing, pipe}

pipe-IsRing : IsRing pipe
pipe-IsRing = record {
  block = refl;
  small = omega arith;
  fits = omega arith;
  start = omega arith;
  inside = λ h. omega arith;
}

writing_found : get_pipe_fd kernel (pos 2) (pos 3) ≡ some writing
unfolding get_pipe_fd first_index
writing_found = refl

write_callback_lem_example :
    Writes kernel.core
      (pos 2)
      (pos 0)
      pipe
      (1 ∷ 2 ∷ 3 ∷ [])
      (write_callback kernel (pos 2) (pos 3) (1 ∷ 2 ∷ 3 ∷ []))
write_callback_lem_example =
    write_callback_lem kernel (pos 2) (pos 3) writing pipe (1 ∷ 2 ∷ 3 ∷ []) writing_found refl
      pipe-IsRing (omega arith) (omega arith)

read_callback_lem_example :
    Reads kernel.core (pos 2) (pos 0) pipe 2 (read_callback kernel (pos 2) (pos 3) 2)
read_callback_lem_example =
    read_callback_lem kernel (pos 2) (pos 3) writing pipe 2 writing_found refl pipe-IsRing

only_pipe_0 : OnlyOf kernel (pos 0) (pos 2) (pos 3)
only_pipe_0 j h e = ground arith

last_writer_crashes_example : close_callback 0 kernel (pos 2) (pos 3) ≡ crashes
last_writer_crashes_example =
    last_writer_crashes 0 kernel (pos 2) (pos 3) writing pipe writing_found refl refl refl refl
      only_pipe_0

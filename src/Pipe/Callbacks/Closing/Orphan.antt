-- ===== src/Pipe/Callbacks/Closing/Orphan.antt =====
-- close_callback of Kernel/ipc/pipe.c, when the descriptor that is closed is the last writer's.
use tpe_so_2023_tp.Base.{ℕ, ◌≡◌, refl, [], ◌∷◌, some, none, ℤ, pos, ◌==ℤ◌, false, true}
use tpe_so_2023_tp.Kernel.{Kernel, PipeFd}
use tpe_so_2023_tp.Pipe.Buffer.{Pipe}
use tpe_so_2023_tp.Pipe.Table.{get_pipe, get_pipe_fd, put_pipe}
use tpe_so_2023_tp.Pipe.Table.Descriptors.{OnlyOf, emptied_not_found}
use tpe_so_2023_tp.Pipe.Callbacks.{crashes, write_callback, with_pipe}
use tpe_so_2023_tp.Pipe.Callbacks.Closing.{
  close_callback, close_writer, esc, on_pipe, decr, close_found,
}

write_callback-crashes :
    (k : Kernel) (pid fd : ℤ)
    → get_pipe_fd k pid fd ≡ none
    → write_callback k pid fd (esc ∷ []) ≡ crashes
unfolding write_callback
write_callback-crashes k pid fd e = rw (write_callback, with_pipe, e) refl

close_writer-crashes :
    (outside : ℕ) (k : Kernel) (pid fd id : ℤ) (p : Pipe)
    → get_pipe k id ≡ some p
    → p.writers ≡ 1
    → OnlyOf k id pid fd
    → close_writer outside k pid fd id ≡ crashes
unfolding close_writer
close_writer-crashes outside k pid fd id p there last only =
    let k1 = put_pipe k id (some (record p { writers = decr p.writers })) in
    let gone = write_callback-crashes _ pid fd (emptied_not_found k1 id pid fd only) in
    rw (close_writer, on_pipe, there) (rw gone (rw last refl))

close_found-crashes :
    (outside : ℕ) (k : Kernel) (pid fd : ℤ) (d : PipeFd) (p : Pipe)
    → (d.allow_rd ==ℤ pos 0) ≡ true
    → (d.allow_wr ==ℤ pos 0) ≡ false
    → close_writer outside k pid fd d.pipe_id ≡ crashes
    → close_found outside k pid fd d p ≡ crashes
unfolding close_found
close_found-crashes outside k pid fd d p no_rd wr crash = rw (close_found, wr, no_rd) crash

-- Closing a write-only descriptor whose pipe has no other writer makes the code read through NULL:
-- the descriptor is taken off the table, and then write_callback looks for it there to write the
-- escape that ends the stream.
pub last_writer_crashes :
    (outside : ℕ) (k : Kernel) (pid fd : ℤ) (d : PipeFd) (p : Pipe)
    → get_pipe_fd k pid fd ≡ some d
    → get_pipe k d.pipe_id ≡ some p
    → (d.allow_rd ==ℤ pos 0) ≡ true
    → (d.allow_wr ==ℤ pos 0) ≡ false
    → p.writers ≡ 1
    → OnlyOf k d.pipe_id pid fd
    → close_callback outside k pid fd ≡ crashes
unfolding close_callback
last_writer_crashes outside k pid fd d p found there no_rd wr last only =
    rw (close_callback, found, on_pipe, there)
      (close_found-crashes outside k pid fd d p no_rd wr
        (close_writer-crashes outside k pid fd d.pipe_id p there last only))

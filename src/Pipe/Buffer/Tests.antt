-- ===== src/Pipe/Buffer/Tests.antt =====
-- Runs of a pipe's ring, and its theorems at such inputs.
use tpe_so_2023_tp.Base.{
  ℕ, ◌+◌, ◌*◌, ◌≡◌, refl, arith, List, [], ◌∷◌, some, pos, negsuc, length, Outcome, returned, fault,
}
use tpe_so_2023_tp.Scheduler.{ready}
use tpe_so_2023_tp.Queue.{Core, QueueAdt, queue_unblock_all, free_rec}
use tpe_so_2023_tp.Pipe.Buffer.{
  Pipe, overwrite, moved, grow, put_bytes, round_up_buffer_size, read_pipe_buffer,
  write_pipe_buffer,
}
use tpe_so_2023_tp.Pipe.Buffer.Ring.{IsRing, contents}
use tpe_so_2023_tp.Pipe.Buffer.Read.{ReadsOldest, read_pipe_buffer_lem}
use tpe_so_2023_tp.Pipe.Buffer.Write.{Appends, write_pipe_buffer_lem}

abbrev core : Core
core = record {
  memory = record { answer = λ cs _. 4096 + 32 * length cs; calls = [] };
  scheduler = record {
    kernel_rsp = 0;
    processes_states = λ _. record { priority = pos 0; exit_status = 0; status = ready; rsp = 1 };
    current_running_pid = pos 1;
    force_next_pid = negsuc 1;
    quantums = 3;
  };
}

abbrev no_waiters : QueueAdt
no_waiters = record { addr = 8; first = []; last = 0; count = 0 }

abbrev fresh : Pipe
fresh = record {
  addr = 16;
  buffer_at = 0;
  buffer = [];
  size = 0;
  read_idx = 0;
  bytes_to_read = 0;
  readers = 1;
  writers = 1;
  rd_q = some no_waiters;
  wr_q = some no_waiters;
  name = 0;
}

-- 7, 8 and 9 wait, round the end of a ring of 4 places.
abbrev wrapped : Pipe
wrapped = record fresh {
  buffer_at = 64;
  buffer = 8 ∷ 9 ∷ 0 ∷ 7 ∷ [];
  size = 4;
  read_idx = 3;
  bytes_to_read = 3;
}

fresh-IsRing : IsRing fresh
fresh-IsRing = record {
  block = refl;
  small = omega arith;
  fits = omega arith;
  start = omega arith;
  inside = λ h. absurd (h refl);
}

wrapped-IsRing : IsRing wrapped
wrapped-IsRing = record {
  block = refl;
  small = omega arith;
  fits = omega arith;
  start = omega arith;
  inside = λ h. omega arith;
}

contents-wrapped : contents wrapped ≡ 7 ∷ 8 ∷ 9 ∷ []
contents-wrapped = refl

abbrev bytes_of : Outcome (ℕ × Core × Pipe) → List ℕ
bytes_of fault = []
bytes_of (returned (_, _, p)) = contents p

write_wraps : bytes_of (write_pipe_buffer core wrapped (1 ∷ [])) ≡ 7 ∷ 8 ∷ 9 ∷ 1 ∷ []
unfolding write_pipe_buffer grow put_bytes overwrite queue_unblock_all free_rec
write_wraps = refl

write_grows :
    bytes_of (write_pipe_buffer core wrapped (1 ∷ 2 ∷ 3 ∷ [])) ≡ 7 ∷ 8 ∷ 9 ∷ 1 ∷ 2 ∷ 3 ∷ []
unfolding write_pipe_buffer grow put_bytes overwrite moved round_up_buffer_size queue_unblock_all
    free_rec
write_grows = refl

round_up_runs : round_up_buffer_size 600 ≡ 1024
unfolding round_up_buffer_size
round_up_runs = refl

read_pipe_buffer_lem_example : ReadsOldest core wrapped 2 (read_pipe_buffer core wrapped 2)
read_pipe_buffer_lem_example = read_pipe_buffer_lem core wrapped 2 wrapped-IsRing

write_pipe_buffer_lem_example :
    Appends core
      (grow core wrapped 3).1
      wrapped
      (1 ∷ 2 ∷ 3 ∷ [])
      (write_pipe_buffer core wrapped (1 ∷ 2 ∷ 3 ∷ []))
write_pipe_buffer_lem_example =
    write_pipe_buffer_lem core wrapped (1 ∷ 2 ∷ 3 ∷ []) wrapped-IsRing (omega arith) (omega arith)

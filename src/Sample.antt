-- ===== src/Sample.antt =====
-- A kernel on which the theorems about Kernel/processes/process.c and Kernel/ipc/pipe.c are tried: process 2
-- has its output on the screen and its descriptors 0 and 3 on pipe 0, which holds three bytes.
use tpe_so_2023_tp.Base.{
  ◌+◌, ◌*◌, [], ◌∷◌, some, none, ℤ, pos, negsuc, length, Outcome, returned, if◌then◌else◌, ◌==◌,
  minus_one,
}
use tpe_so_2023_tp.Scheduler.{ready}
use tpe_so_2023_tp.Queue.{Core, QueueAdt}
use tpe_so_2023_tp.Kernel.{Kernel, Driver, pipes, screen, FileDescriptor, ProcessContext, PipeFd}
use tpe_so_2023_tp.Process.{Outside, zeroed, no_fd}
use tpe_so_2023_tp.Pipe.Buffer.{Pipe}

-- A heap that never runs out.
abbrev pub core : Core
core = record {
  memory = record { answer = λ cs _. 4096 + 32 * length cs; calls = [] };
  scheduler = record {
    kernel_rsp = 0;
    processes_states = λ _. record { priority = pos 0; exit_status = 0; status = ready; rsp = 1 };
    current_running_pid = pos 1;
    force_next_pid = negsuc 1;
    quantums = 3;
  };
}

abbrev close_nothing : Driver → Kernel → ℤ → ℤ → Outcome (ℤ × Kernel)
close_nothing d k pid fd = returned (pos 0, k)

abbrev pub outside : Outside
outside = record {
  create_context = λ a b c d. 1;
  on_kill = λ f k. k;
  on_close = close_nothing;
  on_dup = λ d k a b c e. returned (pos 0, k);
}

abbrev on_screen : FileDescriptor
on_screen = record {
  read_callback = none;
  write_callback = some screen;
  close_callback = none;
  dup_callback = none;
}

abbrev pub on_pipe : FileDescriptor
on_pipe = record {
  read_callback = some pipes;
  write_callback = some pipes;
  close_callback = some pipes;
  dup_callback = some pipes;
}

abbrev two : ProcessContext
two = record zeroed {
  stack_end = 64;
  stack_start = 4160;
  parent_pid = minus_one;
  fds = λ i.
      if i == 1 then on_screen else if i == 0 then on_pipe else if i == 3 then on_pipe else no_fd;
}

abbrev no_waiters : QueueAdt
no_waiters = record { addr = 8; first = []; last = 0; count = 0 }

-- 7, 8 and 9 wait, round the end of a ring of 4 places.
abbrev pub pipe : Pipe
pipe = record {
  addr = 16;
  buffer_at = 64;
  buffer = 8 ∷ 9 ∷ 0 ∷ 7 ∷ [];
  size = 4;
  read_idx = 3;
  bytes_to_read = 3;
  readers = 1;
  writers = 1;
  rd_q = some no_waiters;
  wr_q = some no_waiters;
  name = 2048;
}

-- Descriptor 3 of process 2 may only write.
abbrev pub writing : PipeFd
writing = record {
  addr = 128;
  fd = pos 3;
  pid = pos 2;
  pipe_id = pos 0;
  allow_rd = pos 0;
  allow_wr = pos 1;
}

abbrev pub kernel : Kernel
kernel = record {
  core = core;
  processes = λ i. if i == 2 then two else zeroed;
  pipe_table = λ i. if i == 0 then some pipe else none;
  pipe_fd_table = λ i. if i == 0 then some writing else none;
  strings = λ ptr. if ptr == 2048 then b'p' ∷ [] else b'q' ∷ b'2' ∷ [];
}

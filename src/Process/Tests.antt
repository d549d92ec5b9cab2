-- ===== src/Process/Tests.antt =====
-- Runs of the process table, and its theorems at such inputs.
use tpe_so_2023_tp.Base.{
  ℕ, ℤ, ◌<◌, ap, Outcome, returned, fault, ◌≡◌, ◌==◌, if◌then◌else◌, refl, arith, some, none,
  update, pos, minus_one, first_index,
}
use tpe_so_2023_tp.Process.Descriptors.{Maps, search_fd, proc_map_fd, proc_map_fd_lem}
use tpe_so_2023_tp.Process.Life.{proc_kill, finished}
use tpe_so_2023_tp.Process.Life.Death.{ClosesNothing, Ends, childless-Ends}
use tpe_so_2023_tp.Kernel.{Kernel, FileDescriptor, keyboard, screen}
use tpe_so_2023_tp.Process.{Outside, proc_at, no_fd}
use tpe_so_2023_tp.Process.Life.Crash.{RunsPipes, IsLastWriter, killed_writer_crashes}
use tpe_so_2023_tp.Pipe.Table.{get_pipe_fd}
use tpe_so_2023_tp.Pipe.Table.Descriptors.{OnlyOf}
use tpe_so_2023_tp.Pipe.Callbacks.{Progress, done, sleeps, crashes, unfinished}
use tpe_so_2023_tp.Pipe.Callbacks.Closing.{close_callback}
use tpe_so_2023_tp.Sample.{kernel, outside, on_pipe, pipe, writing}

abbrev typing : FileDescriptor
typing = record {
  read_callback = some keyboard;
  write_callback = none;
  close_callback = none;
  dup_callback = none;
}

abbrev showing : FileDescriptor
showing = record {
  read_callback = none;
  write_callback = some screen;
  close_callback = none;
  dup_callback = none;
}

search_finds : search_fd kernel (pos 2) ≡ pos 4
unfolding first_index
search_finds = refl

proc_map_fd_lem_example :
    Maps kernel
      (pos 2)
      on_pipe
      (search_fd kernel (pos 2))
      (proc_map_fd kernel (pos 2) minus_one on_pipe)
proc_map_fd_lem_example = proc_map_fd_lem kernel (pos 2) minus_one on_pipe refl refl

-- Process 2 with the keyboard and the screen only.
abbrev plain_fds : ℕ → FileDescriptor
plain_fds i = if i == 0 then typing else if i == 1 then showing else no_fd

abbrev plain : Kernel
plain = record kernel {
  processes = update kernel.processes 2 (record (kernel.processes 2) { fds = plain_fds });
}

closes_nothing : ClosesNothing plain (pos 2)
closes_nothing j lt = ground arith

childless-Ends_example : Ends (pos 2) (proc_kill 3 outside plain (pos 2) 7)
childless-Ends_example = childless-Ends 2 outside plain (pos 2) 7 closes_nothing refl refl refl

-- A run of close_callback, as what the kernel sees of it.
abbrev seen : Progress ℤ → Outcome (ℤ × Kernel)
seen (done r k) = returned (r, k)
seen (sleeps r k) = returned (r, k)
seen crashes = fault
seen unfinished = fault

abbrev with_pipes : Outside
with_pipes = record outside { on_close = λ d k pid fd. seen (close_callback 0 k pid fd) }

runs_pipes : RunsPipes 0 with_pipes
runs_pipes k pid fd e = ap seen e

-- Its descriptor 3 is the writing end of the pipe 0.
abbrev writer : Kernel
writer = record kernel {
  processes =
      update kernel.processes 2
        (record (kernel.processes 2) { fds = λ i. if i == 3 then on_pipe else plain_fds i });
}

no_pipe_below : (j : ℕ) → j < 3 → ((proc_at writer (pos 2)).fds j).close_callback ≡ none
no_pipe_below j lt = ground arith

only_pipe_0 : OnlyOf writer (pos 0) (pos 2) (pos 3)
only_pipe_0 j h e = ground arith

writer-IsLastWriter : IsLastWriter writer (pos 2) (pos 3)
unfolding get_pipe_fd first_index
writer-IsLastWriter = record {
  entry = writing;
  pipe = pipe;
  found = refl;
  there = refl;
  no_reader = refl;
  writer = refl;
  last = refl;
  only = only_pipe_0;
}

killed_writer_faults : proc_kill 3 with_pipes writer (pos 2) 7 ≡ finished fault
killed_writer_faults =
    killed_writer_crashes 2 0 with_pipes writer (pos 2) 3 7 runs_pipes refl refl refl (omega arith)
      no_pipe_below refl writer-IsLastWriter

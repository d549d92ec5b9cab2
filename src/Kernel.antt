-- ===== src/Kernel.antt =====
-- The state that Kernel/processes/process.c and Kernel/ipc/pipe.c change between them: the process
-- table, the pipes and their descriptors, with the heap and the scheduler below.
use tpe_so_2023_tp.Base.{ℕ, List, Option, ℤ}
use tpe_so_2023_tp.Queue.{Core, Queue}
use tpe_so_2023_tp.Pipe.Buffer.{Pipe}

-- Who a callback of a file descriptor belongs to: the keyboard (Kernel/drivers/keyboard.c), the screen
-- (Kernel/drivers/text.c) or the pipes. NULL is `none`.
pub data Driver : Type 0 where
  keyboard screen pipes : Driver

abbrev pub Callback : Type 0
Callback = Option Driver

pub record FileDescriptor : Type 0 where
  pub read_callback : Callback
  pub write_callback : Callback
  pub close_callback : Callback
  pub dup_callback : Callback

-- A block of the heap and the bytes in it.
pub record Block : Type 0 where
  pub addr : ℕ
  pub bytes : List ℕ

-- `argv_at` is the pointer `argv`, and `argv` the blocks that its entries point to.
pub record ProcessContext : Type 0 where
  pub stack_end : ℕ
  pub stack_start : ℕ
  pub is_fg : ℕ
  pub name : Block
  pub argc : ℤ
  pub argv_at : ℕ
  pub argv : List Block
  pub fds : ℕ → FileDescriptor
  pub waiting_pids : Queue
  pub parent_pid : ℤ
  pub child_pids : Queue
  pub kill_callback : ℕ

pub record PipeFd : Type 0 where
  pub addr : ℕ
  pub fd : ℤ
  pub pid : ℤ
  pub pipe_id : ℤ
  pub allow_rd : ℤ
  pub allow_wr : ℤ

-- `strings` is the C string at an address, in memory that the kernel does not write: the pipes keep the pointers to
-- their names.
pub record Kernel : Type 0 where
  pub core : Core
  pub processes : ℕ → ProcessContext
  pub pipe_table : ℕ → Option Pipe
  pub pipe_fd_table : ℕ → Option PipeFd
  pub strings : ℕ → List ℕ

-- ===== src/Pipe/Callbacks/Mapping.antt =====
-- pipe_map_fd of Kernel/ipc/pipe.c: the descriptor of a process and the entry of the table that it makes.
use tpe_so_2023_tp.Base.{
  ℕ, ◌+◌, ◌%◌, ◌^◌, ◌<◌, ◌≡◌, ◌≢◌, ◌⊎◌, none, some, ℤ, pos, pos_part, ◌==ℤ◌, minus_one,
  if◌then◌else◌, Outcome, returned, fault,
}
use tpe_so_2023_tp.Queue.{core_alloc}
use tpe_so_2023_tp.Kernel.{Kernel, PipeFd, FileDescriptor, pipes}
use tpe_so_2023_tp.Process.{proc_at}
use tpe_so_2023_tp.Pipe.Buffer.{Pipe}
use tpe_so_2023_tp.Pipe.Table.{get_pipe, put_pipe, pipe_fd_size}
use tpe_so_2023_tp.Pipe.Callbacks.{counted, put_core, put_pipe_fd}

-- An unsigned int that counts an end which may do something.
abbrev pub counting : ℕ → ℤ → ℕ
counting n allow = if allow ==ℤ pos 0 then n else (n + 1) % 2 ^ 32

abbrev pub of_pipes : FileDescriptor
of_pipes = record {
  read_callback = some pipes;
  write_callback = some pipes;
  close_callback = some pipes;
  dup_callback = some pipes;
}

-- The entry `d` is in the place `i` of the table, which was free, the pipe counts its new end, and the
-- process has the four callbacks at the descriptor; nothing else of these tables changes.
pub record IsMapped (k : Kernel) (i : ℕ) (p : Pipe) (d : PipeFd) (k' : Kernel) : Type 0 where
  pub inside : i < 512
  pub free : k.pipe_fd_table i ≡ none
  pub entry : k'.pipe_fd_table i ≡ some d
  pub other_entries : (j : ℕ) → j ≢ i → k'.pipe_fd_table j ≡ k.pipe_fd_table j
  pub pipe :
      get_pipe k' d.pipe_id
      ≡ some (record p {
        readers = counting p.readers d.allow_rd;
        writers = counting p.writers d.allow_wr;
      })
  pub other_pipes : (j : ℕ) → j ≢ pos_part d.pipe_id → k'.pipe_table j ≡ k.pipe_table j
  pub callbacks : (proc_at k' d.pid).fds (pos_part d.fd) ≡ of_pipes
  pub other_fds : (j : ℕ) → d.fd ≢ pos j → (proc_at k' d.pid).fds j ≡ (proc_at k d.pid).fds j

-- What the mapping comes to, at the descriptor `d.fd`; `d.addr` is what the heap answers.
abbrev pub MapsEnd : Kernel → Pipe → PipeFd → Outcome (ℤ × Kernel) → Type 0
MapsEnd k p d fault = (d.addr ≡ 0) ⊎ (d.fd ≡ minus_one) ⊎ (d.fd ≡ pos 20)
MapsEnd k p d (returned (r, k')) =
    ((r ≡ minus_one) × (k' ≡ k) × ((j : ℕ) → j < 512 → k.pipe_fd_table j ≢ none))
    ⊎ ((r ≡ d.fd) × (d.addr ≢ 0) × ((i : ℕ) × IsMapped k i p d k'))

abbrev pub new_entry : Kernel → ℤ → ℤ → ℤ → ℤ → ℤ → PipeFd
new_entry k pid fd pipe_id allow_rd allow_wr = record {
  addr = (core_alloc k.core pipe_fd_size).0;
  fd = fd;
  pid = pid;
  pipe_id = pipe_id;
  allow_rd = allow_rd;
  allow_wr = allow_wr;
}

-- The kernel that proc_map_fd is called with.
abbrev with_entry : Kernel → ℕ → Pipe → PipeFd → Kernel
with_entry k i p d =
    let k1 =
      put_pipe_fd (put_core k (core_alloc k.core pipe_fd_size).1) (pos i)
        (some (record d { fd = minus_one })) in
    put_pipe k1 d.pipe_id (some (counted p d.allow_rd d.allow_wr))

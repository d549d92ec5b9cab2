-- ===== src/Pipe/Callbacks.antt =====
-- pipe_map_fd of Kernel/ipc/pipe.c, and the callbacks that it gives a process's file descriptor.
pub mod Mapping
pub mod Transfer
pub mod Receive
pub mod Closing
mod Tests
use tpe_so_2023_tp.Base.{
  ℕ, zero, suc, ◌+◌, ◌-◌, ◌%◌, ◌^◌, List, [], ◌∷◌, ◌++◌, drop, length, Bool, true, false, ◌&&◌,
  ◌||◌, not, Option, none, some, ltb, leb, ◌==◌, if◌then◌else◌, ℤ, pos, negsuc, pos_part, ltb_ℤ,
  leb_ℤ, ◌==ℤ◌, minus_one, update, Outcome, returned, fault, ◌>>=◌, get_or,
}
use tpe_so_2023_tp.Scheduler.{sch_block, sch_yield}
use tpe_so_2023_tp.Queue.{Core, Queue, core_alloc, core_free, queue_add, queue_unblock_all}
use tpe_so_2023_tp.Kernel.{Kernel, FileDescriptor, Driver, pipes, PipeFd}
use tpe_so_2023_tp.Process.Descriptors.{proc_map_fd}
use tpe_so_2023_tp.Pipe.Buffer.{Pipe, read_pipe_buffer, write_pipe_buffer, size_max}
use tpe_so_2023_tp.Pipe.Table.{
  get_pipe, put_pipe, get_pipe_fd, find_free_pipe_fd, empty_fd_table, pipe_free, pipe_fd_size,
}

abbrev put_core : Kernel → Core → Kernel
put_core k c = record k { core = c }

-- The four callbacks of a pipe's descriptor.
abbrev pub pipe_callbacks : FileDescriptor
pipe_callbacks = record {
  read_callback = some pipes;
  write_callback = some pipes;
  close_callback = some pipes;
  dup_callback = some pipes;
}

-- readers++ and writers++, on an unsigned int, for a descriptor that may read, and one that may write.
abbrev pub counted : Pipe → ℤ → ℤ → Pipe
counted p allow_rd allow_wr = record p {
  readers = if allow_rd ==ℤ pos 0 then p.readers else (p.readers + 1) % 2 ^ 32;
  writers = if allow_wr ==ℤ pos 0 then p.writers else (p.writers + 1) % 2 ^ 32;
}

abbrev put_pipe_fd : Kernel → ℤ → Option PipeFd → Kernel
put_pipe_fd k i d = record k { pipe_fd_table = update k.pipe_fd_table (pos_part i) d }

-- `pipe_fd->fd = fd` of the entry that was just made.
abbrev record_fd : ℤ → PipeFd → ℤ × Kernel → Outcome (ℤ × Kernel)
record_fd i d (fd, k) = returned (fd, put_pipe_fd k i (some (record d { fd = fd })))

-- The result of mm_alloc is written through with no test. Until proc_map_fd answers, the field `fd`
-- of the new entry is what the block held; -1 stands for it.
pub pipe_map_fd : Kernel → ℤ → ℤ → ℤ → ℤ → ℤ → Outcome (ℤ × Kernel)
pipe_map_fd k pid fd pipe_id allow_rd allow_wr = elim (get_pipe k pipe_id) [
  | none ↦ returned (minus_one, k)
  | some p ↦
      let i = find_free_pipe_fd k in
      if i ==ℤ minus_one
      then returned (minus_one, k)
      else (let (at, c1) = core_alloc k.core pipe_fd_size in
          if at == 0
          then fault
          else (let d : PipeFd = record {
            addr = at;
            fd = minus_one;
            pid = pid;
            pipe_id = pipe_id;
            allow_rd = allow_rd;
            allow_wr = allow_wr;
          } in
              let k1 = put_pipe_fd (put_core k c1) i (some d) in
              let k2 = put_pipe k1 pipe_id (some (counted p allow_rd allow_wr)) in
              proc_map_fd k2 pid fd pipe_callbacks >>= record_fd i d))
]

-- What a callback comes to: a value; the process sleeps with a part of it, and goes on when it runs
-- again; a fault; or the bound on its rounds was too small.
pub data Progress {ℓ} (A : Type ℓ) : Type ℓ where
  done : A → Kernel → Progress A
  sleeps : A → Kernel → Progress A
  crashes unfinished : Progress A

-- queue_add, sch_block and sch_yield, which block a process on a queue of its pipe.
abbrev sleeping : Core → ℤ → Core
sleeping c pid = record c { scheduler = sch_yield (sch_block c.scheduler pid).1 }

abbrev has_name_or_writers : Pipe → Bool
has_name_or_writers p = not (p.name == 0) || ltb 0 p.writers

-- One round of read_callback's loop. The bytes are those that arrive at `buf`; their number is
-- returned.
read_round : Kernel → ℤ → ℤ → Pipe → ℕ → Progress (List ℕ)
read_round k pid id p count = elim (read_pipe_buffer k.core p count) [
  | fault ↦ crashes
  | returned (n, bytes, c, p1) ↦
      if n == 0 && has_name_or_writers p1
      then (let (_, c1, q) = queue_add c p1.rd_q pid in
          sleeps [] (put_pipe (put_core k (sleeping c1 pid)) id (some (record p1 { rd_q = q }))))
      else done bytes (put_pipe (put_core k c) id (some p1))
]

-- The pipe of a process's descriptor; a descriptor that is not in the table is NULL, and is read.
abbrev with_pipe {ℓ} : {A : Type ℓ} → Kernel → ℤ → ℤ → (ℤ → Pipe → Progress A) → Progress A
with_pipe k pid fd body = elim (get_pipe_fd k pid fd) [
  | none ↦ crashes
  | some d ↦ elim (get_pipe k d.pipe_id) [ none ↦ crashes | some p ↦ body d.pipe_id p ]
]

-- After sch_yield the loops go on with the pipe that they had; it is read where the table holds it.
abbrev same_pipe {ℓ} : {A : Type ℓ} → Kernel → ℤ → (Pipe → Progress A) → Progress A
same_pipe k id body = elim (get_pipe k id) [ none ↦ crashes | some p ↦ body p ]

pub read_again : Kernel → ℤ → ℤ → ℕ → Progress (List ℕ)
unfolding read_round
read_again k pid id count = same_pipe k id λ p. read_round k pid id p count

pub read_callback : Kernel → ℤ → ℤ → ℕ → Progress (List ℕ)
unfolding read_round
read_callback k pid fd count = with_pipe k pid fd λ id p. read_round k pid id p count

-- The loop of write_callback on the bytes that are left, from `written` on. A call of
-- write_pipe_buffer that had no room on the heap counts -1, as a size_t. `fuel` bounds the rounds.
pub write_rounds : ℕ → Kernel → ℤ → ℤ → Pipe → List ℕ → ℕ → Progress ℕ
write_rounds zero k pid id p buf written = unfinished
write_rounds (suc fuel) k pid id p buf written =
    if leb (length buf) written
    then done written k
    else elim (write_pipe_buffer k.core p (drop written buf)) [
      | fault ↦ crashes
      | returned (n, c, p1) ↦
          let k1 = put_pipe (put_core k c) id (some p1) in
          let rest = write_rounds fuel k1 pid id p1 buf ((written + n) % 2 ^ 64) in
          if n == 0
          then (let (_, c1, q) = queue_add c p1.wr_q pid in
              sleeps written
                (put_pipe (put_core k (sleeping c1 pid)) id (some (record p1 { wr_q = q }))))
          else rest
    ]

pub write_callback : Kernel → ℤ → ℤ → List ℕ → Progress ℕ
write_callback k pid fd buf =
    with_pipe k pid fd λ id p. write_rounds (suc (suc (length buf))) k pid id p buf 0

pub write_again : Kernel → ℤ → ℤ → List ℕ → ℕ → Progress ℕ
write_again k pid id buf written =
    same_pipe k id λ p. write_rounds (suc (suc (length buf))) k pid id p buf written

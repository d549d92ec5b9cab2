-- ===== src/Syscalls.antt =====
-- Kernel/idt/syscalls.c: the table of system calls, and the handlers that do more than pass their arguments on.
-- An argument that a handler passes as an `int` is an integer here.
pub mod Waiting
mod Tests
use tpe_so_2023_tp.Base.{
  ℕ, ◌+◌, ◌-◌, ◌^◌, ◌%◌, Bool, true, false, ◌&&◌, ◌||◌, not, ltb, ◌==◌, if◌then◌else◌, List, [],
  ◌∷◌, Option, none, some, ℤ, pos, pos_part, minus_one, ltb_ℤ, leb_ℤ, ◌==ℤ◌, Outcome, returned,
  fault, ◌>>=◌,
}
use tpe_so_2023_tp.Text.{uint_to_base}
use tpe_so_2023_tp.Scheduler.{
  Scheduler, sch_get_current_pid, sch_get_proc_status, sch_block, sch_unblock, sch_yield,
  sch_set_priority, sch_get_proc_exit_status,
}
use tpe_so_2023_tp.Kernel.{Kernel, Callback}
use tpe_so_2023_tp.Process.{Outside}
use tpe_so_2023_tp.Process.Descriptors.{proc_unmap_fd, proc_read, proc_write, proc_dup}
use tpe_so_2023_tp.Process.Life.{Killed, finished, unfinished, proc_kill, proc_unblock_on_killed}
use tpe_so_2023_tp.Pipe.Table.{pipe_create, pipe_open, pipe_free}
use tpe_so_2023_tp.Pipe.Callbacks.{pipe_map_fd}

pub data Syscall : Type 0 where
  exit process_create read write close waitpid : Syscall
  time sleep getpid ps nice kill block dup : Syscall
  new_pipe open_pipe unlink_pipe status_of_pipe : Syscall
  open_sem wait_sem post_sem close_sem : Syscall
  meminfo malloc free realloc yield : Syscall

-- The initialised entries of the table; the others are NULL.
abbrev pub entries : List (ℕ × Syscall)
entries =
    (1, exit)
    ∷ (2, process_create)
    ∷ (3, read)
    ∷ (4, write)
    ∷ (6, close)
    ∷ (7, waitpid)
    ∷ (13, time)
    ∷ (14, sleep)
    ∷ (20, getpid)
    ∷ (21, ps)
    ∷ (34, nice)
    ∷ (37, kill)
    ∷ (38, block)
    ∷ (41, dup)
    ∷ (42, new_pipe)
    ∷ (43, open_pipe)
    ∷ (44, unlink_pipe)
    ∷ (45, status_of_pipe)
    ∷ (50, open_sem)
    ∷ (51, wait_sem)
    ∷ (52, post_sem)
    ∷ (53, close_sem)
    ∷ (89, meminfo)
    ∷ (90, malloc)
    ∷ (91, free)
    ∷ (92, realloc)
    ∷ (158, yield)
    ∷ []

abbrev pub entry : List (ℕ × Syscall) → ℕ → Option Syscall
entry [] rdi = none
entry ((n, call) ∷ rest) rdi = if n == rdi then some call else entry rest rdi

pub syscalls : ℕ → Option Syscall
syscalls rdi = entry entries rdi

-- The number is not compared with the size of the table.
pub syscall_dispatcher : {A : Type 0} → (Syscall → A → Outcome (ℤ × A)) → A → ℕ → Outcome (ℤ × A)
syscall_dispatcher handler state rdi =
    if ltb 158 rdi
    then fault
    else elim (syscalls rdi) [ none ↦ returned (minus_one, state) | some call ↦ handler call state ]

abbrev current : Kernel → ℤ
current k = sch_get_current_pid k.core.scheduler

abbrev with_scheduler : Kernel → ℤ × Scheduler → ℤ × Kernel
with_scheduler k (r, s) = (r, record k { core = record k.core { scheduler = s } })

abbrev yielded : Kernel → Kernel
yielded k = record k { core = record k.core { scheduler = sch_yield k.core.scheduler } }

-- Its value is read only if proc_kill failed, as sch_yield does not come back to a killed process.
abbrev exited : ℕ → ℤ × Kernel → ℤ × Kernel
exited status (ret, k) = (if ret ==ℤ pos 0 then pos status else ret, yielded k)

pub exit_handler : ℕ → Outside → Kernel → ℕ → Killed
exit_handler depth o k status = elim (proc_kill depth o k (current k) status) [
  | unfinished ↦ unfinished
  | finished fault ↦ finished fault
  | finished (returned r) ↦ finished (returned (exited status r))
]

pub read_handler : Kernel → ℤ → Callback
read_handler k fd = proc_read k (current k) fd

pub write_handler : Kernel → ℤ → Callback
write_handler k fd = proc_write k (current k) fd

pub close_handler : Outside → Kernel → ℤ → ℤ → Outcome (ℤ × Kernel)
close_handler o k pid fd = proc_unmap_fd o k pid fd

pub kill_handler : ℕ → Outside → Kernel → ℤ → ℕ → Killed
kill_handler depth o k pid status = proc_kill depth o k pid status

pub dup_handler : Outside → Kernel → ℤ → ℤ → ℤ → Outcome (ℤ × Kernel)
dup_handler o k pid fd_original fd_final = proc_dup o k pid fd_original fd_final

pub getpid_handler : Kernel → ℤ
getpid_handler k = current k

pub yield_handler : Kernel → ℤ × Kernel
yield_handler k = (pos 0, yielded k)

pub nice_handler : Kernel → ℤ → ℤ → ℤ × Kernel
nice_handler k new_priority pid =
    with_scheduler k (sch_set_priority k.core.scheduler pid new_priority)

-- READY and RUNNING are 0 and 1, BLOCKED is 2.
pub block_handler : Scheduler → ℤ → ℤ × Scheduler
block_handler s pid =
    let status = sch_get_proc_status s pid in
    if status ==ℤ pos 0 || status ==ℤ pos 1
    then sch_block s pid
    else if status ==ℤ pos 2
    then sch_unblock s pid
    else (minus_one, s)

-- A call that waits for a process: it is refused, or the caller sleeps, to go on at `waitpid_again`.
pub data Waited : Type 0 where
  refused : Kernel → Waited
  sleeps : Kernel → Waited

abbrev asleep : ℤ → Kernel → Waited
asleep pid k =
    let (_, k1) = with_scheduler k (sch_block k.core.scheduler pid) in sleeps (yielded k1)

-- The statements of waitpid_handler, `pid` being the caller.
pub wait_for : Kernel → ℤ → ℤ → Waited
wait_for k pid working_pid =
    let (r, k1) = proc_unblock_on_killed k pid working_pid in
    if working_pid ==ℤ pid
    then refused k
    else if not (r ==ℤ pos 0)
    then refused k1
    else asleep pid k1

pub waitpid_handler : Kernel → ℤ → Waited
waitpid_handler k working_pid = wait_for k (current k) working_pid

pub waitpid_again : Kernel → ℤ → Outcome ℤ
waitpid_again k working_pid = sch_get_proc_exit_status k.core.scheduler working_pid

-- What pipe_create_handler and pipe_open_handler write to `pipe_fd`, or `none` where they return 1.
abbrev pub PipeFds : Type 0
PipeFds = Outcome (Option (ℤ × ℤ) × Kernel)

abbrev freed : ℤ → Kernel → Option (ℤ × ℤ) × Kernel
freed pipe_id k = (none, (pipe_free k pipe_id).1)

-- The second descriptor, and the first one taken back if there is none.
abbrev map_done : Outside → ℤ → ℤ → ℤ → ℤ × Kernel → PipeFds
map_done o pid pipe_id fd_rd (fd_wr, k) =
    if ltb_ℤ fd_wr (pos 0)
    then (proc_unmap_fd o k pid fd_rd >>= λ unmapped. returned (freed pipe_id unmapped.1))
    else returned (some (fd_rd, fd_wr), k)

abbrev map_writer : Outside → ℤ → ℤ → ℤ × Kernel → PipeFds
map_writer o pid pipe_id (fd_rd, k) =
    if ltb_ℤ fd_rd (pos 0)
    then returned (freed pipe_id k)
    else pipe_map_fd k pid minus_one pipe_id (pos 0) (pos 1) >>= map_done o pid pipe_id fd_rd

pub map_both : Outside → ℤ → ℤ × Kernel → PipeFds
map_both o pid (pipe_id, k) =
    if ltb_ℤ pipe_id (pos 0)
    then returned (none, k)
    else pipe_map_fd k pid minus_one pipe_id (pos 1) (pos 0) >>= map_writer o pid pipe_id

pub pipe_create_handler : Outside → Kernel → ℤ → PipeFds
pipe_create_handler o k pid = map_both o pid (pipe_create k)

pub pipe_open_handler : Outside → Kernel → ℤ → ℕ → PipeFds
pipe_open_handler o k pid name = pipe_open k name >>= map_both o pid

-- ===== src/Process/Life.antt =====
-- proc_create, proc_kill, proc_unblock_on_killed, proc_list and proc_is_fg of
-- Kernel/processes/process.c.
pub mod Death
pub mod Crash
pub mod Waits
use tpe_so_2023_tp.Base.{
  ℕ, zero, suc, ◌+◌, ◌-◌, List, [], ◌∷◌, Bool, true, false, ◌&&◌, ◌||◌, not, Option, none, some,
  ◌==◌, if◌then◌else◌, ℤ, pos, negsuc, pos_part, ltb_ℤ, leb_ℤ, ◌==ℤ◌, minus_one, Outcome, returned,
  fault, ◌>>=◌, first_index, ltb, to_u8,
}
use tpe_so_2023_tp.Scheduler.{
  Status, max_processes, killed_proc_pid, sch_get_current_pid, sch_yield, sch_on_process_create,
  sch_on_process_killed, sch_get_proc_info,
}
use tpe_so_2023_tp.Queue.{
  Core, Queue, address, core_free, queue_create, queue_add, queue_pop, queue_remove, queue_free,
}
use tpe_so_2023_tp.Kernel.{Kernel, ProcessContext, FileDescriptor, Block, Driver}
use tpe_so_2023_tp.Process.{
  ProcessCreateInfo, Outside, Blocks, Copies, copied, out_of_room, proc_at, put_proc, no_fd, zeroed,
  get_process_from_pid, valid_name, alloc_blocks, copy_args, free_from_start, free_copies, filled,
  max_fds,
}

abbrev put_core : Kernel → Core → Kernel
put_core k c = record k { core = c }

abbrev free_block : Kernel → ℕ → Kernel
free_block k ptr = put_core k (core_free k.core ptr)

-- `process->fds[fd]` written.
abbrev put_fd : Kernel → ℤ → ℕ → FileDescriptor → Kernel
put_fd k pid fd d =
    put_proc k pid
      (record (proc_at k pid) { fds = λ j. if fd == j then d else (proc_at k pid).fds j })

-- A descriptor's close callback, if it has one.
pub close_one : Outside → Kernel → ℤ → ℕ → Outcome Kernel
close_one o k pid fd = elim ((proc_at k pid).fds fd).close_callback [
  | none ↦ returned k
  | some d ↦ do (_, k1) ← o.on_close d k pid (pos fd); returned k1
]

-- for (i = fd; i < fd + n; i++) of proc_kill's descriptors.
close_fds : ℕ → ℕ → Outside → Kernel → ℤ → Outcome Kernel
close_fds zero fd o k pid = returned k
close_fds (suc n) fd o k pid = do
  k1 ← close_one o k pid fd
  close_fds n (fd + 1) o (put_fd k1 pid fd no_fd) pid

-- The parent's queue of children forgets the pid, if the parent is in the table.
leave_parent : Kernel → ℤ → Kernel
leave_parent k pid =
    let parent_pid = (proc_at k pid).parent_pid in
    if get_process_from_pid k parent_pid
    then (let (_, c1, children) = queue_remove k.core (proc_at k parent_pid).child_pids pid in
        put_proc (put_core k c1) parent_pid
          (record (proc_at k parent_pid) { child_pids = children }))
    else k

-- Those that wait for the process's end are woken.
wake_waiting : Kernel → ℤ → Kernel
wake_waiting k pid = elim (proc_at k pid).waiting_pids [
  | none ↦ k
  | some q ↦ let (_, c1) = queue_free k.core (some q) in put_core k c1
]

-- The statements of proc_kill after its children are gone, up to the loop over the descriptors.
abbrev unlinked : Kernel → ℤ → Kernel
unlinked k0 pid =
    let k1 = free_block k0 (address (proc_at k0 pid).child_pids) in
    let k2 = wake_waiting (leave_parent k1 pid) pid in
    put_core k2 (free_from_start k2.core (proc_at k2 pid).argv)

-- That loop and the statements after it.
bury : Outside → Kernel → ℤ → Outcome (ℤ × Kernel)
bury o k0 pid = do
  k4 ← close_fds max_fds 0 o (unlinked k0 pid) pid
  let k5 = free_block k4 (proc_at k4 pid).argv_at
  let k6 = free_block k5 (proc_at k5 pid).name.addr
  let k7 = free_block k6 (proc_at k6 pid).stack_end
  returned (pos 0, put_proc k7 pid zeroed)

-- The first statements: the kill callback, if there is one, and the scheduler.
announce : Outside → Kernel → ℤ → ℕ → Kernel
announce o k pid status =
    let p = proc_at k pid in
    let k1 = if p.kill_callback == 0 then k else o.on_kill p.kill_callback k in
    let (_, sched) = sch_on_process_killed k1.core.scheduler pid status in
    put_core k1 (record k1.core { scheduler = sched })

-- What a bounded run of proc_kill comes to: the bound was too small, or an outcome.
pub data Killed : Type 0 where
  unfinished : Killed
  finished : Outcome (ℤ × Kernel) → Killed

-- `again` kills one process, and the loop goes on with the kernel that this leaves.
kill_children : ℕ → (Kernel → ℤ → Killed) → Kernel → ℤ → (Kernel → Killed) → Killed
kill_children zero kill k pid after = unfinished
kill_children (suc n) kill k pid after =
    let (child, c1, children) = queue_pop k.core (proc_at k pid).child_pids in
    let k1 = put_proc (put_core k c1) pid (record (proc_at k pid) { child_pids = children }) in
    if child ==ℤ minus_one then after k1 else elim (kill k1 child) [
      | unfinished ↦ unfinished
      | finished fault ↦ finished fault
      | finished (returned (_, k2)) ↦ kill_children n kill k2 pid after
    ]

-- proc_kill calls itself on each child, with (uint8_t)-1. `depth` bounds the depth of the calls and
-- the number of children of each process.
pub proc_kill : ℕ → Outside → Kernel → ℤ → ℕ → Killed
proc_kill zero o k pid status = unfinished
proc_kill (suc depth) o k pid status =
    let killing = λ (k1 : Kernel). λ (child : ℤ). proc_kill depth o k1 child 255 in
    if not (get_process_from_pid k pid)
    then finished (returned (minus_one, k))
    else kill_children (suc depth) killing (announce o k pid status) pid
        (λ k1. finished (bury o k1 pid))

-- The child's place in its parent's queue, which is created for the first child.
abbrev child_queue : Core → Queue → Queue × Core
child_queue c none = queue_create c
child_queue c (some q) = (some q, c)

adopt : ℕ → Outside → Kernel → ℤ → ℤ → Killed
adopt depth o k parent_pid pid =
    let (children, c1) = child_queue k.core (proc_at k parent_pid).child_pids in
    let (r, c2, children') = queue_add c1 children pid in
    let k2 =
      put_proc (put_core k c2) parent_pid
        (record (proc_at k parent_pid) { child_pids = children' }) in
    if r ==ℤ minus_one
    then elim (proc_kill depth o k2 pid 255) [
      | unfinished ↦ unfinished
      | finished fault ↦ finished fault
      | finished (returned (_, k3)) ↦ finished (returned (minus_one, k3))
    ]
    else finished (returned (pid, k2))

-- The new entry, the scheduler's part and the parent's.
abbrev enrol : ℕ → Outside → Kernel → ProcessCreateInfo → ℤ → Blocks → List ℕ → List Block → Killed
enrol depth o k info pid blocks name args =
    let p = filled (proc_at k pid) info blocks name args in
    let (_, sched) =
      sch_on_process_create o.create_context k.core.scheduler pid info.entry_point info.priority
        p.stack_start (pos_part info.argc) blocks.argv in
    let parent_pid = sch_get_current_pid k.core.scheduler in
    let k1 =
      put_proc (put_core k (record k.core { scheduler = sched })) pid
        (record p { parent_pid = parent_pid }) in
    if leb_ℤ (pos 0) parent_pid
    then adopt depth o k1 parent_pid pid
    else finished (returned (pid, k1))

-- The blocks of a creation that failed are freed, NULL among them.
abbrev give_up : Core → Blocks → Core
give_up c blocks = core_free (core_free (core_free c blocks.stack) blocks.name) blocks.argv

create_named : ℕ → Outside → Kernel → ProcessCreateInfo → ℤ → List ℕ → Killed
create_named depth o k info pid name =
    let (blocks, c1) = alloc_blocks k.core info name in
    if not blocks.enough
    then finished (returned (minus_one, put_core k (give_up c1 blocks)))
    else (let (copies, c2) = copy_args c1 [] info.argv in
        elim copies [
          | out_of_room made ↦ finished (
              returned (
                minus_one,
                put_core k (
                    core_free (free_copies (core_free (core_free c2 blocks.stack) blocks.name) made)
                      blocks.argv),
              ))
          | copied args ↦ enrol depth o (put_core k c2) info pid blocks name args
        ])

-- The first free entry, or -1 where the code's `pid` ends at MAX_PROCESSES.
pub free_pid : Kernel → ℤ
free_pid k = first_index max_processes 0 (λ i. (k.processes i).stack_end == 0)

-- A process that is created by one that was killed never gets an answer: sch_yield does not come back
-- to it. `info.argv` has `argc` strings.
pub proc_create : ℕ → Outside → Kernel → ProcessCreateInfo → Option Killed
proc_create depth o k info =
    if sch_get_current_pid k.core.scheduler ==ℤ killed_proc_pid
    then none
    else if ltb_ℤ info.argc (pos 0) || free_pid k ==ℤ minus_one || not (valid_name info.name)
    then some (finished (returned (minus_one, k)))
    else elim info.name [
      | none ↦ some (finished (returned (minus_one, k)))
      | some name ↦ some (create_named depth o k info (free_pid k) name)
    ]

pub proc_unblock_on_killed : Kernel → ℤ → ℤ → ℤ × Kernel
proc_unblock_on_killed k waiting_pid working_pid =
    if not (get_process_from_pid k working_pid)
    then (minus_one, k)
    else (let (queue, c1) = child_queue k.core (proc_at k working_pid).waiting_pids in
        elim queue [
          | none ↦ (minus_one, put_core k c1)
          | some q ↦
              let (_, c2, queue') = queue_add c1 (some q) waiting_pid in
              (
                pos 0,
                put_proc (put_core k c2) working_pid
                    (record (proc_at k working_pid) { waiting_pids = queue' }),
              )
        ])

-- The `Process` records that proc_list fills in: pid, name, stack, is_fg and the scheduler's part.
list_from : ℕ → ℕ → ℕ → Kernel → List (ℕ × ProcessContext × (ℤ × Option (Status × ℤ × ℕ)))
list_from zero i room k = []
list_from (suc n) i zero k = []
list_from (suc n) i (suc room) k =
    let kept = list_from n (i + 1) room k in
    let passed = list_from n (i + 1) (suc room) k in
    if (k.processes i).stack_end == 0
    then passed
    else (i, k.processes i, sch_get_proc_info k.core.scheduler (pos i)) ∷ kept

pub proc_list : Kernel → ℕ → List (ℕ × ProcessContext × (ℤ × Option (Status × ℤ × ℕ)))
proc_list k max_procs = list_from max_processes 0 max_procs k

pub proc_is_fg : Kernel → ℤ → ℤ
proc_is_fg k pid = if not (get_process_from_pid k pid) then minus_one else pos (proc_at k pid).is_fg

-- ===== src/Process.antt =====
-- Kernel/processes/process.c: the process table, creation and death of processes, and their file
-- descriptors.
pub mod Names
pub mod Descriptors
pub mod Life
mod Tests
use tpe_so_2023_tp.Base.{
  ℕ, zero, suc, ◌+◌, ◌-◌, ◌*◌, ◌%◌, List, [], ◌∷◌, ◌++◌, Bool, true, false, ◌&&◌, ◌||◌, not, Option,
  none, some, ltb, leb, ◌==◌, if◌then◌else◌, ℤ, pos, negsuc, pos_part, leb_ℤ, ltb_ℤ, ◌==ℤ◌,
  minus_one, update, length, Outcome, returned, fault, first_index, ◌>>=◌,
}
use tpe_so_2023_tp.Scheduler.{
  max_processes, killed_proc_pid, sch_get_current_pid, sch_yield, sch_on_process_create,
  sch_on_process_killed,
}
use tpe_so_2023_tp.Queue.{
  Core, Queue, address, core_alloc, core_free, queue_create, queue_add, queue_pop, queue_remove,
  queue_free,
}
use tpe_so_2023_tp.Text.{strlen, strcpy}
use tpe_so_2023_tp.Kernel.{Kernel, ProcessContext, FileDescriptor, Block, Callback, Driver}

abbrev pub max_fds : ℕ
max_fds = 20

abbrev pub max_name_len : ℕ
max_name_len = 16

abbrev pub process_stack_size : ℕ
process_stack_size = 4096

-- `ProcessCreateInfo`; `name` is a pointer that may be NULL.
pub record ProcessCreateInfo : Type 0 where
  pub name : Option (List ℕ)
  pub entry_point : ℕ
  pub kill_callback : ℕ
  pub is_fg : ℕ
  pub priority : ℤ
  pub argc : ℤ
  pub argv : List (List ℕ)

abbrev pub proc_at : Kernel → ℤ → ProcessContext
proc_at k pid = k.processes (pos_part pid)

abbrev pub put_proc : Kernel → ℤ → ProcessContext → Kernel
put_proc k pid p = record k { processes = update k.processes (pos_part pid) p }

-- memset(process, 0, sizeof(ProcessContext)), of the entry and of one descriptor.
abbrev pub no_fd : FileDescriptor
no_fd = record {
  read_callback = none;
  write_callback = none;
  close_callback = none;
  dup_callback = none;
}

abbrev pub zeroed : ProcessContext
zeroed = record {
  stack_end = 0;
  stack_start = 0;
  is_fg = 0;
  name = record { addr = 0; bytes = [] };
  argc = pos 0;
  argv_at = 0;
  argv = [];
  fds = λ _. no_fd;
  waiting_pids = none;
  parent_pid = pos 0;
  child_pids = none;
  kill_callback = 0;
}

-- What the file calls through pointers or in assembly: the context of a new process (its argc, argv,
-- stack and entry point give its stack pointer), a process's kill callback, and a driver's close
-- and dup callbacks.
pub record Outside : Type 0 where
  pub create_context : ℕ → ℕ → ℕ → ℕ → ℕ
  pub on_kill : ℕ → Kernel → Kernel
  pub on_close : Driver → Kernel → ℤ → ℤ → Outcome (ℤ × Kernel)
  pub on_dup : Driver → Kernel → ℤ → ℤ → ℤ → ℤ → Outcome (ℤ × Kernel)

-- The test that get_process_from_pid makes; the pointer that it gives is `proc_at`.
abbrev pub get_process_from_pid : Kernel → ℤ → Bool
get_process_from_pid k pid =
    not (ltb_ℤ pid (pos 0) || leb_ℤ (pos max_processes) pid || (proc_at k pid).stack_end == 0)

-- The characters from `i` on, `n` of them at most.
name_from : ℕ → ℕ → List ℕ → Bool
name_from zero i name = false
name_from (suc n) i [] = true
name_from (suc n) i (c ∷ name) =
    let rest = name_from n (i + 1) name in
    if c == 0
    then true
    else if (ltb c b'a' || ltb b'z' c)
        && (ltb c b'A' && ltb b'Z' c)
        && not (c == b'_')
        && (i == 0 || ltb c b'0' || ltb b'9' c)
    then false
    else rest

pub valid_name : Option (List ℕ) → Bool
unfolding name_from
valid_name none = false
valid_name (some name) = name_from max_name_len 0 name

-- The copies of the arguments: all of them, or, when the heap has no room for one, those made
-- before it and the NULL that was stored for it.
pub data Copies : Type 0 where
  copied : List Block → Copies
  out_of_room : List Block → Copies

-- strlen(argv[i]) + 1 bytes, the terminating NUL included.
pub copy_args : Core → List Block → List (List ℕ) → Copies × Core
copy_args c made [] = (copied made, c)
copy_args c made (arg ∷ args) =
    let (ptr, c1) = core_alloc c (strlen arg + 1) in
    let block : Block = record { addr = ptr; bytes = strcpy arg ++ 0 ∷ [] } in
    let rest = copy_args c1 (made ++ block ∷ []) args in
    if ptr == 0 then (out_of_room (made ++ record { addr = 0; bytes = [] } ∷ []), c1) else rest

pub free_from_end : Core → List Block → Core
free_from_end c [] = c
free_from_end c (b ∷ bs) = let c1 = free_from_end c bs in core_free c1 b.addr

-- for (i = 0; i < argc; i++) mm_free(argv[i])
pub free_from_start : Core → List Block → Core
free_from_start c [] = c
free_from_start c (b ∷ bs) = free_from_start (core_free c b.addr) bs

-- for (; i > 0; i--) mm_free(argv[i])
abbrev pub free_copies : Core → List Block → Core
free_copies c [] = c
free_copies c (b ∷ bs) = free_from_end c bs

-- The three blocks of a new process, or what was got of them when one failed: addresses, NULL where
-- none was asked for or there was no room.
pub record Blocks : Type 0 where
  pub stack : ℕ
  pub name : ℕ
  pub argv : ℕ
  pub enough : Bool

pub alloc_blocks : Core → ProcessCreateInfo → List ℕ → Blocks × Core
alloc_blocks c info name =
    let (stack, c1) = core_alloc c process_stack_size in
    if stack == 0
    then (record { stack = 0; name = 0; argv = 0; enough = false }, c1)
    else (let (name_at, c2) = core_alloc c1 (strlen name + 1) in
        if name_at == 0
        then (record { stack = stack; name = 0; argv = 0; enough = false }, c2)
        else if info.argc ==ℤ pos 0
        then (record { stack = stack; name = name_at; argv = 0; enough = true }, c2)
        else (let (argv_at, c3) = core_alloc c2 (8 * pos_part info.argc) in
            (
              record { stack = stack; name = name_at; argv = argv_at; enough = not (argv_at == 0) },
              c3,
            )))

-- The entry of a new process; its descriptors and queues are those that the table holds.
abbrev pub filled :
    ProcessContext → ProcessCreateInfo → Blocks → List ℕ → List Block → ProcessContext
filled p info blocks name args = record p {
  stack_end = blocks.stack;
  stack_start = blocks.stack + process_stack_size;
  is_fg = info.is_fg;
  name = record { addr = blocks.name; bytes = strcpy name ++ 0 ∷ [] };
  argv_at = blocks.argv;
  argv = args;
  argc = info.argc;
  kill_callback = info.kill_callback;
}

-- ===== src/Scheduler.antt =====
-- Kernel/processes/scheduler.c: the table of process states and the choice of the process to run.
-- A `void*` is its address, and NULL is 0. The table is zeroed memory at boot.
pub mod Search
pub mod Invariant
pub mod Switch
pub mod Wake
pub mod Kill
mod Tests
use tpe_so_2023_tp.Base.{
  ℕ, zero, suc, ◌+◌, ◌-◌, ◌%◌, Bool, true, false, not, ◌&&◌, ◌||◌, Option, none, some, ltb, leb,
  ◌==◌, if◌then◌else◌, ℤ, pos, negsuc, pos_part, ◌-ℤ◌, ltb_ℤ, leb_ℤ, ◌==ℤ◌, minus_one, to_u8,
  update, Outcome, returned, fault,
}

-- `ProcessStatus`
pub data Status : Type 0 where
  ready running blocked killed : Status

abbrev pub status_eq : Status → Status → Bool
status_eq ready ready = true
status_eq running running = true
status_eq blocked blocked = true
status_eq killed killed = true
status_eq _ _ = false

-- The number of an enum constant.
abbrev pub status_code : Status → ℕ
status_code ready = 0
status_code running = 1
status_code blocked = 2
status_code killed = 3

pub record ProcessState : Type 0 where
  pub priority : ℤ
  pub exit_status : ℕ
  pub status : Status
  pub rsp : ℕ

-- The file's static variables.
pub record Scheduler : Type 0 where
  pub kernel_rsp : ℕ
  pub processes_states : ℕ → ProcessState
  pub current_running_pid : ℤ
  pub force_next_pid : ℤ
  pub quantums : ℕ

abbrev pub max_processes : ℕ
max_processes = 32

-- -20, 19, 0 and -5
abbrev pub max_priority : ℤ
max_priority = negsuc 19

abbrev pub min_priority : ℤ
min_priority = pos 19

abbrev pub default_priority : ℤ
default_priority = pos 0

abbrev pub realtime_priority : ℤ
realtime_priority = negsuc 4

-- -1 and -2
abbrev pub kernel_proc_pid : ℤ
kernel_proc_pid = negsuc 0

abbrev pub killed_proc_pid : ℤ
killed_proc_pid = negsuc 1

-- `&processes_states[pid]` read, and written.
abbrev pub state_at : Scheduler → ℤ → ProcessState
state_at s pid = s.processes_states (pos_part pid)

abbrev pub put_state : Scheduler → ℤ → ProcessState → Scheduler
put_state s pid p = record s { processes_states = update s.processes_states (pos_part pid) p }

unfoldable pub sch_init : Scheduler → Scheduler
sch_init s = record s {
  current_running_pid = kernel_proc_pid;
  force_next_pid = killed_proc_pid;
  quantums = 0;
}

abbrev pub valid_pid : ℤ → Bool
valid_pid pid = leb_ℤ (pos 0) pid && ltb_ℤ pid (pos max_processes)

abbrev pub valid_priority : ℤ → Bool
valid_priority priority = leb_ℤ max_priority priority && leb_ℤ priority min_priority

unfoldable pub is_active : Scheduler → ℤ → Bool
is_active s pid = valid_pid pid && not ((state_at s pid).rsp == 0)

unfoldable pub is_ready : Scheduler → ℤ → Bool
unfolding is_active
is_ready s pid = is_active s pid && status_eq (state_at s pid).status ready

-- The difference is an `int`; the variable that takes it is a `uint8_t`.
unfoldable pub get_quantums : Scheduler → ℤ → ℕ
get_quantums s pid = to_u8 (min_priority -ℤ (state_at s pid).priority)

-- The do-while loop, with `fuel` rounds at most.
pub next_ready : ℕ → Scheduler → ℕ → ℕ → ℤ
next_ready zero s first next = kernel_proc_pid
next_ready (suc fuel) s first next =
    let next' = (next + 1) % max_processes in
    let again = next_ready fuel s first next' in
    if is_ready s (pos next')
    then pos next'
    else if not (next' == first)
    then again
    else kernel_proc_pid

abbrev pub first_pid : Scheduler → ℕ
first_pid s = if ltb_ℤ s.current_running_pid (pos 0) then 0 else pos_part s.current_running_pid

-- After `max_processes` rounds `next` is `first` again.
pub get_next_ready_pid : Scheduler → ℤ
get_next_ready_pid s = next_ready max_processes s (first_pid s) (first_pid s)

-- `asm_create_process_context` (Kernel/libasm) is an argument: of argc, argv, the stack and the entry
-- point it gives the stack pointer of the new process.
unfoldable pub sch_on_process_create :
    (ℕ → ℕ → ℕ → ℕ → ℕ) → Scheduler → ℤ → ℕ → ℤ → ℕ → ℕ → ℕ → ℤ × Scheduler
sch_on_process_create create_context s pid entry_point priority rsp argc argv =
    let priority' = if not (valid_priority priority) then default_priority else priority in
    let s1 = if leb_ℤ priority' realtime_priority then record s { force_next_pid = pid } else s in
    (
      pos 0,
      put_state s1 pid (record (state_at s1 pid) {
        priority = priority';
        status = ready;
        rsp = create_context argc argv rsp entry_point;
      }),
    )

unfoldable pub sch_on_process_killed : Scheduler → ℤ → ℕ → ℤ × Scheduler
sch_on_process_killed s pid exit_status =
    if not (is_active s pid)
    then (minus_one, s)
    else if status_eq (state_at s pid).status killed
    then (pos 0, s)
    else let s1 =
        put_state s pid
          (record (state_at s pid) { status = killed; rsp = 0; exit_status = exit_status }) in
      (
        pos 0,
        if s1.current_running_pid ==ℤ pid
            then record s1 { current_running_pid = killed_proc_pid }
            else s1,
      )

unfoldable pub sch_block : Scheduler → ℤ → ℤ × Scheduler
sch_block s pid =
    if not (is_active s pid)
    then (minus_one, s)
    else let s1 = put_state s pid (record (state_at s pid) { status = blocked }) in
      (pos 0, if s1.current_running_pid ==ℤ pid then record s1 { quantums = 0 } else s1)

unfoldable pub sch_unblock : Scheduler → ℤ → ℤ × Scheduler
sch_unblock s pid =
    if not (is_active s pid)
    then (minus_one, s)
    else if status_eq (state_at s pid).status ready || status_eq (state_at s pid).status running
    then (pos 0, s)
    else let s1 =
        if leb_ℤ (state_at s pid).priority realtime_priority
        then record s { force_next_pid = pid }
        else s in
      (pos 0, put_state s1 pid (record (state_at s1 pid) { status = ready }))

-- The first statement of `sch_switch`: keep the stack pointer of what ran.
pub save_current : Scheduler → ℕ → Scheduler
save_current s current_rsp =
    let pid = s.current_running_pid in
    if leb_ℤ (pos 0) pid
    then (let p = record (state_at s pid) { rsp = current_rsp } in
        put_state s pid (if status_eq p.status running then record p { status = ready } else p))
    else if pid ==ℤ kernel_proc_pid
    then record s { kernel_rsp = current_rsp }
    else s

-- Its last two: the process that goes on runs.
resume : Scheduler → ℕ × Scheduler
resume s =
    let pid = s.current_running_pid in
    ((state_at s pid).rsp, put_state s pid (record (state_at s pid) { status = running }))

take_turn : Scheduler → ℤ → ℕ × Scheduler
take_turn s next =
    let s1 = record s { current_running_pid = next } in
    if next ==ℤ kernel_proc_pid
    then (s1.kernel_rsp, record s1 { quantums = 0 })
    else resume (record s1 { quantums = get_quantums s1 next })

choose : Scheduler → ℕ × Scheduler
choose s =
    if is_ready s s.force_next_pid
    then resume (record s {
      current_running_pid = s.force_next_pid;
      force_next_pid = killed_proc_pid;
      quantums = get_quantums s s.force_next_pid;
    })
    else if not (is_ready s s.current_running_pid) || s.quantums == 0
    then take_turn s (get_next_ready_pid s)
    else resume (record s { quantums = s.quantums - 1 })

pub sch_switch : Scheduler → ℕ → ℕ × Scheduler
sch_switch s current_rsp = choose (save_current s current_rsp)

-- `sch_yield` up to its software interrupt, whose handler calls `sch_switch`.
unfoldable pub sch_yield : Scheduler → Scheduler
sch_yield s = record s { quantums = 0 }

abbrev pub sch_get_current_pid : Scheduler → ℤ
sch_get_current_pid s = s.current_running_pid

-- The `Process` fields that `sch_get_proc_info` fills in: status, priority and stack pointer.
pub sch_get_proc_info : Scheduler → ℤ → ℤ × Option (Status × ℤ × ℕ)
sch_get_proc_info s pid =
    if not (is_active s pid)
    then (minus_one, none)
    else let p = state_at s pid in (pos 0, some (p.status, p.priority, p.rsp))

-- for (i = 31; i > 0; i--), on the value of `i`. `proc_is_fg` is process.c's.
last_foreground : ℕ → (ℤ → ℤ) → Scheduler → ℤ
last_foreground zero proc_is_fg s = minus_one
last_foreground (suc i) proc_is_fg s =
    let rest = last_foreground i proc_is_fg s in
    if not (is_active s (pos (suc i)))
    then rest
    else if not (proc_is_fg (pos (suc i)) ==ℤ pos 0)
    then pos (suc i)
    else rest

pub sch_get_running_pid : (ℤ → ℤ) → Scheduler → ℤ
sch_get_running_pid proc_is_fg s = last_foreground (max_processes - 1) proc_is_fg s

pub sch_get_proc_status : Scheduler → ℤ → ℤ
sch_get_proc_status s pid =
    if not (is_active s pid) then minus_one else pos (status_code (state_at s pid).status)

-- What it returns, and the pointer that it writes.
get_killed_state : Scheduler → ℤ → ℤ × Option ProcessState
get_killed_state s pid =
    if not (valid_pid pid) || not (status_eq (state_at s pid).status killed)
    then (minus_one, none)
    else (pos 1, some (state_at s pid))

-- The caller tests `!get_killed_state(...)`, then reads through the pointer, which is NULL at first.
pub sch_get_proc_exit_status : Scheduler → ℤ → Outcome ℤ
unfolding get_killed_state
sch_get_proc_exit_status s pid =
    let (found, state) = get_killed_state s pid in
    if found ==ℤ pos 0
    then returned minus_one
    else elim state [ none ↦ fault | some p ↦ returned (pos p.exit_status) ]

unfoldable pub sch_set_priority : Scheduler → ℤ → ℤ → ℤ × Scheduler
sch_set_priority s pid new_priority =
    if not (is_active s pid)
    then (minus_one, s)
    else if valid_priority new_priority
    then (pos 0, put_state s pid (record (state_at s pid) { priority = new_priority }))
    else (minus_one, s)

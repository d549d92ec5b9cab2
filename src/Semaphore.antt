-- ===== src/Semaphore.antt =====
-- Kernel/ipc/semaphore.c: named counting semaphores with a queue of blocked processes each. A lock
-- is the byte that asm_lock (Kernel/libasm/semaphores.asm) exchanges with 1 until it reads 0.
pub mod Locks
pub mod Counting
pub mod Names
mod Tests
use tpe_so_2023_tp.Base.{
  ℕ, zero, suc, ◌+◌, ◌-◌, ◌%◌, List, [], Bool, ◌&&◌, not, true, false, Option, first_index, none,
  some, ltb, ◌==◌, if◌then◌else◌, ℤ, pos, pos_part, leb_ℤ, ltb_ℤ, ◌==ℤ◌, minus_one, to_u8, update,
  length,
}
use tpe_so_2023_tp.Scheduler.{sch_block, sch_yield, sch_get_current_pid}
use tpe_so_2023_tp.Queue.{
  Core, Queue, core_alloc, core_free, queue_create, queue_add, queue_unblock, queue_free,
}
use tpe_so_2023_tp.Text.{strcmp, strcpy, strlen}

-- `SemInfo`, at the address `addr`.
pub record SemInfo : Type 0 where
  pub addr : ℕ
  pub value : ℕ
  pub lock : ℕ
  pub linked_processes : ℕ
  pub name : List ℕ
  pub waiting_processes : Queue

-- The file's static variables.
pub record Semaphores : Type 0 where
  pub semaphores : ℕ → Option SemInfo
  pub big_lock : ℕ

abbrev pub max_semaphores : ℕ
max_semaphores = 32

-- The size of `name`, and of a SemInfo.
abbrev pub max_name : ℕ
max_name = 32

abbrev sem_info_size : ℕ
sem_info_size = 48

-- What a call comes to: an answer; the calling process is blocked and has yielded, to go on at
-- `sem_wait_again` once it runs; asm_lock spins on a lock that is held; or a fault.
pub data Answer : Type 0 where
  answers : ℤ → Answer
  sleeps spins faults : Answer

abbrev pub Result : Type 0
Result = Answer × Core × Semaphores

abbrev pub sem_at : Semaphores → ℤ → Option SemInfo
sem_at s sem = s.semaphores (pos_part sem)

abbrev pub put_sem : Semaphores → ℤ → Option SemInfo → Semaphores
put_sem s sem info = record s { semaphores = update s.semaphores (pos_part sem) info }

-- asm_lock(&big_lock) before `body`, and asm_unlock(&big_lock).
abbrev locking : Core → Semaphores → (Semaphores → Result) → Result
locking c s body = if s.big_lock == 0 then body (record s { big_lock = 1 }) else (spins, c, s)

abbrev unlocked : Semaphores → Semaphores
unlocked s = record s { big_lock = 0 }

-- The tests of the two loops over the table.
abbrev pub is_named : Semaphores → List ℕ → ℕ → Bool
is_named s name i = elim (s.semaphores i) [
  | none ↦ false
  | some info ↦ strcmp name info.name ==ℤ pos 0
]

abbrev pub is_unused : Semaphores → ℕ → Bool
is_unused s i = elim (s.semaphores i) [ none ↦ true | some _ ↦ false ]

pub search_semaphore : Semaphores → List ℕ → ℤ
search_semaphore s name = first_index max_semaphores 0 (is_named s name)

pub search_next : Semaphores → ℤ
search_next s = first_index max_semaphores 0 (is_unused s)

abbrev pub is_valid_id : ℤ → Bool
is_valid_id sem = leb_ℤ (pos 0) sem && ltb_ℤ sem (pos max_semaphores)

-- A semaphore that is_valid_sem accepts.
abbrev pub valid_sem : Semaphores → ℤ → Option SemInfo
valid_sem s sem = if is_valid_id sem then sem_at s sem else none

-- The fields of a SemInfo that `create` does not set keep what the block held; `name` is set next.
pub create : Core → Semaphores → ℤ → ℕ → ℤ × Core × Semaphores
create c s idx initial_value =
    let (ptr, c1) = core_alloc c sem_info_size in
    if ptr == 0
    then (minus_one, c1, put_sem s idx none)
    else (let (queue, c2) = queue_create c1 in
        elim queue [
          | none ↦ (minus_one, core_free c2 ptr, put_sem s idx none)
          | some q ↦ (
            idx,
            c2,
            put_sem s idx (
                some (record {
                  addr = ptr;
                  value = initial_value;
                  lock = 0;
                  linked_processes = 1;
                  name = [];
                  waiting_processes = some q;
                })),
          )
        ])

-- strcpy(semaphores[idx]->name, name): a name of 32 bytes or more is written past its array.
abbrev named : Core → Semaphores → ℤ → List ℕ → Result
named c s idx name = elim (sem_at s idx) [
  | none ↦ (faults, c, s)
  | some info ↦
      if ltb (strlen name) max_name
      then (answers idx, c, unlocked (put_sem s idx (some (record info { name = strcpy name }))))
      else (faults, c, s)
]

open_new : Core → Semaphores → ℤ → List ℕ → ℕ → Result
open_new c s i name initial_value =
    if i ==ℤ minus_one
    then (answers minus_one, c, unlocked s)
    else (let (idx, c1, s1) = create c s i initial_value in
        if idx ==ℤ minus_one then (answers minus_one, c1, unlocked s1) else named c1 s1 idx name)

-- linked_processes++ is on a uint8_t.
open_found : Core → Semaphores → ℤ → Result
open_found c s i = elim (sem_at s i) [
  | none ↦ (faults, c, s)
  | some info ↦ (
    answers i,
    c,
    unlocked
        (put_sem s i (some (record info { linked_processes = (info.linked_processes + 1) % 256 }))),
  )
]

pub sem_open : Core → Semaphores → List ℕ → ℕ → Result
unfolding open_found open_new
sem_open c s name initial_value = locking c s λ s1.
    let i = search_semaphore s1 name in
    if not (i ==ℤ minus_one)
    then open_found c s1 i
    else open_new c s1 (search_next s1) name initial_value

-- The start that sem_close, sem_wait and sem_post share: the semaphore is valid, its lock is taken
-- and the big one let go. `body` has the semaphore with its lock held.
entered : Core → Semaphores → ℤ → (Semaphores → SemInfo → Result) → Result
entered c s sem body = locking c s λ s1. elim (valid_sem s1 sem) [
  | none ↦ (answers minus_one, c, unlocked s1)
  | some info ↦
      if info.lock == 0
      then (let held = record info { lock = 1 } in
          body (unlocked (put_sem s1 sem (some held))) held)
      else (spins, c, s1)
]

-- The write of a semaphore whose lock is let go.
abbrev release : Semaphores → ℤ → SemInfo → Semaphores
release s sem info = put_sem s sem (some (record info { lock = 0 }))

-- `free`: the queue's processes are woken, the block freed and the entry cleared.
abbrev free : Core → Semaphores → ℤ → SemInfo → Core × Semaphores
free c s sem info =
    let (_, c1) = queue_free c info.waiting_processes in
    (core_free c1 info.addr, put_sem s sem none)

pub sem_close : Core → Semaphores → ℤ → Result
unfolding entered
sem_close c s sem = entered c s sem λ s1 info.
    if info.linked_processes == 1
    then (let (c2, s2) = free c s1 sem info in (answers (pos 0), c2, s2))
    else (
      answers (pos 0),
      c,
      release s1 sem (record info { linked_processes = (info.linked_processes + 255) % 256 }),
    )

-- The head of sem_wait's loop, the semaphore's lock held.
wait_round : Core → Semaphores → ℤ → ℕ → SemInfo → Result
wait_round c s sem pid info =
    if info.value == 0
    then (let (_, c1, queue) = queue_add c info.waiting_processes (pos pid) in
        let (_, sched) = sch_block c1.scheduler (pos pid) in
        (
          sleeps,
          record c1 { scheduler = sch_yield sched },
          release s sem (record info { waiting_processes = queue }),
        ))
    else (answers (pos 0), c, release s sem (record info { value = info.value - 1 }))

-- The pid is kept in a uint8_t.
abbrev pub waiting_pid : Core → ℕ
waiting_pid c = to_u8 (sch_get_current_pid c.scheduler)

pub sem_wait : Core → Semaphores → ℤ → Result
unfolding entered wait_round
sem_wait c s sem = entered c s sem λ s1 info. wait_round c s1 sem (waiting_pid c) info

-- sem_wait after sch_yield returns: it takes the semaphore's lock, through a pointer that it reads
-- from the table again, and is at the head of its loop.
pub sem_wait_again : Core → Semaphores → ℤ → ℕ → Result
unfolding wait_round
sem_wait_again c s sem pid = elim (sem_at s sem) [
  | none ↦ (faults, c, s)
  | some info ↦
      if info.lock == 0 then wait_round c s sem pid (record info { lock = 1 }) else (spins, c, s)
]

-- value++ is on a uint8_t.
pub sem_post : Core → Semaphores → ℤ → Result
unfolding entered
sem_post c s sem = entered c s sem λ s1 info.
    let (_, c1, queue) = queue_unblock c info.waiting_processes in
    (
      answers (pos 0),
      c1,
      release s1 sem (record info { value = (info.value + 1) % 256; waiting_processes = queue }),
    )

-- ===== src/Syscalls/Waiting.antt =====
-- block_handler and waitpid_handler of Kernel/idt/syscalls.c.
use tpe_so_2023_tp.Base.{
  ℕ, ◌≡◌, ◌≢◌, refl, sym, ap, ◌∙◌, arith, subst, true, false, some, List, [], ◌∷◌, All, ℤ, pos,
  negsuc, minus_one, ◌==ℤ◌, if◌then◌else◌, ◌||◌,
}
use tpe_so_2023_tp.Scheduler.{
  Scheduler, Status, status_code, ready, running, blocked, killed, is_active, sch_get_proc_status,
  sch_block, sch_unblock, sch_yield,
}
use tpe_so_2023_tp.Scheduler.Kill.{sch_get_proc_status-status_code}
use tpe_so_2023_tp.Queue.{
  Core, Node, QueueAdt, core_unblock, free_rec, queue_free, queue_unblock_all,
}
use tpe_so_2023_tp.Kernel.{Kernel}
use tpe_so_2023_tp.Process.{proc_at, get_process_from_pid}
use tpe_so_2023_tp.Process.Life.{proc_unblock_on_killed}
use tpe_so_2023_tp.Process.Life.Waits.{proc_unblock_on_killed_full}
use tpe_so_2023_tp.Syscalls.{block_handler, waitpid_handler, wait_for, sleeps, asleep, current}

abbrev pub toggled : Status → Status
toggled blocked = ready
toggled _ = blocked

by_status :
    (s : Scheduler) (pid : ℤ) (status : ℤ)
    → sch_get_proc_status s pid ≡ status
    → block_handler s pid ≡ (
        if status ==ℤ pos 0 || status ==ℤ pos 1
        then sch_block s pid
        else if status ==ℤ pos 2
        then sch_unblock s pid
        else (minus_one, s))
unfolding block_handler
by_status s pid status e = rw e refl

-- The answer is 0, the process has the status, and the others are as they were.
abbrev pub Becomes : Scheduler → ℕ → Status → ℤ × Scheduler → Type 0
Becomes s p status (r, s') =
    (r ≡ pos 0)
    × ((s'.processes_states p).status ≡ status)
    × ((j : ℕ) → j ≢ p → s'.processes_states j ≡ s.processes_states j)

sch_block-Becomes :
    (s : Scheduler) (p : ℕ) → is_active s (pos p) ≡ true → Becomes s p blocked (sch_block s (pos p))
unfolding sch_block
sch_block-Becomes s p active =
    (ground (arith, active), ground (arith, active), λ j ne. ground (arith, active))

sch_unblock-Becomes :
    (s : Scheduler) (p : ℕ)
    → is_active s (pos p) ≡ true
    → (s.processes_states p).status ≡ blocked
    → Becomes s p ready (sch_unblock s (pos p))
unfolding sch_unblock is_active
sch_unblock-Becomes s p active e =
    (ground (arith, active, e), ground (arith, active, e), λ j ne. ground (arith, active, e))

by_cases :
    (s : Scheduler) (p : ℕ) (status : Status)
    → is_active s (pos p) ≡ true
    → (s.processes_states p).status ≡ status
    → status ≢ killed
    → sch_get_proc_status s (pos p) ≡ pos (status_code status)
    → Becomes s p (toggled status) (block_handler s (pos p))
by_cases s p ready active at alive code =
    rw (by_status s (pos p) (pos 0) code) (sch_block-Becomes s p active)
by_cases s p running active at alive code =
    rw (by_status s (pos p) (pos 1) code) (sch_block-Becomes s p active)
by_cases s p blocked active at alive code =
    rw (by_status s (pos p) (pos 2) code) (sch_unblock-Becomes s p active at)
by_cases s p killed active at alive code = absurd (alive refl)

-- A live process that was ready or running is blocked, and one that was blocked is ready; the other processes
-- are as they were.
pub block_handler_lem :
    (s : Scheduler) (p : ℕ)
    → is_active s (pos p) ≡ true
    → (s.processes_states p).status ≢ killed
    → Becomes s p (toggled (s.processes_states p).status) (block_handler s (pos p))
block_handler_lem s p active alive =
    by_cases s p (s.processes_states p).status active refl alive
      (sch_get_proc_status-status_code s p active)

wait_for_sleeps :
    (k : Kernel) (pid working : ℤ)
    → (working ==ℤ pid) ≡ false
    → (proc_unblock_on_killed k pid working).0 ≡ pos 0
    → wait_for k pid working ≡ asleep pid (proc_unblock_on_killed k pid working).1
unfolding wait_for
wait_for_sleeps k pid working other answered = rw (other, answered) refl

-- The process `p` is not among those that wait.
abbrev pub IsAbsent : ℕ → List Node → Type 0
IsAbsent p nodes = All (λ (n : Node). n.elem ≢ pos p) nodes

unblock_other :
    (c : Core) (p : ℕ) (elem : ℤ)
    → elem ≢ pos p
    → (core_unblock c elem).scheduler.processes_states p ≡ c.scheduler.processes_states p
unfolding sch_unblock is_active
unblock_other c p (pos n) ne = let other : n ≢ p = λ e. ne (ap pos e) in ground (arith, other)
unblock_other c p (negsuc n) ne = ground arith

free_rec-others :
    (c : Core) (p : ℕ) (nodes : List Node)
    → IsAbsent p nodes
    → (free_rec c nodes).scheduler.processes_states p ≡ c.scheduler.processes_states p
unfolding free_rec
free_rec-others c p [] absent = refl
free_rec-others c p (n ∷ ns) (ne, absent) =
    unblock_other (free_rec c ns) p n.elem ne ∙ free_rec-others c p ns absent

queue_free-others :
    (c : Core) (p : ℕ) (q : QueueAdt)
    → IsAbsent p q.first
    → (queue_free c (some q)).1.scheduler.processes_states p ≡ c.scheduler.processes_states p
unfolding queue_free queue_unblock_all
queue_free-others c p q absent = free_rec-others c p q.first absent

-- The caller `p` sleeps, and the freeing of the queue of `working`, with which the end of that process wakes
-- those that wait for it, leaves it blocked.
pub record IsForgotten (k' : Kernel) (p : ℕ) (working : ℤ) : Type 0 where
  pub asleep : (k'.core.scheduler.processes_states p).status ≡ blocked
  pub woken :
      let (_, c) = queue_free k'.core (proc_at k' working).waiting_pids in
      (c.scheduler.processes_states p).status ≡ blocked

-- Where the process waited for has already a queue of waiting processes, the caller is not in it, and the heap has no room
-- for a node, waitpid_handler does not notice: the caller is blocked and yields, the queue is as it was,
-- and the freeing of the queue at the end of the process waited for does not wake the caller.
pub waitpid_handler_full :
    (k : Kernel) (p : ℕ) (working : ℤ) (q : QueueAdt)
    → current k ≡ pos p
    → (working ==ℤ pos p) ≡ false
    → is_active k.core.scheduler (pos p) ≡ true
    → get_process_from_pid k working ≡ true
    → (proc_at k working).waiting_pids ≡ some q
    → IsAbsent p q.first
    → k.core.memory.answer k.core.memory.calls 16 ≡ 0
    → (k' : Kernel) × ((waitpid_handler k working ≡ sleeps k')
        × ((proc_at k' working).waiting_pids ≡ some q)
        × IsForgotten k' p working)
unfolding waitpid_handler sch_yield
waitpid_handler_full k p working q me other active live queue absent full =
    let (zero_r, same, scheduler) =
      proc_unblock_on_killed_full k (pos p) working q live queue full in
    let k1 = (proc_unblock_on_killed k (pos p) working).1 in
    let active' = subst (λ s. is_active s (pos p) ≡ true) (sym scheduler) active in
    let slept = sch_block-Becomes k1.core.scheduler p active' in
    let c2 : Core = record k1.core {
      scheduler = sch_yield (sch_block k1.core.scheduler (pos p)).1;
    } in
    let left : (queue_free c2 (proc_at k1 working).waiting_pids).1.scheduler.processes_states p
        ≡ c2.scheduler.processes_states p =
      subst
        (λ w. (queue_free c2 w).1.scheduler.processes_states p ≡ c2.scheduler.processes_states p)
        (sym same) (queue_free-others c2 p q absent) in
    (
      record k1 { core = c2 },
      (
        ap (λ c. wait_for k c working) me ∙ wait_for_sleeps k (pos p) working other zero_r,
        same,
        record { asleep = slept.1; woken = ap (λ st. st.status) left ∙ slept.1 },
      ),
    )

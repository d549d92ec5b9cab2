-- ===== src/Scheduler/Invariant.antt =====
-- The invariant of the static variables of Kernel/processes/scheduler.c, over any sequence of calls.
use native.Mathlib.Decide.{ℕ_discrete}
use tpe_so_2023_tp.Base.{ℕ, ◌≡◌, ◌≢◌, ap, ◌∙◌, sym, arith, ℤ, pos, List, [], ◌∷◌}
use tpe_so_2023_tp.Scheduler.{
  Scheduler, ready, running, is_active, save_current, sch_init, sch_on_process_create,
  sch_on_process_killed, sch_block, sch_unblock, sch_switch, sch_yield, sch_set_priority,
}
use tpe_so_2023_tp.Scheduler.Search.{IsPid}
use tpe_so_2023_tp.Scheduler.Switch.{Dispatched, runs, idles, sch_switch-Dispatched}

-- The running pid is in the table or negative, and no process but it is marked RUNNING.
pub record IsConsistent (s : Scheduler) : Type 0 where
  pub current_in : IsPid s.current_running_pid
  pub only_current :
      (p : ℕ) → (s.processes_states p).status ≡ running → s.current_running_pid ≡ pos p

-- A call of the scheduler's interface that changes its state. `creates` names the pid, the priority
-- and the stack pointer that the context gets; `switches` is the timer or a yield's interrupt.
pub data Call : Type 0 where
  creates : ℕ → ℤ → ℕ → Call
  kills : ℤ → ℕ → Call
  blocks : ℤ → Call
  unblocks : ℤ → Call
  switches : ℕ → Call
  yields : Call
  sets_priority : ℤ → ℤ → Call

pub step : Scheduler → Call → Scheduler
step s (creates pid priority rsp) =
    (sch_on_process_create (λ _ _ r _. r) s (pos pid) 0 priority rsp 0 0).1
step s (kills pid status) = (sch_on_process_killed s pid status).1
step s (blocks pid) = (sch_block s pid).1
step s (unblocks pid) = (sch_unblock s pid).1
step s (switches rsp) = (sch_switch s rsp).1
step s yields = sch_yield s
step s (sets_priority pid priority) = (sch_set_priority s pid priority).1

pub run : Scheduler → List Call → Scheduler
run s [] = s
run s (c ∷ cs) = run (step s c) cs

create-only :
    (create_context : ℕ → ℕ → ℕ → ℕ → ℕ) (s : Scheduler) (pid : ℤ) (entry : ℕ) (priority : ℤ)
    (rsp argc argv : ℕ)
    → IsConsistent s
    → IsConsistent (sch_on_process_create create_context s pid entry priority rsp argc argv).1
unfolding sch_on_process_create
create-only create_context s pid entry priority rsp argc argv v = record {
  current_in = ground (arith, v.current_in);
  only_current = λ p h. ground (arith, v.only_current p);
}

killed-IsConsistent :
    (s : Scheduler) (pid : ℤ) (exit : ℕ)
    → IsConsistent s
    → IsConsistent (sch_on_process_killed s pid exit).1
unfolding sch_on_process_killed is_active
killed-IsConsistent s pid exit v = record {
  current_in = ground (arith, v.current_in);
  only_current = λ p h. ground (arith, v.only_current p);
}

block-IsConsistent : (s : Scheduler) (pid : ℤ) → IsConsistent s → IsConsistent (sch_block s pid).1
unfolding sch_block
block-IsConsistent s pid v = record {
  current_in = ground (arith, v.current_in);
  only_current = λ p h. ground (arith, v.only_current p);
}

unblock-IsConsistent :
    (s : Scheduler) (pid : ℤ) → IsConsistent s → IsConsistent (sch_unblock s pid).1
unfolding sch_unblock
unblock-IsConsistent s pid v = record {
  current_in = ground (arith, v.current_in);
  only_current = λ p h. ground (arith, v.only_current p);
}

set_priority-IsConsistent :
    (s : Scheduler) (pid priority : ℤ)
    → IsConsistent s
    → IsConsistent (sch_set_priority s pid priority).1
unfolding sch_set_priority
set_priority-IsConsistent s pid priority v = record {
  current_in = ground (arith, v.current_in);
  only_current = λ p h. ground (arith, v.only_current p);
}

-- After the save no process is marked RUNNING.
save_current-none :
    (s : Scheduler) (rsp p : ℕ)
    → IsConsistent s
    → ((save_current s rsp).processes_states p).status ≢ running
unfolding save_current
save_current-none s rsp p v h = ground (arith, v.only_current p, v.current_in)

switched-IsConsistent :
    (s s' : Scheduler) (rsp : ℕ)
    → ((p : ℕ) → (s.processes_states p).status ≢ running)
    → Dispatched s rsp s'
    → IsConsistent s'
switched-IsConsistent s s' rsp none_runs (runs p lt st ne e c states) = record {
  current_in = ground arith;
  only_current = λ q h. elim (ℕ_discrete q p) [
    | yes same ↦ ground arith
    | no other ↦ absurd (none_runs q (ground (arith, ap (λ t. (t q).status) states)))
  ];
}
switched-IsConsistent s s' rsp none_runs (idles _ e c states q) = record {
  current_in = ground arith;
  only_current = λ p h. absurd (none_runs p (ap (λ t. (t p).status) (sym states) ∙ h));
}

switch-IsConsistent : (s : Scheduler) (rsp : ℕ) → IsConsistent s → IsConsistent (sch_switch s rsp).1
switch-IsConsistent s rsp v =
    switched-IsConsistent (save_current s rsp) _ _ (λ p. save_current-none s rsp p v)
      (sch_switch-Dispatched s rsp v.current_in)

-- Every call of the scheduler keeps the running pid in the table and every other process unmarked.
step-IsConsistent : (s : Scheduler) (c : Call) → IsConsistent s → IsConsistent (step s c)
unfolding step sch_yield
step-IsConsistent s (creates pid priority rsp) v =
    create-only (λ _ _ r _. r) s (pos pid) 0 priority rsp 0 0 v
step-IsConsistent s (kills pid status) v = killed-IsConsistent s pid status v
step-IsConsistent s (blocks pid) v = block-IsConsistent s pid v
step-IsConsistent s (unblocks pid) v = unblock-IsConsistent s pid v
step-IsConsistent s (switches rsp) v = switch-IsConsistent s rsp v
step-IsConsistent s yields v = record { current_in = v.current_in; only_current = v.only_current }
step-IsConsistent s (sets_priority pid priority) v = set_priority-IsConsistent s pid priority v

-- After any sequence of calls from a consistent state, at most one process is marked RUNNING: the
-- running pid, which is in the table or negative.
pub run-IsConsistent : (s : Scheduler) (cs : List Call) → IsConsistent s → IsConsistent (run s cs)
unfolding run
run-IsConsistent s [] v = v
run-IsConsistent s (c ∷ cs) v = run-IsConsistent (step s c) cs (step-IsConsistent s c v)

-- The state that sch_init leaves of a zeroed table is consistent.
pub sch_init-IsConsistent :
    (s : Scheduler) → ((p : ℕ) → (s.processes_states p).status ≡ ready) → IsConsistent (sch_init s)
unfolding sch_init
sch_init-IsConsistent s h = record {
  current_in = omega arith;
  only_current = λ p e. ground (arith, h p);
}

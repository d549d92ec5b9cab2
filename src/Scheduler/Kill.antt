-- ===== src/Scheduler/Kill.antt =====
-- The end of a process in Kernel/processes/scheduler.c: what a killed process's entry still answers.
use tpe_so_2023_tp.Base.{
  ℕ, refl, ◌≡◌, ◌≢◌, true, false, arith, ℤ, pos, minus_one, returned, fault, if◌then◌else◌, ◌&&◌,
}
use tpe_so_2023_tp.Scheduler.{
  Scheduler, status_code, killed, is_active, is_ready, sch_on_process_killed, sch_block,
  sch_unblock, sch_set_priority, sch_get_proc_status, sch_get_proc_exit_status, state_at, valid_pid,
  status_eq,
}

-- Killing an active process that was not yet killed succeeds; its exit status can then be read;
-- and no later call blocks, wakes, reprioritises or dispatches it: each is refused and changes nothing.
pub killed_lem :
    (s : Scheduler) (p exit : ℕ)
    → is_active s (pos p) ≡ true
    → (s.processes_states p).status ≢ killed
    → let (r, s') = sch_on_process_killed s (pos p) exit in
      (r ≡ pos 0)
      × (sch_get_proc_exit_status s' (pos p) ≡ returned (pos exit))
      × (is_ready s' (pos p) ≡ false)
      × (s'.current_running_pid ≢ pos p)
      × (sch_block s' (pos p) ≡ (minus_one, s'))
      × (sch_unblock s' (pos p) ≡ (minus_one, s'))
      × ((priority : ℤ) → sch_set_priority s' (pos p) priority ≡ (minus_one, s'))
      × (sch_get_proc_status s' (pos p) ≡ minus_one)
unfolding sch_on_process_killed sch_get_proc_exit_status is_ready sch_block sch_unblock
    sch_set_priority sch_get_proc_status
killed_lem s p exit h n = (
  ground arith,
  ground arith,
  ground arith,
  ground arith,
  ground arith,
  ground arith,
  λ priority. ground arith,
  ground arith,
)

-- The exit status is read of exactly the pids of the table whose process was killed. For any other
-- pid, one out of the table included, the code reads through a NULL pointer: its test of what
-- get_killed_state returns never fails.
pub exit_status_or_fault :
    (s : Scheduler) (pid : ℤ)
    → sch_get_proc_exit_status s pid ≡ (
        if valid_pid pid && status_eq (state_at s pid).status killed
        then returned (pos (state_at s pid).exit_status)
        else fault)
unfolding sch_get_proc_exit_status
exit_status_or_fault s pid = ground arith

-- The status of an active process is reported by its number.
pub sch_get_proc_status-status_code :
    (s : Scheduler) (p : ℕ)
    → is_active s (pos p) ≡ true
    → sch_get_proc_status s (pos p) ≡ pos (status_code (s.processes_states p).status)
unfolding sch_get_proc_status
sch_get_proc_status-status_code s p active = rw active refl

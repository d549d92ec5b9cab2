-- ===== src/Scheduler/Wake.antt =====
-- sch_block and sch_unblock of Kernel/processes/scheduler.c: who is woken, and who runs next.
use tpe_so_2023_tp.Base.{
  ℕ, ◌-◌, ◌<◌, ◌≡◌, ◌≢◌, true, false, arith, ℤ, pos, ◌≤ℤ◌, ◌==ℤ◌, ◌==◌, ◌||◌, if◌then◌else◌,
}
use tpe_so_2023_tp.Scheduler.{
  Scheduler, ProcessState, ready, running, blocked, status_eq, realtime_priority, is_active,
  is_ready, save_current, choose, resume, sch_block, sch_unblock, sch_switch, state_at,
}

-- What sch_unblock makes of a process: one that is blocked becomes ready.
abbrev pub woken : ProcessState → ProcessState
woken p =
    if p.rsp == 0
    then p
    else if status_eq p.status ready || status_eq p.status running
    then p
    else record p { status = ready }

-- sch_unblock wakes the process with that pid, if it is in the table and has a stack, and leaves
-- every other process, the running pid, the quantum and the kernel's stack pointer as they were.
pub sch_unblock_lem :
    (s : Scheduler) (pid : ℤ) (q : ℕ)
    → let s' = (sch_unblock s pid).1 in
      (q < 32
        → s'.processes_states q
          ≡ (if pid ==ℤ pos q then woken (s.processes_states q) else s.processes_states q))
      × (s'.current_running_pid ≡ s.current_running_pid)
      × (s'.quantums ≡ s.quantums)
      × (s'.kernel_rsp ≡ s.kernel_rsp)
unfolding sch_unblock is_active
sch_unblock_lem s pid q = (λ h. ground arith, ground arith, ground arith, ground arith)

-- A process of real-time priority that is woken runs at the next switch, whatever the quantum left.
pub realtime_runs_next :
    (s : Scheduler) (p rsp : ℕ)
    → p < 32
    → (s.processes_states p).status ≡ blocked
    → (s.processes_states p).rsp ≢ 0
    → (s.processes_states p).priority ≤ℤ realtime_priority
    → rsp ≢ 0
    → (sch_switch (sch_unblock s (pos p)).1 rsp).1.current_running_pid ≡ pos p
unfolding sch_switch choose sch_unblock save_current is_ready resume
realtime_runs_next s p rsp lt st ne pr nz = ground arith

-- While the quantum lasts and no process is forced, the process that runs goes on.
pub quantum_goes_on :
    (s : Scheduler) (p rsp : ℕ)
    → p < 32
    → s.current_running_pid ≡ pos p
    → (s.processes_states p).status ≡ running
    → is_ready (save_current s rsp) s.force_next_pid ≡ false
    → rsp ≢ 0
    → s.quantums ≢ 0
    → let (r, s') = sch_switch s rsp in
      (r ≡ rsp)
      × (s'.current_running_pid ≡ pos p)
      × (s'.quantums ≡ s.quantums - 1)
      × ((s'.processes_states p).status ≡ running)
unfolding sch_switch choose save_current is_ready resume
quantum_goes_on s p rsp lt c st nf nz q = ground arith

-- sch_block stops the process, and if it is the running one ends its quantum.
pub sch_block_lem :
    (s : Scheduler) (pid : ℤ)
    → is_active s pid ≡ true
    → let (r, s') = sch_block s pid in
      (r ≡ pos 0)
      × ((state_at s' pid).status ≡ blocked)
      × (is_ready s' pid ≡ false)
      × (s.current_running_pid ≡ pid → s'.quantums ≡ 0)
unfolding sch_block is_ready
sch_block_lem s pid h = ground arith

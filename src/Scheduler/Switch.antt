-- ===== src/Scheduler/Switch.antt =====
-- sch_switch of Kernel/processes/scheduler.c: what it saves, whom it chooses, what it returns.
use tpe_so_2023_tp.Base.{
  ℕ, ◌-◌, ◌<◌, ◌≡◌, ◌⊎◌, ◌≢◌, inl, inr, refl, true, false, arith, ℤ, pos, negsuc,
}
use tpe_so_2023_tp.Scheduler.{
  Scheduler, ready, running, kernel_proc_pid, killed_proc_pid, is_ready, get_quantums,
  get_next_ready_pid, save_current, resume, take_turn, choose, sch_switch, put_state,
}
use tpe_so_2023_tp.Scheduler.Search.{IsPid, Nearest, found, nobody, get_next_ready_pid-Nearest}

is_ready-pos :
    (s : Scheduler) (pid : ℤ)
    → is_ready s pid ≡ true
    → (p : ℕ) × (pid ≡ pos p)
      × (p < 32)
      × ((s.processes_states p).status ≡ ready)
      × ((s.processes_states p).rsp ≢ 0)
unfolding is_ready
is_ready-pos s (pos p) h = (p, refl, ground arith, ground arith, ground arith)
is_ready-pos s (negsuc n) h = absurd (ground arith)

-- What `sch_switch` comes to, from the state `s` that `save_current` leaves: a ready process runs,
-- at its own stack pointer, or no process is ready and the kernel goes on.
pub data Dispatched (s : Scheduler) (rsp : ℕ) (s' : Scheduler) : Type 0 where
  runs :
      (p : ℕ)
      → p < 32
      → (s.processes_states p).status ≡ ready
      → (s.processes_states p).rsp ≢ 0
      → rsp ≡ (s.processes_states p).rsp
      → s'.current_running_pid ≡ pos p
      → s'.processes_states
        ≡ (put_state s
            (pos p)
            (record (s.processes_states p) { status = running })).processes_states
      → Dispatched s rsp s'
  idles :
      ((p : ℕ) → p < 32 → is_ready s (pos p) ≡ false)
      → rsp ≡ s.kernel_rsp
      → s'.current_running_pid ≡ kernel_proc_pid
      → s'.processes_states ≡ s.processes_states
      → s'.quantums ≡ 0
      → Dispatched s rsp s'

-- A state that differs from `s` in none of the fields that `Dispatched` reads.
runs_ready :
    (s t : Scheduler) (pid : ℤ)
    → is_ready s pid ≡ true
    → t.processes_states ≡ s.processes_states
    → t.current_running_pid ≡ pid
    → Dispatched s (resume t).0 (resume t).1
unfolding resume
runs_ready s t pid h e c =
    let (p, at, lt, st, ne) = is_ready-pos s pid h in
    runs p lt st ne (ground arith) (ground arith) (ground arith)

take_turn-Dispatched :
    (s : Scheduler) (first : ℕ) (next : ℤ)
    → Nearest s first next
    → Dispatched s (take_turn s next).0 (take_turn s next).1
unfolding take_turn
take_turn-Dispatched s first next (found i lo hi e t before) =
    rw (e, take_turn) (runs_ready s _ _ t refl refl)
take_turn-Dispatched s first next (nobody e none_ready) =
    idles none_ready (ground arith) (ground arith) (ground arith) (ground arith)

choose_cases :
    (s : Scheduler)
    → ((is_ready s s.force_next_pid ≡ true)
        × (choose s
            ≡ resume (record s {
              current_running_pid = s.force_next_pid;
              force_next_pid = killed_proc_pid;
              quantums = get_quantums s s.force_next_pid;
            })))
      ⊎ ((is_ready s s.current_running_pid ≡ true)
          × (choose s ≡ resume (record s { quantums = s.quantums - 1 })))
      ⊎ (choose s ≡ take_turn s (get_next_ready_pid s))
unfolding choose
choose_cases s = ground arith

choose-Dispatched :
    (s : Scheduler) → IsPid s.current_running_pid → Dispatched s (choose s).0 (choose s).1
choose-Dispatched s h = elim (choose_cases s) [
  | inl (t, e) ↦ rw e (runs_ready s _ _ t refl refl)
  | inr (inl (t, e)) ↦ rw e (runs_ready s _ _ t refl refl)
  | inr (inr e) ↦ rw e (take_turn-Dispatched s _ _ (get_next_ready_pid-Nearest s h))
]

pub current-save_current :
    (s : Scheduler) (rsp : ℕ) → (save_current s rsp).current_running_pid ≡ s.current_running_pid
unfolding save_current
current-save_current s rsp = ground arith

-- On every timer tick and yield, with the running pid in the table: a ready process is set running
-- and its own stack pointer, not NULL, is returned, or no process at all is ready and the kernel's
-- own stack pointer is returned. No other entry of the table changes after the save.
pub sch_switch-Dispatched :
    (s : Scheduler) (rsp : ℕ)
    → IsPid s.current_running_pid
    → Dispatched (save_current s rsp) (sch_switch s rsp).0 (sch_switch s rsp).1
unfolding sch_switch
sch_switch-Dispatched s rsp h =
    choose-Dispatched (save_current s rsp) (rw (current-save_current s rsp) h)

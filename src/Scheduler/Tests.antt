-- ===== src/Scheduler/Tests.antt =====
-- Runs of the scheduler on a table of three processes, and the theorems at such inputs.
use tpe_so_2023_tp.Base.{
  ◌≡◌, refl, false, arith, pos, negsuc, List, [], ◌∷◌, fault, ◌<◌, ◌==◌, if◌then◌else◌,
}
use tpe_so_2023_tp.Scheduler.{
  Scheduler, ProcessState, ready, running, blocked, is_active, is_ready, get_quantums, next_ready,
  get_next_ready_pid, save_current, resume, take_turn, choose, sch_switch, sch_unblock,
  sch_get_proc_exit_status, sch_init, sch_block,
}
use tpe_so_2023_tp.Scheduler.Search.{Nearest, get_next_ready_pid-Nearest}
use tpe_so_2023_tp.Scheduler.Switch.{Dispatched, sch_switch-Dispatched}
use tpe_so_2023_tp.Scheduler.Invariant.{
  IsConsistent, Call, creates, switches, blocks, kills, run, run-IsConsistent,
  sch_init-IsConsistent,
}
use tpe_so_2023_tp.Scheduler.Wake.{realtime_runs_next, sch_unblock_lem, sch_block_lem, woken}
use tpe_so_2023_tp.Scheduler.Kill.{exit_status_or_fault}

abbrev absent : ProcessState
absent = record { priority = pos 0; exit_status = 0; status = ready; rsp = 0 }

abbrev zeroed : Scheduler
zeroed = record {
  kernel_rsp = 0;
  processes_states = λ _. absent;
  current_running_pid = pos 0;
  force_next_pid = pos 0;
  quantums = 0;
}

-- Process 1 runs with a quantum of 4, 3 is ready, and 5, of priority -10, is blocked.
abbrev three : Scheduler
three = record {
  kernel_rsp = 77;
  processes_states = λ p.
      if p == 1
      then record { priority = pos 15; exit_status = 0; status = running; rsp = 100 }
      else if p == 3
      then record { priority = pos 0; exit_status = 0; status = ready; rsp = 300 }
      else if p == 5
      then record { priority = negsuc 9; exit_status = 0; status = blocked; rsp = 500 }
      else absent;
  current_running_pid = pos 1;
  force_next_pid = negsuc 1;
  quantums = 4;
}

abbrev out_of_time : Scheduler
out_of_time = record three { quantums = 0 }

switch_goes_on : (sch_switch three 111).0 ≡ 111
unfolding sch_switch choose save_current resume is_ready
switch_goes_on = refl

switch_turns : (sch_switch out_of_time 111).0 ≡ 300
unfolding sch_switch choose save_current resume is_ready take_turn get_next_ready_pid next_ready
switch_turns = refl

quantum_of_three : (sch_switch out_of_time 111).1.quantums ≡ 19
unfolding sch_switch choose save_current resume is_ready take_turn get_next_ready_pid next_ready
    get_quantums
quantum_of_three = refl

get_next_ready_pid-Nearest_example : Nearest three 1 (get_next_ready_pid three)
get_next_ready_pid-Nearest_example = get_next_ready_pid-Nearest three (omega arith)

sch_switch-Dispatched_example :
    Dispatched
      (save_current out_of_time 111)
      (sch_switch out_of_time 111).0
      (sch_switch out_of_time 111).1
sch_switch-Dispatched_example = sch_switch-Dispatched out_of_time 111 (omega arith)

three-IsConsistent : IsConsistent three
three-IsConsistent = record { current_in = omega arith; only_current = λ p h. ground arith }

abbrev script : List Call
script = blocks (pos 1) ∷ switches 111 ∷ creates 7 (pos 3) 700 ∷ kills (pos 3) 9 ∷ switches 333 ∷ []

run-IsConsistent_example : IsConsistent (run three script)
run-IsConsistent_example = run-IsConsistent three script three-IsConsistent

sch_init-IsConsistent_example : IsConsistent (sch_init zeroed)
sch_init-IsConsistent_example = sch_init-IsConsistent zeroed (λ p. refl)

realtime_runs_next_example :
    (sch_switch (sch_unblock three (pos 5)).1 111).1.current_running_pid ≡ pos 5
realtime_runs_next_example =
    realtime_runs_next three 5 111 (omega arith) refl (omega arith) (omega arith) (omega arith)

sch_unblock_lem_example :
    let s' = (sch_unblock three (pos 5)).1 in
    (5 < 32 → s'.processes_states 5 ≡ woken (three.processes_states 5))
    × (s'.current_running_pid ≡ pos 1)
    × (s'.quantums ≡ 4)
    × (s'.kernel_rsp ≡ 77)
sch_unblock_lem_example = sch_unblock_lem three (pos 5) 5

sch_block_lem_example :
    let (r, s') = sch_block three (pos 1) in
    (r ≡ pos 0)
    × ((s'.processes_states 1).status ≡ blocked)
    × (is_ready s' (pos 1) ≡ false)
    × (pos 1 ≡ pos 1 → s'.quantums ≡ 0)
unfolding is_active
sch_block_lem_example = sch_block_lem three (pos 1) refl

exit_status_or_fault_example : sch_get_proc_exit_status three (pos 40) ≡ fault
exit_status_or_fault_example = exit_status_or_fault three (pos 40)

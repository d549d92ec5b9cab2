-- ===== src/Semaphore/Tests.antt =====
-- Runs of the semaphores, and their theorems at such inputs.
use tpe_so_2023_tp.Base.{
  ℕ, ◌+◌, ◌*◌, ◌<◌, ◌≡◌, ◌≢◌, refl, arith, List, [], ◌∷◌, none, some, pos, negsuc, length,
  FirstIndex, first_index, ◌==◌, if◌then◌else◌,
}
use tpe_so_2023_tp.Scheduler.{ProcessState, running, blocked}
use tpe_so_2023_tp.Scheduler.Wake.{woken}
use tpe_so_2023_tp.Text.{strcmp, strlen, strcpy}
use tpe_so_2023_tp.Queue.{Core, Node, QueueAdt, queue_create}
use tpe_so_2023_tp.Semaphore.{
  SemInfo, Semaphores, answers, spins, faults, sem_at, create, is_named, is_unused,
  search_semaphore, search_next, sem_open, sem_close, sem_wait, sem_wait_again, sem_post,
}
use tpe_so_2023_tp.Semaphore.Locks.{LocksFree, waits, perform, call_frees_locks}
use tpe_so_2023_tp.Semaphore.Counting.{
  IsOpen, Use, post, wait, wake, after_uses, given_in, taken_in, value_of, units_add_up,
  post_hands_over, close_faults_sleeper,
}
use tpe_so_2023_tp.Semaphore.Names.{searches_lem}

abbrev sleeper : ProcessState
sleeper = record { priority = pos 0; exit_status = 0; status = blocked; rsp = 800 }

abbrev core : Core
core = record {
  memory = record { answer = λ cs _. 4096 + 32 * length cs; calls = [] };
  scheduler = record {
    kernel_rsp = 0;
    processes_states = λ p. if p == 1 then record sleeper { status = running } else sleeper;
    current_running_pid = pos 1;
    force_next_pid = negsuc 1;
    quantums = 3;
  };
}

abbrev fork_name : List ℕ
fork_name = b'f' ∷ b'1' ∷ []

abbrev node_of_4 : Node
node_of_4 = record { addr = 64; elem = pos 4 }

abbrev one_waits : QueueAdt
one_waits = record { addr = 32; first = node_of_4 ∷ []; last = 64; count = 1 }

abbrev fork : SemInfo
fork = record {
  addr = 48;
  value = 0;
  lock = 0;
  linked_processes = 1;
  name = fork_name;
  waiting_processes = some one_waits;
}

-- Semaphore 2 is the only one, and process 4 sleeps on it.
abbrev table : Semaphores
table = record { semaphores = λ i. if i == 2 then some fork else none; big_lock = 0 }

post_then_wait : (sem_wait core (sem_post core table (pos 2)).2 (pos 2)).0 ≡ answers (pos 0)
unfolding sem_post sem_wait
post_then_wait = refl

opens_free_entry : (sem_open core table (b'x' ∷ []) 1).0 ≡ answers (pos 0)
unfolding sem_open create search_semaphore search_next first_index strcmp strlen strcpy queue_create
opens_free_entry = refl

table-LocksFree : LocksFree table
table-LocksFree = (refl, λ i. ground arith)

table-IsOpen : IsOpen table (pos 2)
table-IsOpen = record { id = refl; here = λ e. cc; big = refl; own = refl }

call_frees_locks_example :
    let (a, _, s') = perform core table (waits (pos 2)) in (a ≢ spins) × (a ≢ faults → LocksFree s')
call_frees_locks_example = call_frees_locks core table (waits (pos 2)) table-LocksFree

abbrev uses : List (Core × Use)
uses = (core, post) ∷ (core, wake 4) ∷ (core, post) ∷ (core, wait) ∷ (core, wait) ∷ []

units_add_up_example :
    IsOpen (after_uses table (pos 2) uses) (pos 2)
    × (value_of (sem_at (after_uses table (pos 2) uses) (pos 2)) + taken_in table (pos 2) uses
        ≡ 0 + given_in uses)
unfolding given_in
units_add_up_example = units_add_up table (pos 2) uses table-IsOpen few
  where
    few : 0 + given_in uses < 256
    few = omega arith

post_hands_over_example :
    let (_, c1, s1) = sem_post core table (pos 2) in
    let (a, _, s2) = sem_wait_again core s1 (pos 2) 4 in
    (c1.scheduler.processes_states 4 ≡ woken sleeper)
    × (a ≡ answers (pos 0))
    × (value_of (sem_at s2 (pos 2)) ≡ 0)
post_hands_over_example =
    post_hands_over core core table (pos 2) fork one_waits node_of_4 [] 4 table-IsOpen refl refl
      refl refl refl (omega arith)

close_faults_sleeper_example :
    (sem_wait_again core (sem_close core table (pos 2)).2 (pos 2) 4).0 ≡ faults
close_faults_sleeper_example =
    close_faults_sleeper core core table (pos 2) fork 4 table-IsOpen refl refl

searches_lem_example :
    FirstIndex 0 32 (is_named table fork_name) (search_semaphore table fork_name)
    × FirstIndex 0 32 (is_unused table) (search_next table)
searches_lem_example = searches_lem table fork_name

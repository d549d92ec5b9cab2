-- ===== src/Semaphore/Counting.antt =====
-- What Kernel/ipc/semaphore.c counts: sem_post gives a unit and sem_wait takes one or sleeps.
use tpe_so_2023_tp.Base.{
  ℕ, ◌+◌, ◌<◌, ◌≡◌, ◌≢◌, refl, arith, true, List, [], ◌∷◌, Option, none, some, ℤ, pos, ◌==ℤ◌, ◌⊎◌,
}
use tpe_so_2023_tp.Scheduler.Wake.{woken}
use tpe_so_2023_tp.Queue.{Core, Node, QueueAdt}
use tpe_so_2023_tp.Queue.Waking.{queue_unblock_wakes}
use tpe_so_2023_tp.Semaphore.Locks.{lock_of}
use tpe_so_2023_tp.Semaphore.{
  SemInfo, Semaphores, Answer, answers, sleeps, faults, Result, sem_at, is_valid_id, sem_close,
  sem_wait, sem_wait_again, sem_post,
}

-- The value of a semaphore of the table.
abbrev pub value_of : Option SemInfo → ℕ
value_of none = 0
value_of (some info) = info.value

-- The semaphore is there, and the locks are free.
pub record IsOpen (s : Semaphores) (sem : ℤ) : Type 0 where
  pub id : is_valid_id sem ≡ true
  pub here : sem_at s sem ≢ none
  pub big : s.big_lock ≡ 0
  pub own : lock_of (sem_at s sem) ≡ 0

-- The calls on a semaphore that is not closed meanwhile. Between two of them anything may happen to
-- the heap and the scheduler, which each call finds in a state of its own.
pub data Use : Type 0 where
  post : Use
  wait : Use
  wake : ℕ → Use

pub use_of : Core → Semaphores → ℤ → Use → Result
use_of c s sem post = sem_post c s sem
use_of c s sem wait = sem_wait c s sem
use_of c s sem (wake pid) = sem_wait_again c s sem pid

-- The units that a use gives, and those that it takes, by its answer.
abbrev pub given : Use → ℕ
given post = 1
given _ = 0

abbrev pub taken : Use → Answer → ℕ
taken post _ = 0
taken wait (answers _) = 1
taken wait _ = 0
taken (wake pid) (answers _) = 1
taken (wake pid) _ = 0

-- One use: it answers or sleeps, the semaphore stays open, and the units add up.
abbrev pub Counts : Semaphores → ℤ → Use → Result → Type 0
Counts s sem u (a, c, s') =
    IsOpen s' sem
    × ((a ≡ answers (pos 0)) ⊎ (a ≡ sleeps))
    × (value_of (sem_at s' sem) + taken u a ≡ value_of (sem_at s sem) + given u)

use-Counts :
    (c : Core) (s : Semaphores) (sem : ℤ) (u : Use)
    → IsOpen s sem
    → value_of (sem_at s sem) + given u < 256
    → Counts s sem u (use_of c s sem u)
unfolding use_of sem_post sem_wait sem_wait_again
use-Counts c s sem post v h = ground arith
use-Counts c s sem wait v h = ground arith
use-Counts c s sem (wake pid) v h = ground arith

-- A history of uses, in the order in which they run.
pub after_uses : Semaphores → ℤ → List (Core × Use) → Semaphores
after_uses s sem [] = s
after_uses s sem ((c, u) ∷ us) = after_uses (use_of c s sem u).2 sem us

unfoldable pub given_in : List (Core × Use) → ℕ
given_in [] = 0
given_in ((_, u) ∷ us) = given u + given_in us

pub taken_in : Semaphores → ℤ → List (Core × Use) → ℕ
taken_in s sem [] = 0
taken_in s sem ((c, u) ∷ us) = let r = use_of c s sem u in taken u r.0 + taken_in r.2 sem us

-- Over any interleaving of posts, waits and resumed waits on an open semaphore, the units that were
-- there or posted are those taken by the waits that returned and those still there, as long as
-- they fit the uint8_t; and the semaphore stays open, its locks free.
pub units_add_up :
    (s : Semaphores) (sem : ℤ) (us : List (Core × Use))
    → IsOpen s sem
    → value_of (sem_at s sem) + given_in us < 256
    → IsOpen (after_uses s sem us) sem
      × (value_of (sem_at (after_uses s sem us) sem) + taken_in s sem us
          ≡ value_of (sem_at s sem) + given_in us)
unfolding after_uses given_in taken_in
units_add_up s sem [] v h = (v, refl)
units_add_up s sem ((c, u) ∷ us) v h =
    let (v', _, e) = use-Counts c s sem u v (omega arith) in
    let s' = (use_of c s sem u).2 in
    let rest = units_add_up s' sem us v' (omega (arith, e)) in (rest.0, omega (arith, e, rest.1))

-- A process that sleeps in sem_wait on a semaphore without units, as the oldest in its queue, is made
-- ready by sem_post, and when it goes on, whatever the scheduler and heap are by then, it takes the
-- unit and its sem_wait returns 0.
pub post_hands_over :
    (c c' : Core) (s : Semaphores) (sem : ℤ) (info : SemInfo) (q : QueueAdt) (n : Node)
    (ns : List Node) (p : ℕ)
    → IsOpen s sem
    → sem_at s sem ≡ some info
    → info.value ≡ 0
    → info.waiting_processes ≡ some q
    → q.first ≡ n ∷ ns
    → n.elem ≡ pos p
    → p < 32
    → let (_, c1, s1) = sem_post c s sem in
      let (a, _, s2) = sem_wait_again c' s1 sem p in
      (c1.scheduler.processes_states p ≡ woken (c.scheduler.processes_states p))
      × (a ≡ answers (pos 0))
      × (value_of (sem_at s2 sem) ≡ 0)
unfolding sem_post sem_wait_again
post_hands_over c c' s sem info q n ns p v here zero_units queue chain e lt =
    let wakes = (queue_unblock_wakes c q n ns p chain lt).0 in
    let self : (n.elem ==ℤ pos p) ≡ true = ground arith in
    (ground (arith, wakes, self), ground arith, ground arith)

-- After the last user closes a semaphore, a process that still sleeps in sem_wait on it goes on
-- through the cleared entry of the table, a NULL pointer.
pub close_faults_sleeper :
    (c c' : Core) (s : Semaphores) (sem : ℤ) (info : SemInfo) (pid : ℕ)
    → IsOpen s sem
    → sem_at s sem ≡ some info
    → info.linked_processes ≡ 1
    → (sem_wait_again c' (sem_close c s sem).2 sem pid).0 ≡ faults
unfolding sem_close sem_wait_again
close_faults_sleeper c c' s sem info pid v here last = ground arith

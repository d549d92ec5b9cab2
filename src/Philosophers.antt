-- ===== src/Philosophers.antt =====
-- Userland/SampleCodeModule/programs/philosophers.c: the dining philosophers. Here is what each of them does at
-- the table; Philosophers/Setup.antt has the process that seats them.
pub mod Forks
pub mod Table
pub mod Progress
pub mod Ending
pub mod Setup
mod Tests
use tpe_so_2023_tp.Base.{
  ℕ, zero, suc, ◌+◌, ◌-◌, ◌%◌, ◌<◌, ◌≡◌, Bool, true, false, ltb, ◌==◌, if◌then◌else◌, update,
  Option, none, some,
}

pub data PhilosopherState : Type 0 where
  eating : PhilosopherState
  hungry : PhilosopherState
  thinking : PhilosopherState

-- The call that a philosopher's process makes next; `sleeps` and `eats` are its two calls of asm_sleep, and `done`
-- is its end.
pub data Pc : Type 0 where
  sleeps : Pc
  waits_big : Pc
  waits_own : Pc
  waits_neighbour : Pc
  posts_big : Pc
  eats : Pc
  posts_neighbour : Pc
  posts_own : Pc
  done : Pc

-- What it has stored in its philo_state by then.
abbrev pub philo_state : Pc → PhilosopherState
philo_state sleeps = thinking
philo_state waits_big = hungry
philo_state waits_own = hungry
philo_state waits_neighbour = hungry
philo_state posts_big = hungry
philo_state eats = eating
philo_state posts_neighbour = eating
philo_state posts_own = eating
philo_state done = thinking

-- The values of the semaphores `sem_big_fork` and `forks[i]`, and where each philosopher is.
pub record Dinner : Type 0 where
  pub big_fork : ℕ
  pub forks : ℕ → ℕ
  pub pc : ℕ → Pc

abbrev pub neighbour : ℕ → ℕ → ℕ
neighbour philo_count idx = (idx + 1) % philo_count

-- asm_sem_wait returns only when there is a unit, which it takes.
abbrev wait_big : Dinner → Option Dinner
wait_big d = if ltb 0 d.big_fork then some (record d { big_fork = d.big_fork - 1 }) else none

abbrev wait_fork : Dinner → ℕ → Option Dinner
wait_fork d i =
    if ltb 0 (d.forks i) then some (record d { forks = update d.forks i (d.forks i - 1) }) else none

abbrev post_big : Dinner → Dinner
post_big d = record d { big_fork = d.big_fork + 1 }

abbrev post_fork : Dinner → ℕ → Dinner
post_fork d i = record d { forks = update d.forks i (d.forks i + 1) }

abbrev go_on : ℕ → Pc → Option Dinner → Option Dinner
go_on idx p none = none
go_on idx p (some d) = some (record d { pc = update d.pc idx p })

-- philo_think and philo_eat from one call to the next, for the philosopher `idx`. print_state, which they call
-- between these, reads the states and writes only to the screen (Philosophers/Setup.antt).
pub perform : ℕ → Dinner → ℕ → Pc → Option Dinner
perform n d idx sleeps = go_on idx waits_big (some d)
perform n d idx waits_big = go_on idx waits_own (wait_big d)
perform n d idx waits_own = go_on idx waits_neighbour (wait_fork d idx)
perform n d idx waits_neighbour = go_on idx posts_big (wait_fork d (neighbour n idx))
perform n d idx posts_big = go_on idx eats (some (post_big d))
perform n d idx eats = go_on idx posts_neighbour (some d)
perform n d idx posts_neighbour = go_on idx posts_own (some (post_fork d (neighbour n idx)))
perform n d idx posts_own = go_on idx done (some (post_fork d idx))
perform n d idx done = none

pub step : ℕ → Dinner → ℕ → Option Dinner
step n d idx = perform n d idx (d.pc idx)

-- All sit down with every semaphore at 1.
abbrev pub seated : Dinner
seated = record { big_fork = 1; forks = λ i. 1; pc = λ i. sleeps }

-- Any philosopher whose call returns may be the next.
pub data Run (n : ℕ) : ℕ → Dinner → Dinner → Type 0 where
  rest : (d : Dinner) → Run n 0 d d
  then_one :
      {k : ℕ} {c d e : Dinner}
      → Run n k c d
      → (i : ℕ) → i < n
      → step n d i ≡ some e
      → Run n (suc k) c e

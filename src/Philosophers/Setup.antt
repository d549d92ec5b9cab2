-- ===== src/Philosophers/Setup.antt =====
-- The process of Userland/SampleCodeModule/programs/philosophers.c that seats the philosophers, waits for them, and
-- sends them away.
pub mod Seating
pub mod Ready
mod Tests
use tpe_so_2023_tp.Base.{
  ℕ, zero, suc, ◌+◌, ◌-◌, ◌%◌, Bool, true, false, ◌||◌, ◌&&◌, not, ltb, ◌==◌, if◌then◌else◌, List,
  [], ◌∷◌, update, ℤ, pos, negsuc, pos_part, minus_one, ltb_ℤ, leb_ℤ, ◌==ℤ◌, Option, none, some,
  Outcome, returned, fault, ◌>>=◌,
}
use tpe_so_2023_tp.Stdlib.{int_to_str, str_to_int, strcat}
use tpe_so_2023_tp.Philosophers.{PhilosopherState, thinking, eating, hungry}

-- A system call, as far as its arguments tell it from others.
pub data Call : Type 0 where
  puts : List ℕ → Call
  execve : ℕ → List ℕ → Call
  malloc : Call
  free : ℕ → Call
  sem_open : List ℕ → ℕ → Call
  sem_close : ℤ → Call
  kill : ℤ → Call
  waitpid : ℤ → Call

-- What the kernel answers, given the calls made so far, the latest first.
pub record Answers : Type 0 where
  pub pid_of : List Call → ℤ
  pub block_of : List Call → ℕ
  pub sem_of : List Call → ℤ

-- `philos`, `forks` and the other static variables, with the calls made so far. A name is its index in philo_names.
pub record Seats : Type 0 where
  pub philo_name : ℕ → Option ℕ
  pub state : ℕ → PhilosopherState
  pub philo_pid : ℕ → ℤ
  pub forks : ℕ → ℤ
  pub sem_big_fork : ℤ
  pub philo_count : ℤ
  pub calls : List Call

abbrev max_philosophers : ℕ
max_philosophers = 12

abbrev min_philosophers : ℕ
min_philosophers = 5

-- "sem_fork" and "sem_big_fork"
abbrev pub fork_sem_name : List ℕ
fork_sem_name = b's' ∷ b'e' ∷ b'm' ∷ b'_' ∷ b'f' ∷ b'o' ∷ b'r' ∷ b'k' ∷ []

abbrev pub big_fork_name : List ℕ
big_fork_name =
    b's' ∷ b'e' ∷ b'm' ∷ b'_' ∷ b'b' ∷ b'i' ∷ b'g' ∷ b'_' ∷ b'f' ∷ b'o' ∷ b'r' ∷ b'k' ∷ []

abbrev pub call : Seats → Call → Seats
call s c = record s { calls = c ∷ s.calls }

-- A message of the program to its user; which one does not matter here.
abbrev pub message : Call
message = puts []

-- `int_to_str(idx, buff)`: `buff` has two bytes, and the NUL is written, too.
abbrev in_buff : ℕ → Outcome (List ℕ)
in_buff idx =
    let (digits, text) = int_to_str (pos idx) in if ltb 2 (digits + 1) then fault else returned text

-- What one function of the file returns, with the static variables after it.
abbrev Result : Type 0
Result = Outcome (Seats × ℤ)

abbrev enter_philo : Answers → Seats → ℕ → List ℕ → Seats
enter_philo env s idx text =
    let s1 =
      call
        (record s {
          philo_name = update s.philo_name idx (some idx);
          state = update s.state idx thinking;
        })
        (execve idx text) in
    record s1 { philo_pid = update s1.philo_pid idx (env.pid_of s1.calls) }

abbrev is_none : Option ℕ → Bool
is_none none = true
is_none (some x) = false

pub add_philo : Answers → Seats → ℕ → Outcome (Seats × ℤ)
add_philo env s idx =
    if not (is_none (s.philo_name idx))
    then returned (call s message, minus_one)
    else in_buff idx >>= λ text. returned (enter_philo env s idx text, pos 0)

-- The loop of terminate_philos, from `i` on.
pub kill_from : Seats → ℕ → ℕ → Seats
kill_from s i zero = s
kill_from s i (suc n) =
    let s1 = call s (kill (s.philo_pid i)) in
    kill_from (record s1 { philo_name = update s1.philo_name i none }) (i + 1) n

pub terminate_philos : Seats → Seats
terminate_philos s = kill_from s 0 (pos_part s.philo_count)

pub close_from : Seats → ℕ → ℕ → Seats
close_from s i zero = s
close_from s i (suc n) =
    let rest = close_from (call s (sem_close (s.forks i))) (i + 1) n in
    if leb_ℤ minus_one (s.forks i) then rest else s

pub clear_from : Seats → ℕ → ℕ → Seats
clear_from s i zero = s
clear_from s i (suc n) = clear_from (record s { forks = update s.forks i minus_one }) (i + 1) n

pub terminate_forks : Seats → Seats
terminate_forks s =
    let s1 = close_from s 0 max_philosophers in
    clear_from (call s1 (sem_close s1.sem_big_fork)) 0 (pos_part s.philo_count)

pub philo_kill : Seats → Seats
philo_kill s = terminate_forks (terminate_philos s)

-- Opening the semaphore, and the block with its name given back.
abbrev open_fork : Answers → Seats → ℕ → ℕ → List ℕ → Seats
open_fork env s idx block name =
    let s1 = call s (sem_open name 1) in
    call (record s1 { forks = update s1.forks idx (env.sem_of s1.calls) }) (free block)

pub checked : Seats → ℕ → Seats × ℤ
checked s idx =
    if s.forks idx ==ℤ minus_one then (philo_kill (call s message), minus_one) else (s, pos 0)

pub add_fork : Answers → Seats → ℕ → Outcome (Seats × ℤ)
add_fork env s idx =
    let s1 = call s malloc in
    let block = env.block_of s1.calls in
    if not (s.forks idx ==ℤ minus_one)
    then returned (s, minus_one)
    else in_buff idx >>= λ text. strcat block fork_sem_name text >>= λ name.
        returned (checked (open_fork env s1 idx block name) idx)

-- The first two loops of init_philo_dilemma.
pub unseat_from : Seats → ℕ → ℕ → Seats
unseat_from s i zero = s
unseat_from s i (suc n) =
    unseat_from
      (record s { philo_name = update s.philo_name i none; forks = update s.forks i minus_one })
      (i + 1) n

pub add_from : Answers → Seats → ℕ → ℕ → Outcome (Seats × ℤ)
add_from env s i zero = returned (s, pos 0)
add_from env s i (suc n) = add_philo env s i >>= λ after_philo.
    if after_philo.1 ==ℤ minus_one
    then returned (after_philo.0, minus_one)
    else add_fork env after_philo.0 i >>= λ after_fork.
        if after_fork.1 ==ℤ minus_one
        then returned (after_fork.0, minus_one)
        else add_from env after_fork.0 (i + 1) n

pub wait_from : Seats → ℕ → ℕ → Seats
wait_from s i zero = s
wait_from s i (suc n) = wait_from (call s (waitpid (s.philo_pid i))) (i + 1) n

-- The big fork, and the wait for everyone.
pub serve : Answers → Seats → Seats × ℤ
serve env s =
    let s1 = call s (sem_open big_fork_name 1) in
    let s2 = record s1 { sem_big_fork = env.sem_of s1.calls } in
    if s2.sem_big_fork ==ℤ minus_one
    then (philo_kill (call s2 message), minus_one)
    else (wait_from s2 0 (pos_part s2.philo_count), pos 0)

-- Below the reading of the argument.
pub seat_all : Answers → Seats → ℤ → Outcome (Seats × ℤ)
seat_all env s count =
    let s1 = record s { philo_count = count } in
    let n = pos_part count in
    if ltb_ℤ count (pos min_philosophers) || ltb_ℤ (pos max_philosophers) count
    then returned (call s1 message, minus_one)
    else (add_from env (unseat_from s1 0 n) 0 n >>= λ seated.
        if seated.1 ==ℤ minus_one
        then returned (seated.0, minus_one)
        else returned (serve env seated.0))

pub init_philo_dilemma : Answers → Seats → ℕ → List ℕ → Outcome (Seats × ℤ)
init_philo_dilemma env s argc argv0 =
    if not (argc == 1)
    then returned (s, minus_one)
    else str_to_int argv0 >>= λ count. seat_all env s count

-- What print_state prints of each philosopher, before the blank.
abbrev pub shown : PhilosopherState → ℕ
shown eating = b'E'
shown hungry = b'h'
shown thinking = b'-'

pub print_from : Seats → ℕ → ℕ → List ℕ
print_from s i zero = b'\n' ∷ []
print_from s i (suc n) = shown (s.state i) ∷ b' ' ∷ print_from s (i + 1) n

pub print_state : Seats → List ℕ
print_state s = print_from s 0 (pos_part s.philo_count)

-- Of an answer of GetUniform.
pub get_thinking_time : ℕ → ℕ
get_thinking_time uniform = 2000 + uniform % (5000 - 2000 + 1)

pub get_eating_time : ℕ → ℕ
get_eating_time uniform = 2000 + uniform % (5000 - 2000 + 1)

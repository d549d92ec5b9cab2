-- ===== src/Philosophers/Setup/Tests.antt =====
-- Seats for five by Userland/SampleCodeModule/programs/philosophers.c, and the theorems on them.
use tpe_so_2023_tp.Base.{
  ℕ, ◌+◌, ◌≡◌, ◌≢◌, refl, arith, List, [], ◌∷◌, length, ◌⊎◌, inr, pos, minus_one, none, returned,
  fault, if◌then◌else◌, ◌==◌,
}
use tpe_so_2023_tp.Stdlib.{int_to_str, str_to_int}
use tpe_so_2023_tp.Stdlib.Numbers.{str_to_int-int_to_str}
use tpe_so_2023_tp.Philosophers.{eating}
use tpe_so_2023_tp.Philosophers.Setup.{
  Answers, Seats, init_philo_dilemma, call, puts, get_thinking_time, print_state, print_from,
  terminate_forks, close_from, clear_from,
}
use tpe_so_2023_tp.Philosophers.Setup.Seating.{IsAble}
use tpe_so_2023_tp.Philosophers.Setup.Ready.{
  AllSeated, init_philo_dilemma-AllSeated, init_philo_dilemma_overflows, init_philo_dilemma_refuses,
}

-- A kernel that gives every semaphore the next number.
abbrev kernel_answers : Answers
kernel_answers = record {
  pid_of = λ cs. pos (length cs);
  block_of = λ cs. 4096;
  sem_of = λ cs. pos (length cs);
}

pos_ne : (n : ℕ) → pos n ≢ minus_one
pos_ne n e = ground (arith, e)

kernel_answers-IsAble : IsAble kernel_answers
kernel_answers-IsAble = record { blocks = λ cs. omega arith; sems = λ cs. pos_ne (length cs) }

-- The static variables at the start of the program.
abbrev at_start : Seats
at_start = record {
  philo_name = λ i. none;
  state = λ i. eating;
  philo_pid = λ i. pos 0;
  forks = λ i. pos 0;
  sem_big_fork = pos 0;
  philo_count = pos 0;
  calls = [];
}

abbrev digits_of : ℕ → List ℕ
digits_of n = (int_to_str (pos n)).1

five : str_to_int (digits_of 5) ≡ returned (pos 5)
five = str_to_int-int_to_str (pos 5) (omega arith) (omega arith)

eleven : str_to_int (digits_of 11) ≡ returned (pos (11 + 0))
eleven = str_to_int-int_to_str (pos 11) (omega arith) (omega arith)

init_philo_dilemma-AllSeated_example :
    (s' : Seats) × ((init_philo_dilemma kernel_answers at_start 1 (digits_of 5)
        ≡ returned (s', pos 0))
      × AllSeated 5 s')
init_philo_dilemma-AllSeated_example =
    init_philo_dilemma-AllSeated kernel_answers at_start (digits_of 5) 5 kernel_answers-IsAble five
      (omega arith) (omega arith)

init_philo_dilemma_overflows_example :
    init_philo_dilemma kernel_answers at_start 1 (digits_of 11) ≡ fault
init_philo_dilemma_overflows_example =
    init_philo_dilemma_overflows kernel_answers at_start (digits_of 11) 0 kernel_answers-IsAble
      eleven (omega arith)

four : str_to_int (digits_of 4) ≡ returned (pos 4)
four = str_to_int-int_to_str (pos 4) (omega arith) (omega arith)

init_philo_dilemma_refuses_example :
    (init_philo_dilemma kernel_answers at_start 1 (digits_of 4) ≡ returned (at_start, minus_one))
    ⊎ (init_philo_dilemma kernel_answers at_start 1 (digits_of 4)
        ≡ returned (call (record at_start { philo_count = pos 4 }) (puts []), minus_one))
init_philo_dilemma_refuses_example =
    init_philo_dilemma_refuses kernel_answers at_start 1 (digits_of 4) (pos 4) four (inr refl)

-- Five forks are open; the seven entries behind them name semaphore 0, which is closed seven times.
abbrev five_forks : Seats
five_forks = record at_start { forks = λ i. if i == 0 then pos 9 else pos 0; philo_count = pos 1 }

closes_too_many : length (terminate_forks five_forks).calls ≡ 13
unfolding terminate_forks close_from clear_from
closes_too_many = refl

times : get_thinking_time 4000 ≡ 2999
unfolding get_thinking_time
times = refl

printed : print_state (record at_start { philo_count = pos 1 }) ≡ b'E' ∷ b' ' ∷ b'\n' ∷ []
unfolding print_state print_from
printed = refl

-- ===== src/Philosophers/Setup/Ready.antt =====
-- init_philo_dilemma of Userland/SampleCodeModule/programs/philosophers.c, from its argument on.
use native.Mathlib.Decide.{ℕ_discrete}
use tpe_so_2023_tp.Base.{
  ℕ, zero, suc, ◌+◌, ◌≤◌, ◌<◌, ◌≡◌, ◌≢◌, refl, sym, ap, ◌∙◌, arith, subst, true, false, ◌||◌, ◌==◌,
  List, ◌∷◌, update, ℤ, pos, pos_part, minus_one, ltb_ℤ, ◌==ℤ◌, none, returned, fault, ==ℤ_eq,
  Bool-cases, inl, inr, ◌⊎◌,
}
use tpe_so_2023_tp.Stdlib.{str_to_int}
use tpe_so_2023_tp.Philosophers.Setup.{
  Answers, Seats, add_philo, add_from, unseat_from, wait_from, serve, seat_all, init_philo_dilemma,
  sem_open, big_fork_name, call, waitpid, message,
}
use tpe_so_2023_tp.Philosophers.Setup.Seating.{
  IsAble, IsFree, IsTaken, Filled, add_from-Filled, in_buff_two,
}

abbrev unseat : Seats → ℕ → Seats
unseat s i = record s {
  philo_name = update s.philo_name i none;
  forks = update s.forks i minus_one;
}

unchanged : {A : Type 0} → (f : ℕ → A) (i j : ℕ) (v : A) → j ≢ i → update f i v j ≡ f j
unchanged f i j v ne = ground arith

unseat-IsFree : (s : Seats) (i j : ℕ) → (j < i → IsFree s j) → j < i + 1 → IsFree (unseat s i) j
unseat-IsFree s i j free lt = elim (ℕ_discrete j i) [
  | yes same ↦ (ground arith, ground arith)
  | no other ↦ (
    unchanged s.philo_name i j none other ∙ (free (omega arith)).0,
    unchanged s.forks i j minus_one other ∙ (free (omega arith)).1,
  )
]

unseat_from-IsFree :
    (n i j : ℕ) (s : Seats) → (j < i → IsFree s j) → j < i + n → IsFree (unseat_from s i n) j
unfolding unseat_from
unseat_from-IsFree zero i j s free lt = free (omega arith)
unseat_from-IsFree (suc n) i j s free lt =
    unseat_from-IsFree n (i + 1) j (unseat s i) (λ le. unseat-IsFree s i j (λ lt'. free lt') le)
      (omega arith)

unseat_from-count : (n i : ℕ) (s : Seats) → (unseat_from s i n).philo_count ≡ s.philo_count
unfolding unseat_from
unseat_from-count zero i s = refl
unseat_from-count (suc n) i s = unseat_from-count n (i + 1) (unseat s i)

-- The waiting changes no seat.
abbrev SameSeats : Seats → Seats → Type 0
SameSeats s s' =
    (s'.philo_name ≡ s.philo_name)
    × (s'.forks ≡ s.forks)
    × (s'.sem_big_fork ≡ s.sem_big_fork)
    × (s'.philo_count ≡ s.philo_count)

wait_from-SameSeats : (n i : ℕ) (s : Seats) → SameSeats s (wait_from s i n)
unfolding wait_from
wait_from-SameSeats zero i s = (refl, refl, refl, refl)
wait_from-SameSeats (suc n) i s = wait_from-SameSeats n (i + 1) (call s (waitpid (s.philo_pid i)))

-- Everyone has a seat and a fork, and there is a big fork.
pub record AllSeated (n : ℕ) (s : Seats) : Type 0 where
  pub taken : (i : ℕ) → i < n → IsTaken s i
  pub big : s.sem_big_fork ≢ minus_one
  pub count : s.philo_count ≡ pos n

not_minus_one : (r : ℤ) → r ≢ minus_one → (r ==ℤ minus_one) ≡ false
not_minus_one r ne = elim (Bool-cases (r ==ℤ minus_one)) [
  | inl e ↦ absurd (ne (==ℤ_eq r minus_one e))
  | inr e ↦ e
]

serve-AllSeated :
    (env : Answers) (s : Seats) (n : ℕ)
    → IsAble env
    → ((i : ℕ) → i < n → IsTaken s i)
    → s.philo_count ≡ pos n
    → (s' : Seats) × ((serve env s ≡ (s', pos 0)) × AllSeated n s')
unfolding serve
serve-AllSeated env s n able taken count =
    let cs = sem_open big_fork_name 1 ∷ s.calls in
    let opened = able.sems cs in
    let s2 = record (call s (sem_open big_fork_name 1)) { sem_big_fork = env.sem_of cs } in
    let (names, forks, big, counts) = wait_from-SameSeats (pos_part s.philo_count) 0 s2 in
    let not_failed : (env.sem_of cs ==ℤ minus_one) ≡ false = not_minus_one (env.sem_of cs) opened in
    (
      wait_from s2 0 (pos_part s.philo_count),
      (
        rw not_failed refl,
        record {
          taken = λ i lt. (
            ap (λ f. f i) names ∙ (taken i lt).0,
            λ e. (taken i lt).1 (sym (ap (λ f. f i) forks) ∙ e),
          );
          big = λ e. opened (sym big ∙ e);
          count = counts ∙ count;
        },
      ),
    )

-- The loop of init_philo_dilemma with seats for the first `k`.
some_seated :
    (env : Answers) (s : Seats) (k n : ℕ)
    → IsAble env
    → k ≤ 10
    → (let s1 = record s { philo_count = pos (k + n) } in
        (s' : Seats) × ((add_from env (unseat_from s1 0 (k + n)) 0 (k + n) ≡ add_from env s' k n)
          × Filled (unseat_from s1 0 (k + n)) 0 k s'))
some_seated env s k n able le =
    let s1 = record s { philo_count = pos (k + n) } in
    let free : (j : ℕ) → 0 ≤ j → j < 0 + k → IsFree (unseat_from s1 0 (k + n)) j =
      λ j lo hi. unseat_from-IsFree (k + n) 0 j s1 (λ lt. absurd (omega arith)) (omega arith) in
    let (s', (loop, filled)) =
      add_from-Filled env (unseat_from s1 0 (k + n)) 0 k n able (omega arith) free in
    let e : 0 + k ≡ k = omega arith in (s', (loop ∙ ap (λ z. add_from env s' z n) e, filled))

add_from-zero : (env : Answers) (s : Seats) (i : ℕ) → add_from env s i 0 ≡ returned (s, pos 0)
unfolding add_from
add_from-zero env s i = refl

seat_all_lem :
    (env : Answers) (s s' : Seats) (n : ℕ)
    → 5 ≤ n
    → n ≤ 12
    → add_from env (unseat_from (record s { philo_count = pos n }) 0 n) 0 n ≡ returned (s', pos 0)
    → seat_all env s (pos n) ≡ returned (serve env s')
unfolding seat_all
seat_all_lem env s s' n lo hi loop =
    let inside : (ltb_ℤ (pos n) (pos 5) || ltb_ℤ (pos 12) (pos n)) ≡ false = ground arith in
    rw (inside, loop) refl

seat_all_faults :
    (env : Answers) (s : Seats) (n : ℕ)
    → 5 ≤ n
    → n ≤ 12
    → add_from env (unseat_from (record s { philo_count = pos n }) 0 n) 0 n ≡ fault
    → seat_all env s (pos n) ≡ fault
unfolding seat_all
seat_all_faults env s n lo hi loop =
    let inside : (ltb_ℤ (pos n) (pos 5) || ltb_ℤ (pos 12) (pos n)) ≡ false = ground arith in
    rw (inside, loop) refl

init_reads :
    (env : Answers) (s : Seats) (argv0 : List ℕ) (count : ℤ)
    → str_to_int argv0 ≡ returned count
    → init_philo_dilemma env s 1 argv0 ≡ seat_all env s count
unfolding init_philo_dilemma
init_reads env s argv0 count read = rw read refl

-- Where the kernel has memory and semaphores, from 5 to 10 philosophers all get a seat and a fork, the big fork
-- is there, and the call returns 0.
pub init_philo_dilemma-AllSeated :
    (env : Answers) (s : Seats) (argv0 : List ℕ) (n : ℕ)
    → IsAble env
    → str_to_int argv0 ≡ returned (pos n)
    → 5 ≤ n
    → n ≤ 10
    → (s' : Seats) × ((init_philo_dilemma env s 1 argv0 ≡ returned (s', pos 0)) × AllSeated n s')
init_philo_dilemma-AllSeated env s argv0 n able read lo hi =
    let e : n + 0 ≡ n = omega arith in
    let (s1, (loop, filled)) =
      subst
        (λ z.
          (s' : Seats) × ((add_from env (unseat_from (record s { philo_count = pos z }) 0 z) 0 z
              ≡ add_from env s' n 0)
            × Filled (unseat_from (record s { philo_count = pos z }) 0 z) 0 n s'))
        e (some_seated env s n 0 able hi) in
    let count = filled.count ∙ unseat_from-count n 0 (record s { philo_count = pos n }) in
    let (s', (served, all)) =
      serve-AllSeated env s1 n able (λ i lt. filled.taken i (omega arith) (omega arith)) count in
    (
      s',
      (
        init_reads env s argv0 (pos n) read
            ∙ seat_all_lem env s s1 n lo (omega arith) (loop ∙ add_from-zero env s1 n)
            ∙ ap returned served,
        all,
      ),
    )

eleventh :
    (env : Answers) (s : Seats) (n : ℕ) → s.philo_name 10 ≡ none → add_from env s 10 (suc n) ≡ fault
unfolding add_from add_philo
eleventh env s n empty = rw (empty, in_buff_two 10 (omega arith) (omega arith)) refl

-- With 11 or 12 philosophers, which the program accepts, the number of the eleventh is written past `buff`.
pub init_philo_dilemma_overflows :
    (env : Answers) (s : Seats) (argv0 : List ℕ) (n : ℕ)
    → IsAble env
    → str_to_int argv0 ≡ returned (pos (11 + n))
    → n ≤ 1
    → init_philo_dilemma env s 1 argv0 ≡ fault
init_philo_dilemma_overflows env s argv0 n able read hi =
    let s0 = record s { philo_count = pos (10 + suc n) } in
    let (s1, (loop, filled)) = some_seated env s 10 (suc n) able (omega arith) in
    let free = unseat_from-IsFree (10 + suc n) 0 10 s0 (λ lt. absurd (omega arith)) (omega arith) in
    let empty = filled.names 10 (inr (omega arith)) ∙ free.0 in
    let e : 11 + n ≡ 10 + suc n = omega arith in
    init_reads env s argv0 (pos (10 + suc n)) (read ∙ ap (λ z. returned (pos z)) e)
    ∙ seat_all_faults env s (10 + suc n) (omega arith) (omega arith)
        (loop ∙ eleventh env s1 n empty)

-- Another number of arguments and a number below 5 or above 12 are refused, with no process made.
pub init_philo_dilemma_refuses :
    (env : Answers) (s : Seats) (argc : ℕ) (argv0 : List ℕ) (count : ℤ)
    → str_to_int argv0 ≡ returned count
    → (argc ≢ 1) ⊎ ((ltb_ℤ count (pos 5) || ltb_ℤ (pos 12) count) ≡ true)
    → (init_philo_dilemma env s argc argv0 ≡ returned (s, minus_one))
      ⊎ (init_philo_dilemma env s argc argv0
          ≡ returned (call (record s { philo_count = count }) message, minus_one))
unfolding init_philo_dilemma seat_all
init_philo_dilemma_refuses env s argc argv0 count read why = elim (ℕ_discrete argc 1) [
  | no other ↦ let e : (argc == 1) ≡ false = ground arith in inl (rw e refl)
  | yes one ↦ elim why [
    | inl other ↦ absurd (other one)
    | inr outside ↦ inr (rw one (rw read (rw outside refl)))
  ]
]

-- ===== src/Philosophers/Setup/Seating.antt =====
-- init_philo_dilemma of Userland/SampleCodeModule/programs/philosophers.c: who is seated in the end.
use tpe_so_2023_tp.Base.{
  ℕ, zero, suc, ◌+◌, ◌≤◌, ◌<◌, ◌≡◌, ◌≢◌, refl, sym, ap, ◌∙◌, arith, subst, List, ◌∷◌, update, ℤ,
  pos, minus_one, ◌==ℤ◌, Option, none, some, returned, fault, ==ℤ_eq, Bool-cases, inl, inr, ◌⊎◌,
  ap₂,
}
use native.Mathlib.Decide.{ℕ_discrete}
use tpe_so_2023_tp.Stdlib.{int_to_str, joined, strcat_returns}
use tpe_so_2023_tp.Stdlib.Numbers.{one_digit, two_digits}
use tpe_so_2023_tp.Philosophers.Setup.{
  Answers, Seats, in_buff, enter_philo, open_fork, add_philo, add_fork, add_from, Call, call,
  malloc, fork_sem_name, checked, sem_open,
}

in_buff_one : (i : ℕ) → i < 10 → in_buff i ≡ returned (int_to_str (pos i)).1
in_buff_one i lt = ground (arith, one_digit i lt)

pub in_buff_two : (i : ℕ) → 10 ≤ i → i < 100 → in_buff i ≡ fault
in_buff_two i ge lt = ground (arith, two_digits i ge lt)

-- The kernel has memory and semaphores for all.
pub record IsAble (env : Answers) : Type 0 where
  pub blocks : (cs : List Call) → env.block_of cs ≢ 0
  pub sems : (cs : List Call) → env.sem_of cs ≢ minus_one

-- The seat `i` is free, or taken, with a fork.
abbrev pub IsFree : Seats → ℕ → Type 0
IsFree s i = (s.philo_name i ≡ none) × (s.forks i ≡ minus_one)

abbrev pub IsTaken : Seats → ℕ → Type 0
IsTaken s i = (s.philo_name i ≡ some i) × (s.forks i ≢ minus_one)

-- One round of the loop, when all goes well.
abbrev seat : Answers → Seats → ℕ → Seats
seat env s i =
    let text = (int_to_str (pos i)).1 in
    let s1 = enter_philo env s i text in
    let s2 = call s1 malloc in
    open_fork env s2 i (env.block_of s2.calls) (joined fork_sem_name text)

add_philo_lem :
    (env : Answers) (s : Seats) (i : ℕ)
    → s.philo_name i ≡ none
    → i < 10
    → add_philo env s i ≡ returned (enter_philo env s i (int_to_str (pos i)).1, pos 0)
unfolding add_philo
add_philo_lem env s i empty lt = rw (empty, in_buff_one i lt) refl

checked_lem : (s : Seats) (i : ℕ) → s.forks i ≢ minus_one → checked s i ≡ (s, pos 0)
unfolding checked
checked_lem s i opened = elim (Bool-cases (s.forks i ==ℤ minus_one)) [
  | inl e ↦ absurd (opened (==ℤ_eq (s.forks i) minus_one e))
  | inr e ↦ rw e refl
]

fork_opened :
    (env : Answers) (s : Seats) (i block : ℕ) (name : List ℕ)
    → IsAble env
    → (open_fork env s i block name).forks i ≢ minus_one
fork_opened env s i block name able e =
    able.sems (sem_open name 1 ∷ s.calls)
      (sym (updated s.forks i (env.sem_of (sem_open name 1 ∷ s.calls))) ∙ e)
  where
    updated : (f : ℕ → ℤ) (i : ℕ) (v : ℤ) → update f i v i ≡ v
    updated f i v = ground arith

add_fork_lem :
    (env : Answers) (s : Seats) (i : ℕ)
    → IsAble env
    → s.forks i ≡ minus_one
    → i < 10
    → (let s1 = call s malloc in
        add_fork env s i
        ≡ returned (
          open_fork env s1 i (env.block_of s1.calls) (joined fork_sem_name (int_to_str (pos i)).1),
          pos 0,
        ))
unfolding add_fork
add_fork_lem env s i able unopened lt =
    let s1 = call s malloc in
    let text = (int_to_str (pos i)).1 in
    let block = env.block_of s1.calls in
    let name = strcat_returns block fork_sem_name text (able.blocks s1.calls) in
    let s2 = open_fork env s1 i block (joined fork_sem_name text) in
    let opened = checked_lem s2 i (fork_opened env s1 i block (joined fork_sem_name text) able) in
    rw (unopened, in_buff_one i lt) (rw name (ap returned opened))

add_from-suc :
    (env : Answers) (s : Seats) (i n : ℕ)
    → IsAble env
    → IsFree s i
    → i < 10
    → add_from env s i (suc n) ≡ add_from env (seat env s i) (i + 1) n
unfolding add_from
add_from-suc env s i n able (empty, unopened) lt =
    let text = (int_to_str (pos i)).1 in
    let one = add_philo_lem env s i empty lt in
    let two = add_fork_lem env (enter_philo env s i text) i able unopened lt in rw one (rw two refl)

-- The seats from `i` on, `k` of them, are taken; the others are as they were.
pub record Filled (s : Seats) (i k : ℕ) (s' : Seats) : Type 0 where
  pub taken : (j : ℕ) → i ≤ j → j < i + k → IsTaken s' j
  pub names : (j : ℕ) → (j < i) ⊎ (i + k ≤ j) → s'.philo_name j ≡ s.philo_name j
  pub forks : (j : ℕ) → (j < i) ⊎ (i + k ≤ j) → s'.forks j ≡ s.forks j
  pub count : s'.philo_count ≡ s.philo_count

seat_name :
    (env : Answers) (s : Seats) (i j : ℕ) → j ≢ i → (seat env s i).philo_name j ≡ s.philo_name j
seat_name env s i j ne = ground arith

seat_fork : (env : Answers) (s : Seats) (i j : ℕ) → j ≢ i → (seat env s i).forks j ≡ s.forks j
seat_fork env s i j ne = ground arith

seat-IsTaken : (env : Answers) (s : Seats) (i : ℕ) → IsAble env → IsTaken (seat env s i) i
seat-IsTaken env s i able =
    let text = (int_to_str (pos i)).1 in
    let s2 = call (enter_philo env s i text) malloc in
    (
      updated s.philo_name i (some i),
      fork_opened env s2 i (env.block_of s2.calls) (joined fork_sem_name text) able,
    )
  where
    updated : (f : ℕ → Option ℕ) (i : ℕ) (v : Option ℕ) → update f i v i ≡ v
    updated f i v = ground arith

one_more :
    (env : Answers) (s s' : Seats) (i k : ℕ)
    → IsAble env
    → Filled (seat env s i) (i + 1) k s'
    → Filled s i (suc k) s'
one_more env s s' i k able filled =
    let (name, fork) = seat-IsTaken env s i able in
    record {
      taken = λ j lo hi. elim (ℕ_discrete j i) [
        | yes same ↦ subst (IsTaken s') (sym same) (
          filled.names i (inl (omega arith)) ∙ name,
          λ e. fork (sym (filled.forks i (inl (omega arith))) ∙ e),
        )
        | no other ↦ filled.taken j (omega arith) (omega arith)
      ];
      names = λ j out. filled.names j (omega arith) ∙ seat_name env s i j (omega arith);
      forks = λ j out. filled.forks j (omega arith) ∙ seat_fork env s i j (omega arith);
      count = filled.count;
    }

pub add_from-Filled :
    (env : Answers) (s : Seats) (i k n : ℕ)
    → IsAble env
    → i + k ≤ 10
    → ((j : ℕ) → i ≤ j → j < i + k → IsFree s j)
    → (s' : Seats) × ((add_from env s i (k + n) ≡ add_from env s' (i + k) n) × Filled s i k s')
add_from-Filled env s i zero n able le free =
    let e : i + 0 ≡ i = omega arith in
    let e' : 0 + n ≡ n = omega arith in
    (
      s,
      (
        ap₂ (add_from env s) (sym e) e',
        record {
          taken = λ j lo hi. absurd (omega arith);
          names = λ j out. refl;
          forks = λ j out. refl;
          count = refl;
        },
      ),
    )
add_from-Filled env s i (suc k) n able le free =
    let s1 = seat env s i in
    let free' : (j : ℕ) → i + 1 ≤ j → j < i + 1 + k → IsFree s1 j = λ j lo hi. (
      seat_name env s i j (omega arith) ∙ (free j (omega arith) (omega arith)).0,
      seat_fork env s i j (omega arith) ∙ (free j (omega arith) (omega arith)).1,
    ) in
    let (s', (loop, filled)) = add_from-Filled env s1 (i + 1) k n able (omega arith) free' in
    let e : suc k + n ≡ suc (k + n) = omega arith in
    let e' : i + 1 + k ≡ i + suc k = omega arith in
    (
      s',
      (
        ap (add_from env s i) e
            ∙ add_from-suc env s i (k + n) able (free i (omega arith) (omega arith)) (omega arith)
            ∙ loop
            ∙ ap (λ z. add_from env s' z n) e',
        one_more env s s' i k able filled,
      ),
    )

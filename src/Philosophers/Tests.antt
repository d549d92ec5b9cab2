-- ===== src/Philosophers/Tests.antt =====
-- A dinner for five by Userland/SampleCodeModule/programs/philosophers.c, and the theorems on it.
use tpe_so_2023_tp.Base.{ℕ, zero, suc, ◌*◌, ◌≤◌, ◌<◌, ◌≡◌, ◌≢◌, refl, arith, ◌⊎◌, inl, update}
use tpe_so_2023_tp.Philosophers.{
  Dinner, Run, rest, then_one, seated, step, perform, eats, done, philo_state, eating, neighbour,
  Pc,
}
use tpe_so_2023_tp.Philosophers.Table.{neighbours_apart}
use tpe_so_2023_tp.Philosophers.Progress.{CanGo}
use tpe_so_2023_tp.Philosophers.Ending.{dinner_ends}

abbrev at_step : ℕ → ℕ → (ℕ → ℕ) → Pc → Dinner
at_step zero big forks p = record { big_fork = big; forks = forks; pc = update seated.pc 0 p }
at_step (suc k) big forks p = record {
  big_fork = big;
  forks = forks;
  pc = update (at_step k big forks p).pc 0 p;
}

-- The first philosopher gets to eat.
first_eats : (d : Dinner) × (Run 5 5 seated d × (d.pc 0 ≡ eats))
unfolding step perform
first_eats = (
  _,
  (
    then_one
        (then_one
          (then_one (then_one (then_one (rest seated) 0 (omega arith) refl) 0 (omega arith) refl) 0
            (omega arith) refl)
          0 (omega arith) refl)
        0 (omega arith) refl,
    refl,
  ),
)

neighbours_apart_example : philo_state (first_eats.0.pc (neighbour 5 0)) ≢ eating
neighbours_apart_example =
    neighbours_apart 5 5 0 first_eats.0 first_eats.1.0 (omega arith) (omega arith)
      (inl first_eats.1.1)

dinner_ends_example :
    (5 ≤ 8 * 5)
    × (((j : ℕ) × CanGo 5 first_eats.0 j)
        ⊎ ((5 ≡ 8 * 5) × ((i : ℕ) → i < 5 → first_eats.0.pc i ≡ done)))
dinner_ends_example = dinner_ends 5 5 first_eats.0 first_eats.1.0 (omega arith)

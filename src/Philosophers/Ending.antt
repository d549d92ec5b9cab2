-- ===== src/Philosophers/Ending.antt =====
-- The dinner of Userland/SampleCodeModule/programs/philosophers.c comes to an end.
use native.Mathlib.Decide.{ℕ_discrete}
use tpe_so_2023_tp.Base.{
  ℕ, zero, suc, ◌+◌, ◌*◌, ◌≤◌, ◌<◌, ◌≡◌, ◌≢◌, refl, sym, ap, ◌∙◌, arith, update, some, inl, inr,
  ◌⊎◌,
}
use tpe_so_2023_tp.Philosophers.{
  Pc, sleeps, waits_big, waits_own, waits_neighbour, posts_big, eats, posts_neighbour, posts_own,
  done, Dinner, rest, then_one, neighbour, perform, step, seated, Run,
}
use tpe_so_2023_tp.Philosophers.Table.{run-IsLaid, wait_lem, some_eq, seated-IsLaid}
use tpe_so_2023_tp.Philosophers.Progress.{CanGo, someone_goes}

-- The calls that a philosopher has still to make, and those of the philosophers 0 to m - 1.
abbrev pub calls_left : Pc → ℕ
calls_left sleeps = 8
calls_left waits_big = 7
calls_left waits_own = 6
calls_left waits_neighbour = 5
calls_left posts_big = 4
calls_left eats = 3
calls_left posts_neighbour = 2
calls_left posts_own = 1
calls_left done = 0

pub all_left : ℕ → (ℕ → Pc) → ℕ
all_left zero pc = 0
all_left (suc m) pc = calls_left (pc m) + all_left m pc

all_left_beyond :
    (m i : ℕ) (pc : ℕ → Pc) (p' : Pc) → m ≤ i → all_left m (update pc i p') ≡ all_left m pc
unfolding all_left
all_left_beyond zero i pc p' le = refl
all_left_beyond (suc m) i pc p' le = ground (arith, all_left_beyond m i pc p')

all_left_less :
    (m i : ℕ) (pc : ℕ → Pc) (p' : Pc)
    → i < m
    → calls_left p' + 1 ≡ calls_left (pc i)
    → all_left m (update pc i p') + 1 ≡ all_left m pc
unfolding all_left
all_left_less zero i pc p' lt e = absurd (omega arith)
all_left_less (suc m) i pc p' lt e = elim (ℕ_discrete i m) [
  | yes same ↦ ground (arith, all_left_beyond m i pc p')
  | no other ↦ ground (arith, all_left_less m i pc p')
]

left_by :
    (n i : ℕ) (d e : Dinner) (p p' : Pc)
    → i < n
    → d.pc i ≡ p
    → calls_left p' + 1 ≡ calls_left p
    → e.pc ≡ update d.pc i p'
    → all_left n e.pc + 1 ≡ all_left n d.pc
left_by n i d e p p' lt at one less =
    ap (λ pc. all_left n pc + 1) less ∙ all_left_less n i d.pc p' lt (one ∙ sym (ap calls_left at))

perform_less :
    (n i : ℕ) (p : Pc) (d e : Dinner)
    → i < n
    → d.pc i ≡ p
    → perform n d i p ≡ some e
    → all_left n e.pc + 1 ≡ all_left n d.pc
unfolding perform
perform_less n i sleeps d e lt at h =
    left_by n i d e sleeps waits_big lt at refl (ap (λ z. z.pc) (sym (some_eq _ e h)))
perform_less n i waits_big d e lt at h =
    left_by n i d e waits_big waits_own lt at refl
      (ap (λ z. z.pc) (wait_lem d.big_fork i waits_own _ e h).1)
perform_less n i waits_own d e lt at h =
    left_by n i d e waits_own waits_neighbour lt at refl
      (ap (λ z. z.pc) (wait_lem (d.forks i) i waits_neighbour _ e h).1)
perform_less n i waits_neighbour d e lt at h =
    left_by n i d e waits_neighbour posts_big lt at refl
      (ap (λ z. z.pc) (wait_lem (d.forks (neighbour n i)) i posts_big _ e h).1)
perform_less n i posts_big d e lt at h =
    left_by n i d e posts_big eats lt at refl (ap (λ z. z.pc) (sym (some_eq _ e h)))
perform_less n i eats d e lt at h =
    left_by n i d e eats posts_neighbour lt at refl (ap (λ z. z.pc) (sym (some_eq _ e h)))
perform_less n i posts_neighbour d e lt at h =
    left_by n i d e posts_neighbour posts_own lt at refl (ap (λ z. z.pc) (sym (some_eq _ e h)))
perform_less n i posts_own d e lt at h =
    left_by n i d e posts_own done lt at refl (ap (λ z. z.pc) (sym (some_eq _ e h)))
perform_less n i done d e lt at h = absurd (ground (arith, h))

run_left : (n k : ℕ) (c d : Dinner) → Run n k c d → all_left n d.pc + k ≡ all_left n c.pc
unfolding step
run_left n _ c _ (rest _) = omega arith
run_left n _ c e (then_one {k = k} {d = d} run i lt h) =
    omega (arith, run_left n k c d run, perform_less n i (d.pc i) d e lt refl h)

seated_left : (n : ℕ) → all_left n seated.pc ≡ 8 * n
unfolding all_left
seated_left zero = refl
seated_left (suc n) = omega (arith, seated_left n)

only_done : (p : Pc) → calls_left p ≡ 0 → p ≡ done
only_done done e = refl
only_done sleeps e = absurd (omega (arith, e))
only_done waits_big e = absurd (omega (arith, e))
only_done waits_own e = absurd (omega (arith, e))
only_done waits_neighbour e = absurd (omega (arith, e))
only_done posts_big e = absurd (omega (arith, e))
only_done eats e = absurd (omega (arith, e))
only_done posts_neighbour e = absurd (omega (arith, e))
only_done posts_own e = absurd (omega (arith, e))

is_done : (p : Pc) → (p ≡ done) ⊎ (p ≢ done)
is_done p = elim (ℕ_discrete (calls_left p) 0) [
  | yes none_left ↦ inl (only_done p none_left)
  | no some_left ↦ inr (λ e. some_left (ap calls_left e))
]

done_upto :
    (m i : ℕ) (pc : ℕ → Pc)
    → pc m ≡ done
    → ((j : ℕ) → j < m → pc j ≡ done)
    → i < suc m
    → pc i ≡ done
done_upto m i pc e before_m lt = elim (ℕ_discrete i m) [
  | yes same ↦ ap pc same ∙ e
  | no other ↦ before_m i (omega arith)
]

-- Someone is not done, or all are.
all_done :
    (m : ℕ) (pc : ℕ → Pc)
    → ((i : ℕ) × ((i < m) × (pc i ≢ done)))
      ⊎ ((all_left m pc ≡ 0) × ((i : ℕ) → i < m → pc i ≡ done))
unfolding all_left
all_done zero pc = inr (refl, λ i lt. absurd (omega arith))
all_done (suc m) pc = elim (all_done m pc) [
  | inl (i, (lt, undone)) ↦ inl (i, (omega arith, undone))
  | inr (none_left, before_m) ↦ elim (is_done (pc m)) [
    | inr undone ↦ inl (m, (omega arith, undone))
    | inl e ↦
        inr (omega (arith, none_left, ap calls_left e), λ i lt. done_upto m i pc e before_m lt)
  ]
]

-- However two or more philosophers are scheduled, they make at most 8 calls each, and after `k` of their calls in all
-- either one of them can make the next, or `k` is 8 for each, and each has gone through all its calls, the
-- one in which it eats included, and is done.
pub dinner_ends :
    (n k : ℕ) (d : Dinner)
    → Run n k seated d
    → 1 < n
    → (k ≤ 8 * n) × (((j : ℕ) × CanGo n d j) ⊎ ((k ≡ 8 * n) × ((i : ℕ) → i < n → d.pc i ≡ done)))
dinner_ends n k d run two =
    let laid = run-IsLaid n k seated d run two (seated-IsLaid n) in
    let spent : all_left n d.pc + k ≡ 8 * n = run_left n k seated d run ∙ seated_left n in
    (
      omega arith,
      elim (all_done n d.pc) [
        | inl (i, (lt, undone)) ↦ inl (someone_goes n d i laid two lt undone)
        | inr (none_left, all) ↦ inr (omega (arith, none_left), all)
      ],
    )

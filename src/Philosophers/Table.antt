-- ===== src/Philosophers/Table.antt =====
-- The forks of Userland/SampleCodeModule/programs/philosophers.c: who has which, over any run.
use tpe_so_2023_tp.Base.{
  ℕ, ◌+◌, ◌-◌, ◌<◌, ◌≡◌, ◌≢◌, refl, sym, ap, ◌∙◌, arith, true, false, ltb, if◌then◌else◌, update,
  none, some, subst, ◌⊎◌, inl, inr,
}
use native.Mathlib.Decide.{dec_lt}
use tpe_so_2023_tp.Philosophers.{
  Pc, sleeps, waits_big, waits_own, waits_neighbour, posts_big, eats, posts_neighbour, posts_own,
  done, Dinner, go_on, rest, then_one, neighbour, perform, step, seated, Run, philo_state, eating,
}
use tpe_so_2023_tp.Philosophers.Forks.{
  own_fork, next_fork, has_big, before, neighbour_lem, before-neighbour, AreForks, forks_own,
  forks_next, forks_same,
}

-- The big fork lies on the table, or one philosopher has it.
pub data BigFork (n : ℕ) (big_fork : ℕ) (pc : ℕ → Pc) : Type 0 where
  on_table : big_fork ≡ 1 → ((j : ℕ) → j < n → has_big (pc j) ≡ false) → BigFork n big_fork pc
  taken_by :
      (i : ℕ)
      → big_fork ≡ 0
      → i < n
      → has_big (pc i) ≡ true
      → ((j : ℕ) → j < n → j ≢ i → has_big (pc j) ≡ false)
      → BigFork n big_fork pc

pub record IsLaid (n : ℕ) (d : Dinner) : Type 0 where
  pub forks : AreForks n d.forks d.pc
  pub big : BigFork n d.big_fork d.pc

big_same :
    (n i k : ℕ) (p p' : Pc) (pc : ℕ → Pc)
    → BigFork n k pc
    → pc i ≡ p
    → has_big p' ≡ has_big p
    → BigFork n k (update pc i p')
big_same n i k p p' pc (on_table one none_has) e same =
    let e' : has_big (pc i) ≡ has_big p = ap has_big e in
    on_table one (λ j jn. ground (arith, none_has j jn))
big_same n i k p p' pc (taken_by h zero_big hn has others) e same =
    let e' : has_big (pc i) ≡ has_big p = ap has_big e in
    taken_by h zero_big hn (ground arith) (λ j jn ne. ground (arith, others j jn ne))

big_taken :
    (n i k : ℕ) (p p' : Pc) (pc : ℕ → Pc)
    → BigFork n k pc
    → 0 < k
    → i < n
    → has_big p' ≡ true
    → BigFork n (k - 1) (update pc i p')
big_taken n i k p p' pc (on_table one none_has) some_k lt has =
    taken_by i (omega arith) lt (ground arith) (λ j jn ne. ground (arith, none_has j jn))
big_taken n i k p p' pc (taken_by h zero_big hn has' others) some_k lt has = absurd (omega arith)

big_back :
    (n i k : ℕ) (p p' : Pc) (pc : ℕ → Pc)
    → BigFork n k pc
    → pc i ≡ p
    → i < n
    → has_big p ≡ true
    → has_big p' ≡ false
    → BigFork n (k + 1) (update pc i p')
big_back n i k p p' pc (on_table one none_has) e lt had has =
    let e' : has_big (pc i) ≡ has_big p = ap has_big e in absurd (ground (arith, none_has i lt))
big_back n i k p p' pc (taken_by h zero_big hn has' others) e lt had has =
    let e' : has_big (pc i) ≡ has_big p = ap has_big e in
    let same : i ≡ h = ground (arith, others i lt) in
    on_table (omega arith) (λ j jn. ground (arith, others j jn))

pub some_eq : (x e : Dinner) → some x ≡ some e → x ≡ e
some_eq x e h = ground (arith, h)

-- A call of sem_wait that returned found a unit.
pub wait_lem :
    (k i : ℕ) (p : Pc) (x e : Dinner)
    → go_on i p (if ltb 0 k then some x else none) ≡ some e
    → (0 < k) × (e ≡ record x { pc = update x.pc i p })
wait_lem k i p x e h = elim (dec_lt 0 k) [
  | yes some_k ↦ (some_k, ground (arith, h))
  | no none_k ↦ absurd (ground (arith, h))
]

perform-IsLaid :
    (n i : ℕ) (p : Pc) (d e : Dinner)
    → IsLaid n d
    → 1 < n
    → i < n
    → d.pc i ≡ p
    → perform n d i p ≡ some e
    → IsLaid n e
unfolding perform
perform-IsLaid n i sleeps d e laid two lt at h = subst (IsLaid n) (some_eq _ e h) (record {
  forks = forks_same n i sleeps waits_big d.forks d.pc laid.forks at refl refl;
  big = big_same n i d.big_fork sleeps waits_big d.pc laid.big at refl;
})
perform-IsLaid n i waits_big d e laid two lt at h =
    let (some_k, is) =
      wait_lem d.big_fork i waits_own (record d { big_fork = d.big_fork - 1 }) e h in
    subst (IsLaid n) (sym is) (record {
      forks = forks_same n i waits_big waits_own d.forks d.pc laid.forks at refl refl;
      big = big_taken n i d.big_fork waits_big waits_own d.pc laid.big some_k lt refl;
    })
perform-IsLaid n i waits_own d e laid two lt at h =
    let v = d.forks i - 1 in
    let (some_k, is) =
      wait_lem (d.forks i) i waits_neighbour (record d { forks = update d.forks i v }) e h in
    subst (IsLaid n) (sym is) (record {
      forks =
          forks_own n i v waits_own waits_neighbour d.forks d.pc laid.forks at (omega arith) refl lt
            two;
      big = big_same n i d.big_fork waits_own waits_neighbour d.pc laid.big at refl;
    })
perform-IsLaid n i waits_neighbour d e laid two lt at h =
    let nb = neighbour n i in
    let v = d.forks nb - 1 in
    let (some_k, is) =
      wait_lem (d.forks nb) i posts_big (record d { forks = update d.forks nb v }) e h in
    subst (IsLaid n) (sym is) (record {
      forks =
          forks_next n i v waits_neighbour posts_big d.forks d.pc laid.forks at refl (omega arith)
            lt two;
      big = big_same n i d.big_fork waits_neighbour posts_big d.pc laid.big at refl;
    })
perform-IsLaid n i posts_big d e laid two lt at h = subst (IsLaid n) (some_eq _ e h) (record {
  forks = forks_same n i posts_big eats d.forks d.pc laid.forks at refl refl;
  big = big_back n i d.big_fork posts_big eats d.pc laid.big at lt refl refl;
})
perform-IsLaid n i eats d e laid two lt at h = subst (IsLaid n) (some_eq _ e h) (record {
  forks = forks_same n i eats posts_neighbour d.forks d.pc laid.forks at refl refl;
  big = big_same n i d.big_fork eats posts_neighbour d.pc laid.big at refl;
})
perform-IsLaid n i posts_neighbour d e laid two lt at h =
    let nb = neighbour n i in
    subst (IsLaid n) (some_eq _ e h) (record {
      forks =
          forks_next n i (d.forks nb + 1) posts_neighbour posts_own d.forks d.pc laid.forks at refl
            (omega arith) lt two;
      big = big_same n i d.big_fork posts_neighbour posts_own d.pc laid.big at refl;
    })
perform-IsLaid n i posts_own d e laid two lt at h = subst (IsLaid n) (some_eq _ e h) (record {
  forks =
      forks_own n i (d.forks i + 1) posts_own done d.forks d.pc laid.forks at (omega arith) refl lt
        two;
  big = big_same n i d.big_fork posts_own done d.pc laid.big at refl;
})
perform-IsLaid n i done d e laid two lt at h = absurd (ground (arith, h))

pub seated-IsLaid : (n : ℕ) → IsLaid n seated
seated-IsLaid n = record { forks = λ j jn. refl; big = on_table refl (λ j jn. refl) }

pub run-IsLaid : (n k : ℕ) (c d : Dinner) → Run n k c d → 1 < n → IsLaid n c → IsLaid n d
unfolding step
run-IsLaid n _ c _ (rest _) two laid = laid
run-IsLaid n _ c e (then_one {k = k} {d = d} run i lt h) two laid =
    perform-IsLaid n i (d.pc i) d e (run-IsLaid n k c d run two laid) two lt refl h

eating-own_fork : (p : Pc) → philo_state p ≡ eating → own_fork p ≡ 1
eating-own_fork eats e = refl
eating-own_fork posts_neighbour e = refl
eating-own_fork posts_own e = refl
eating-own_fork sleeps e = absurd (ground (arith, e))
eating-own_fork waits_big e = absurd (ground (arith, e))
eating-own_fork waits_own e = absurd (ground (arith, e))
eating-own_fork waits_neighbour e = absurd (ground (arith, e))
eating-own_fork posts_big e = absurd (ground (arith, e))
eating-own_fork done e = absurd (ground (arith, e))

has_next_fork : (p : Pc) → (p ≡ eats) ⊎ (p ≡ posts_neighbour) → next_fork p ≡ 1
has_next_fork p (inl e) = ap next_fork e
has_next_fork p (inr e) = ap next_fork e

-- While one eats, from its storing of EATING to its first sem_post, its neighbour is not in the state EATING,
-- whoever was scheduled when since all sat down.
pub neighbours_apart :
    (n k i : ℕ) (d : Dinner)
    → Run n k seated d
    → 1 < n
    → i < n
    → (d.pc i ≡ eats) ⊎ (d.pc i ≡ posts_neighbour)
    → philo_state (d.pc (neighbour n i)) ≢ eating
neighbours_apart n k i d run two lt at both =
    let laid = run-IsLaid n k seated d run two (seated-IsLaid n) in
    let nb = neighbour n i in
    let inside : nb < n = ground (arith, neighbour_lem n i lt) in
    let mine : next_fork (d.pc (before n nb)) ≡ 1 =
      ap (λ z. next_fork (d.pc z)) (before-neighbour n i lt two) ∙ has_next_fork (d.pc i) at in
    let theirs = eating-own_fork (d.pc nb) both in omega (arith, laid.forks nb inside, mine, theirs)

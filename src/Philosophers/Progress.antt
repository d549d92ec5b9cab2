-- ===== src/Philosophers/Progress.antt =====
-- No deadlock at the table of Userland/SampleCodeModule/programs/philosophers.c.
use native.Mathlib.Decide.{dec_lt}
use tpe_so_2023_tp.Base.{
  ℕ, ◌+◌, ◌<◌, ◌≡◌, ◌≢◌, refl, ap, ◌∙◌, arith, true, false, ltb, if◌then◌else◌, update, none, some,
}
use tpe_so_2023_tp.Philosophers.{
  Pc, sleeps, waits_big, waits_own, waits_neighbour, posts_big, eats, posts_neighbour, posts_own,
  done, Dinner, go_on, neighbour, perform, step,
}
use tpe_so_2023_tp.Philosophers.Forks.{
  own_fork, next_fork, has_big, before, neighbour_lem, before-neighbour,
}
use tpe_so_2023_tp.Philosophers.Table.{on_table, taken_by, IsLaid}

-- The call of the philosopher `i` returns.
abbrev pub CanGo : ℕ → Dinner → ℕ → Type 0
CanGo n d i = (i < n) × ((e : Dinner) × (step n d i ≡ some e))

going :
    (n : ℕ) (d : Dinner) (i : ℕ) (p : Pc) (e : Dinner)
    → i < n
    → d.pc i ≡ p
    → perform n d i p ≡ some e
    → CanGo n d i
unfolding step
going n d i p e lt at h = (lt, (e, ap (perform n d i) at ∙ h))

wait_goes :
    (k i : ℕ) (p : Pc) (x : Dinner)
    → 0 < k
    → go_on i p (if ltb 0 k then some x else none) ≡ some (record x { pc = update x.pc i p })
wait_goes k i p x some_k = ground arith

-- One with a fork that does not have the big fork puts the fork back.
puts_back :
    (n : ℕ) (d : Dinner) (i : ℕ) (p : Pc)
    → i < n
    → d.pc i ≡ p
    → own_fork p + next_fork p ≢ 0
    → has_big p ≡ false
    → CanGo n d i
unfolding perform
puts_back n d i sleeps lt at some_fork no_big = absurd (some_fork refl)
puts_back n d i waits_big lt at some_fork no_big = absurd (some_fork refl)
puts_back n d i waits_own lt at some_fork no_big = absurd (ground (arith, no_big))
puts_back n d i waits_neighbour lt at some_fork no_big = absurd (ground (arith, no_big))
puts_back n d i posts_big lt at some_fork no_big = absurd (ground (arith, no_big))
puts_back n d i eats lt at some_fork no_big = going n d i eats _ lt at refl
puts_back n d i posts_neighbour lt at some_fork no_big = going n d i posts_neighbour _ lt at refl
puts_back n d i posts_own lt at some_fork no_big = going n d i posts_own _ lt at refl
puts_back n d i done lt at some_fork no_big = absurd (some_fork refl)

-- Who has the big fork goes on, or someone who has the fork it waits for and not the big one does.
holder_goes :
    (n : ℕ) (d : Dinner) (i : ℕ) (p : Pc)
    → IsLaid n d
    → 1 < n
    → i < n
    → d.pc i ≡ p
    → has_big p ≡ true
    → ((j : ℕ) → j < n → j ≢ i → has_big (d.pc j) ≡ false)
    → (j : ℕ) × CanGo n d j
unfolding perform
holder_goes n d i waits_own laid two lt at has others = elim (dec_lt 0 (d.forks i)) [
  | yes some_fork ↦
      (i, going n d i waits_own _ lt at (wait_goes (d.forks i) i waits_neighbour _ some_fork))
  | no none_there ↦
      let b = before n i in
      let inside : b < n = ground arith in
      let mine : own_fork (d.pc i) ≡ 0 = ap own_fork at in
      let apart : b ≢ i = ground arith in
      let theirs : own_fork (d.pc b) + next_fork (d.pc b) ≢ 0 =
        omega (arith, laid.forks i lt, mine) in
      (b, puts_back n d b (d.pc b) inside refl theirs (others b inside apart))
]
holder_goes n d i waits_neighbour laid two lt at has others =
    let nb = neighbour n i in
    elim (dec_lt 0 (d.forks nb)) [
      | yes some_fork ↦
          (i, going n d i waits_neighbour _ lt at (wait_goes (d.forks nb) i posts_big _ some_fork))
      | no none_there ↦
          let inside : nb < n = ground (arith, neighbour_lem n i lt) in
          let apart : nb ≢ i = ground (arith, neighbour_lem n i lt) in
          let mine : next_fork (d.pc (before n nb)) ≡ 0 =
            ap (λ z. next_fork (d.pc z)) (before-neighbour n i lt two) ∙ ap next_fork at in
          let theirs : own_fork (d.pc nb) + next_fork (d.pc nb) ≢ 0 =
            omega (arith, laid.forks nb inside, mine) in
          (nb, puts_back n d nb (d.pc nb) inside refl theirs (others nb inside apart))
    ]
holder_goes n d i posts_big laid two lt at has others = (i, going n d i posts_big _ lt at refl)
holder_goes n d i sleeps laid two lt at has others = absurd (ground (arith, has))
holder_goes n d i waits_big laid two lt at has others = absurd (ground (arith, has))
holder_goes n d i eats laid two lt at has others = absurd (ground (arith, has))
holder_goes n d i posts_neighbour laid two lt at has others = absurd (ground (arith, has))
holder_goes n d i posts_own laid two lt at has others = absurd (ground (arith, has))
holder_goes n d i done laid two lt at has others = absurd (ground (arith, has))

-- With the big fork on the table, anyone who is not done goes on.
anyone_goes :
    (n : ℕ) (d : Dinner) (i : ℕ) (p : Pc)
    → d.big_fork ≡ 1
    → i < n
    → d.pc i ≡ p
    → has_big p ≡ false
    → p ≢ done
    → CanGo n d i
unfolding perform
anyone_goes n d i sleeps one lt at no_big undone = going n d i sleeps _ lt at refl
anyone_goes n d i waits_big one lt at no_big undone =
    going n d i waits_big _ lt at (wait_goes d.big_fork i waits_own _ (omega arith))
anyone_goes n d i eats one lt at no_big undone = going n d i eats _ lt at refl
anyone_goes n d i posts_neighbour one lt at no_big undone = going n d i posts_neighbour _ lt at refl
anyone_goes n d i posts_own one lt at no_big undone = going n d i posts_own _ lt at refl
anyone_goes n d i done one lt at no_big undone = absurd (undone refl)
anyone_goes n d i waits_own one lt at no_big undone = absurd (ground (arith, no_big))
anyone_goes n d i waits_neighbour one lt at no_big undone = absurd (ground (arith, no_big))
anyone_goes n d i posts_big one lt at no_big undone = absurd (ground (arith, no_big))

pub someone_goes :
    (n : ℕ) (d : Dinner) (i : ℕ)
    → IsLaid n d
    → 1 < n
    → i < n
    → d.pc i ≢ done
    → (j : ℕ) × CanGo n d j
someone_goes n d i laid two lt undone = elim laid.big [
  | on_table one none_has ↦ (i, anyone_goes n d i (d.pc i) one lt refl (none_has i lt) undone)
  | taken_by h no_big hn has others ↦ holder_goes n d h (d.pc h) laid two hn refl has others
]

-- ===== src/Philosophers/Forks.antt =====
-- The forks of Userland/SampleCodeModule/programs/philosophers.c: the one of its number and its neighbour's as a philosopher moves on.
use tpe_so_2023_tp.Base.{
  ℕ, ◌+◌, ◌-◌, ◌%◌, ◌<◌, ◌≡◌, ◌≢◌, sym, ap, ◌∙◌, arith, Bool, true, false, ◌==◌, if◌then◌else◌,
  update,
}
use native.Mathlib.Nat.{mod-eq_of_lt, mod_self}
use native.Mathlib.Decide.{ℕ_discrete}
use tpe_so_2023_tp.Philosophers.{
  Pc, waits_own, waits_neighbour, posts_big, eats, posts_neighbour, posts_own, neighbour,
}

-- Whether a philosopher has the fork of its own number, that of the next, and the big fork.
abbrev pub own_fork : Pc → ℕ
own_fork waits_neighbour = 1
own_fork posts_big = 1
own_fork eats = 1
own_fork posts_neighbour = 1
own_fork posts_own = 1
own_fork _ = 0

abbrev pub next_fork : Pc → ℕ
next_fork posts_big = 1
next_fork eats = 1
next_fork posts_neighbour = 1
next_fork _ = 0

abbrev pub has_big : Pc → Bool
has_big waits_own = true
has_big waits_neighbour = true
has_big posts_big = true
has_big _ = false

-- Whose neighbour `j` is.
abbrev pub before : ℕ → ℕ → ℕ
before n j = if j == 0 then n - 1 else j - 1

pub neighbour_lem : (n i : ℕ) → i < n → neighbour n i ≡ (if i + 1 == n then 0 else i + 1)
neighbour_lem n i lt = elim (ℕ_discrete (i + 1) n) [
  | yes last ↦ rw last (mod_self n ∙ ground arith)
  | no inside ↦ let e : (i + 1) % n ≡ i + 1 = mod-eq_of_lt (omega arith) in rw e (ground arith)
]

-- A fork lies on the table or one philosopher has it.
abbrev pub AreForks : ℕ → (ℕ → ℕ) → (ℕ → Pc) → Type 0
AreForks n forks pc = (j : ℕ) → j < n → forks j + own_fork (pc j) + next_fork (pc (before n j)) ≡ 1

pub forks_own :
    (n i v : ℕ) (p p' : Pc) (forks : ℕ → ℕ) (pc : ℕ → Pc)
    → AreForks n forks pc
    → pc i ≡ p
    → v + own_fork p' ≡ forks i + own_fork p
    → next_fork p' ≡ next_fork p
    → i < n
    → 1 < n
    → AreForks n (update forks i v) (update pc i p')
forks_own n i v p p' forks pc are e own next lt two j jn =
    let e' : own_fork (pc i) ≡ own_fork p = ap own_fork e in
    let e'' : next_fork (pc i) ≡ next_fork p = ap next_fork e in ground (arith, are j jn)

pub before-neighbour : (n i : ℕ) → i < n → 1 < n → before n (neighbour n i) ≡ i
before-neighbour n i lt two = rw (neighbour_lem n i lt) (ground arith)

pub before_other : (n i j : ℕ) → i < n → j < n → j ≢ neighbour n i → before n j ≢ i
before_other n i j lt jn ne same = ground (arith, ne, neighbour_lem n i lt)

own_stays :
    (pc : ℕ → Pc) (i j : ℕ) (p' : Pc)
    → own_fork p' ≡ own_fork (pc i)
    → own_fork (update pc i p' j) ≡ own_fork (pc j)
own_stays pc i j p' e = ground (arith, e)

here :
    (forks : ℕ → ℕ) (pc : ℕ → Pc) (nb i j b v : ℕ) (p p' : Pc)
    → j ≡ nb
    → b ≡ i
    → next_fork (pc i) ≡ next_fork p
    → v + next_fork p' ≡ forks nb + next_fork p
    → forks j + own_fork (pc j) + next_fork (pc b) ≡ 1
    → update forks nb v j + own_fork (pc j) + next_fork (update pc i p' b) ≡ 1
here forks pc nb i j b v p p' same back e next one =
    let l : update forks nb v j ≡ v = ground arith in
    let r : next_fork (update pc i p' b) ≡ next_fork p' = ground arith in
    let f : forks j ≡ forks nb = ap forks same in
    let m : next_fork (pc b) ≡ next_fork (pc i) = ap (λ z. next_fork (pc z)) back in
    rw (l, r) (omega arith)

there :
    (forks : ℕ → ℕ) (pc : ℕ → Pc) (nb i j b v : ℕ) (p' : Pc)
    → j ≢ nb
    → b ≢ i
    → forks j + own_fork (pc j) + next_fork (pc b) ≡ 1
    → update forks nb v j + own_fork (pc j) + next_fork (update pc i p' b) ≡ 1
there forks pc nb i j b v p' other apart one =
    let l : update forks nb v j ≡ forks j = ground arith in
    let r : next_fork (update pc i p' b) ≡ next_fork (pc b) = ground arith in rw (l, r) one

pub forks_next :
    (n i v : ℕ) (p p' : Pc) (forks : ℕ → ℕ) (pc : ℕ → Pc)
    → AreForks n forks pc
    → pc i ≡ p
    → own_fork p' ≡ own_fork p
    → v + next_fork p' ≡ forks (neighbour n i) + next_fork p
    → i < n
    → 1 < n
    → AreForks n (update forks (neighbour n i) v) (update pc i p')
forks_next n i v p p' forks pc are e own next lt two j jn =
    let nb = neighbour n i in
    let b = before n j in
    let e' : own_fork p' ≡ own_fork (pc i) = own ∙ sym (ap own_fork e) in
    let e'' : next_fork (pc i) ≡ next_fork p = ap next_fork e in
    rw (own_stays pc i j p' e') (elim (ℕ_discrete j nb) [
      | yes same ↦
          let back : b ≡ i = ap (before n) same ∙ before-neighbour n i lt two in
          here forks pc nb i j b v p p' same back e'' next (are j jn)
      | no other ↦
          let apart = before_other n i j lt jn other in
          there forks pc nb i j b v p' other apart (are j jn)
    ])

pub forks_same :
    (n i : ℕ) (p p' : Pc) (forks : ℕ → ℕ) (pc : ℕ → Pc)
    → AreForks n forks pc
    → pc i ≡ p
    → own_fork p' ≡ own_fork p
    → next_fork p' ≡ next_fork p
    → AreForks n forks (update pc i p')
forks_same n i p p' forks pc are e own next j jn =
    let e' : own_fork (pc i) ≡ own_fork p = ap own_fork e in
    let e'' : next_fork (pc i) ≡ next_fork p = ap next_fork e in ground (arith, are j jn)

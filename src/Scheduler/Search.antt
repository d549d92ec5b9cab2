-- ===== src/Scheduler/Search.antt =====
-- get_next_ready_pid of Kernel/processes/scheduler.c: a search round the table.
use tpe_so_2023_tp.Base.{
  ℕ, zero, suc, ◌+◌, ◌-◌, ◌%◌, ◌≤◌, ◌<◌, ◌≡◌, ◌⊎◌, ◌≢◌, inl, inr, true, false, arith, ℤ, pos, ap,
  ◌∙◌, sym, subst, ◌≤ℤ◌,
}
use native.Mathlib.Decide.{ℕ_discrete}
use tpe_so_2023_tp.Scheduler.{
  Scheduler, kernel_proc_pid, is_ready, next_ready, get_next_ready_pid, first_pid,
}

-- The pid `i` places after `first`, round the table.
abbrev pub after : ℕ → ℕ → ℕ
after first i = (first + i) % 32

-- What the search from `first` returns: the nearest ready pid after it, or -1 when none is ready.
pub data Nearest (s : Scheduler) (first : ℕ) (r : ℤ) : Type 0 where
  found :
      (i : ℕ)
      → 1 ≤ i
      → i ≤ 32
      → r ≡ pos (after first i)
      → is_ready s (pos (after first i)) ≡ true
      → ((j : ℕ) → 1 ≤ j → j < i → is_ready s (pos (after first j)) ≡ false)
      → Nearest s first r
  nobody : r ≡ kernel_proc_pid → ((p : ℕ) → p < 32 → is_ready s (pos p) ≡ false) → Nearest s first r

-- Every pid is one of the 32 places after `first`.
after_onto :
    (first p : ℕ) → first < 32 → p < 32 → (i : ℕ) × (1 ≤ i) × (i ≤ 32) × (after first i ≡ p)
after_onto first p hf hp = (suc ((p + 31 - first) % 32), omega arith, omega arith, omega arith)

-- One round of the loop, by what it finds at the next place `n`.
next_ready_round :
    (fuel : ℕ) (s : Scheduler) (first next : ℕ)
    → let n = (next + 1) % 32 in
      let r = next_ready (suc fuel) s first next in
      ((is_ready s (pos n) ≡ true) × (r ≡ pos n))
      ⊎ ((is_ready s (pos n) ≡ false) × (n ≡ first) × (r ≡ kernel_proc_pid))
      ⊎ ((is_ready s (pos n) ≡ false) × (n ≢ first) × (r ≡ next_ready fuel s first n))
unfolding next_ready
next_ready_round fuel s first next = ground arith

not_ready_upto :
    (s : Scheduler) (first i n : ℕ)
    → n ≡ after first (suc i)
    → ((j : ℕ) → 1 ≤ j → j ≤ i → is_ready s (pos (after first j)) ≡ false)
    → is_ready s (pos n) ≡ false
    → (j : ℕ) → 1 ≤ j
    → j ≤ suc i
    → is_ready s (pos (after first j)) ≡ false
not_ready_upto s first i n e h no_n j lo hi = elim (ℕ_discrete j (suc i)) [
  | yes same ↦ ground arith
  | no other ↦ h j lo (omega arith)
]

next_ready-Nearest :
    (fuel i next : ℕ) (s : Scheduler) (first : ℕ)
    → first < 32
    → fuel + i ≡ 32
    → 1 ≤ fuel
    → next ≡ after first i
    → ((j : ℕ) → 1 ≤ j → j ≤ i → is_ready s (pos (after first j)) ≡ false)
    → Nearest s first (next_ready fuel s first next)
next_ready-Nearest zero i next s first hf hi hpos e h = absurd (omega arith)
next_ready-Nearest (suc fuel) i next s first hf hi hpos e h =
    let n = (next + 1) % 32 in
    let e' : n ≡ after first (suc i) = omega arith in
    elim (next_ready_round fuel s first next) [
      | inl (t, r) ↦
          found (suc i) (omega arith) (omega arith) (r ∙ ap pos e') (rw e' at t)
            (λ j lo hi'. h j lo (omega arith))
      | inr (inl (f, back, r)) ↦
          let all = not_ready_upto s first i n e' h f in
          nobody r (λ p hp.
            let (j, lo, hi', at) = after_onto first p hf hp in
            subst (λ q. is_ready s (pos q) ≡ false) at (all j lo (omega arith)))
      | inr (inr (f, on, r)) ↦ subst (Nearest s first) (sym r) (
          next_ready-Nearest fuel (suc i) n s first hf (omega arith) (omega arith) e'
            (not_ready_upto s first i n e' h f))
    ]

-- The current pid is -1, -2 or an index of the table.
abbrev pub IsPid : ℤ → Type 0
IsPid pid = pid ≤ℤ pos 31

pub first_pid-lt : (s : Scheduler) → IsPid s.current_running_pid → first_pid s < 32
first_pid-lt s h = ground arith

-- While the running pid is in the table, get_next_ready_pid returns the ready pid that comes
-- nearest after it, round the table, the running pid itself last; and it returns -1 exactly when
-- no process is ready.
pub get_next_ready_pid-Nearest :
    (s : Scheduler) → IsPid s.current_running_pid → Nearest s (first_pid s) (get_next_ready_pid s)
unfolding get_next_ready_pid
get_next_ready_pid-Nearest s h =
    next_ready-Nearest 32 0 (first_pid s) s (first_pid s) (first_pid-lt s h) (omega arith)
      (omega arith) (ground (arith, first_pid-lt s h)) (λ j lo hi. absurd (omega arith))

next_ready_more :
    (fuel more i next : ℕ) (s : Scheduler) (first : ℕ)
    → first < 32
    → fuel + i ≡ 32
    → 1 ≤ fuel
    → next ≡ after first i
    → next_ready (fuel + more) s first next ≡ next_ready fuel s first next
next_ready_more zero more i next s first hf hi hpos e = absurd (omega arith)
next_ready_more (suc fuel) more i next s first hf hi hpos e =
    let e' : (next + 1) % 32 ≡ after first (suc i) = omega arith in
    let k : suc fuel + more ≡ suc (fuel + more) = omega arith in
    rw k (elim (next_ready_round fuel s first next) [
      | inl (t, r) ↦ ground (arith, next_ready_round (fuel + more) s first next)
      | inr (inl (f, back, r)) ↦ ground (arith, next_ready_round (fuel + more) s first next)
      | inr (inr (f, on, r)) ↦ ground (
        arith,
        next_ready_round (fuel + more) s first next,
        next_ready_more fuel more (suc i) ((next + 1) % 32) s first hf (omega arith) (omega arith)
            e',
      )
    ])

-- The bound on the rounds of the search never shows: with any number of rounds more it returns
-- the same, while the running pid is in the table.
pub next_ready_enough :
    (more : ℕ) (s : Scheduler)
    → IsPid s.current_running_pid
    → next_ready (32 + more) s (first_pid s) (first_pid s) ≡ get_next_ready_pid s
unfolding get_next_ready_pid
next_ready_enough more s h =
    next_ready_more 32 more 0 (first_pid s) s (first_pid s) (first_pid-lt s h) (omega arith)
      (omega arith) (ground (arith, first_pid-lt s h))

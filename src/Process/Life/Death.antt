-- ===== src/Process/Life/Death.antt =====
-- proc_kill of Kernel/processes/process.c: what is left of a process that it ends.
use tpe_so_2023_tp.Base.{
  ℕ, zero, suc, ◌+◌, ◌≤◌, ◌<◌, ◌≡◌, ◌∙◌, refl, ap, arith, pos_part, [], ◌∷◌, none, some, Bool, true,
  false, ℤ, pos, minus_one, returned, fault,
}
use tpe_so_2023_tp.Queue.{Core, Queue, queue_pop, address}
use tpe_so_2023_tp.Kernel.{Kernel, ProcessContext}
use tpe_so_2023_tp.Process.{
  Outside, proc_at, zeroed, get_process_from_pid, put_proc, max_fds, no_fd,
}
use tpe_so_2023_tp.Process.Descriptors.{proc_read, proc_write}
use tpe_so_2023_tp.Process.Life.{
  proc_kill, Killed, finished, unfinished, bury, close_fds, close_one, kill_children, announce,
  unlinked, put_fd, leave_parent, wake_waiting, free_block,
}

-- No descriptor has a close callback: none of them is a pipe's, as neither the keyboard nor the screen has one.
abbrev pub ClosesNothing : Kernel → ℤ → Type 0
ClosesNothing k pid = (j : ℕ) → j < 20 → ((proc_at k pid).fds j).close_callback ≡ none

-- The process is out of the table: its pid is free, and no descriptor of it can be used.
pub record IsGone (k : Kernel) (pid : ℤ) : Type 0 where
  pub entry : proc_at k pid ≡ zeroed
  pub refused : get_process_from_pid k pid ≡ false
  pub unread : (fd : ℤ) → proc_read k pid fd ≡ none
  pub unwritten : (fd : ℤ) → proc_write k pid fd ≡ none

abbrev pub Ends : ℤ → Killed → Type 0
Ends pid unfinished = ⊥
Ends pid (finished fault) = ⊥
Ends pid (finished (returned (r, k))) = (r ≡ pos 0) × IsGone k pid

abbrev pub childless : Queue → Bool
childless none = true
childless (some q) = elim q.first [ [] ↦ true | _ ∷ _ ↦ false ]

pub close_one-returns :
    (o : Outside) (k : Kernel) (pid : ℤ) (fd : ℕ)
    → ((proc_at k pid).fds fd).close_callback ≡ none
    → close_one o k pid fd ≡ returned k
unfolding close_one
close_one-returns o k pid fd e = rw (e, close_one) refl

pub others_kept :
    (k : Kernel) (pid : ℤ) (fd j : ℕ)
    → fd < j
    → (proc_at (put_fd k pid fd no_fd) pid).fds j ≡ (proc_at k pid).fds j
others_kept k pid fd j lt = ground arith

close_fds-returns :
    (n fd : ℕ) (o : Outside) (k : Kernel) (pid : ℤ)
    → ((j : ℕ) → fd ≤ j → j < fd + n → ((proc_at k pid).fds j).close_callback ≡ none)
    → (k' : Kernel) × close_fds n fd o k pid ≡ returned k'
unfolding close_fds
close_fds-returns zero fd o k pid h = (k, refl)
close_fds-returns (suc n) fd o k pid h =
    let (k', rest) = close_fds-returns n (fd + 1) o (put_fd k pid fd no_fd) pid (λ j lo hi.
      ap (λ d. d.close_callback) (others_kept k pid fd j (omega arith))
      ∙ h j (omega arith) (omega arith)) in
    (k', rw (close_one-returns o k pid fd (h fd (omega arith) (omega arith))) rest)

leave_parent-fds :
    (k : Kernel) (pid at : ℤ) → (proc_at (leave_parent k pid) at).fds ≡ (proc_at k at).fds
unfolding leave_parent
leave_parent-fds k pid at = ground arith

wake_waiting-processes : (k : Kernel) (pid : ℤ) → (wake_waiting k pid).processes ≡ k.processes
unfolding wake_waiting
wake_waiting-processes k pid = ground arith

pub unlinked-fds : (k : Kernel) (pid : ℤ) → (proc_at (unlinked k pid) pid).fds ≡ (proc_at k pid).fds
unlinked-fds k pid =
    let k1 = free_block k (address (proc_at k pid).child_pids) in
    ap (λ ps. (ps (pos_part pid)).fds) (wake_waiting-processes (leave_parent k1 pid) pid)
    ∙ leave_parent-fds k1 pid pid

zeroed-IsGone : (k : Kernel) (pid : ℤ) → IsGone (put_proc k pid zeroed) pid
unfolding proc_read proc_write
zeroed-IsGone k pid = record {
  entry = ground arith;
  refused = ground arith;
  unread = λ fd. ground arith;
  unwritten = λ fd. ground arith;
}

bury-Ends :
    (o : Outside) (k : Kernel) (pid : ℤ) → ClosesNothing k pid → Ends pid (finished (bury o k pid))
unfolding bury
bury-Ends o k pid h =
    let (k1, closed) =
      close_fds-returns max_fds 0 o (unlinked k pid) pid
        (λ j _ lt. ap (λ fds. (fds j).close_callback) (unlinked-fds k pid) ∙ h j lt) in
    rw closed (refl, zeroed-IsGone _ pid)

pub childless-queue_pop :
    (c : Core) (q : Queue) → childless q ≡ true → queue_pop c q ≡ (minus_one, c, q)
unfolding queue_pop
childless-queue_pop c none e = refl
childless-queue_pop c (some q) e = ground arith

pub own_entry : (k : Kernel) (pid : ℤ) (p : ProcessContext) → proc_at (put_proc k pid p) pid ≡ p
own_entry k pid p = ground arith

no_child-after :
    (n : ℕ) (kill : Kernel → ℤ → Killed) (k : Kernel) (pid : ℤ) (o : Outside)
    → childless (proc_at k pid).child_pids ≡ true
    → ClosesNothing k pid
    → Ends pid (kill_children (suc n) kill k pid (λ k1. finished (bury o k1 pid)))
unfolding kill_children
no_child-after n kill k pid o c h = rw (childless-queue_pop k.core (proc_at k pid).child_pids c) (
    bury-Ends o _ pid
      (λ j lt. ap (λ p. (p.fds j).close_callback) (own_entry k pid (proc_at k pid)) ∙ h j lt))

-- proc_kill of a process of the table that has no children, no kill callback and no descriptor with a close callback,
-- as one that only uses the keyboard and the screen, comes to an end: it returns 0, the entry of the pid is
-- zeroed, and no process of that pid is found, or read or written through any descriptor.
pub childless-Ends :
    (depth : ℕ) (o : Outside) (k : Kernel) (pid : ℤ) (status : ℕ)
    → ClosesNothing k pid
    → get_process_from_pid k pid ≡ true
    → (proc_at k pid).kill_callback ≡ 0
    → childless (proc_at k pid).child_pids ≡ true
    → Ends pid (proc_kill (suc depth) o k pid status)
unfolding proc_kill announce
childless-Ends depth o k pid status h live quiet c =
    rw (live, quiet) (no_child-after depth _ _ pid o c h)

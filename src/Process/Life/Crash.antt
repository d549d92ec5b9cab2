-- ===== src/Process/Life/Crash.antt =====
-- proc_kill of Kernel/processes/process.c, when it closes the last writing end of a pipe of Kernel/ipc/pipe.c.
use tpe_so_2023_tp.Base.{
  ℕ, zero, suc, ◌+◌, ◌<◌, ◌≡◌, ◌∙◌, refl, sym, ap, arith, none, some, true, false, ℤ, pos, ◌==ℤ◌,
  fault, subst,
}
use tpe_so_2023_tp.Kernel.{Kernel, PipeFd, pipes}
use tpe_so_2023_tp.Pipe.Buffer.{Pipe}
use tpe_so_2023_tp.Pipe.Table.{get_pipe, get_pipe_fd}
use tpe_so_2023_tp.Pipe.Table.Descriptors.{OnlyOf}
use tpe_so_2023_tp.Pipe.Callbacks.{crashes}
use tpe_so_2023_tp.Pipe.Callbacks.Closing.{close_callback}
use tpe_so_2023_tp.Pipe.Callbacks.Closing.Orphan.{last_writer_crashes}
use tpe_so_2023_tp.Process.{Outside, proc_at, get_process_from_pid, max_fds, no_fd}
use tpe_so_2023_tp.Process.Life.{
  proc_kill, Killed, finished, bury, close_fds, close_one, kill_children, announce, unlinked,
  put_fd, leave_parent, wake_waiting,
}
use tpe_so_2023_tp.Process.Life.Death.{
  childless, childless-queue_pop, close_one-returns, others_kept, unlinked-fds, own_entry,
}

-- A pipe's close callback is close_callback of pipe.c, as far as this crashes; `outside` is the byte before its block.
abbrev pub RunsPipes : ℕ → Outside → Type 0
RunsPipes outside o =
    (k : Kernel) (pid fd : ℤ)
    → close_callback outside k pid fd ≡ crashes
    → o.on_close pipes k pid fd ≡ fault

-- The descriptor is a write-only one of a pipe, and no other one of that pipe may write.
pub record IsLastWriter (k : Kernel) (pid fd : ℤ) : Type 0 where
  pub entry : PipeFd
  pub pipe : Pipe
  pub found : get_pipe_fd k pid fd ≡ some entry
  pub there : get_pipe k entry.pipe_id ≡ some pipe
  pub no_reader : (entry.allow_rd ==ℤ pos 0) ≡ true
  pub writer : (entry.allow_wr ==ℤ pos 0) ≡ false
  pub last : pipe.writers ≡ 1
  pub only : OnlyOf k entry.pipe_id pid fd

-- The tables of pipe.c are the same.
abbrev SameTables : Kernel → Kernel → Type 0
SameTables k k' = (k'.pipe_table ≡ k.pipe_table) × (k'.pipe_fd_table ≡ k.pipe_fd_table)

same-IsLastWriter :
    (k k' : Kernel) (pid fd : ℤ) → SameTables k k' → IsLastWriter k pid fd → IsLastWriter k' pid fd
unfolding get_pipe_fd
same-IsLastWriter k k' pid fd (pipes_same, fds_same) w =
    let moved : Kernel = record k' { pipe_table = k.pipe_table; pipe_fd_table = k.pipe_fd_table } in
    let there : IsLastWriter moved pid fd = record {
      entry = w.entry;
      pipe = w.pipe;
      found = w.found;
      there = w.there;
      no_reader = w.no_reader;
      writer = w.writer;
      last = w.last;
      only = w.only;
    } in
    subst
      (λ t. IsLastWriter (record k' { pipe_table = t; pipe_fd_table = k'.pipe_fd_table }) pid fd)
      (sym pipes_same)
      (subst (λ t. IsLastWriter (record k' { pipe_table = k.pipe_table; pipe_fd_table = t }) pid fd)
        (sym fds_same) there)

unlinked-SameTables : (k : Kernel) (pid : ℤ) → SameTables k (unlinked k pid)
unfolding leave_parent wake_waiting
unlinked-SameTables k pid = (ground arith, ground arith)

close_one_crash :
    (o : Outside) (k : Kernel) (pid : ℤ) (fd : ℕ)
    → ((proc_at k pid).fds fd).close_callback ≡ some pipes
    → o.on_close pipes k pid (pos fd) ≡ fault
    → close_one o k pid fd ≡ fault
unfolding close_one
close_one_crash o k pid fd e crash = rw (e, close_one, crash) refl

cleared_below :
    (k : Kernel) (pid : ℤ) (i j : ℕ)
    → ((proc_at k pid).fds j).close_callback ≡ none
    → ((proc_at (put_fd k pid i no_fd) pid).fds j).close_callback ≡ none
cleared_below k pid i j e = ground (arith, e)

-- The loop gets as far as the descriptor `i + m`.
close_fds_crash :
    (m n i fd : ℕ) (o : Outside) (k : Kernel) (pid : ℤ)
    → i + m ≡ fd
    → m < n
    → ((j : ℕ) → j < fd → ((proc_at k pid).fds j).close_callback ≡ none)
    → ((proc_at k pid).fds fd).close_callback ≡ some pipes
    → ((k' : Kernel) → SameTables k k' → o.on_close pipes k' pid (pos fd) ≡ fault)
    → close_fds n i o k pid ≡ fault
unfolding close_fds
close_fds_crash m zero i fd o k pid at lt below it crash = absurd (omega arith)
close_fds_crash zero (suc n) i fd o k pid at lt below it crash =
    let same : i ≡ fd = omega arith in
    let one : close_one o k pid i ≡ fault =
      subst (λ z. close_one o k pid z ≡ fault) (sym same)
        (close_one_crash o k pid fd it (crash k (refl, refl))) in
    rw one refl
close_fds_crash (suc m) (suc n) i fd o k pid at lt below it crash =
    let k1 = put_fd k pid i no_fd in
    let one = close_one-returns o k pid i (below i (omega arith)) in
    rw one (
      close_fds_crash m n (i + 1) fd o k1 pid (omega arith) (omega arith)
        (λ j before. cleared_below k pid i j (below j before))
        (ap (λ d. d.close_callback) (others_kept k pid i fd (omega arith)) ∙ it) crash)

bury_crash :
    (o : Outside) (k : Kernel) (pid : ℤ) (fd : ℕ)
    → fd < 20
    → ((j : ℕ) → j < fd → ((proc_at k pid).fds j).close_callback ≡ none)
    → ((proc_at k pid).fds fd).close_callback ≡ some pipes
    → ((k' : Kernel) → SameTables k k' → o.on_close pipes k' pid (pos fd) ≡ fault)
    → bury o k pid ≡ fault
unfolding bury
bury_crash o k pid fd lt below it crash =
    let k1 = unlinked k pid in
    let same = λ (j : ℕ). ap (λ fds. (fds j).close_callback) (unlinked-fds k pid) in
    let (pipes_same, fds_same) = unlinked-SameTables k pid in
    let closed =
      close_fds_crash fd max_fds 0 fd o k1 pid (omega arith) lt
        (λ j before. same j ∙ below j before) (same fd ∙ it)
        (λ k' (p, f). crash k' (p ∙ pipes_same, f ∙ fds_same)) in
    rw closed refl

no_child_crash :
    (n : ℕ) (kill : Kernel → ℤ → Killed) (k : Kernel) (pid : ℤ) (fd : ℕ) (o : Outside)
    → childless (proc_at k pid).child_pids ≡ true
    → fd < 20
    → ((j : ℕ) → j < fd → ((proc_at k pid).fds j).close_callback ≡ none)
    → ((proc_at k pid).fds fd).close_callback ≡ some pipes
    → ((k' : Kernel) → SameTables k k' → o.on_close pipes k' pid (pos fd) ≡ fault)
    → kill_children (suc n) kill k pid (λ k1. finished (bury o k1 pid)) ≡ finished fault
unfolding kill_children
no_child_crash n kill k pid fd o c lt below it crash =
    let own = λ (j : ℕ). ap (λ p. (p.fds j).close_callback) (own_entry k pid (proc_at k pid)) in
    rw (childless-queue_pop k.core (proc_at k pid).child_pids c) (
      ap finished (
        bury_crash o _ pid fd lt (λ j before. own j ∙ below j before) (own fd ∙ it)
          (λ k' same. crash k' same)))

-- proc_kill of a process of the table that has no children and no kill callback crashes the kernel when its first descriptor
-- with a close callback is the last writing end of a pipe, not also a reading one: closing it reads
-- through NULL.
pub killed_writer_crashes :
    (depth outside : ℕ) (o : Outside) (k : Kernel) (pid : ℤ) (fd status : ℕ)
    → RunsPipes outside o
    → get_process_from_pid k pid ≡ true
    → (proc_at k pid).kill_callback ≡ 0
    → childless (proc_at k pid).child_pids ≡ true
    → fd < 20
    → ((j : ℕ) → j < fd → ((proc_at k pid).fds j).close_callback ≡ none)
    → ((proc_at k pid).fds fd).close_callback ≡ some pipes
    → IsLastWriter k pid (pos fd)
    → proc_kill (suc depth) o k pid status ≡ finished fault
unfolding proc_kill announce
killed_writer_crashes depth outside o k pid fd status runs live quiet c lt below it writer =
    let crash = λ (k' : Kernel) (same : SameTables k k').
      let w = same-IsLastWriter k k' pid (pos fd) same writer in
      runs k' pid (pos fd) (
        last_writer_crashes outside k' pid (pos fd) w.entry w.pipe w.found w.there w.no_reader
          w.writer w.last w.only) in
    rw (live, quiet) (no_child_crash depth _ _ pid fd o c lt below it crash)

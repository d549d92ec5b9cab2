-- ===== src/Pipe/Callbacks/Receive.antt =====
-- read_callback of Kernel/ipc/pipe.c: when it returns, with which bytes, and when it sleeps.
use tpe_so_2023_tp.Base.{
  ℕ, ◌≡◌, ◌≢◌, ◌⊎◌, inl, inr, refl, sym, ap, ◌∙◌, arith, List, [], take, drop, true, false, ◌&&◌,
  ◌==◌, if◌then◌else◌, subst, some, ℤ, Outcome, returned, fault, min, Bool-cases,
}
use native.Mathlib.Decide.{ℕ_discrete}
use tpe_so_2023_tp.Queue.{Core, queue_add, queue_unblock_all}
use tpe_so_2023_tp.Kernel.{Kernel, PipeFd}
use tpe_so_2023_tp.Pipe.Buffer.{Pipe, read_pipe_buffer}
use tpe_so_2023_tp.Pipe.Buffer.Ring.{IsRing, contents}
use tpe_so_2023_tp.Pipe.Buffer.Read.{ReadsOldest, read_pipe_buffer_lem}
use tpe_so_2023_tp.Pipe.Table.{get_pipe, put_pipe, get_pipe_fd}
use tpe_so_2023_tp.Pipe.Callbacks.{
  Progress, done, sleeps, crashes, unfinished, read_round, read_callback, with_pipe, put_core,
  sleeping, has_name_or_writers,
}
use tpe_so_2023_tp.Scheduler.{sch_block, sch_yield}

-- Bytes can still come: the pipe has a name or writers.
abbrev pub IsOpen : Pipe → Type 0
IsOpen p = has_name_or_writers p ≡ true

-- The heap and scheduler after a reading: the writers are woken if there was a byte in the pipe.
abbrev pub after_reading : Core → Pipe → Core
after_reading c p = if p.bytes_to_read == 0 then c else (queue_unblock_all c p.wr_q).1

-- From the heap and scheduler `c`, the process is added to the queue of readers of the pipe and
-- blocked, and yields; the bytes of the pipe stay.
abbrev pub Sleeps : Kernel → ℤ → ℤ → Core → Pipe → Type 0
Sleeps k pid id c p =
    let added = queue_add c p.rd_q pid in
    (k.core ≡ record added.1 { scheduler = sch_yield (sch_block added.1.scheduler pid).1 })
    × ((p' : Pipe) × (get_pipe k id ≡ some p') × (p'.rd_q ≡ added.2) × (contents p' ≡ contents p))

-- What read_callback comes to on a pipe that held `p`, with the heap and scheduler `c0`.
abbrev pub Reads : Core → ℤ → ℤ → Pipe → ℕ → Progress (List ℕ) → Type 0
Reads c0 pid id p count crashes = ⊥
Reads c0 pid id p count unfinished = ⊥
Reads c0 pid id p count (sleeps bytes k) =
    (bytes ≡ [])
    × (min count p.bytes_to_read ≡ 0)
    × IsOpen p
    × Sleeps k pid id (after_reading c0 p) p
Reads c0 pid id p count (done bytes k) =
    (bytes ≡ take (min count p.bytes_to_read) (contents p))
    × ((min count p.bytes_to_read ≢ 0) ⊎ (has_name_or_writers p ≡ false))
    × (k.core ≡ after_reading c0 p)
    × ((p' : Pipe) × (get_pipe k id ≡ some p')
        × (contents p' ≡ drop (min count p.bytes_to_read) (contents p))
        × IsRing p')

get_pipe-put_pipe :
    (k k' : Kernel) (id : ℤ) (p p' : Pipe)
    → get_pipe k id ≡ some p
    → get_pipe (put_pipe k' id (some p')) id ≡ some p'
get_pipe-put_pipe k k' id p p' h = ground arith

-- Reading changes nothing of what read_callback asks the pipe.
still_open :
    (c : Core) (p : Pipe) (count n : ℕ) (bytes : List ℕ) (c' : Core) (p' : Pipe)
    → read_pipe_buffer c p count ≡ returned (n, bytes, c', p')
    → has_name_or_writers p' ≡ has_name_or_writers p
unfolding read_pipe_buffer
still_open c p count n bytes c' p' e = ground (arith, e)

-- Nor of the queue of readers.
rd_q_kept :
    (c : Core) (p : Pipe) (count n : ℕ) (bytes : List ℕ) (c' : Core) (p' : Pipe)
    → read_pipe_buffer c p count ≡ returned (n, bytes, c', p')
    → p'.rd_q ≡ p.rd_q
unfolding read_pipe_buffer
rd_q_kept c p count n bytes c' p' e = ground (arith, e)

-- What it leaves of the heap and the scheduler.
core_after :
    (c : Core) (p : Pipe) (count n : ℕ) (bytes : List ℕ) (c' : Core) (p' : Pipe)
    → read_pipe_buffer c p count ≡ returned (n, bytes, c', p')
    → c' ≡ after_reading c p
unfolding read_pipe_buffer
core_after c p count n bytes c' p' e = ground (arith, e)

abbrev asleep : Kernel → ℤ → ℤ → Core → Pipe → Kernel
asleep k pid id c p1 =
    let (_, c1, q) = queue_add c p1.rd_q pid in
    put_pipe (put_core k (sleeping c1 pid)) id (some (record p1 { rd_q = q }))

asleep-Sleeps :
    (k : Kernel) (pid id : ℤ) (c c' : Core) (p p1 : Pipe)
    → get_pipe k id ≡ some p
    → c ≡ c'
    → p1.rd_q ≡ p.rd_q
    → contents p1 ≡ contents p
    → Sleeps (asleep k pid id c p1) pid id c' p
asleep-Sleeps k pid id c c' p p1 there e kept same =
    let at =
      get_pipe-put_pipe k (put_core k (sleeping (queue_add c p1.rd_q pid).1 pid)) id p _ there in
    subst (λ x. Sleeps (asleep k pid id c p1) pid id x p) e
      (
        ap (λ q. (let (_, c1, _) = queue_add c q pid in sleeping c1 pid)) kept,
        (_, at, ap (λ q. (queue_add c q pid).2) kept, same),
      )

read_once :
    (k : Kernel) (pid id : ℤ) (p : Pipe) (count : ℕ) (o : Outcome (ℕ × List ℕ × Core × Pipe))
    → get_pipe k id ≡ some p
    → read_pipe_buffer k.core p count ≡ o
    → ReadsOldest k.core p count o
    → Reads k.core pid id p count (read_round k pid id p count)
unfolding read_round
read_once k pid id p count fault there e a = absurd a
read_once k pid id p count (returned (n, bytes, c, p1)) there e (taken, oldest, rest, fewer, v, _) =
    elim (Bool-cases (n == 0 && has_name_or_writers p1)) [
      | inl waits ↦
          let nothing : n ≡ 0 = ground arith in
          let opened : has_name_or_writers p1 ≡ true = ground arith in
          rw (read_round, e, waits)
            (
              refl,
              omega (arith, taken, nothing),
              sym (still_open k.core p count n bytes c p1 e) ∙ opened,
              asleep-Sleeps k pid id c _ p p1 there (core_after k.core p count n bytes c p1 e)
                  (rd_q_kept k.core p count n bytes c p1 e)
                  (rest ∙ ap (λ m. drop m (contents p)) nothing),
            )
      | inr goes ↦
          rw (read_round, e, goes)
            (
              oldest ∙ ap (λ m. take m (contents p)) taken,
              elim (ℕ_discrete n 0) [
                | yes z ↦ inr (sym (still_open k.core p count n bytes c p1 e) ∙ ground arith)
                | no nz ↦ inl (λ h. nz (taken ∙ h))
              ],
              core_after k.core p count n bytes c p1 e,
              (
                p1,
                get_pipe-put_pipe k (put_core k c) id p p1 there,
                rest ∙ ap (λ m. drop m (contents p)) taken,
                v,
              ),
            )
    ]

-- read_callback on a descriptor of a well-formed pipe comes to an end. With bytes waiting, and some
-- asked for, it returns the oldest of them, in order, as many as were asked for or as there are, and they
-- leave the pipe. Otherwise, while the pipe has a name or a writer, the process is added to the pipe's
-- queue of readers, is blocked and yields, and the call returns no bytes when the pipe has neither.
-- The writers that wait are woken exactly if there was a byte in the pipe.
pub read_callback_lem :
    (k : Kernel) (pid fd : ℤ) (d : PipeFd) (p : Pipe) (count : ℕ)
    → get_pipe_fd k pid fd ≡ some d
    → get_pipe k d.pipe_id ≡ some p
    → IsRing p
    → Reads k.core pid d.pipe_id p count (read_callback k pid fd count)
unfolding read_callback
read_callback_lem k pid fd d p count found there v =
    rw (read_callback, with_pipe, found, there)
      (read_once k pid d.pipe_id p count _ there refl (read_pipe_buffer_lem k.core p count v))

-- ===== src/Pipe/Callbacks/Transfer.antt =====
-- write_callback of Kernel/ipc/pipe.c: how many bytes arrive before it returns or sleeps.
use tpe_so_2023_tp.Base.{
  ℕ, suc, ◌+◌, ◌-◌, ◌%◌, ◌^◌, ◌≤◌, ◌<◌, ◌≡◌, ◌≢◌, ◌⊎◌, inl, inr, refl, ap, ◌∙◌, arith, List, ◌++◌,
  take, drop, length, true, false, some, leb, ◌==◌, if◌then◌else◌, ℤ, Outcome, returned, fault, min,
  take_all, subst,
}
use native.Mathlib.Decide.{dec_lt, ℕ_discrete}
use tpe_so_2023_tp.Queue.{Core, Queue, queue_add, queue_unblock_all}
use tpe_so_2023_tp.Kernel.{Kernel, PipeFd}
use tpe_so_2023_tp.Pipe.Buffer.{Pipe, write_pipe_buffer, grow, put_bytes, size_max}
use tpe_so_2023_tp.Pipe.Buffer.Ring.{IsRing, contents}
use tpe_so_2023_tp.Pipe.Buffer.Grow.{IsRefused}
use tpe_so_2023_tp.Pipe.Buffer.Write.{Appends, write_pipe_buffer_lem}
use tpe_so_2023_tp.Pipe.Table.{get_pipe, put_pipe, get_pipe_fd}
use tpe_so_2023_tp.Pipe.Callbacks.{
  Progress, done, sleeps, crashes, unfinished, write_rounds, write_callback, with_pipe, put_core,
  sleeping,
}
use tpe_so_2023_tp.Scheduler.{sch_block, sch_yield}

-- The pipe of the table is a well-formed one, with the bytes of `p` and then `src`.
abbrev pub Holds : Kernel → ℤ → Pipe → List ℕ → Type 0
Holds k id p src =
    (p' : Pipe) × (get_pipe k id ≡ some p') × (contents p' ≡ contents p ++ src) × IsRing p'

-- From the heap and scheduler `c`, the process is added to the queue of writers of the pipe and
-- blocked, and yields.
abbrev pub Sleeps : Kernel → ℤ → ℤ → Core → Queue → Type 0
Sleeps k pid id c q =
    let added = queue_add c q pid in
    (k.core ≡ record added.1 { scheduler = sch_yield (sch_block added.1.scheduler pid).1 })
    × ((p' : Pipe) × (get_pipe k id ≡ some p') × (p'.wr_q ≡ added.2))

-- The heap and scheduler after `n` of `count` bytes were written: the ring may have grown, and the readers
-- are woken if there was a byte.
abbrev pub after_round : Core → Pipe → ℕ → ℕ → Core
after_round c0 p count n =
    let c1 = (grow c0 p count).1 in if n == 0 then c1 else (queue_unblock_all c1 p.rd_q).1

-- What write_callback comes to on a pipe that held `p`, with the heap and scheduler `c0`; a result of
-- 2^64 - 1 is -1 as an int.
abbrev pub Writes : Core → ℤ → ℤ → Pipe → List ℕ → Progress ℕ → Type 0
Writes c0 pid id p buf crashes = ⊥
Writes c0 pid id p buf unfinished = ⊥
Writes c0 pid id p buf (done n k) =
    (IsRefused c0 p (length buf) × (n ≡ size_max) × (get_pipe k id ≡ some p))
    ⊎ (¬ IsRefused c0 p (length buf)
        × (n ≡ length buf)
        × (p.bytes_to_read + n ≤ 4096)
        × Holds k id p buf)
Writes c0 pid id p buf (sleeps n k) =
    ¬ IsRefused c0 p (length buf)
    × (n < length buf)
    × (p.bytes_to_read + n ≡ 4096)
    × Sleeps k pid id (after_round c0 p (length buf) n) p.wr_q
    × Holds k id p (take n buf)

abbrev asleep : Kernel → ℤ → ℤ → Core → Pipe → Kernel
asleep k pid id c p =
    let (_, c1, q) = queue_add c p.wr_q pid in
    put_pipe (put_core k (sleeping c1 pid)) id (some (record p { wr_q = q }))

get_pipe-put_pipe :
    (k k' : Kernel) (id : ℤ) (p p' : Pipe)
    → get_pipe k id ≡ some p
    → get_pipe (put_pipe k' id (some p')) id ≡ some p'
get_pipe-put_pipe k k' id p p' h = ground arith

asleep-Sleeps :
    (k k0 : Kernel) (pid id : ℤ) (c c' : Core) (p p1 : Pipe)
    → get_pipe k0 id ≡ some p
    → c ≡ c'
    → p1.wr_q ≡ p.wr_q
    → Sleeps (asleep k pid id c p1) pid id c' p.wr_q
asleep-Sleeps k k0 pid id c c' p p1 there e kept =
    let a = asleep k pid id c p1 in
    let at =
      get_pipe-put_pipe k0 (put_core k (sleeping (queue_add c p1.wr_q pid).1 pid)) id p _ there in
    subst (λ x. Sleeps a pid id x p.wr_q) e
      (subst (λ q. Sleeps a pid id c q) kept (refl, (_, at, refl)))

-- Writing leaves the queue of writers alone.
wr_q_kept :
    (c : Core) (p : Pipe) (src : List ℕ) (n : ℕ) (c' : Core) (p' : Pipe)
    → write_pipe_buffer c p src ≡ returned (n, c', p')
    → p'.wr_q ≡ p.wr_q
unfolding write_pipe_buffer grow put_bytes
wr_q_kept c p src n c' p' e = ground (arith, e)

round_result :
    (f : ℕ) (k : Kernel) (pid id : ℤ) (p : Pipe) (buf : List ℕ) (written n : ℕ) (c : Core)
    (p1 : Pipe)
    → leb (length buf) written ≡ false
    → write_pipe_buffer k.core p (drop written buf) ≡ returned (n, c, p1)
    → write_rounds (suc f) k pid id p buf written ≡ (
        if n == 0
        then sleeps written (asleep k pid id c p1)
        else write_rounds f
            (put_pipe (put_core k c) id (some p1))
            pid
            id
            p1
            buf
            ((written + n) % 2 ^ 64))
unfolding write_rounds
round_result f k pid id p buf written n c p1 more e = rw (more, e) refl

rounds_over :
    (f : ℕ) (k : Kernel) (pid id : ℤ) (p : Pipe) (buf : List ℕ) (written : ℕ)
    → length buf ≤ written
    → write_rounds (suc f) k pid id p buf written ≡ done written k
unfolding write_rounds
rounds_over f k pid id p buf written h = ground arith

full_takes_none :
    (c : Core) (p : Pipe) (src : List ℕ)
    → IsRing p
    → p.bytes_to_read ≡ 4096
    → write_pipe_buffer c p src ≡ returned (0, c, p)
unfolding write_pipe_buffer grow put_bytes
full_takes_none c p src v full = ground (arith, v.fits, v.small)

requeued-IsRing : (p : Pipe) (q : Queue) → IsRing p → IsRing (record p { wr_q = q })
requeued-IsRing p q v = record {
  block = v.block;
  small = v.small;
  fits = v.fits;
  start = v.start;
  inside = v.inside;
}

-- The second round, after a first that took `n` bytes.
second_round :
    (f : ℕ) (k : Kernel) (pid id : ℤ) (p p1 : Pipe) (buf : List ℕ) (n : ℕ) (c : Core)
    → get_pipe k id ≡ some p
    → n ≢ 0
    → length buf < 2 ^ 64
    → n ≡ min (length buf) (4096 - p.bytes_to_read)
    → contents p1 ≡ contents p ++ take n buf
    → p1.bytes_to_read ≡ p.bytes_to_read + n
    → p.bytes_to_read ≤ 4096
    → IsRing p1
    → ¬ IsRefused k.core p (length buf)
    → c ≡ after_round k.core p (length buf) n
    → p1.wr_q ≡ p.wr_q
    → Writes k.core pid id p buf (
        write_rounds
          (suc f)
          (put_pipe (put_core k c) id (some p1))
          pid
          id
          p1
          buf
          ((0 + n) % 2 ^ 64))
second_round f k pid id p p1 buf n c there some_taken small e same more fits v able woken kept =
    elim (dec_lt n (length buf)) [
      | yes left ↦
          rw
            (
              short,
              round_result f k1 pid id p1 buf n 0 c p1 (ground arith)
                  (full_takes_none c p1 (drop n buf) v (omega (arith, more, e))),
            )
            (
              able,
              left,
              omega (arith, e),
              asleep-Sleeps k1 k pid id c _ p p1 there woken kept,
              (
                _,
                get_pipe-put_pipe k (put_core k1 (sleeping (queue_add c p1.wr_q pid).1 pid)) id p _
                    there,
                same,
                requeued-IsRing p1 _ v,
              ),
            )
      | no all ↦
          rw (short, rounds_over f k1 pid id p1 buf n (omega arith))
            (inr (
              able,
              omega (arith, e),
              omega (arith, e),
              (
                p1,
                get_pipe-put_pipe k (put_core k c) id p p1 there,
                same ∙ ap (λ l. contents p ++ l) (take_all n buf (omega arith)),
                v,
              ),
            ))
    ]
  where
    k1 : Kernel
    k1 = put_pipe (put_core k c) id (some p1)

    short : (0 + n) % 2 ^ 64 ≡ n
    short = omega (arith, e)

-- The rounds from what the first call of write_pipe_buffer gave.
first_round :
    (f : ℕ) (k : Kernel) (pid id : ℤ) (p : Pipe) (buf : List ℕ) (c1 : Core)
    (o : Outcome (ℕ × Core × Pipe))
    → get_pipe k id ≡ some p
    → IsRing p
    → length buf < 2 ^ 64 - 1
    → 0 < length buf
    → write_pipe_buffer k.core p buf ≡ o
    → Appends k.core c1 p buf o
    → c1 ≡ (grow k.core p (length buf)).1
    → Writes k.core pid id p buf (write_rounds (suc (suc f)) k pid id p buf 0)
first_round f k pid id p buf c1 fault there v small some_bytes e a g = absurd a
first_round f k pid id p buf c1 (returned (n, c, p1)) there v small some_bytes e
      (inl (refused, failed, same, _)) g =
    let over =
      rounds_over f (put_pipe (put_core k c) id (some p1)) pid id p1 buf ((0 + n) % 2 ^ 64)
        (omega (arith, failed)) in
    let nonzero : (n == 0) ≡ false = ground (arith, failed) in
    rw (round_result (suc f) k pid id p buf 0 n c p1 (ground arith) e, nonzero, over)
      (inl (
        refused,
        omega (arith, failed),
        get_pipe-put_pipe k (put_core k c) id p p1 there ∙ ap some same,
      ))
first_round f k pid id p buf c1 (returned (n, c, p1)) there v small some_bytes e
      (inr (able, taken, same, more, v1, quiet, woken)) g =
    elim (ℕ_discrete n 0) [
      | yes z ↦
          let none_taken : (n == 0) ≡ true = ground arith in
          rw (round_result (suc f) k pid id p buf 0 n c p1 (ground arith) e, none_taken)
            (
              able,
              some_bytes,
              omega (arith, taken, v.small, v.fits),
              asleep-Sleeps k k pid id c _ p p1 there (quiet z ∙ g)
                  (wr_q_kept k.core p buf n c p1 e),
              (
                _,
                get_pipe-put_pipe k (put_core k (sleeping (queue_add c p1.wr_q pid).1 pid)) id p _
                    there,
                same ∙ ap (λ m. contents p ++ take m buf) z,
                requeued-IsRing p1 _ v1,
              ),
            )
      | no nz ↦
          let some_taken : (n == 0) ≡ false = ground arith in
          rw (round_result (suc f) k pid id p buf 0 n c p1 (ground arith) e, some_taken)
            (second_round f k pid id p p1 buf n c there nz (omega arith) taken same more
              (omega (arith, v.small, v.fits)) v1 able (woken nz ∙ rw (g, some_taken) refl)
              (wr_q_kept k.core p buf n c p1 e))
    ]

-- write_callback on a descriptor of a well-formed pipe, with at least one byte to write, comes to an end.
-- Exactly when the ring has to grow and the heap has no room, it answers -1 and the pipe is as it was.
-- Otherwise it appends the bytes, in order, and returns their number if they fit into the 4096 bytes that a pipe holds at most;
-- if they do not, it fills the pipe with the first of them, and the process is added to the pipe's queue of
-- writers, is blocked and yields, with the others to write.
pub write_callback_lem :
    (k : Kernel) (pid fd : ℤ) (d : PipeFd) (p : Pipe) (buf : List ℕ)
    → get_pipe_fd k pid fd ≡ some d
    → get_pipe k d.pipe_id ≡ some p
    → IsRing p
    → 0 < length buf
    → length buf < 2 ^ 32
    → Writes k.core pid d.pipe_id p buf (write_callback k pid fd buf)
unfolding write_callback
write_callback_lem k pid fd d p buf found there v some_bytes small =
    rw (write_callback, with_pipe, found, there)
      (first_round (length buf) k pid d.pipe_id p buf (grow k.core p (length buf)).1 _ there v
        (omega arith) some_bytes refl
        (write_pipe_buffer_lem k.core p buf v (omega (arith, v.small, v.fits)) (omega arith)) refl)

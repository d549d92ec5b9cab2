-- ===== src/Process/Life/Waits.antt =====
-- proc_unblock_on_killed of Kernel/processes/process.c when the heap is full.
use tpe_so_2023_tp.Base.{
  ℕ, none, minus_one, ◌≡◌, refl, arith, ap, ◌∙◌, some, true, ℤ, pos, pos_part, update,
}
use tpe_so_2023_tp.Queue.{Core, Queue, QueueAdt, core_alloc, queue_add}
use tpe_so_2023_tp.Kernel.{Kernel}
use tpe_so_2023_tp.Process.{proc_at, put_proc, get_process_from_pid}
use tpe_so_2023_tp.Process.Life.{proc_unblock_on_killed, child_queue, put_core}

queue_add_full :
    (c : Core) (q : QueueAdt) (elem : ℤ)
    → c.memory.answer c.memory.calls 16 ≡ 0
    → queue_add c (some q) elem ≡ (minus_one, (core_alloc c 16).1, some q)
unfolding queue_add
queue_add_full c q elem full = rw full refl

-- The process's entry, with what queue_add leaves in the place of its queue.
abbrev stored_queue : Kernel → ℤ → ℤ × Core × Queue → ℤ × Kernel
stored_queue k working (r, c, q) =
    (pos 0, put_proc (put_core k c) working (record (proc_at k working) { waiting_pids = q }))

abbrev on_queue : Kernel → ℤ → ℤ → Queue → ℤ × Kernel
on_queue k waiting working queue =
    let (queue', c1) = child_queue k.core queue in
    elim queue' [
      | none ↦ (minus_one, put_core k c1)
      | some q ↦ stored_queue k working (queue_add c1 (some q) waiting)
    ]

found_process :
    (k : Kernel) (waiting working : ℤ)
    → get_process_from_pid k working ≡ true
    → proc_unblock_on_killed k waiting working
      ≡ on_queue k waiting working (proc_at k working).waiting_pids
unfolding proc_unblock_on_killed
found_process k waiting working live = rw live refl

own_entry : {A : Type 0} (f : ℕ → A) (i : ℕ) (v : A) → update f i v i ≡ v
own_entry f i v = ground arith

-- Where no node can be made for the caller, it answers 0 all the same, and the queue is as it was.
pub proc_unblock_on_killed_full :
    (k : Kernel) (waiting working : ℤ) (q : QueueAdt)
    → get_process_from_pid k working ≡ true
    → (proc_at k working).waiting_pids ≡ some q
    → k.core.memory.answer k.core.memory.calls 16 ≡ 0
    → (let (r, k') = proc_unblock_on_killed k waiting working in
        (r ≡ pos 0)
        × ((proc_at k' working).waiting_pids ≡ some q)
        × (k'.core.scheduler ≡ k.core.scheduler))
proc_unblock_on_killed_full k waiting working q live queue full =
    let e =
      found_process k waiting working live
      ∙ ap (on_queue k waiting working) queue
      ∙ ap (stored_queue k working) (queue_add_full k.core q waiting full) in
    (
      ap (λ z. z.0) e,
      ap (λ z. (proc_at z.1 working).waiting_pids) e
          ∙ ap (λ p. p.waiting_pids)
              (own_entry k.processes (pos_part working)
                (record (proc_at k working) { waiting_pids = some q })),
      ap (λ z. z.1.core.scheduler) e,
    )

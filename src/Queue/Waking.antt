-- ===== src/Queue/Waking.antt =====
-- Which processes queue_unblock_all and queue_unblock of Kernel/libc/queue.c wake.
use tpe_so_2023_tp.Base.{
  ℕ, ◌<◌, ◌≡◌, refl, ◌∙◌, true, false, arith, List, [], ◌∷◌, some, if◌then◌else◌, pos, ◌==ℤ◌, Bool,
}
use tpe_so_2023_tp.Scheduler.{ProcessState}
use tpe_so_2023_tp.Scheduler.Wake.{woken, sch_unblock_lem}
use tpe_so_2023_tp.Queue.{Core, Node, QueueAdt, free_rec, queue_unblock, queue_unblock_all}
use tpe_so_2023_tp.Queue.Fifo.{elems_of, elems, contains}

woken-woken : (p : ProcessState) → woken (woken p) ≡ woken p
woken-woken p = ground arith

-- Waking one process, after some others.
woken_after :
    (b k : Bool) (y : ProcessState)
    → (if b then woken (if k then woken y else y) else if k then woken y else y)
      ≡ (if (if b then true else k) then woken y else y)
woken_after true true y = woken-woken y
woken_after true false y = refl
woken_after false k y = refl

free_rec-states :
    (c : Core) (ns : List Node) (p : ℕ)
    → p < 32
    → (free_rec c ns).scheduler.processes_states p ≡ (
        if contains (pos p) (elems_of ns)
        then woken (c.scheduler.processes_states p)
        else c.scheduler.processes_states p)
unfolding free_rec
free_rec-states c [] p h = refl
free_rec-states c (n ∷ ns) p h =
    (sch_unblock_lem (free_rec c ns).scheduler n.elem p).0 h
    ∙ rw (free_rec-states c ns p h) (
        woken_after (n.elem ==ℤ pos p) (contains (pos p) (elems_of ns))
          (c.scheduler.processes_states p))

free_rec-current :
    (c : Core) (ns : List Node)
    → ((free_rec c ns).scheduler.current_running_pid ≡ c.scheduler.current_running_pid)
      × ((free_rec c ns).scheduler.quantums ≡ c.scheduler.quantums)
      × ((free_rec c ns).memory.answer ≡ c.memory.answer)
unfolding free_rec
free_rec-current c [] = (refl, refl, refl)
free_rec-current c (n ∷ ns) =
    let ih = free_rec-current c ns in
    let one = sch_unblock_lem (free_rec c ns).scheduler n.elem 0 in
    (one.1 ∙ ih.0, one.2 ∙ ih.1, ih.2)

-- queue_unblock_all wakes every process of the table whose pid waits in the queue, and no other;
-- the running pid and its quantum stay, and the queue is empty.
pub queue_unblock_all_wakes :
    (c : Core) (q : QueueAdt) (p : ℕ)
    → p < 32
    → let (_, c', q') = queue_unblock_all c (some q) in
      (c'.scheduler.processes_states p ≡ (
        if contains (pos p) (elems (some q))
        then woken (c.scheduler.processes_states p)
        else c.scheduler.processes_states p))
      × (c'.scheduler.current_running_pid ≡ c.scheduler.current_running_pid)
      × (c'.scheduler.quantums ≡ c.scheduler.quantums)
      × (elems q' ≡ [])
unfolding queue_unblock_all
queue_unblock_all_wakes c q p h =
    let keep = free_rec-current c q.first in (free_rec-states c q.first p h, keep.0, keep.1, refl)

-- queue_unblock wakes the process that has waited longest, if any, and no other.
pub queue_unblock_wakes :
    (c : Core) (q : QueueAdt) (n : Node) (ns : List Node) (p : ℕ)
    → q.first ≡ n ∷ ns
    → p < 32
    → let (_, c', q') = queue_unblock c (some q) in
      (c'.scheduler.processes_states p ≡ (
        if n.elem ==ℤ pos p
        then woken (c.scheduler.processes_states p)
        else c.scheduler.processes_states p))
      × (elems q' ≡ elems_of ns)
unfolding queue_unblock
queue_unblock_wakes c q n ns p e h =
    (rw (e, queue_unblock) ((sch_unblock_lem c.scheduler n.elem p).0 h), ground arith)

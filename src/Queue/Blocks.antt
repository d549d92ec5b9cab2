-- ===== src/Queue/Blocks.antt =====
-- The heap blocks of the queue of Kernel/libc/queue.c: none is lost and none is freed twice.
use tpe_so_2023_tp.Base.{
  ℕ, ◌+◌, ◌≡◌, ◌≢◌, refl, arith, List, [], ◌∷◌, some, none, ◌==◌, if◌then◌else◌, ℤ,
}
use tpe_so_2023_tp.Memory.{allocs, frees}
use tpe_so_2023_tp.Queue.{
  Core, Node, QueueAdt, Queue, append_node, remove_rec, pop_first, unblock_first, free_rec,
  queue_create, queue_add, queue_pop, queue_remove, queue_unblock, queue_unblock_all, queue_free,
}
use tpe_so_2023_tp.Queue.Fifo.{QueueCall, adds, removes, pops, unblocks, unblocks_all, step}

-- How many of the queue's blocks stand at the address `p`.
abbrev nodes_at : ℕ → List Node → ℕ
nodes_at p [] = 0
nodes_at p (n ∷ ns) = (if n.addr == p then 1 else 0) + nodes_at p ns

abbrev pub blocks_at : ℕ → Queue → ℕ
blocks_at p none = 0
blocks_at p (some q) = (if q.addr == p then 1 else 0) + nodes_at p q.first

-- From `c` to `c'` the blocks handed out and not given back at `p` change as those of the queue.
abbrev pub Balanced : ℕ → Core → Queue → Core → Queue → Type 0
Balanced p c q c' q' =
    allocs p c'.memory.calls + frees p c.memory.calls + blocks_at p q
    ≡ allocs p c.memory.calls + frees p c'.memory.calls + blocks_at p q'

nodes_at-append_node :
    (p : ℕ) (ns : List Node) (n : Node)
    → nodes_at p (append_node ns n) ≡ nodes_at p ns + (if n.addr == p then 1 else 0)
unfolding append_node
nodes_at-append_node p [] n = omega arith
nodes_at-append_node p (m ∷ ns) n = omega (arith, nodes_at-append_node p ns n)

remove_rec-calls :
    (p : ℕ) (c : Core) (ns : List Node) (e : ℤ)
    → (allocs p (remove_rec c ns e).1.memory.calls ≡ allocs p c.memory.calls)
      × (frees p (remove_rec c ns e).1.memory.calls + nodes_at p (remove_rec c ns e).0
          ≡ frees p c.memory.calls + nodes_at p ns)
unfolding remove_rec allocs frees
remove_rec-calls p c [] e = (refl, refl)
remove_rec-calls p c (n ∷ ns) e =
    (ground (arith, remove_rec-calls p c ns e), ground (arith, remove_rec-calls p c ns e))

free_rec-calls :
    (p : ℕ) (c : Core) (ns : List Node)
    → (allocs p (free_rec c ns).memory.calls ≡ allocs p c.memory.calls)
      × (frees p (free_rec c ns).memory.calls ≡ frees p c.memory.calls + nodes_at p ns)
unfolding free_rec allocs frees
free_rec-calls p c [] = (refl, omega arith)
free_rec-calls p c (n ∷ ns) = ((free_rec-calls p c ns).0, omega (arith, (free_rec-calls p c ns).1))

pop_first-Balanced :
    (p : ℕ) (c : Core) (q : QueueAdt) (ns : List Node)
    → nodes_at p q.first ≡ nodes_at p ns
    → Balanced p c (some q) (pop_first c q ns).1 (pop_first c q ns).2
      × Balanced p c (some q) (unblock_first c q ns).1 (unblock_first c q ns).2
unfolding pop_first unblock_first allocs frees
pop_first-Balanced p c q [] e = (refl, refl)
pop_first-Balanced p c q (n ∷ ns) e = (ground arith, ground arith)

-- NULL, which a failed allocation returns, is no block's address.
step-Balanced :
    (p : ℕ) (c : Core) (q : QueueAdt) (op : QueueCall)
    → p ≢ 0
    → Balanced p c (some q) (step c (some q) op).1 (step c (some q) op).2
unfolding step queue_add queue_remove queue_pop queue_unblock queue_unblock_all allocs frees
step-Balanced p c q (adds e) h = ground (
  arith,
  nodes_at-append_node p q.first (record { addr = c.memory.answer c.memory.calls 16; elem = e }),
)
step-Balanced p c q (removes e) h = ground (arith, remove_rec-calls p c q.first e)
step-Balanced p c q pops h = (pop_first-Balanced p c q q.first refl).0
step-Balanced p c q unblocks h = (pop_first-Balanced p c q q.first refl).1
step-Balanced p c q unblocks_all h = ground (arith, free_rec-calls p c q.first)

step_null : (c : Core) (op : QueueCall) → ((step c none op).1 ≡ c) × ((step c none op).2 ≡ none)
unfolding step queue_add queue_remove queue_pop queue_unblock queue_unblock_all
step_null c (adds e) = (refl, refl)
step_null c _ = (refl, refl)

any_step-Balanced :
    (p : ℕ) (c : Core) (q : Queue) (op : QueueCall)
    → p ≢ 0
    → Balanced p c q (step c q op).1 (step c q op).2
any_step-Balanced p c none op h = rw ((step_null c op).0, (step_null c op).1) refl
any_step-Balanced p c (some q) op h = step-Balanced p c q op h

pub run : Core → Queue → List QueueCall → Core × Queue
run c q [] = (c, q)
run c q (op ∷ ops) = let (_, c', q') = step c q op in run c' q' ops

run-Balanced :
    (p : ℕ) (c : Core) (q : Queue) (ops : List QueueCall)
    → p ≢ 0
    → Balanced p c q (run c q ops).0 (run c q ops).1
unfolding run
run-Balanced p c q [] h = refl
run-Balanced p c q (op ∷ ops) h =
    let next = step c q op in
    omega (arith, any_step-Balanced p c q op h, run-Balanced p next.1 next.2 ops h)

pub create-Balanced :
    (p : ℕ) (c : Core) → p ≢ 0 → Balanced p c none (queue_create c).1 (queue_create c).0
unfolding queue_create allocs frees
create-Balanced p c h = ground arith

pub free-Balanced : (p : ℕ) (c : Core) (q : Queue) → p ≢ 0 → Balanced p c q (queue_free c q).1 none
unfolding queue_free queue_unblock_all allocs frees
free-Balanced p c none h = ground arith
free-Balanced p c (some q) h = ground (arith, free_rec-calls p c q.first)

-- A queue's whole life: created, used by any operations, freed.
pub life : Core → List QueueCall → Core
life c ops = let (q, c1) = queue_create c in let (c2, q2) = run c1 q ops in (queue_free c2 q2).1

-- However a queue is used between its creation and its end, whether or not the heap had room for
-- it or for a node, at every address but NULL it gives back exactly the blocks that it was given.
pub life_returns_blocks :
    (p : ℕ) (c : Core) (ops : List QueueCall)
    → p ≢ 0
    → allocs p (life c ops).memory.calls + frees p c.memory.calls
      ≡ allocs p c.memory.calls + frees p (life c ops).memory.calls
unfolding life
life_returns_blocks p c ops h =
    let made = queue_create c in
    let used = run made.1 made.0 ops in
    omega (
      arith,
      create-Balanced p c h,
      run-Balanced p made.1 made.0 ops h,
      free-Balanced p used.0 used.1 h,
    )

-- ===== src/Queue/Fifo.antt =====
-- The queue of Kernel/libc/queue.c as a sequence of pids, oldest first, and what its fields say of it.
use tpe_so_2023_tp.Base.{
  ℕ, suc, ◌+◌, ◌%◌, ◌^◌, ◌<◌, ◌≡◌, ◌≢◌, refl, ap, true, false, arith, List, [], ◌∷◌, ◌++◌, none,
  some, if◌then◌else◌, ℤ, pos, ◌==ℤ◌, minus_one, length, Bool,
}
use tpe_so_2023_tp.Queue.{
  Core, Node, QueueAdt, Queue, append_node, queue_add, queue_pop, queue_remove, queue_unblock,
  queue_unblock_all, remove_rec, pop_first, unblock_first, node_size, without_first,
}

abbrev pub elems_of : List Node → List ℤ
elems_of [] = []
elems_of (n ∷ ns) = n.elem ∷ elems_of ns

-- The pids that wait in the queue, oldest first.
abbrev pub elems : Queue → List ℤ
elems none = []
elems (some q) = elems_of q.first

-- The operations on an existing queue.
pub data QueueCall : Type 0 where
  adds removes : ℤ → QueueCall
  pops unblocks unblocks_all : QueueCall

unfoldable pub step : Core → Queue → QueueCall → ℤ × Core × Queue
step c q (adds e) = queue_add c q e
step c q (removes e) = queue_remove c q e
step c q pops = queue_pop c q
step c q unblocks = queue_unblock c q
step c q unblocks_all = queue_unblock_all c q

-- The sequence that each operation promises, and its result, when the heap has room.
abbrev without : ℤ → List ℤ → List ℤ
without e [] = []
without e (x ∷ xs) = if x ==ℤ e then xs else x ∷ without e xs

abbrev front : List ℤ → ℤ × List ℤ
front [] = (minus_one, [])
front (x ∷ xs) = (x, xs)

pub promised : List ℤ → QueueCall → ℤ × List ℤ
promised xs (adds e) = (pos 0, xs ++ e ∷ [])
promised xs (removes e) = (pos 0, without e xs)
promised xs pops = front xs
promised xs unblocks = (pos 0, (front xs).1)
promised xs unblocks_all = (pos 0, [])

elems-append_node :
    (ns : List Node) (n : Node) → elems_of (append_node ns n) ≡ elems_of ns ++ n.elem ∷ []
unfolding append_node
elems-append_node [] n = refl
elems-append_node (m ∷ ns) n = ap (◌∷◌ m.elem) (elems-append_node ns n)

elems-remove_rec :
    (c : Core) (ns : List Node) (e : ℤ) → elems_of (remove_rec c ns e).0 ≡ without e (elems_of ns)
unfolding remove_rec
elems-remove_rec c [] e = refl
elems-remove_rec c (n ∷ ns) e = ground (arith, elems-remove_rec c ns e)

pop_first-front :
    (c : Core) (q : QueueAdt) (ns : List Node)
    → let (r, _, q') = pop_first c q ns in q.first ≡ ns → (r, elems q') ≡ front (elems_of ns)
unfolding pop_first
pop_first-front c q [] h = ground arith
pop_first-front c q (n ∷ ns) h = refl

unblock_first-front :
    (c : Core) (q : QueueAdt) (ns : List Node)
    → let (r, _, q') = unblock_first c q ns in
      q.first ≡ ns → (r ≡ pos 0) × (elems q' ≡ (front (elems_of ns)).1)
unfolding unblock_first
unblock_first-front c q [] h = ground arith
unblock_first-front c q (n ∷ ns) h = ground arith

-- On a queue that exists, each operation returns and leaves what a sequence promises: queue_add
-- appends, queue_pop takes the oldest and returns it or -1, queue_remove drops the oldest equal
-- pid, queue_unblock drops the oldest, queue_unblock_all drops all. The condition is that the
-- heap's next answer to an allocation of a node is not NULL.
pub step_refines :
    (c : Core) (q : QueueAdt) (op : QueueCall)
    → c.memory.answer c.memory.calls node_size ≢ 0
    → let (r, _, q') = step c (some q) op in (r, elems q') ≡ promised (elems (some q)) op
unfolding step queue_add queue_pop queue_remove queue_unblock queue_unblock_all promised
step_refines c q (adds e) h = ground (
  arith,
  elems-append_node q.first (record { addr = c.memory.answer c.memory.calls 16; elem = e }),
)
step_refines c q (removes e) h = ap (λ l. (pos 0, l)) (elems-remove_rec c q.first e)
step_refines c q pops h = pop_first-front c q q.first refl
step_refines c q unblocks h = ground (arith, unblock_first-front c q q.first refl)
step_refines c q unblocks_all h = refl

-- When the heap has no room for a node queue_add returns -1 and the queue is as it was.
pub queue_add_no_room :
    (c : Core) (q : QueueAdt) (e : ℤ)
    → c.memory.answer c.memory.calls node_size ≡ 0
    → let (r, _, q') = queue_add c (some q) e in (r ≡ minus_one) × (q' ≡ some q)
unfolding queue_add
queue_add_no_room c q e h = ground arith

-- What the fields say beside the chain.
abbrev pub last_addr : List Node → ℕ
last_addr [] = 0
last_addr (n ∷ []) = n.addr
last_addr (n ∷ m ∷ ns) = last_addr (m ∷ ns)

pub record IsTidy (q : QueueAdt) : Type 0 where
  pub counted : q.count ≡ length q.first % 2 ^ 32
  pub ends : q.last ≡ last_addr q.first

abbrev pub IsTidyQueue : Queue → Type 0
IsTidyQueue none = Unit {0}
IsTidyQueue (some q) = IsTidy q

length-append_node : (ns : List Node) (n : Node) → length (append_node ns n) ≡ length ns + 1
unfolding append_node
length-append_node [] n = omega arith
length-append_node (m ∷ ns) n = omega (arith, length-append_node ns n)

last_addr-append_node : (ns : List Node) (n : Node) → last_addr (append_node ns n) ≡ n.addr
unfolding append_node
last_addr-append_node [] n = refl
last_addr-append_node (m ∷ []) n = refl
last_addr-append_node (m ∷ k ∷ ns) n = last_addr-append_node (k ∷ ns) n

without_first-IsTidy :
    (q : QueueAdt) (n : Node) (ns : List Node)
    → q.count ≡ suc (length ns) % 2 ^ 32
    → q.last ≡ last_addr (n ∷ ns)
    → IsTidy (without_first q ns)
without_first-IsTidy q n [] h e = ground arith
without_first-IsTidy q n (m ∷ ns) h e = ground arith

pop_first-IsTidy :
    (c : Core) (q : QueueAdt) (ns : List Node)
    → q.first ≡ ns
    → q.count ≡ length ns % 2 ^ 32
    → q.last ≡ last_addr ns
    → IsTidyQueue (pop_first c q ns).2 × IsTidyQueue (unblock_first c q ns).2
unfolding pop_first unblock_first
pop_first-IsTidy c q [] e h l =
    let t : IsTidy q = record { counted = ground arith; ends = ground arith } in (t, t)
pop_first-IsTidy c q (n ∷ ns) e h l =
    (without_first-IsTidy q n ns h l, without_first-IsTidy q n ns h l)

-- Every operation but queue_remove keeps `count` the number of nodes (as an `int`) and `last` the
-- address of the last one, or NULL.
pub step-IsTidy :
    (c : Core) (q : QueueAdt) (op : QueueCall)
    → ((e : ℤ) → op ≢ removes e)
    → IsTidy q
    → IsTidyQueue (step c (some q) op).2
unfolding step queue_add queue_pop queue_unblock queue_unblock_all
step-IsTidy c q (adds e) h t = add_tidy
  where
    node : Node
    node = record { addr = c.memory.answer c.memory.calls 16; elem = e }

    add_tidy : IsTidyQueue (queue_add c (some q) e).2
    add_tidy = ground (arith, length-append_node q.first node, last_addr-append_node q.first node)
step-IsTidy c q (removes e) h t = absurd (h e refl)
step-IsTidy c q pops h t = (pop_first-IsTidy c q q.first refl t.counted t.ends).0
step-IsTidy c q unblocks h t = (pop_first-IsTidy c q q.first refl t.counted t.ends).1
step-IsTidy c q unblocks_all h t = ground arith

abbrev pub contains : ℤ → List ℤ → Bool
contains e [] = false
contains e (x ∷ xs) = if x ==ℤ e then true else contains e xs

length-remove_rec :
    (c : Core) (ns : List Node) (e : ℤ)
    → contains e (elems_of ns) ≡ true
    → length (remove_rec c ns e).0 + 1 ≡ length ns
unfolding remove_rec
length-remove_rec c [] e h = absurd (ground arith)
length-remove_rec c (n ∷ ns) e h = ground (arith, length-remove_rec c ns e)

-- queue_remove of a pid that waits leaves `count` one above the number of nodes, so that the
-- queue is no longer tidy, whenever it was and the number of nodes fits an `int`'s pattern.
pub queue_remove_untidy :
    (c : Core) (q : QueueAdt) (e : ℤ)
    → IsTidy q
    → length q.first < 2 ^ 32
    → contains e (elems_of q.first) ≡ true
    → ¬ IsTidyQueue (queue_remove c (some q) e).2
unfolding queue_remove
queue_remove_untidy c q e t lt h =
    λ t'. absurd (omega (arith, length-remove_rec c q.first e h, t.counted, t'.counted))

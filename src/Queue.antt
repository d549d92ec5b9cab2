-- ===== src/Queue.antt =====
-- Kernel/libc/queue.c: a queue of pids on the kernel's heap. The chain of nodes from `first` is a
-- list of nodes, each with its address; `last` is the address that the code keeps of the last one.
pub mod Fifo
pub mod Waking
pub mod Blocks
mod Tests
use tpe_so_2023_tp.Base.{
  ℕ, ◌+◌, ◌-◌, ◌%◌, ◌^◌, List, [], ◌∷◌, Option, none, some, ◌==◌, if◌then◌else◌, ℤ, pos, ◌==ℤ◌,
  minus_one,
}
use tpe_so_2023_tp.Memory.{Memory, mm_alloc, mm_free}
use tpe_so_2023_tp.Scheduler.{Scheduler, sch_unblock}

-- What the queue's functions change besides the queue: the heap and the scheduler.
pub record Core : Type 0 where
  pub memory : Memory
  pub scheduler : Scheduler

-- `struct node`
pub record Node : Type 0 where
  pub addr : ℕ
  pub elem : ℤ

-- `struct queue_adt`, at its own address; `count` is the bit pattern of an `int`.
pub record QueueAdt : Type 0 where
  pub addr : ℕ
  pub first : List Node
  pub last : ℕ
  pub count : ℕ

-- `Queue` is a pointer, which may be NULL.
abbrev pub Queue : Type 0
Queue = Option QueueAdt

-- sizeof(struct queue_adt) and sizeof(struct node)
abbrev queue_size : ℕ
queue_size = 24

abbrev node_size : ℕ
node_size = 16

-- count++ and count--
abbrev incr : ℕ → ℕ
incr n = (n + 1) % 2 ^ 32

abbrev decr : ℕ → ℕ
decr n = (n + 2 ^ 32 - 1) % 2 ^ 32

abbrev pub core_alloc : Core → ℕ → ℕ × Core
core_alloc c size = let (ptr, m) = mm_alloc c.memory size in (ptr, record c { memory = m })

abbrev pub core_free : Core → ℕ → Core
core_free c ptr = record c { memory = mm_free c.memory ptr }

abbrev pub core_unblock : Core → ℤ → Core
core_unblock c pid = record c { scheduler = (sch_unblock c.scheduler pid).1 }

unfoldable pub queue_create : Core → Queue × Core
queue_create c =
    let (ptr, c1) = core_alloc c queue_size in
    if ptr == 0
    then (none, core_free c1 ptr)
    else (some (record { addr = ptr; first = []; last = 0; count = 0 }), c1)

-- The walk to the end of the chain, which hangs the new node there.
append_node : List Node → Node → List Node
append_node [] node = node ∷ []
append_node (n ∷ ns) node = n ∷ append_node ns node

unfoldable pub queue_add : Core → Queue → ℤ → ℤ × Core × Queue
unfolding append_node
queue_add c none elem = (minus_one, c, none)
queue_add c (some q) elem =
    let (ptr, c1) = core_alloc c node_size in
    if ptr == 0 then (minus_one, c1, some q) else (
      pos 0,
      c1,
      some (record q {
        first = append_node q.first (record { addr = ptr; elem = elem });
        last = ptr;
        count = incr q.count;
      }),
    )

-- queue_pop and queue_unblock share the statements that take the first node off.
abbrev without_first : QueueAdt → List Node → QueueAdt
without_first q rest = record q {
  first = rest;
  last = elim rest [ [] ↦ 0 | _ ∷ _ ↦ q.last ];
  count = decr q.count;
}

pop_first : Core → QueueAdt → List Node → ℤ × Core × Queue
pop_first c q [] = (minus_one, c, some q)
pop_first c q (n ∷ ns) = (n.elem, core_free c n.addr, some (without_first q ns))

unfoldable pub queue_pop : Core → Queue → ℤ × Core × Queue
unfolding pop_first
queue_pop c none = (minus_one, c, none)
queue_pop c (some q) = pop_first c q q.first

-- The chain without its first node that holds `elem`, which is freed.
remove_rec : Core → List Node → ℤ → List Node × Core
remove_rec c [] elem = ([], c)
remove_rec c (n ∷ ns) elem =
    let (rest, c1) = remove_rec c ns elem in
    if n.elem ==ℤ elem then (ns, core_free c n.addr) else (n ∷ rest, c1)

-- `last` and `count` stay as they were.
unfoldable pub queue_remove : Core → Queue → ℤ → ℤ × Core × Queue
unfolding remove_rec
queue_remove c none elem = (minus_one, c, none)
queue_remove c (some q) elem =
    let (rest, c1) = remove_rec c q.first elem in (pos 0, c1, some (record q { first = rest }))

unblock_first : Core → QueueAdt → List Node → ℤ × Core × Queue
unblock_first c q [] = (pos 0, c, some q)
unblock_first c q (n ∷ ns) =
    (pos 0, core_free (core_unblock c n.elem) n.addr, some (without_first q ns))

unfoldable pub queue_unblock : Core → Queue → ℤ × Core × Queue
unfolding unblock_first
queue_unblock c none = (minus_one, c, none)
queue_unblock c (some q) = unblock_first c q q.first

-- The chain is freed from its end.
unfoldable pub free_rec : Core → List Node → Core
free_rec c [] = c
free_rec c (n ∷ ns) = let c1 = free_rec c ns in core_free (core_unblock c1 n.elem) n.addr

unfoldable pub queue_unblock_all : Core → Queue → ℤ × Core × Queue
queue_unblock_all c none = (minus_one, c, none)
queue_unblock_all c (some q) =
    (pos 0, free_rec c q.first, some (record q { first = []; last = 0; count = 0 }))

-- The address of a pointer.
abbrev pub address : Queue → ℕ
address none = 0
address (some q) = q.addr

unfoldable pub queue_free : Core → Queue → ℤ × Core
queue_free c q = let (ret, c1, _) = queue_unblock_all c q in (ret, core_free c1 (address q))

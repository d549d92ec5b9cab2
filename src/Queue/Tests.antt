-- ===== src/Queue/Tests.antt =====
-- Runs of the queue, and its theorems at such inputs.
use tpe_so_2023_tp.Base.{
  ◌+◌, ◌*◌, ◌≡◌, refl, arith, List, [], ◌∷◌, some, pos, negsuc, length, minus_one,
}
use tpe_so_2023_tp.Scheduler.{Scheduler, ProcessState, blocked}
use tpe_so_2023_tp.Memory.{Memory, allocs, frees}
use tpe_so_2023_tp.Queue.{Core, Node, QueueAdt, queue_add, queue_pop, queue_unblock}
use tpe_so_2023_tp.Queue.Fifo.{
  QueueCall, adds, removes, pops, unblocks, step, elems, promised, step_refines, queue_add_no_room,
  IsTidy, IsTidyQueue, step-IsTidy,
}
use tpe_so_2023_tp.Queue.Waking.{queue_unblock_wakes}
use tpe_so_2023_tp.Queue.Blocks.{life, life_returns_blocks}

-- An allocator that hands out a new address each time, and one that has no room.
abbrev roomy : Memory
roomy = record { answer = λ cs _. 4096 + 32 * length cs; calls = [] }

abbrev full : Memory
full = record { answer = λ _ _. 0; calls = [] }

abbrev sleeper : ProcessState
sleeper = record { priority = pos 0; exit_status = 0; status = blocked; rsp = 800 }

abbrev asleep : Scheduler
asleep = record {
  kernel_rsp = 0;
  processes_states = λ _. sleeper;
  current_running_pid = pos 1;
  force_next_pid = negsuc 1;
  quantums = 3;
}

abbrev core : Core
core = record { memory = roomy; scheduler = asleep }

abbrev node_of_4 : Node
node_of_4 = record { addr = 64; elem = pos 4 }

abbrev node_of_9 : Node
node_of_9 = record { addr = 96; elem = pos 9 }

abbrev pair : QueueAdt
pair = record { addr = 32; first = node_of_4 ∷ node_of_9 ∷ []; last = 96; count = 2 }

add_then_pop : (queue_pop core (queue_add core (some pair) (pos 7)).2).0 ≡ pos 4
unfolding queue_pop queue_add
add_then_pop = refl

step_refines_example :
    let (r, _, q') = step core (some pair) (removes (pos 9)) in
    (r, elems q') ≡ promised (pos 4 ∷ pos 9 ∷ []) (removes (pos 9))
step_refines_example = step_refines core pair (removes (pos 9)) (omega arith)

queue_add_no_room_example :
    let (r, _, q') = queue_add (record core { memory = full }) (some pair) (pos 3) in
    (r ≡ minus_one) × (q' ≡ some pair)
queue_add_no_room_example = queue_add_no_room (record core { memory = full }) pair (pos 3) refl

pair-IsTidy : IsTidy pair
pair-IsTidy = record { counted = omega arith; ends = refl }

step-IsTidy_example : IsTidyQueue (step core (some pair) (adds (pos 7))).2
step-IsTidy_example = step-IsTidy core pair (adds (pos 7)) (λ e h. cc) pair-IsTidy

queue_unblock_wakes_example :
    let (_, c', q') = queue_unblock core (some pair) in
    (c'.scheduler.processes_states 9 ≡ sleeper) × (elems q' ≡ pos 9 ∷ [])
queue_unblock_wakes_example =
    queue_unblock_wakes core pair node_of_4 (node_of_9 ∷ []) 9 refl (omega arith)

abbrev ops : List QueueCall
ops = adds (pos 3) ∷ adds (pos 4) ∷ pops ∷ adds (pos 5) ∷ removes (pos 5) ∷ unblocks ∷ []

life_returns_blocks_example :
    allocs 4096 (life core ops).memory.calls + frees 4096 []
    ≡ allocs 4096 [] + frees 4096 (life core ops).memory.calls
life_returns_blocks_example = life_returns_blocks 4096 core ops (omega arith)

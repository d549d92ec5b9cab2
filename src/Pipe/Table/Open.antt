-- ===== src/Pipe/Table/Open.antt =====
-- Making and opening pipes in Kernel/ipc/pipe.c.
use tpe_so_2023_tp.Base.{
  ℕ, ◌+◌, ◌<◌, ◌≡◌, ◌≢◌, ◌⊎◌, ◌∙◌, ◌==◌, inl, inr, refl, ap, subst, arith, [], true, false, Option,
  none, some, ℤ, pos, pos_part, minus_one, Outcome, returned, fault, found, missing,
  FirstIndex-none, first_index-FirstIndex,
}
use tpe_so_2023_tp.Memory.{allocs, frees}
use tpe_so_2023_tp.Text.{strcmp}
use tpe_so_2023_tp.Text.Compare.{strcmp_iff}
use tpe_so_2023_tp.Queue.{Core, Queue, QueueAdt, core_alloc, core_free, queue_create}
use tpe_so_2023_tp.Queue.Blocks.{Balanced, create-Balanced, free-Balanced}
use tpe_so_2023_tp.Kernel.{Kernel}
use tpe_so_2023_tp.Pipe.Buffer.{Pipe}
use tpe_so_2023_tp.Pipe.Buffer.Ring.{IsRing, contents}
use tpe_so_2023_tp.Pipe.Table.{
  pipe_create, pipe_open, find_free_pipe, find_named_pipe, has_name, no_pipe, is_name_valid,
  new_pipe, string_at, assemble, free_queue, pipe_size, name_pipe,
}

-- The blocks that are handed out and not given back at an address are as many as before.
abbrev pub SameBlocks : Kernel → Kernel → Type 0
SameBlocks k k' =
    (p : ℕ)
    → p ≢ 0
    → allocs p k'.core.memory.calls + frees p k.core.memory.calls
      ≡ allocs p k.core.memory.calls + frees p k'.core.memory.calls

-- What pipe_create comes to: an empty pipe in the first free entry, or -1.
abbrev pub Creates : Kernel → ℤ × Kernel → Type 0
Creates k (r, k') =
    ((r ≡ minus_one) × (k'.pipe_table ≡ k.pipe_table) × SameBlocks k k')
    ⊎ ((i : ℕ) × (p : Pipe) × (r ≡ pos i)
        × (i < 32)
        × (k.pipe_table i ≡ none)
        × ((j : ℕ) → j < i → k.pipe_table j ≢ none)
        × (k'.pipe_table i ≡ some p)
        × IsRing p
        × (contents p ≡ [])
        × (p.readers + p.writers ≡ 0)
        × ((j : ℕ) → j ≢ i → k'.pipe_table j ≡ k.pipe_table j))

new_pipe-IsRing : (at : ℕ) (rd_q wr_q : QueueAdt) → IsRing (new_pipe at rd_q wr_q)
new_pipe-IsRing at rd_q wr_q = record {
  block = refl;
  small = omega arith;
  fits = omega arith;
  start = omega arith;
  inside = λ h. absurd (h refl);
}

free_queue-Balanced : (p : ℕ) (c : Core) (q : Queue) → p ≢ 0 → Balanced p c q (free_queue c q) none
free_queue-Balanced p c none h = refl
free_queue-Balanced p c (some q) h = free-Balanced p c (some q) h

-- The three blocks are given back when one of them was not got.
all_freed :
    (p : ℕ) (c : Core)
    → p ≢ 0
    → let (at, c1) = core_alloc c pipe_size in
      let (rd_q, c2) = queue_create c1 in
      let (wr_q, c3) = queue_create c2 in
      let c4 = free_queue (free_queue (core_free c3 at) rd_q) wr_q in
      allocs p c4.memory.calls + frees p c.memory.calls
      ≡ allocs p c.memory.calls + frees p c4.memory.calls
unfolding allocs frees
all_freed p c h =
    let (at, c1) = core_alloc c pipe_size in
    let (rd_q, c2) = queue_create c1 in
    let (wr_q, c3) = queue_create c2 in
    let c4 = free_queue (core_free c3 at) rd_q in
    omega (
      arith,
      create-Balanced p c1 h,
      create-Balanced p c2 h,
      free_queue-Balanced p (core_free c3 at) rd_q h,
      free_queue-Balanced p c4 wr_q h,
    )

assemble-new_pipe :
    (at : ℕ) (rd_q wr_q : Queue) (p : Pipe)
    → assemble at rd_q wr_q ≡ some p
    → IsRing p × (contents p ≡ []) × (p.readers + p.writers ≡ 0)
assemble-new_pipe at none wr_q p e = absurd (ground (arith, e))
assemble-new_pipe at (some rd_q) none p e = absurd (ground (arith, e))
assemble-new_pipe at (some rd_q) (some wr_q) p e =
    let same : new_pipe at rd_q wr_q ≡ p = ground (arith, e) in
    subst (λ x. IsRing x × (contents x ≡ []) × (x.readers + x.writers ≡ 0)) same
      (new_pipe-IsRing at rd_q wr_q, refl, refl)

create_at :
    (k : Kernel) (i : ℕ) (made : Option Pipe)
    → i < 32
    → k.pipe_table i ≡ none
    → ((j : ℕ) → j < i → k.pipe_table j ≢ none)
    → find_free_pipe k ≡ pos i
    → let (at, c1) = core_alloc k.core pipe_size in
      let (rd_q, c2) = queue_create c1 in
      let (wr_q, c3) = queue_create c2 in assemble at rd_q wr_q ≡ made → Creates k (pipe_create k)
unfolding pipe_create
create_at k i none lt free before at e = rw (at, e) (inl (refl, refl, λ p h. all_freed p k.core h))
create_at k i (some p) lt free before at e =
    let (at_block, c1) = core_alloc k.core pipe_size in
    let (rd_q, c2) = queue_create c1 in
    let (ring, empty, unused) = assemble-new_pipe at_block rd_q (queue_create c2).0 p e in
    rw (at, e)
      (inr (
        i,
        p,
        ground (arith, at),
        lt,
        free,
        before,
        ground (arith, at),
        ring,
        empty,
        unused,
        λ j h. ground (arith, at),
      ))

pipe_create-full :
    (k : Kernel)
    → find_free_pipe k ≡ minus_one
    → let (r, k') = pipe_create k in
      (r ≡ minus_one) × (k'.pipe_table ≡ k.pipe_table) × SameBlocks k k'
unfolding pipe_create
pipe_create-full k e = (ground (arith, e), ground (arith, e), λ p h. ground (arith, e))

-- pipe_create puts an empty, well-formed pipe without readers, writers or a name into the first free
-- entry of the table and changes no other; or, when no entry is free or the heap has no room for the
-- pipe and its two queues, returns -1, leaves the table as it was and gives back every block that it got.
pub pipe_create_lem : (k : Kernel) → Creates k (pipe_create k)
unfolding find_free_pipe
pipe_create_lem k = elim (first_index-FirstIndex 32 0 32 (no_pipe k) refl) [
  | found i lo lt e free before ↦
      create_at k i _ lt (ground (arith, free)) (λ j h t. ground (arith, before j (omega arith) h))
        e refl
  | missing e full ↦ inl (pipe_create-full k e)
]

-- What pipe_open of a name that no pipe has comes to, from what pipe_create does.
abbrev pub Opens : Kernel → ℕ → ℤ × Kernel → Outcome (ℤ × Kernel) → Type 0
Opens k name (r, k1) fault = r ≡ minus_one
Opens k name (r, k1) (returned (r', k')) =
    (r' ≡ r)
    × (r ≢ minus_one)
    × ((p : Pipe) × (k'.pipe_table (pos_part r) ≡ some p) × (p.name ≡ name))
    × (has_name k' (k.strings name) (pos_part r) ≡ true)
    × ((j : ℕ) → j ≢ pos_part r → k'.pipe_table j ≡ k1.pipe_table j)

named :
    (k : Kernel) (name : ℕ) (r : ℤ) (k1 : Kernel)
    → name ≢ 0
    → k1.strings ≡ k.strings
    → Creates k (r, k1)
    → Opens k name (r, k1) (name_pipe name (r, k1))
named k name r k1 some_name strings (inl (failed, _, _)) = rw failed refl
named k name r k1 some_name strings (inr (i, p, e, lt, free, before, there, _, _, _, _)) =
    let text = k.strings name in
    let same : strcmp text text ≡ pos 0 = (strcmp_iff text text).0.1 refl in
    let same' : strcmp (k1.strings name) text ≡ pos 0 =
      ap (λ s. strcmp (s name) text) strings ∙ same in
    rw (e, there)
      (
        e,
        ground arith,
        (record p { name = name }, ground (arith, e), refl),
        ground (arith, same', some_name, e),
        λ j h. ground (arith, e),
      )

pipe_create-strings : (k : Kernel) → (pipe_create k).1.strings ≡ k.strings
unfolding pipe_create
pipe_create-strings k = ground arith

-- Opening a valid name that no pipe has makes a pipe with pipe_create and names it by the caller's pointer: it
-- returns that pipe's id, which the name now finds, and the table's other entries are as pipe_create left them. But when
-- pipe_create fails, with the table full or no room on the heap, pipe_open does not return -1: it
-- writes the name through the entry -1 of the table.
pub pipe_open-Opens :
    (k : Kernel) (name : ℕ)
    → name ≢ 0
    → ((j : ℕ) → j < 32 → has_name k (k.strings name) j ≡ false)
    → is_name_valid (some (k.strings name)) ≡ true
    → Opens k name (pipe_create k) (pipe_open k name)
unfolding pipe_open find_named_pipe
pipe_open-Opens k name some_name new valid =
    let absent =
      FirstIndex-none (first_index-FirstIndex 32 0 32 (has_name k (k.strings name)) refl)
        (λ j _ h. new j h) in
    let not_null : (name == 0) ≡ false = ground arith in
    rw (pipe_open, string_at, not_null, find_named_pipe, absent, valid)
      (named k name (pipe_create k).0 (pipe_create k).1 some_name (pipe_create-strings k)
        (pipe_create_lem k))

-- ===== src/Pipe/Table.antt =====
-- The tables of Kernel/ipc/pipe.c: pipes by id, named or not, the descriptors that refer to them, and
-- the callbacks that processes call through them.
pub mod Open
pub mod Descriptors
pub mod Gone
mod Tests
use tpe_so_2023_tp.Base.{
  ℕ, zero, suc, ◌+◌, ◌-◌, ◌%◌, ◌^◌, List, [], ◌∷◌, ◌++◌, drop, length, Bool, true, false, ◌&&◌,
  ◌||◌, not, Option, none, some, ltb, leb, ◌==◌, if◌then◌else◌, ℤ, pos, negsuc, pos_part, ltb_ℤ,
  leb_ℤ, ◌==ℤ◌, minus_one, update, Outcome, returned, fault, ◌>>=◌, first_index, get_or,
}
use tpe_so_2023_tp.Scheduler.{sch_block, sch_yield}
use tpe_so_2023_tp.Text.{strcmp, strlen, isalpha, isalnum, strncmp}
use tpe_so_2023_tp.Queue.{
  Core, Queue, QueueAdt, address, core_alloc, core_free, queue_create, queue_add, queue_free,
  queue_unblock_all,
}
use tpe_so_2023_tp.Kernel.{Kernel, FileDescriptor, Driver, pipes, PipeFd}
use tpe_so_2023_tp.Process.Descriptors.{proc_map_fd}
use tpe_so_2023_tp.Pipe.Buffer.{Pipe, read_pipe_buffer, write_pipe_buffer, size_max}

abbrev pub max_pipes : ℕ
max_pipes = 32

-- MAX_PIPES * 16
abbrev pub pipe_max_fd : ℕ
pipe_max_fd = 512

abbrev pub max_name_lenght : ℕ
max_name_lenght = 16

-- sizeof(Pipe) and sizeof(PipeFd)
abbrev pipe_size : ℕ
pipe_size = 64

abbrev pub pipe_fd_size : ℕ
pipe_fd_size = 20

abbrev put_core : Kernel → Core → Kernel
put_core k c = record k { core = c }

abbrev pub put_pipe : Kernel → ℤ → Option Pipe → Kernel
put_pipe k id p = record k { pipe_table = update k.pipe_table (pos_part id) p }

-- NULL for an id out of the table.
abbrev pub get_pipe : Kernel → ℤ → Option Pipe
get_pipe k id =
    if leb_ℤ (pos 0) id && ltb_ℤ id (pos max_pipes) then k.pipe_table (pos_part id) else none

-- The string that an argument points to; `none` for NULL.
abbrev pub string_at : Kernel → ℕ → Option (List ℕ)
string_at k ptr = if ptr == 0 then none else some (k.strings ptr)

-- The tests of the loops over the tables.
abbrev pub has_name : Kernel → List ℕ → ℕ → Bool
has_name k name i = elim (k.pipe_table i) [
  | none ↦ false
  | some p ↦ not (p.name == 0) && strcmp (k.strings p.name) name ==ℤ pos 0
]

abbrev pub no_pipe : Kernel → ℕ → Bool
no_pipe k i = elim (k.pipe_table i) [ none ↦ true | some _ ↦ false ]

abbrev pub no_pipe_fd : Kernel → ℕ → Bool
no_pipe_fd k i = elim (k.pipe_fd_table i) [ none ↦ true | some _ ↦ false ]

abbrev pub is_pipe_fd : Kernel → ℤ → ℤ → ℕ → Bool
is_pipe_fd k pid fd i = elim (k.pipe_fd_table i) [
  | none ↦ false
  | some d ↦ (d.pid ==ℤ pid) && (d.fd ==ℤ fd)
]

pub find_named_pipe : Kernel → Option (List ℕ) → ℤ
find_named_pipe k none = minus_one
find_named_pipe k (some name) = first_index max_pipes 0 (has_name k name)

pub find_free_pipe : Kernel → ℤ
find_free_pipe k = first_index max_pipes 0 (no_pipe k)

unfoldable pub find_free_pipe_fd : Kernel → ℤ
find_free_pipe_fd k = first_index pipe_max_fd 0 (no_pipe_fd k)

unfoldable pub get_pipe_fd : Kernel → ℤ → ℤ → Option PipeFd
get_pipe_fd k pid fd =
    let i = first_index pipe_max_fd 0 (is_pipe_fd k pid fd) in
    if i ==ℤ minus_one then none else k.pipe_fd_table (pos_part i)

-- for (i = 1; i < strlen(name); i++), on the characters from `i` on.
all_alnum : List ℕ → Bool
all_alnum [] = true
all_alnum (c ∷ s) =
    let rest = all_alnum s in if c == 0 then true else if not (isalnum c) then false else rest

pub is_name_valid : Option (List ℕ) → Bool
unfolding all_alnum
is_name_valid none = false
is_name_valid (some name) =
    if ltb max_name_lenght (strlen name) || not (isalpha (get_or name 0 0))
    then false
    else all_alnum (drop 1 name)

-- memset(new_pipe, 0, sizeof(Pipe)), then its two queues.
abbrev pub new_pipe : ℕ → QueueAdt → QueueAdt → Pipe
new_pipe at rd_q wr_q = record {
  addr = at;
  buffer_at = 0;
  buffer = [];
  size = 0;
  read_idx = 0;
  bytes_to_read = 0;
  readers = 0;
  writers = 0;
  rd_q = some rd_q;
  wr_q = some wr_q;
  name = 0;
}

-- queue_free of a queue that is not NULL.
abbrev free_queue : Core → Queue → Core
free_queue c none = c
free_queue c (some q) = (queue_free c (some q)).1

-- The pipe that its three blocks make, or none when one is NULL.
abbrev assemble : ℕ → Queue → Queue → Option Pipe
assemble at (some rd_q) (some wr_q) = if at == 0 then none else some (new_pipe at rd_q wr_q)
assemble at (some rd_q) none = none
assemble at none wr_q = none

pub pipe_create : Kernel → ℤ × Kernel
pipe_create k =
    let id = find_free_pipe k in
    if id ==ℤ minus_one
    then (minus_one, k)
    else (let (at, c1) = core_alloc k.core pipe_size in
        let (rd_q, c2) = queue_create c1 in
        let (wr_q, c3) = queue_create c2 in
        elim (assemble at rd_q wr_q) [
          | none ↦ (minus_one, put_core k (free_queue (free_queue (core_free c3 at) rd_q) wr_q))
          | some p ↦ (id, put_pipe (put_core k c3) id (some p))
        ])

-- Whether empty_fd_table clears an entry: -1 stands for any pid or descriptor.
abbrev pub is_emptied : ℤ → ℤ → ℤ → PipeFd → Bool
is_emptied pipe_id pid fd d =
    (d.pipe_id ==ℤ pipe_id)
    && (pid ==ℤ minus_one || d.pid ==ℤ pid)
    && (fd ==ℤ minus_one || d.fd ==ℤ fd)

empty_one : Kernel → ℤ → ℤ → ℤ → ℕ → Kernel
empty_one k pipe_id pid fd i = elim (k.pipe_fd_table i) [
  | none ↦ k
  | some d ↦
      if is_emptied pipe_id pid fd d
      then record k {
        core = core_free k.core d.addr;
        pipe_fd_table = update k.pipe_fd_table i none;
      }
      else k
]

-- The loop over the entries below `n`, the lowest first.
empty_below : ℕ → Kernel → ℤ → ℤ → ℤ → Kernel
empty_below zero k pipe_id pid fd = k
empty_below (suc n) k pipe_id pid fd = empty_one (empty_below n k pipe_id pid fd) pipe_id pid fd n

pub empty_fd_table : Kernel → ℤ → ℤ → ℤ → Kernel
empty_fd_table k pipe_id pid fd = empty_below pipe_max_fd k pipe_id pid fd

-- What pipe_free does to the pipe that it found.
abbrev freed_pipe : Kernel → ℤ → Pipe → Kernel
freed_pipe k id p =
    let k1 = put_pipe (empty_fd_table k id minus_one minus_one) id none in
    let c2 = core_free k1.core p.buffer_at in
    let (_, c3) = queue_free c2 p.wr_q in
    let (_, c4) = queue_free c3 p.rd_q in put_core k1 (core_free c4 p.addr)

pub pipe_free : Kernel → ℤ → ℤ × Kernel
pipe_free k id = elim (get_pipe k id) [
  | none ↦ (minus_one, k)
  | some p ↦ (pos 0, freed_pipe k id p)
]

-- `pipe_table[pipe_id]->name = name` is run before pipe_id is compared with -1. It keeps the caller's pointer.
abbrev name_pipe : ℕ → ℤ × Kernel → Outcome (ℤ × Kernel)
name_pipe name (id, k) = if id ==ℤ minus_one then fault else elim (k.pipe_table (pos_part id)) [
  | none ↦ fault
  | some p ↦ returned (id, put_pipe k id (some (record p { name = name })))
]

pub pipe_open : Kernel → ℕ → Outcome (ℤ × Kernel)
pipe_open k name =
    let text = string_at k name in
    let id = find_named_pipe k text in
    if not (id ==ℤ minus_one)
    then returned (id, k)
    else if not (is_name_valid text)
    then returned (minus_one, k)
    else name_pipe name (pipe_create k)

-- The queue of writers, or of readers, is woken if no one is left at the other end.
abbrev wake_writers : Kernel → ℤ → Pipe → Kernel
wake_writers k id p =
    let (_, c, q) = queue_unblock_all k.core p.wr_q in
    put_pipe (put_core k c) id (some (record p { wr_q = q }))

abbrev wake_readers : Kernel → ℤ → Pipe → Kernel
wake_readers k id p =
    let (_, c, q) = queue_unblock_all k.core p.rd_q in
    put_pipe (put_core k c) id (some (record p { rd_q = q }))

pub pipe_unlink : Kernel → Option (List ℕ) → ℤ × Kernel
pipe_unlink k name =
    let id = find_named_pipe k name in
    if id ==ℤ minus_one then (minus_one, k) else elim (get_pipe k id) [
      | none ↦ (minus_one, k)
      | some p ↦
          let p1 = record p { name = 0 } in
          let k1 = put_pipe k id (some p1) in
          if p.readers == 0 && p.writers == 0
          then pipe_free k1 id
          else if p.readers == 0
          then (pos 0, (pipe_free (wake_writers k1 id p1) id).1)
          else if p.writers == 0
          then (pos 0, (pipe_free (wake_readers k1 id p1) id).1)
          else (pos 0, (pipe_free k1 id).1)
    ]

-- The ids, readers, writers and bytes to read that pipe_status reports.
status_from : ℕ → ℕ → ℕ → Kernel → List (ℕ × ℕ × ℕ × ℕ)
status_from zero i room k = []
status_from (suc n) i zero k = []
status_from (suc n) i (suc room) k =
    let kept = status_from n (i + 1) room k in
    let passed = status_from n (i + 1) (suc room) k in
    elim (k.pipe_table i) [
      | none ↦ passed
      | some p ↦ (i, p.readers, p.writers, p.bytes_to_read) ∷ kept
    ]

pub pipe_status : Kernel → ℕ → List (ℕ × ℕ × ℕ × ℕ)
pipe_status k max_size = status_from max_pipes 0 max_size k

-- The pipe of an id after a writing or a reading of its ring.
abbrev stored : Kernel → ℤ → Core → Pipe → Kernel
stored k id c p = put_pipe (put_core k c) id (some p)

pub pipe_write : Kernel → ℤ → List ℕ → Outcome (ℕ × Kernel)
pipe_write k id buf = elim (get_pipe k id) [
  | none ↦ returned (size_max, k)
  | some p ↦ do (r, c, p') ← write_pipe_buffer k.core p buf; returned (r, stored k id c p')
]

-- The number of bytes read, and the bytes.
pub pipe_read : Kernel → ℤ → ℕ → Outcome (ℕ × List ℕ × Kernel)
pipe_read k id count = elim (get_pipe k id) [
  | none ↦ returned (size_max, [], k)
  | some p ↦ do
    (r, bytes, c, p') ← read_pipe_buffer k.core p count
    returned (r, bytes, stored k id c p')
]

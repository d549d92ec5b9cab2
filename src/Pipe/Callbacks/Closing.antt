-- ===== src/Pipe/Callbacks/Closing.antt =====
-- close_callback and dup_callback of Kernel/ipc/pipe.c.
pub mod Orphan
use tpe_so_2023_tp.Base.{
  ℕ, ◌+◌, ◌-◌, ◌%◌, ◌^◌, List, [], ◌∷◌, Bool, true, false, ◌&&◌, not, Option, none, some, ◌==◌,
  if◌then◌else◌, ℤ, pos, ◌==ℤ◌, minus_one, get_or, pos_part, update,
}
use tpe_so_2023_tp.Queue.{Core, core_alloc, queue_unblock_all}
use tpe_so_2023_tp.Kernel.{Kernel, PipeFd}
use tpe_so_2023_tp.Pipe.Buffer.{Pipe}
use tpe_so_2023_tp.Pipe.Table.{
  get_pipe, put_pipe, get_pipe_fd, find_free_pipe_fd, empty_fd_table, pipe_free, pipe_fd_size,
}
use tpe_so_2023_tp.Pipe.Callbacks.{
  Progress, done, sleeps, crashes, unfinished, counted, write_callback,
}

abbrev pub esc : ℕ
esc = 0x1b

abbrev decr : ℕ → ℕ
decr n = (n + 2 ^ 32 - 1) % 2 ^ 32

-- The pipe of the table, which is there while its descriptors are closed.
abbrev on_pipe : Kernel → ℤ → (Pipe → Progress ℤ) → Progress ℤ
on_pipe k id body = elim (get_pipe k id) [ none ↦ crashes | some p ↦ body p ]

abbrev woken_writers : Kernel → ℤ → Pipe → Kernel
woken_writers k id p =
    let (_, c, q) = queue_unblock_all k.core p.wr_q in
    put_pipe (record k { core = c }) id (some (record p { wr_q = q }))

abbrev woken_readers : Kernel → ℤ → Pipe → Kernel
woken_readers k id p =
    let (_, c, q) = queue_unblock_all k.core p.rd_q in
    put_pipe (record k { core = c }) id (some (record p { rd_q = q }))

-- The reader's part.
close_reader : Kernel → ℤ → ℤ → ℤ → Pipe → Kernel
close_reader k pid fd id p =
    let p1 = record p { readers = decr p.readers } in
    let k1 = empty_fd_table (put_pipe k id (some p1)) id pid fd in
    if p1.readers == 0 then woken_writers k1 id p1 else k1

-- The end: a pipe that nobody uses is freed, if its last byte that was read is an escape. `outside` is
-- the byte that lies before the block, which is read when no byte was.
close_last : ℕ → Kernel → ℤ → Progress ℤ
close_last outside k id = on_pipe k id λ p.
    let c = if p.read_idx == 0 then outside else get_or p.buffer (p.read_idx - 1) 0 in
    if p.readers == 0 && p.writers == 0 && not (p.buffer_at == 0) && c == esc
    then done (pos 0) (pipe_free k id).1
    else done (pos 0) k

-- After the escape is written the readers are woken.
abbrev after_escape : ℕ → ℤ → Progress ℕ → Progress ℤ
after_escape outside id r = elim r [
  | done _ k ↦ on_pipe k id λ p. close_last outside (woken_readers k id p) id
  | sleeps _ k ↦ sleeps (pos 0) k
  | crashes ↦ crashes
  | unfinished ↦ unfinished
]

-- The writer's part: the descriptor is taken off the table before write_callback looks for it.
close_writer : ℕ → Kernel → ℤ → ℤ → ℤ → Progress ℤ
unfolding close_last
close_writer outside k pid fd id = on_pipe k id λ p.
    let p1 = record p { writers = decr p.writers } in
    let k1 = empty_fd_table (put_pipe k id (some p1)) id pid fd in
    let escaped = after_escape outside id (write_callback k1 pid fd (esc ∷ [])) in
    if p1.writers == 0 then escaped else close_last outside k1 id

-- The statements after the descriptor and its pipe are found.
close_found : ℕ → Kernel → ℤ → ℤ → PipeFd → Pipe → Progress ℤ
close_found outside k pid fd d p =
    let k1 = if d.allow_rd ==ℤ pos 0 then k else close_reader k pid fd d.pipe_id p in
    let writer = close_writer outside k1 pid fd d.pipe_id in
    if d.allow_wr ==ℤ pos 0 then close_last outside k1 d.pipe_id else writer

pub close_callback : ℕ → Kernel → ℤ → ℤ → Progress ℤ
unfolding close_found
close_callback outside k pid fd = elim (get_pipe_fd k pid fd) [
  | none ↦ crashes
  | some d ↦ on_pipe k d.pipe_id λ p. close_found outside k pid fd d p
]

-- The entry and the pipe that dup_callback finds, or its early returns of -1.
pub dup_callback : Kernel → ℤ → ℤ → ℤ → ℤ → ℤ × Kernel
dup_callback k pid_from pid_to fd_from fd_to = elim (get_pipe_fd k pid_from fd_from) [
  | none ↦ (minus_one, k)
  | some d ↦ elim (get_pipe k d.pipe_id) [
    | none ↦ (minus_one, k)
    | some p ↦
        let (at, c1) = core_alloc k.core pipe_fd_size in
        let k1 = record k { core = c1 } in
        let i = find_free_pipe_fd k1 in
        if at == 0 then (minus_one, k1) else if i ==ℤ minus_one then (minus_one, k1) else (
          pos 0,
          record (put_pipe k1 d.pipe_id (some (counted p d.allow_rd d.allow_wr))) {
            pipe_fd_table =
                update k1.pipe_fd_table (pos_part i)
                  (some (record d { addr = at; pid = pid_to; fd = fd_to }));
          },
        )
  ]
]

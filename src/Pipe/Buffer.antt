-- ===== src/Pipe/Buffer.antt =====
-- The ring of bytes of Kernel/ipc/pipe.c: the struct Pipe, round_up_buffer_size, read_pipe_buffer and
-- write_pipe_buffer. A size_t is a number below 2 ^ 64; (size_t)-1 is `size_max`.
pub mod Copy
pub mod Ring
pub mod Read
pub mod Grow
pub mod Write
mod Tests
use Prim.Native.Nat.{bit_or}
use tpe_so_2023_tp.Base.{
  ℕ, ◌+◌, ◌-◌, ◌/◌, ◌%◌, ◌^◌, List, [], ◌∷◌, ◌++◌, Option, none, some, ltb, leb, ◌==◌,
  if◌then◌else◌, ◌&&◌, take, drop, replicate, length, Outcome, returned, fault, zero, suc,
}
use tpe_so_2023_tp.Queue.{Core, Queue, queue_unblock_all, core_alloc, core_free}

-- `Pipe`, at the address `addr`. `buffer_at` is the pointer `buffer` and `buffer` the bytes there. `name` is a
-- pointer, 0 for NULL.
pub record Pipe : Type 0 where
  pub addr : ℕ
  pub buffer_at : ℕ
  pub buffer : List ℕ
  pub size : ℕ
  pub read_idx : ℕ
  pub bytes_to_read : ℕ
  pub readers : ℕ
  pub writers : ℕ
  pub rd_q : Queue
  pub wr_q : Queue
  pub name : ℕ

abbrev pub buffer_max_size : ℕ
buffer_max_size = 4096

abbrev pub size_max : ℕ
size_max = 2 ^ 64 - 1

-- memcpy of the bytes `xs` to `buf + i`. What would go past the end of the block is not written; the
-- callers never ask for it.
pub overwrite : List ℕ → ℕ → List ℕ → List ℕ
overwrite [] i xs = []
overwrite (b ∷ bs) zero [] = b ∷ bs
overwrite (b ∷ bs) zero (x ∷ xs) = x ∷ overwrite bs zero xs
overwrite (b ∷ bs) (suc i) xs = b ∷ overwrite bs i xs

-- The bytes that memcpy reads from `buf + i`.
abbrev pub slice : List ℕ → ℕ → ℕ → List ℕ
slice buf i n = take n (drop i buf)

unfoldable pub round_up_buffer_size : ℕ → ℕ
round_up_buffer_size size =
    let s0 = (size + 2 ^ 64 - 1) % 2 ^ 64 in
    let s1 = bit_or s0 (s0 / 2 ^ 1) in
    let s2 = bit_or s1 (s1 / 2 ^ 2) in
    let s4 = bit_or s2 (s2 / 2 ^ 4) in
    let s8 = bit_or s4 (s4 / 2 ^ 8) in let s16 = bit_or s8 (s8 / 2 ^ 16) in (s16 + 1) % 2 ^ 64

-- The bytes that read_pipe_buffer copies out: in one part, or in two round the end.
abbrev pub copied_out : Pipe → ℕ → List ℕ
copied_out p count =
    if leb (p.read_idx + count) p.size
    then slice p.buffer p.read_idx count
    else slice p.buffer p.read_idx (p.size - p.read_idx)
      ++ slice p.buffer 0 (count - (p.size - p.read_idx))

-- The number of bytes read, the bytes that arrive at `buf`, and what changes. The division is
-- reached only with bytes to read.
unfoldable pub read_pipe_buffer : Core → Pipe → ℕ → Outcome (ℕ × List ℕ × Core × Pipe)
read_pipe_buffer c p count =
    if p.bytes_to_read == 0
    then returned (0, [], c, p)
    else let count' = if ltb count p.bytes_to_read then count else p.bytes_to_read in
      if p.size == 0
      then fault
      else let (_, c', wr_q') = queue_unblock_all c p.wr_q in
        returned (
          count',
          copied_out p count',
          c',
          record p {
            read_idx = (p.read_idx + count') % p.size;
            bytes_to_read = p.bytes_to_read - count';
            wr_q = wr_q';
          },
        )

-- The copy of the unread bytes to a larger block, at its start. A fresh block's bytes are arbitrary;
-- zeros stand for them here, and none is read before it is written.
unfoldable pub moved : Pipe → ℕ → List ℕ
moved p new_size =
    let bytes_left = p.size - p.read_idx in
    let fresh = replicate new_size 0 in
    if leb p.bytes_to_read bytes_left
    then overwrite fresh 0 (slice p.buffer p.read_idx p.bytes_to_read)
    else overwrite (overwrite fresh 0 (slice p.buffer p.read_idx bytes_left)) bytes_left
        (slice p.buffer 0 (p.bytes_to_read - bytes_left))

-- The first half of write_pipe_buffer: the ring is made larger if it is too small and can grow.
-- `none` is the early return of -1.
unfoldable pub grow : Core → Pipe → ℕ → Option Pipe × Core
grow c p count =
    let required = (p.bytes_to_read + count) % 2 ^ 64 in
    if ltb p.size required && ltb p.size buffer_max_size
    then (let new_size =
          round_up_buffer_size
            (if ltb required buffer_max_size then required else buffer_max_size) in
        let (new_buf, c1) = core_alloc c new_size in
        if new_buf == 0 then (none, c1) else (
          some (record p {
            read_idx = 0;
            buffer_at = new_buf;
            buffer = moved p new_size;
            size = new_size;
          }),
          core_free c1 p.buffer_at,
        ))
    else (some p, c)

-- The ring after the bytes `xs` were copied in from `write_idx` on: in one part, or in two.
abbrev pub copied_in : Pipe → ℕ → List ℕ → List ℕ
copied_in p write_idx xs =
    if leb (write_idx + length xs) p.size
    then overwrite p.buffer write_idx xs
    else overwrite (overwrite p.buffer write_idx (take (p.size - write_idx) xs)) 0
        (drop (p.size - write_idx) xs)

-- The second half, on the bytes of the caller's buffer.
unfoldable pub put_bytes : Core → Pipe → List ℕ → Outcome (ℕ × Core × Pipe)
put_bytes c p src =
    if p.size == 0
    then fault
    else let write_idx = (p.read_idx + p.bytes_to_read) % p.size in
      let avail_space = p.size - p.bytes_to_read in
      let count = if ltb (length src) avail_space then length src else avail_space in
      if count == 0
      then returned (0, c, p)
      else let (_, c', rd_q') = queue_unblock_all c p.rd_q in
        returned (
          count,
          c',
          record p {
            buffer = copied_in p write_idx (take count src);
            bytes_to_read = p.bytes_to_read + count;
            rd_q = rd_q';
          },
        )

unfoldable pub write_pipe_buffer : Core → Pipe → List ℕ → Outcome (ℕ × Core × Pipe)
write_pipe_buffer c p src =
    let (grown, c1) = grow c p (length src) in
    elim grown [ none ↦ returned (size_max, c1, p) | some p' ↦ put_bytes c1 p' src ]

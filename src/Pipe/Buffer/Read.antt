-- ===== src/Pipe/Buffer/Read.antt =====
-- read_pipe_buffer of Kernel/ipc/pipe.c takes the oldest bytes of the ring.
use tpe_so_2023_tp.Base.{
  ℕ, ◌+◌, ◌-◌, ◌%◌, ◌≤◌, ◌<◌, ◌≡◌, ◌≢◌, refl, ap, ◌∙◌, sym, subst, arith, List, [], length, get_or,
  take, drop, ltb, leb, length-append, length-take, length-drop, get_or-take, get_or-drop,
  get_or-append_left, get_or-append_right, min, Bool-cases, inl, inr, list_ext, Outcome, returned,
  fault,
}
use native.Mathlib.Nat.{mod-lt}
use native.Mathlib.Decide.{ℕ_discrete}
use tpe_so_2023_tp.Queue.{Core, Queue, queue_unblock_all}
use tpe_so_2023_tp.Pipe.Buffer.{Pipe, read_pipe_buffer, copied_out, slice}
use tpe_so_2023_tp.Pipe.Buffer.Ring.{
  IsRing, contents, window, place, length-window, get_or-window, mod_place,
}

-- `copied_out` in one part, and in two.
get_or-copied_out :
    (p : Pipe) (count i : ℕ)
    → IsRing p
    → count ≤ p.size
    → i < count
    → get_or (copied_out p count) i 0 ≡ get_or p.buffer (place p.size p.read_idx i) 0
get_or-copied_out p count i v hc hi = elim (Bool-cases (leb (p.read_idx + count) p.size)) [
  | inl t ↦ rw t (
      get_or-take count (drop r buf) i 0 hi
      ∙ get_or-drop r buf i 0
      ∙ ap (λ k. get_or buf k 0) (ground arith))
  | inr f ↦ rw f (elim (Bool-cases (ltb i first)) [
    | inl t ↦
        get_or-append_left (slice buf r first) (slice buf 0 (count - first)) i 0
          (ground (arith, first_length))
        ∙ get_or-take first (drop r buf) i 0 (ground arith)
        ∙ get_or-drop r buf i 0
        ∙ ap (λ k. get_or buf k 0) (ground arith)
    | inr g ↦
        get_or-append_right (slice buf r first) (slice buf 0 (count - first)) i 0
          (ground (arith, first_length))
        ∙ get_or-take (count - first) buf (i - length (slice buf r first)) 0
            (ground (arith, first_length))
        ∙ ap (λ k. get_or buf k 0) (ground (arith, first_length))
  ])
]
  where
    open p use {buffer as buf, read_idx as r}

    first : ℕ
    first = p.size - r

    first_length : length (slice buf r first) ≡ first
    first_length = omega (arith, length-take first (drop r buf), length-drop r buf, v.block)

length-copied_out :
    (p : Pipe) (count : ℕ) → IsRing p → count ≤ p.size → length (copied_out p count) ≡ count
length-copied_out p count v hc = elim (Bool-cases (leb (p.read_idx + count) p.size)) [
  | inl t ↦ rw t (
      ground (
        arith,
        length-take count (drop p.read_idx p.buffer),
        length-drop p.read_idx p.buffer,
        v.block,
      ))
  | inr f ↦ rw f (
      ground (
        arith,
        length-append (slice p.buffer p.read_idx (p.size - p.read_idx))
            (slice p.buffer 0 (count - (p.size - p.read_idx))),
        length-take (p.size - p.read_idx) (drop p.read_idx p.buffer),
        length-drop p.read_idx p.buffer,
        length-take (count - (p.size - p.read_idx)) p.buffer,
        v.block,
      ))
]

copied_out-take :
    (p : Pipe) (count : ℕ)
    → IsRing p
    → count ≤ p.bytes_to_read
    → copied_out p count ≡ take count (contents p)
copied_out-take p count v hc =
    list_ext _ _ 0 (ground (arith, len, length-take count (contents p), contents_len)) same
  where
    len : length (copied_out p count) ≡ count
    len = length-copied_out p count v (omega arith)

    contents_len : length (contents p) ≡ p.bytes_to_read
    contents_len = length-window p.buffer p.read_idx p.bytes_to_read (omega arith) (omega arith)

    same :
        (i : ℕ)
        → i < length (copied_out p count)
        → get_or (copied_out p count) i 0 ≡ get_or (take count (contents p)) i 0
    same i hi =
        get_or-copied_out p count i v (omega arith) (omega (arith, len))
        ∙ sym (
            get_or-take count (contents p) i 0 (omega (arith, len))
            ∙ get_or-window p.buffer p.read_idx p.bytes_to_read i (omega arith) (omega arith)
                (omega (arith, len))
            ∙ ap (λ k. get_or p.buffer (place k p.read_idx i) 0) v.block)

-- Going on in the ring drops the bytes that were passed.
window-drop :
    (buf : List ℕ) (r n c : ℕ)
    → r < length buf
    → n ≤ length buf
    → c ≤ n
    → window buf ((r + c) % length buf) (n - c) ≡ drop c (window buf r n)
window-drop buf r n c hr hn hc =
    list_ext _ _ 0
      (omega
        (arith, left_len, length-drop c (window buf r n), length-window buf r n (omega arith) hn))
      same
  where
    at : (r + c) % length buf ≡ place (length buf) r c
    at = mod_place (length buf) r c hr (omega arith)

    in_block : (r + c) % length buf < length buf
    in_block = omega arith

    left_len : length (window buf ((r + c) % length buf) (n - c)) ≡ n - c
    left_len =
        length-window buf ((r + c) % length buf) (n - c) (omega (arith, in_block)) (omega arith)

    same :
        (i : ℕ)
        → i < length (window buf ((r + c) % length buf) (n - c))
        → get_or (window buf ((r + c) % length buf) (n - c)) i 0
          ≡ get_or (drop c (window buf r n)) i 0
    same i hi =
        get_or-window buf ((r + c) % length buf) (n - c) i (omega (arith, in_block)) (omega arith)
          (omega (arith, left_len))
        ∙ ap (λ k. get_or buf k 0) (ground (arith, at, left_len))
        ∙ sym (
            get_or-drop c (window buf r n) i 0
            ∙ get_or-window buf r n (c + i) (omega arith) hn (omega (arith, left_len)))

read_nothing :
    (c : Core) (p : Pipe) (count : ℕ)
    → p.bytes_to_read ≡ 0
    → read_pipe_buffer c p count ≡ returned (0, [], c, p)
unfolding read_pipe_buffer
read_nothing c p count h = ground arith

-- The pipe that a reading of `n` bytes leaves, with the queue of writers that it leaves.
abbrev advanced : Pipe → ℕ → Queue → Pipe
advanced p n q = record p {
  read_idx = (p.read_idx + n) % p.size;
  bytes_to_read = p.bytes_to_read - n;
  wr_q = q;
}

read_something :
    (c : Core) (p : Pipe) (count : ℕ)
    → p.bytes_to_read ≢ 0
    → p.size ≢ 0
    → let n = min count p.bytes_to_read in
      let woken = queue_unblock_all c p.wr_q in
      read_pipe_buffer c p count ≡ returned (n, copied_out p n, woken.1, advanced p n woken.2)
unfolding read_pipe_buffer
read_something c p count h s = ground arith

advanced-IsRing :
    (p : Pipe) (n : ℕ) (q : Queue)
    → IsRing p
    → p.size ≢ 0
    → n ≤ p.bytes_to_read
    → IsRing (advanced p n q)
advanced-IsRing p n q v s h = record {
  block = v.block;
  small = v.small;
  fits = omega (arith, v.fits);
  start = omega (arith, mod-lt (p.read_idx + n) {m = p.size} (omega arith));
  inside = λ _. mod-lt (p.read_idx + n) (omega arith);
}

-- What a reading of at most `count` bytes must come to.
abbrev pub ReadsOldest : Core → Pipe → ℕ → Outcome (ℕ × List ℕ × Core × Pipe) → Type 0
ReadsOldest c p count fault = ⊥
ReadsOldest c p count (returned (r, bytes, c', p')) =
    (r ≡ min count p.bytes_to_read)
    × (bytes ≡ take r (contents p))
    × (contents p' ≡ drop r (contents p))
    × (p'.bytes_to_read ≡ p.bytes_to_read - r)
    × IsRing p'
    × (p.bytes_to_read ≢ 0 → c' ≡ (queue_unblock_all c p.wr_q).1)

-- Of a well-formed pipe, read_pipe_buffer returns; it delivers the oldest `count` unread bytes, or
-- all when there are fewer, in order, with their number; the pipe is left well formed with the
-- rest; and unless there was nothing to read, the blocked writers are woken.
pub read_pipe_buffer_lem :
    (c : Core) (p : Pipe) (count : ℕ)
    → IsRing p
    → ReadsOldest c p count (read_pipe_buffer c p count)
read_pipe_buffer_lem c p count v = elim (ℕ_discrete p.bytes_to_read 0) [
  | yes empty ↦
      rw (read_nothing c p count empty)
        (omega (arith, empty), refl, refl, omega arith, v, λ h. absurd (h empty))
  | no some_bytes ↦ rw (read_something c p count some_bytes (omega (arith, v.fits))) (
    refl,
    copied_out-take p n v (omega arith),
    subst (λ k. window p.buffer ((p.read_idx + n) % k) (p.bytes_to_read - n) ≡ drop n (contents p))
        v.block
        (window-drop p.buffer p.read_idx p.bytes_to_read n (omega (arith, in_ring))
          (omega (arith, v.fits)) (omega arith)),
    refl,
    advanced-IsRing p n _ v (omega (arith, v.fits)) (omega arith),
    λ _. refl,
  )
]
  where
    n : ℕ
    n = min count p.bytes_to_read

    in_ring : p.size ≢ 0 → p.read_idx < length p.buffer
    in_ring h = omega (arith, v.inside h)

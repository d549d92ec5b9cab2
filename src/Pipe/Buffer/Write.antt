-- ===== src/Pipe/Buffer/Write.antt =====
-- write_pipe_buffer of Kernel/ipc/pipe.c appends to the bytes of the ring.
use native.Mathlib.Nat.{mod-lt}
use native.Mathlib.Decide.{ℕ_discrete}
use mathlib.Core.List.{append-nil}
use tpe_so_2023_tp.Base.{
  ℕ, ◌+◌, ◌-◌, ◌%◌, ◌^◌, ◌≤◌, ◌<◌, ◌≡◌, ◌≢◌, refl, ap, ◌∙◌, sym, arith, List, [], ◌++◌, length,
  get_or, take, drop, ltb, leb, if◌then◌else◌, ◌&&◌, length-append, length-take, length-drop,
  get_or-take, get_or-drop, get_or-append_left, get_or-append_right, min, Bool-cases, inl, inr,
  list_ext, Option, none, some, Outcome, returned, fault, ◌⊎◌,
}
use tpe_so_2023_tp.Queue.{Core, Queue, queue_unblock_all}
use tpe_so_2023_tp.Pipe.Buffer.{
  Pipe, overwrite, copied_in, put_bytes, grow, write_pipe_buffer, size_max,
}
use tpe_so_2023_tp.Pipe.Buffer.Copy.{length-overwrite, get_or-overwrite}
use tpe_so_2023_tp.Pipe.Buffer.Ring.{
  IsRing, contents, window, place, length-window, get_or-window, mod_place,
}
use tpe_so_2023_tp.Pipe.Buffer.Grow.{grow_lem, Grows, IsRefused}

length-copied_in : (p : Pipe) (w : ℕ) (xs : List ℕ) → length (copied_in p w xs) ≡ length p.buffer
length-copied_in p w xs = ground (
  arith,
  length-overwrite p.buffer w xs,
  length-overwrite p.buffer w (take (p.size - w) xs),
  length-overwrite (overwrite p.buffer w (take (p.size - w) xs)) 0 (drop (p.size - w) xs),
)

-- An entry of the ring after the copy: the new byte where one was put, else the old one.
get_or-copied_in :
    (p : Pipe) (w : ℕ) (xs : List ℕ) (j : ℕ)
    → length p.buffer ≡ p.size
    → w < p.size
    → length xs ≤ p.size
    → j < p.size
    → get_or (copied_in p w xs) j 0 ≡ (
        if leb w j && ltb j (w + length xs)
        then get_or xs (j - w) 0
        else if ltb (j + p.size) (w + length xs)
        then get_or xs (j + p.size - w) 0
        else get_or p.buffer j 0)
get_or-copied_in p w xs j e hw hl hj = elim (Bool-cases (leb (w + length xs) p.size)) [
  | inl t ↦ rw t (get_or-overwrite p.buffer w xs j (omega arith) ∙ ground arith)
  | inr f ↦ rw f (
      get_or-overwrite once 0 (drop first xs) j
        (omega (arith, length-overwrite p.buffer w (take first xs)))
      ∙ ground (
        arith,
        get_or-overwrite p.buffer w (take first xs) j,
        length-take first xs,
        length-drop first xs,
        get_or-take first xs (j - w) 0,
        get_or-drop first xs j 0,
      ))
]
  where
    first : ℕ
    first = p.size - w

    once : List ℕ
    once = overwrite p.buffer w (take first xs)

-- The bytes of the ring, after `xs` were copied in behind them.
window-copied_in :
    (p : Pipe) (xs : List ℕ)
    → IsRing p
    → p.size ≢ 0
    → p.bytes_to_read + length xs ≤ p.size
    → window
        (copied_in p ((p.read_idx + p.bytes_to_read) % p.size) xs)
        p.read_idx
        (p.bytes_to_read + length xs)
      ≡ contents p ++ xs
window-copied_in p xs v s h =
    list_ext _ _ 0 (omega (arith, total, length-append (contents p) xs, old_len)) same
  where
    open p use {buffer as buf, read_idx as r, bytes_to_read as n, size}

    w : ℕ
    w = (r + n) % size

    at : w ≡ place size r n
    at = mod_place size r n (v.inside s) v.fits

    new : List ℕ
    new = copied_in p w xs

    new_len : length new ≡ size
    new_len = length-copied_in p w xs ∙ v.block

    total : length (window new r (n + length xs)) ≡ n + length xs
    total =
        length-window new r (n + length xs) (omega (arith, new_len, v.start))
          (omega (arith, new_len))

    old_len : length (contents p) ≡ n
    old_len =
        length-window buf r n (omega (arith, v.block, v.start)) (omega (arith, v.block, v.fits))

    r_in : r < size
    r_in = v.inside s

    entry :
        (i : ℕ)
        → i < n + length xs
        → get_or new (place size r i) 0
          ≡ (if ltb i n then get_or buf (place size r i) 0 else get_or xs (i - n) 0)
    entry i hi =
        get_or-copied_in p w xs (place size r i) v.block
          (omega (arith, mod-lt (r + n) {m = size} (omega arith))) (omega arith)
          (ground (arith, r_in))
        ∙ rw at (ground (arith, r_in, v.fits))

    same :
        (i : ℕ)
        → i < length (window new r (n + length xs))
        → get_or (window new r (n + length xs)) i 0 ≡ get_or (contents p ++ xs) i 0
    same i hi =
        get_or-window new r (n + length xs) i (omega (arith, new_len, v.start))
          (omega (arith, new_len)) (omega (arith, total))
        ∙ ap (λ k. get_or new (place k r i) 0) new_len
        ∙ entry i (omega (arith, total))
        ∙ elim (Bool-cases (ltb i n)) [
          | inl t ↦ rw t (
              sym (
                get_or-append_left (contents p) xs i 0 (ground (arith, old_len))
                ∙ get_or-window buf r n i (omega (arith, v.block, v.start))
                    (omega (arith, v.block, v.fits)) (ground arith)
                ∙ ap (λ k. get_or buf (place k r i) 0) v.block))
          | inr f ↦ rw f (
              sym (
                get_or-append_right (contents p) xs i 0 (ground (arith, old_len))
                ∙ ap (λ k. get_or xs (i - k) 0) old_len))
        ]

put_nothing :
    (c : Core) (p : Pipe) (src : List ℕ)
    → p.size ≢ 0
    → min (length src) (p.size - p.bytes_to_read) ≡ 0
    → put_bytes c p src ≡ returned (0, c, p)
unfolding put_bytes
put_nothing c p src s h = ground arith

abbrev appended : Pipe → List ℕ → Queue → Pipe
appended p xs q = record p {
  buffer = copied_in p ((p.read_idx + p.bytes_to_read) % p.size) xs;
  bytes_to_read = p.bytes_to_read + length xs;
  rd_q = q;
}

put_something :
    (c : Core) (p : Pipe) (src : List ℕ)
    → p.size ≢ 0
    → let count = min (length src) (p.size - p.bytes_to_read) in
      let woken = queue_unblock_all c p.rd_q in
      count ≢ 0 → put_bytes c p src ≡ returned (count, woken.1, appended p (take count src) woken.2)
unfolding put_bytes
put_something c p src s h =
    ground (arith, length-take (min (length src) (p.size - p.bytes_to_read)) src)

appended-IsRing :
    (p : Pipe) (xs : List ℕ) (q : Queue)
    → IsRing p
    → p.bytes_to_read + length xs ≤ p.size
    → IsRing (appended p xs q)
appended-IsRing p xs q v h = record {
  block = length-copied_in p ((p.read_idx + p.bytes_to_read) % p.size) xs ∙ v.block;
  small = v.small;
  fits = h;
  start = v.start;
  inside = v.inside;
}

-- What a writing of the bytes `src` must come to, from the heap and scheduler `c0` of the caller and those
-- that the growing leaves, `c`.
abbrev pub Appends : Core → Core → Pipe → List ℕ → Outcome (ℕ × Core × Pipe) → Type 0
Appends c0 c p src fault = ⊥
Appends c0 c p src (returned (r, c', p')) =
    (IsRefused c0 p (length src) × (r ≡ size_max) × (p' ≡ p) × (c' ≡ c))
    ⊎ (¬ IsRefused c0 p (length src)
        × (r ≡ min (length src) (4096 - p.bytes_to_read))
        × (contents p' ≡ contents p ++ take r src)
        × (p'.bytes_to_read ≡ p.bytes_to_read + r)
        × IsRing p'
        × (r ≡ 0 → c' ≡ c)
        × (r ≢ 0 → c' ≡ (queue_unblock_all c p.rd_q).1))

-- The ring `p'` is the ring `p` of the caller after it was made large enough.
put_bytes-Appends :
    (c0 c : Core) (p p' : Pipe) (src : List ℕ)
    → Grows c0 p (length src) (some p', c)
    → p'.size ≢ 0
    → Appends c0 c p src (put_bytes c p' src)
put_bytes-Appends c0 c p p' src (able, v, same, n, room, larger, q) s = elim (ℕ_discrete count 0) [
  | yes none_fits ↦ rw (put_nothing c p' src s none_fits) (
      inr (
        able,
        omega (arith, none_fits, v.small, v.fits),
        same ∙ sym (append-nil (contents p)),
        omega arith,
        v,
        λ _. refl,
        λ h. absurd (h refl),
      ))
  | no more ↦ rw (put_something c p' src s more) (
      inr (
        able,
        omega (arith, v.small, v.fits),
        window-copied_in p' xs v s fits ∙ ap (λ l. l ++ xs) same,
        omega (arith, xs_len),
        appended-IsRing p' xs _ v fits,
        λ h. absurd (more h),
        λ _. rw q refl,
      ))
]
  where
    count : ℕ
    count = min (length src) (p'.size - p'.bytes_to_read)

    xs : List ℕ
    xs = take count src

    xs_len : length xs ≡ count
    xs_len = omega (arith, length-take count src)

    fits : p'.bytes_to_read + length xs ≤ p'.size
    fits = omega (arith, xs_len, v.fits)

written-Appends :
    (c0 : Core) (p : Pipe) (src : List ℕ) (grown : Option Pipe) (c1 : Core)
    → Grows c0 p (length src) (grown, c1)
    → 0 < p.size + length src
    → Appends c0 c1 p src
        (elim grown [ none ↦ returned (size_max, c1, p) | some p' ↦ put_bytes c1 p' src ])
written-Appends c p src none c1 g some_room = inl (g, refl, refl, refl)
written-Appends c p src (some p') c1 g some_room =
    put_bytes-Appends c c1 p p' src g (omega (arith, g.4, g.5))

-- Of a well-formed pipe, with at least one byte to write or a block already there,
-- write_pipe_buffer returns. Exactly when the ring has to grow and the heap has no room, it returns
-- (size_t)-1 and the pipe is as it was. Otherwise it appends the first bytes of the caller's, in order, as many as 4096 bytes in all
-- allow, returns their number, and wakes the blocked readers if there was any. So a pipe is a
-- queue of bytes of capacity 4096.
pub write_pipe_buffer_lem :
    (c : Core) (p : Pipe) (src : List ℕ)
    → IsRing p
    → p.bytes_to_read + length src < 2 ^ 64
    → 0 < p.size + length src
    → Appends c (grow c p (length src)).1 p src (write_pipe_buffer c p src)
unfolding write_pipe_buffer
write_pipe_buffer_lem c p src v h some_room =
    written-Appends c p src (grow c p (length src)).0 (grow c p (length src)).1
      (grow_lem c p (length src) v h) some_room

-- The writing of no byte to a pipe that has no block yet divides by zero.
pub write_pipe_buffer_faults :
    (c : Core) (p : Pipe) → p.size ≡ 0 → p.bytes_to_read ≡ 0 → write_pipe_buffer c p [] ≡ fault
unfolding write_pipe_buffer grow put_bytes
write_pipe_buffer_faults c p s n = ground arith

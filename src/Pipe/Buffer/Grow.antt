-- ===== src/Pipe/Buffer/Grow.antt =====
-- The growing of the ring in write_pipe_buffer of Kernel/ipc/pipe.c: nothing that waits is lost.
use native.Mathlib.Decide.{ℕ_discrete}
use tpe_so_2023_tp.Base.{
  ℕ, zero, suc, ◌+◌, ◌-◌, ◌%◌, ◌^◌, ◌≤◌, ◌<◌, ◌≡◌, ◌≢◌, refl, ap, ◌∙◌, sym, true, arith, List,
  length, get_or, drop, replicate, ltb, leb, ◌==◌, if◌then◌else◌, ◌&&◌, length-take, length-drop,
  length-replicate, get_or-take, get_or-drop, min, Bool-cases, inl, inr, list_ext, Option, none,
  some, Bool, ◌⊎◌,
}
use tpe_so_2023_tp.Queue.{Core, core_alloc, core_free}
use tpe_so_2023_tp.Pipe.Buffer.{Pipe, overwrite, slice, moved, grow, round_up_buffer_size}
use tpe_so_2023_tp.Pipe.Buffer.Copy.{length-overwrite, get_or-overwrite}
use tpe_so_2023_tp.Pipe.Buffer.Ring.{IsRing, contents, window, place, length-window, get_or-window}

-- Every size that a pipe asks for, checked by evaluation.
all_upto : ℕ → (ℕ → Bool) → Bool
all_upto zero f = true
all_upto (suc n) f = f (suc n) && all_upto n f

all_upto_sound : (n : ℕ) (f : ℕ → Bool) (x : ℕ) → all_upto n f ≡ true → 0 < x → x ≤ n → f x ≡ true
unfolding all_upto
all_upto_sound zero f x h lo hi = absurd (omega arith)
all_upto_sound (suc n) f x h lo hi = elim (ℕ_discrete x (suc n)) [
  | yes same ↦ ground arith
  | no other ↦ ground (arith, all_upto_sound n f x)
]

abbrev rounds_well : ℕ → Bool
rounds_well n =
    leb n (round_up_buffer_size n)
    && leb (round_up_buffer_size n) 4096
    && ltb (round_up_buffer_size n) (n + n)
    && (4096 % round_up_buffer_size n == 0)

round_up_table : all_upto 4096 rounds_well ≡ true
unfolding all_upto round_up_buffer_size
round_up_table = refl

-- For every size from 1 to 4096, round_up_buffer_size gives a divisor of 4096, hence a power of two,
-- that is at least the size and less than twice the size.
pub round_up_buffer_size_lem :
    (n : ℕ)
    → 0 < n
    → n ≤ 4096
    → (n ≤ round_up_buffer_size n)
      × (round_up_buffer_size n ≤ 4096)
      × (round_up_buffer_size n < n + n)
      × (4096 % round_up_buffer_size n ≡ 0)
round_up_buffer_size_lem n lo hi =
    let t = all_upto_sound 4096 rounds_well n round_up_table lo hi in
    (ground arith, ground arith, ground arith, ground arith)

length-moved : (p : Pipe) (new_size : ℕ) → length (moved p new_size) ≡ new_size
unfolding moved
length-moved p k =
    let fresh : List ℕ = replicate k 0 in
    let left = p.size - p.read_idx in
    ground (
      arith,
      length-replicate {A = ℕ} k 0,
      length-overwrite fresh 0 (slice p.buffer p.read_idx p.bytes_to_read),
      length-overwrite fresh 0 (slice p.buffer p.read_idx left),
      length-overwrite (overwrite fresh 0 (slice p.buffer p.read_idx left)) left
          (slice p.buffer 0 (p.bytes_to_read - left)),
    )

get_or-moved :
    (p : Pipe) (k i : ℕ)
    → IsRing p
    → p.bytes_to_read ≤ k
    → i < p.bytes_to_read
    → get_or (moved p k) i 0 ≡ get_or p.buffer (place p.size p.read_idx i) 0
unfolding moved
get_or-moved p k i v hk hi = elim (Bool-cases (leb n left)) [
  | inl t ↦ rw t (
      get_or-overwrite fresh 0 (slice buf r n) i (omega (arith, fresh_len))
      ∙ ground (
        arith,
        get_or-take n (drop r buf) i 0,
        get_or-drop r buf i 0,
        length-take n (drop r buf),
        length-drop r buf,
        v.block,
      ))
  | inr f ↦ rw f (
      get_or-overwrite (overwrite fresh 0 (slice buf r left)) left (slice buf 0 (n - left)) i
        (omega (arith, fresh_len, length-overwrite fresh 0 (slice buf r left)))
      ∙ ground (
        arith,
        get_or-overwrite fresh 0 (slice buf r left) i,
        get_or-take left (drop r buf) i 0,
        get_or-drop r buf i 0,
        get_or-take (n - left) buf (i - left) 0,
        length-take left (drop r buf),
        length-drop r buf,
        length-take (n - left) buf,
        fresh_len,
        v.block,
      ))
]
  where
    open p use {buffer as buf, read_idx as r, bytes_to_read as n}

    left : ℕ
    left = p.size - r

    fresh : List ℕ
    fresh = replicate k 0

    fresh_len : length fresh ≡ k
    fresh_len = length-replicate k 0

contents-moved :
    (p : Pipe) (k : ℕ)
    → IsRing p
    → p.bytes_to_read ≤ k
    → window (moved p k) 0 p.bytes_to_read ≡ contents p
contents-moved p k v hk =
    list_ext _ _ 0
      (length-window (moved p k) 0 n (omega arith) (omega (arith, len))
        ∙ sym (
            length-window p.buffer p.read_idx n (omega (arith, v.block, v.start))
              (omega (arith, v.block, v.fits))))
      same
  where
    n : ℕ
    n = p.bytes_to_read

    len : length (moved p k) ≡ k
    len = length-moved p k

    same :
        (i : ℕ)
        → i < length (window (moved p k) 0 n)
        → get_or (window (moved p k) 0 n) i 0 ≡ get_or (contents p) i 0
    same i hi =
        let lt : i < n =
          omega (arith, length-window (moved p k) 0 n (omega arith) (omega (arith, len))) in
        get_or-window (moved p k) 0 n i (omega arith) (omega (arith, len)) lt
        ∙ ap (λ j. get_or (moved p k) j 0) (ground (arith, len))
        ∙ get_or-moved p k i v hk lt
        ∙ ap (λ j. get_or p.buffer (place j p.read_idx i) 0) (sym v.block)
        ∙ sym (
            get_or-window p.buffer p.read_idx n i (omega (arith, v.block, v.start))
              (omega (arith, v.block, v.fits)) lt)

-- The size asked for, of the bytes that the ring would have to hold.
abbrev pub new_size : ℕ → ℕ
new_size required = round_up_buffer_size (if ltb required 4096 then required else 4096)

abbrev grown_pipe : Pipe → ℕ → ℕ → Pipe
grown_pipe p at size = record p { read_idx = 0; buffer_at = at; buffer = moved p size; size = size }

grow_cases :
    (c : Core) (p : Pipe) (count : ℕ)
    → p.bytes_to_read + count < 2 ^ 64
    → let required = p.bytes_to_read + count in
      let at = c.memory.answer c.memory.calls (new_size required) in
      ((min required 4096 ≤ p.size) × (grow c p count ≡ (some p, c)))
      ⊎ ((p.size < required)
          × (p.size < 4096)
          × (at ≡ 0)
          × (grow c p count ≡ (none, (core_alloc c (new_size required)).1)))
      ⊎ ((p.size < required)
          × (p.size < 4096)
          × (at ≢ 0)
          × (grow c p count ≡ (
            some (grown_pipe p at (new_size required)),
            core_free (core_alloc c (new_size required)).1 p.buffer_at,
          )))
unfolding grow
grow_cases c p count h =
    let whole : (p.bytes_to_read + count) % 2 ^ 64 ≡ p.bytes_to_read + count = omega arith in
    rw (whole, grow) (ground arith)

-- The ring is too small and can grow, and the heap has no room for the larger one.
abbrev pub IsRefused : Core → Pipe → ℕ → Type 0
IsRefused c p count =
    (p.size < p.bytes_to_read + count)
    × (p.size < 4096)
    × (c.memory.answer c.memory.calls (new_size (p.bytes_to_read + count)) ≡ 0)

-- What the growing must come to: a refusal by the heap, or a well-formed ring with the same bytes, that
-- has room for the new ones or is as large as it can be.
abbrev pub Grows : Core → Pipe → ℕ → Option Pipe × Core → Type 0
Grows c p count (none, c') = IsRefused c p count
Grows c p count (some p', c') =
    ¬ IsRefused c p count
    × IsRing p'
    × (contents p' ≡ contents p)
    × (p'.bytes_to_read ≡ p.bytes_to_read)
    × (min (p.bytes_to_read + count) 4096 ≤ p'.size)
    × (p.size ≤ p'.size)
    × (p'.rd_q ≡ p.rd_q)

grown-IsRing :
    (p : Pipe) (at k : ℕ) → IsRing p → p.bytes_to_read ≤ k → k ≤ 4096 → IsRing (grown_pipe p at k)
grown-IsRing p at k v lo hi = record {
  block = length-moved p k;
  small = hi;
  fits = lo;
  start = omega arith;
  inside = λ h. omega arith;
}

pub grow_lem :
    (c : Core) (p : Pipe) (count : ℕ)
    → IsRing p
    → p.bytes_to_read + count < 2 ^ 64
    → Grows c p count (grow c p count)
grow_lem c p count v h = elim (grow_cases c p count h) [
  | inl (room, e) ↦ rw e (λ (more, small, _). omega arith, v, refl, refl, room, omega arith, refl)
  | inr (inl (more, small, at, e)) ↦ rw e (more, small, at)
  | inr (inr (more, small, at, e)) ↦
      let required = p.bytes_to_read + count in
      let asked = if ltb required 4096 then required else 4096 in
      let r = round_up_buffer_size_lem asked (ground arith) (ground arith) in
      let lo : p.bytes_to_read ≤ new_size required = ground (arith, v.fits) in
      rw e (
        λ (_, _, zero_at). at zero_at,
        grown-IsRing p _ (new_size required) v lo r.1,
        contents-moved p (new_size required) v lo,
        refl,
        ground arith,
        ground arith,
        refl,
      )
]

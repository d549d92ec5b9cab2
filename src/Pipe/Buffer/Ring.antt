-- ===== src/Pipe/Buffer/Ring.antt =====
-- The bytes that wait in the ring of Kernel/ipc/pipe.c, and the invariant of its indices.
use native.Mathlib.Nat.{mod-eq_of_lt, mod-eq-sub-mod}
use tpe_so_2023_tp.Base.{
  ℕ, ◌+◌, ◌-◌, ◌%◌, ◌≤◌, ◌<◌, ◌≡◌, ◌≢◌, ap, ◌∙◌, arith, List, ◌++◌, length, get_or, take, drop, ltb,
  if◌then◌else◌, length-append, length-take, length-drop, get_or-take, get_or-drop,
  get_or-append_left, get_or-append_right, Bool-cases, inl, inr,
}
use tpe_so_2023_tp.Pipe.Buffer.{Pipe}

-- The ring lies in its block, which holds at most 4096 bytes; an empty block holds no bytes.
pub record IsRing (p : Pipe) : Type 0 where
  pub block : length p.buffer ≡ p.size
  pub small : p.size ≤ 4096
  pub fits : p.bytes_to_read ≤ p.size
  pub start : p.read_idx ≤ p.size
  pub inside : p.size ≢ 0 → p.read_idx < p.size

-- Read from `read_idx` on, then from the start again.
abbrev pub window : List ℕ → ℕ → ℕ → List ℕ
window buf r n = take n (drop r buf ++ buf)

-- The unread bytes, oldest first.
abbrev pub contents : Pipe → List ℕ
contents p = window p.buffer p.read_idx p.bytes_to_read

-- The index that lies `i` places after `r` in a ring of `size` places.
abbrev pub place : ℕ → ℕ → ℕ → ℕ
place size r i = if ltb (r + i) size then r + i else r + i - size

pub length-window :
    (buf : List ℕ) (r n : ℕ) → r ≤ length buf → n ≤ length buf → length (window buf r n) ≡ n
length-window buf r n hr hn =
    omega
      (arith, length-take n (drop r buf ++ buf), length-append (drop r buf) buf, length-drop r buf)

pub get_or-window :
    (buf : List ℕ) (r n i : ℕ)
    → r ≤ length buf
    → n ≤ length buf
    → i < n
    → get_or (window buf r n) i 0 ≡ get_or buf (place (length buf) r i) 0
get_or-window buf r n i hr hn hi =
    get_or-take n (drop r buf ++ buf) i 0 hi ∙ elim (Bool-cases (ltb (r + i) (length buf))) [
      | inl t ↦ rw t (
          get_or-append_left (drop r buf) buf i 0 (ground (arith, length-drop r buf))
          ∙ get_or-drop r buf i 0)
      | inr f ↦ rw f (
          get_or-append_right (drop r buf) buf i 0 (ground (arith, length-drop r buf))
          ∙ ap (λ k. get_or buf k 0) (ground (arith, length-drop r buf)))
    ]

-- `%` by the size of the ring takes an index back by one turn at most.
pub mod_place : (size r i : ℕ) → r < size → i ≤ size → (r + i) % size ≡ place size r i
mod_place size r i hr hi = elim (Bool-cases (ltb (r + i) size)) [
  | inl t ↦ rw t (mod-eq_of_lt (ground arith))
  | inr f ↦ rw f (
      mod-eq-sub-mod {n = r + i} {m = size} (ground arith)
      ∙ mod-eq_of_lt {n = r + i - size} {m = size} (ground arith))
]

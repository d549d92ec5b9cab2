-- ===== src/Process/Descriptors.antt =====
-- The file descriptors of Kernel/processes/process.c: proc_map_fd, proc_unmap_fd, proc_read, proc_write
-- and proc_dup.
use tpe_so_2023_tp.Base.{
  ℕ, ◌-◌, ◌≤◌, ◌<◌, ◌≡◌, ◌≢◌, ◌⊎◌, inl, inr, refl, arith, Bool, true, false, ◌&&◌, ◌||◌, not, none,
  some, ◌==◌, if◌then◌else◌, ℤ, pos, negsuc, pos_part, ltb_ℤ, leb_ℤ, ◌==ℤ◌, minus_one, Outcome,
  returned, fault, ◌>>=◌, first_index, ◌≤ℤ◌, Bool-cases, found, missing, first_index-FirstIndex,
}
use native.Mathlib.Decide.{dec_lt}
use tpe_so_2023_tp.Kernel.{Kernel, FileDescriptor, Callback}
use tpe_so_2023_tp.Process.{Outside, proc_at, put_proc, no_fd, get_process_from_pid, max_fds}

abbrev fd_at : Kernel → ℤ → ℤ → FileDescriptor
fd_at k pid fd = (proc_at k pid).fds (pos_part fd)

abbrev put_fd : Kernel → ℤ → ℤ → FileDescriptor → Kernel
put_fd k pid fd d =
    put_proc k pid
      (record (proc_at k pid) { fds = λ j. if pos_part fd == j then d else (proc_at k pid).fds j })

abbrev is_null : Callback → Bool
is_null none = true
is_null (some _) = false

-- The test that ends the search of proc_map_fd for a free descriptor.
abbrev pub is_free_fd : FileDescriptor → Bool
is_free_fd d = is_null d.write_callback || is_null d.read_callback

-- The search starts at 3 and has no end: past the 20 descriptors it reads beyond the array.
abbrev pub search_fd : Kernel → ℤ → ℤ
search_fd k pid = first_index (max_fds - 3) 3 (λ i. is_free_fd ((proc_at k pid).fds i))

map_at : Kernel → ℤ → ℤ → FileDescriptor → Outcome (ℤ × Kernel)
map_at k pid fd d =
    if leb_ℤ (pos 0) fd && ltb_ℤ fd (pos max_fds) then returned (fd, put_fd k pid fd d) else fault

unfoldable pub proc_map_fd : Kernel → ℤ → ℤ → FileDescriptor → Outcome (ℤ × Kernel)
unfolding map_at
proc_map_fd k pid fd d =
    if not (get_process_from_pid k pid) || ltb_ℤ (pos max_fds) fd
    then returned (minus_one, k)
    else map_at k pid (if ltb_ℤ fd (pos 0) then search_fd k pid else fd) d

abbrev pub valid_fd : ℤ → Bool
valid_fd fd = not (ltb_ℤ fd (pos 0) || leb_ℤ (pos max_fds) fd)

-- What a close callback leaves is checked before the descriptor is cleared.
abbrev cleared : ℤ → ℤ → ℤ × Kernel → Outcome (ℤ × Kernel)
cleared pid fd (r, k) =
    if not (r ==ℤ pos 0) then returned (r, k) else returned (r, put_fd k pid fd no_fd)

pub proc_unmap_fd : Outside → Kernel → ℤ → ℤ → Outcome (ℤ × Kernel)
proc_unmap_fd o k pid fd =
    if not (get_process_from_pid k pid) || not (valid_fd fd)
    then returned (minus_one, k)
    else elim (fd_at k pid fd).close_callback [
      | none ↦ cleared pid fd (pos 0, k)
      | some d ↦ o.on_close d k pid fd >>= cleared pid fd
    ]

-- proc_read and proc_write end in a call of the descriptor's callback, which is the result here; `none`
-- is the result -1.
unfoldable pub proc_read : Kernel → ℤ → ℤ → Callback
proc_read k pid fd =
    if not (valid_fd fd) || not (get_process_from_pid k pid)
    then none
    else (fd_at k pid fd).read_callback

unfoldable pub proc_write : Kernel → ℤ → ℤ → Callback
proc_write k pid fd =
    if not (valid_fd fd) || not (get_process_from_pid k pid)
    then none
    else (fd_at k pid fd).write_callback

-- The result of the dup callback is not looked at.
pub proc_dup : Outside → Kernel → ℤ → ℤ → ℤ → Outcome (ℤ × Kernel)
proc_dup o k pid fd_original fd_final =
    if not (valid_fd fd_original) || not (valid_fd fd_final) || not (get_process_from_pid k pid)
    then returned (minus_one, k)
    else (let k1 = put_fd k pid fd_final (fd_at k pid fd_original) in
        elim (fd_at k1 pid fd_final).dup_callback [
          | none ↦ returned (pos 0, k1)
          | some d ↦ do (_, k2) ← o.on_dup d k1 pid pid fd_original fd_final; returned (pos 0, k2)
        ])

-- What mapping a descriptor comes to for a process of the table.
abbrev pub Maps : Kernel → ℤ → FileDescriptor → ℤ → Outcome (ℤ × Kernel) → Type 0
Maps k pid d at fault = at ≡ minus_one ⊎ at ≡ pos max_fds
Maps k pid d at (returned (r, k')) =
    (r ≡ at)
    × ((proc_at k' pid).fds (pos_part at) ≡ d)
    × (proc_read k' pid at ≡ d.read_callback)
    × (proc_write k' pid at ≡ d.write_callback)
    × ((j : ℕ) → at ≢ pos j → (proc_at k' pid).fds j ≡ (proc_at k pid).fds j)

map_at-returned :
    (k : Kernel) (pid : ℤ) (n : ℕ) (d : FileDescriptor)
    → n < 20
    → map_at k pid (pos n) d ≡ returned (pos n, put_fd k pid (pos n) d)
unfolding map_at
map_at-returned k pid n d h = ground arith

map_at-fault :
    (k : Kernel) (pid : ℤ) (n : ℕ) (d : FileDescriptor) → 20 ≤ n → map_at k pid (pos n) d ≡ fault
unfolding map_at
map_at-fault k pid n d h = ground arith

map_at-Maps :
    (k : Kernel) (pid at : ℤ) (d : FileDescriptor)
    → get_process_from_pid k pid ≡ true
    → (at ≡ minus_one) ⊎ ((pos 0 ≤ℤ at) × (at ≤ℤ pos 20))
    → Maps k pid d at (map_at k pid at d)
unfolding map_at proc_read proc_write
map_at-Maps k pid (negsuc n) d live h = ground arith
map_at-Maps k pid (pos n) d live h = elim (dec_lt n 20) [
  | yes lt ↦
      rw (map_at-returned k pid n d lt)
        (refl, ground arith, ground arith, ground arith, λ j ne. ground (arith, ne))
  | no ge ↦ rw (map_at-fault k pid n d (omega arith)) (inr (ground arith))
]

search_fd_range :
    (k : Kernel) (pid : ℤ)
    → (search_fd k pid ≡ minus_one) ⊎ ((pos 0 ≤ℤ search_fd k pid) × (search_fd k pid ≤ℤ pos 20))
search_fd_range k pid =
    elim (first_index-FirstIndex 17 3 20 (λ i. is_free_fd ((proc_at k pid).fds i)) (omega arith)) [
      | found i lo hi e t before ↦ inr (ground arith, ground arith)
      | missing e none_free ↦ inl e
    ]

-- proc_map_fd of a process of the table, at a descriptor up to 20 or, for a negative one, at the first
-- from 3 on that lacks its read or its write callback: the four callbacks are stored there, proc_read and
-- proc_write call the new ones, no other descriptor changes, and the descriptor's number is returned. It reads or writes beyond the array
-- of descriptors only at descriptor 20, which it lets through, and when none from 3 on is free.
pub proc_map_fd_lem :
    (k : Kernel) (pid fd : ℤ) (d : FileDescriptor)
    → get_process_from_pid k pid ≡ true
    → ltb_ℤ (pos 20) fd ≡ false
    → let at = if ltb_ℤ fd (pos 0) then search_fd k pid else fd in
      Maps k pid d at (proc_map_fd k pid fd d)
unfolding proc_map_fd
proc_map_fd_lem k pid fd d live small = elim (Bool-cases (ltb_ℤ fd (pos 0))) [
  | inl negative ↦
      rw (negative, live, small)
        (map_at-Maps k pid (search_fd k pid) d live (search_fd_range k pid))
  | inr given ↦ rw (given, live, small) (map_at-Maps k pid fd d live (inr (ground arith)))
]

-- The tables of pipes are as they were.
pub proc_map_fd-tables :
    (k : Kernel) (pid fd : ℤ) (d : FileDescriptor) (r : ℤ) (k' : Kernel)
    → proc_map_fd k pid fd d ≡ returned (r, k')
    → (k'.pipe_table ≡ k.pipe_table) × (k'.pipe_fd_table ≡ k.pipe_fd_table)
unfolding proc_map_fd map_at
proc_map_fd-tables k pid fd d r k' e = (ground (arith, e), ground (arith, e))

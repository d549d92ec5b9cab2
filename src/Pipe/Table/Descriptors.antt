-- ===== src/Pipe/Table/Descriptors.antt =====
-- The table of descriptors of Kernel/ipc/pipe.c: what empty_fd_table takes off it, and what get_pipe_fd
-- finds on it.
use tpe_so_2023_tp.Base.{
  ℕ, zero, suc, ◌<◌, ◌≡◌, refl, ◌∙◌, arith, true, Option, none, some, ltb, ◌==◌, if◌then◌else◌, ℤ,
  first_index-FirstIndex, FirstIndex-none,
}
use tpe_so_2023_tp.Kernel.{Kernel, PipeFd}
use tpe_so_2023_tp.Pipe.Table.{
  empty_fd_table, empty_below, empty_one, is_emptied, get_pipe_fd, is_pipe_fd,
}

-- An entry of the table after those of a pipe, process and descriptor are taken off it.
abbrev pub left_of : ℤ → ℤ → ℤ → Option PipeFd → Option PipeFd
left_of pipe_id pid fd none = none
left_of pipe_id pid fd (some d) = if is_emptied pipe_id pid fd d then none else some d

abbrev SameButFds : Kernel → Kernel → Type 0
SameButFds k k' =
    (k'.pipe_table ≡ k.pipe_table)
    × (k'.processes ≡ k.processes)
    × (k'.core.scheduler ≡ k.core.scheduler)

empty_one_lem :
    (k : Kernel) (pipe_id pid fd : ℤ) (i j : ℕ)
    → (SameButFds k (empty_one k pipe_id pid fd i))
      × ((empty_one k pipe_id pid fd i).pipe_fd_table j
          ≡ (if j == i then left_of pipe_id pid fd (k.pipe_fd_table j) else k.pipe_fd_table j))
unfolding empty_one
empty_one_lem k pipe_id pid fd i j = ((ground arith, ground arith, ground arith), ground arith)

empty_below_lem :
    (n : ℕ) (k : Kernel) (pipe_id pid fd : ℤ) (j : ℕ)
    → (SameButFds k (empty_below n k pipe_id pid fd))
      × ((empty_below n k pipe_id pid fd).pipe_fd_table j
          ≡ (if ltb j n then left_of pipe_id pid fd (k.pipe_fd_table j) else k.pipe_fd_table j))
unfolding empty_below
empty_below_lem zero k pipe_id pid fd j = ((refl, refl, refl), ground arith)
empty_below_lem (suc n) k pipe_id pid fd j =
    let (s, e) = empty_below_lem n k pipe_id pid fd j in
    let (s', e') = empty_one_lem (empty_below n k pipe_id pid fd) pipe_id pid fd n j in
    ((s'.0 ∙ s.0, s'.1 ∙ s.1, s'.2 ∙ s.2), ground (arith, e, e'))

-- empty_fd_table takes off exactly the entries of the pipe whose process and descriptor are those given, -1
-- standing for any, and changes no other entry, no pipe, no process and nothing of the scheduler.
pub empty_fd_table_lem :
    (k : Kernel) (pipe_id pid fd : ℤ) (j : ℕ)
    → j < 512
    → let k' = empty_fd_table k pipe_id pid fd in
      (k'.pipe_fd_table j ≡ left_of pipe_id pid fd (k.pipe_fd_table j))
      × (k'.pipe_table ≡ k.pipe_table)
      × (k'.processes ≡ k.processes)
      × (k'.core.scheduler ≡ k.core.scheduler)
unfolding empty_fd_table
empty_fd_table_lem k pipe_id pid fd j h =
    let (s, e) = empty_below_lem 512 k pipe_id pid fd j in (ground (arith, e), s.0, s.1, s.2)

-- Every entry of a process's descriptor is of the pipe `pipe_id`.
abbrev pub OnlyOf : Kernel → ℤ → ℤ → ℤ → Type 0
OnlyOf k pipe_id pid fd =
    (j : ℕ)
    → j < 512
    → is_pipe_fd k pid fd j ≡ true
    → left_of pipe_id pid fd (k.pipe_fd_table j) ≡ none

-- After empty_fd_table with a pipe and one of its descriptors, get_pipe_fd finds NULL for that descriptor
-- when all its entries were of that pipe.
pub emptied_not_found :
    (k : Kernel) (pipe_id pid fd : ℤ)
    → OnlyOf k pipe_id pid fd
    → get_pipe_fd (empty_fd_table k pipe_id pid fd) pid fd ≡ none
unfolding get_pipe_fd
emptied_not_found k pipe_id pid fd only =
    let k' = empty_fd_table k pipe_id pid fd in
    let none_left =
      FirstIndex-none (first_index-FirstIndex 512 0 512 (is_pipe_fd k' pid fd) refl)
        (λ j lo h. ground (arith, (empty_fd_table_lem k pipe_id pid fd j h).0, only j h)) in
    ground (arith, none_left)

-- ===== src/Semaphore/Names.antt =====
-- sem_open of Kernel/ipc/semaphore.c: a name stands for one semaphore.
use tpe_so_2023_tp.Base.{
  ℕ, ◌+◌, ◌%◌, ◌<◌, ◌≡◌, ◌≢◌, arith, true, false, List, Option, none, some, pos, minus_one,
  FirstIndex, FirstIndex-eq, FirstIndex-none, first_index-FirstIndex,
}
use tpe_so_2023_tp.Queue.{Core}
use tpe_so_2023_tp.Text.{strlen, strcpy}
use tpe_so_2023_tp.Text.Compare.{text, strcmp_iff}
use tpe_so_2023_tp.Semaphore.{
  SemInfo, Semaphores, answers, create, is_named, is_unused, search_semaphore, search_next,
  sem_open,
}

-- search_semaphore and search_next find the first entry that they look for, or none is there.
pub searches_lem :
    (s : Semaphores) (name : List ℕ)
    → FirstIndex 0 32 (is_named s name) (search_semaphore s name)
      × FirstIndex 0 32 (is_unused s) (search_next s)
unfolding search_semaphore search_next
searches_lem s name =
    (first_index-FirstIndex 32 0 32 _ (omega arith), first_index-FirstIndex 32 0 32 _ (omega arith))

-- Opening a name that a semaphore of the table has returns the first such semaphore and counts one
-- user more; the value that is asked for has no effect, and no other entry changes.
pub sem_open_existing :
    (c : Core) (s : Semaphores) (name : List ℕ) (initial_value i : ℕ) (info : SemInfo)
    → s.big_lock ≡ 0
    → i < 32
    → s.semaphores i ≡ some info
    → text name ≡ text info.name
    → ((j : ℕ) → j < i → is_named s name j ≡ false)
    → let (a, c', s') = sem_open c s name initial_value in
      (a ≡ answers (pos i))
      × (c' ≡ c)
      × (s'.semaphores i
          ≡ some (record info { linked_processes = (info.linked_processes + 1) % 256 }))
      × ((j : ℕ) → j ≢ i → s'.semaphores j ≡ s.semaphores j)
unfolding sem_open
sem_open_existing c s name initial_value i info big lt here same before =
    let s1 = record s { big_lock = 1 } in
    let passes : is_named s1 name i ≡ true =
      ground (arith, here, (strcmp_iff name info.name).0.1 same) in
    let at : search_semaphore s1 name ≡ pos i =
      FirstIndex-eq i (searches_lem s1 name).0 (omega arith) lt passes (λ j _ h. before j h) in
    (ground (arith, at), ground (arith, at), ground (arith, at), λ j h. ground (arith, at))

-- An entry that holds a new semaphore of that value and name.
abbrev pub IsNew : ℕ → List ℕ → Option SemInfo → Type 0
IsNew value name none = ⊥
IsNew value name (some info) =
    (info.value ≡ value) × (info.lock ≡ 0) × (info.linked_processes ≡ 1) × (info.name ≡ strcpy name)

-- Opening a new name, with an entry of the table free and room on the heap for a SemInfo and its
-- queue, returns the first free entry: a semaphore with the value that is asked for, one user, its
-- lock free and the name's text. No other entry changes.
pub sem_open-IsNew :
    (c : Core) (s : Semaphores) (name : List ℕ) (initial_value i : ℕ)
    → s.big_lock ≡ 0
    → ((j : ℕ) → j < 32 → is_named s name j ≡ false)
    → search_next s ≡ pos i
    → strlen name < 32
    → (create c s (pos i) initial_value).0 ≡ pos i
    → let (a, _, s') = sem_open c s name initial_value in
      (a ≡ answers (pos i))
      × IsNew initial_value name (s'.semaphores i)
      × ((j : ℕ) → j ≢ i → s'.semaphores j ≡ s.semaphores j)
unfolding sem_open create search_next
sem_open-IsNew c s name initial_value i big unnamed next short made =
    let s1 = record s { big_lock = 1 } in
    let absent : search_semaphore s1 name ≡ minus_one =
      FirstIndex-none (searches_lem s1 name).0 (λ j _ h. unnamed j h) in
    let free : search_next s1 ≡ pos i = next in
    (
      ground (arith, absent, free),
      ground (arith, absent, free),
      λ j h. ground (arith, absent, free),
    )

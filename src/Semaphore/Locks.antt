-- ===== src/Semaphore/Locks.antt =====
-- The locks of Kernel/ipc/semaphore.c: no call that starts with all of them free spins, and none
-- leaves one held.
use tpe_so_2023_tp.Base.{ℕ, ◌≡◌, ◌≢◌, arith, List, Option, none, some, ℤ, pos_part}
use tpe_so_2023_tp.Queue.{Core}
use tpe_so_2023_tp.Semaphore.{
  SemInfo, Semaphores, spins, faults, Result, create, sem_open, sem_close, sem_wait, sem_wait_again,
  sem_post, search_semaphore, search_next,
}

abbrev pub lock_of : Option SemInfo → ℕ
lock_of none = 0
lock_of (some info) = info.lock

abbrev pub LocksFree : Semaphores → Type 0
LocksFree s = (s.big_lock ≡ 0) × ((i : ℕ) → lock_of (s.semaphores i) ≡ 0)

-- A result that did not spin, with the locks free again unless it is a fault.
abbrev pub FreeAt : ℕ → Result → Type 0
FreeAt i (a, c, s) = (a ≢ spins) × (a ≢ faults → (s.big_lock ≡ 0) × (lock_of (s.semaphores i) ≡ 0))

post-FreeAt :
    (c : Core) (s : Semaphores) (sem : ℤ) (i : ℕ)
    → s.big_lock ≡ 0
    → lock_of (s.semaphores i) ≡ 0
    → lock_of (s.semaphores (pos_part sem)) ≡ 0
    → FreeAt i (sem_post c s sem)
unfolding sem_post
post-FreeAt c s sem i b h k = ground arith

wait-FreeAt :
    (c : Core) (s : Semaphores) (sem : ℤ) (i : ℕ)
    → s.big_lock ≡ 0
    → lock_of (s.semaphores i) ≡ 0
    → lock_of (s.semaphores (pos_part sem)) ≡ 0
    → FreeAt i (sem_wait c s sem)
unfolding sem_wait
wait-FreeAt c s sem i b h k = ground arith

again-FreeAt :
    (c : Core) (s : Semaphores) (sem : ℤ) (pid i : ℕ)
    → s.big_lock ≡ 0
    → lock_of (s.semaphores i) ≡ 0
    → lock_of (s.semaphores (pos_part sem)) ≡ 0
    → FreeAt i (sem_wait_again c s sem pid)
unfolding sem_wait_again
again-FreeAt c s sem pid i b h k = ground arith

close-FreeAt :
    (c : Core) (s : Semaphores) (sem : ℤ) (i : ℕ)
    → s.big_lock ≡ 0
    → lock_of (s.semaphores i) ≡ 0
    → lock_of (s.semaphores (pos_part sem)) ≡ 0
    → FreeAt i (sem_close c s sem)
unfolding sem_close
close-FreeAt c s sem i b h k = ground arith

open-FreeAt :
    (c : Core) (s : Semaphores) (name : List ℕ) (initial_value i : ℕ)
    → s.big_lock ≡ 0
    → lock_of (s.semaphores i) ≡ 0
    → ((j : ℕ) → lock_of (s.semaphores j) ≡ 0)
    → FreeAt i (sem_open c s name initial_value)
unfolding sem_open create
open-FreeAt c s name initial_value i b h all =
    let s1 = record s { big_lock = 1 } in
    ground (arith, all (pos_part (search_semaphore s1 name)), all (pos_part (search_next s1)))

-- The calls of the interface, and the second half of a sem_wait that slept.
pub data Call : Type 0 where
  opens : List ℕ → ℕ → Call
  closes waits posts : ℤ → Call
  waits_again : ℤ → ℕ → Call

pub perform : Core → Semaphores → Call → Result
perform c s (opens name value) = sem_open c s name value
perform c s (closes sem) = sem_close c s sem
perform c s (waits sem) = sem_wait c s sem
perform c s (posts sem) = sem_post c s sem
perform c s (waits_again sem pid) = sem_wait_again c s sem pid

call-FreeAt :
    (c : Core) (s : Semaphores) (call : Call) (i : ℕ) → LocksFree s → FreeAt i (perform c s call)
unfolding perform
call-FreeAt c s (opens name value) i v = open-FreeAt c s name value i v.0 (v.1 i) v.1
call-FreeAt c s (closes sem) i v = close-FreeAt c s sem i v.0 (v.1 i) (v.1 (pos_part sem))
call-FreeAt c s (waits sem) i v = wait-FreeAt c s sem i v.0 (v.1 i) (v.1 (pos_part sem))
call-FreeAt c s (posts sem) i v = post-FreeAt c s sem i v.0 (v.1 i) (v.1 (pos_part sem))
call-FreeAt c s (waits_again sem pid) i v =
    again-FreeAt c s sem pid i v.0 (v.1 i) (v.1 (pos_part sem))

-- A call made while all the locks are free, as they are at boot, never spins on one, and unless it
-- faults they are all free when it returns, or when the caller goes to sleep inside sem_wait.
pub call_frees_locks :
    (c : Core) (s : Semaphores) (call : Call)
    → LocksFree s
    → let (a, _, s') = perform c s call in (a ≢ spins) × (a ≢ faults → LocksFree s')
call_frees_locks c s call v = (
  (call-FreeAt c s call 0 v).0,
  λ ok. (((call-FreeAt c s call 0 v).1 ok).0, λ i. ((call-FreeAt c s call i v).1 ok).1),
)

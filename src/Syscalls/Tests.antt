-- ===== src/Syscalls/Tests.antt =====
-- System calls of Kernel/idt/syscalls.c on a small kernel, and the theorems on them.
use tpe_so_2023_tp.Base.{ℕ, ◌≡◌, ◌≢◌, refl, arith, some, [], ℤ, pos, Outcome, fault, update}
use tpe_so_2023_tp.Scheduler.{is_active, ready, blocked, killed}
use tpe_so_2023_tp.Queue.{QueueAdt}
use tpe_so_2023_tp.Kernel.{Kernel}
use tpe_so_2023_tp.Process.{proc_at}
use tpe_so_2023_tp.Sample.{kernel}
use tpe_so_2023_tp.Syscalls.{
  Syscall, syscalls, syscall_dispatcher, block_handler, waitpid_handler, sleeps, yield,
}
use tpe_so_2023_tp.Syscalls.Waiting.{Becomes, block_handler_lem, IsForgotten, waitpid_handler_full}

ready_ne : ready ≢ killed
ready_ne e = ground (arith, e)

block_handler_lem_example :
    Becomes kernel.core.scheduler 2 blocked (block_handler kernel.core.scheduler (pos 2))
unfolding is_active
block_handler_lem_example = block_handler_lem kernel.core.scheduler 2 refl ready_ne

abbrev waiters : QueueAdt
waiters = record { addr = 8; first = []; last = 0; count = 0 }

-- Process 2 has a queue of those that wait for it, and the heap is full.
abbrev full_kernel : Kernel
full_kernel = record kernel {
  core = record kernel.core { memory = record { answer = λ cs n. 0; calls = [] } };
  processes =
      update kernel.processes 2 (record (kernel.processes 2) { waiting_pids = some waiters });
}

waitpid_handler_full_example :
    (k' : Kernel) × ((waitpid_handler full_kernel (pos 2) ≡ sleeps k')
      × ((proc_at k' (pos 2)).waiting_pids ≡ some waiters)
      × IsForgotten k' 1 (pos 2))
unfolding is_active
waitpid_handler_full_example =
    waitpid_handler_full full_kernel 1 (pos 2) waiters refl refl refl refl refl tt refl

number_158 : syscalls 158 ≡ some yield
unfolding syscalls
number_158 = refl

out_of_table : (handler : Syscall → ℕ → Outcome (ℤ × ℕ)) → syscall_dispatcher handler 7 400 ≡ fault
unfolding syscall_dispatcher
out_of_table handler = refl

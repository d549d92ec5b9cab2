-- ===== src/Lib.antt =====
-- A verification library of the kernel in Kernel/: a teaching operating system with a round-robin
-- scheduler, processes, semaphores and pipes, on one processor. The C functions are translated one by
-- one, under their own names, into functions on explicit state; the theorems are about those functions.
--
-- The parts and their files.
-- - Scheduler.antt: Kernel/processes/scheduler.c. The static variables are the record `Scheduler`. A
--   process's entry is `ProcessState`; `sch_switch` is what the timer and a yield run.
-- - Memory.antt: Kernel/include/memoryManager.h, as its clients see it. The state is the list of
--   the calls made so far, and the address that mm_alloc answers is a function of it, so that either
--   of the two allocators of Kernel/drivers fits.
-- - Buddy.antt: Kernel/drivers/buddyMemoryManager.c, one of the two allocators; the static variables are the
--   record `Buddy`, and the array of tree nodes in it a function of the index.
-- - FreeList.antt: Kernel/drivers/freeListMemoryManager.c, the other one. The headers of the blocks are a
--   function of the address; the proofs speak of the list of addresses and sizes that they link.
-- - Queue.antt: Kernel/libc/queue.c, the queue of pids on which processes wait. It changes the heap and,
--   by sch_unblock, the scheduler; the two together are the record `Core`.
-- - Semaphore.antt: Kernel/ipc/semaphore.c. A call that blocks ends with the answer `sleeps` where the
--   code calls sch_yield, and goes on with `sem_wait_again`.
-- - Kernel.antt: the process table, the pipes' tables and, below them, the heap and the scheduler, which
--   processes and pipes change between them, as the record `Kernel`.
-- - Process.antt: Kernel/processes/process.c. Process/Life.antt creates and kills processes,
--   Process/Descriptors.antt has their file descriptors. A callback is named by the driver that it belongs
--   to; what the file calls through pointers and in assembly is the record `Outside`, an argument.
-- - Pipe.antt: Kernel/ipc/pipe.c. Pipe/Buffer.antt has the ring of bytes of one pipe, Pipe/Table.antt the
--   table of pipes and that of their descriptors (a pipe's name is the pointer that pipe_open was given, and
--   `strings` the text there), Pipe/Callbacks.antt what a process's
--   descriptor calls; a callback that blocks ends with `sleeps`, and goes on with `read_again` or
--   `write_again`. The byte before a pipe's block, which close_callback may read, is the argument `outside`.
-- - Text.antt: Kernel/libc/libc.c. A block of memory or a string is the list of its bytes.
-- - Stdlib.antt: Userland/SampleCodeModule/libc/stdlib.c.
-- - Philosophers.antt: Userland/SampleCodeModule/programs/philosophers.c. Here a philosopher is the call that
--   it makes next, its two calls of asm_sleep included, and a step one call that returns, with the semaphores as numbers, which is what
--   Semaphore.antt makes of them; Philosophers/Setup.antt has the process that starts them, on the list of the
--   system calls made so far and the kernel's answers to them, the record `Answers`.
-- - Keyboard.antt: Kernel/drivers/keyboard.c. The keys that the hardware reports while a run of the interrupt
--   handler lasts are a list; the buffer is an array of 32 bytes with the number of those that wait; a reader that finds nothing ends with `sleeps` and goes on with `read_again`.
-- - Syscalls.antt: Kernel/idt/syscalls.c, on the record `Kernel`. A handler that only passes its arguments to a
--   function of a component has no definition where that function's own state is apart, as for semaphores.
-- - Sample.antt: a kernel with a process and a pipe, on which theorems are tried.
-- - Base.antt: Boolean tests, lists, C integers and the search of a table.
--
-- Integers. Unsigned numbers are natural numbers and wrap where the code may make them wrap, `% 2 ^ w`
-- written out; pids, priorities and results are of a type of integers, with -1 as `minus_one`. A
-- pointer is its address, NULL being 0, or an `Option`. An array of fixed size is a function of the
-- index. A read through NULL, a division by zero or a write past an array is the outcome `fault`.
--
-- Loops. The search of the scheduler runs on a bound of 32 rounds, one for each process. proc_kill runs on a bound on its depth and on the children of each
-- process; write_callback on two rounds more than there are bytes, and a theorem below says that
-- it never reaches them. The walks of the allocator's tree run on its depth of 16; the loop of get_level on the 64 bits of a size. The digits
-- of a number run on a bound of 64, one for each bit. The two loops over the free list run on the end's address, as
-- every step leads to a higher one. All other loops recur on the list or the
-- table that they walk.
--
-- Not modelled: the other device drivers, interrupt and boot code, assembly routines, what the system
-- calls ps and meminfo print, and the other programs of Userland. The bytes of the heap are in the model only where a
-- component keeps them, so mm_realloc's copy is left out.
-- asm_create_process_context is an argument of sch_on_process_create. The asm_lock of a semaphore
-- either takes a free lock or spins.
pub mod Base
pub mod Scheduler
pub mod Memory
pub mod Queue
pub mod Pipe
pub mod Text
pub mod Semaphore
pub mod Kernel
pub mod Philosophers
pub mod Process
pub mod Buddy
pub mod FreeList
pub mod Stdlib
pub mod Keyboard
pub mod Syscalls
pub mod Sample

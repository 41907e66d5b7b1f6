-- ===== src/Lib.antt =====
-- PandOS+, a nucleus for the uMPS3 emulator: process control blocks and semaphores (phase1), and a
-- nucleus with a scheduler, system calls and interrupts over them (phase2), under a support level with
-- virtual memory (phase3).
--
-- The parts and the files that model them.
--   Base            names of the libraries that are passed on, Boolean tests, lists and stores.
--   Machine         words of 32 bits, `state_t`, `context_t` (lib/pandos_types.h).
--   Pcb             phase1/pcb.c: the table of PCBs, `initPcbs`, `freePcb`, `allocPcb` with the pid
--                   counter, `getProcessByPid`. Children: Pids (search and generation of pids),
--                   Alloc (the invariant of the table), Created (the PCB that is returned), Release.
--   ProcQueue       phase1/pcb.c: process queues, `insertProcQ` to `outProcQ`.
--   ProcTree        phase1/pcb.c: the tree of processes, `insertChild`, `removeChild`, `outChild`.
--                   Children: Family, Count.
--   Asl             phase1/asl.c: the active semaphore list. Children: Search, View (a queue for each
--                   semaphore, the abstract state), Invariant, Tree, Blocked (`insertBlocked`), Unblocked
--                   (the other operations).
--   Kernel          the globals of phase2/initial.c and phase2/scheduler.c, and commands over them.
--   Platform        what the emulator's headers and the linker fix, as a parameter.
--   Scheduler       phase2/scheduler.c and the timers of phase2/initial.c.
--   Devices         phase2/initial.c: the semaphores of devices.
--   Semaphore       `semP` and `semV` of phase1/asl.c. They call the scheduler, so that they act on
--                   the state of the nucleus. Children: Steps, Blocking.
--   Init            phase2/initial.c: `main`. Child: Boot.
--   Syscalls, Exceptions   phase2/exceptions.c. Children: Detach and Kill (the fuel of `_killProcess`),
--                   Io.
--   Interrupts      phase2/interrupts.c. Children: Clock, Timer, Device.
--   Nucleus         the state of phase2 as a whole, between two entries of the exception handler: a
--                   predicate on the tables, the queues, the counters and the current process, and
--                   what the nucleus ends with. Children: Frame and Facts (changes that keep it, what
--                   follows from it), Ready (`scheduler`), Newborn and Create (`_createProcess`),
--                   Waiting and Semaphores (`semP`, `semV`), Leaving, Detach, Below, Dying and Kill
--                   (`_killProcess`), Calls and Terminate (the system calls), Dispatch
--                   (`systemcallHandler`), Interrupts and Devices (phase2/interrupts.c), Handler
--                   (`exceptionHandler`), Boot (`main`), Reach (runs of the nucleus),
--                   Slice and Turns (processes of low priority, one time slice after the other).
--   Tlb             the TLB of the processor as a parameter, and `_updateTLB` of phase3/vmSupport.c.
--                   Child: Bits (the binary digits of words).
--   Swap            phase3/vmSupport.c: the swap pool, between the P and the V on its semaphore.
--                   Children: Frames (`_getFrame`, `freeFrames`), Owners (the pages in the frames),
--                   PageTable (`initPageTable`), Coherence (the TLB against the page tables),
--                   Requests (the pool when no request fails).
--   World           what the processes of the support level share, and commands of one of them; `P`
--                   and `V` of lib/utilities.c.
--   InitProc        phase3/initProc.c. Children: Start (`test`), Frames (the stacks), Startup (the run
--                   of `test`).
--   SysSupport      phase3/sysSupport.c, with `freeFrames` and `releaseSwapPoolSem`. Children: Output
--                   and Terminal (the calls that write), Input (the call that reads), Release and Clean
--                   (the trap handler), Held and Dispatch (the semaphores held during a call).
--   Pager           phase3/vmSupport.c: the handlers of page faults as a process runs them. Children:
--                   Outcome (how they end), Refines (what they do to the pool of Swap).
--   Klog            lib/klog.c. Child: Text.
--   Utilities       `memcpy` of lib/utilities.c. Child: Copy.
--   X/Tests         stores and states at which the theorems are applied.
--
-- How the code corresponds to the model. A pointer to a PCB or a descriptor is its index in the
-- static table, a list anchored at a `list_head` is the sequence of what it links, an `int *` is the
-- address of a word in `mem`, and NULL is `none` or the address 0xffffffff of lib/listx.h. Statics
-- and globals are the fields of `PcbStore`, `AslStore` and `Kernel`. A function that may not return
-- is a command `Kernel → Run A`: it returns a value, or leaves the nucleus by HALT, PANIC, WAIT,
-- LDST or LDCXT, or by a read through NULL. Counters and pids wrap at 2 ^ 32. The saved state at the
-- exception, `PREV_PROCESSOR_STATE`, is the field `prev_state`.
--
-- At the support level a handler is a command `World → Act A` of the process that runs it: it returns,
-- or ends by LDST, by TERMPROCESS or by PANIC. Each system call to the nucleus counts in `calls`, is put
-- in front of `log`, gets its result from `answer`, and lets the other processes change what is shared
-- by `others`; both are any functions, and a theorem names what it asks of them. The owner of a
-- semaphore is kept beside it, the waiting itself is in the nucleus.
--
-- Bounds and fuel. The tables have `MAXPROC` = 20 entries. The search for an unused pid has fuel for
-- two rounds per process in use and two more: the pids in use differ, so that the counter meets each
-- at most once before it wraps and once after. The loop of the interval timer has fuel for 20
-- processes and the last test. The loop of `_readTerminal` has no bound, and ends with the line if
-- its fuel is more than the characters of the line. `_killProcess` has
-- 40 steps, two for each PCB: a PCB is entered once and taken once from its parent's list.
--
-- The nucleus as a whole. What the processes and the machine do between two entries is any change of
-- the memory, the states and support structures that the processes hold, the saved state and the
-- timers. The hypotheses on an exception are those that the code relies on: a device interrupts when a
-- process waits for it, and no semaphore lies at NULL. The tree is one of all PCBs: nothing reads
-- the links of a free PCB, so that at the start they count as empty.
--
-- Not modelled: the test programs of the phases; for a process of the support level, a P that blocks
-- for ever, and steps of the other processes between two of its system calls; the masking of interrupts around the changes of a page
-- table entry; the assignment of addresses, which is the emulator's and the linker's. The
-- list macros of lib/listx.h are a copy of those of the Linux kernel. Registers that the nucleus
-- does not name are not fields of `State`.
pub mod Base
pub mod Machine
pub mod Nucleus
pub mod Pcb
pub mod ProcQueue
pub mod ProcTree
pub mod Asl
pub mod Kernel
pub mod Platform
pub mod Scheduler
pub mod Devices
pub mod Semaphore
pub mod Syscalls
pub mod Interrupts
pub mod Exceptions
pub mod Tlb
pub mod Swap
pub mod Init
pub mod World
pub mod InitProc
pub mod SysSupport
pub mod Pager
pub mod Klog
pub mod Utilities

-- ===== src/Nucleus/InterruptTests.antt =====
-- A disk at work: the first process asks for its input, nobody runs, and the disk interrupts.
use pandos_plus.Base.{ℕ, ◌+◌, ◌-◌, ◌≡◌, refl, subst, ◌==◌, if◌then◌else◌, arith, [], ◌∷◌, zero, suc}
use Prim.Native.Nat.{bit_and}
use pandos_plus.Asl.{
  add_active_semaphore, add_free_semaphore, asl_loop, enqueue, get_free_semaphore, head_blocked,
  init_asl, init_semaphore, insert_blocked, insert_sem, peek_active_semaphore, remove_blocked,
  scan_sems, unblock, update_active_semaphore,
}
use pandos_plus.Pcb.{
  add_pid, alloc_pcb, generate_pid, init_entry, init_loop, init_pcb, init_pcbs, insert_back,
  next_pid, skip_used,
}
use pandos_plus.Semaphore.{block_on, proceed, sem_p, sem_v, suspend, take_blocked, wake}
use pandos_plus.Exceptions.{call, call_p, do_io, systemcall_handler}
use pandos_plus.Scheduler.{
  choose, dispatch, get_next_process, idle, insert_ready, pick_high, run_next, scheduler,
  set_process_blocked, set_process_ready, start_plt, stck, timer_flush, update_process_cpu_time,
}
use pandos_plus.Init.{
  create_first_process, first_process, init_device_semaphores, init_globals, init_pass_up_vector,
  main, zero_semaphores,
}
use pandos_plus.Interrupts.{
  device_handler, device_interrupt_return, device_loop, interrupt_handler, interrupt_handler_exit,
  next_tick, non_terminal_handler, reset_interval_timer, select_handler, serve,
}
use pandos_plus.Devices.{device_index, get_io_device_semaphore, is_soft_blocked}
use pandos_plus.ProcQueue.{
  out_proc_q, empty_proc_q, head_proc_q, insert_proc_q, mk_empty_proc_q, remove_proc_q,
}
use pandos_plus.Pcb.Tests.{blank_state}
use pandos_plus.Asl.View.{waiting}
use pandos_plus.Kernel.{Kernel, wait, ldst, left, pcb_of, state_after}
use pandos_plus.Scheduler.Queues.{held}
use pandos_plus.Exceptions.{exception_handler}
use pandos_plus.Nucleus.{in_use, queued, IsConsistent, Keeps}
use pandos_plus.Nucleus.Dispatch.{IsServed}
use pandos_plus.Nucleus.Devices.{
  IsPending, IsFirst, IsExpected, IsAwaited, disk, flash, ethernet, printer, terminal,
}
use pandos_plus.Nucleus.Handler.{IsRaised, exception_handler-Keeps}
use pandos_plus.Nucleus.Reach.{
  Meanwhile, elapse, Reachable, entered, Reachable-IsConsistent, Reachable-placed,
}
use pandos_plus.Nucleus.Tests.{platform, calls, after_boot, after_boot-curr, after_boot-Reachable}

-- The call has the code -5, with the register of the first disk for its command, and the command 2.
abbrev asks : Meanwhile
asks = record calls {
  prev_state = record blank_state {
    cause = 32;
    reg_a0 = 0xffff_fffb;
    reg_a1 = 0x1000_0058;
    reg_a2 = 2;
  };
}

abbrev asking : Kernel
asking = elapse asks after_boot

asking-IsServed : IsServed platform asking
unfolding get_io_device_semaphore device_index
asking-IsServed = record {
  passeren = λ e. absurd (ground (arith, e));
  verhogen = λ e. absurd (ground (arith, e));
  device = λ _. ground arith;
  timer = λ e. absurd (ground (arith, e));
  pid = λ e. absurd (ground (arith, e));
}

asking-IsRaised : IsRaised platform asking
asking-IsRaised = record {
  running = λ _ e. cc (after_boot-curr, e);
  served = λ _. asking-IsServed;
  expected = λ e. absurd (ground (arith, e));
}

asked : Kernel
asked = state_after (exception_handler platform asking)

asked_waits : exception_handler platform asking ≡ left wait asked
unfolding asked after_boot main init_globals init_pass_up_vector init_device_semaphores
    zero_semaphores create_first_process first_process init_pcbs init_loop init_entry alloc_pcb
    init_pcb add_pid generate_pid next_pid insert_back skip_used mk_empty_proc_q insert_proc_q
    empty_proc_q head_proc_q remove_proc_q scheduler run_next dispatch get_next_process choose
    pick_high start_plt timer_flush stck reset_interval_timer next_tick idle init_asl asl_loop
    add_free_semaphore exception_handler systemcall_handler call do_io call_p sem_p suspend block_on
    insert_blocked peek_active_semaphore scan_sems init_semaphore get_free_semaphore
    add_active_semaphore insert_sem enqueue set_process_blocked update_process_cpu_time
    get_io_device_semaphore device_index is_soft_blocked
asked_waits = refl

asked-Reachable : Reachable platform asked
asked-Reachable =
    entered after_boot asked asks wait after_boot-Reachable asking-IsRaised asked_waits tt

asked_queue : waiting asked.tables.asl 200 ≡ 0 ∷ []
unfolding waiting asked after_boot main init_globals init_pass_up_vector init_device_semaphores
    zero_semaphores create_first_process first_process init_pcbs init_loop init_entry alloc_pcb
    init_pcb add_pid generate_pid next_pid insert_back skip_used mk_empty_proc_q insert_proc_q
    empty_proc_q head_proc_q remove_proc_q scheduler run_next dispatch get_next_process choose
    pick_high start_plt timer_flush stck reset_interval_timer next_tick idle init_asl asl_loop
    add_free_semaphore exception_handler systemcall_handler call do_io call_p sem_p suspend block_on
    insert_blocked peek_active_semaphore scan_sems init_semaphore get_free_semaphore
    add_active_semaphore insert_sem enqueue set_process_blocked update_process_cpu_time
    get_io_device_semaphore device_index is_soft_blocked
asked_queue = refl

-- The line of the disks is pending, and the first disk is the one that interrupts.
abbrev completes : Meanwhile
completes = record calls {
  mem = λ a. if a == 0x1000_0040 then 1 else 0;
  prev_state = record blank_state { cause = 0x800 };
}

abbrev completing : Kernel
completing = elapse completes asked

first_disk : (n : ℕ) → IsFirst platform n 1 → n ≡ 0
first_disk zero first = refl
first_disk (suc n) first = absurd (ground (arith, first.before 0 (omega arith)))

only_disks : (line : ℕ) → IsPending platform (bit_and 0x800 platform.cause_ip_mask) line → line ≡ 3
only_disks _ (disk e) = refl
only_disks _ (flash e) = absurd (ground (arith, e))
only_disks _ (ethernet e) = absurd (ground (arith, e))
only_disks _ (printer e) = absurd (ground (arith, e))
only_disks _ (terminal e) = absurd (ground (arith, e))

disk_awaited : IsAwaited platform 0x1000_0058 asked.tables.asl completes.mem
unfolding get_io_device_semaphore device_index
disk_awaited = (λ empty. cc (empty, asked_queue), ground arith)

at_disk :
    (line n : ℕ)
    → line ≡ 3
    → IsFirst platform n (completes.mem (platform.interrupt_dev (line - 3)))
    → IsAwaited platform (platform.dev_reg_addr line n + 0x4) asked.tables.asl completes.mem
at_disk line n e first =
    let first' =
      subst (λ l. IsFirst platform n (completes.mem (platform.interrupt_dev (l - 3)))) e first in
    rw (e, first_disk n first') disk_awaited

completing-IsExpected : IsExpected platform asked.tables.asl completes.mem asked.curr_process 0x800
completing-IsExpected = record {
  slice = λ e. absurd (ground (arith, e));
  timer = λ e. absurd (ground (arith, e));
  device = λ line n pending other first. at_disk line n (only_disks line pending) first;
  receiver = λ n pending. absurd (omega (arith, only_disks 7 pending));
  transmitter = λ n pending. absurd (omega (arith, only_disks 7 pending));
}

completing-IsRaised : IsRaised platform completing
completing-IsRaised = record {
  running = λ e. absurd (e refl);
  served = λ e. absurd (ground (arith, e));
  expected = λ _. completing-IsExpected;
}

exception_handler-Keeps_example :
    Keeps (λ _ k'. IsConsistent k') (exception_handler platform completing)
exception_handler-Keeps_example =
    exception_handler-Keeps platform completing
      (Reachable-IsConsistent platform asked asked-Reachable) completing-IsRaised

completed : Kernel
completed = state_after (exception_handler platform completing)

completed_resumes :
    exception_handler platform completing ≡ left (ldst (pcb_of completed 0).p_s) completed
unfolding completed asked after_boot main init_globals init_pass_up_vector init_device_semaphores
    zero_semaphores create_first_process first_process init_pcbs init_loop init_entry alloc_pcb
    init_pcb add_pid generate_pid next_pid insert_back skip_used mk_empty_proc_q insert_proc_q
    empty_proc_q head_proc_q remove_proc_q scheduler run_next dispatch get_next_process choose
    pick_high start_plt timer_flush stck reset_interval_timer next_tick idle init_asl asl_loop
    add_free_semaphore exception_handler systemcall_handler call do_io call_p sem_p suspend block_on
    insert_blocked peek_active_semaphore scan_sems init_semaphore get_free_semaphore
    add_active_semaphore insert_sem enqueue set_process_blocked update_process_cpu_time
    get_io_device_semaphore device_index is_soft_blocked interrupt_handler select_handler
    device_handler device_loop serve non_terminal_handler device_interrupt_return sem_v proceed
    head_blocked wake take_blocked remove_blocked unblock update_active_semaphore set_process_ready
    insert_ready interrupt_handler_exit out_proc_q
completed_resumes = refl

completed-Reachable : Reachable platform completed
completed-Reachable =
    entered asked completed completes (ldst (pcb_of completed 0).p_s) asked-Reachable
      completing-IsRaised completed_resumes tt

Reachable-placed_example :
    queued completed.tables completed.low_readyqueue completed.high_readyqueue 0
      + held 0 completed.curr_process
    ≡ in_use completed.tables.pcbs 0
Reachable-placed_example = Reachable-placed platform completed 0 completed-Reachable

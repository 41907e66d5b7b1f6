-- ===== src/Nucleus/Tests.antt =====
-- The state that `main` leaves, and what the nucleus does from there.
use pandos_plus.Base.{[], ◌∷◌, ◌∙◌, ap, some_injective, ◌≡◌, refl, sym, subst, some, arith, range}
use pandos_plus.Pcb.Tests.{blank_pcbs, blank_state}
use pandos_plus.Asl.Tests.{blank_asl}
use pandos_plus.Devices.Tests.{umps3_at}
use pandos_plus.Semaphore.Tests.{kernel_at}
use pandos_plus.Platform.{Platform}
use pandos_plus.Kernel.{Kernel, ldst, pcb_of, state_after}
use pandos_plus.Pcb.{
  pid_of, init_pcbs, init_loop, init_entry, alloc_pcb, init_pcb, add_pid, generate_pid, next_pid,
  insert_back, skip_used,
}
use pandos_plus.ProcQueue.{mk_empty_proc_q, insert_proc_q, empty_proc_q, head_proc_q, remove_proc_q}
use pandos_plus.Scheduler.{
  insert_ready, scheduler, run_next, dispatch, get_next_process, choose, pick_high, start_plt,
  timer_flush, stck,
}
use pandos_plus.Interrupts.{reset_interval_timer, next_tick}
use pandos_plus.Init.{
  main, init_globals, init_pass_up_vector, init_device_semaphores, zero_semaphores,
  create_first_process, first_process,
}
use pandos_plus.Init.Boot.{main-Boots}
use pandos_plus.Exceptions.{systemcall_handler}
use pandos_plus.ProcTree.{insert_child}
use pandos_plus.Syscalls.{new_process, create_process, kill_process, kill_fuel}
use pandos_plus.Nucleus.Create.{GivesPid, Creates, create_process-Creates}
use pandos_plus.Nucleus.Kill.{Frees, kill_process-Frees}
use pandos_plus.Nucleus.Dispatch.{IsServed, systemcall_handler-Keeps}
use pandos_plus.Nucleus.Slice.{Runs}
use pandos_plus.Nucleus.Turns.{turns, turns-Runs}
use pandos_plus.Nucleus.Reach.{Meanwhile, elapse, Reachable, booted}
use pandos_plus.Nucleus.{Returns, in_use, IsConsistent, Keeps}
use pandos_plus.Nucleus.Boot.{IsTreeless, main-Keeps}

abbrev pub platform : Platform
platform = umps3_at 96 200

abbrev pub before_boot : Kernel
before_boot = kernel_at (record { pcbs = blank_pcbs; asl = blank_asl }) 1

blank-IsTreeless : IsTreeless blank_pcbs
blank-IsTreeless q = (refl, refl)

main-Keeps_example : Keeps (λ _ _. ⊥) (main platform before_boot)
main-Keeps_example = main-Keeps platform before_boot blank-IsTreeless

unfoldable pub after_boot : Kernel
after_boot = state_after (main platform before_boot)

pub after_boot-IsConsistent : IsConsistent after_boot
unfolding after_boot
after_boot-IsConsistent =
    subst (Keeps λ _ _. ⊥) (main-Boots platform before_boot).0
      (main-Keeps platform before_boot blank-IsTreeless)

pub after_boot-curr : after_boot.curr_process ≡ some 0
unfolding after_boot
after_boot-curr = (main-Boots platform before_boot).1

after_boot-free : after_boot.tables.pcbs.pcb_free ≡ range 1 19
unfolding after_boot main init_globals init_pass_up_vector init_device_semaphores zero_semaphores
    create_first_process first_process init_pcbs init_loop init_entry alloc_pcb init_pcb add_pid
    generate_pid next_pid insert_back skip_used mk_empty_proc_q insert_proc_q empty_proc_q
    head_proc_q remove_proc_q scheduler run_next dispatch get_next_process choose pick_high
    start_plt timer_flush stck reset_interval_timer next_tick
after_boot-free = refl

second_pid :
    ((alloc_pcb after_boot.tables.pcbs).0 ≡ some 1)
    × (pid_of (alloc_pcb after_boot.tables.pcbs).1 1 ≡ 2)
unfolding after_boot main init_globals init_pass_up_vector init_device_semaphores zero_semaphores
    create_first_process first_process init_pcbs init_loop init_entry alloc_pcb init_pcb add_pid
    generate_pid next_pid insert_back skip_used mk_empty_proc_q insert_proc_q empty_proc_q
    head_proc_q remove_proc_q scheduler run_next dispatch get_next_process choose pick_high
    start_plt timer_flush stck reset_interval_timer next_tick
second_pid = (refl, refl)

pub after_boot-GivesPid : GivesPid after_boot.tables.pcbs
after_boot-GivesPid p e one =
    let same : 1 ≡ p = some_injective 1 p (sym second_pid.0 ∙ e) in
    absurd (omega (arith, one, second_pid.1, ap (pid_of (alloc_pcb after_boot.tables.pcbs).1) same))

first-uses : in_use after_boot.tables.pcbs 0 ≡ 1
first-uses = after_boot-IsConsistent.1 0 after_boot-curr

create_process-Creates_example : Creates 0 after_boot (create_process after_boot)
create_process-Creates_example =
    create_process-Creates after_boot 0 1 (range 2 18) after_boot-curr after_boot-IsConsistent
      after_boot-GivesPid after_boot-free

kill_process-Frees_example :
    Returns (λ _. Frees 0 after_boot) (kill_process platform kill_fuel 0 after_boot)
kill_process-Frees_example =
    kill_process-Frees platform 0 after_boot after_boot-IsConsistent.0 first-uses

-- The first process calls for a new one: the exception code is 8, the call's is -1.
abbrev pub calls : Meanwhile
calls = record {
  mem = λ _. 0;
  states = λ _. blank_state;
  supports = before_boot.supports;
  prev_state = record blank_state { cause = 32; reg_a0 = 0xffff_ffff };
  timer = 0;
  interval_timer = 0;
}

abbrev pub calling : Kernel
calling = elapse calls after_boot

calling-IsServed : IsServed platform calling
calling-IsServed = record {
  passeren = λ e. absurd (omega (arith, e));
  verhogen = λ e. absurd (omega (arith, e));
  device = λ e. absurd (omega (arith, e));
  timer = λ e. absurd (omega (arith, e));
  pid = λ _. after_boot-GivesPid;
}

systemcall_handler-Keeps_example : Keeps (λ _ _. ⊥) (systemcall_handler platform calling)
systemcall_handler-Keeps_example =
    systemcall_handler-Keeps platform calling 0 after_boot-curr after_boot-IsConsistent
      calling-IsServed

pub after_boot-Reachable : Reachable platform after_boot
unfolding after_boot
after_boot-Reachable =
    booted before_boot after_boot (ldst (pcb_of after_boot 0).p_s) blank-IsTreeless
      (main-Boots platform before_boot).0 tt

-- The first process and a new one, which is ready.
sharing : Kernel
sharing = state_after (create_process after_boot)

sharing-IsConsistent : IsConsistent sharing
unfolding sharing
sharing-IsConsistent =
    let c =
      create_process-Creates after_boot 0 1 (range 2 18) after_boot-curr after_boot-IsConsistent
        after_boot-GivesPid after_boot-free in
    subst IsConsistent (sym (ap state_after c.done)) c.consistent

sharing-Runs : Runs 0 (1 ∷ []) sharing
unfolding sharing create_process new_process insert_ready insert_child after_boot main init_globals
    init_pass_up_vector init_device_semaphores zero_semaphores create_first_process first_process
    init_pcbs init_loop init_entry alloc_pcb init_pcb add_pid generate_pid next_pid insert_back
    skip_used mk_empty_proc_q insert_proc_q empty_proc_q head_proc_q remove_proc_q scheduler
    run_next dispatch get_next_process choose pick_high start_plt timer_flush stck
    reset_interval_timer next_tick
sharing-Runs = record {
  consistent = sharing-IsConsistent;
  curr = refl;
  prio = refl;
  ready = refl;
  no_high = refl;
}

-- The bit of the local timer in the cause, and the exception code 0.
abbrev slice_over : Meanwhile
slice_over = record calls { prev_state = record blank_state { cause = 0x200 } }

turns-Runs_example :
    (k' : Kernel) × (turns platform (slice_over ∷ []) sharing ≡ some k') × Runs 1 (0 ∷ []) k'
turns-Runs_example =
    turns-Runs platform [] [] 0 1 (slice_over ∷ []) sharing sharing-Runs ((refl, refl), tt) refl

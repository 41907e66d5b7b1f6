-- ===== src/Init/Boot.antt =====
-- What `main` of phase2/initial.c leaves behind.
use pandos_plus.Base.{ℕ, ◌≡◌, refl, some, [], ◌∷◌}
use pandos_plus.Pcb.{
  pid_of, init_pcbs, init_loop, init_entry, alloc_pcb, init_pcb, add_pid, generate_pid, next_pid,
  insert_back, skip_used,
}
use pandos_plus.ProcQueue.{mk_empty_proc_q, insert_proc_q, empty_proc_q, head_proc_q, remove_proc_q}
use pandos_plus.Platform.{Platform}
use pandos_plus.Kernel.{Kernel, Run, left, ldst, pcb_of, state_after}
use pandos_plus.Scheduler.{
  scheduler, run_next, dispatch, get_next_process, choose, pick_high, start_plt, timer_flush, stck,
}
use pandos_plus.Interrupts.{reset_interval_timer, next_tick}
use pandos_plus.Init.{
  main, init_globals, init_pass_up_vector, init_device_semaphores, zero_semaphores,
  create_first_process, first_process,
}

-- The only process is the first PCB, with the pid 1: it runs at `entry`, and nobody else is ready
-- or waits for a device.
abbrev pub Boots : ℕ → Run (Unit {0}) → Type 0
Boots entry r =
    let k = state_after r in
    (r ≡ left (ldst (pcb_of k 0).p_s) k)
    × (k.curr_process ≡ some 0)
    × ((pcb_of k 0).p_s.pc_epc ≡ entry)
    × (pid_of k.tables.pcbs 0 ≡ 1)
    × (k.tables.pcbs.pid_list ≡ 0 ∷ [])
    × (k.process_count ≡ 1)
    × (k.softblocked_count ≡ 0)
    × (k.low_readyqueue ≡ [])
    × (k.high_readyqueue ≡ [])

-- From any state of the statics and globals, `main` creates the first process, of the pid 1, and the
-- scheduler resumes it at `test`, with nothing else ready and no process counted as soft-blocked.
pub main-Boots : (pf : Platform) (k : Kernel) → Boots pf.test (main pf k)
unfolding main init_globals init_pass_up_vector init_device_semaphores zero_semaphores
    create_first_process first_process init_pcbs init_loop init_entry alloc_pcb init_pcb add_pid
    generate_pid next_pid insert_back skip_used mk_empty_proc_q insert_proc_q empty_proc_q
    head_proc_q remove_proc_q scheduler run_next dispatch get_next_process choose pick_high
    start_plt timer_flush stck reset_interval_timer next_tick
main-Boots pf k = (refl, refl, refl, refl, refl, refl, refl, refl, refl)

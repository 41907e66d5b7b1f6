-- ===== src/Scheduler/Tests.antt =====
-- The scheduler at concrete ready queues.
use pandos_plus.Base.{◌≡◌, refl, none, some, [], ◌∷◌, arith}
use pandos_plus.Asl.Tests.{two_wait}
use pandos_plus.Semaphore.Tests.{kernel_at}
use pandos_plus.Kernel.{Kernel}
use pandos_plus.Scheduler.{get_next_process, choose, pick_high, scheduler}
use pandos_plus.Scheduler.Queues.{chosen, Resumes, scheduler-Resumes}

-- two processes of high priority, and 7 of low priority; 4 has yielded
abbrev ready : Kernel
ready = record (kernel_at two_wait 0) { high_readyqueue = 4 ∷ 2 ∷ []; process_to_skip = some 4 }

abbrev nobody_ready : Kernel
nobody_ready = record (kernel_at two_wait 0) { low_readyqueue = [] }

seven_next : (get_next_process ready).0 ≡ some 7
unfolding get_next_process choose pick_high
seven_next = refl

none_next : (get_next_process nobody_ready).0 ≡ none
unfolding get_next_process choose pick_high
none_next = refl

scheduler-Resumes_example : Resumes 7 (chosen ready) (scheduler ready)
scheduler-Resumes_example = scheduler-Resumes ready (omega arith) 7 seven_next

-- ===== src/Semaphore/Tests.antt =====
-- P and V at a concrete state: processes 3 and 5 wait on the semaphore at address 100.
use pandos_plus.Base.{ℕ, refl, none, some, [], ◌∷◌, arith}
use pandos_plus.Pcb.Tests.{blank_state}
use pandos_plus.Asl.{Tables}
use pandos_plus.Asl.Tests.{
  one_waits, one_waits-Inserted, one_waits-IsIdle, room_for_second, two_wait, two_wait-Inserted,
  two_wait_here,
}
use pandos_plus.Kernel.{Kernel}
use pandos_plus.Semaphore.{sem_p, sem_v}
use pandos_plus.Semaphore.Steps.{Wakes, sem_p-Wakes, sem_v-Wakes}
use pandos_plus.Semaphore.Blocking.{Suspends, sem_p-Suspends, sem_v-Suspends}

-- The tables, with `word` in every word of memory; process 5 runs.
abbrev pub kernel_at : Tables → ℕ → Kernel
kernel_at t word = record {
  tables = t;
  curr_process = some 5;
  process_count = 3;
  softblocked_count = 2;
  low_readyqueue = 7 ∷ [];
  high_readyqueue = [];
  process_to_skip = none;
  timer_start = 0;
  mem = λ _. word;
  states = λ _. blank_state;
  supports = λ _. record {
    sup_asid = 1;
    sup_private_pg_tbl = 0;
    sup_except_state = λ _. blank_state;
    sup_except_context = λ _. record { stack_ptr = 0; status = 0; pc = 0 };
  };
  prev_state = blank_state;
  status = 0;
  timer = 0;
  interval_timer = 0;
  clock = λ n. n;
  reads = 0;
}

sem_p-Wakes_example :
    Wakes 100 3 (kernel_at two_wait 1) (sem_p 100 none none (kernel_at two_wait 1))
sem_p-Wakes_example =
    sem_p-Wakes 100 none none (kernel_at two_wait 1) 3 (5 ∷ []) two_wait-Inserted.valid
      (omega arith) two_wait_here

sem_v-Wakes_example :
    Wakes 100 3 (kernel_at two_wait 0) (sem_v 100 none none (kernel_at two_wait 0))
sem_v-Wakes_example =
    sem_v-Wakes 100 none none (kernel_at two_wait 0) 3 (5 ∷ []) two_wait-Inserted.valid
      (omega arith) two_wait_here

sem_p-Suspends_example :
    Suspends 100 5 blank_state
      (kernel_at one_waits 0)
      (sem_p 100 (some 5) (some blank_state) (kernel_at one_waits 0))
sem_p-Suspends_example =
    sem_p-Suspends 100 5 blank_state (kernel_at one_waits 0) one_waits-Inserted.valid
      one_waits-IsIdle refl room_for_second refl

sem_v-Suspends_example :
    Suspends 100 5 blank_state
      (kernel_at one_waits 1)
      (sem_v 100 (some 5) (some blank_state) (kernel_at one_waits 1))
sem_v-Suspends_example =
    sem_v-Suspends 100 5 blank_state (kernel_at one_waits 1) one_waits-Inserted.valid
      one_waits-IsIdle refl room_for_second refl

-- ===== src/Pcb/Tests.antt =====
-- The PCB table of phase1/pcb.c at concrete stores: after `initPcbs`, and with processes created.
use pandos_plus.Base.{◌≡◌, ◌≢◌, refl, true, none, some, [], ◌∷◌, has, arith, ◌<◌, length, All}
use pandos_plus.Machine.{State, word_mod}
use pandos_plus.Pcb.{
  Pcb, PcbStore, init_pcbs, alloc_pcb, free_pcb, pid_of, next_pid, get_process_by_pid, init_pcb,
  add_pid, generate_pid, init_loop, init_entry, insert_back, skip_used, scan_pids,
}
use pandos_plus.Pcb.Pids.{next_pid-fresh}
use pandos_plus.Pcb.Alloc.{IsValid, alloc_pcb-IsValid}
use pandos_plus.Base.{ℕ, List}
use pandos_plus.Pcb.Created.{Allocated, alloc_pcb-Allocated}
use pandos_plus.Pcb.Release.{init_pcbs-IsValid, free_pcb-IsValid}

abbrev pub blank_state : State
blank_state = record {
  entry_hi = 0;
  cause = 0;
  status = 0;
  pc_epc = 0;
  reg_v0 = 0;
  reg_a0 = 0;
  reg_a1 = 0;
  reg_a2 = 0;
  reg_a3 = 0;
  reg_sp = 0;
  reg_t9 = 0;
}

abbrev pub blank_pcb : Pcb
blank_pcb = record {
  p_parent = none;
  p_child = [];
  p_s = blank_state;
  p_time = 0;
  p_sem_add = 0;
  p_support_struct = 0;
  p_prio = 0;
  p_pid = 0;
}

abbrev pub blank_pcbs : PcbStore
blank_pcbs = record { pcb = λ _. blank_pcb; pcb_free = []; pid_list = []; curr_pid = 0 }

abbrev no_process : PcbStore
no_process = init_pcbs blank_pcbs

abbrev one_process : PcbStore
one_process = (alloc_pcb no_process).1

abbrev two_processes : PcbStore
two_processes = (alloc_pcb one_process).1

two_processes-IsValid : IsValid two_processes
two_processes-IsValid =
    alloc_pcb-IsValid one_process (alloc_pcb-IsValid no_process (init_pcbs-IsValid blank_pcbs))

alloc_pcb-IsValid_example : IsValid (alloc_pcb two_processes).1
alloc_pcb-IsValid_example = alloc_pcb-IsValid two_processes two_processes-IsValid

two_pids : two_processes.pid_list ≡ 0 ∷ 1 ∷ []
unfolding alloc_pcb init_pcbs init_loop init_entry init_pcb add_pid insert_back generate_pid
    next_pid skip_used get_process_by_pid scan_pids
two_pids = refl

one_in_use : has 1 two_processes.pid_list ≡ true
one_in_use = rw two_pids refl

few : length two_processes.pid_list < word_mod
few = rw two_pids (omega arith)

free_pcb-IsValid_example : IsValid (free_pcb 1 two_processes)
free_pcb-IsValid_example = free_pcb-IsValid two_processes 1 two_processes-IsValid one_in_use

next_pid-fresh_example :
    All (λ p. pid_of two_processes p ≢ next_pid two_processes) two_processes.pid_list
next_pid-fresh_example =
    next_pid-fresh two_processes two_processes-IsValid.sorted two_processes-IsValid.counter few

abbrev later_free : List ℕ
later_free = 3 ∷ 4 ∷ 5 ∷ 6 ∷ 7 ∷ 8 ∷ 9 ∷ 10 ∷ 11 ∷ 12 ∷ 13 ∷ 14 ∷ 15 ∷ 16 ∷ 17 ∷ 18 ∷ 19 ∷ []

two_free : two_processes.pcb_free ≡ 2 ∷ later_free
unfolding alloc_pcb init_pcbs init_loop init_entry init_pcb add_pid insert_back generate_pid
    next_pid skip_used get_process_by_pid scan_pids
two_free = refl

alloc_pcb-Allocated_example :
    ((alloc_pcb two_processes).0 ≡ some 2) × Allocated 2 two_processes (alloc_pcb two_processes).1
alloc_pcb-Allocated_example =
    alloc_pcb-Allocated two_processes 2 later_free two_processes-IsValid two_free

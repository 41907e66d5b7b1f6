-- ===== src/InitProc/Start.antt =====
-- `test` of phase3/initProc.c: the process that starts the user processes and waits for their end.
use pandos_plus.Base.{ℕ, zero, suc, ◌+◌, Option, none, some, if◌then◌else◌}
use pandos_plus.Machine.{State}
use pandos_plus.Platform.{Platform}
use pandos_plus.Swap.{Layout, init_swap_structs, no_proc}
use pandos_plus.Scheduler.{process_prio_low}
use pandos_plus.World.{
  Shared, Environment, SemName, swap_pool, master, same_sem, create_process, passeren, Prog, ◌>>=◌,
  ◌>>◌, pure, leave, get, change, syscall, exit_process, undefined, set_user,
}
use pandos_plus.InitProc.{
  allocate, init_contexts, init_free_support_stack, init_processor_state, uproc_max,
}
use pandos_plus.SysSupport.{init_sys_structs}
use pandos_plus.Pager.{in_pool, load_page_table}

-- The addresses of the two handlers, the word of RAMTOP, and what the stack holds where `_startProcess`
-- has its state; how the processor reads a word from the bytes of memory.
pub record Loader : Type 0 where
  pub tlb_handler : ℕ
  pub general_handler : ℕ
  pub ram_top : ℕ
  pub stack_state : ℕ → State
  pub word_at : (ℕ → ℕ) → ℕ → ℕ

abbrev pub set_sem : SemName → ℕ → Shared → Shared
set_sem sem val s = record s {
  sem_val = λ other. if same_sem sem other then val else s.sem_val other;
}

-- `initSwapStructs`, with the semaphore
abbrev pub init_swap : Shared → Shared
init_swap s = in_pool init_swap_structs (set_user swap_pool no_proc (set_sem swap_pool 1 s))

module _ (env : Environment) (pf : Platform) (y : Layout) (l : Loader) where
  unfoldable pub init_support_structure : ℕ → ℕ → Prog (Unit {0})
  init_support_structure asid support = do
    tmp_frame ←
        get (λ s. (init_contexts l.ram_top l.tlb_handler l.general_handler asid support s).0)
    change (λ s. (init_contexts l.ram_top l.tlb_handler l.general_handler asid support s).1)
    page_table ← get (λ s. (s.supports support).sup_private_pg_tbl)
    load_page_table env pf y l.word_at asid page_table tmp_frame

  -- with the structure that `_allocate` gives
  unfoldable pub start_with : ℕ → Option ℕ → Prog (Unit {0})
  start_with asid none = leave undefined
  start_with asid (some support) = do
    init_support_structure asid support
    _ ←
        syscall env (
          create_process (init_processor_state y asid (l.stack_state asid)) process_prio_low
            support)
    pure tt

  unfoldable pub start_process : ℕ → Prog (Unit {0})
  start_process asid = do
    support_structure ← get (λ s. (allocate s).0)
    change (λ s. (allocate s).1)
    start_with asid support_structure

  -- The first loop of `test`, for the processes 1 to `n`.
  unfoldable pub start_loop : ℕ → Prog (Unit {0})
  start_loop zero = pure tt
  start_loop (suc i) = do start_loop i; start_process (i + 1)

  -- The second loop of `test`.
  unfoldable pub wait_loop : ℕ → Prog (Unit {0})
  wait_loop zero = pure tt
  wait_loop (suc rounds) = do _ ← syscall env (passeren master); wait_loop rounds

  unfoldable pub test : Prog (Unit {0})
  test = do
    change (set_sem master 0)
    change init_swap
    change init_sys_structs
    change init_free_support_stack
    start_loop uproc_max
    wait_loop uproc_max
    exit_process env

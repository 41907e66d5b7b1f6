-- ===== src/Exceptions.antt =====
-- phase2/exceptions.c: the exception handler and the dispatch of the system calls.
pub mod Io
pub mod Tests
use Prim.Native.Nat.{bit_and, bit_or}
use pandos_plus.Base.{
  ℕ, ◌+◌, ◌/◌, ◌%◌, ◌^◌, Bool, true, false, not, ◌&&◌, Option, none, some, ltb, leb, ◌==◌,
  if◌then◌else◌, update,
}
use pandos_plus.Machine.{State, Context, null, word_mod}
use pandos_plus.Pcb.{is_alive, get_process_by_pid}
use pandos_plus.Platform.{Platform}
use pandos_plus.Devices.{get_io_device_semaphore}
use pandos_plus.Kernel.{
  Kernel, Support, ldst, ldcxt, Cmd, ◌>>=◌, ◌>>◌, pure, leave, get, modify, deref, pcb_of, put_pcb,
  ok, left, and_then,
}
use pandos_plus.Scheduler.{scheduler, set_process_ready, update_process_cpu_time}
use pandos_plus.Semaphore.{write_word, sem_p, sem_v}
use pandos_plus.Syscalls.{return_value, create_process, kill_fuel, kill_process}
use pandos_plus.Interrupts.{has_bit, interrupt_handler}

abbrev pub pgfault_except : ℕ
pgfault_except = 0

abbrev pub general_except : ℕ
general_except = 1

abbrev pub wordlen : ℕ
wordlen = 4

-- The codes of the system calls, -1 to -10, as words.
abbrev pub createprocess : ℕ
createprocess = 0xffff_ffff

abbrev pub termprocess : ℕ
termprocess = 0xffff_fffe

abbrev pub passeren : ℕ
passeren = 0xffff_fffd

abbrev pub verhogen : ℕ
verhogen = 0xffff_fffc

abbrev pub doio : ℕ
doio = 0xffff_fffb

abbrev pub gettime : ℕ
gettime = 0xffff_fffa

abbrev pub clockwait : ℕ
clockwait = 0xffff_fff9

abbrev pub getsupportptr : ℕ
getsupportptr = 0xffff_fff8

abbrev pub getprocessid : ℕ
getprocessid = 0xffff_fff7

abbrev pub yield_call : ℕ
yield_call = 0xffff_fff6

abbrev pub param1 : Cmd ℕ
param1 = get (λ k. k.prev_state.reg_a1)

-- `V(sem)` and `P(sem)`: always for the current process, in the state at the call.
unfoldable pub call_p : ℕ → Cmd (Unit {0})
call_p sem k = and_then (sem_p sem k.curr_process (some (k.prev_state)) k) (λ _. pure tt)

unfoldable pub call_v : ℕ → Cmd (Unit {0})
call_v sem k = and_then (sem_v sem k.curr_process (some (k.prev_state)) k) (λ _. pure tt)

abbrev pub block_soft : Kernel → Kernel
block_soft k = record k { softblocked_count = (k.softblocked_count + 1) % word_mod }

unfoldable pub get_cpu_time : Cmd (Unit {0})
unfolding update_process_cpu_time
get_cpu_time = do
  update_process_cpu_time
  curr ← get (λ k. k.curr_process)
  p ← deref curr
  modify (λ k. return_value (pcb_of k p).p_time k)

unfoldable pub get_support_ptr : Cmd (Unit {0})
get_support_ptr = do
  curr ← get (λ k. k.curr_process)
  p ← deref curr
  modify (λ k. return_value (pcb_of k p).p_support_struct k)

-- The pid of `p`, or of its parent if the parameter is not 0; 0 if it has none.
unfoldable pub requested_pid : ℕ → Kernel → ℕ
requested_pid p k =
    if k.prev_state.reg_a1 == 0
    then (pcb_of k p).p_pid
    else elim (pcb_of k p).p_parent [ none ↦ 0 | some parent ↦ (pcb_of k parent).p_pid ]

unfoldable pub get_process_id : Cmd (Unit {0})
unfolding requested_pid
get_process_id = do
  curr ← get (λ k. k.curr_process)
  p ← deref curr
  modify (λ k. return_value (requested_pid p k) k)

unfoldable pub yield_cpu : Cmd (Unit {0})
unfolding set_process_ready update_process_cpu_time
yield_cpu = do
  curr ← get (λ k. k.curr_process)
  p ← deref curr
  s ← get (λ k. k.prev_state)
  modify (λ k. put_pcb p (record (pcb_of k p) { p_s = s }) k)
  modify (λ k. record k { process_to_skip = some p })
  set_process_ready p
  update_process_cpu_time
  modify (λ k. record k { curr_process = none })
  scheduler

-- The saved state goes to the support structure, and its context runs.
unfoldable pub pass_up {ℓ} : {A : Type ℓ} → ℕ → ℕ → Cmd A
pass_up index addr k =
    let support = k.supports addr in
    let saved = record support {
      sup_except_state = update support.sup_except_state index k.prev_state;
    } in
    left (ldcxt (support.sup_except_context index))
      (record k { supports = update k.supports addr saved })

module _ (pf : Platform) where
  unfoldable pub do_io : Cmd (Unit {0})
  unfolding call_p
  do_io = do
    command_address ← param1
    command_value ← get (λ k. k.prev_state.reg_a2)
    modify (write_word command_address command_value)
    modify block_soft
    call_p (get_io_device_semaphore pf command_address)

  unfoldable pub clock_wait : Cmd (Unit {0})
  unfolding call_p
  clock_wait = do modify block_soft; call_p pf.semaphore_it

  unfoldable pub kill : ℕ → Cmd (Unit {0})
  kill p = kill_process pf kill_fuel p

  unfoldable pub term_process : Cmd (Unit {0})
  unfolding kill
  term_process = do
    pid ← param1
    if pid == 0
        then (do curr ← get (λ k. k.curr_process); p ← deref curr; kill p; scheduler)
        else (do
          target ← get (λ k. get_process_by_pid pid k.tables.pcbs)
          elim target [ none ↦ pure tt | some q ↦ kill q ]
          curr ← get (λ k. k.curr_process)
          p ← deref curr
          alive ← get (λ k. is_alive k.tables.pcbs p)
          if alive then pure tt else scheduler)

  -- It leaves the nucleus on both branches.
  unfoldable pub pass_up_or_die_handler {ℓ} : {A : Type ℓ} → ℕ → Cmd A
  unfolding kill pass_up
  pass_up_or_die_handler index = do
    curr ← get (λ k. k.curr_process)
    p ← deref curr
    support ← get (λ k. (pcb_of k p).p_support_struct)
    if support == null then kill p >> scheduler else pass_up index support

  unfoldable pub generate_invalid_system_call_trap {ℓ} : {A : Type ℓ} → Cmd A
  unfolding pass_up_or_die_handler
  generate_invalid_system_call_trap = do
    modify (λ k. record k {
      prev_state = record (k.prev_state) {
        cause = bit_or (bit_and k.prev_state.cause 0xffff_ff83) 0x28;
      };
    })
    pass_up_or_die_handler general_except

  -- Any other code traps.
  unfoldable pub call : ℕ → Cmd (Unit {0})
  unfolding create_process term_process call_p call_v do_io get_cpu_time clock_wait get_support_ptr
      get_process_id yield_cpu generate_invalid_system_call_trap
  call code =
      if code == createprocess
      then create_process
      else if code == termprocess
      then term_process
      else if code == passeren
      then (param1 >>= call_p)
      else if code == verhogen
      then (param1 >>= call_v)
      else if code == doio
      then do_io
      else if code == gettime
      then get_cpu_time
      else if code == clockwait
      then clock_wait
      else if code == getsupportptr
      then get_support_ptr
      else if code == getprocessid
      then get_process_id
      else if code == yield_call
      then yield_cpu
      else generate_invalid_system_call_trap

  abbrev pub advance_pc : Kernel → Kernel
  advance_pc k = record k {
    prev_state = record (k.prev_state) { pc_epc = (k.prev_state.pc_epc + wordlen) % word_mod };
  }

  -- `(int)code >= 1`
  abbrev pub is_positive : ℕ → Bool
  is_positive code = ltb 0 code && ltb code (2 ^ 31)

  unfoldable pub systemcall_handler : Cmd (Unit {0})
  unfolding pass_up_or_die_handler generate_invalid_system_call_trap call
  systemcall_handler = do
    code ← get (λ k. k.prev_state.reg_a0)
    status ← get (λ k. k.prev_state.status)
    if is_positive code
        then pass_up_or_die_handler general_except
        else if has_bit 3 status
        then generate_invalid_system_call_trap
        else (do modify advance_pc; call code; s ← get (λ k. k.prev_state); leave (ldst s))

  unfoldable pub exception_handler : Cmd (Unit {0})
  unfolding systemcall_handler pass_up_or_die_handler interrupt_handler
  exception_handler k =
      let code = pf.exc_code k.prev_state.cause in
      if code == 0
      then interrupt_handler pf k
      else if leb code 3
      then pass_up_or_die_handler pgfault_except k
      else if code == 8
      then systemcall_handler k
      else if leb code 12
      then pass_up_or_die_handler general_except k
      else ok tt k

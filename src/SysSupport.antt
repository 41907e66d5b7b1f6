-- ===== src/SysSupport.antt =====
-- phase3/sysSupport.c: the system calls of user processes, by the support structure `support` of the
-- caller, with `releaseSwapPoolSem` and `freeFrames` of phase3/vmSupport.c.
pub mod Clean
pub mod Dispatch
pub mod Held
pub mod Input
pub mod Output
pub mod Release
pub mod Terminal
pub mod Tests
use pandos_plus.Base.{
  ℕ, zero, suc, ◌+◌, ◌-◌, ◌*◌, ◌/◌, ◌%◌, ◌^◌, Bool, true, false, not, ◌||◌, ltb, leb, ◌==◌,
  if◌then◌else◌, update,
}
use pandos_plus.Machine.{State, word_mod}
use pandos_plus.Platform.{Platform}
use pandos_plus.Kernel.{Support}
use pandos_plus.Exceptions.{general_except, wordlen}
use pandos_plus.Interrupts.{terminal_status, char_received, char_transmitted}
use pandos_plus.Swap.{no_proc, free_frames}
use pandos_plus.InitProc.{signal_process_termination}
use pandos_plus.World.{
  Shared, World, Environment, SemName, printer, terminal, swap_pool, master, Syscall, do_io, Prog,
  ◌>>=◌, ◌>>◌, pure, leave, get, change, syscall, support_pointer, exit_process, user_p, user_v,
  ldst, out_of_fuel, done, exit,
}

-- The codes of the system calls of user processes.
abbrev pub gettod : ℕ
gettod = 1

abbrev pub terminate_call : ℕ
terminate_call = 2

abbrev pub writeprinter : ℕ
writeprinter = 3

abbrev pub writeterminal : ℕ
writeterminal = 4

abbrev pub readterminal : ℕ
readterminal = 5

abbrev pub kuseg : ℕ
kuseg = 0x8000_0000

abbrev pub dev_ready : ℕ
dev_ready = 1

abbrev pub printer_write : ℕ
printer_write = 2

abbrev pub terminal_write : ℕ
terminal_write = 2

abbrev pub terminal_read : ℕ
terminal_read = 2

-- DEVICE_OF, in a word: -1 for the address space 0
abbrev pub device_of : ℕ → ℕ
device_of asid = (asid + 0xffff_ffff) % word_mod

-- A `char` as an `int`: signed.
abbrev pub char_word : ℕ → ℕ
char_word c = if ltb c 128 then c else c + 0xffff_ff00

-- -`n` in a word
abbrev pub negated : ℕ → ℕ
negated n = (word_mod - n) % word_mod

-- PROCESSOR_STATE
abbrev pub processor_state : ℕ → Shared → State
processor_state support s = (s.supports support).sup_except_state general_except

abbrev pub set_processor_state : ℕ → State → Shared → Shared
set_processor_state support state s =
    let old = s.supports support in
    record s {
      supports =
          update s.supports support
            (record old { sup_except_state = update old.sup_except_state general_except state });
    }

-- SYSTEMCALL_RETURN
abbrev pub systemcall_return : ℕ → ℕ → Shared → Shared
systemcall_return ret support s =
    set_processor_state support (record (processor_state support s) { reg_v0 = ret }) s

abbrev pub asid_of : ℕ → Shared → ℕ
asid_of support s = (s.supports support).sup_asid

-- The length is negative as an `int`, or more than 128, or the text is below the user's segment.
abbrev pub is_invalid_text : ℕ → ℕ → Bool
is_invalid_text string length = ltb 128 length || ltb string kuseg

module _ (env : Environment) where
  -- `freeFrames`
  unfoldable pub release_frames : ℕ → Prog (Unit {0})
  release_frames asid = do
    user_p env swap_pool asid
    change (λ s. record s { pool = free_frames asid s.pool })
    user_v env swap_pool

  unfoldable pub terminate {ℓ} : {A : Type ℓ} → ℕ → Prog A
  unfolding release_frames
  terminate support = do
    asid ← get (asid_of support)
    release_frames asid
    signal_process_termination env
    exit_process env

  -- `if (sem.user_asid == support_structure->sup_asid) { V(&sem); }`
  unfoldable pub release_if_held : SemName → ℕ → Prog (Unit {0})
  release_if_held sem support w =
      if w.shared.user_asid sem == asid_of support w.shared then user_v env sem w else done tt w

  -- The loop of `trapExceptionHandler` over the first `n` devices, from 0 on.
  unfoldable pub release_devices : ℕ → ℕ → Prog (Unit {0})
  release_devices zero support = pure tt
  release_devices (suc i) support = do
    release_devices i support
    release_if_held (printer i) support
    release_if_held (terminal i) support

  unfoldable pub release_swap_pool_sem : Prog (Unit {0})
  release_swap_pool_sem = do support ← support_pointer env; release_if_held swap_pool support

  unfoldable pub trap_exception_handler {ℓ} : {A : Type ℓ} → Prog A
  trap_exception_handler = do
    support ← support_pointer env
    release_devices 8 support
    release_swap_pool_sem
    terminate support

  -- `clock` gives the n-th reading of the time of day.
  unfoldable pub get_tod : ℕ → Prog (Unit {0})
  get_tod support w =
      done tt
        (record w { shared = systemcall_return (env.clock w.calls % word_mod) support w.shared })

  module _ (pf : Platform) where
    -- The loop of `_writePrinter` with `rounds` characters left. It returns `sent`.
    unfoldable pub print_loop : ℕ → ℕ → ℕ → ℕ → ℕ → Prog ℕ
    print_loop zero dev_reg string sent support = pure sent
    print_loop (suc rounds) dev_reg string sent support = do
      change (λ s. record s { data0 = update s.data0 (dev_reg + 0x8) (char_word (s.bytes string)) })
      status ← syscall env (do_io (dev_reg + 0x4) printer_write)
      if status == dev_ready
          then print_loop rounds dev_reg (string + 1) (sent + 1) support
          else (do change (systemcall_return (negated status) support); pure sent)

    unfoldable pub write_printer : ℕ → ℕ → Prog (Unit {0})
    write_printer asid support = do
      string ← get (λ s. (processor_state support s).reg_a1)
      length ← get (λ s. (processor_state support s).reg_a2)
      if is_invalid_text string length then terminate support else pure tt
      user_p env (printer (device_of asid)) asid
      sent ← print_loop length (pf.dev_reg_addr 6 (device_of asid)) string 0 support
      user_v env (printer (device_of asid))
      change (systemcall_return sent support)

    -- The loop of `_writeTerminal` with `rounds` characters left. It returns `sent`.
    unfoldable pub transmit_loop : ℕ → ℕ → ℕ → ℕ → ℕ → Prog ℕ
    transmit_loop zero dev_reg string sent support = pure sent
    transmit_loop (suc rounds) dev_reg string sent support = do
      char ← get (λ s. s.bytes string)
      status ←
          syscall env (do_io (dev_reg + 0xc) ((terminal_write + char_word char * 256) % word_mod))
      if terminal_status status == char_transmitted
          then transmit_loop rounds dev_reg (string + 1) (sent + 1) support
          else (do change (systemcall_return (negated status) support); pure sent)

    unfoldable pub write_terminal : ℕ → ℕ → Prog (Unit {0})
    write_terminal asid support = do
      string ← get (λ s. (processor_state support s).reg_a1)
      length ← get (λ s. (processor_state support s).reg_a2)
      if is_invalid_text string length then terminate support else pure tt
      user_p env (terminal (device_of asid)) asid
      sent ← transmit_loop length (pf.dev_reg_addr 7 (device_of asid)) string 0 support
      user_v env (terminal (device_of asid))
      change (systemcall_return sent support)

    -- The loop of `_readTerminal`, on fuel: the code has no bound. It returns `received`.
    unfoldable pub receive_loop : ℕ → ℕ → ℕ → ℕ → ℕ → Prog ℕ
    receive_loop zero dev_reg buffer received support = leave out_of_fuel
    receive_loop (suc fuel) dev_reg buffer received support = do
      status ← syscall env (do_io (dev_reg + 0x4) terminal_read)
      let read = status / 256 % 256
      if terminal_status status == char_received
          then (do
            change (λ s. record s { bytes = update s.bytes (buffer + received) read })
            if read == b'\n'
                then pure (received + 1)
                else receive_loop fuel dev_reg buffer (received + 1) support)
          else (do change (systemcall_return (negated status) support); pure received)

    unfoldable pub read_terminal : ℕ → ℕ → ℕ → Prog (Unit {0})
    read_terminal fuel asid support = do
      buffer ← get (λ s. (processor_state support s).reg_a1)
      if ltb buffer kuseg then terminate support else pure tt
      user_p env (terminal (device_of asid)) asid
      received ← receive_loop fuel (pf.dev_reg_addr 7 (device_of asid)) buffer 0 support
      user_v env (terminal (device_of asid))
      change (systemcall_return received support)

    -- Any other code ends the process.
    unfoldable pub user_call : ℕ → ℕ → ℕ → Prog (Unit {0})
    user_call fuel code support = do
      asid ← get (asid_of support)
      if code == gettod
          then get_tod support
          else if code == terminate_call
          then terminate support
          else if code == writeprinter
          then write_printer asid support
          else if code == writeterminal
          then write_terminal asid support
          else if code == readterminal
          then read_terminal fuel asid support
          else trap_exception_handler

    unfoldable pub user_systemcall_handler : ℕ → ℕ → Prog (Unit {0})
    user_systemcall_handler fuel support = do
      state ← get (processor_state support)
      change (
          set_processor_state support
            (record state { pc_epc = (state.pc_epc + wordlen) % word_mod }))
      user_call fuel state.reg_a0 support
      resumed ← get (processor_state support)
      leave (ldst resumed)

    unfoldable pub general_exception_handler : ℕ → Prog (Unit {0})
    general_exception_handler fuel = do
      support ← support_pointer env
      state ← get (processor_state support)
      if pf.exc_code state.cause == 8
          then user_systemcall_handler fuel support
          else trap_exception_handler

-- the semaphore of the `i`-th printer or terminal
abbrev pub is_device_sem : ℕ → SemName → Bool
is_device_sem i (printer j) = i == j
is_device_sem i (terminal j) = i == j
is_device_sem i swap_pool = false
is_device_sem i master = false

-- The loop of `initSysStructs` over the first `n` devices, from 0 on.
unfoldable pub init_sems : ℕ → Shared → Shared
init_sems zero s = s
init_sems (suc i) s =
    let s' = init_sems i s in
    record s' {
      sem_val = λ sem. if is_device_sem i sem then 1 else s'.sem_val sem;
      user_asid = λ sem. if is_device_sem i sem then no_proc else s'.user_asid sem;
    }

unfoldable pub init_sys_structs : Shared → Shared
init_sys_structs s = init_sems 8 s

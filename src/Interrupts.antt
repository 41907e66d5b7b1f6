-- ===== src/Interrupts.antt =====
-- phase2/interrupts.c. The state at the interrupt is `prev_state`. A device register has its status
-- in its first word and its command in the second; a terminal has both for reception and then both
-- for transmission.
pub mod Clock
pub mod Timer
pub mod Device
pub mod Tests
use Prim.Native.Nat.{bit_and, bit_or}
use pandos_plus.Base.{
  ℕ, zero, suc, ◌+◌, ◌-◌, ◌/◌, ◌%◌, ◌^◌, Bool, true, false, not, ltb, Option, none, some, ◌==◌,
  if◌then◌else◌,
}
use pandos_plus.Machine.{State, word_mod}
use pandos_plus.Pcb.{is_alive, max_proc}
use pandos_plus.Asl.{head_blocked}
use pandos_plus.Platform.{Platform}
use pandos_plus.Devices.{get_io_device_semaphore}
use pandos_plus.Kernel.{
  Kernel, panic, ldst, out_of_fuel, Cmd, ◌>>=◌, ◌>>◌, pure, leave, get, modify, deref, pcb_of,
  put_pcb, ok, left, and_then,
}
use pandos_plus.Scheduler.{
  te_bit_on, te_bit_off, stck, timer_flush, start_plt, update_process_cpu_time, scheduler,
  set_process_ready,
}
use pandos_plus.Semaphore.{write_word, sem_v}
use pandos_plus.Syscalls.{decrement}

abbrev pub psecond : ℕ
psecond = 100_000

-- TERMINAL_STATUS
abbrev pub terminal_status : ℕ → ℕ
terminal_status status = status % 256

abbrev pub char_received : ℕ
char_received = 5

abbrev pub char_transmitted : ℕ
char_transmitted = 5

-- `cause & mask` at a mask of one bit
abbrev pub has_bit : ℕ → ℕ → Bool
has_bit i word = word / 2 ^ i % 2 == 1

-- `PSECOND - (curr_time % PSECOND)` in the signed `cpu_t`, where the remainder has the sign of the
-- time: the words from 2 ^ 31 on are negative.
unfoldable pub next_tick : ℕ → ℕ
next_tick curr_time =
    if ltb curr_time (2 ^ 31)
    then psecond - curr_time % psecond
    else psecond + (word_mod - curr_time) % psecond

unfoldable pub reset_interval_timer : Cmd (Unit {0})
unfolding stck next_tick
reset_interval_timer = do
  curr_time ← stck
  modify (λ k. record k { interval_timer = next_tick curr_time })

-- It leaves the nucleus on both branches.
unfoldable pub interrupt_handler_exit : Cmd (Unit {0})
unfolding timer_flush
interrupt_handler_exit = do
  modify (λ k. record k { status = bit_or k.status te_bit_on })
  _ ← timer_flush
  curr ← get (λ k. k.curr_process)
  s ← get (λ k. k.prev_state)
  elim curr [ some p ↦ leave (ldst s) | none ↦ scheduler ]

unfoldable pub plt_handler : Cmd (Unit {0})
unfolding start_plt update_process_cpu_time set_process_ready
plt_handler = do
  start_plt
  curr ← get (λ k. k.curr_process)
  p ← deref curr
  s ← get (λ k. k.prev_state)
  modify (λ k. put_pcb p (record (pcb_of k p) { p_s = s }) k)
  update_process_cpu_time
  set_process_ready p
  modify (λ k. record k { curr_process = none })
  scheduler

module _ (pf : Platform) where
  -- The loop of `_ITHandler`, on fuel: a round per process that waits, and one to see that none is
  -- left.
  unfoldable pub wake_all : ℕ → Cmd (Unit {0})
  wake_all zero k = left out_of_fuel k
  wake_all (suc fuel) k = elim (head_blocked pf.semaphore_it k.tables.asl) [
    | none ↦ ok tt k
    | some p ↦
        and_then (sem_v pf.semaphore_it none none k)
          λ _ k'. wake_all fuel (record k' { softblocked_count = decrement k'.softblocked_count })
  ]

  unfoldable pub it_handler : Cmd (Unit {0})
  unfolding reset_interval_timer interrupt_handler_exit
  it_handler = do
    wake_all (suc max_proc)
    modify (write_word pf.semaphore_it 0)
    reset_interval_timer
    interrupt_handler_exit

  -- `IS_ALIVE(ready_proc)` reads the PCB that `semV` returned, also where that is NULL.
  unfoldable pub device_interrupt_return : ℕ → ℕ → Cmd (Unit {0})
  device_interrupt_return status command = do
    modify (write_word command pf.ack)
    ready_proc ← sem_v (get_io_device_semaphore pf command) none none
    p ← deref ready_proc
    modify (λ k.
        if is_alive k.tables.pcbs p
        then put_pcb p (record (pcb_of k p) { p_s = record ((pcb_of k p).p_s) { reg_v0 = status } })
            (record k { softblocked_count = decrement k.softblocked_count })
        else k)

  unfoldable pub non_terminal_handler : ℕ → ℕ → Cmd (Unit {0})
  unfolding device_interrupt_return
  non_terminal_handler line device_number = do
    status ← get (λ k. k.mem (pf.dev_reg_addr line device_number))
    device_interrupt_return status (pf.dev_reg_addr line device_number + 0x4)

  unfoldable pub terminal_handler : ℕ → Cmd (Unit {0})
  unfolding device_interrupt_return
  terminal_handler device_number = do
    let register = pf.dev_reg_addr pf.il_terminal device_number
    recv_status ← get (λ k. k.mem register)
    transm_status ← get (λ k. k.mem (register + 0x8))
    if terminal_status recv_status == char_received
        then device_interrupt_return recv_status (register + 0x4)
        else if terminal_status transm_status == char_transmitted
        then device_interrupt_return transm_status (register + 0xc)
        else leave panic

  unfoldable pub serve : ℕ → ℕ → Cmd (Unit {0})
  unfolding non_terminal_handler terminal_handler
  serve line device_number =
      if line == pf.il_terminal
      then terminal_handler device_number
      else non_terminal_handler line device_number

  -- The loop of `_deviceHandler` with `rounds` left. The exit does not return, so that only the
  -- first device of the bitmap is handled.
  unfoldable pub device_loop : ℕ → ℕ → ℕ → ℕ → Cmd (Unit {0})
  unfolding serve interrupt_handler_exit
  device_loop zero line bitmap device_number = pure tt
  device_loop (suc rounds) line bitmap device_number =
      let rest = device_loop rounds line bitmap (device_number + 1) in
      if has_bit device_number bitmap
      then serve line device_number >> interrupt_handler_exit
      else rest

  unfoldable pub device_handler : ℕ → Cmd (Unit {0})
  unfolding device_loop
  device_handler line = do
    bitmap ← get (λ k. k.mem (pf.interrupt_dev (line - 3)))
    device_loop pf.n_dev_per_il line bitmap 0

  -- The line with the highest priority among those that are pending.
  unfoldable pub select_handler : ℕ → Cmd (Unit {0})
  unfolding plt_handler it_handler device_handler interrupt_handler_exit
  select_handler ip =
      if has_bit 9 ip
      then plt_handler
      else if has_bit 10 ip
      then it_handler
      else if has_bit 11 ip
      then device_handler pf.il_disk
      else if has_bit 12 ip
      then device_handler pf.il_flash
      else if has_bit 13 ip
      then device_handler pf.il_ethernet
      else if has_bit 14 ip
      then device_handler pf.il_printer
      else if has_bit 15 ip
      then device_handler pf.il_terminal
      else interrupt_handler_exit

  unfoldable pub interrupt_handler : Cmd (Unit {0})
  unfolding update_process_cpu_time select_handler
  interrupt_handler = do
    curr ← get (λ k. k.curr_process)
    elim curr [ some p ↦ update_process_cpu_time | none ↦ pure tt ]
    modify (λ k. record k { status = bit_and k.status te_bit_off })
    ip ← get (λ k. bit_and k.prev_state.cause pf.cause_ip_mask)
    select_handler ip

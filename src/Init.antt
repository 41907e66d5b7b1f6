-- ===== src/Init.antt =====
-- phase2/initial.c: the start of the nucleus.
pub mod Boot
pub mod Tests
use Prim.Native.Nat.{bit_or}
use pandos_plus.Base.{ℕ, zero, suc, ◌+◌, ◌%◌, [], none, some, update}
use pandos_plus.Machine.{word_mod}
use pandos_plus.Pcb.{init_pcbs, alloc_pcb}
use pandos_plus.ProcQueue.{mk_empty_proc_q, insert_proc_q}
use pandos_plus.Asl.{init_asl}
use pandos_plus.Platform.{Platform}
use pandos_plus.Devices.{device_semaphore, total_io_devices}
use pandos_plus.Kernel.{
  Kernel, panic, Cmd, ◌>>=◌, ◌>>◌, pure, leave, get, modify, deref, pcb_of, set_pcbs, put_pcb, ok,
}
use pandos_plus.Scheduler.{process_prio_low, im_on, te_bit_on, scheduler}
use pandos_plus.Semaphore.{write_word}
use pandos_plus.Interrupts.{reset_interval_timer}

abbrev pub iep_on : ℕ
iep_on = 0x4

abbrev pub all_off : ℕ
all_off = 0

abbrev pub kernel_stack : ℕ
kernel_stack = 0x2000_1000

-- RAMTOP: the sum of the words at `RAMBASEADDR` and `RAMBASESIZE`
abbrev pub ram_top : Kernel → ℕ
ram_top k = (k.mem 0x1000_0000 + k.mem 0x1000_0004) % word_mod

module _ (pf : Platform) where
  unfoldable pub init_pass_up_vector : Kernel → Kernel
  init_pass_up_vector k = write_word (pf.pass_up_field 3) kernel_stack (
      write_word (pf.pass_up_field 2) pf.exception_handler_addr (
        write_word (pf.pass_up_field 1) kernel_stack
          (write_word (pf.pass_up_field 0) pf.tlb_refill_handler_addr k)))

  -- The loop of `_initDeviceSemaphores` over the indices below `n`, from 0 on.
  unfoldable pub zero_semaphores : ℕ → Kernel → Kernel
  zero_semaphores zero k = k
  zero_semaphores (suc i) k = write_word (device_semaphore pf i) 0 (zero_semaphores i k)

  unfoldable pub init_device_semaphores : Kernel → Kernel
  init_device_semaphores k = zero_semaphores total_io_devices (write_word pf.semaphore_it 0 k)

  -- The fields that `_createFirstProcess` sets in its PCB.
  unfoldable pub first_process : ℕ → Kernel → Kernel
  first_process p k =
      put_pcb p
        (record (pcb_of k p) {
          p_prio = process_prio_low;
          p_s = record ((pcb_of k p).p_s) {
            reg_sp = ram_top k;
            status = bit_or (bit_or (bit_or all_off im_on) iep_on) te_bit_on;
            reg_t9 = pf.test;
            pc_epc = pf.test;
          };
        })
        k

  unfoldable pub create_first_process : Cmd ℕ
  create_first_process k =
      let (first_proc, s) = alloc_pcb k.tables.pcbs in
      (do p ← deref first_proc; modify (first_process p); pure p) (set_pcbs s k)

  -- The statics and globals before the first process.
  unfoldable pub init_globals : Kernel → Kernel
  init_globals k = record (init_pass_up_vector k) {
    tables = record { pcbs = init_pcbs k.tables.pcbs; asl = init_asl k.tables.asl };
    process_count = 0;
    softblocked_count = 0;
    high_readyqueue = mk_empty_proc_q;
    low_readyqueue = mk_empty_proc_q;
    curr_process = none;
  }

  unfoldable pub main : Cmd (Unit {0})
  main = do
    modify init_globals
    modify init_device_semaphores
    reset_interval_timer
    first_proc ← create_first_process
    modify (λ k. record k { low_readyqueue = insert_proc_q k.low_readyqueue first_proc })
    modify (λ k. record k { process_count = (k.process_count + 1) % word_mod })
    _ ← scheduler {A = Unit {0}}
    leave panic

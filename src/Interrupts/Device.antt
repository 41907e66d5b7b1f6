-- ===== src/Interrupts/Device.antt =====
-- The end of a device operation, `_deviceInterruptReturn` of phase2/interrupts.c.
use pandos_plus.Base.{
  ℕ, ◌+◌, ◌%◌, ◌^◌, ◌≡◌, ◌≢◌, true, none, some, List, [], ◌∷◌, arith, ◌==◌, if◌then◌else◌, ◌∙◌, ap,
  erase,
}
use pandos_plus.Pcb.{is_alive}
use pandos_plus.Asl.{Tables}
use pandos_plus.Asl.View.{waiting}
use pandos_plus.Asl.Invariant.{IsValid}
use pandos_plus.Asl.Unblocked.{Removed}
use pandos_plus.Platform.{Platform}
use pandos_plus.Devices.{get_io_device_semaphore}
use pandos_plus.Kernel.{Kernel, ok, left, fault, Run, pcb_of, put_pcb}
use pandos_plus.Semaphore.{set_tables, sem_v, write_word}
use pandos_plus.Semaphore.Steps.{
  made_ready, made_ready_cases, sem_v-Proceeds, tables-made_ready, softblocked-made_ready,
  made_ready-with_ready, low_with, high_with,
}
use pandos_plus.Syscalls.{decrement}
use pandos_plus.Interrupts.{device_interrupt_return}

module _ (pf : Platform) (status command : ℕ) (k : Kernel) (v : IsValid k.tables) where
  -- the state after `*command = ACK`
  abbrev pub acked : Kernel
  acked = write_word command pf.ack k

  abbrev pub device_sem : ℕ
  device_sem = get_io_device_semaphore pf command

  -- If no process waits for the device when its interrupt arrives, and its semaphore is not 1, the
  -- handler reads the PCB behind NULL, with the semaphore set to 1.
  pub device_interrupt_return-fault :
      waiting k.tables.asl device_sem ≡ []
      → acked.mem device_sem ≢ 1
      → device_interrupt_return pf status command k ≡ left fault (write_word device_sem 1 acked)
  unfolding device_interrupt_return
  device_interrupt_return-fault e ne = rw ((sem_v-Proceeds device_sem none none acked v ne).alone e)

  -- The process `p` that waited on the device for its result has it, stands at the end of the ready
  -- queue of its priority and is no longer counted as soft-blocked.
  pub record Completes (p : ℕ) (r : Run (Unit {0})) : Type 0 where
    pub after : Kernel
    pub done : r ≡ ok tt after
    pub returned : (pcb_of after p).p_s.reg_v0 ≡ status
    pub counted : after.softblocked_count ≡ (k.softblocked_count + 0xffff_ffff) % 2 ^ 32
    pub queue :
        (key : ℕ)
        → waiting after.tables.asl key ≡ (
            if device_sem == key
            then erase p (waiting k.tables.asl key)
            else waiting k.tables.asl key)
    pub low : after.low_readyqueue ≡ low_with p k
    pub high : after.high_readyqueue ≡ high_with p k

  module _ (p : ℕ) (t : Tables) (alive : is_alive t.pcbs p ≡ true) where
    woken : Kernel
    woken = made_ready p (set_tables t acked)

    completed : Kernel
    unfolding woken
    completed =
        put_pcb p
          (record (pcb_of woken p) { p_s = record ((pcb_of woken p).p_s) { reg_v0 = status } })
          (record woken { softblocked_count = decrement woken.softblocked_count })

    woken-alive : is_alive woken.tables.pcbs p ≡ true
    unfolding woken
    woken-alive =
        made_ready_cases (λ j. is_alive j.tables.pcbs p ≡ true) p (set_tables t acked) alive alive
          alive

    completed-Completes :
        sem_v device_sem none none acked ≡ ok (some p) woken
        → Removed device_sem p k.tables t
        → Completes p (device_interrupt_return pf status command k)
    unfolding completed device_interrupt_return
    completed-Completes s removed = record {
      after = completed;
      done = rw (s, woken-alive);
      returned = ground arith;
      counted = ap decrement (softblocked-made_ready p (set_tables t acked));
      queue = λ key.
          ap (λ (u : Tables). waiting u.asl key) (tables-made_ready p (set_tables t acked))
          ∙ removed.queue key;
      low =
          ap (λ (j : Kernel). j.low_readyqueue)
            (made_ready-with_ready device_sem p t acked removed);
      high =
          ap (λ (j : Kernel). j.high_readyqueue)
            (made_ready-with_ready device_sem p t acked removed);
    }

  -- If the tables are valid, a live process is the first that waits on the device and the
  -- device's semaphore is not 1 after the acknowledgement, `_deviceInterruptReturn` returns with
  -- that process off the semaphore's queue alone and at the end of the ready queue of its
  -- priority, with the status in its result register, and one soft-blocked process less, modulo 2
  -- ^ 32.
  pub device_interrupt_return-Completes :
      (p : ℕ) (q : List ℕ)
      → waiting k.tables.asl device_sem ≡ p ∷ q
      → acked.mem device_sem ≢ 1
      → is_alive k.tables.pcbs p ≡ true
      → Completes p (device_interrupt_return pf status command k)
  unfolding woken
  device_interrupt_return-Completes p q e ne alive =
      let (t, s, removed) = (sem_v-Proceeds device_sem none none acked v ne).hands_over p q e in
      completed-Completes p t (rw (removed.pids p) alive) s removed

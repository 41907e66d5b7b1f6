-- ===== src/Exceptions/Io.antt =====
-- The system calls that wait for a device, `_doIO` of phase2/exceptions.c.
use pandos_plus.Base.{ℕ, ◌≡◌, ◌≢◌, some, [], update, ◌+◌, ◌%◌, ◌^◌}
use pandos_plus.Asl.View.{waiting}
use pandos_plus.Asl.Invariant.{IsValid}
use pandos_plus.Platform.{Platform}
use pandos_plus.Devices.{get_io_device_semaphore}
use pandos_plus.Kernel.{Kernel, ok}
use pandos_plus.Semaphore.Steps.{sem_p-Proceeds}
use pandos_plus.Exceptions.{do_io}
use pandos_plus.Machine.{word_mod}

module _ (pf : Platform) (k : Kernel) (v : IsValid k.tables) where
  abbrev pub requested_sem : ℕ
  requested_sem = get_io_device_semaphore pf k.prev_state.reg_a1

  -- the memory once the command is written
  abbrev pub requested_mem : ℕ → ℕ
  requested_mem = update k.mem k.prev_state.reg_a1 k.prev_state.reg_a2

  -- If the tables are valid, nobody waits on the device and its semaphore is not 0 after the
  -- command, `_doIO` returns with the semaphore at 0 and its caller not suspended, and yet with
  -- one more soft-blocked process, modulo 2 ^ 32; nothing else changes but the word of the
  -- command.
  pub do_io-runs_on :
      waiting k.tables.asl requested_sem ≡ []
      → requested_mem requested_sem ≢ 0
      → do_io pf k
        ≡ ok tt (record k {
          mem = update requested_mem requested_sem 0;
          softblocked_count = (k.softblocked_count + 1) % 2 ^ 32;
        })
  unfolding do_io
  do_io-runs_on e ne =
      let j = record k {
        mem = requested_mem;
        softblocked_count = (k.softblocked_count + 1) % word_mod;
      } in
      rw ((sem_p-Proceeds requested_sem j.curr_process (some (j.prev_state)) j v ne).alone e)

-- ===== src/Devices.antt =====
-- phase2/initial.c: the semaphores of the devices and of the interval timer.
pub mod Semaphores
pub mod Tests
use pandos_plus.Base.{ℕ, ◌+◌, ◌-◌, ◌*◌, ◌/◌, ◌%◌, Bool, true, false, ◌&&◌, leb, ◌==◌, if◌then◌else◌}
use pandos_plus.Machine.{null, word_mod}
use pandos_plus.Platform.{Platform}

abbrev pub total_io_devices : ℕ
total_io_devices = 48

abbrev pub term0_addr : ℕ
term0_addr = 0x1000_0254

-- subtraction of `memaddr`
abbrev pub sub_word : ℕ → ℕ → ℕ
sub_word a b = (a + word_mod - b) % word_mod

module _ (pf : Platform) where
  -- `&semaphore_devices[i]`
  abbrev pub device_semaphore : ℕ → ℕ
  device_semaphore i = pf.semaphore_devices + 4 * i

  -- `isSoftBlocked`, on the PCB's `p_semAdd`
  unfoldable pub is_soft_blocked : ℕ → Bool
  is_soft_blocked sem_add =
      if sem_add == null
      then false
      else if sem_add == pf.semaphore_it
      then true
      else leb (device_semaphore 0) sem_add && leb sem_add (device_semaphore (total_io_devices - 1))

  -- `(command_address & 0b1000) == 0b1000`: the fourth bit.
  abbrev pub is_reception : ℕ → Bool
  is_reception command_address = command_address / 8 % 2 == 1

  unfoldable pub device_index : ℕ → ℕ
  device_index command_address =
      if leb term0_addr command_address
      then if is_reception command_address
        then sub_word (sub_word command_address 0x4) pf.dev_reg_start / pf.dev_reg_size
        else (sub_word (sub_word command_address 0xc) pf.dev_reg_start / pf.dev_reg_size + 8)
          % word_mod
      else sub_word (sub_word command_address 0x4) pf.dev_reg_start / pf.dev_reg_size

  unfoldable pub get_io_device_semaphore : ℕ → ℕ
  unfolding device_index
  get_io_device_semaphore command_address = device_semaphore (device_index command_address)

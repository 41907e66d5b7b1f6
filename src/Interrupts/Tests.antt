-- ===== src/Interrupts/Tests.antt =====
-- Interrupts at a concrete state: processes 3 and 5 wait at address 100, the semaphore of the
-- interval timer on one platform and that of the first disk on the other.
use pandos_plus.Base.{ℕ, ◌≡◌, [], ◌∷◌, arith, ◌⊎◌, ◌≤◌, ◌<◌, ◌+◌, ◌-◌, ◌*◌, ◌%◌, ◌^◌}
use pandos_plus.Asl.Tests.{two_wait, two_wait-Inserted, two_wait_here, two_wait_on, three_alive}
use pandos_plus.Devices.{get_io_device_semaphore, device_index}
use pandos_plus.Devices.Tests.{umps3_at}
use pandos_plus.Semaphore.{write_word}
use pandos_plus.Semaphore.Tests.{kernel_at}
use pandos_plus.Kernel.{left, fault}
use pandos_plus.Interrupts.{psecond, next_tick, wake_all, device_interrupt_return}
use pandos_plus.Interrupts.Clock.{next_tick-rings}
use pandos_plus.Interrupts.Timer.{Woken, wake_all-Woken}
use pandos_plus.Interrupts.Device.{
  Completes, device_interrupt_return-fault, device_interrupt_return-Completes, device_sem, acked,
}

wake_all-Woken_example :
    Woken 100 2 (kernel_at two_wait 0) (wake_all (umps3_at 100 200) 21 (kernel_at two_wait 0))
wake_all-Woken_example =
    wake_all-Woken (umps3_at 100 200) 21 (3 ∷ 5 ∷ []) (kernel_at two_wait 0) two_wait_here
      two_wait-Inserted.valid (omega arith) (omega arith)

disk_sem : (base : ℕ) → get_io_device_semaphore (umps3_at 96 base) 0x1000_0058 ≡ base
unfolding get_io_device_semaphore device_index
disk_sem base = ground arith

device_interrupt_return-fault_example :
    device_interrupt_return (umps3_at 96 200) 3 0x1000_0058 (kernel_at two_wait 0)
    ≡ left fault (
        write_word
          (device_sem
            (umps3_at 96 200)
            3
            0x1000_0058
            (kernel_at two_wait 0)
            two_wait-Inserted.valid)
          1
          (acked (umps3_at 96 200) 3 0x1000_0058 (kernel_at two_wait 0) two_wait-Inserted.valid))
device_interrupt_return-fault_example =
    device_interrupt_return-fault (umps3_at 96 200) 3 0x1000_0058 (kernel_at two_wait 0)
      two_wait-Inserted.valid (rw (disk_sem 200) (two_wait_on 200))
      (rw (disk_sem 200) (ground arith))

device_interrupt_return-Completes_example :
    Completes
      (umps3_at 96 100)
      3
      0x1000_0058
      (kernel_at two_wait 0)
      two_wait-Inserted.valid
      3
      (device_interrupt_return (umps3_at 96 100) 3 0x1000_0058 (kernel_at two_wait 0))
device_interrupt_return-Completes_example =
    device_interrupt_return-Completes (umps3_at 96 100) 3 0x1000_0058 (kernel_at two_wait 0)
      two_wait-Inserted.valid 3 (5 ∷ []) (rw (disk_sem 100) two_wait_here)
      (rw (disk_sem 100) (ground arith)) three_alive

next_tick-rings_example :
    ((3_000_000_000 < 2 ^ 31)
      × (0 < next_tick 3_000_000_000)
      × (next_tick 3_000_000_000 ≤ psecond)
      × ((3_000_000_000 + next_tick 3_000_000_000) % psecond ≡ 0))
    ⊎ ((2 ^ 31 ≤ 3_000_000_000)
        × (psecond ≤ next_tick 3_000_000_000)
        × (next_tick 3_000_000_000 < 2 * psecond)
        × (next_tick 3_000_000_000 % psecond ≡ (2 ^ 32 - 3_000_000_000) % psecond))
next_tick-rings_example = next_tick-rings 3_000_000_000 (omega arith)

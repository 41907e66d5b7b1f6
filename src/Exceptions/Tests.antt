-- ===== src/Exceptions/Tests.antt =====
-- A request for input or output at a concrete state: the device's semaphore is 1, and nobody waits.
use pandos_plus.Base.{◌≡◌, arith, update}
use pandos_plus.Pcb.Tests.{blank_state}
use pandos_plus.Asl.Tests.{two_wait, two_wait-Inserted, two_wait_on}
use pandos_plus.Devices.{get_io_device_semaphore, device_index}
use pandos_plus.Devices.Tests.{umps3_at}
use pandos_plus.Kernel.{Kernel, ok}
use pandos_plus.Semaphore.Tests.{kernel_at}
use pandos_plus.Exceptions.{do_io}
use pandos_plus.Exceptions.Io.{do_io-runs_on, requested_mem, requested_sem}

-- the current process asks for command 2 of the first disk
abbrev asking : Kernel
asking = record (kernel_at two_wait 1) {
  prev_state = record blank_state { reg_a1 = 0x1000_0058; reg_a2 = 2 };
}

disk : get_io_device_semaphore (umps3_at 96 200) 0x1000_0058 ≡ 200
unfolding get_io_device_semaphore device_index
disk = ground arith

do_io-runs_on_example :
    do_io (umps3_at 96 200) asking
    ≡ ok tt (record asking {
      mem =
          update
            (requested_mem (umps3_at 96 200) asking two_wait-Inserted.valid)
            (requested_sem (umps3_at 96 200) asking two_wait-Inserted.valid)
            0;
      softblocked_count = 3;
    })
do_io-runs_on_example =
    do_io-runs_on (umps3_at 96 200) asking two_wait-Inserted.valid (rw disk (two_wait_on 200))
      (rw disk (ground arith))

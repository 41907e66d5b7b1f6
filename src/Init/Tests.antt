-- ===== src/Init/Tests.antt =====
-- The start of the nucleus from a state with processes in it.
use pandos_plus.Devices.Tests.{umps3_at}
use pandos_plus.Asl.Tests.{two_wait}
use pandos_plus.Semaphore.Tests.{kernel_at}
use pandos_plus.Init.{main}
use pandos_plus.Init.Boot.{Boots, main-Boots}

main-Boots_example : Boots 0x2000_1000 (main (umps3_at 96 200) (kernel_at two_wait 0))
main-Boots_example = main-Boots (umps3_at 96 200) (kernel_at two_wait 0)

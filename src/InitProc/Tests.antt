-- ===== src/InitProc/Tests.antt =====
-- The start of the user processes by a machine with 64 pages.
use pandos_plus.Base.{List, ◌∷◌, ◌+◌, ◌≡◌, arith, refl}
use pandos_plus.Devices.Tests.{umps3_at}
use pandos_plus.Pcb.Tests.{blank_state}
use pandos_plus.Swap.Tests.{layout}
use pandos_plus.World.{Syscall, term_process, World, exit, terminated}
use pandos_plus.SysSupport.Tests.{quiet, writer}
use pandos_plus.InitProc.Start.{Loader, test}
use pandos_plus.InitProc.Startup.{Boots, creates, waits, test-Waits, waited}

abbrev loader : Loader
loader = record {
  tlb_handler = 0x2000_2000;
  general_handler = 0x2000_3000;
  ram_top = 0x2004_0000;
  stack_state = λ _. blank_state;
  word_at = λ bytes a. bytes a;
}

quiet-Boots : Boots (quiet (λ _ _. 1))
quiet-Boots = record { gives = λ n s. omega arith; reads = λ n a c. refl }

test-Waits_example :
    (started : List Syscall) × (w' : World) × (test
        (quiet (λ _ _. 1))
        (umps3_at 96 200)
        layout
        loader
        writer
      ≡ exit terminated w')
    × (w'.log ≡ term_process 0 ∷ waited 8 started)
    × (creates started ≡ 8 + creates writer.log)
    × (waits started ≡ waits writer.log)
test-Waits_example =
    test-Waits (quiet (λ _ _. 1)) (umps3_at 96 200) layout loader quiet-Boots writer

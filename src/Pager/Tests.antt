-- ===== src/Pager/Tests.antt =====
-- A page fault of the process `writer`, whose flash device fails.
use pandos_plus.Base.{◌+◌, ◌≡◌, ◌⊎◌, arith, refl}
use pandos_plus.Devices.Tests.{umps3_at}
use pandos_plus.Swap.Tests.{layout}
use pandos_plus.World.{called, exit, get_support_ptr, panic, ldst, swap_pool, verhogen, World}
use pandos_plus.SysSupport.Clean.{Leaves}
use pandos_plus.SysSupport.Tests.{quiet, quiet-Respects, writer}
use pandos_plus.Machine.{State}
use pandos_plus.Swap.{swap_in, get_page_index, get_vpn}
use pandos_plus.Swap.Requests.{no_log}
use pandos_plus.Pager.Refines.{Excludes, tlb_invalid_handler-swap_in}
use pandos_plus.Pager.{page_fault_state, tlb_invalid_handler, tlb_exception_handler}
use pandos_plus.Pager.Outcome.{Resumes, tlb_exception_handler-Outcome}

tlb_exception_handler-Outcome_example :
    let r = tlb_exception_handler (quiet (λ _ _. 4)) (umps3_at 96 200) layout writer in
    (Resumes 1 r ⊎ Leaves 1 r) ⊎ (r ≡ exit panic (called (quiet (λ _ _. 4)) get_support_ptr writer))
tlb_exception_handler-Outcome_example =
    tlb_exception_handler-Outcome (quiet (λ _ _. 4)) 1 (quiet-Respects (λ _ _. 4)) (omega arith)
      (umps3_at 96 200) layout writer refl

quiet-Excludes : Excludes (quiet (λ _ _. 1)) 1
quiet-Excludes = record { holds = λ n s held. held; pools = λ n s held. refl }

tlb_invalid_handler-swap_in_example :
    (state : State) × (left : World) × (tlb_invalid_handler
        (quiet (λ _ _. 1))
        (umps3_at 96 200)
        layout
        0
        writer
      ≡ exit (ldst state) (called (quiet (λ _ _. 1)) (verhogen swap_pool) left))
    × (no_log left.shared.pool
        ≡ no_log
            (swap_in layout
              (0 + get_page_index (get_vpn layout (page_fault_state 0 writer.shared).entry_hi))
              writer.shared.pool).1)
tlb_invalid_handler-swap_in_example =
    tlb_invalid_handler-swap_in (quiet (λ _ _. 1)) (umps3_at 96 200) layout 1 quiet-Excludes
      (λ n a c. refl) (λ _. refl) 0 writer refl

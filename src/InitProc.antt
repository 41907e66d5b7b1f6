-- ===== src/InitProc.antt =====
-- phase3/initProc.c: the free support structures, the stack frames and the state of a new process. A
-- pointer to a support structure is its index in `support_arr`; the free ones are a stack.
pub mod Frames
pub mod Start
pub mod Startup
pub mod Tests
use Prim.Native.Nat.{bit_or}
use pandos_plus.Base.{
  ℕ, zero, suc, ◌+◌, ◌-◌, ◌*◌, ◌%◌, ◌^◌, Option, none, some, [], ◌∷◌, ◌==◌, if◌then◌else◌, update,
}
use pandos_plus.Machine.{State, Context, word_mod}
use pandos_plus.Kernel.{Support}
use pandos_plus.Scheduler.{im_on, te_bit_on}
use pandos_plus.Init.{iep_on, all_off}
use pandos_plus.Exceptions.{pgfault_except, general_except, wordlen}
use pandos_plus.Devices.{sub_word}
use pandos_plus.Swap.{Layout, page_size}
use pandos_plus.World.{
  Shared, Environment, Prog, master, verhogen, get_support_ptr, ◌>>=◌, ◌>>◌, pure, change, syscall,
  support_pointer, done,
}

abbrev pub uproc_max : ℕ
uproc_max = 8

abbrev pub user_bit_on : ℕ
user_bit_on = 0x8

-- `_allocate`: the head of the free list, `none` where the code takes the list's own head.
pub allocate : Shared → Option ℕ × Shared
allocate s = elim s.free_support [
  | [] ↦ (none, s)
  | support ∷ rest ↦ (some support, record s { free_support = rest })
]

unfoldable pub deallocate : ℕ → Shared → Shared
deallocate support s = record s { free_support = support ∷ s.free_support }

-- The loop of `_initFreeSupportStack` over the first `n` structures, from 0 on.
pub free_supports : ℕ → Shared → Shared
free_supports zero s = s
free_supports (suc i) s = deallocate i (free_supports i s)

pub init_free_support_stack : Shared → Shared
init_free_support_stack s = free_supports uproc_max (record s { free_support = [] })

-- `ram_top` is the word that RAMTOP gives.
pub get_stack_frame : ℕ → Shared → ℕ × Shared
get_stack_frame ram_top s = (
  sub_word (sub_word ram_top page_size) (s.curr_offset * page_size % word_mod),
  record s { curr_offset = s.curr_offset + 1 },
)

-- The fields of the state that `_initProcessorState` sets.
abbrev pub init_processor_state : Layout → ℕ → State → State
init_processor_state y asid state = record state {
  reg_t9 = 0x8000_00b0;
  pc_epc = 0x8000_00b0;
  reg_sp = 0xc000_0000;
  status = bit_or (bit_or (bit_or all_off (bit_or im_on iep_on)) te_bit_on) user_bit_on;
  entry_hi = asid * 2 ^ y.asid_bit % word_mod;
}

-- The context of a handler at `pc`, in kernel mode, with the stack at `stack`.
pub handler_context : ℕ → ℕ → Context
handler_context pc stack = record {
  stack_ptr = stack;
  status = bit_or (bit_or all_off (bit_or im_on iep_on)) te_bit_on;
  pc = pc;
}

-- `_initSupportStructure` before the page table: the structure, the two stacks taken, and the
-- frame that the header of the program is read to.
pub init_contexts : ℕ → ℕ → ℕ → ℕ → ℕ → Shared → ℕ × Shared
init_contexts ram_top tlb_handler general_handler asid support s =
    let (page_fault_stack, s1) = get_stack_frame ram_top s in
    let (general_stack, s2) = get_stack_frame ram_top s1 in
    let old = s2.supports support in
    let filled = record old {
      sup_asid = asid;
      sup_except_context =
          update
            (update old.sup_except_context pgfault_except
              (handler_context tlb_handler page_fault_stack))
            general_except (handler_context general_handler general_stack);
    } in
    (
      (sub_word general_stack page_size + wordlen) % word_mod,
      record s2 { supports = update s2.supports support filled },
    )

module _ (env : Environment) where
  unfoldable pub signal_process_termination : Prog (Unit {0})
  signal_process_termination = do
    support ← support_pointer env
    change (deallocate support)
    _ ← syscall env (verhogen master)
    pure tt

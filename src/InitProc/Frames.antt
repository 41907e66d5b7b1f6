-- ===== src/InitProc/Frames.antt =====
-- Where `_initSupportStructure` of phase3/initProc.c puts the stacks of a process.
use pandos_plus.Base.{ℕ, ◌+◌, ◌-◌, ◌*◌, ◌<◌, ◌≤◌, ◌≡◌, arith}
use pandos_plus.Machine.{word_mod}
use pandos_plus.Devices.{sub_word}
use pandos_plus.Exceptions.{pgfault_except, general_except, wordlen}
use pandos_plus.Swap.{page_size}
use pandos_plus.World.{Shared}
use pandos_plus.InitProc.{get_stack_frame, init_contexts, handler_context}

-- the stack of a handler in a support structure
abbrev pub stack_of : ℕ → ℕ → Shared → ℕ
stack_of handler support s = ((s.supports support).sup_except_context handler).stack_ptr

sub_word_lem : (a b : ℕ) → b ≤ a → a < word_mod → sub_word a b ≡ a - b
sub_word_lem a b below small = omega arith

stack_frame_lem :
    (ram_top : ℕ) (s : Shared)
    → ram_top < word_mod
    → (s.curr_offset + 1) * page_size ≤ ram_top
    → (get_stack_frame ram_top s).0 ≡ ram_top - (s.curr_offset + 1) * page_size
unfolding get_stack_frame
stack_frame_lem ram_top s word fits = omega arith

module _ (ram_top tlb_handler general_handler asid support : ℕ) (s : Shared)
    (word : ram_top < word_mod) (fits : (s.curr_offset + 3) * page_size ≤ ram_top) where
  abbrev contexts : ℕ × Shared
  contexts = init_contexts ram_top tlb_handler general_handler asid support s

  -- With room for three pages more than those taken, the two stacks are the next two pages below those taken so far, and the frame for the header is
  -- the page whose last word is where the second stack starts.
  pub init_contexts-Frames :
      (stack_of pgfault_except support contexts.1 ≡ ram_top - (s.curr_offset + 1) * page_size)
      × (stack_of general_except support contexts.1 ≡ ram_top - (s.curr_offset + 2) * page_size)
      × (contexts.0 + page_size ≡ stack_of general_except support contexts.1 + wordlen)
      × (contexts.1.curr_offset ≡ s.curr_offset + 2)
  unfolding init_contexts get_stack_frame handler_context
  init_contexts-Frames = (ground arith, ground arith, ground arith, omega arith)

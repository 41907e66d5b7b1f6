-- ===== src/SysSupport/Tests.antt =====
-- A user process of the address space 1, with a text of three characters in its registers.
use pandos_plus.Base.{ℕ, ◌+◌, ◌*◌, ◌%◌, ◌≡◌, ltb, ◌==◌, if◌then◌else◌, [], ◌∷◌, ◌++◌, arith, refl}
use pandos_plus.Pcb.Tests.{blank_state}
use pandos_plus.Devices.Tests.{umps3_at}
use pandos_plus.Swap.{no_proc}
use pandos_plus.Swap.Tests.{one_page}
use pandos_plus.World.{
  World, Environment, Syscall, passeren, verhogen, printer, terminal, swap_pool, master, done,
}
use pandos_plus.SysSupport.{
  device_of, write_printer, write_terminal, read_terminal, general_exception_handler,
  trap_exception_handler,
}
use pandos_plus.SysSupport.Dispatch.{Resolves, general_exception_handler-Resolves}
use pandos_plus.SysSupport.Input.{with_line, read_terminal-EndsWith}
use pandos_plus.SysSupport.Output.{leading, prints, result, write_printer-result}
use pandos_plus.SysSupport.Release.{Respects}
use pandos_plus.SysSupport.Clean.{Leaves, trap_exception_handler-IsClean}
use pandos_plus.SysSupport.Terminal.{sends, sent_of, tried, write_terminal-result}

-- the others do nothing
abbrev pub quiet : (ℕ → Syscall → ℕ) → Environment
quiet answer = record { support_ptr = 0; answer = answer; others = λ _ s. s; clock = λ n. n }

abbrev pub writer : World
writer = record {
  shared = record {
    sem_val = λ _. 1;
    user_asid = λ _. no_proc;
    supports = λ _. record {
      sup_asid = 1;
      sup_except_state = λ _. record blank_state { cause = 8; reg_a1 = 0x8000_1000; reg_a2 = 3 };
      sup_except_context = λ _. record { stack_ptr = 0; status = 0; pc = 0 };
      sup_private_pg_tbl = 0;
    };
    free_support = [];
    curr_offset = 0;
    pool = one_page;
    bytes = λ a. a % 128;
    data0 = λ _. 0;
  };
  calls = 0;
  log = [];
}

-- ready for the first two characters, after the P
abbrev printing : Environment
printing = quiet (λ n _. if ltb n 3 then 1 else 4)

write_printer-result_example :
    (w' : World) × (write_printer printing (umps3_at 96 200) 1 0 writer ≡ done tt w')
    × (result 0 w'
        ≡ leading
            (prints printing (umps3_at 96 200) ((umps3_at 96 200).dev_reg_addr 6 (device_of 1)))
            (0 + 1)
            3)
write_printer-result_example = write_printer-result printing (umps3_at 96 200) 1 0 writer refl

-- the second character is not sent
abbrev sending : Environment
sending = quiet (λ n _. if ltb n 2 then 5 else 4)

write_terminal-result_example :
    let device = (umps3_at 96 200).dev_reg_addr 7 (device_of 1) in
    let count =
      sent_of sending (umps3_at 96 200) device writer.shared.bytes 0x8000_1000 (0 + 1) 3 in
    (w' : World) × (write_terminal sending (umps3_at 96 200) 1 0 writer ≡ done tt w')
    × (result 0 w' ≡ count)
    × (w'.log
        ≡ verhogen (terminal (device_of 1))
            ∷ sends device writer.shared.bytes 0x8000_1000 (tried count 3)
          ++ passeren (terminal (device_of 1)) ∷ [])
write_terminal-result_example =
    write_terminal-result sending (umps3_at 96 200) (λ n s. refl) 1 0 writer refl

-- The user types `hi` and a newline.
abbrev typing : Environment
typing =
    quiet
      (λ n _. if n == 1 then 5 + b'h' * 256 else if n == 2 then 5 + b'i' * 256 else 5 + b'\n' * 256)

read_terminal-EndsWith_example :
    let device = (umps3_at 96 200).dev_reg_addr 7 (device_of 1) in
    (w' : World) × (read_terminal typing (umps3_at 96 200) 10 1 0 writer ≡ done tt w')
    × (result 0 w' ≡ 2 + 1)
    × ((address : ℕ)
        → w'.shared.bytes address
          ≡ with_line typing device writer.shared.bytes 0x8000_1000 (0 + 1) 3 address)
read_terminal-EndsWith_example =
    read_terminal-EndsWith typing (umps3_at 96 200) (λ n s. refl) 2 10 1 0 writer refl
      (refl, refl, (refl, refl, (refl, refl))) (omega arith)

-- The process holds the swap pool's semaphore and the terminal 3.
abbrev pub holder : World
holder = record writer {
  shared = record (writer.shared) {
    user_asid = λ sem. elim sem [
      | printer i ↦ no_proc
      | terminal i ↦ if i == 3 then 1 else no_proc
      | swap_pool ↦ 1
      | master ↦ no_proc
    ];
  };
}

pub quiet-Respects : (answer : ℕ → Syscall → ℕ) → Respects (quiet answer) 0 1
quiet-Respects answer = record {
  names = λ n s known. known;
  sems = λ n s sem free. free;
  frames = λ n s j free. free;
}

trap_exception_handler-IsClean_example :
    Leaves 1 (trap_exception_handler (quiet (λ _ _. 0)) {A = Unit {0}} holder)
trap_exception_handler-IsClean_example =
    trap_exception_handler-IsClean (quiet (λ _ _. 0)) 1 (quiet-Respects (λ _ _. 0)) (omega arith)
      holder refl

-- the call that prints
abbrev caller : World
caller = record writer {
  shared = record (writer.shared) {
    supports = λ _. record {
      sup_asid = 1;
      sup_except_state =
          λ _. record blank_state { cause = 32; reg_a0 = 3; reg_a1 = 0x8000_1000; reg_a2 = 3 };
      sup_except_context = λ _. record { stack_ptr = 0; status = 0; pc = 0 };
      sup_private_pg_tbl = 0;
    };
  };
}

general_exception_handler-Resolves_example :
    Resolves printing 1
      (quiet-Respects _)
      (omega arith)
      (umps3_at 96 200)
      (general_exception_handler printing (umps3_at 96 200) 10 caller)
general_exception_handler-Resolves_example =
    general_exception_handler-Resolves printing 1 (quiet-Respects _) (omega arith) (umps3_at 96 200)
      10 caller (refl, λ sem. omega arith)

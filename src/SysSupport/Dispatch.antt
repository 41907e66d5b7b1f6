-- ===== src/SysSupport/Dispatch.antt =====
-- `generalExceptionHandler` of phase3/sysSupport.c as a whole: which semaphores a process holds when a
-- system call of it is over.
use pandos_plus.Base.{
  ℕ, ◌+◌, ◌%◌, ◌≡◌, ◌≢◌, ◌⊎◌, ◌==◌, if◌then◌else◌, Bool-cases, ltb, refl, inl, inr,
}
use pandos_plus.Machine.{State, word_mod}
use pandos_plus.Platform.{Platform}
use pandos_plus.Exceptions.{wordlen}
use pandos_plus.Swap.{no_proc}
use pandos_plus.World.{
  Shared, World, Environment, SemName, printer, terminal, exit, ldst, Act, Prog, and_then, ◌>>=◌,
  ◌>>◌, change, called, get_support_ptr, user_p, user_v, pure,
}
use pandos_plus.SysSupport.{
  asid_of, device_of, general_exception_handler, get_tod, is_invalid_text, kuseg, processor_state,
  read_terminal, set_processor_state, systemcall_return, terminate, trap_exception_handler,
  user_call, user_systemcall_handler, write_printer, write_terminal,
}
use pandos_plus.SysSupport.Release.{Respects}
use pandos_plus.SysSupport.Clean.{terminate-Leaves, trap_exception_handler-IsClean}
use pandos_plus.SysSupport.Held.{
  AllFree, OnlyHolds, Stops, Safe, then_Safe, either_Safe, others-AllFree, return-AllFree,
  user_p-Safe, user_v-Safe, print_loop-Safe, transmit_loop-Safe, receive_loop-Safe,
}

module _ (env : Environment) (asid : ℕ) (respects : Respects env env.support_ptr asid)
    (here : asid ≢ no_proc) where
  abbrev Free : Shared → Type 0
  Free = AllFree env asid respects here

  abbrev Holds : SemName → Shared → Type 0
  Holds = OnlyHolds env asid respects here

  abbrev Keeps {ℓ} : {A : Type ℓ} → Act A → Type ℓ
  Keeps {A = A} = Safe env asid respects here Free

  module _ (pf : Platform) where
    terminate-Safe :
        (Q : Shared → Type 0) (w : World)
        → Free w.shared
        → Safe env asid respects here Q (terminate env {A = Unit {0}} env.support_ptr w)
    terminate-Safe Q w (known, free) = inr (
        inl (
          terminate-Leaves env env.support_ptr asid respects here w known
            (λ i small. (free (printer i), free (terminal i)))))

    -- P of the semaphore, a loop, V of the semaphore, and the result
    locked-Safe :
        (sem : SemName) (owner : ℕ) (loop : Prog ℕ) (w : World)
        → ((w' : World) → Holds sem w'.shared → Safe env asid respects here (Holds sem) (loop w'))
        → Free w.shared
        → Keeps (
            (do
              user_p env sem owner
              sent ← loop
              user_v env sem
              change (systemcall_return sent env.support_ptr))
              w)
    locked-Safe sem owner loop w safe all =
        then_Safe env asid respects here (Holds sem) Free (user_p env sem owner w) _
          (user_p-Safe env asid respects here sem owner w all)
          (λ _ w1 holds.
            then_Safe env asid respects here (Holds sem) Free (loop w1) _ (safe w1 holds)
              (λ sent w2 holds2.
                then_Safe env asid respects here Free Free (user_v env sem w2) _
                  (user_v-Safe env asid respects here sem w2 holds2)
                  (λ _ w3 all3. inl (
                    tt,
                    record w3 { shared = systemcall_return sent env.support_ptr w3.shared },
                    refl,
                    return-AllFree env asid respects here _ w3.shared all3,
                  ))))

    write_printer-Safe :
        (owner : ℕ) (w : World)
        → Free w.shared
        → Keeps (write_printer env pf owner env.support_ptr w)
    unfolding write_printer
    write_printer-Safe owner w all =
        let string = (processor_state env.support_ptr w.shared).reg_a1 in
        let length = (processor_state env.support_ptr w.shared).reg_a2 in
        then_Safe env asid respects here Free Free
          ((if is_invalid_text string length then terminate env env.support_ptr else pure tt) w) _
          (either_Safe env asid respects here Free (is_invalid_text string length)
            (terminate env env.support_ptr) (pure tt) w (terminate-Safe Free w all)
            (inl (tt, w, refl, all)))
          (λ _ w1 all1.
            locked-Safe (printer (device_of owner)) owner _ w1
              (print_loop-Safe env asid respects here pf (printer (device_of owner)) length
                (pf.dev_reg_addr 6 (device_of owner)) string 0)
              all1)

    write_terminal-Safe :
        (owner : ℕ) (w : World)
        → Free w.shared
        → Keeps (write_terminal env pf owner env.support_ptr w)
    unfolding write_terminal
    write_terminal-Safe owner w all =
        let string = (processor_state env.support_ptr w.shared).reg_a1 in
        let length = (processor_state env.support_ptr w.shared).reg_a2 in
        then_Safe env asid respects here Free Free
          ((if is_invalid_text string length then terminate env env.support_ptr else pure tt) w) _
          (either_Safe env asid respects here Free (is_invalid_text string length)
            (terminate env env.support_ptr) (pure tt) w (terminate-Safe Free w all)
            (inl (tt, w, refl, all)))
          (λ _ w1 all1.
            locked-Safe (terminal (device_of owner)) owner _ w1
              (transmit_loop-Safe env asid respects here pf (terminal (device_of owner)) length
                (pf.dev_reg_addr 7 (device_of owner)) string 0)
              all1)

    read_terminal-Safe :
        (fuel owner : ℕ) (w : World)
        → Free w.shared
        → Keeps (read_terminal env pf fuel owner env.support_ptr w)
    unfolding read_terminal
    read_terminal-Safe fuel owner w all =
        let buffer = (processor_state env.support_ptr w.shared).reg_a1 in
        then_Safe env asid respects here Free Free
          ((if ltb buffer kuseg then terminate env env.support_ptr else pure tt) w) _
          (either_Safe env asid respects here Free (ltb buffer kuseg)
            (terminate env env.support_ptr) (pure tt) w (terminate-Safe Free w all)
            (inl (tt, w, refl, all)))
          (λ _ w1 all1.
            locked-Safe (terminal (device_of owner)) owner _ w1
              (receive_loop-Safe env asid respects here pf (terminal (device_of owner)) fuel
                (pf.dev_reg_addr 7 (device_of owner)) buffer 0)
              all1)

    get_tod-Safe : (w : World) → Free w.shared → Keeps (get_tod env env.support_ptr w)
    unfolding get_tod
    get_tod-Safe w all =
        let answered = systemcall_return (env.clock w.calls % word_mod) env.support_ptr w.shared in
        inl (
          tt,
          record w { shared = answered },
          refl,
          return-AllFree env asid respects here _ w.shared all,
        )

    trap-Safe :
        (Q : Shared → Type 0) (w : World)
        → Free w.shared
        → Safe env asid respects here Q (trap_exception_handler env {A = Unit {0}} w)
    trap-Safe Q w (known, free) =
        inr (inl (trap_exception_handler-IsClean env asid respects here w known))

    user_call-Safe :
        (fuel code : ℕ) (w : World)
        → Free w.shared
        → Keeps (user_call env pf fuel code env.support_ptr w)
    unfolding user_call
    user_call-Safe fuel code w all =
        let owner = asid_of env.support_ptr w.shared in
        either_Safe env asid respects here Free (code == 1) (get_tod env env.support_ptr) _ w
          (get_tod-Safe w all)
          (either_Safe env asid respects here Free (code == 2) (terminate env env.support_ptr) _ w
            (terminate-Safe Free w all)
            (either_Safe env asid respects here Free (code == 3)
              (write_printer env pf owner env.support_ptr) _ w (write_printer-Safe owner w all)
              (either_Safe env asid respects here Free (code == 4)
                (write_terminal env pf owner env.support_ptr) _ w (write_terminal-Safe owner w all)
                (either_Safe env asid respects here Free (code == 5)
                  (read_terminal env pf fuel owner env.support_ptr) (trap_exception_handler env) w
                  (read_terminal-Safe fuel owner w all) (trap-Safe Free w all)))))

    -- The process resumes and holds no semaphore, or it has stopped.
    abbrev pub Resolves : Act (Unit {0}) → Type 0
    Resolves r =
        ((state : State) × (w' : World) × (r ≡ exit (ldst state) w') × Free w'.shared)
        ⊎ Stops env asid respects here r

    then_Resolves :
        (r : Act (Unit {0})) (state : Shared → State)
        → Keeps r
        → Resolves (and_then r (λ _ w. exit (ldst (state w.shared)) w))
    then_Resolves r state (inl (_, w', e, all)) = rw e (inl (state w'.shared, w', refl, all))
    then_Resolves r state (inr (inl (w', e, clean))) = rw e (inr (inl (w', refl, clean)))
    then_Resolves r state (inr (inr (w', e))) = rw e (inr (inr (w', refl)))

    user_systemcall_handler-Resolves :
        (fuel : ℕ) (w : World)
        → Free w.shared
        → Resolves (user_systemcall_handler env pf fuel env.support_ptr w)
    unfolding user_systemcall_handler
    user_systemcall_handler-Resolves fuel w all =
        let state = processor_state env.support_ptr w.shared in
        let next = record state { pc_epc = (state.pc_epc + wordlen) % word_mod } in
        let w1 = record w { shared = set_processor_state env.support_ptr next w.shared } in
        then_Resolves (user_call env pf fuel state.reg_a0 env.support_ptr w1)
          (processor_state env.support_ptr)
          (user_call-Safe fuel state.reg_a0 w1
            (return-AllFree env asid respects here next w.shared all))

    -- A process that holds no semaphore holds none when `generalExceptionHandler` resumes it, whatever
    -- the system call or the exception, the devices answer and the others do, unless these hand it one.
    -- Otherwise it is terminated with nothing left, or the loop of `_readTerminal` has run out of fuel.
    pub general_exception_handler-Resolves :
        (fuel : ℕ) (w : World) → Free w.shared → Resolves (general_exception_handler env pf fuel w)
    unfolding general_exception_handler
    general_exception_handler-Resolves fuel w all =
        let w1 = called env get_support_ptr w in
        let all1 = others-AllFree env asid respects here w.calls w.shared all in
        let code = pf.exc_code (processor_state env.support_ptr w1.shared).cause in
        elim (Bool-cases (code == 8)) [
          | inl call ↦ rw call (user_systemcall_handler-Resolves fuel w1 all1)
          | inr other ↦
              rw other (inr (inl (trap_exception_handler-IsClean env asid respects here w1 all1.0)))
        ]

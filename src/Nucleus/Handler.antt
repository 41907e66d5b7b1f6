-- ===== src/Nucleus/Handler.antt =====
-- The exception handler of phase2/exceptions.c: each entry of the nucleus keeps its state consistent.
use Prim.Native.Nat.{bit_and}
use pandos_plus.Base.{
  ℕ, ◌≡◌, ◌≢◌, refl, ◌==◌, ==_iff, Option, none, some, inl, inr, [], Option-cases, leb, if_either,
}
use pandos_plus.Platform.{Platform}
use pandos_plus.Kernel.{Kernel, Run, pure}
use pandos_plus.Scheduler.{update_process_cpu_time, timer_flush, stck, te_bit_off}
use pandos_plus.Interrupts.{interrupt_handler}
use pandos_plus.Exceptions.{systemcall_handler, exception_handler, pgfault_except, general_except}
use pandos_plus.Nucleus.{both_Outcome, IsConsistent, Keeps, then_Keeps, map_Outcome, LeavesWell}
use pandos_plus.Nucleus.Semaphores.{Stays, update_process_cpu_time-Keeps, Stays-IsConsistent}
use pandos_plus.Nucleus.Terminate.{pass_up_or_die_handler-Keeps}
use pandos_plus.Nucleus.Dispatch.{IsServed, systemcall_handler-Keeps}
use pandos_plus.Nucleus.Devices.{IsExpected, select_handler-Keeps}

-- What a handler needs of the state to know where the interrupt comes from.
abbrev Expects : Platform → Kernel → Type 0
Expects pf k = IsExpected pf k.tables.asl k.mem k.curr_process k.prev_state.cause

-- The clock of the current process, if there is one, changes nothing of that.
abbrev Alike : Kernel → Kernel → Type 0
Alike k k' = (k'.tables.asl ≡ k.tables.asl) × (k'.mem ≡ k.mem) × (k'.prev_state ≡ k.prev_state)

timed-Alike :
    (k : Kernel) (p : ℕ)
    → k.curr_process ≡ some p
    → Keeps (λ _ k'. Alike k k') (update_process_cpu_time k)
unfolding update_process_cpu_time timer_flush stck
timed-Alike k p running = rw (running, update_process_cpu_time) (refl, refl, refl)

Expects-kept :
    (pf : Platform) (k k' : Kernel)
    → Alike k k'
    → k'.curr_process ≡ k.curr_process
    → Expects pf k
    → Expects pf k'
Expects-kept pf k k' (asl, mem, prev) curr x = rw (asl, mem, prev, curr) x

module _ (pf : Platform) (k : Kernel) (h : IsConsistent k) (x : Expects pf k) where
  clocked-Keeps :
      (o : Option ℕ)
      → k.curr_process ≡ o
      → Keeps
          (λ a k'. Stays k.curr_process [] k a k' × Alike k k')
          (elim o as (λ _. Kernel → Run (Unit {0})) [
            | some p ↦ update_process_cpu_time
            | none ↦ pure tt
          ]
            k)
  clocked-Keeps none e = ((h.0, refl, refl), (refl, refl, refl))
  clocked-Keeps (some p) e =
      both_Outcome LeavesWell LeavesWell _ _ (update_process_cpu_time k)
        (update_process_cpu_time-Keeps k.curr_process [] k p e h.0) (timed-Alike k p e)

  interrupt_handler-Keeps : Keeps (λ _ k'. IsConsistent k') (interrupt_handler pf k)
  unfolding interrupt_handler
  interrupt_handler-Keeps =
      then_Keeps (λ a k'. Stays k.curr_process [] k a k' × Alike k k') (λ _ k'. IsConsistent k') _ _
        (clocked-Keeps k.curr_process refl)
        (λ a k' (stays, alike).
          select_handler-Keeps pf (record k' { status = bit_and k'.status te_bit_off })
            (Stays-IsConsistent k k' a h stays) (Expects-kept pf k k' alike stays.1 x))

-- What the machine and the processes do when an exception is raised: only an interrupt comes without a
-- current process, and the interrupts and the system calls are as their handlers expect.
pub record IsRaised (pf : Platform) (k : Kernel) : Type 0 where
  pub running : pf.exc_code k.prev_state.cause ≢ 0 → k.curr_process ≢ none
  pub served : pf.exc_code k.prev_state.cause ≡ 8 → IsServed pf k
  pub expected :
      pf.exc_code k.prev_state.cause ≡ 0
      → IsExpected pf k.tables.asl k.mem k.curr_process k.prev_state.cause

-- If the state of the nucleus is consistent, only an interrupt comes without a current process, a
-- process waits for the first device that interrupts on a pending line, the semaphore of the
-- interval timer is not 1 when that timer rings, only a running process uses up its time slice,
-- and the system calls are as their handler expects, `exceptionHandler` keeps the state
-- consistent where it returns, where a process or the handler of a process goes on, and where the
-- machine waits; it may halt or panic, but reads nothing through NULL and lacks no fuel.
-- Consistent: the tables are valid; every process in use but the current one stands in one queue,
-- once, the ready queue of its priority or the queue of the semaphore that it notes, and no other
-- PCB does; parents and children agree and are in use; the processes are counted.
pub exception_handler-Keeps :
    (pf : Platform) (k : Kernel)
    → IsConsistent k
    → IsRaised pf k
    → Keeps (λ _ k'. IsConsistent k') (exception_handler pf k)
unfolding exception_handler
exception_handler-Keeps pf k h raised =
    if_either Kept (code == 0) _ _
      (λ e. interrupt_handler-Keeps pf k h (raised.expected ((==_iff code 0).0 e)))
      (λ ne.
        let (p, running) = runs (λ e. cc (ne, (==_iff code 0).1 e)) in
        if_either Kept (leb code 3) _ _
          (λ _. pass_up_or_die_handler-Keeps pf k p running h _ pgfault_except)
          (λ _.
            if_either Kept (code == 8) _ _
              (λ e.
                map_Outcome LeavesWell (λ _ _. ⊥) _ (systemcall_handler pf k)
                  (systemcall_handler-Keeps pf k p running h (raised.served ((==_iff code 8).0 e)))
                  (λ _ _ no. absurd no))
              (λ _.
                if_either Kept (leb code 12) _ _
                  (λ _. pass_up_or_die_handler-Keeps pf k p running h _ general_except) (λ _. h))))
  where
    code : ℕ
    code = pf.exc_code k.prev_state.cause

    Kept : Run (Unit {0}) → Type 0
    Kept = Keeps λ _ k'. IsConsistent k'

    runs : code ≢ 0 → (p : ℕ) × (k.curr_process ≡ some p)
    runs ne = elim (Option-cases k.curr_process) [
      | inl idle ↦ absurd (raised.running ne idle)
      | inr runner ↦ runner
    ]

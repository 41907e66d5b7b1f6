-- ===== src/Nucleus/Turns.antt =====
-- Time slices one after the other: the local timer of phase2/interrupts.c, by `exceptionHandler` of
-- phase2/exceptions.c.
use pandos_plus.Base.{
  ℕ, suc, ◌≡◌, ◌∙◌, refl, ap, subst, true, ◌==◌, arith, Option, none, some, List, [], ◌∷◌, ◌++◌,
  length, All, ==_iff,
}
use Prim.Native.Nat.{bit_and}
use mathlib.Core.List.{append_assoc}
use pandos_plus.Machine.{State}
use pandos_plus.Kernel.{pure, Kernel, Run, Leave, ok, left, ldst}
use pandos_plus.Scheduler.{update_process_cpu_time, te_bit_off}
use pandos_plus.Interrupts.{has_bit, select_handler, interrupt_handler}
use pandos_plus.Platform.{Platform}
use pandos_plus.Exceptions.{exception_handler}
use pandos_plus.Nucleus.{Outcome, Outcome-of_Returns, then_Outcome}
use pandos_plus.Nucleus.Reach.{Meanwhile, elapse}
use pandos_plus.Nucleus.Slice.{Runs, Continues, plt_handler-Continues, update_process_cpu_time-Runs}

-- The state in which a process goes on, if one does.
abbrev resumed : Run (Unit {0}) → Option Kernel
resumed (left (ldst s) k) = some k
resumed r = none

with_status-Runs :
    (p : ℕ) (low : List ℕ) (k : Kernel) (status : ℕ)
    → Runs p low k
    → Runs p low (record k { status = status })
with_status-Runs p low k status r = record {
  consistent = r.consistent;
  curr = r.curr;
  prio = r.prio;
  ready = r.ready;
  no_high = r.no_high;
}

elapse-Runs :
    (m : Meanwhile) (p : ℕ) (low : List ℕ) (k : Kernel) → Runs p low k → Runs p low (elapse m k)
elapse-Runs m p low k r = record {
  consistent = r.consistent;
  curr = r.curr;
  prio = r.prio;
  ready = r.ready;
  no_high = r.no_high;
}

resumed-Runs :
    (p : ℕ) (low : List ℕ) (run : Run (Unit {0}))
    → Outcome (Continues p low) (λ _ _. ⊥) run
    → (k' : Kernel) × (resumed run ≡ some k') × Runs p low k'
resumed-Runs p low (ok a k) goes = absurd goes
resumed-Runs p low (left o k) ((s, e), runs) = (k, ap (λ l. resumed (left l k)) e, runs)

module _ (pf : Platform) where
  -- The exception is an interrupt of the local timer.
  abbrev pub IsSlice : Meanwhile → Type 0
  IsSlice m =
      (pf.exc_code m.prev_state.cause ≡ 0)
      × (has_bit 9 (bit_and m.prev_state.cause pf.cause_ip_mask) ≡ true)

  -- Exceptions one after the other: each time a process runs, then the handler.
  unfoldable pub turns : List Meanwhile → Kernel → Option Kernel
  turns [] k = some k
  turns (m ∷ ms) k = elim (resumed (exception_handler pf (elapse m k))) [
    | none ↦ none
    | some k' ↦ turns ms k'
  ]

  module _ (p next : ℕ) (low : List ℕ) (m : Meanwhile) (slice : IsSlice m) where
    select_handler-Continues :
        (k : Kernel)
        → Runs p (next ∷ low) k
        → k.prev_state ≡ m.prev_state
        → Outcome
            (Continues next (low ++ p ∷ []))
            (λ _ _. ⊥)
            (select_handler pf (bit_and k.prev_state.cause pf.cause_ip_mask) k)
    unfolding select_handler
    select_handler-Continues k r prev =
        let bit : has_bit 9 (bit_and k.prev_state.cause pf.cause_ip_mask) ≡ true =
          ap (λ (s : State). has_bit 9 (bit_and s.cause pf.cause_ip_mask)) prev ∙ slice.1 in
        rw bit (plt_handler-Continues p next low k r)

    interrupt_handler-Continues :
        (k : Kernel)
        → Runs p (next ∷ low) k
        → k.prev_state ≡ m.prev_state
        → Outcome (Continues next (low ++ p ∷ [])) (λ _ _. ⊥) (interrupt_handler pf k)
    unfolding interrupt_handler
    interrupt_handler-Continues k r prev =
        then_Outcome L clocked (λ _ _. ⊥) _ _ (clock k.curr_process r.curr)
          (λ _ k1 (runs, kept).
            select_handler-Continues (record k1 { status = bit_and k1.status te_bit_off })
              (with_status-Runs p (next ∷ low) k1 (bit_and k1.status te_bit_off) runs)
              (kept ∙ prev))
      where
        L : Leave → Kernel → Type 0
        L = Continues next (low ++ p ∷ [])

        clocked : Unit {0} → Kernel → Type 0
        clocked _ k1 = Runs p (next ∷ low) k1 × (k1.prev_state ≡ k.prev_state)

        clock :
            (o : Option ℕ)
            → o ≡ some p
            → Outcome L clocked (
                elim o as (λ _. Kernel → Run (Unit {0})) [
                  | some q ↦ update_process_cpu_time
                  | none ↦ pure tt
                ]
                  k)
        clock o e = rw e (
            Outcome-of_Returns L clocked (update_process_cpu_time k)
              (update_process_cpu_time-Runs p (next ∷ low) k r))

    exception_handler-Continues :
        (k : Kernel)
        → Runs p (next ∷ low) k
        → k.prev_state ≡ m.prev_state
        → Outcome (Continues next (low ++ p ∷ [])) (λ _ _. ⊥) (exception_handler pf k)
    unfolding exception_handler
    exception_handler-Continues k r prev =
        let interrupt : (pf.exc_code k.prev_state.cause == 0) ≡ true =
          (==_iff _ 0).1 (ap (λ (s : State). pf.exc_code s.cause) prev ∙ slice.0) in
        rw interrupt (interrupt_handler-Continues k r prev)

    slice-Runs :
        (k : Kernel)
        → Runs p (next ∷ low) k
        → (k' : Kernel) × (resumed (exception_handler pf (elapse m k)) ≡ some k')
          × Runs next (low ++ p ∷ []) k'
    slice-Runs k r =
        resumed-Runs next (low ++ p ∷ []) (exception_handler pf (elapse m k))
          (exception_handler-Continues (elapse m k) (elapse-Runs m p (next ∷ low) k r) refl)

  -- If the state is consistent, a process of low priority is the current one, no process of high
  -- priority is ready, and the next exceptions are interrupts of the local timer, as many as
  -- there are low-priority processes ready before `q` and one more, each is handled by resuming a
  -- process, `q` is the current process after the last, and the ready queue is what stood behind
  -- `q`, then the first process, then those that stood before `q`; the state is consistent, `q`
  -- has low priority and no process of high priority is ready.
  pub turns-Runs :
      (before after : List ℕ) (p q : ℕ) (ms : List Meanwhile) (k : Kernel)
      → Runs p (before ++ q ∷ after) k
      → All IsSlice ms
      → length ms ≡ suc (length before)
      → (k' : Kernel) × (turns ms k ≡ some k') × Runs q (after ++ p ∷ before) k'
  unfolding turns
  turns-Runs before after p q [] k r slices e = absurd (omega (arith, e))
  turns-Runs [] after p q (m ∷ n ∷ ms) k r slices e = absurd (omega (arith, e))
  turns-Runs [] after p q (m ∷ []) k r slices e =
      let (k', goes, runs) = slice-Runs p q after m slices.0 k r in
      (k', rw (goes, turns) refl, runs)
  turns-Runs (b ∷ before) after p q (m ∷ ms) k r slices e =
      let (k1, goes, runs) = slice-Runs p b (before ++ q ∷ after) m slices.0 k r in
      let (k', rest, served) =
        turns-Runs before (after ++ p ∷ []) b q ms k1
          (subst (λ low. Runs b low k1) (append_assoc before (q ∷ after) (p ∷ [])) runs) slices.1
          (omega (arith, e)) in
      (
        k',
        rw (goes, turns) rest,
        subst (λ low. Runs q low k') (append_assoc after (p ∷ []) (b ∷ before)) served,
      )

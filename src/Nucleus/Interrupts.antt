-- ===== src/Nucleus/Interrupts.antt =====
-- The interrupt handlers of phase2/interrupts.c and the state of the nucleus as a whole.
use pandos_plus.Base.{
  ℕ, ◌*◌, ◌%◌, zero, suc, ◌≤◌, ◌<◌, ◌≡◌, ◌≢◌, ◌∙◌, refl, sym, ap, subst, arith, Option, none, some,
  List, [], ◌∷◌, inl, inr, Bool-cases, count, length, length-le, ltb,
}
use pandos_plus.Machine.{State, word_mod}
use pandos_plus.Pcb.{max_proc}
use pandos_plus.Asl.{Tables}
use pandos_plus.Asl.View.{waiting}
use pandos_plus.Platform.{Platform}
use pandos_plus.Kernel.{state_after, Run, Kernel, ldst, leave}
use pandos_plus.Scheduler.{
  timeslice, timescale_addr, scheduler, update_process_cpu_time, start_plt, stck, timer_flush,
  set_process_ready,
}
use pandos_plus.Semaphore.{write_word, set_tables}
use pandos_plus.Semaphore.Steps.{sem_v-Proceeds, tables-made_ready, mem-made_ready}
use pandos_plus.Interrupts.{
  interrupt_handler_exit, plt_handler, wake_all, it_handler, reset_interval_timer,
}
use pandos_plus.Interrupts.Timer.{round, wake_all-round, wake_all-none}
use pandos_plus.Nucleus.{
  IsSettledAs, IsConsistent, Keeps, Returns, Keeps-of_Returns, then_Keeps, map_Outcome,
  deref-Outcome,
}
use pandos_plus.Nucleus.Facts.{waits-notes}
use pandos_plus.Nucleus.Ready.{scheduler-Keeps}
use pandos_plus.Nucleus.Semaphores.{
  Stays, update_process_cpu_time-Keeps, woken-Stays, Stays-IsConsistent,
}
use pandos_plus.Nucleus.Calls.{saved, saved-IsSettled, set_process_ready-Stays, reschedule-Keeps}

-- The end of a handler: the current process goes on, or another one is chosen.
module _ (Q : Unit {0} → Kernel → Type 0) where
  resume-Keeps :
      (o : Option ℕ) (s : State) (k : Kernel)
      → k.curr_process ≡ o
      → IsConsistent k
      → Keeps Q (
          elim o as (λ _. Kernel → Run (Unit {0})) [ some p ↦ leave (ldst s) | none ↦ scheduler ] k)
  resume-Keeps none s k e h =
      scheduler-Keeps Q k (subst (λ (o : Option ℕ). IsSettledAs o [] k) e h.0)
  resume-Keeps (some p) s k e h = h

  pub interrupt_handler_exit-Keeps :
      (k : Kernel) → IsConsistent k → Keeps Q (interrupt_handler_exit k)
  unfolding interrupt_handler_exit timer_flush stck
  interrupt_handler_exit-Keeps k h = resume-Keeps k.curr_process k.prev_state _ refl h

  -- The interrupt of the local timer: the current process is ready again, and another one is chosen.
  pub plt_handler-Keeps :
      (k : Kernel) (p : ℕ) → k.curr_process ≡ some p → IsConsistent k → Keeps Q (plt_handler k)
  unfolding plt_handler start_plt
  plt_handler-Keeps k p running h = deref-Outcome _ _ k.curr_process p sliced _ running (
      then_Keeps (Stays (some p) [] kept) Q (update_process_cpu_time kept) _
        (update_process_cpu_time-Keeps (some p) [] kept p running
          (saved-IsSettled sliced p running h k.prev_state))
        (λ _ k2 stays.
          then_Keeps (Stays none [] k2) Q (set_process_ready p k2) _
            (Keeps-of_Returns (Stays none [] k2) (set_process_ready p k2)
              (set_process_ready-Stays p k2 stays.0 (ap (count p) stays.2 ∙ h.1 p running)))
            (λ _ k3 ready. reschedule-Keeps Q k3 ready.0)))
    where
      sliced : Kernel
      sliced = record k { timer = timeslice * k.mem timescale_addr % word_mod }

      kept : Kernel
      kept = saved sliced p running h k.prev_state

-- At most all processes wait on a semaphore.
waiting-few :
    (k : Kernel) (curr : Option ℕ)
    → IsSettledAs curr [] k
    → (sem : ℕ) → length (waiting k.tables.asl sem) ≤ max_proc
waiting-few k curr h sem =
    let few = length-le (waiting k.tables.asl sem) k.tables.pcbs.pid_list λ q.
      elim (Bool-cases (ltb 0 (count q (waiting k.tables.asl sem)))) [
        | inr absent ↦ ground arith
        | inl waits ↦ ground (
          arith,
          h.placed q,
          ap (λ (x : ℕ). count q (waiting k.tables.asl x))
              (waits-notes [] _ _ _ _ _ h sem q (ground arith)),
        )
      ] in
    omega (arith, few, h.pcbs.total)

module _ (pf : Platform) where
  -- The loop of `_ITHandler`
  wake_all-Stays :
      (fuel : ℕ) (xs : List ℕ) (k : Kernel)
      → waiting k.tables.asl pf.semaphore_it ≡ xs
      → length xs < fuel
      → k.mem pf.semaphore_it ≢ 1
      → IsConsistent k
      → Returns (Stays k.curr_process [] k) (wake_all pf fuel k)
  wake_all-Stays zero xs k e few ne h = absurd (omega arith)
  wake_all-Stays (suc fuel) [] k e few ne h = rw (wake_all-none pf fuel k e) (h.0, refl, refl)
  wake_all-Stays (suc fuel) (p ∷ q) k e few ne h =
      let (t, s, removed) =
        (sem_v-Proceeds pf.semaphore_it none none k h.0.asl ne).hands_over p q e in
      let (settled, curr, pids) =
        woken-Stays k h pf.semaphore_it p (ground (arith, ap (count p) e)) t (some p) removed in
      let same = tables-made_ready p (set_tables t k) in
      rw (wake_all-round pf fuel p q k e t s) (
        map_Outcome (λ _ _. ⊥) (Stays (round p t k).curr_process [] (round p t k))
          (Stays k.curr_process [] k) (wake_all pf fuel (round p t k))
          (wake_all-Stays fuel q (round p t k)
            (ap (λ (u : Tables). waiting u.asl pf.semaphore_it) same
              ∙ ground (arith, removed.queue pf.semaphore_it))
            (omega arith)
            (λ one. ne (
              sym (ap (λ (m : ℕ → ℕ). m pf.semaphore_it) (mem-made_ready p (set_tables t k)))
              ∙ one))
            (Stays-IsConsistent k (round p t k) (some p) h (settled, curr, pids)))
          (λ _ k' (settled', curr', pids'). (
            subst (λ (o : Option ℕ). IsSettledAs o [] k') curr settled',
            curr' ∙ curr,
            pids' ∙ pids,
          )))

  -- The interrupt of the interval timer
  pub it_handler-Keeps :
      (Q : Unit {0} → Kernel → Type 0) (k : Kernel)
      → IsConsistent k
      → k.mem pf.semaphore_it ≢ 1
      → Keeps Q (it_handler pf k)
  unfolding it_handler reset_interval_timer stck
  it_handler-Keeps Q k h ne =
      then_Keeps (Stays k.curr_process [] k) Q (wake_all pf (suc max_proc) k) _
        (Keeps-of_Returns (Stays k.curr_process [] k) (wake_all pf (suc max_proc) k) (
          wake_all-Stays (suc max_proc) (waiting k.tables.asl pf.semaphore_it) k refl
            (omega (arith, waiting-few k k.curr_process h.0 pf.semaphore_it)) ne h))
        (λ a k' stays.
          interrupt_handler_exit-Keeps Q
            (state_after (reset_interval_timer (write_word pf.semaphore_it 0 k')))
            (Stays-IsConsistent k k' a h stays))

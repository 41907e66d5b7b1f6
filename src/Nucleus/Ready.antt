-- ===== src/Nucleus/Ready.antt =====
-- phase2/scheduler.c and the state of the nucleus as a whole: a process becomes ready, the next one is
-- chosen, and it runs.
use pandos_plus.Base.{
  ℕ, ◌≤◌, ◌≡◌, ◌∙◌, refl, ap, true, false, ◌==◌, arith, Option, none, some, List, [], ◌∷◌, ◌++◌,
  ltb, inl, inr, Bool-cases, either_number, ==_refl, count, count-append,
}
use pandos_plus.Asl.{Tables}
use pandos_plus.ProcQueue.{insert_proc_q}
use pandos_plus.Kernel.{Kernel, pcb_of}
use pandos_plus.Scheduler.{
  process_prio_low, insert_ready, get_next_process, choose, dispatch, idle, run_next, scheduler,
  start_plt, timer_flush, stck,
}
use pandos_plus.Scheduler.Queues.{held, chosen, get_next_process-count}
use pandos_plus.Nucleus.{IsSettled, IsSettledAs, IsConsistent, Keeps, in_use, prio_of}
use pandos_plus.Nucleus.Frame.{moved-IsSettled, put-IsSettled, unchanged}

pub held_self : (p : ℕ) → held p (some p) ≡ 1
held_self p = rw (==_refl p) refl

-- The current process, which is in no queue, joins the end of its ready queue.
module _ (dying : List ℕ) (p : ℕ) where
  module _ (t : Tables) (n : ℕ) (low high : List ℕ) (h : IsSettled dying t n low high (some p))
      (used : in_use t.pcbs p ≡ 1) (alive : count p dying ≡ 0) where
    low-IsSettled :
        (prio_of t p == process_prio_low) ≡ true → IsSettled dying t n (low ++ p ∷ []) high none
    low-IsSettled prio =
        moved-IsSettled dying t n low high (some p) h dying n (low ++ p ∷ []) high none refl
          (either_number _ p (ground (arith, h.placed p, count-append p low (p ∷ [])))
            λ q other. ground (arith, h.limbo q, h.placed q, count-append q low (p ∷ [])))
          (either_number _ p (ground (arith, h.ranked p))
            λ q other. ground (arith, h.ranked q, count-append q low (p ∷ [])))

    high-IsSettled :
        (prio_of t p == process_prio_low) ≡ false → IsSettled dying t n low (high ++ p ∷ []) none
    high-IsSettled prio =
        moved-IsSettled dying t n low high (some p) h dying n low (high ++ p ∷ []) none refl
          (either_number _ p (ground (arith, h.placed p, count-append p high (p ∷ [])))
            λ q other. ground (arith, h.limbo q, h.placed q, count-append q high (p ∷ [])))
          (either_number _ p (ground (arith, h.ranked p))
            λ q other. ground (arith, h.ranked q, count-append q high (p ∷ [])))

  pub insert_ready-IsSettled :
      (k : Kernel)
      → IsSettledAs (some p) dying k
      → in_use k.tables.pcbs p ≡ 1
      → count p dying ≡ 0
      → IsSettledAs none dying (insert_ready p k)
  unfolding insert_ready insert_proc_q
  insert_ready-IsSettled k h used alive =
      elim (Bool-cases ((pcb_of k p).p_prio == process_prio_low)) [
        | inl prio ↦ rw prio (
            low-IsSettled k.tables k.process_count k.low_readyqueue k.high_readyqueue h used alive
              prio)
        | inr prio ↦ rw prio (
            high-IsSettled k.tables k.process_count k.low_readyqueue k.high_readyqueue h used alive
              prio)
      ]

module _ (skip : Option ℕ) (p : ℕ) where
  choose-le :
      (high low : List ℕ)
      → let (next, high', low') = choose high low skip in
        (count p low' ≤ count p low) × (count p high' ≤ count p high)
  unfolding choose
  choose-le [] [] = ground arith
  choose-le [] (q ∷ low) = ground arith
  choose-le (h ∷ high) [] = ground arith
  choose-le (h ∷ high) (q ∷ low) = ground arith

-- The process that `_getNextProcess` chooses becomes the current one.
module _ (k : Kernel) (h : IsSettledAs none [] k) where
  chosen-IsSettled : IsSettledAs (get_next_process k).0 [] (chosen k)
  unfolding get_next_process
  chosen-IsSettled =
      moved-IsSettled [] _ _ _ _ none h [] _ _ _ (get_next_process k).0 refl
        (λ p. (omega arith, omega (arith, h.placed p, get_next_process-count k p)))
        (λ p.
          ground
            (arith, h.ranked p, choose-le k.process_to_skip p k.high_readyqueue k.low_readyqueue))

  chosen-in_use : (p : ℕ) → (get_next_process k).0 ≡ some p → in_use k.tables.pcbs p ≡ 1
  chosen-in_use p e =
      let one : held p (get_next_process k).0 ≡ 1 = ap (held p) e ∙ held_self p in
      ground (arith, one, h.placed p, get_next_process-count k p, h.pcbs.owners p)

module _ {ℓ} {A : Type ℓ} (Q : A → Kernel → Type 0) where
  dispatch-Keeps : (p : ℕ) (k : Kernel) → IsConsistent k → Keeps Q (dispatch p k)
  unfolding dispatch start_plt timer_flush stck
  dispatch-Keeps p k (h, used) = elim (Bool-cases ((pcb_of k p).p_prio == process_prio_low)) [
    | inl prio ↦
        rw (prio, dispatch) (put-IsSettled [] _ _ _ _ _ h p _ (unchanged _ _ _ _) (inl refl), used)
    | inr prio ↦
        rw (prio, dispatch) (put-IsSettled [] _ _ _ _ _ h p _ (unchanged _ _ _ _) (inl refl), used)
  ]

  idle-Keeps : (k : Kernel) → IsConsistent k → Keeps Q (idle k)
  unfolding idle
  idle-Keeps k h = elim (Bool-cases (ltb 0 k.softblocked_count)) [
    | inl waits ↦ rw (waits, idle) h
    | inr none_waits ↦ rw (none_waits, idle) tt
  ]

  run_next-Keeps : (next : Option ℕ) (k : Kernel) → IsConsistent k → Keeps Q (run_next next k)
  unfolding run_next
  run_next-Keeps none k h = idle-Keeps k h
  run_next-Keeps (some p) k h = dispatch-Keeps p k h

  -- If everything but the current process, who has left, fits together, `scheduler` leaves the
  -- nucleus with a consistent state.
  pub scheduler-Keeps : (k : Kernel) → IsSettledAs none [] k → Keeps Q (scheduler k)
  unfolding scheduler get_next_process
  scheduler-Keeps k h = elim (Bool-cases (k.process_count == 0)) [
    | inl none_left ↦ rw (none_left, scheduler) tt
    | inr busy ↦
        rw (busy, scheduler)
          (run_next-Keeps (get_next_process k).0 (chosen k)
            (chosen-IsSettled k h, chosen-in_use k h))
  ]

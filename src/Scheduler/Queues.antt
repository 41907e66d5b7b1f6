-- ===== src/Scheduler/Queues.antt =====
-- What the scheduler of phase2/scheduler.c does with the ready queues.
use Prim.Native.Nat.{bit_and, bit_or}
use pandos_plus.Machine.{State}
use pandos_plus.Pcb.{Pcb}
use pandos_plus.Base.{
  ==_refl, ℕ, ◌+◌, ◌<◌, refl, ◌≡◌, ◌≢◌, ◌↔◌, ◌⊎◌, Option, none, some, List, [], ◌∷◌, arith, ltb,
  ◌==◌, if◌then◌else◌, count, inl, inr, Bool-cases,
}
use pandos_plus.Kernel.{Kernel, panic, wait, ldst, Run, left, pcb_of, state_after}
use pandos_plus.Scheduler.{
  get_next_process, choose, scheduler, dispatch, idle, run_next, process_prio_low,
}

-- 1 for the process that the option holds
abbrev pub held : ℕ → Option ℕ → ℕ
held p none = 0
held p (some q) = if p == q then 1 else 0

module _ (skip : Option ℕ) where
  choose-count :
      (p : ℕ) (high low : List ℕ)
      → let (next, high', low') = choose high low skip in
        count p low' + count p high' + held p next ≡ count p low + count p high
  unfolding choose
  choose-count p [] [] = ground arith
  choose-count p [] (q ∷ low) = ground arith
  choose-count p (h ∷ high) [] = ground arith
  choose-count p (h ∷ high) (q ∷ low) = ground arith

  choose-none : (high low : List ℕ) → ((choose high low skip).0 ≡ none) ↔ ((high ≡ []) × (low ≡ []))
  unfolding choose
  choose-none [] [] = ground arith
  choose-none [] (q ∷ low) = (ground arith, ground arith)
  choose-none (h ∷ high) [] = (ground arith, ground arith)
  choose-none (h ∷ high) (q ∷ low) = (ground arith, ground arith)

  -- A process to skip is chosen from the high-priority queue only if no low-priority one is ready.
  choose-skip :
      (p : ℕ) (high low : List ℕ)
      → (choose (p ∷ high) low (some p)).0 ≡ some p
      → 0 < count p low ⊎ (low ≡ [])
  unfolding choose
  choose-skip p high [] e = inr refl
  choose-skip p high (q ∷ low) e = inl (ground arith)

-- The process that `_getNextProcess` returns comes off one ready queue, and no other process joins
-- or leaves them.
pub get_next_process-count :
    (k : Kernel) (p : ℕ)
    → let (next, k') = get_next_process k in
      count p k'.low_readyqueue + count p k'.high_readyqueue + held p next
      ≡ count p k.low_readyqueue + count p k.high_readyqueue
unfolding get_next_process
get_next_process-count k p = choose-count k.process_to_skip p k.high_readyqueue k.low_readyqueue

-- `_getNextProcess` returns NULL exactly if both ready queues are empty.
pub get_next_process-none_iff :
    (k : Kernel)
    → ((get_next_process k).0 ≡ none) ↔ ((k.high_readyqueue ≡ []) × (k.low_readyqueue ≡ []))
unfolding get_next_process
get_next_process-none_iff k = choose-none k.process_to_skip k.high_readyqueue k.low_readyqueue

-- the state with the next process as the current one
abbrev pub chosen : Kernel → Kernel
chosen k = record ((get_next_process k).1) { curr_process = (get_next_process k).0 }

-- The saved state of a process, with the local timer on for a process of low priority and off for
-- another.
abbrev pub resumed_state : Pcb → State
resumed_state pcb = record (pcb.p_s) {
  status =
      if pcb.p_prio == process_prio_low
      then bit_or pcb.p_s.status 0x0800_0000
      else bit_and pcb.p_s.status 0xf7ff_ffff;
}

-- What the scheduler leaves the nucleus with, and what it does not change on the way: the queues, the
-- current process, the skipped one and the priorities.
abbrev pub Resumes : ℕ → Kernel → Run (Unit {0}) → Type 0
Resumes p k r =
    (k' : Kernel) × (r ≡ left (ldst (resumed_state (pcb_of k p))) k')
    × ((pcb_of k' p).p_s ≡ resumed_state (pcb_of k p))
    × (k'.curr_process ≡ k.curr_process)
    × (k'.process_to_skip ≡ k.process_to_skip)
    × (k'.low_readyqueue ≡ k.low_readyqueue)
    × (k'.high_readyqueue ≡ k.high_readyqueue)
    × ((q : ℕ) → (pcb_of k' q).p_prio ≡ (pcb_of k q).p_prio)

dispatch-Resumes : (p : ℕ) (k : Kernel) → Resumes p k (dispatch p k)
unfolding dispatch
dispatch-Resumes p k = elim (Bool-cases ((pcb_of k p).p_prio == process_prio_low)) [
  | inl e ↦ (
    state_after (dispatch {A = Unit {0}} p k),
    rw (e, ==_refl p, dispatch),
    rw (e, ==_refl p, dispatch),
    rw (e, dispatch),
    rw (e, dispatch),
    rw (e, dispatch),
    rw (e, dispatch),
    λ q. rw (e, dispatch) (ground arith),
  )
  | inr e ↦ (
    state_after (dispatch {A = Unit {0}} p k),
    rw (e, ==_refl p, dispatch),
    rw (e, ==_refl p, dispatch),
    rw (e, dispatch),
    rw (e, dispatch),
    rw (e, dispatch),
    rw (e, dispatch),
    λ q. rw (e, dispatch) (ground arith),
  )
]

idle-leaves :
    (j : Kernel)
    → (k' : Kernel) × (idle {A = Unit {0}} j
        ≡ left (if ltb 0 j.softblocked_count then wait else panic) k')
      × (k'.curr_process ≡ j.curr_process)
unfolding idle
idle-leaves j = elim (Bool-cases (ltb 0 j.softblocked_count)) [
  | inl e ↦ (state_after (idle {A = Unit {0}} j), rw (e, idle), rw (e, idle))
  | inr e ↦ (state_after (idle {A = Unit {0}} j), rw (e, idle), rw (e, idle))
]

module _ (k : Kernel) (busy : k.process_count ≢ 0) where
  scheduler_busy : scheduler {A = Unit {0}} k ≡ run_next (get_next_process k).0 (chosen k)
  unfolding scheduler
  scheduler_busy = ground arith

  -- With processes in the system and a process that `_getNextProcess` returns, the scheduler
  -- resumes that one, as the current process, in its saved state with the bit of the local timer
  -- set in the status for a process of low priority and cleared for another, and saves that
  -- state; it changes none of the queues, of the skipped process and of the priorities otherwise.
  pub scheduler-Resumes :
      (p : ℕ) → (get_next_process k).0 ≡ some p → Resumes p (chosen k) (scheduler k)
  unfolding run_next
  scheduler-Resumes p e =
      rw (scheduler_busy, e)
        (dispatch-Resumes p (record ((get_next_process k).1) { curr_process = some p }))

  -- With no ready process the scheduler waits if a process waits for a device or the timer, and
  -- panics otherwise.
  pub scheduler_idles :
      (get_next_process k).0 ≡ none
      → (k' : Kernel) × (scheduler {A = Unit {0}} k
          ≡ left (if ltb 0 k.softblocked_count then wait else panic) k')
        × (k'.curr_process ≡ none)
  unfolding run_next get_next_process
  scheduler_idles e =
      rw (scheduler_busy, e) (idle-leaves (record ((get_next_process k).1) { curr_process = none }))

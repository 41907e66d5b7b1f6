-- ===== src/Nucleus/Slice.antt =====
-- The end of a time slice: `_PLTHandler` of phase2/interrupts.c and the scheduler of
-- phase2/scheduler.c, where processes of low priority share the processor.
use pandos_plus.Base.{
  ℕ, ◌*◌, ◌%◌, ◌≡◌, ◌≢◌, ◌∙◌, refl, sym, ap, subst, true, ◌==◌, arith, none, some, List, [], ◌∷◌,
  ◌++◌, count,
}
use pandos_plus.Machine.{State, word_mod}
use pandos_plus.Pcb.{Pcb, is_alive, pid_of, free_pcb_pid}
use pandos_plus.ProcQueue.{insert_proc_q}
use pandos_plus.Kernel.{Kernel, Run, Leave, ok, left, ldst, and_then, pcb_of, put_pcb}
use pandos_plus.Scheduler.{
  process_prio_low, scheduler, get_next_process, choose, pick_high, insert_ready, set_process_ready,
  update_process_cpu_time, start_plt, timer_flush, stck, timeslice, timescale_addr,
}
use pandos_plus.Scheduler.Queues.{scheduler-Resumes}
use pandos_plus.Interrupts.{plt_handler}
use pandos_plus.Nucleus.Semaphores.{update_process_cpu_time-Keeps, Stays-IsConsistent}
use pandos_plus.Nucleus.{
  IsConsistent, Keeps, Outcome, Returns, Outcome-of_Returns, then_Outcome, map_Outcome,
  both_Outcome, deref-Outcome, in_use, prio_of, LeavesWell,
}
use pandos_plus.Nucleus.Facts.{counted-pos}
use pandos_plus.Nucleus.Interrupts.{plt_handler-Keeps}

-- `p` runs, a process of low priority, the processes of `low` are ready in that order, and no process
-- of high priority is.
pub record Runs (p : ℕ) (low : List ℕ) (k : Kernel) : Type 0 where
  pub consistent : IsConsistent k
  pub curr : k.curr_process ≡ some p
  pub prio : (prio_of k.tables p == process_prio_low) ≡ true
  pub ready : k.low_readyqueue ≡ low
  pub no_high : k.high_readyqueue ≡ []

-- The ready queues, the current process, the count, and the priorities and pids are the same.
abbrev SameQueues : Kernel → Kernel → Type 0
SameQueues k k' =
    (k'.curr_process ≡ k.curr_process)
    × (k'.low_readyqueue ≡ k.low_readyqueue)
    × (k'.high_readyqueue ≡ k.high_readyqueue)
    × (k'.process_count ≡ k.process_count)
    × ((q : ℕ) → prio_of k'.tables q ≡ prio_of k.tables q)
    × ((q : ℕ) → pid_of k'.tables.pcbs q ≡ pid_of k.tables.pcbs q)
    × (k'.prev_state ≡ k.prev_state)

put_pcb-SameQueues :
    (p : ℕ) (v : Pcb) (k : Kernel)
    → v.p_prio ≡ (pcb_of k p).p_prio
    → v.p_pid ≡ (pcb_of k p).p_pid
    → SameQueues k (put_pcb p v k)
put_pcb-SameQueues p v k prio pid =
    (refl, refl, refl, refl, λ q. ground (arith, prio), λ q. ground (arith, pid), refl)

update_process_cpu_time-SameQueues :
    (p : ℕ) (k : Kernel)
    → k.curr_process ≡ some p
    → Returns (λ _ k'. SameQueues k k') (update_process_cpu_time k)
unfolding update_process_cpu_time timer_flush stck
update_process_cpu_time-SameQueues p k running =
    rw (running, update_process_cpu_time)
      (put_pcb-SameQueues p _ (record k { curr_process = some p }) refl refl)

-- `setProcessReady` of a live process of low priority.
set_process_ready_low :
    (p : ℕ) (k : Kernel)
    → pid_of k.tables.pcbs p ≢ free_pcb_pid
    → (prio_of k.tables p == process_prio_low) ≡ true
    → set_process_ready p k ≡ ok tt (record k { low_readyqueue = k.low_readyqueue ++ p ∷ [] })
unfolding set_process_ready insert_ready insert_proc_q
set_process_ready_low p k living prio =
    let alive : is_alive k.tables.pcbs p ≡ true = ground (arith, living) in rw (alive, prio) refl

get_next_process_low :
    (p : ℕ) (low : List ℕ) (k : Kernel)
    → k.low_readyqueue ≡ p ∷ low
    → k.high_readyqueue ≡ []
    → let (next, k') = get_next_process k in
      (next ≡ some p) × (k'.low_readyqueue ≡ low) × (k'.high_readyqueue ≡ [])
unfolding get_next_process choose pick_high
get_next_process_low p low k first no_high =
    (rw (no_high, first) refl, rw (no_high, first) refl, rw no_high refl)

-- How a time slice ends: `p` runs next, and `low` are ready.
abbrev Passes : (ℕ → ℕ) → ℕ → List ℕ → Leave → Kernel → Type 0
Passes prio p low o k' =
    ((s : State) × (o ≡ ldst s))
    × (k'.curr_process ≡ some p)
    × (k'.low_readyqueue ≡ low)
    × (k'.high_readyqueue ≡ [])
    × ((q : ℕ) → prio_of k'.tables q ≡ prio q)

module _ (prio : ℕ → ℕ) (k : Kernel) (prios : (q : ℕ) → prio_of k.tables q ≡ prio q)
    (busy : k.process_count ≢ 0) (no_high : k.high_readyqueue ≡ []) where
  -- With no process of high priority ready, the scheduler resumes the first one of low priority.
  scheduler-Passes :
      (p : ℕ) (low : List ℕ)
      → k.low_readyqueue ≡ p ∷ low
      → Outcome {A = Unit {0}} (Passes prio p low) (λ _ _. ⊥) (scheduler k)
  unfolding get_next_process
  scheduler-Passes p low first =
      let (next, rest, none_high) = get_next_process_low p low k first no_high in
      let (k', e, saved, curr, skip, low', high', same) = scheduler-Resumes k busy p next in
      rw e ((_, refl), curr ∙ next, low' ∙ rest, high' ∙ none_high, λ q. same q ∙ prios q)

-- The same, once the current process `p` is ready again.
reschedule-Passes :
    (prio : ℕ → ℕ) (k : Kernel) (p next : ℕ) (low : List ℕ)
    → ((q : ℕ) → prio_of k.tables q ≡ prio q)
    → k.process_count ≢ 0
    → k.high_readyqueue ≡ []
    → k.low_readyqueue ≡ next ∷ low
    → pid_of k.tables.pcbs p ≢ free_pcb_pid
    → (prio p == process_prio_low) ≡ true
    → Outcome
        (Passes prio next (low ++ p ∷ []))
        (λ _ _. ⊥)
        (and_then
          (set_process_ready p k)
          λ _ k'. scheduler {A = Unit {0}} (record k' { curr_process = none }))
reschedule-Passes prio k p next low prios busy no_high first living is_low =
    rw (set_process_ready_low p k living (ap (λ n. n == process_prio_low) (prios p) ∙ is_low)) (
      scheduler-Passes prio
        (record k { low_readyqueue = k.low_readyqueue ++ p ∷ []; curr_process = none }) prios busy
        no_high next (low ++ p ∷ []) (ap (λ q. q ++ p ∷ []) first))

-- The interrupt of the local timer: the first ready process runs, and the current one is the last.
plt_handler-Passes :
    (p next : ℕ) (low : List ℕ) (k : Kernel)
    → Runs p (next ∷ low) k
    → Outcome (Passes (prio_of k.tables) next (low ++ p ∷ [])) (λ _ _. ⊥) (plt_handler k)
unfolding plt_handler start_plt
plt_handler-Passes p next low k r = deref-Outcome L _ k.curr_process p sliced _ r.curr (
    then_Outcome L (λ _ k'. SameQueues kept k') _ (update_process_cpu_time kept) _
      (Outcome-of_Returns L (λ _ k'. SameQueues kept k') (update_process_cpu_time kept)
        (update_process_cpu_time-SameQueues p kept r.curr))
      (λ _ k2 (curr, low2, high2, total, prios, pids, prev).
        reschedule-Passes (prio_of k.tables) k2 p next low (λ q. prios q ∙ unmoved.4 q)
          (subst (λ n. n ≢ 0) (sym total) busy) (high2 ∙ r.no_high) (low2 ∙ r.ready)
          (subst (λ n. n ≢ free_pcb_pid) (sym (pids p ∙ unmoved.5 p)) (r.consistent.0.alive p uses))
          r.prio))
  where
    L : Leave → Kernel → Type 0
    L = Passes (prio_of k.tables) next (low ++ p ∷ [])

    sliced : Kernel
    sliced = record k { timer = timeslice * k.mem timescale_addr % word_mod }

    kept : Kernel
    kept = put_pcb p (record (pcb_of k p) { p_s = k.prev_state }) sliced

    uses : in_use k.tables.pcbs p ≡ 1
    uses = r.consistent.1 p r.curr

    busy : k.process_count ≢ 0
    busy = ground (arith, counted-pos [] _ _ _ _ _ r.consistent.0 p uses refl)

    unmoved : SameQueues sliced kept
    unmoved = put_pcb-SameQueues p (record (pcb_of k p) { p_s = k.prev_state }) sliced refl refl

-- How a time slice ends, with the state that it leaves.
abbrev pub Continues : ℕ → List ℕ → Leave → Kernel → Type 0
Continues p low o k' = ((s : State) × (o ≡ ldst s)) × Runs p low k'

pub plt_handler-Continues :
    (p next : ℕ) (low : List ℕ) (k : Kernel)
    → Runs p (next ∷ low) k
    → Outcome (Continues next (low ++ p ∷ [])) (λ _ _. ⊥) (plt_handler k)
plt_handler-Continues p next low k r =
    by_end (plt_handler k) (plt_handler-Passes p next low k r)
      (plt_handler-Keeps (λ _ _. ⊥) k p r.curr r.consistent)
  where
    next_low : (prio_of k.tables next == process_prio_low) ≡ true
    next_low = ground (arith, r.consistent.0.ranked next, ap (count next) r.ready)

    by_end :
        (run : Run (Unit {0}))
        → Outcome (Passes (prio_of k.tables) next (low ++ p ∷ [])) (λ _ _. ⊥) run
        → Keeps (λ _ _. ⊥) run
        → Outcome (Continues next (low ++ p ∷ [])) (λ _ _. ⊥) run
    by_end (ok a k') passes keeps = passes
    by_end (left o k') ((s, e), curr, ready, no_high, prios) keeps = (
      (s, e),
      record {
        consistent = subst (λ l. LeavesWell l k') e keeps;
        curr = curr;
        prio = ap (λ n. n == process_prio_low) (prios next) ∙ next_low;
        ready = ready;
        no_high = no_high;
      },
    )

-- The clock of the current process.
pub update_process_cpu_time-Runs :
    (p : ℕ) (low : List ℕ) (k : Kernel)
    → Runs p low k
    → Returns (λ _ k'. Runs p low k' × (k'.prev_state ≡ k.prev_state)) (update_process_cpu_time k)
update_process_cpu_time-Runs p low k r =
    map_Outcome _ _ _ (update_process_cpu_time k)
      (both_Outcome _ LeavesWell _ _ (update_process_cpu_time k)
        (update_process_cpu_time-SameQueues p k r.curr)
        (update_process_cpu_time-Keeps k.curr_process [] k p r.curr r.consistent.0))
      (λ a k' ((curr, low', high', total, prios, pids, prev), stays). (
        record {
          consistent = Stays-IsConsistent k k' a r.consistent stays;
          curr = curr ∙ r.curr;
          prio = ap (λ n. n == process_prio_low) (prios p) ∙ r.prio;
          ready = low' ∙ r.ready;
          no_high = high' ∙ r.no_high;
        },
        prev,
      ))

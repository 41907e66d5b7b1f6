-- ===== src/Semaphore/Steps.antt =====
-- What P and V of phase1/asl.c do, on every branch: take the semaphore, wake the first process that
-- waits, or suspend the caller.
use pandos_plus.Base.{
  ℕ, not, ◌&&◌, refl, ◌≡◌, ◌≢◌, false, Option, none, some, List, [], ◌∷◌, ◌++◌, arith, ◌==◌,
  if◌then◌else◌, inl, inr, Bool-cases, ◌∙◌, ap,
}
use pandos_plus.Machine.{State}
use pandos_plus.Pcb.{is_alive, PcbStore, free_pcb_pid}
use pandos_plus.ProcQueue.{head_proc_q, insert_proc_q}
use pandos_plus.Asl.{Tables, remove_blocked, head_blocked}
use pandos_plus.Asl.View.{waiting}
use pandos_plus.Asl.Invariant.{IsValid}
use pandos_plus.Asl.Unblocked.{Removed, remove_blocked_lem, head_blocked_lem}
use pandos_plus.Kernel.{Kernel, ok, Run, pcb_of}
use pandos_plus.Scheduler.{process_prio_low, insert_ready, set_process_ready}
use pandos_plus.Semaphore.{set_tables, write_word, take_blocked, wake, proceed, sem_p, sem_v}

-- `p` at the end of its ready queue, if it is alive
abbrev pub made_ready : ℕ → Kernel → Kernel
made_ready p k = if is_alive k.tables.pcbs p then insert_ready p k else k

-- What holds of the state, and with `p` at the end of either ready queue, holds with `p` made ready.
pub made_ready_cases {ℓ} :
    (P : Kernel → Type ℓ) (p : ℕ) (k : Kernel)
    → P k
    → P (record k { low_readyqueue = k.low_readyqueue ++ p ∷ [] })
    → P (record k { high_readyqueue = k.high_readyqueue ++ p ∷ [] })
    → P (made_ready p k)
unfolding insert_ready
made_ready_cases P p k dead low high = elim (Bool-cases (is_alive k.tables.pcbs p)) [
  | inr e ↦ rw e dead
  | inl e ↦ elim (Bool-cases ((pcb_of k p).p_prio == process_prio_low)) [
    | inl f ↦ rw (e, f) low
    | inr f ↦ rw (e, f) high
  ]
]

module _ (p : ℕ) (k : Kernel) where
  pub tables-made_ready : (made_ready p k).tables ≡ k.tables
  tables-made_ready = made_ready_cases (λ j. j.tables ≡ k.tables) p k refl refl refl

  pub mem-made_ready : (made_ready p k).mem ≡ k.mem
  mem-made_ready = made_ready_cases (λ j. j.mem ≡ k.mem) p k refl refl refl

  pub softblocked-made_ready : (made_ready p k).softblocked_count ≡ k.softblocked_count
  softblocked-made_ready =
      made_ready_cases (λ j. j.softblocked_count ≡ k.softblocked_count) p k refl refl refl

-- The caller goes on: with nobody waiting the word becomes `v` and nothing else changes; else the
-- first process `p` that waits is returned, is no longer blocked and is ready, and the word stays.
pub record Proceeds (v sem : ℕ) (k : Kernel) (r : Run (Option ℕ)) : Type 0 where
  pub alone : waiting k.tables.asl sem ≡ [] → r ≡ ok none (write_word sem v k)
  pub hands_over :
      (p : ℕ) (q : List ℕ)
      → waiting k.tables.asl sem ≡ p ∷ q
      → (t : Tables) × (r ≡ ok (some p) (made_ready p (set_tables t k))) × Removed sem p k.tables t

wake-ok :
    (sem p : ℕ) (k : Kernel) (t : Tables)
    → remove_blocked sem k.tables ≡ some (some p, t)
    → wake sem k ≡ ok (some p) (made_ready p (set_tables t k))
unfolding wake set_process_ready
wake-ok sem p k t removed =
    let taken : take_blocked sem k ≡ ok (some p) (set_tables t k) =
      unfold take_blocked in rw (removed, take_blocked) in
    rw taken

pub proceed-Proceeds :
    (v sem : ℕ) (k : Kernel) → IsValid k.tables → Proceeds v sem k (proceed v sem k)
unfolding proceed head_proc_q
proceed-Proceeds v sem k valid = record {
  alone = λ e.
      let h : head_blocked sem k.tables.asl ≡ none =
        head_blocked_lem k.tables.asl sem ∙ ap head_proc_q e in
      rw (h, proceed);
  hands_over = λ p q e.
      let (t, removed, facts) = remove_blocked_lem k.tables sem p q valid e in
      let h : head_blocked sem k.tables.asl ≡ some p =
        head_blocked_lem k.tables.asl sem ∙ ap head_proc_q e in
      (t, rw (h, proceed) (wake-ok sem p k t removed), facts);
}

-- P on a semaphore that is not 0.
pub sem_p-Proceeds :
    (sem : ℕ) (process : Option ℕ) (state : Option State) (k : Kernel)
    → IsValid k.tables
    → k.mem sem ≢ 0
    → Proceeds 0 sem k (sem_p sem process state k)
unfolding sem_p
sem_p-Proceeds sem process state k valid ne =
    let e : (k.mem sem == 0) ≡ false = ground arith in rw e (proceed-Proceeds 0 sem k valid)

-- V on a semaphore that is not 1.
pub sem_v-Proceeds :
    (sem : ℕ) (process : Option ℕ) (state : Option State) (k : Kernel)
    → IsValid k.tables
    → k.mem sem ≢ 1
    → Proceeds 1 sem k (sem_v sem process state k)
unfolding sem_v
sem_v-Proceeds sem process state k valid ne =
    let e : (k.mem sem == 1) ≡ false = ground arith in rw e (proceed-Proceeds 1 sem k valid)

-- With nobody waiting, P on a semaphore that is not 0 sets it to 0, returns NULL and changes nothing
-- else.
pub sem_p_alone :
    (sem : ℕ) (process : Option ℕ) (state : Option State) (k : Kernel)
    → IsValid k.tables
    → k.mem sem ≢ 0
    → waiting k.tables.asl sem ≡ []
    → sem_p sem process state k ≡ ok none (write_word sem 0 k)
sem_p_alone sem process state k valid ne = (sem_p-Proceeds sem process state k valid ne).alone

-- With nobody waiting, V on a semaphore that is not 1 sets it to 1, returns NULL and changes nothing
-- else.
pub sem_v_alone :
    (sem : ℕ) (process : Option ℕ) (state : Option State) (k : Kernel)
    → IsValid k.tables
    → k.mem sem ≢ 1
    → waiting k.tables.asl sem ≡ []
    → sem_v sem process state k ≡ ok none (write_word sem 1 k)
sem_v_alone sem process state k valid ne = (sem_v-Proceeds sem process state k valid ne).alone

-- the ready queues of low and of high priority, with `p` at the end of the one of its priority if it
-- is alive
abbrev pub low_with : ℕ → Kernel → List ℕ
low_with p k =
    if not ((pcb_of k p).p_pid == free_pcb_pid) && (pcb_of k p).p_prio == process_prio_low
    then k.low_readyqueue ++ p ∷ []
    else k.low_readyqueue

abbrev pub high_with : ℕ → Kernel → List ℕ
high_with p k =
    if not ((pcb_of k p).p_pid == free_pcb_pid) && not ((pcb_of k p).p_prio == process_prio_low)
    then k.high_readyqueue ++ p ∷ []
    else k.high_readyqueue

-- the state with the tables `t`, and `p` ready
abbrev pub with_ready : ℕ → Tables → Kernel → Kernel
with_ready p t k = record k {
  tables = t;
  low_readyqueue = low_with p k;
  high_readyqueue = high_with p k;
}

pub made_ready-with_ready :
    (sem p : ℕ) (t : Tables) (k : Kernel)
    → Removed sem p k.tables t
    → made_ready p (set_tables t k) ≡ with_ready p t k
unfolding insert_ready insert_proc_q
made_ready-with_ready sem p t k removed = elim (Bool-cases ((pcb_of k p).p_pid == free_pcb_pid)) [
  | inl dead ↦ rw (removed.pids p, dead) refl
  | inr alive ↦ elim (Bool-cases ((pcb_of k p).p_prio == process_prio_low)) [
    | inl low ↦ rw (removed.pids p, same_prio, alive, low) refl
    | inr high ↦ rw (removed.pids p, same_prio, alive, high) refl
  ]
]
  where
    same_prio : (t.pcbs.pcb p).p_prio ≡ (pcb_of k p).p_prio
    same_prio = ap (λ (s : PcbStore). (s.pcb p).p_prio) removed.pcbs ∙ ground arith

-- The first process that waits is returned, is blocked no longer and joins the end of the ready queue
-- of its priority if it is alive; nothing else changes, the word neither.
abbrev pub Wakes : ℕ → ℕ → Kernel → Run (Option ℕ) → Type 0
Wakes sem p k r = (t : Tables) × (r ≡ ok (some p) (with_ready p t k)) × Removed sem p k.tables t

hands_over-Wakes :
    (v sem p : ℕ) (q : List ℕ) (k : Kernel) (r : Run (Option ℕ))
    → Proceeds v sem k r
    → waiting k.tables.asl sem ≡ p ∷ q
    → Wakes sem p k r
hands_over-Wakes v sem p q k r proceeds e =
    let (t, done, removed) = proceeds.hands_over p q e in
    (t, done ∙ ap (ok (some p)) (made_ready-with_ready sem p t k removed), removed)

-- In valid tables, P on a semaphore that is not 0 and has processes waiting returns the first of
-- them, unblocked and, if it is alive, at the end of the ready queue of its priority; nothing
-- else changes, the word of the semaphore neither.
pub sem_p-Wakes :
    (sem : ℕ) (process : Option ℕ) (state : Option State) (k : Kernel) (p : ℕ) (q : List ℕ)
    → IsValid k.tables
    → k.mem sem ≢ 0
    → waiting k.tables.asl sem ≡ p ∷ q
    → Wakes sem p k (sem_p sem process state k)
sem_p-Wakes sem process state k p q valid ne =
    hands_over-Wakes 0 sem p q k _ (sem_p-Proceeds sem process state k valid ne)

-- In valid tables, V on a semaphore that is not 1 and has processes waiting returns the first of
-- them, unblocked and, if it is alive, at the end of the ready queue of its priority; nothing
-- else changes, the word of the semaphore neither.
pub sem_v-Wakes :
    (sem : ℕ) (process : Option ℕ) (state : Option State) (k : Kernel) (p : ℕ) (q : List ℕ)
    → IsValid k.tables
    → k.mem sem ≢ 1
    → waiting k.tables.asl sem ≡ p ∷ q
    → Wakes sem p k (sem_v sem process state k)
sem_v-Wakes sem process state k p q valid ne =
    hands_over-Wakes 1 sem p q k _ (sem_v-Proceeds sem process state k valid ne)

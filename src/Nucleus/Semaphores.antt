-- ===== src/Nucleus/Semaphores.antt =====
-- P and V of phase1/asl.c and the state of the nucleus as a whole.
use pandos_plus.Base.{
  ℕ, ◌+◌, ◌-◌, ◌<◌, ◌≤◌, ◌≡◌, ◌≢◌, ◌∙◌, refl, sym, ap, subst, true, ◌==◌, arith, Option, none, some,
  List, [], ◌∷◌, inl, inr, Bool-cases, count, length,
}
use pandos_plus.Machine.{State, null}
use pandos_plus.Pcb.{PcbStore, is_alive}
use pandos_plus.Asl.{Tables, insert_blocked, set_sem_add}
use pandos_plus.Asl.View.{waiting}
use pandos_plus.Asl.Unblocked.{Removed}
use pandos_plus.Asl.Blocked.{Inserted, insert_blocked_lem, insert_blocked-pcbs}
use pandos_plus.Kernel.{Kernel}
use pandos_plus.Scheduler.{
  scheduler, set_process_blocked, update_process_cpu_time, timer_flush, stck,
}
use pandos_plus.Scheduler.Queues.{held}
use pandos_plus.Semaphore.{set_tables, suspend, block_on, proceed, sem_p, sem_v}
use pandos_plus.Semaphore.Steps.{made_ready, proceed-Proceeds}
use pandos_plus.Nucleus.{IsSettled, IsSettledAs, IsConsistent, Keeps, in_use, then_Keeps}
use pandos_plus.Nucleus.Facts.{unqueued-IsIdle, waits-notes}
use pandos_plus.Nucleus.Frame.{put-IsSettled, unchanged}
use pandos_plus.Nucleus.Newborn.{join-IsSettled, insert_ready_cases}
use pandos_plus.Nucleus.Ready.{scheduler-Keeps}
use pandos_plus.Nucleus.Waiting.{removed-IsSettled, inserted-IsSettled}

-- Settled as before, with the same current process and the same processes in use.
abbrev pub Stays {ℓ} : {A : Type ℓ} → Option ℕ → List ℕ → Kernel → A → Kernel → Type 0
Stays curr dying k _ k' =
    IsSettledAs curr dying k'
    × (k'.curr_process ≡ k.curr_process)
    × (k'.tables.pcbs.pid_list ≡ k.tables.pcbs.pid_list)

module _ (curr : Option ℕ) (dying : List ℕ) (k : Kernel) (p : ℕ) (running : k.curr_process ≡ some p)
    (h : IsSettledAs curr dying k) where
  pub update_process_cpu_time-Keeps : Keeps (Stays curr dying k) (update_process_cpu_time k)
  unfolding update_process_cpu_time timer_flush stck
  update_process_cpu_time-Keeps =
      rw (running, update_process_cpu_time)
        (put-IsSettled dying _ _ _ _ _ h p _ (unchanged _ _ _ _) (inl refl), refl, refl)

  pub set_process_blocked-Keeps :
      (state : State) → Keeps (Stays curr dying k) (set_process_blocked (some state) k)
  unfolding set_process_blocked update_process_cpu_time timer_flush stck
  set_process_blocked-Keeps state =
      rw (running, set_process_blocked)
        (
          put-IsSettled dying _ _ _ _ _
              (put-IsSettled dying _ _ _ _ _ h p _ (unchanged _ _ _ _) (inl refl)) p _
              (unchanged _ _ _ _) (inl refl),
          refl,
          refl,
        )

-- With `p` in the queue of the semaphore in the tables `t'`, and no longer counted as running.
inserted_in :
    (k : Kernel) (sem p : ℕ) (t' : Tables)
    → IsSettledAs (some p) [] k
    → in_use k.tables.pcbs p ≡ 1
    → sem ≢ null
    → t'.pcbs ≡ set_sem_add p sem k.tables.pcbs
    → Inserted sem p k.tables t'
    → IsSettledAs none [] (set_tables t' k)
inserted_in k sem p t' h uses real e =
    subst
      (λ (s : PcbStore).
        Inserted sem p k.tables (record { pcbs = s; asl = t'.asl })
        → IsSettledAs none [] (set_tables (record { pcbs = s; asl = t'.asl }) k))
      (sym e) (inserted-IsSettled k.tables sem p t'.asl _ _ _ none h uses real)

module _ {ℓ} {A : Type ℓ} (Q : A → Kernel → Type 0) (sem p : ℕ) (state : State) (k : Kernel)
    (running : k.curr_process ≡ some p) (h : IsConsistent k) (real : sem ≢ null) where
  pub suspend-Keeps : Keeps Q (suspend sem (some p) (some state) k)
  unfolding suspend block_on
  suspend-Keeps = elim (Bool-cases (insert_blocked sem p k.tables).0) [
    | inl full ↦ rw (full, suspend) tt
    | inr room ↦
        let settled : IsSettledAs (some p) [] k = rw (← running) h.0 in
        let idle =
          unqueued-IsIdle [] _ _ _ _ _ settled p
            (ground (arith, settled.placed p, h.1 p running)) in
        let t' = (insert_blocked sem p k.tables).1 in
        let blocked =
          inserted_in k sem p t' settled (h.1 p running) real
            (insert_blocked-pcbs k.tables sem p room)
            (insert_blocked_lem k.tables sem p settled.asl idle room) in
        rw (room, suspend)
          (then_Keeps _ Q (set_process_blocked (some state) (set_tables t' k)) (λ _. scheduler)
            (set_process_blocked-Keeps none [] (set_tables t' k) p running blocked state)
            (λ _ j stays. scheduler-Keeps Q j stays.0))
  ]

count-le : (p : ℕ) (xs : List ℕ) → count p xs ≤ length xs
count-le p [] = omega arith
count-le p (x ∷ xs) = ground (arith, count-le p xs)

module _ (k : Kernel) (h : IsConsistent k) (sem p : ℕ)
    (waits : 0 < count p (waiting k.tables.asl sem)) where
  waiter-uses : (in_use k.tables.pcbs p ≡ 1) × (held p k.curr_process ≡ 0)
  waiter-uses =
      let noted =
        ap (λ (x : ℕ). count p (waiting k.tables.asl x))
          (waits-notes [] _ _ _ _ _ h.0 sem p waits) in
      (
        ground (arith, h.0.placed p, h.0.pcbs.owners p),
        ground (arith, h.0.placed p, h.0.pcbs.owners p),
      )

  removed_in :
      (t' : Tables)
      → Removed sem p k.tables t'
      → IsSettled
          (p ∷ [])
          t'
          (k.process_count - 1)
          k.low_readyqueue
          k.high_readyqueue
          k.curr_process
  removed_in t' r =
      subst
        (λ (s : PcbStore).
          Removed sem p k.tables (record { pcbs = s; asl = t'.asl })
          → IsSettled (p ∷ []) (record { pcbs = s; asl = t'.asl }) (k.process_count - 1)
              k.low_readyqueue k.high_readyqueue k.curr_process)
        (sym r.pcbs)
        (removed-IsSettled k.tables sem p t'.asl (k.process_count - 1) _ _ k.curr_process []
          (rw (← some_process) h.0) waits)
        r
    where
      some_process : k.process_count ≡ k.process_count - 1 + 1
      some_process = omega (arith, waiter-uses.0, h.0.counted, count-le p k.tables.pcbs.pid_list)

  -- The first process that waits becomes ready.
  pub woken-Stays :
      (t' : Tables) (a : Option ℕ)
      → Removed sem p k.tables t'
      → Stays k.curr_process [] k a (made_ready p (set_tables t' k))
  woken-Stays t' a r =
      let same : t'.pcbs.pid_list ≡ k.tables.pcbs.pid_list =
        ap (λ (s : PcbStore). s.pid_list) r.pcbs in
      let living = h.0.alive p waiter-uses.0 in
      let alive : is_alive t'.pcbs p ≡ true = ground (arith, r.pids p, living) in
      rw alive (
        join-IsSettled p (k.process_count - 1) k.curr_process (set_tables t' k) waiter-uses.1
            (removed_in t' r)
            (omega (arith, waiter-uses.0, h.0.counted, count-le p k.tables.pcbs.pid_list)),
        insert_ready_cases (λ j. j.curr_process ≡ k.curr_process) p _ λ low high. refl,
        insert_ready_cases (λ j. j.tables.pcbs.pid_list ≡ k.tables.pcbs.pid_list) p _
            λ low high. same,
      )

-- What stays settled with the current process in use is consistent.
pub Stays-IsConsistent {ℓ} :
    {A : Type ℓ} (k k' : Kernel) (a : A)
    → IsConsistent k
    → Stays k.curr_process [] k a k'
    → IsConsistent k'
Stays-IsConsistent k k' a h (settled, curr, pids) =
    (rw curr settled, λ p running. ap (count p) pids ∙ h.1 p (sym curr ∙ running))

module _ (sem : ℕ) (k : Kernel) (h : IsConsistent k) where
  -- The side of P and V that does not suspend the caller.
  pub proceed-Keeps : (v : ℕ) → Keeps (Stays k.curr_process [] k) (proceed v sem k)
  proceed-Keeps v = by_queue (waiting k.tables.asl sem) refl
    where
      by_queue :
          (w : List ℕ)
          → waiting k.tables.asl sem ≡ w
          → Keeps (Stays k.curr_process [] k) (proceed v sem k)
      by_queue [] e = rw ((proceed-Proceeds v sem k h.0.asl).alone e) (h.0, refl, refl)
      by_queue (p ∷ q) e =
          let (t', r, removed) = (proceed-Proceeds v sem k h.0.asl).hands_over p q e in
          rw r (woken-Stays k h sem p (ground (arith, ap (count p) e)) t' (some p) removed)

  module _ (p : ℕ) (state : State) (running : k.curr_process ≡ some p) (real : sem ≢ null) where
    -- P of the current process.
    pub sem_p-Keeps : Keeps (Stays k.curr_process [] k) (sem_p sem (some p) (some state) k)
    unfolding sem_p
    sem_p-Keeps = elim (Bool-cases (k.mem sem == 0)) [
      | inl e ↦ rw e (suspend-Keeps _ sem p state k running h real)
      | inr e ↦ rw e (proceed-Keeps 0)
    ]

    -- V of the current process.
    pub sem_v-Keeps : Keeps (Stays k.curr_process [] k) (sem_v sem (some p) (some state) k)
    unfolding sem_v
    sem_v-Keeps = elim (Bool-cases (k.mem sem == 1)) [
      | inl e ↦ rw e (suspend-Keeps _ sem p state k running h real)
      | inr e ↦ rw e (proceed-Keeps 1)
    ]

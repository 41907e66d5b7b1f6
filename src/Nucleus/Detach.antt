-- ===== src/Nucleus/Detach.antt =====
-- What `_killProcess` of phase2/exceptions.c does to the process itself, and the state of the nucleus as a
-- whole.
use pandos_plus.Base.{
  ℕ, ◌+◌, ◌<◌, ◌≤◌, ◌≡◌, ◌∙◌, ◌⊎◌, refl, sym, ap, subst, true, false, ◌==◌, arith, Option, none,
  List, ◌∷◌, inl, inr, Bool-cases, either_number, count, count-erase, erase, has_iff-count,
}
use pandos_plus.Machine.{null}
use pandos_plus.Pcb.{PcbStore}
use pandos_plus.ProcTree.{out_child}
use pandos_plus.ProcTree.Family.{parent, Orphans}
use pandos_plus.ProcQueue.Laws.{out_proc_q_lem}
use pandos_plus.Asl.{Tables, set_sem_add}
use pandos_plus.Asl.View.{waiting}
use pandos_plus.Asl.Invariant.{sem_add_of}
use pandos_plus.Asl.Unblocked.{Removed, out_blocked_lem}
use pandos_plus.Platform.{Platform}
use pandos_plus.Devices.{is_soft_blocked}
use pandos_plus.Kernel.{Kernel, pcb_of, set_pcbs}
use pandos_plus.Scheduler.{process_prio_low}
use pandos_plus.Semaphore.{set_tables}
use pandos_plus.Syscalls.{decrement, detach, leave_semaphore, leave_ready_queue}
use pandos_plus.Nucleus.{IsSettled, IsSettledAs, Returns, in_use, prio_of, then_Returns}
use pandos_plus.Nucleus.Facts.{counted-pos}
use pandos_plus.Nucleus.Frame.{moved-IsSettled}
use pandos_plus.Syscalls.Detach.{out_child-orphan}
use pandos_plus.Nucleus.Leaving.{
  out_child-pids, out_child-IsSettled, parent-gone, parent-before, parent-other,
}
use pandos_plus.Nucleus.Below.{Shrinks}
use pandos_plus.Nucleus.Waiting.{removed-IsSettled}

-- The process that is killed has left the queue of its semaphore, and is not counted any more; from
-- the ready queue it has still to go.
abbrev HalfOut : Option ℕ → List ℕ → ℕ → Kernel → Type 0
HalfOut curr dying p k =
    IsSettledAs curr (p ∷ dying) k
    ⊎ (IsSettled dying k.tables (k.process_count + 1) k.low_readyqueue k.high_readyqueue curr
        × (sem_add_of k.tables p ≡ null))

-- No process has joined, and none has got another parent.
abbrev pub Fewer : Kernel → Kernel → Type 0
Fewer k k' =
    (k'.curr_process ≡ k.curr_process)
    × ((q : ℕ) → in_use k'.tables.pcbs q ≤ in_use k.tables.pcbs q)
    × Shrinks k.tables.pcbs k'.tables.pcbs

-- Nothing that matters to the others has changed.
abbrev Same : Kernel → Kernel → Type 0
Same k k' =
    (k'.curr_process ≡ k.curr_process)
    × (k'.process_count ≡ k.process_count)
    × (k'.tables.pcbs.pid_list ≡ k.tables.pcbs.pid_list)
    × ((q : ℕ) → parent k'.tables.pcbs q ≡ parent k.tables.pcbs q)

module _ (pf : Platform) (curr : Option ℕ) (dying : List ℕ) (p : ℕ) where
  -- with the tables that `outBlocked` leaves
  blocked_out :
      (k : Kernel) (t' : Tables)
      → IsSettled dying k.tables (k.process_count + 1) k.low_readyqueue k.high_readyqueue curr
      → 0 < count p (waiting k.tables.asl (sem_add_of k.tables p))
      → Removed (sem_add_of k.tables p) p k.tables t'
      → IsSettled (p ∷ dying) t' k.process_count k.low_readyqueue k.high_readyqueue curr
  blocked_out k t' h waits r =
      subst
        (λ (s : PcbStore).
          Removed (sem_add_of k.tables p) p k.tables (record { pcbs = s; asl = t'.asl })
          → IsSettled (p ∷ dying) (record { pcbs = s; asl = t'.asl }) k.process_count
              k.low_readyqueue k.high_readyqueue curr)
        (sym r.pcbs)
        (removed-IsSettled k.tables (sem_add_of k.tables p) p t'.asl k.process_count _ _ curr dying
          h waits)
        r

  Same-after :
      (k : Kernel) (t' : Tables)
      → t'.pcbs ≡ set_sem_add p null k.tables.pcbs
      → Same k (set_tables t' k)
  Same-after k t' e = (
    refl,
    refl,
    ap (λ (s : PcbStore). s.pid_list) e,
    λ q. ap (λ (s : PcbStore). parent s q) e ∙ ground arith,
  )

  leave_semaphore-HalfOut :
      (k : Kernel)
      → IsSettled dying k.tables (k.process_count + 1) k.low_readyqueue k.high_readyqueue curr
      → in_use k.tables.pcbs p ≡ 1
      → Returns (λ _ k'. HalfOut curr dying p k' × Same k k') (leave_semaphore pf p k)
  unfolding leave_semaphore
  leave_semaphore-HalfOut k h uses = elim (Bool-cases ((pcb_of k p).p_sem_add == null)) [
    | inl idle ↦ rw (idle, leave_semaphore) (inr (h, ground arith), (refl, refl, refl, λ q. refl))
    | inr noted ↦
        let waits = h.noted p uses (ground arith) in
        let (t', e, removed) =
          out_blocked_lem k.tables p h.asl (
            ground
              (arith, waits, has_iff-count p (waiting k.tables.asl (sem_add_of k.tables p)))) in
        elim (Bool-cases (is_soft_blocked pf (pcb_of k p).p_sem_add)) [
          | inl soft ↦
              rw (noted, soft, e, soft, leave_semaphore)
                (inl (blocked_out k t' h waits removed), Same-after k t' removed.pcbs)
          | inr hard ↦
              rw (noted, hard, e, hard, leave_semaphore)
                (inl (blocked_out k t' h waits removed), Same-after k t' removed.pcbs)
        ]
  ]

  module _ (k : Kernel) (uses : in_use k.tables.pcbs p ≡ 1) (fresh : count p dying ≡ 0) where
    off_low :
        HalfOut curr dying p k
        → (prio_of k.tables p == process_prio_low) ≡ true
        → IsSettled
            (p ∷ dying)
            k.tables
            k.process_count
            (erase p k.low_readyqueue)
            k.high_readyqueue
            curr
    off_low (inl h) prio =
        moved-IsSettled (p ∷ dying) _ _ _ _ _ h (p ∷ dying) k.process_count
          (erase p k.low_readyqueue) k.high_readyqueue curr refl
          (either_number _ p
            (ground (arith, h.placed p, h.limbo p, uses, count-erase p p k.low_readyqueue))
            λ q ne. ground (arith, h.placed q, h.limbo q, ne, count-erase q p k.low_readyqueue))
          (λ q. ground (arith, h.ranked q, count-erase q p k.low_readyqueue))
    off_low (inr (h, idle)) prio =
        moved-IsSettled dying _ _ _ _ _ h (p ∷ dying) k.process_count (erase p k.low_readyqueue)
          k.high_readyqueue curr (omega arith)
          (either_number _ p
            (ground (
              arith,
              h.placed p,
              h.ranked p,
              uses,
              fresh,
              count-erase p p k.low_readyqueue,
              ap (λ (x : ℕ). count p (waiting k.tables.asl x)) idle,
              h.nowhere p,
            ))
            λ q ne. ground (arith, h.placed q, h.limbo q, ne, count-erase q p k.low_readyqueue))
          (λ q. ground (arith, h.ranked q, count-erase q p k.low_readyqueue))

    off_high :
        HalfOut curr dying p k
        → (prio_of k.tables p == process_prio_low) ≡ false
        → IsSettled
            (p ∷ dying)
            k.tables
            k.process_count
            k.low_readyqueue
            (erase p k.high_readyqueue)
            curr
    off_high (inl h) prio =
        moved-IsSettled (p ∷ dying) _ _ _ _ _ h (p ∷ dying) k.process_count k.low_readyqueue
          (erase p k.high_readyqueue) curr refl
          (either_number _ p
            (ground (arith, h.placed p, h.limbo p, uses, count-erase p p k.high_readyqueue))
            λ q ne. ground (arith, h.placed q, h.limbo q, ne, count-erase q p k.high_readyqueue))
          (λ q. ground (arith, h.ranked q, count-erase q p k.high_readyqueue))
    off_high (inr (h, idle)) prio =
        moved-IsSettled dying _ _ _ _ _ h (p ∷ dying) k.process_count k.low_readyqueue
          (erase p k.high_readyqueue) curr (omega arith)
          (either_number _ p
            (ground (
              arith,
              h.placed p,
              h.ranked p,
              uses,
              fresh,
              count-erase p p k.high_readyqueue,
              ap (λ (x : ℕ). count p (waiting k.tables.asl x)) idle,
              h.nowhere p,
            ))
            λ q ne. ground (arith, h.placed q, h.limbo q, ne, count-erase q p k.high_readyqueue))
          (λ q. ground (arith, h.ranked q, count-erase q p k.high_readyqueue))

    leave_ready_queue-IsSettled :
        HalfOut curr dying p k
        → IsSettledAs curr (p ∷ dying) (leave_ready_queue pf p k)
          × Same k (leave_ready_queue pf p k)
    unfolding leave_ready_queue
    leave_ready_queue-IsSettled half = elim (Bool-cases ((pcb_of k p).p_prio == process_prio_low)) [
      | inl prio ↦
          rw (prio, out_proc_q_lem k.low_readyqueue p)
            (off_low half prio, (refl, refl, refl, λ q. refl))
      | inr prio ↦
          rw (prio, out_proc_q_lem k.high_readyqueue p)
            (off_high half prio, (refl, refl, refl, λ q. refl))
    ]

  -- The process stands between the queues, with its children and without a parent.
  abbrev pub Detached : Kernel → Unit {0} → Kernel → Type 0
  Detached k _ k' =
      IsSettledAs curr (p ∷ dying) k'
      × (parent k'.tables.pcbs p ≡ none)
      × (k'.process_count + 1 ≡ k.process_count)
      × Fewer k k'
      × ((q : ℕ) → in_use k'.tables.pcbs q ≡ in_use k.tables.pcbs q)
      × ((c : ℕ) → (p == c) ≡ false → parent k'.tables.pcbs c ≡ parent k.tables.pcbs c)

  pub detach-Detached :
      (k : Kernel)
      → IsSettledAs curr dying k
      → in_use k.tables.pcbs p ≡ 1
      → count p dying ≡ 0
      → Returns (Detached k) (detach pf p k)
  unfolding detach
  detach-Detached k h uses fresh =
      then_Returns (λ _ k'. HalfOut curr dying p k' × Same k1 k') (Detached k)
        (leave_semaphore pf p k1) _
        (leave_semaphore-HalfOut k1 (rw less (out_child-IsSettled dying _ _ _ _ _ h p))
          (ap (count p) (out_child-pids p k.tables.pcbs) ∙ uses))
        (λ _ k2 (half, (curr2, count2, pids2, parents2)).
          let pids : k2.tables.pcbs.pid_list ≡ k.tables.pcbs.pid_list =
            pids2 ∙ out_child-pids p k.tables.pcbs in
          let (settled, (curr3, count3, pids3, parents3)) =
            leave_ready_queue-IsSettled k2 (ap (count p) pids ∙ uses) fresh half in
          (
            settled,
            parents3 p
                ∙ parents2 p
                ∙ parent-gone p k.tables.pcbs (out_child p k.tables.pcbs).1 gone,
            ap (λ (n : ℕ). n + 1) (count3 ∙ count2) ∙ less,
            (
              curr3 ∙ curr2,
              λ q. omega (arith, ap (count q) (pids3 ∙ pids)),
              λ c q e.
                  parent-before p k.tables.pcbs (out_child p k.tables.pcbs).1 gone c q
                    (sym (parents3 c ∙ parents2 c) ∙ e),
            ),
            λ q. ap (count q) (pids3 ∙ pids),
            λ c ne.
                parents3 c
                ∙ parents2 c
                ∙ parent-other p k.tables.pcbs (out_child p k.tables.pcbs).1 gone c ne,
          ))
    where
      k1 : Kernel
      k1 = record (set_pcbs (out_child p k.tables.pcbs).1 k) {
        process_count = decrement k.process_count;
      }

      gone : Orphans p k.tables.pcbs (out_child p k.tables.pcbs).1
      gone = out_child-orphan pf p k.tables.pcbs h.linked

      less : decrement k.process_count + 1 ≡ k.process_count
      less = omega (arith, h.counted, h.pcbs.total, counted-pos dying _ _ _ _ _ h p uses fresh)

-- ===== src/Nucleus/Waiting.antt =====
-- phase1/asl.c and the state of the nucleus as a whole: a process leaves the queue of a semaphore, and
-- the current process joins one.
use pandos_plus.Syscalls.Detach.{same-IsLinked}
use pandos_plus.Asl.Tree.{SameTree}
use pandos_plus.Asl.Invariant
use pandos_plus.Base.{
  Bool-cases, ltb, length, ◌≤◌, ℕ, ◌+◌, ◌-◌, ◌<◌, ◌≡◌, ◌≢◌, ◌∙◌, refl, sym, ap, false, ◌==◌, arith,
  Option, none, some, List, [], ◌∷◌, inl, inr, either_number, count, count-append, count-erase,
}
use pandos_plus.Machine.{null}
use pandos_plus.Pcb.{pid_of}
use pandos_plus.Asl.{Tables, AslStore, set_sem_add}
use pandos_plus.Asl.View.{waiting}
use pandos_plus.Asl.Invariant.{sem_add_of}
use pandos_plus.Asl.Unblocked.{Removed}
use pandos_plus.Asl.Blocked.{Inserted}
use pandos_plus.Scheduler.Queues.{held}
use pandos_plus.Nucleus.{IsSettled, in_use, queued, prio_of}
use pandos_plus.Nucleus.Facts.{waits-notes}
use pandos_plus.Nucleus.Frame.{same_pids-IsValid}

-- One PCB notes another semaphore, and the queues of the semaphores change.
module _ (t : Tables) (p addr : ℕ) (asl' : AslStore) (dying : List ℕ) (n : ℕ) (low high : List ℕ)
    (curr : Option ℕ) (h : IsSettled dying t n low high curr) where
  abbrev reseated : Tables
  reseated = record { pcbs = set_sem_add p addr t.pcbs; asl = asl' }

  same_tree : SameTree t.pcbs reseated.pcbs
  same_tree q = (ground arith, ground arith)

  pub sem_add-reseated : (q : ℕ) → (q == p) ≡ false → sem_add_of reseated q ≡ sem_add_of t q
  sem_add-reseated q ne = ground arith

  pub sem_add-reseated_self : sem_add_of reseated p ≡ addr
  sem_add-reseated_self = ground arith

  pub reseated-IsSettled :
      (dying' : List ℕ) (m : ℕ) (curr' : Option ℕ)
      → Invariant.IsValid reseated
      → m + length dying' ≡ n + length dying
      → ((q : ℕ)
          → (count q dying' ≤ in_use t.pcbs q)
            × (queued reseated low high q ≡ in_use t.pcbs q - count q dying' - held q curr'))
      → ((q : ℕ)
          → in_use t.pcbs q ≡ 1
          → sem_add_of reseated q ≢ null
          → 0 < count q (waiting asl' (sem_add_of reseated q)))
      → ((q : ℕ) → count q (waiting asl' null) ≡ 0)
      → IsSettled dying' reseated m low high curr'
  reseated-IsSettled dying' m curr' valid counted placed noted nowhere = record {
    pcbs = same_pids-IsValid t.pcbs reseated.pcbs.pcb (λ q. ground arith) h.pcbs;
    asl = valid;
    alive = λ q uses. rw (same_pid q) (h.alive q uses);
    linked = same-IsLinked t.pcbs reseated.pcbs same_tree h.linked;
    kin = λ c q e. h.kin c q (sym (same_tree c).1 ∙ e);
    counted = counted ∙ h.counted;
    limbo = λ q. (placed q).0;
    placed = λ q. (placed q).1;
    ranked = λ q. rw (same_prio q) (h.ranked q);
    noted = noted;
    nowhere = nowhere;
  }
    where
      same_pid : (q : ℕ) → pid_of reseated.pcbs q ≡ pid_of t.pcbs q
      same_pid q = ground arith

      same_prio : (q : ℕ) → prio_of reseated q ≡ prio_of t q
      same_prio q = ground arith

module _ (t : Tables) (sem p : ℕ) (asl' : AslStore) (n : ℕ) (low high : List ℕ)
    (curr : Option ℕ) where
  -- A process that leaves the queue of its semaphore is between the queues then.
  pub removed-IsSettled :
      (dying : List ℕ)
      → IsSettled dying t (n + 1) low high curr
      → 0 < count p (waiting t.asl sem)
      → Removed sem p t (record { pcbs = set_sem_add p null t.pcbs; asl = asl' })
      → IsSettled
          (p ∷ dying)
          (record { pcbs = set_sem_add p null t.pcbs; asl = asl' })
          n
          low
          high
          curr
  removed-IsSettled dying h waits r =
      reseated-IsSettled t p null asl' dying (n + 1) low high curr h (p ∷ dying) n curr r.valid
        (omega arith)
        (either_number _ p
          (ground (
            arith,
            h.placed p,
            h.limbo p,
            h.pcbs.owners p,
            waits,
            ap (λ (x : ℕ). count p (waiting t.asl x))
                (waits-notes dying t _ low high curr h sem p waits),
            after p,
            ap (λ (x : ℕ). count p (waiting asl' x))
                (sem_add-reseated_self t p null asl' dying _ low high curr h),
            h.nowhere p,
          ))
          (λ q ne. ground (arith, h.placed q, h.limbo q, moved q ne)))
        (either_number _ p
          (λ uses notes.
            absurd (notes (sem_add-reseated_self t p null asl' dying _ low high curr h)))
          λ q ne uses notes.
            let same = sem_add-reseated t p null asl' dying _ low high curr h q ne in
            rw (moved q ne) (h.noted q uses (λ e. notes (same ∙ e))))
        after
    where
      after : (q : ℕ) → count q (waiting asl' null) ≡ 0
      after q = ground (arith, r.queue null, h.nowhere q, h.nowhere p)

      moved :
          (q : ℕ)
          → (q == p) ≡ false
          → count q (
              waiting asl' (sem_add_of (record { pcbs = set_sem_add p null t.pcbs; asl = asl' }) q))
            ≡ count q (waiting t.asl (sem_add_of t q))
      moved q ne =
          ap (λ (x : ℕ). count q (waiting asl' x))
            (sem_add-reseated t p null asl' dying _ low high curr h q ne)
          ∙ ground (
            arith,
            r.queue (sem_add_of t q),
            ne,
            count-erase q p (waiting t.asl (sem_add_of t q)),
          )

  -- The current process waits at the end of the queue of a semaphore.
  pub inserted-IsSettled :
      IsSettled [] t n low high (some p)
      → in_use t.pcbs p ≡ 1
      → sem ≢ null
      → Inserted sem p t (record { pcbs = set_sem_add p sem t.pcbs; asl = asl' })
      → IsSettled [] (record { pcbs = set_sem_add p sem t.pcbs; asl = asl' }) n low high none
  inserted-IsSettled h uses real i =
      reseated-IsSettled t p sem asl' [] n low high (some p) h [] n none i.valid refl
        (either_number _ p (omega arith, ground (arith, h.placed p, uses, inserted))
          (λ q ne. (omega arith, ground (arith, h.placed q, ne, moved q ne))))
        (either_number _ p (λ _ _. ground (arith, inserted))
          λ q ne used notes.
            let same = sem_add-reseated t p sem asl' [] _ low high (some p) h q ne in
            rw (moved q ne) (h.noted q used (λ e. notes (same ∙ e))))
        (λ q. ground (arith, h.nowhere q, i.queue null))
    where
      idle : count p (waiting t.asl sem) ≡ 0
      idle = elim (Bool-cases (ltb 0 (count p (waiting t.asl sem)))) [
        | inr e ↦ ground arith
        | inl e ↦ absurd (
            ground (
              arith,
              h.placed p,
              ap (λ (x : ℕ). count p (waiting t.asl x))
                  (waits-notes [] t _ low high (some p) h sem p (ground arith)),
            ))
      ]

      inserted :
          count p
            (waiting asl' (sem_add_of (record { pcbs = set_sem_add p sem t.pcbs; asl = asl' }) p))
          ≡ 1
      inserted =
          ap (λ (x : ℕ). count p (waiting asl' x))
            (sem_add-reseated_self t p sem asl' [] _ low high (some p) h)
          ∙ ground (arith, i.queue sem, idle, count-append p (waiting t.asl sem) (p ∷ []))

      moved :
          (q : ℕ)
          → (q == p) ≡ false
          → count q
              (waiting asl' (sem_add_of (record { pcbs = set_sem_add p sem t.pcbs; asl = asl' }) q))
            ≡ count q (waiting t.asl (sem_add_of t q))
      moved q ne =
          ap (λ (x : ℕ). count q (waiting asl' x))
            (sem_add-reseated t p sem asl' [] _ low high (some p) h q ne)
          ∙ ground (
            arith,
            i.queue (sem_add_of t q),
            ne,
            count-append q (waiting t.asl (sem_add_of t q)) (p ∷ []),
          )

-- ===== src/Asl/Unblocked.antt =====
-- `removeBlocked`, `outBlocked` and `headBlocked` against the abstract view, and `initASL`.
use pandos_plus.Base.{
  ℕ, zero, suc, ◌+◌, refl, sym, ap, subst, ◌≡◌, ◌∙◌, inl, inr, true, none, some, List, [], ◌∷◌,
  arith, ltb, ◌==◌, if◌then◌else◌, has, count, erase, Option-cases,
}
use pandos_plus.Machine.{null}
use pandos_plus.Pcb.{max_proc, pid_of}
use pandos_plus.ProcQueue.{head_proc_q, remove_proc_q}
use pandos_plus.ProcQueue.Laws.{out_proc_q_lem}
use pandos_plus.Asl.{
  AslStore, Tables, key_of, queue_at, set_queue, set_sem_add, add_free_semaphore,
  update_active_semaphore, peek_active_semaphore, remove_blocked, out_blocked, head_blocked,
  asl_loop, init_asl, scan_sems,
}
use pandos_plus.Asl.Search.{IsSorted, peek_active_semaphore_iff}
use pandos_plus.Asl.View.{
  waiting, waiting_of_none, waiting_of_some, waiting-set_queue, waiting-update_active,
}
use pandos_plus.Asl.Invariant.{
  IsLinked, IsValid, sem_add_of, dequeue, dequeue-IsLinked, update_active-IsValid,
}

-- What taking `p` off the queue of `key` does.
pub record Removed (key p : ℕ) (t t' : Tables) : Type 0 where
  pub valid : IsValid t'
  pub queue :
      (k : ℕ) → waiting t'.asl k ≡ (if key == k then erase p (waiting t.asl k) else waiting t.asl k)
  pub cleared : sem_add_of t' p ≡ null
  pub pids : (r : ℕ) → pid_of t'.pcbs r ≡ pid_of t.pcbs r
  pub pcbs : t'.pcbs ≡ set_sem_add p null t.pcbs

module _ (t : Tables) (key p sem : ℕ) (v : IsValid t)
    (found : peek_active_semaphore key t.asl ≡ some sem)
    (m : has p (queue_at t.asl sem) ≡ true) where
  -- the tables that `unblock` leaves
  abbrev after : Tables
  after = record {
    pcbs = set_sem_add p null t.pcbs;
    asl = update_active_semaphore sem (set_queue sem (erase p (queue_at t.asl sem)) t.asl);
  }

  unblock-Removed : Removed key p t after
  unblock-Removed = record {
    valid =
        update_active-IsValid (dequeue t v.linked sem act.0 p)
          (dequeue-IsLinked t v.linked sem act.0 p m) sem act.0
          λ i mi other. ground (arith, v.nonempty i mi);
    queue = λ k.
        waiting-update_active (dequeue t v.linked sem act.0 p).asl sem
          (dequeue-IsLinked t v.linked sem act.0 p m).sorted act.0 k
        ∙ ground (
          arith,
          waiting-set_queue t.asl sem (erase p (queue_at t.asl sem)) v.linked.sorted act.0 k,
          act.1,
          waiting_of_some t.asl key sem found,
        );
    cleared = ground arith;
    pids = λ r. ground arith;
    pcbs = refl;
  }
    where
      act : (has sem t.asl.semd_h ≡ true) × (key_of t.asl sem ≡ key)
      act = (peek_active_semaphore_iff t.asl key sem v.linked.sorted).0 found

  remove-found :
      (q : List ℕ) → queue_at t.asl sem ≡ p ∷ q → remove_blocked key t ≡ some (some p, after)
  unfolding remove_blocked remove_proc_q
  remove-found q e = ground (arith, found, e)

  out-found : sem_add_of t p ≡ key → out_blocked p t ≡ some (some p, after)
  unfolding out_blocked
  out-found e = ground (arith, found, e, out_proc_q_lem (queue_at t.asl sem) p)

-- `removeBlocked` on a key that someone waits on returns the first one, takes it off that queue,
-- leaves every other queue as it is, and keeps the tables valid.
pub remove_blocked_lem :
    (t : Tables) (key p : ℕ) (q : List ℕ)
    → IsValid t
    → waiting t.asl key ≡ p ∷ q
    → (t' : Tables) × (remove_blocked key t ≡ some (some p, t')) × Removed key p t t'
remove_blocked_lem t key p q v e = elim (Option-cases (peek_active_semaphore key t.asl)) [
  | inl absent ↦ cc (waiting_of_none t.asl key absent)
  | inr (sem, found) ↦
      let first : queue_at t.asl sem ≡ p ∷ q = sym (waiting_of_some t.asl key sem found) ∙ e in
      let m : has p (queue_at t.asl sem) ≡ true = ground (arith, first) in
      (
        after t key p sem v found m,
        remove-found t key p sem v found m q first,
        unblock-Removed t key p sem v found m,
      )
]

-- `removeBlocked` on a key that nobody waits on returns NULL and changes nothing.
pub remove_blocked-none :
    (t : Tables) (key : ℕ)
    → IsValid t
    → waiting t.asl key ≡ []
    → remove_blocked key t ≡ some (none, t)
unfolding remove_blocked
remove_blocked-none t key v e = elim (Option-cases (peek_active_semaphore key t.asl)) [
  | inl absent ↦ rw (absent, remove_blocked)
  | inr (sem, found) ↦
      let act = (peek_active_semaphore_iff t.asl key sem v.linked.sorted).0 found in
      ground (arith, v.nonempty sem act.0, waiting_of_some t.asl key sem found)
]

-- `outBlocked` of a process that waits on the key in its `p_semAdd` returns it, takes it off that
-- queue, leaves every other queue as it is, and keeps the tables valid.
pub out_blocked_lem :
    (t : Tables) (p : ℕ)
    → IsValid t
    → has p (waiting t.asl (sem_add_of t p)) ≡ true
    → (t' : Tables) × (out_blocked p t ≡ some (some p, t')) × Removed (sem_add_of t p) p t t'
out_blocked_lem t p v e = elim (Option-cases (peek_active_semaphore (sem_add_of t p) t.asl)) [
  | inl absent ↦ cc (waiting_of_none t.asl (sem_add_of t p) absent)
  | inr (sem, found) ↦
      let m : has p (queue_at t.asl sem) ≡ true =
        rw (waiting_of_some t.asl (sem_add_of t p) sem found) at e in
      (
        after t (sem_add_of t p) p sem v found m,
        out-found t (sem_add_of t p) p sem v found m refl,
        unblock-Removed t (sem_add_of t p) p sem v found m,
      )
]

-- `headBlocked` is the first process that waits on the key.
pub head_blocked_lem : (a : AslStore) (key : ℕ) → head_blocked key a ≡ head_proc_q (waiting a key)
unfolding head_blocked
head_blocked_lem a key = elim (Option-cases (peek_active_semaphore key a)) [
  | inl absent ↦ rw (absent, head_blocked, waiting_of_none a key absent)
  | inr (sem, found) ↦ rw (found, head_blocked, waiting_of_some a key sem found)
]

asl_loop-count :
    (n i : ℕ) (a : AslStore)
    → count i (asl_loop n a).semd_free ≡ (if ltb i n then 1 else 0) + count i a.semd_free
unfolding asl_loop add_free_semaphore
asl_loop-count zero i a = ground arith
asl_loop-count (suc n) i a = ground (arith, asl_loop-count n i (add_free_semaphore n a))

asl_loop-semd_h : (n : ℕ) (a : AslStore) → (asl_loop n a).semd_h ≡ a.semd_h
unfolding asl_loop add_free_semaphore
asl_loop-semd_h zero a = refl
asl_loop-semd_h (suc n) a = asl_loop-semd_h n (add_free_semaphore n a)

abbrev cleared_lists : AslStore → AslStore
cleared_lists a = record a { semd_free = []; semd_h = [] }

module _ (t : Tables) where
  init-semd_h : (init_asl t.asl).semd_h ≡ []
  unfolding init_asl
  init-semd_h = asl_loop-semd_h max_proc (cleared_lists t.asl)

  init-count : (i : ℕ) → count i (init_asl t.asl).semd_free ≡ (if ltb i max_proc then 1 else 0)
  unfolding init_asl
  init-count i = ground (arith, asl_loop-count max_proc i (cleared_lists t.asl))

  init-IsLinked : IsLinked (record t { asl = init_asl t.asl })
  init-IsLinked = record {
    sorted = subst (IsSorted (init_asl t.asl)) (sym init-semd_h) tt;
    owners = λ i. ground (arith, init-count i, ap (count i) init-semd_h);
    waits = λ i p mi. cc (ap (has i) init-semd_h);
    once = λ i p mi. cc (ap (has i) init-semd_h);
  }

  -- `initASL` makes the tables valid, with nobody waiting, whatever the statics held.
  pub init_asl-IsValid :
      IsValid (record t { asl = init_asl t.asl }) × ((key : ℕ) → waiting (init_asl t.asl) key ≡ [])
  unfolding peek_active_semaphore scan_sems
  init_asl-IsValid = (
    record { linked = init-IsLinked; nonempty = λ i mi. cc (ap (has i) init-semd_h) },
    λ key. waiting_of_none (init_asl t.asl) key (ap (scan_sems (init_asl t.asl) key) init-semd_h),
  )

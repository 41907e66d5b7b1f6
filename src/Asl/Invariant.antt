-- ===== src/Asl/Invariant.antt =====
-- The invariant of the tables of asl.c, and the steps that its operations are made of.
use pandos_plus.Base.{
  ℕ, refl, ◌≡◌, ◌∙◌, ◌≤◌, ◌+◌, inl, inr, true, false, none, List, [], ◌∷◌, ◌++◌, arith, ltb, ◌==◌,
  if◌then◌else◌, has, count, erase, is_empty, Bool-cases, ==_iff, ne_of_has, has-append,
  has_iff-count, count-append, count-erase, has_of_has-erase, Ordered-map_has, Ordered-erase, ap,
}
use pandos_plus.Machine.{null}
use pandos_plus.Pcb.{max_proc}
use pandos_plus.ProcQueue.{insert_proc_q, empty_proc_q, mk_empty_proc_q}
use pandos_plus.Asl.{
  AslStore, Tables, key_of, queue_at, set_queue, set_sem_add, fill_semd, insert_sem,
  add_active_semaphore, add_free_semaphore, update_active_semaphore, peek_active_semaphore, enqueue,
}
use pandos_plus.Asl.Search.{
  scan_sems-congr, IsSorted, IsSorted-insert_sem, count-insert_sem, key_injective,
}
use pandos_plus.Asl.View.{key-set_queue, IsSorted-fill_semd, unused_key}

abbrev pub sem_add_of : Tables → ℕ → ℕ
sem_add_of t p = (t.pcbs.pcb p).p_sem_add

-- The active list is sorted by key; every descriptor is free or active, and once; a process in an
-- active queue stands there once, and notes the queue's key in `p_semAdd`.
pub record IsLinked (t : Tables) : Type 0 where
  pub sorted : IsSorted t.asl t.asl.semd_h
  pub owners :
      (i : ℕ) → count i t.asl.semd_free + count i t.asl.semd_h ≡ (if ltb i max_proc then 1 else 0)
  pub waits :
      (i p : ℕ)
      → has i t.asl.semd_h ≡ true
      → has p (queue_at t.asl i) ≡ true
      → sem_add_of t p ≡ key_of t.asl i
  pub once : (i p : ℕ) → has i t.asl.semd_h ≡ true → count p (queue_at t.asl i) ≤ 1

-- No active queue is empty, except perhaps that of `sem`.
abbrev pub NonemptyBut : ℕ → AslStore → Type 0
NonemptyBut sem a =
    (i : ℕ) → has i a.semd_h ≡ true → (sem == i) ≡ false → is_empty (queue_at a i) ≡ false

pub record IsValid (t : Tables) : Type 0 where
  pub linked : IsLinked t
  pub nonempty : (i : ℕ) → has i t.asl.semd_h ≡ true → is_empty (queue_at t.asl i) ≡ false

-- `p` waits in no active queue.
abbrev pub IsIdle : ℕ → Tables → Type 0
IsIdle p t = (i : ℕ) → has i t.asl.semd_h ≡ true → has p (queue_at t.asl i) ≡ false

module _ (t : Tables) (l : IsLinked t) (sem : ℕ) (m : has sem t.asl.semd_h ≡ true) where
  IsSorted-set_queue : (q : List ℕ) → IsSorted (set_queue sem q t.asl) t.asl.semd_h
  IsSorted-set_queue q =
      Ordered-map_has _ _ t.asl.semd_h
        (λ i j mi mj lt. rw (key-set_queue t.asl sem q i, key-set_queue t.asl sem q j) lt) l.sorted

  pub enqueue-IsLinked :
      (key p : ℕ) → key_of t.asl sem ≡ key → IsIdle p t → IsLinked (enqueue sem key p t)
  unfolding enqueue insert_proc_q
  enqueue-IsLinked key p k idle = record {
    sorted = IsSorted-set_queue (queue_at t.asl sem ++ p ∷ []);
    owners = l.owners;
    waits = λ i r mi mr.
        ground (arith, l.waits i r mi, idle i mi, has-append r (queue_at t.asl sem) (p ∷ []));
    once = λ i r mi. ground (
      arith,
      l.once i r mi,
      idle i mi,
      count-append r (queue_at t.asl sem) (p ∷ []),
      has_iff-count p (queue_at t.asl i),
    );
  }

  -- the tables once `p` has left the queue of `sem`
  abbrev pub dequeue : ℕ → Tables
  dequeue p = record {
    pcbs = set_sem_add p null t.pcbs;
    asl = set_queue sem (erase p (queue_at t.asl sem)) t.asl;
  }

  pub dequeue-IsLinked : (p : ℕ) → has p (queue_at t.asl sem) ≡ true → IsLinked (dequeue p)
  dequeue-IsLinked p mp = record {
    sorted = IsSorted-set_queue (erase p (queue_at t.asl sem));
    owners = l.owners;
    waits = λ i r mi mr. ground (
      arith,
      l.waits i r mi,
      l.waits sem r m,
      l.once sem p m,
      key_injective t.asl i sem t.asl.semd_h l.sorted mi m,
      has_iff-count p (erase p (queue_at t.asl sem)),
      count-erase p p (queue_at t.asl sem),
      has_of_has-erase r p (queue_at t.asl sem),
      l.waits sem p m mp,
    );
    once = λ i r mi. ground (arith, l.once i r mi, count-erase r p (queue_at t.asl sem));
  }

  erased : has sem (erase sem t.asl.semd_h) ≡ false
  erased = ground (
    arith,
    l.owners sem,
    count-erase sem sem t.asl.semd_h,
    has_iff-count sem (erase sem t.asl.semd_h),
  )

  -- `_updateActiveSemaphore` on the only descriptor whose queue may be empty.
  pub update_active-IsValid :
      NonemptyBut sem t.asl → IsValid (record t { asl = update_active_semaphore sem t.asl })
  unfolding update_active_semaphore add_free_semaphore empty_proc_q
  update_active-IsValid ne = elim (Bool-cases (is_empty (queue_at t.asl sem))) [
    | inl e ↦ rw e (record {
      linked = record {
        sorted = Ordered-erase _ sem t.asl.semd_h l.sorted;
        owners = λ i.
            ground
              (arith, l.owners i, count-erase i sem t.asl.semd_h, has_iff-count sem t.asl.semd_h);
        waits = λ i p mi. l.waits i p (has_of_has-erase i sem t.asl.semd_h mi);
        once = λ i p mi. l.once i p (has_of_has-erase i sem t.asl.semd_h mi);
      };
      nonempty = λ i mi.
          ne i (has_of_has-erase i sem t.asl.semd_h mi)
            (ne_of_has sem (erase sem t.asl.semd_h) erased i mi);
    })
    | inr e ↦ rw e (record {
      linked = l;
      nonempty = λ i mi. elim (Bool-cases (sem == i)) [
        | inl same ↦ rw (← (==_iff sem i).0 same) e
        | inr other ↦ ne i mi other
      ];
    })
  ]

-- A free descriptor, filled with a key that is not active, joins the active list.
module _ (t : Tables) (l : IsLinked t) (sem key : ℕ) (rest : List ℕ)
    (free : t.asl.semd_free ≡ sem ∷ rest) (absent : peek_active_semaphore key t.asl ≡ none) where
  abbrev pub taken : AslStore
  taken = record t.asl { semd_free = rest }

  abbrev pub activated : Tables
  activated = record t { asl = add_active_semaphore sem (fill_semd sem key taken) }

  pub sem_not_active : has sem t.asl.semd_h ≡ false
  sem_not_active = ground (arith, l.owners sem, ap (count sem) free, has_iff-count sem t.asl.semd_h)

  pub peek-taken : (k : ℕ) → peek_active_semaphore k taken ≡ peek_active_semaphore k t.asl
  unfolding peek_active_semaphore
  peek-taken k = scan_sems-congr taken t.asl k t.asl.semd_h (λ i h. refl)

  has-activated :
      (i : ℕ) → has i activated.asl.semd_h ≡ true → (sem == i) ≡ false → has i t.asl.semd_h ≡ true
  unfolding add_active_semaphore
  has-activated i mi ne = ground (
    arith,
    count-insert_sem (fill_semd sem key taken) sem i t.asl.semd_h,
    has_iff-count i t.asl.semd_h,
    has_iff-count i (insert_sem (fill_semd sem key taken) sem t.asl.semd_h),
  )

  pub has-activated_self : has sem activated.asl.semd_h ≡ true
  unfolding add_active_semaphore
  has-activated_self = ground (
    arith,
    count-insert_sem (fill_semd sem key taken) sem sem t.asl.semd_h,
    has_iff-count sem (insert_sem (fill_semd sem key taken) sem t.asl.semd_h),
  )

  queue-activated : (i : ℕ) → queue_at activated.asl i ≡ (if sem == i then [] else queue_at t.asl i)
  unfolding add_active_semaphore mk_empty_proc_q
  queue-activated i = ground arith

  pub key-activated : (i : ℕ) → key_of activated.asl i ≡ (if sem == i then key else key_of t.asl i)
  unfolding add_active_semaphore
  key-activated i = ground arith

  pub activated-IsLinked : IsLinked activated
  unfolding add_active_semaphore
  activated-IsLinked = record {
    sorted =
        IsSorted-insert_sem (fill_semd sem key taken) sem t.asl.semd_h
          (unused_key taken sem key sem_not_active (peek-taken key ∙ absent))
          (IsSorted-fill_semd taken sem key sem_not_active
            (Ordered-map_has _ _ t.asl.semd_h (λ i j mi mj lt. lt) l.sorted));
    owners = λ i. ground (
      arith,
      l.owners i,
      ap (count i) free,
      count-insert_sem (fill_semd sem key taken) sem i t.asl.semd_h,
    );
    waits = λ i p mi mp. elim (Bool-cases (sem == i)) [
      | inl same ↦ ground (arith, queue-activated i)
      | inr other ↦
          ground (arith, l.waits i p (has-activated i mi other), queue-activated i, key-activated i)
    ];
    once = λ i p mi. elim (Bool-cases (sem == i)) [
      | inl same ↦ ground (arith, queue-activated i)
      | inr other ↦ ground (arith, l.once i p (has-activated i mi other), queue-activated i)
    ];
  }

  pub activated-NonemptyBut :
      ((i : ℕ) → has i t.asl.semd_h ≡ true → is_empty (queue_at t.asl i) ≡ false)
      → NonemptyBut sem activated.asl
  activated-NonemptyBut ne i mi other =
      ground (arith, ne i (has-activated i mi other), queue-activated i)

  pub activated-IsIdle : (p : ℕ) → IsIdle p t → IsIdle p activated
  activated-IsIdle p idle i mi = elim (Bool-cases (sem == i)) [
    | inl same ↦ ground (arith, queue-activated i)
    | inr other ↦ ground (arith, idle i (has-activated i mi other), queue-activated i)
  ]

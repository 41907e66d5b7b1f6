-- ===== src/Asl/View.antt =====
-- The abstract view of asl.c: for each key the queue of the processes that wait on it.
use pandos_plus.Base.{
  ℕ, refl, ◌≡◌, inl, inr, true, false, none, some, List, [], ◌∷◌, arith, ◌==◌, if◌then◌else◌, has,
  erase, Bool-cases, Option-cases, ==_iff, ne_of_has, ◌∙◌, Ordered-map_has,
}
use pandos_plus.ProcQueue.{empty_proc_q, mk_empty_proc_q}
use pandos_plus.Asl.{
  AslStore, key_of, queue_at, set_queue, fill_semd, scan_sems, peek_active_semaphore,
  add_active_semaphore, add_free_semaphore, update_active_semaphore,
}
use pandos_plus.Asl.Search.{
  IsSorted, peek_active_semaphore_iff, scan-insert_sem, scan-erase, scan_sems-congr,
}

-- The processes that wait on a key, first to last.
unfoldable pub waiting : AslStore → ℕ → List ℕ
waiting a key = elim (peek_active_semaphore key a) [ none ↦ [] | some sem ↦ queue_at a sem ]

pub waiting_of_none :
    (a : AslStore) (key : ℕ) → peek_active_semaphore key a ≡ none → waiting a key ≡ []
unfolding waiting
waiting_of_none a key e = rw (e, waiting)

pub waiting_of_some :
    (a : AslStore) (key sem : ℕ)
    → peek_active_semaphore key a ≡ some sem
    → waiting a key ≡ queue_at a sem
unfolding waiting
waiting_of_some a key sem e = rw (e, waiting)

peek_of_has :
    (a : AslStore) (key sem : ℕ)
    → IsSorted a a.semd_h
    → has sem a.semd_h ≡ true
    → key_of a sem ≡ key
    → peek_active_semaphore key a ≡ some sem
peek_of_has a key sem o m e = (peek_active_semaphore_iff a key sem o).1 (m, e)

module _ (a : AslStore) (sem : ℕ) (q : List ℕ) where
  pub key-set_queue : (i : ℕ) → key_of (set_queue sem q a) i ≡ key_of a i
  key-set_queue i = ground arith

  pub queue-set_queue :
      (i : ℕ) → queue_at (set_queue sem q a) i ≡ (if sem == i then q else queue_at a i)
  queue-set_queue i = ground arith

  pub peek-set_queue :
      (key : ℕ) → peek_active_semaphore key (set_queue sem q a) ≡ peek_active_semaphore key a
  unfolding peek_active_semaphore
  peek-set_queue key = scan_sems-congr (set_queue sem q a) a key a.semd_h (λ i m. key-set_queue i)

  -- Setting the queue of an active descriptor changes what waits on its key, and nothing else.
  pub waiting-set_queue :
      IsSorted a a.semd_h
      → has sem a.semd_h ≡ true
      → (key : ℕ)
      → waiting (set_queue sem q a) key ≡ (if key_of a sem == key then q else waiting a key)
  waiting-set_queue o m key = elim (Option-cases (peek_active_semaphore key a)) [
    | inl e ↦ ground (
      arith,
      waiting_of_none (set_queue sem q a) key (peek-set_queue key ∙ e),
      waiting_of_none a key e,
      peek_of_has a key sem o m,
    )
    | inr (j, e) ↦ ground (
      arith,
      waiting_of_some (set_queue sem q a) key j (peek-set_queue key ∙ e),
      queue-set_queue j,
      waiting_of_some a key j e,
      peek_of_has a key sem o m,
      (peek_active_semaphore_iff a key j o).0 e,
    )
  ]

module _ (a : AslStore) (sem key : ℕ) (unused : has sem a.semd_h ≡ false) where
  abbrev filled : AslStore
  filled = fill_semd sem key a

  pub key-fill_semd : (i : ℕ) → has i a.semd_h ≡ true → key_of filled i ≡ key_of a i
  key-fill_semd i m = ground (arith, ne_of_has sem a.semd_h unused i m)

  pub key-fill_semd_self : key_of filled sem ≡ key
  key-fill_semd_self = ground arith

  pub IsSorted-fill_semd : IsSorted a a.semd_h → IsSorted filled a.semd_h
  IsSorted-fill_semd o =
      Ordered-map_has _ _ a.semd_h (λ i j mi mj lt. rw (key-fill_semd i mi, key-fill_semd j mj) lt)
        o

  scan-fill_semd : (k : ℕ) → scan_sems filled k a.semd_h ≡ scan_sems a k a.semd_h
  scan-fill_semd k = scan_sems-congr filled a k a.semd_h key-fill_semd

  pub unused_key :
      peek_active_semaphore key a ≡ none → scan_sems filled (key_of filled sem) a.semd_h ≡ none
  unfolding peek_active_semaphore
  unused_key e = rw (key-fill_semd_self, scan-fill_semd key) e

  pub peek-add_active :
      IsSorted a a.semd_h
      → peek_active_semaphore key a ≡ none
      → (k : ℕ)
      → peek_active_semaphore k (add_active_semaphore sem filled)
        ≡ (if key == k then some sem else peek_active_semaphore k a)
  unfolding peek_active_semaphore add_active_semaphore
  peek-add_active o e k = rw (
    scan-insert_sem filled sem k a.semd_h (unused_key e) (IsSorted-fill_semd o),
    key-fill_semd_self,
    scan-fill_semd k,
  )

  queue-add_active :
      (i : ℕ)
      → queue_at (add_active_semaphore sem filled) i ≡ (if sem == i then [] else queue_at a i)
  unfolding add_active_semaphore mk_empty_proc_q
  queue-add_active i = ground arith

  -- A new descriptor with an empty queue changes nothing that waits.
  pub waiting-add_active :
      IsSorted a a.semd_h
      → peek_active_semaphore key a ≡ none
      → (k : ℕ) → waiting (add_active_semaphore sem filled) k ≡ waiting a k
  waiting-add_active o e k = elim (Bool-cases (key == k)) [
    | inl same ↦ ground (
      arith,
      waiting_of_some (add_active_semaphore sem filled) k sem (rw (peek-add_active o e k, same)),
      queue-add_active sem,
      waiting_of_none a k (rw (← (==_iff key k).0 same) e),
    )
    | inr other ↦ elim (Option-cases (peek_active_semaphore k a)) [
      | inl absent ↦ ground (
        arith,
        waiting_of_none (add_active_semaphore sem filled) k
            (rw (peek-add_active o e k, other) absent),
        waiting_of_none a k absent,
      )
      | inr (j, found) ↦ ground (
        arith,
        waiting_of_some (add_active_semaphore sem filled) k j
            (rw (peek-add_active o e k, other) found),
        waiting_of_some a k j found,
        queue-add_active j,
        ne_of_has sem a.semd_h unused j ((peek_active_semaphore_iff a k j o).0 found).0,
      )
    ]
  ]

empty-eq : (q : List ℕ) → empty_proc_q q ≡ true → q ≡ []
unfolding empty_proc_q
empty-eq [] e = refl
empty-eq (x ∷ q) e = cc

-- the list without `sem`, and the descriptor back among the free ones
abbrev pub dropped : ℕ → AslStore → AslStore
dropped sem a = add_free_semaphore sem (record a { semd_h = erase sem a.semd_h })

module _ (a : AslStore) (sem : ℕ) (o : IsSorted a a.semd_h) (m : has sem a.semd_h ≡ true) where
  pub peek-dropped :
      (k : ℕ)
      → peek_active_semaphore k (dropped sem a)
        ≡ (if key_of a sem == k then none else peek_active_semaphore k a)
  unfolding peek_active_semaphore add_free_semaphore
  peek-dropped k =
      scan_sems-congr (dropped sem a) a k (erase sem a.semd_h) (λ i h. refl)
      ∙ scan-erase a sem k a.semd_h m o

  queue-dropped : (i : ℕ) → queue_at (dropped sem a) i ≡ queue_at a i
  unfolding add_free_semaphore
  queue-dropped i = refl

  waiting-dropped : queue_at a sem ≡ [] → (k : ℕ) → waiting (dropped sem a) k ≡ waiting a k
  waiting-dropped empty k = elim (Bool-cases (key_of a sem == k)) [
    | inl same ↦ ground (
      arith,
      waiting_of_none (dropped sem a) k (rw (peek-dropped k, same)),
      waiting_of_some a k sem (peek_of_has a k sem o m ((==_iff (key_of a sem) k).0 same)),
    )
    | inr other ↦ elim (Option-cases (peek_active_semaphore k a)) [
      | inl absent ↦ ground (
        arith,
        waiting_of_none (dropped sem a) k (rw (peek-dropped k, other) absent),
        waiting_of_none a k absent,
      )
      | inr (j, found) ↦ ground (
        arith,
        waiting_of_some (dropped sem a) k j (rw (peek-dropped k, other) found),
        waiting_of_some a k j found,
        queue-dropped j,
      )
    ]
  ]

  -- Giving back an idle descriptor changes nothing that waits.
  pub waiting-update_active : (k : ℕ) → waiting (update_active_semaphore sem a) k ≡ waiting a k
  unfolding update_active_semaphore
  waiting-update_active k = elim (Bool-cases (empty_proc_q (queue_at a sem))) [
    | inl e ↦ rw e (waiting-dropped (empty-eq (queue_at a sem) e) k)
    | inr e ↦ rw e
  ]

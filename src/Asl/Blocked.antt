-- ===== src/Asl/Blocked.antt =====
-- `insertBlocked` against the abstract view: the process joins the end of its key's queue.
use pandos_plus.Base.{
  list_cases, ◌⊎◌, ◌≢◌, ℕ, refl, sym, ◌≡◌, ◌∙◌, inl, inr, true, false, Option, none, some, List, [],
  ◌∷◌, ◌++◌, arith, ◌==◌, if◌then◌else◌, has, is_empty, Option-cases,
}
use pandos_plus.ProcQueue.{insert_proc_q}
use pandos_plus.Asl.{
  AslStore, Tables, key_of, queue_at, fill_semd, get_free_semaphore, add_active_semaphore,
  peek_active_semaphore, init_semaphore, enqueue, insert_blocked, set_sem_add,
}
use pandos_plus.Asl.Search.{peek_active_semaphore_iff}
use pandos_plus.Asl.View.{
  waiting, waiting_of_none, waiting_of_some, waiting-set_queue, waiting-add_active,
}
use pandos_plus.Asl.Invariant.{
  IsLinked, IsValid, NonemptyBut, IsIdle, sem_add_of, enqueue-IsLinked, sem_not_active, peek-taken,
  has-activated_self, activated-IsLinked, activated-NonemptyBut, activated-IsIdle, taken, activated,
  key-activated,
}

-- What a successful `insertBlocked` does: `p` stands behind the others that wait on `key`.
pub record Inserted (key p : ℕ) (t t' : Tables) : Type 0 where
  pub valid : IsValid t'
  pub queue :
      (k : ℕ) → waiting t'.asl k ≡ (if key == k then waiting t.asl k ++ p ∷ [] else waiting t.asl k)
  pub noted : sem_add_of t' p ≡ key

is_empty-append : (q : List ℕ) (p : ℕ) → is_empty (q ++ p ∷ []) ≡ false
is_empty-append [] p = refl
is_empty-append (x ∷ q) p = refl

module _ (t : Tables) (key p sem : ℕ) (l : IsLinked t) (ne : NonemptyBut sem t.asl)
    (idle : IsIdle p t) (found : peek_active_semaphore key t.asl ≡ some sem) where
  active : (has sem t.asl.semd_h ≡ true) × (key_of t.asl sem ≡ key)
  active = (peek_active_semaphore_iff t.asl key sem l.sorted).0 found

  enqueue-Inserted : Inserted key p t (enqueue sem key p t)
  unfolding enqueue insert_proc_q
  enqueue-Inserted = record {
    valid = record {
      linked = enqueue-IsLinked t l sem active.0 key p active.1 idle;
      nonempty = λ i mi. ground (arith, ne i mi, is_empty-append (queue_at t.asl sem) p);
    };
    queue = λ k. ground (
      arith,
      waiting-set_queue t.asl sem (queue_at t.asl sem ++ p ∷ []) l.sorted active.0 k,
      active.1,
      waiting_of_some t.asl key sem found,
    );
    noted = ground arith;
  }

module _ (t : Tables) (key sem : ℕ) (rest : List ℕ) (v : IsValid t)
    (free : t.asl.semd_free ≡ sem ∷ rest) (absent : peek_active_semaphore key t.asl ≡ none) where
  abbrev opened : Tables
  opened = activated t v.linked sem key rest free absent

  abbrev off_list : AslStore
  off_list = taken t v.linked sem key rest free absent

  peek-opened : peek_active_semaphore key opened.asl ≡ some sem
  peek-opened =
      (peek_active_semaphore_iff opened.asl key sem
          (activated-IsLinked t v.linked sem key rest free absent).sorted).1
        (
          has-activated_self t v.linked sem key rest free absent,
          ground (arith, key-activated t v.linked sem key rest free absent sem),
        )

  waiting-taken : (k : ℕ) → waiting off_list k ≡ waiting t.asl k
  waiting-taken k = elim (Option-cases (peek_active_semaphore k t.asl)) [
    | inl e ↦
        waiting_of_none off_list k (peek-taken t v.linked sem key rest free absent k ∙ e)
        ∙ sym (waiting_of_none t.asl k e)
    | inr (j, e) ↦
        waiting_of_some off_list k j (peek-taken t v.linked sem key rest free absent k ∙ e)
        ∙ sym (waiting_of_some t.asl k j e)
  ]

  waiting-opened : (k : ℕ) → waiting opened.asl k ≡ waiting t.asl k
  waiting-opened k =
      waiting-add_active off_list sem key (sem_not_active t v.linked sem key rest free absent)
        v.linked.sorted (peek-taken t v.linked sem key rest free absent key ∙ absent) k
      ∙ waiting-taken k

  open-Inserted : (p : ℕ) → IsIdle p t → Inserted key p t (enqueue sem key p opened)
  open-Inserted p idle = record {
    valid = later.valid;
    queue = λ k. rw (← waiting-opened k) (later.queue k);
    noted = later.noted;
  }
    where
      later : Inserted key p opened (enqueue sem key p opened)
      later =
          enqueue-Inserted opened key p sem (activated-IsLinked t v.linked sem key rest free absent)
            (activated-NonemptyBut t v.linked sem key rest free absent v.nonempty)
            (activated-IsIdle t v.linked sem key rest free absent p idle) peek-opened

module _ (a : AslStore) (key : ℕ) where
  get_free-none : a.semd_free ≡ [] → get_free_semaphore a ≡ (none, a)
  unfolding get_free_semaphore
  get_free-none e = ground arith

  get_free-some :
      (sem : ℕ) (rest : List ℕ)
      → a.semd_free ≡ sem ∷ rest
      → get_free_semaphore a ≡ (some sem, record a { semd_free = rest })
  unfolding get_free_semaphore
  get_free-some sem rest e = ground arith

  init_semaphore-none : a.semd_free ≡ [] → init_semaphore key a ≡ (none, a)
  unfolding init_semaphore
  init_semaphore-none e = ground (arith, get_free-none e)

  init_semaphore-some :
      (sem : ℕ) (rest : List ℕ)
      → a.semd_free ≡ sem ∷ rest
      → init_semaphore key a
        ≡ (some sem, add_active_semaphore sem (fill_semd sem key (record a { semd_free = rest })))
  unfolding init_semaphore
  init_semaphore-some sem rest e = ground (arith, get_free-some sem rest e)

module _ (t : Tables) (key p : ℕ) where
  insert-found :
      (sem : ℕ)
      → peek_active_semaphore key t.asl ≡ some sem
      → insert_blocked key p t ≡ (false, enqueue sem key p t)
  unfolding insert_blocked
  insert-found sem e = rw (e, insert_blocked)

  insert-open :
      (sem : ℕ) (rest : List ℕ)
      → peek_active_semaphore key t.asl ≡ none
      → t.asl.semd_free ≡ sem ∷ rest
      → insert_blocked key p t ≡ (
        false,
        enqueue sem key p (record t {
          asl = add_active_semaphore sem (fill_semd sem key (record t.asl { semd_free = rest }));
        }),
      )
  unfolding insert_blocked
  insert-open sem rest e free = ground (arith, e, init_semaphore-some t.asl key sem rest free)

  insert-full :
      peek_active_semaphore key t.asl ≡ none
      → t.asl.semd_free ≡ []
      → insert_blocked key p t ≡ (true, t)
  unfolding insert_blocked
  insert-full e free = ground (arith, e, init_semaphore-none t.asl key free)

-- `insertBlocked` of a process that does not wait: if it returns FALSE, the process waits on the
-- key behind those that did, every other queue is as it was, and the tables are valid again.
pub insert_blocked_lem :
    (t : Tables) (key p : ℕ)
    → IsValid t
    → IsIdle p t
    → (insert_blocked key p t).0 ≡ false
    → Inserted key p t (insert_blocked key p t).1
insert_blocked_lem t key p v idle = by_search (peek_active_semaphore key t.asl) refl
  where
    by_free :
        (free : List ℕ)
        → t.asl.semd_free ≡ free
        → peek_active_semaphore key t.asl ≡ none
        → (insert_blocked key p t).0 ≡ false
        → Inserted key p t (insert_blocked key p t).1
    by_free [] e absent done = cc (insert-full t key p absent e)
    by_free (sem ∷ rest) e absent done =
        rw (insert-open t key p sem rest absent e) (open-Inserted t key sem rest v e absent p idle)

    by_search :
        (found : Option ℕ)
        → peek_active_semaphore key t.asl ≡ found
        → (insert_blocked key p t).0 ≡ false
        → Inserted key p t (insert_blocked key p t).1
    by_search none e done = by_free t.asl.semd_free refl e done
    by_search (some sem) e done =
        rw (insert-found t key p sem e)
          (enqueue-Inserted t key p sem v.linked (λ i m ne. v.nonempty i m) idle e)

-- `insertBlocked` returns TRUE and changes nothing if the semaphore is not active and no
-- descriptor is free, and returns FALSE if the semaphore is active or a descriptor is free.
pub insert_blocked_full :
    (t : Tables) (key p : ℕ)
    → ((peek_active_semaphore key t.asl ≡ none)
        × (t.asl.semd_free ≡ [])
        × (insert_blocked key p t ≡ (true, t)))
      ⊎ (((peek_active_semaphore key t.asl ≢ none) ⊎ (t.asl.semd_free ≢ []))
          × ((insert_blocked key p t).0 ≡ false))
insert_blocked_full t key p = elim (Option-cases (peek_active_semaphore key t.asl)) [
  | inr (sem, e) ↦ inr (inl (λ absent. cc (e, absent)), cc (insert-found t key p sem e))
  | inl absent ↦ elim (list_cases t.asl.semd_free) [
    | inl empty ↦ inl (absent, empty, insert-full t key p absent empty)
    | inr (sem, rest, e) ↦
        inr (inr (λ empty. cc (e, empty)), cc (insert-open t key p sem rest absent e))
  ]
]

-- `insertBlocked` changes no PCB but for the semaphore that the process notes.
pub insert_blocked-pcbs :
    (t : Tables) (key p : ℕ)
    → (insert_blocked key p t).0 ≡ false
    → (insert_blocked key p t).1.pcbs ≡ set_sem_add p key t.pcbs
insert_blocked-pcbs t key p = by_search (peek_active_semaphore key t.asl) refl
  where
    by_free :
        (free : List ℕ)
        → t.asl.semd_free ≡ free
        → peek_active_semaphore key t.asl ≡ none
        → (insert_blocked key p t).0 ≡ false
        → (insert_blocked key p t).1.pcbs ≡ set_sem_add p key t.pcbs
    by_free [] e absent done = cc (insert-full t key p absent e)
    by_free (sem ∷ rest) e absent done =
        rw (insert-open t key p sem rest absent e) (unfold enqueue in refl)

    by_search :
        (found : Option ℕ)
        → peek_active_semaphore key t.asl ≡ found
        → (insert_blocked key p t).0 ≡ false
        → (insert_blocked key p t).1.pcbs ≡ set_sem_add p key t.pcbs
    by_search none e done = by_free t.asl.semd_free refl e done
    by_search (some sem) e done = rw (insert-found t key p sem e) (unfold enqueue in refl)

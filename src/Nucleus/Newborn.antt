-- ===== src/Nucleus/Newborn.antt =====
-- A new process and the state of the nucleus as a whole: it is allocated, joins its ready queue and
-- becomes a child of its creator.
use pandos_plus.Kernel.{Kernel, pcb_of}
use pandos_plus.ProcQueue.{insert_proc_q}
use pandos_plus.Scheduler.{process_prio_low, insert_ready}
use pandos_plus.ProcTree.{insert_child}
use pandos_plus.ProcTree.Family.{insert_child-IsLinked, parent-insert}
use pandos_plus.Nucleus.Frame.{moved-IsSettled, retree-IsSettled}
use pandos_plus.Scheduler.Queues.{held}
use pandos_plus.Base.{
  if_either, ◌≢◌, some_injective, none, ==_iff, inl, inr, Bool-cases, ◌+◌, some, ◌++◌, count-append,
  true, false, ℕ, ◌≡◌, ◌∙◌, refl, sym, ap, true, false, ◌==◌, arith, Option, List, [], ◌∷◌,
  if◌then◌else◌, either_number, count, has,
}
use pandos_plus.Pcb.{Pcb, PcbStore, pid_of, free_pcb_pid}
use pandos_plus.Pcb.Alloc
use pandos_plus.Pcb.Created.{Allocated}
use pandos_plus.Asl.{Tables, queue_at, key_of}
use pandos_plus.Asl.View.{waiting}
use pandos_plus.Asl.Invariant
use pandos_plus.Asl.Invariant.{IsIdle, sem_add_of}
use pandos_plus.ProcTree.Family.{IsLinked, is_parent, parent}
use pandos_plus.Nucleus.{IsSettled, IsSettledAs, in_use, queued, prio_of}
use pandos_plus.Nucleus.Facts.{unqueued-IsIdle, free-orphan, free-childless}

-- A PCB that `allocPcb` returned stands in no queue yet, as one that is being killed.
module _ (t : Tables) (n : ℕ) (low high : List ℕ) (curr : Option ℕ)
    (h : IsSettled [] t n low high curr) (p : ℕ) (s : PcbStore) (a : Allocated p t.pcbs s)
    (v : Alloc.IsValid s) (named : pid_of s p ≢ free_pcb_pid) where
  abbrev allocated : Tables
  allocated = record { pcbs = s; asl = t.asl }

  pub was_free : in_use t.pcbs p ≡ 0
  was_free = ground (arith, a.in_use p, v.owners p)

  unqueued : queued t low high p ≡ 0
  unqueued = ground (arith, was_free, h.placed p)

  kept : (q : ℕ) → (q == p) ≡ false → s.pcb q ≡ t.pcbs.pcb q
  kept q ne = let e : (p == q) ≡ false = ground arith in a.others q ∙ rw e refl

  asl-kept : Invariant.IsValid allocated
  asl-kept = record {
    linked = record {
      sorted = h.asl.linked.sorted;
      owners = h.asl.linked.owners;
      waits = λ i q mi.
          either_number
            (λ r. has r (queue_at t.asl i) ≡ true → sem_add_of allocated r ≡ key_of t.asl i) p
            (λ mp. cc (unqueued-IsIdle [] t n low high curr h p unqueued i mi, mp))
            (λ r ne mr. ap (λ (b : Pcb). b.p_sem_add) (kept r ne) ∙ h.asl.linked.waits i r mi mr) q;
      once = h.asl.linked.once;
    };
    nonempty = h.asl.nonempty;
  }

  parents : (c : ℕ) → parent s c ≡ parent t.pcbs c
  parents =
      either_number _ p (a.no_parent ∙ sym (free-orphan [] t n low high curr h p was_free))
        λ c ne. ap (λ (b : Pcb). b.p_parent) (kept c ne)

  IsLinked-kept : IsLinked s
  IsLinked-kept =
      either_number _ p
        (λ c.
          ap (count c) a.no_child
          ∙ sym (
              ap (λ o. if is_parent p o then 1 else 0) (parents c)
              ∙ free-childless [] t n low high curr h p c was_free))
        λ q ne c.
          ap (λ (b : Pcb). count c b.p_child) (kept q ne)
          ∙ h.linked q c
          ∙ ap (λ o. if is_parent q o then 1 else 0) (sym (parents c))

  pub allocated-IsSettled : IsSettled (p ∷ []) allocated n low high curr
  allocated-IsSettled = record {
    pcbs = v;
    asl = asl-kept;
    alive =
        either_number _ p (λ uses. named)
          λ q ne uses e.
            h.alive q (ground (arith, uses, a.in_use q))
              (ap (λ (b : Pcb). b.p_pid) (sym (kept q ne)) ∙ e);
    linked = IsLinked-kept;
    kin = λ c q e.
        let before = h.kin c q (sym (parents c) ∙ e) in
        (
          ground (arith, before.0, a.in_use c, v.owners c),
          ground (arith, before.1, a.in_use q, v.owners q),
        );
    counted = omega (arith, h.counted, a.one_more);
    limbo = λ q. omega (arith, a.in_use q);
    placed =
        either_number _ p
          (ground (
            arith,
            h.placed p,
            a.in_use p,
            was_free,
            ap (λ x. count p (waiting t.asl x)) a.no_semaphore,
            h.nowhere p,
          ))
          λ q ne. ground (
            arith,
            h.placed q,
            a.in_use q,
            ap (λ (b : Pcb). count q (waiting t.asl b.p_sem_add)) (kept q ne),
          );
    ranked =
        either_number _ p (ground (arith, unqueued))
          λ q ne. ground (arith, h.ranked q, ap (λ (b : Pcb). b.p_prio) (kept q ne));
    noted =
        either_number _ p (λ used notes. absurd (notes a.no_semaphore))
          λ q ne used notes.
            let same = ap (λ (b : Pcb). b.p_sem_add) (kept q ne) in
            let counted = h.noted q (ground (arith, used, a.in_use q)) (λ e. notes (same ∙ e)) in
            rw same counted;
    nowhere = h.nowhere;
  }

-- A process between the queues joins its ready queue, and is counted.
module _ (t : Tables) (n : ℕ) (low high : List ℕ) (curr : Option ℕ) (p : ℕ)
    (g : IsSettled (p ∷ []) t n low high curr) (ne : held p curr ≡ 0) where
  pub low-IsSettled :
      (prio_of t p == process_prio_low) ≡ true → IsSettled [] t (n + 1) (low ++ p ∷ []) high curr
  low-IsSettled prio =
      moved-IsSettled (p ∷ []) t n low high curr g [] (n + 1) (low ++ p ∷ []) high curr
        (omega arith)
        (either_number _ p
          (ground (arith, g.placed p, g.limbo p, g.pcbs.owners p, count-append p low (p ∷ [])))
          λ q other. ground (arith, g.placed q, count-append q low (p ∷ [])))
        (either_number _ p (ground (arith, g.placed p, g.pcbs.owners p))
          λ q other. ground (arith, g.ranked q, count-append q low (p ∷ [])))

  pub high-IsSettled :
      (prio_of t p == process_prio_low) ≡ false → IsSettled [] t (n + 1) low (high ++ p ∷ []) curr
  high-IsSettled prio =
      moved-IsSettled (p ∷ []) t n low high curr g [] (n + 1) low (high ++ p ∷ []) curr
        (omega arith)
        (either_number _ p
          (ground (arith, g.placed p, g.limbo p, g.pcbs.owners p, count-append p high (p ∷ [])))
          λ q other. ground (arith, g.placed q, count-append q high (p ∷ [])))
        (either_number _ p (ground (arith, g.placed p, g.pcbs.owners p))
          λ q other. ground (arith, g.ranked q, count-append q high (p ∷ [])))

-- `insertChild` makes it a child of the caller.
pub insert_child-IsSettled :
    (t : Tables) (p caller m : ℕ) (low' high' : List ℕ)
    → IsSettled [] t m low' high' (some caller)
    → parent t.pcbs p ≡ none
    → in_use t.pcbs p ≡ 1
    → in_use t.pcbs caller ≡ 1
    → IsSettled [] (record t { pcbs = insert_child caller p t.pcbs }) m low' high' (some caller)
unfolding insert_child
insert_child-IsSettled t p caller m low' high' h orphan was_used used =
    retree-IsSettled [] t m low' high' (some caller) h (insert_child caller p t.pcbs).pcb
      (λ q. ground arith) (λ q. ground arith) (λ q. inl (ground arith))
      (insert_child-IsLinked caller p t.pcbs orphan h.linked)
      (λ c q e. elim (Bool-cases (p == c)) [
        | inl here ↦
            let known : parent (insert_child caller p t.pcbs) c ≡ some caller =
              parent-insert caller p t.pcbs c ∙ rw here refl in
            let owner = some_injective caller q (sym known ∙ e) in
            (
              sym (ap (in_use t.pcbs) ((==_iff p c).0 here)) ∙ was_used,
              sym (ap (in_use t.pcbs) owner) ∙ used,
            )
        | inr other ↦ h.kin c q (sym (parent-insert caller p t.pcbs c ∙ rw other refl) ∙ e)
      ])

-- the counted process joins its ready queue
pub join-IsSettled :
    (p n : ℕ) (curr : Option ℕ) (k : Kernel)
    → held p curr ≡ 0
    → IsSettled (p ∷ []) k.tables n k.low_readyqueue k.high_readyqueue curr
    → k.process_count ≡ n + 1
    → IsSettledAs curr [] (insert_ready p k)
unfolding insert_ready insert_proc_q
join-IsSettled p n curr k ne h counted =
    elim (Bool-cases ((pcb_of k p).p_prio == process_prio_low)) [
      | inl prio ↦
          rw (prio, counted)
            (low-IsSettled k.tables n k.low_readyqueue k.high_readyqueue curr p h ne prio)
      | inr prio ↦
          rw (prio, counted)
            (high-IsSettled k.tables n k.low_readyqueue k.high_readyqueue curr p h ne prio)
    ]

-- `insert_ready` changes only the ready queues.
pub insert_ready_cases {ℓ} :
    (P : Kernel → Type ℓ) (p : ℕ) (k : Kernel)
    → ((low high : List ℕ) → P (record k { low_readyqueue = low; high_readyqueue = high }))
    → P (insert_ready p k)
unfolding insert_ready
insert_ready_cases P p k h =
    if_either P ((pcb_of k p).p_prio == process_prio_low) _ _ (λ e. h _ _) (λ e. h _ _)

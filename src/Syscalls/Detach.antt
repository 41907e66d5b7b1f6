-- ===== src/Syscalls/Detach.antt =====
-- `_killProcess` of phase2/exceptions.c before it turns to the children: the tree of processes.
use pandos_plus.Base.{
  ℕ, zero, suc, ◌≤◌, ◌≡◌, ◌⊎◌, Bool, true, false, Option, none, ◌==◌, if◌then◌else◌, count, arith,
  refl, Bool-cases, inl, inr, ap, ◌∙◌, sym, ==_iff,
}
use pandos_plus.Machine.{null}
use pandos_plus.Pcb.{PcbStore, max_proc}
use pandos_plus.ProcTree.{out_child}
use pandos_plus.ProcTree.Count.{family_size, has_parent, is_child}
use pandos_plus.ProcTree.Family.{IsLinked, Orphans, is_parent, out_child-Orphans, parent}
use pandos_plus.Asl.Tree.{SameTree, out_blocked-KeepsTree}
use pandos_plus.Platform.{Platform}
use pandos_plus.Devices.{is_soft_blocked}
use pandos_plus.Kernel.{Kernel, Run, ok, left, fault, and_then, set_pcbs, pcb_of, Cmd}
use pandos_plus.Scheduler.{process_prio_low}
use pandos_plus.Semaphore.{set_tables}
use pandos_plus.Syscalls.{decrement, detach, leave_ready_queue, leave_semaphore}

-- Children and parents agree, and only PCBs of the table have a parent.
abbrev pub IsFamily : PcbStore → Type 0
IsFamily s = IsLinked s × ((c : ℕ) → max_proc ≤ c → parent s c ≡ none)

abbrev pub size : PcbStore → ℕ
size s = family_size max_proc s

pub same-IsLinked : (s s' : PcbStore) → SameTree s s' → IsLinked s → IsLinked s'
same-IsLinked s s' same linked p c =
    ap (count c) (same p).0
    ∙ linked p c
    ∙ ap (λ (o : Option ℕ). if is_parent p o then 1 else 0) (sym (same c).1)

pub same-IsFamily : (s s' : PcbStore) → SameTree s s' → IsFamily s → IsFamily s'
same-IsFamily s s' same (linked, bound) =
    (same-IsLinked s s' same linked, λ c big. (same c).1 ∙ bound c big)

pub same-size : (n : ℕ) (s s' : PcbStore) → SameTree s s' → family_size n s' ≡ family_size n s
same-size zero s s' same = refl
same-size (suc n) s s' same =
    let kept : is_child s' n ≡ is_child s n = ap has_parent (same n).1 in
    rw kept (omega (arith, same-size n s s' same))

pub unlinked-IsFamily : (p : ℕ) (s s' : PcbStore) → Orphans p s s' → IsFamily s → IsFamily s'
unlinked-IsFamily p s s' (linked, parents) (_, bound) =
    (linked, λ c big. parents c ∙ rest (p == c) c big)
  where
    rest : (b : Bool) (c : ℕ) → max_proc ≤ c → (if b then none else parent s c) ≡ none
    rest true c big = refl
    rest false c big = bound c big

-- The run ends, with no more PCBs that have a parent than `n`, or at a read through NULL.
abbrev pub Ends : ℕ → Run (Unit {0}) → Type 0
Ends n r =
    ((k' : Kernel) × (r ≡ ok tt k') × IsFamily k'.tables.pcbs × (size k'.tables.pcbs ≤ n))
    ⊎ ((k' : Kernel) × (r ≡ left fault k'))

pub then_Ends :
    (m n : ℕ) (r : Run (Unit {0})) (f : Cmd (Unit {0}))
    → Ends m r
    → ((k' : Kernel) → IsFamily k'.tables.pcbs → size k'.tables.pcbs ≤ m → Ends n (f k'))
    → Ends n (and_then r (λ _. f))
then_Ends m n r f (inl (k', e, family, few)) go = rw e (go k' family few)
then_Ends m n r f (inr (k', e)) go = rw e (inr (k', refl))

module _ (pf : Platform) where
  -- A step that leaves the tree alone, or a read through NULL.
  abbrev Stays : Kernel → Run (Unit {0}) → Type 0
  Stays k r =
      ((k' : Kernel) × (r ≡ ok tt k') × SameTree k.tables.pcbs k'.tables.pcbs)
      ⊎ ((k' : Kernel) × (r ≡ left fault k'))

  leave_semaphore-Stays : (p : ℕ) (k : Kernel) → Stays k (leave_semaphore pf p k)
  unfolding leave_semaphore
  leave_semaphore-Stays p k = elim (Bool-cases ((pcb_of k p).p_sem_add == null)) [
    | inl idle ↦ rw (idle, leave_semaphore) (inl (k, refl, λ q. (refl, refl)))
    | inr waits ↦ elim (Bool-cases (is_soft_blocked pf (pcb_of k p).p_sem_add)) [
      | inl soft ↦
          let k1 = record k { softblocked_count = decrement k.softblocked_count } in
          elim (out_blocked-KeepsTree p k.tables) [
            | inl e ↦ rw (waits, soft, e, soft, leave_semaphore) (inr (k1, refl))
            | inr (pcb, t', e, same) ↦
                rw (waits, soft, e, soft, leave_semaphore) (inl (set_tables t' k1, refl, same))
          ]
      | inr hard ↦ elim (out_blocked-KeepsTree p k.tables) [
        | inl e ↦ rw (waits, hard, e, hard, leave_semaphore) (inr (k, refl))
        | inr (pcb, t', e, same) ↦
            rw (waits, hard, e, hard, leave_semaphore) (inl (set_tables t' k, refl, same))
      ]
    ]
  ]

  leave_ready_queue-tables : (p : ℕ) (k : Kernel) → (leave_ready_queue pf p k).tables ≡ k.tables
  unfolding leave_ready_queue
  leave_ready_queue-tables p k = elim (Bool-cases ((pcb_of k p).p_prio == process_prio_low)) [
    | inl low ↦ rw low refl
    | inr high ↦ rw high refl
  ]

  -- The process has left its parent and its queues, or a read through NULL.
  abbrev Detaches : ℕ → Kernel → Run (Unit {0}) → Type 0
  Detaches p k r =
      ((k' : Kernel) × (r ≡ ok tt k') × Orphans p k.tables.pcbs k'.tables.pcbs)
      ⊎ ((k' : Kernel) × (r ≡ left fault k'))

  -- `outChild`: the process has no parent then.
  pub out_child-orphan : (p : ℕ) (s : PcbStore) → IsLinked s → Orphans p s (out_child p s).1
  out_child-orphan p s linked = elim (out_child-Orphans p s linked) [
    | inl (orphan, e) ↦ rw e (
      linked,
      λ c. elim (Bool-cases (p == c)) [
        | inl here ↦ rw here (ap (parent s) (sym ((==_iff p c).0 here)) ∙ orphan)
        | inr other ↦ rw other refl
      ],
    )
    | inr (owner, _, _, gone) ↦ gone
  ]

  pub detach-Detaches : (p : ℕ) (k : Kernel) → IsLinked k.tables.pcbs → Detaches p k (detach pf p k)
  unfolding detach
  detach-Detaches p k linked =
      let s1 = (out_child p k.tables.pcbs).1 in
      let k1 = record (set_pcbs s1 k) { process_count = decrement k.process_count } in
      let (linked1, parents1) = out_child-orphan p k.tables.pcbs linked in
      elim (leave_semaphore-Stays p k1) [
        | inr (k2, e) ↦ inr (k2, rw e refl)
        | inl (k2, e, same) ↦ inl (
          leave_ready_queue pf p k2,
          rw e refl,
          rw (leave_ready_queue-tables p k2)
              (same-IsLinked s1 k2.tables.pcbs same linked1, λ c. (same c).1 ∙ parents1 c),
        )
      ]

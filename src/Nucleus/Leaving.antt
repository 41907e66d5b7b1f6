-- ===== src/Nucleus/Leaving.antt =====
-- `_killProcess` of phase2/exceptions.c and the state of the nucleus as a whole: the process leaves its
-- parent and its queues, and at the end its PCB is free.
use pandos_plus.Base.{
  ℕ, ◌≡◌, ◌∙◌, refl, sym, ap, false, ◌==◌, arith, Option, none, some, List, [], ◌∷◌, if◌then◌else◌,
  inl, inr, Bool-cases, Option-cases, either_number, count, count-erase, ==_refl, ==_iff,
  has_iff-count, length-erase,
}
use pandos_plus.Pcb.{PcbStore, free_pcb, pid_of}
use pandos_plus.Pcb.Release.{free_pcb-IsValid, free_pcb-tree}
use pandos_plus.ProcTree.{out_child, remove_child, remove_from_tree}
use pandos_plus.ProcTree.Family.{
  list_cases, Orphans, is_parent, parent, children, out_child-Orphans,
}
use pandos_plus.Asl.{Tables}
use pandos_plus.Asl.Invariant.{sem_add_of}
use pandos_plus.Syscalls.Detach.{same-IsLinked}
use pandos_plus.Nucleus.{IsSettled, in_use, prio_of}
use pandos_plus.Nucleus.Frame.{retree-IsSettled, same_sem_adds-IsValid}

-- What a removal from the tree does to the parents.
module _ (p : ℕ) (s s' : PcbStore) (gone : Orphans p s s') where
  pub parent-gone : parent s' p ≡ none
  parent-gone = gone.1 p ∙ rw (==_refl p) refl

  pub parent-before : (c q : ℕ) → parent s' c ≡ some q → parent s c ≡ some q
  parent-before c q e = elim (Bool-cases (p == c)) [
    | inl here ↦ let orphan : parent s' c ≡ none = gone.1 c ∙ rw here refl in cc (orphan, e)
    | inr other ↦ let same : parent s' c ≡ parent s c = gone.1 c ∙ rw other refl in sym same ∙ e
  ]

  pub parent-other : (c : ℕ) → (p == c) ≡ false → parent s' c ≡ parent s c
  parent-other c ne = gone.1 c ∙ rw ne refl

abbrev pub with_pcbs : Tables → PcbStore → Tables
with_pcbs t s = record t { pcbs = s }

module _ (dying : List ℕ) (t : Tables) (n : ℕ) (low high : List ℕ) (curr : Option ℕ)
    (h : IsSettled dying t n low high curr) (p : ℕ) where
  -- A process is taken from its parent.
  orphaned-IsSettled :
      (owner : ℕ)
      → Orphans p t.pcbs (remove_from_tree owner p t.pcbs)
      → IsSettled dying (with_pcbs t (remove_from_tree owner p t.pcbs)) n low high curr
  unfolding remove_from_tree
  orphaned-IsSettled owner gone =
      retree-IsSettled dying t n low high curr h (remove_from_tree owner p t.pcbs).pcb
        (λ q. ground arith) (λ q. ground arith) (λ q. inl (ground arith)) gone.0
        (λ c q e. h.kin c q (parent-before p t.pcbs (remove_from_tree owner p t.pcbs) gone c q e))

module _ (dying : List ℕ) (t : Tables) (n : ℕ) (low high : List ℕ) (curr : Option ℕ)
    (h : IsSettled dying t n low high curr) (p : ℕ) where
  -- `outChild`
  pub out_child-IsSettled : IsSettled dying (with_pcbs t (out_child p t.pcbs).1) n low high curr
  unfolding out_child
  out_child-IsSettled = elim (out_child-Orphans p t.pcbs h.linked) [
    | inl (orphan, e) ↦ rw (orphan, out_child) h
    | inr (owner, e, found, gone) ↦
        rw (e, out_child)
          (orphaned-IsSettled dying t n low high curr h p owner (rw (e, out_child) at gone))
  ]

  -- `removeChild`
  pub remove_child-IsSettled :
      (out : ℕ) (rest : List ℕ)
      → children t.pcbs p ≡ out ∷ rest
      → Orphans out t.pcbs (remove_child p t.pcbs).1
      → IsSettled dying (with_pcbs t (remove_child p t.pcbs).1) n low high curr
  unfolding remove_child
  remove_child-IsSettled out rest e gone =
      rw (e, remove_child)
        (orphaned-IsSettled dying t n low high curr h out p (rw (e, remove_child) at gone))

-- `freePcb` of a process that has left the tree and the queues
pub free_pcb-IsSettled :
    (dying : List ℕ) (t : Tables) (n : ℕ) (low high : List ℕ) (curr : Option ℕ) (p : ℕ)
    → IsSettled (p ∷ dying) t n low high curr
    → parent t.pcbs p ≡ none
    → children t.pcbs p ≡ []
    → IsSettled dying (with_pcbs t (free_pcb p t.pcbs)) n low high curr
unfolding free_pcb
free_pcb-IsSettled dying t n low high curr p g orphan childless = record {
  pcbs = free_pcb-IsValid t.pcbs p g.pcbs (ground (arith, uses, has_iff-count p t.pcbs.pid_list));
  asl = same_sem_adds-IsValid t (free_pcb p t.pcbs) (λ q. ground arith) g.asl;
  alive =
      either_number _ p
        (λ used. absurd (ground (arith, used, count-erase p p t.pcbs.pid_list, uses)))
        λ q ne used. rw (pids q ne) (g.alive q (sym (kept q ne) ∙ used));
  linked = same-IsLinked t.pcbs (free_pcb p t.pcbs) (λ q. free_pcb-tree p q t.pcbs) g.linked;
  kin = λ c q e. kin c q (sym (free_pcb-tree p c t.pcbs).1 ∙ e);
  counted = omega (arith, g.counted, length-erase p t.pcbs.pid_list, uses);
  limbo =
      either_number _ p (ground (arith, g.limbo p, uses))
        λ q ne. ground (arith, g.limbo q, count-erase q p t.pcbs.pid_list);
  placed =
      either_number _ p
        (rw (sem_adds p) (ground (arith, g.placed p, uses, count-erase p p t.pcbs.pid_list)))
        λ q ne. rw (sem_adds q, kept q ne) (ground (arith, g.placed q, ne));
  ranked = λ q. rw (prios q) (g.ranked q);
  noted =
      either_number _ p
        (λ used. absurd (ground (arith, used, count-erase p p t.pcbs.pid_list, uses)))
        λ q ne used. rw (sem_adds q) (g.noted q (sym (kept q ne) ∙ used));
  nowhere = g.nowhere;
}
  where
    uses : in_use t.pcbs p ≡ 1
    uses = ground (arith, g.limbo p, g.pcbs.owners p)

    sem_adds : (q : ℕ) → ((free_pcb p t.pcbs).pcb q).p_sem_add ≡ sem_add_of t q
    sem_adds q = ground arith

    prios : (q : ℕ) → ((free_pcb p t.pcbs).pcb q).p_prio ≡ prio_of t q
    prios q = ground arith

    pids : (q : ℕ) → (q == p) ≡ false → pid_of (free_pcb p t.pcbs) q ≡ pid_of t.pcbs q
    pids q ne = ground arith

    kept : (q : ℕ) → (q == p) ≡ false → in_use (free_pcb p t.pcbs) q ≡ in_use t.pcbs q
    kept q ne = ground (arith, ne, count-erase q p t.pcbs.pid_list)

    kin :
        (c q : ℕ)
        → parent t.pcbs c ≡ some q
        → (in_use (free_pcb p t.pcbs) c ≡ 1) × (in_use (free_pcb p t.pcbs) q ≡ 1)
    kin c q e =
        let child : (c == p) ≡ false = elim (Bool-cases (c == p)) [
          | inr ne ↦ ne
          | inl here ↦ cc (ap (parent t.pcbs) ((==_iff c p).0 here), orphan, e)
        ] in
        let owner : (q == p) ≡ false = elim (Bool-cases (q == p)) [
          | inr ne ↦ ne
          | inl here ↦
              let one : count c (children t.pcbs q) ≡ 1 =
                g.linked q c
                ∙ ap (λ (o : Option ℕ). if is_parent q o then 1 else 0) e
                ∙ rw (==_refl q) refl in
              absurd (
                omega (
                  arith,
                  one,
                  ap (λ (x : ℕ). count c (children t.pcbs x)) ((==_iff q p).0 here),
                  ap (count c) childless,
                ))
        ] in
        (kept c child ∙ (g.kin c q e).0, kept q owner ∙ (g.kin c q e).1)

-- The tree operations leave the list of the processes alone.
pub out_child-pids : (p : ℕ) (s : PcbStore) → (out_child p s).1.pid_list ≡ s.pid_list
unfolding out_child remove_from_tree
out_child-pids p s = elim (Option-cases (parent s p)) [
  | inl e ↦ rw (e, out_child) refl
  | inr (owner, e) ↦ rw (e, out_child) refl
]

pub remove_child-pids : (p : ℕ) (s : PcbStore) → (remove_child p s).1.pid_list ≡ s.pid_list
unfolding remove_child remove_from_tree
remove_child-pids p s = elim (list_cases (children s p)) [
  | inl e ↦ rw (e, remove_child) refl
  | inr (out, rest, e) ↦ rw (e, remove_child) refl
]

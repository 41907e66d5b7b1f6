-- ===== src/Syscalls/Kill.antt =====
-- `_killProcess` of phase2/exceptions.c: that its fuel is enough.
use pandos_plus.Base.{
  ℕ, zero, suc, ◌+◌, ◌-◌, ◌*◌, ◌<◌, ◌≤◌, ◌≡◌, true, false, List, ◌∷◌, ltb, arith, refl, Bool-cases,
  inl, inr, ap, ◌∙◌, ==_refl,
}
use pandos_plus.Pcb.{PcbStore, max_proc, free_pcb}
use pandos_plus.Pcb.Release.{free_pcb-tree}
use pandos_plus.ProcTree.{remove_child}
use pandos_plus.ProcTree.Count.{family_size-lt, family_size-orphan, has_parent, is_child}
use pandos_plus.ProcTree.Family.{Orphans, children, first_child, remove_child-Orphans}
use pandos_plus.Asl.Tree.{SameTree}
use pandos_plus.Platform.{Platform}
use pandos_plus.Kernel.{Kernel, Run, ok, set_pcbs}
use pandos_plus.Syscalls.{kill_children, kill_fuel, kill_process}
use pandos_plus.Syscalls.Detach.{
  IsFamily, size, same-IsFamily, same-size, unlinked-IsFamily, Ends, then_Ends, detach-Detaches,
}

module _ (pf : Platform) where
  -- `freePcb` at the end
  free-Ends :
      (n p : ℕ) (k : Kernel)
      → IsFamily k.tables.pcbs
      → size k.tables.pcbs ≤ n
      → Ends n (ok tt (set_pcbs (free_pcb p k.tables.pcbs) k))
  free-Ends n p k family few =
      let s = k.tables.pcbs in
      let same : SameTree s (free_pcb p s) = λ q. free_pcb-tree p q s in
      inl (
        set_pcbs (free_pcb p s) k,
        refl,
        same-IsFamily s (free_pcb p s) same family,
        omega (arith, same-size max_proc s (free_pcb p s) same),
      )

  widen : (m n : ℕ) (r : Run (Unit {0})) → m ≤ n → Ends m r → Ends n r
  widen m n r few (inl (k', e, family, least)) = inl (k', e, family, omega arith)
  widen m n r few (inr ends) = inr ends

  -- The size of the family after a removal.
  orphan-size : (p : ℕ) (s s' : PcbStore) → Orphans p s s' → size s' ≤ size s
  orphan-size p s s' gone = omega (arith, family_size-orphan max_proc p s s' gone.1)

  child-size :
      (p out : ℕ) (rest : List ℕ) (s s' : PcbStore)
      → IsFamily s
      → children s p ≡ out ∷ rest
      → Orphans out s s'
      → size s ≡ size s' + 1
  child-size p out rest s s' (linked, bound) e gone =
      let known = first_child p out rest s linked e in
      let child : is_child s out ≡ true = ap has_parent known in
      elim (Bool-cases (ltb out max_proc)) [
        | inl small ↦ family_size-orphan max_proc out s s' gone.1 ∙ rw (small, child) refl
        | inr big ↦ absurd (cc (ap has_parent (bound out (ground arith)), child))
      ]

  mutual
    unfolding kill_process kill_children

    kill-Ends :
        (fuel n p : ℕ) (k : Kernel)
        → IsFamily k.tables.pcbs
        → size k.tables.pcbs ≤ n
        → 2 * n + 2 ≤ fuel
        → Ends n (kill_process pf fuel p k)
    kill-Ends zero n p k family few enough = absurd (omega arith)
    kill-Ends (suc fuel) n p k (linked, bound) few enough = elim (detach-Detaches pf p k linked) [
      | inr (k1, e) ↦ rw e (inr (k1, refl))
      | inl (k1, e, gone) ↦ rw e (
          then_Ends n n (kill_children pf fuel p k1) _
            (kills-Ends fuel n p k1
              (unlinked-IsFamily p k.tables.pcbs k1.tables.pcbs gone (linked, bound))
              (omega (arith, orphan-size p k.tables.pcbs k1.tables.pcbs gone)) (omega arith))
            (λ k2 family2 few2. free-Ends n p k2 family2 few2))
    ]

    kills-Ends :
        (fuel n p : ℕ) (k : Kernel)
        → IsFamily k.tables.pcbs
        → size k.tables.pcbs ≤ n
        → 2 * n + 1 ≤ fuel
        → Ends n (kill_children pf fuel p k)
    kills-Ends zero n p k family few enough = absurd (omega arith)
    kills-Ends (suc fuel) n p k (linked, bound) few enough =
        let s = k.tables.pcbs in
        elim (remove_child-Orphans p s linked) [
          | inl (empty, e) ↦
              rw (e, e, kill_children) (inl (set_pcbs s k, refl, (linked, bound), few))
          | inr (out, rest, e, r, gone) ↦
              let s' = (remove_child p s).1 in
              let k1 = set_pcbs s' k in
              let less : size s ≡ size s' + 1 = child-size p out rest s s' (linked, bound) e gone in
              rw (r, kill_children)
                (widen (n - 1) n _ (omega arith) (
                  then_Ends (n - 1) (n - 1) (kill_process pf fuel out k1) _
                    (kill-Ends fuel (n - 1) out k1 (unlinked-IsFamily out s s' gone (linked, bound))
                      (omega arith) (omega arith))
                    (λ k2 family2 few2. kills-Ends fuel (n - 1) p k2 family2 few2 (omega arith))))
        ]

  -- If children and parents agree and only PCBs of the table have a parent, `_killProcess` of a PCB of
  -- the table ends within its 40 steps: it returns, with both so again and at most 19 PCBs that have a
  -- parent, or it reads through NULL. Children and parents agree if each PCB stands once among the
  -- children of its parent and in no other list of children.
  pub kill_process-Ends :
      (p : ℕ) (k : Kernel)
      → p < max_proc
      → IsFamily k.tables.pcbs
      → Ends 19 (kill_process pf kill_fuel p k)
  unfolding kill_process
  kill_process-Ends p k small (linked, bound) = elim (detach-Detaches pf p k linked) [
    | inr (k1, e) ↦ rw e (inr (k1, refl))
    | inl (k1, e, gone) ↦
        let alone : is_child k1.tables.pcbs p ≡ false =
          ap has_parent (gone.1 p) ∙ rw (==_refl p) refl in
        let few : size k1.tables.pcbs < max_proc =
          family_size-lt max_proc p k1.tables.pcbs small alone in
        rw e (
          then_Ends 19 19 (kill_children pf 39 p k1) _
            (kills-Ends 39 19 p k1
              (unlinked-IsFamily p k.tables.pcbs k1.tables.pcbs gone (linked, bound)) (omega arith)
              (omega arith))
            (λ k2 family2 few2. free-Ends 19 p k2 family2 few2))
  ]

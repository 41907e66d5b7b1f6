-- ===== src/ProcTree/Tests.antt =====
-- The process 0 with the children 1 and 2.
use pandos_plus.Base.{ℕ, arith, ◌≡◌, ◌≤◌, ◌⊎◌, none, some, List, [], ◌∷◌, refl}
use pandos_plus.Pcb.{PcbStore, max_proc}
use pandos_plus.Pcb.Tests.{blank_pcbs}
use pandos_plus.ProcTree.{insert_child, remove_child}
use pandos_plus.ProcTree.Family.{
  IsLinked, Orphans, children, insert_child-IsLinked, parent, remove_child-Orphans,
}

abbrev one_child : PcbStore
one_child = insert_child 0 1 blank_pcbs

blank_pcbs-IsLinked : IsLinked blank_pcbs
blank_pcbs-IsLinked p c = refl

two_orphan : parent one_child 2 ≡ none
unfolding insert_child
two_orphan = refl

abbrev pub family : PcbStore
family = insert_child 0 2 one_child

pub family-IsLinked : IsLinked family
family-IsLinked =
    insert_child-IsLinked 0 2 one_child two_orphan
      (insert_child-IsLinked 0 1 blank_pcbs refl blank_pcbs-IsLinked)

remove_child-Orphans_example :
    ((children family 0 ≡ []) × (remove_child 0 family ≡ (none, family)))
    ⊎ ((out : ℕ) × (rest : List ℕ) × (children family 0 ≡ out ∷ rest)
        × ((remove_child 0 family).0 ≡ some out)
        × Orphans out family (remove_child 0 family).1)
remove_child-Orphans_example = remove_child-Orphans 0 family family-IsLinked

pub family-bound : (c : ℕ) → max_proc ≤ c → parent family c ≡ none
unfolding insert_child
family-bound c big = ground arith

-- ===== src/ProcTree.antt =====
-- phase1/pcb.c: the tree of processes. `p_child` is the sequence of the children's `p_sib` links.
pub mod Count
pub mod Family
pub mod Tests
use pandos_plus.Base.{ℕ, Bool, Option, none, some, [], ◌∷◌, ◌++◌, is_empty, erase}
use pandos_plus.Pcb.{PcbStore, set_pcb}

unfoldable pub empty_child : ℕ → PcbStore → Bool
empty_child p s = is_empty (s.pcb p).p_child

unfoldable pub insert_child : ℕ → ℕ → PcbStore → PcbStore
insert_child prnt p s =
    let linked =
      set_pcb prnt (record (s.pcb prnt) { p_child = (s.pcb prnt).p_child ++ p ∷ [] }) s in
    set_pcb p (record (linked.pcb p) { p_parent = some prnt }) linked

-- `list_del(&pcb->p_sib)` unlinks the PCB from the list of children that holds it, `owner`'s.
unfoldable pub remove_from_tree : ℕ → ℕ → PcbStore → PcbStore
remove_from_tree owner pcb s =
    let unlinked =
      set_pcb owner (record (s.pcb owner) { p_child = erase pcb (s.pcb owner).p_child }) s in
    set_pcb pcb (record (unlinked.pcb pcb) { p_parent = none }) unlinked

unfoldable pub remove_child : ℕ → PcbStore → Option ℕ × PcbStore
unfolding remove_from_tree
remove_child p s = elim (s.pcb p).p_child [
  | [] ↦ (none, s)
  | out ∷ rest ↦ (some out, remove_from_tree p out s)
]

unfoldable pub out_child : ℕ → PcbStore → Option ℕ × PcbStore
unfolding remove_from_tree
out_child p s = elim (s.pcb p).p_parent [
  | none ↦ (none, s)
  | some parent ↦ (some p, remove_from_tree parent p s)
]

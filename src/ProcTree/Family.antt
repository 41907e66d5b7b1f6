-- ===== src/ProcTree/Family.antt =====
-- The tree operations of phase1/pcb.c keep the children of each PCB and the parents of the others
-- together.
use pandos_plus.Base.{
  ℕ, ◌+◌, ◌≡◌, Bool, false, Option, none, some, List, [], ◌∷◌, ◌++◌, ◌==◌, ==_refl, ==_iff,
  if◌then◌else◌, count, count-append, count-erase, erase, arith, refl, Option-cases, Bool-cases,
  inl, inr, ◌⊎◌, ◌∙◌, ap, sym,
}
use pandos_plus.Pcb.{PcbStore}
use pandos_plus.ProcTree.{insert_child, remove_from_tree, remove_child, out_child}

abbrev pub is_parent : ℕ → Option ℕ → Bool
is_parent p none = false
is_parent p (some q) = p == q

abbrev pub children : PcbStore → ℕ → List ℕ
children s p = (s.pcb p).p_child

abbrev pub parent : PcbStore → ℕ → Option ℕ
parent s c = (s.pcb c).p_parent

-- Each PCB stands once among the children of its parent, and in no other list of children.
abbrev pub IsLinked : PcbStore → Type 0
IsLinked s = (p c : ℕ) → count c (children s p) ≡ (if is_parent p (parent s c) then 1 else 0)

children-insert :
    (prnt p : ℕ) (s : PcbStore) (q : ℕ)
    → children (insert_child prnt p s) q
      ≡ (if prnt == q then children s prnt ++ p ∷ [] else children s q)
unfolding insert_child
children-insert prnt p s q = ground arith

pub parent-insert :
    (prnt p : ℕ) (s : PcbStore) (c : ℕ)
    → parent (insert_child prnt p s) c ≡ (if p == c then some prnt else parent s c)
unfolding insert_child
parent-insert prnt p s c = ground arith

children-remove :
    (owner p : ℕ) (s : PcbStore) (q : ℕ)
    → children (remove_from_tree owner p s) q
      ≡ (if owner == q then erase p (children s owner) else children s q)
unfolding remove_from_tree
children-remove owner p s q = ground arith

pub parent-remove :
    (owner p : ℕ) (s : PcbStore) (c : ℕ)
    → parent (remove_from_tree owner p s) c ≡ (if p == c then none else parent s c)
unfolding remove_from_tree
parent-remove owner p s c = ground arith

-- A PCB with no parent is in no list of children.
orphan-count :
    (s : PcbStore) (p c : ℕ) → IsLinked s → parent s c ≡ none → count c (children s p) ≡ 0
orphan-count s p c linked orphan =
    linked p c ∙ ap (λ (o : Option ℕ). if is_parent p o then 1 else 0) orphan

pub list_cases : (xs : List ℕ) → (xs ≡ []) ⊎ ((x : ℕ) × (rest : List ℕ) × (xs ≡ x ∷ rest))
list_cases [] = inl refl
list_cases (x ∷ rest) = inr (x, rest, refl)

-- If each PCB stands once among the children of its parent and in no other list of children, this is
-- so after `insertChild` of a PCB with no parent.
pub insert_child-IsLinked :
    (prnt p : ℕ) (s : PcbStore) → parent s p ≡ none → IsLinked s → IsLinked (insert_child prnt p s)
insert_child-IsLinked prnt p s orphan linked q c =
    rw (children-insert prnt p s q, parent-insert prnt p s c)
      (elim (Bool-cases (p == c)) [
        | inl here ↦
            let same : p ≡ c = (==_iff p c).0 here in
            let alone = λ (r : ℕ). orphan-count s r c linked (ap (parent s) (sym same) ∙ orphan) in
            ground (arith, alone q, alone prnt, count-append c (children s prnt) (p ∷ []))
        | inr other ↦
            rw other
              (ground (arith, linked q c, linked prnt c, count-append c (children s prnt) (p ∷ [])))
      ])

remove_from_tree-IsLinked :
    (owner p : ℕ) (s : PcbStore)
    → parent s p ≡ some owner
    → IsLinked s
    → IsLinked (remove_from_tree owner p s)
remove_from_tree-IsLinked owner p s child linked q c =
    rw (children-remove owner p s q, parent-remove owner p s c)
      (elim (Bool-cases (p == c)) [
        | inl here ↦
            let same : p ≡ c = (==_iff p c).0 here in
            let one = λ (r : ℕ).
              linked r c
              ∙ ap (λ (o : Option ℕ). if is_parent r o then 1 else 0)
                  (ap (parent s) (sym same) ∙ child) in
            ground (arith, one q, one owner, count-erase c p (children s owner))
        | inr other ↦
            rw other
              (ground (arith, linked q c, linked owner c, count-erase c p (children s owner)))
      ])

pub first_child :
    (p out : ℕ) (rest : List ℕ) (s : PcbStore)
    → IsLinked s
    → children s p ≡ out ∷ rest
    → parent s out ≡ some p
first_child p out rest s linked e =
    let counted : count out (children s p) ≡ 1 + count out rest =
      ap (count out) e ∙ rw (==_refl out) refl in
    elim (Option-cases (parent s out)) [
      | inl orphan ↦ absurd (omega (arith, counted, orphan-count s p out linked orphan))
      | inr (owner, known) ↦
          let held : count out (children s p) ≡ (if p == owner then 1 else 0) =
            linked p out ∙ ap (λ (o : Option ℕ). if is_parent p o then 1 else 0) known in
          let same : p ≡ owner = ground (arith, counted, held) in known ∙ ap some (sym same)
    ]

-- What a removal does: every PCB stays with its parent but `p`, which has none.
abbrev pub Orphans : ℕ → PcbStore → PcbStore → Type 0
Orphans p s s' = IsLinked s' × ((c : ℕ) → parent s' c ≡ (if p == c then none else parent s c))

-- If children and parents agree, `removeChild` of a PCB with no children returns NULL and changes
-- nothing, and else it returns the first of them, which has no parent then; children and parents
-- agree again, and no other PCB has another parent.
pub remove_child-Orphans :
    (p : ℕ) (s : PcbStore)
    → IsLinked s
    → ((children s p ≡ []) × (remove_child p s ≡ (none, s)))
      ⊎ ((out : ℕ) × (rest : List ℕ) × (children s p ≡ out ∷ rest)
          × ((remove_child p s).0 ≡ some out)
          × Orphans out s (remove_child p s).1)
unfolding remove_child remove_from_tree
remove_child-Orphans p s linked = elim (list_cases (children s p)) [
  | inl empty ↦ inl (empty, rw (empty, remove_child) refl)
  | inr (out, rest, e) ↦ inr (
    out,
    rest,
    e,
    rw (e, remove_child) refl,
    rw (e, remove_child)
        (
          remove_from_tree-IsLinked p out s (first_child p out rest s linked e) linked,
          parent-remove p out s,
        ),
  )
]

-- If children and parents agree, `outChild` returns NULL and changes nothing for a PCB with no
-- parent, and else takes it from its parent: it has none then, children and parents agree again, and
-- no other PCB has another parent.
pub out_child-Orphans :
    (p : ℕ) (s : PcbStore)
    → IsLinked s
    → ((parent s p ≡ none) × (out_child p s ≡ (none, s)))
      ⊎ ((owner : ℕ) × (parent s p ≡ some owner)
          × ((out_child p s).0 ≡ some p)
          × Orphans p s (out_child p s).1)
unfolding out_child remove_from_tree
out_child-Orphans p s linked = elim (Option-cases (parent s p)) [
  | inl orphan ↦ inl (orphan, rw (orphan, out_child) refl)
  | inr (owner, e) ↦ inr (
    owner,
    e,
    rw (e, out_child) refl,
    rw (e, out_child) (remove_from_tree-IsLinked owner p s e linked, parent-remove owner p s),
  )
]

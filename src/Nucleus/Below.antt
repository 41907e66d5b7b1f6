-- ===== src/Nucleus/Below.antt =====
-- The processes below one in the tree of processes, and what a killing does to the others.
use pandos_plus.Base.{ℕ, ◌≤◌, ◌≡◌, ◌∙◌, some, arith, ◌==◌, Bool-cases, inl, inr}
use pandos_plus.Pcb.{PcbStore}
use pandos_plus.ProcTree.Family.{parent}
use pandos_plus.Nucleus.{in_use}

-- `p` itself, its children, theirs, and so on.
pub data Below (s : PcbStore) (p : ℕ) : ℕ → Type 0 where
  itself : Below s p p
  child : (c q : ℕ) → parent s c ≡ some q → Below s p q → Below s p c

-- No process has got a parent that it did not have.
abbrev pub Shrinks : PcbStore → PcbStore → Type 0
Shrinks s s' = (c q : ℕ) → parent s' c ≡ some q → parent s c ≡ some q

pub Below-Shrinks : (s s' : PcbStore) (p q : ℕ) → Shrinks s s' → Below s' p q → Below s p q
Below-Shrinks s s' p q shrinks itself = itself
Below-Shrinks s s' p q shrinks (child c owner e b) =
    child c owner (shrinks c owner e) (Below-Shrinks s s' p owner shrinks b)

-- Who is below a child is below its parent.
pub Below-parent :
    (s : PcbStore) (p out q : ℕ) → parent s out ≡ some p → Below s out q → Below s p q
Below-parent s p out q known itself = child out p known itself
Below-parent s p out q known (child c owner e b) =
    child c owner e (Below-parent s p out owner known b)

-- Who is still in use has the parent that it had, and who is not below `p` is still in use.
pub record Spares (p : ℕ) (s s' : PcbStore) : Type 0 where
  pub keeps : (c : ℕ) → in_use s' c ≡ 1 → parent s' c ≡ parent s c
  pub spares : (q : ℕ) → (Below s p q → ⊥) → in_use s' q ≡ in_use s q

-- If every process with a parent has a parent in use, all that is below a process that is not in use
-- any more is not in use any more.
pub Below-dead :
    (s s' : PcbStore) (p q : ℕ)
    → Spares p s s'
    → ((c : ℕ) → in_use s' c ≤ 1)
    → ((c owner : ℕ) → parent s' c ≡ some owner → in_use s' owner ≡ 1)
    → in_use s' p ≡ 0
    → Below s p q
    → in_use s' q ≡ 0
Below-dead s s' p q spares once kin dead itself = dead
Below-dead s s' p q spares once kin dead (child c owner e b) =
    let above = Below-dead s s' p owner spares once kin dead b in
    elim (Bool-cases (in_use s' c == 1)) [
      | inl uses ↦ absurd (omega (arith, above, kin c owner (spares.keeps c (ground arith) ∙ e)))
      | inr other ↦ ground (arith, once c)
    ]

-- ===== src/ProcTree/Count.antt =====
-- How many PCBs have a parent: what a killing uses up.
use pandos_plus.Base.{
  ℕ, zero, suc, ◌+◌, ◌<◌, ◌≤◌, ◌≡◌, Bool, true, false, Option, none, some, ◌==◌, ==_iff, ltb, ◌&&◌,
  if◌then◌else◌, arith, refl, Bool-cases, inl, inr, ap, ◌∙◌, sym,
}
use pandos_plus.Pcb.{PcbStore}
use pandos_plus.ProcTree.Family.{parent}

abbrev pub has_parent : Option ℕ → Bool
has_parent none = false
has_parent (some p) = true

abbrev pub is_child : PcbStore → ℕ → Bool
is_child s c = has_parent (parent s c)

-- the PCBs below `n` that have a parent
abbrev pub family_size : ℕ → PcbStore → ℕ
family_size zero s = 0
family_size (suc n) s = (if is_child s n then 1 else 0) + family_size n s

orphaned :
    (p : ℕ) (s s' : PcbStore)
    → ((c : ℕ) → parent s' c ≡ (if p == c then none else parent s c))
    → (c : ℕ) → is_child s' c ≡ (if p == c then false else is_child s c)
orphaned p s s' parents c = ap has_parent (parents c) ∙ push (p == c)
  where
    push :
        (b : Bool)
        → has_parent (if b then none else parent s c) ≡ (if b then false else is_child s c)
    push true = refl
    push false = refl

pub family_size-orphan :
    (n p : ℕ) (s s' : PcbStore)
    → ((c : ℕ) → parent s' c ≡ (if p == c then none else parent s c))
    → family_size n s ≡ family_size n s' + (if ltb p n && is_child s p then 1 else 0)
family_size-orphan zero p s s' parents = ground arith
family_size-orphan (suc n) p s s' parents =
    let rest = family_size-orphan n p s s' parents in
    elim (Bool-cases (p == n)) [
      | inl here ↦
          let gone : is_child s' n ≡ false = orphaned p s s' parents n ∙ rw here refl in
          let same : is_child s p ≡ is_child s n = ap (is_child s) ((==_iff p n).0 here) in
          rw (gone, same) (ground (arith, rest, ==_iff p n))
      | inr before ↦
          let kept : is_child s' n ≡ is_child s n = orphaned p s s' parents n ∙ rw before refl in
          rw kept (ground (arith, rest))
    ]

pub family_size-bound : (n : ℕ) (s : PcbStore) → family_size n s ≤ n
family_size-bound zero s = omega arith
family_size-bound (suc n) s = ground (arith, family_size-bound n s)

pub family_size-lt : (n p : ℕ) (s : PcbStore) → p < n → is_child s p ≡ false → family_size n s < n
family_size-lt zero p s small orphan = absurd (omega arith)
family_size-lt (suc n) p s small orphan = elim (Bool-cases (p == n)) [
  | inl here ↦
      let last : is_child s n ≡ false = ap (is_child s) (sym ((==_iff p n).0 here)) ∙ orphan in
      ground (arith, family_size-bound n s)
  | inr before ↦ ground (arith, family_size-lt n p s)
]

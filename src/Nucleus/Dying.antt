-- ===== src/Nucleus/Dying.antt =====
-- The steps of `_killProcess` of phase2/exceptions.c: what each leaves of the processes below, and of the
-- others.
use pandos_plus.Base.{
  ℕ, ◌<◌, ◌≤◌, ◌≡◌, ◌∙◌, refl, ap, arith, Option, none, some, List, [], ◌∷◌, sym, Option-cases, inl,
  inr, Bool-cases, ltb, count, count-erase, either_number,
}
use pandos_plus.Pcb.{free_pcb}
use pandos_plus.Pcb.Release.{free_pcb-tree}
use pandos_plus.ProcTree.{remove_child}
use pandos_plus.ProcTree.Family.{parent, children, Orphans}
use pandos_plus.Platform.{Platform}
use pandos_plus.Kernel.{Kernel, set_pcbs}
use pandos_plus.Nucleus.{IsSettledAs, in_use}
use pandos_plus.Nucleus.Leaving.{free_pcb-IsSettled, parent-before, parent-other, remove_child-pids}
use pandos_plus.Nucleus.Below.{itself, Spares, Below-Shrinks, Below-parent}
use pandos_plus.Nucleus.Detach.{Fewer, Detached}

pub Fewer-trans : (k k1 k2 : Kernel) → Fewer k k1 → Fewer k1 k2 → Fewer k k2
Fewer-trans k k1 k2 (curr1, uses1, shrinks1) (curr2, uses2, shrinks2) =
    (curr2 ∙ curr1, λ q. omega (arith, uses1 q, uses2 q), λ c q e. shrinks1 c q (shrinks2 c q e))

-- Who had no parent has none.
pub Fewer-orphan :
    (k k' : Kernel)
    → Fewer k k'
    → (q : ℕ) → parent k.tables.pcbs q ≡ none
    → parent k'.tables.pcbs q ≡ none
Fewer-orphan k k' (curr, uses, shrinks) q e = elim (Option-cases (parent k'.tables.pcbs q)) [
  | inl orphan ↦ orphan
  | inr (owner, known) ↦ cc (shrinks q owner known, e)
]

-- Who is dying has no parent.
abbrev pub Parted : List ℕ → Kernel → Type 0
Parted dying k = (q : ℕ) → 0 < count q dying → parent k.tables.pcbs q ≡ none

module _ (pf : Platform) (curr : Option ℕ) where
  -- The process is gone, and perhaps others; the rest is settled.
  abbrev pub Killed : List ℕ → ℕ → Kernel → Unit {0} → Kernel → Type 0
  Killed dying p k _ k' =
      IsSettledAs curr dying k'
      × (in_use k'.tables.pcbs p ≡ 0)
      × (k'.process_count < k.process_count)
      × Fewer k k'
      × Spares p k.tables.pcbs k'.tables.pcbs

  -- The process has no children any more.
  abbrev pub Childless : List ℕ → ℕ → Kernel → Unit {0} → Kernel → Type 0
  Childless dying p k _ k' =
      IsSettledAs curr dying k'
      × (children k'.tables.pcbs p ≡ [])
      × (k'.process_count ≤ k.process_count)
      × Fewer k k'
      × Spares p k.tables.pcbs k'.tables.pcbs

  -- `freePcb` at the end
  pub free-Killed :
      (dying : List ℕ) (p : ℕ) (k k1 k2 : Kernel) (u : Unit {0})
      → Detached pf curr dying p k u k1
      → Childless (p ∷ dying) p k1 u k2
      → Killed dying p k u (set_pcbs (free_pcb p k2.tables.pcbs) k2)
  unfolding free_pcb
  free-Killed dying p k k1 k2 u (h1, orphan, less, fewer1, uses1, parents1)
        (h2, childless, least, fewer2, spares2) =
      let both = Fewer-trans k k1 k2 fewer1 fewer2 in
      (
        free_pcb-IsSettled dying k2.tables _ _ _ curr p h2 (Fewer-orphan k1 k2 fewer2 p orphan)
            childless,
        gone,
        omega (arith, less, least),
        (
          both.0,
          λ q. ground (arith, both.1 q, count-erase q p k2.tables.pcbs.pid_list),
          λ c q e. both.2 c q (sym (free_pcb-tree p c k2.tables.pcbs).1 ∙ e),
        ),
        record {
          keeps =
              either_number _ p (λ uses. absurd (omega (arith, uses, gone)))
                λ c ne uses.
                  (free_pcb-tree p c k2.tables.pcbs).1
                  ∙ spares2.keeps c
                      (ground (arith, uses, ne, count-erase c p k2.tables.pcbs.pid_list))
                  ∙ parents1 c (ground arith);
          spares =
              either_number _ p (λ above. absurd (above itself))
                λ q ne above. ground (
                  arith,
                  ne,
                  count-erase q p k2.tables.pcbs.pid_list,
                  spares2.spares q
                      (λ b. above (Below-Shrinks k.tables.pcbs k1.tables.pcbs p q fewer1.2 b)),
                  uses1 q,
                );
        },
      )
    where
      gone : in_use (free_pcb p k2.tables.pcbs) p ≡ 0
      gone = ground (arith, count-erase p p k2.tables.pcbs.pid_list, h2.pcbs.owners p)

  -- `removeChild` of a child
  abbrev pub child_off : ℕ → Kernel → Kernel
  child_off p k = set_pcbs (remove_child p k.tables.pcbs).1 k

  pub child_off-Fewer :
      (p out : ℕ) (k : Kernel)
      → Orphans out k.tables.pcbs (remove_child p k.tables.pcbs).1
      → Fewer k (child_off p k)
  child_off-Fewer p out k gone = (
    refl,
    λ q. omega (arith, ap (count q) (remove_child-pids p k.tables.pcbs)),
    parent-before out k.tables.pcbs (remove_child p k.tables.pcbs).1 gone,
  )

  -- A child that has a parent is not among those that are dying.
  pub child-fresh :
      (dying : List ℕ) (p out : ℕ) (k : Kernel)
      → Parted dying k
      → parent k.tables.pcbs out ≡ some p
      → count out dying ≡ 0
  child-fresh dying p out k parted e = elim (Bool-cases (ltb 0 (count out dying))) [
    | inl dies ↦ cc (parted out (ground arith), e)
    | inr lives ↦ ground arith
  ]

  -- One round of the loop, and then the others.
  pub round-Spares :
      (p out : ℕ) (k k2 k3 : Kernel)
      → Orphans out k.tables.pcbs (remove_child p k.tables.pcbs).1
      → parent k.tables.pcbs out ≡ some p
      → in_use k2.tables.pcbs out ≡ 0
      → Fewer k k2
      → ((q : ℕ) → in_use k3.tables.pcbs q ≤ in_use k2.tables.pcbs q)
      → ((q : ℕ) → in_use k2.tables.pcbs q ≤ 1)
      → Spares out (child_off p k).tables.pcbs k2.tables.pcbs
      → Spares p k2.tables.pcbs k3.tables.pcbs
      → Spares p k.tables.pcbs k3.tables.pcbs
  round-Spares p out k k2 k3 gone known dead fewer less once first rest = record {
    keeps =
        either_number _ out (λ uses. absurd (omega (arith, uses, dead, less out)))
          λ c ne uses.
            let used : in_use k2.tables.pcbs c ≡ 1 = omega (arith, uses, less c, once c) in
            rest.keeps c uses
            ∙ first.keeps c used
            ∙ parent-other out k.tables.pcbs (remove_child p k.tables.pcbs).1 gone c (ground arith);
    spares = λ q above.
        rest.spares q (λ b. above (Below-Shrinks k.tables.pcbs k2.tables.pcbs p q fewer.2 b))
        ∙ first.spares q (λ b. above (
            Below-parent k.tables.pcbs p out q known (
              Below-Shrinks k.tables.pcbs (child_off p k).tables.pcbs out q
                (parent-before out k.tables.pcbs (remove_child p k.tables.pcbs).1 gone) b)))
        ∙ ap (count q) (remove_child-pids p k.tables.pcbs);
  }

-- ===== src/Nucleus/Kill.antt =====
-- `_killProcess` of phase2/exceptions.c and the state of the nucleus as a whole.
use pandos_plus.Base.{
  ℕ, zero, suc, ◌+◌, ◌*◌, ◌≤◌, ◌≡◌, ◌∙◌, refl, ap, arith, Option, List, [], ◌∷◌, inl, inr, count,
  either_number,
}
use pandos_plus.ProcTree.Family.{parent, remove_child-Orphans, first_child}
use pandos_plus.Platform.{Platform}
use pandos_plus.Kernel.{Kernel}
use pandos_plus.Syscalls.{detach, kill_process, kill_children, kill_fuel}
use pandos_plus.Nucleus.{IsSettledAs, Returns, in_use, then_Returns, map_Outcome}
use pandos_plus.Nucleus.Facts.{counted-pos}
use pandos_plus.Nucleus.Leaving.{remove_child-IsSettled, remove_child-pids}
use pandos_plus.Nucleus.Below.{Below, Below-dead}
use pandos_plus.Nucleus.Dying.{
  Fewer-trans, Fewer-orphan, Parted, Killed, Childless, child_off, child_off-Fewer, child-fresh,
  round-Spares, free-Killed,
}
use pandos_plus.Nucleus.Detach.{detach-Detached, Detached}

module _ (pf : Platform) (curr : Option ℕ) where
  mutual
    unfolding kill_process kill_children

    pub kill-Killed :
        (fuel : ℕ) (dying : List ℕ) (p : ℕ) (k : Kernel)
        → IsSettledAs curr dying k
        → in_use k.tables.pcbs p ≡ 1
        → count p dying ≡ 0
        → Parted dying k
        → 2 * k.process_count ≤ fuel
        → Returns (Killed pf curr dying p k) (kill_process pf fuel p k)
    kill-Killed zero dying p k h uses fresh parted enough =
        absurd (omega (arith, counted-pos dying _ _ _ _ _ h p uses fresh))
    kill-Killed (suc fuel) dying p k h uses fresh parted enough =
        then_Returns (Detached pf curr dying p k) (Killed pf curr dying p k) (detach pf p k) _
          (detach-Detached pf curr dying p k h uses fresh)
          (λ u k1 d.
            then_Returns (Childless pf curr (p ∷ dying) p k1) (Killed pf curr dying p k)
              (kill_children pf fuel p k1) _
              (kills-Childless fuel (p ∷ dying) p k1 d.0
                (either_number _ p (λ _. d.1)
                  λ q ne dies. Fewer-orphan k k1 d.3 q (parted q (ground arith)))
                (omega (arith, d.2)))
              (λ u2 k2 c. free-Killed pf curr dying p k k1 k2 u2 d c))

    kills-Childless :
        (fuel : ℕ) (dying : List ℕ) (p : ℕ) (k : Kernel)
        → IsSettledAs curr dying k
        → Parted dying k
        → 2 * k.process_count + 1 ≤ fuel
        → Returns (Childless pf curr dying p k) (kill_children pf fuel p k)
    kills-Childless zero dying p k h parted enough = absurd (omega arith)
    kills-Childless (suc fuel) dying p k h parted enough =
        elim (remove_child-Orphans p k.tables.pcbs h.linked) [
          | inl (empty, e) ↦
              rw (e, e, kill_children)
                (
                  h,
                  empty,
                  omega arith,
                  (refl, λ q. omega arith, λ c q e. e),
                  record { keeps = λ c uses. refl; spares = λ q above. refl },
                )
          | inr (out, rest, e, r, gone) ↦
              let k1 = child_off pf curr p k in
              let off = child_off-Fewer pf curr p out k gone in
              let known = first_child p out rest k.tables.pcbs h.linked e in
              rw (r, kill_children)
                (then_Returns (Killed pf curr dying out k1) (Childless pf curr dying p k)
                  (kill_process pf fuel out k1) _
                  (kill-Killed fuel dying out k1
                    (remove_child-IsSettled dying _ _ _ _ _ h p out rest e gone)
                    (ap (count out) (remove_child-pids p k.tables.pcbs) ∙ (h.kin out p known).0)
                    (child-fresh pf curr dying p out k parted known)
                    (λ q dies. Fewer-orphan k k1 off q (parted q dies)) (omega arith))
                  (λ _ k2 (settled, dead, less, fewer, spares).
                    let both = Fewer-trans k k1 k2 off fewer in
                    map_Outcome (λ _ _. ⊥) (Childless pf curr dying p k2)
                      (Childless pf curr dying p k) (kill_children pf fuel p k2)
                      (kills-Childless fuel dying p k2 settled
                        (λ q dies. Fewer-orphan k k2 both q (parted q dies)) (omega arith))
                      (λ _ k3 (settled3, none_left, least, fewer3, spares3). (
                        settled3,
                        none_left,
                        omega arith,
                        Fewer-trans k k2 k3 both fewer3,
                        round-Spares pf curr p out k k2 k3 gone known dead both fewer3.1
                            (λ q. ground (arith, settled.pcbs.owners q)) spares spares3,
                      ))))
        ]

-- What the killing of `p` leaves: the state fits together, with the same current process; `p` and all
-- processes below it are not in use; every other process is in use if it was, and has the parent
-- that it had.
pub record Frees (p : ℕ) (k k' : Kernel) : Type 0 where
  pub settled : IsSettledAs k.curr_process [] k'
  pub same : k'.curr_process ≡ k.curr_process
  pub freed : (q : ℕ) → Below k.tables.pcbs p q → in_use k'.tables.pcbs q ≡ 0
  pub spared :
      (q : ℕ) → (Below k.tables.pcbs p q → ⊥) → in_use k'.tables.pcbs q ≡ in_use k.tables.pcbs q
  pub parents :
      (q : ℕ) → in_use k'.tables.pcbs q ≡ 1 → parent k'.tables.pcbs q ≡ parent k.tables.pcbs q

pub kill_process-Killed :
    (pf : Platform) (p : ℕ) (k : Kernel)
    → IsSettledAs k.curr_process [] k
    → in_use k.tables.pcbs p ≡ 1
    → Returns (Killed pf k.curr_process [] p k) (kill_process pf kill_fuel p k)
kill_process-Killed pf p k h uses =
    kill-Killed pf k.curr_process kill_fuel [] p k h uses refl (λ q dies. absurd (omega arith))
      (omega (arith, h.counted, h.pcbs.total))

-- If the state of the nucleus fits together, `_killProcess` of a process in use returns within
-- its 40 steps and reads nothing through NULL; neither the process nor any process below it in
-- the tree is in use then, each other process is in use exactly if it was and has the parent that
-- it had, the current process is the same, and the state fits together again.
pub kill_process-Frees :
    (pf : Platform) (p : ℕ) (k : Kernel)
    → IsSettledAs k.curr_process [] k
    → in_use k.tables.pcbs p ≡ 1
    → Returns (λ _. Frees p k) (kill_process pf kill_fuel p k)
kill_process-Frees pf p k h uses =
    map_Outcome (λ _ _. ⊥) (Killed pf k.curr_process [] p k) (λ _. Frees p k)
      (kill_process pf kill_fuel p k) (kill_process-Killed pf p k h uses)
      (λ _ k' (settled, dead, less, fewer, spares). record {
        settled = settled;
        same = fewer.0;
        freed = λ q b.
            Below-dead k.tables.pcbs k'.tables.pcbs p q spares
              (λ c. ground (arith, settled.pcbs.owners c)) (λ c owner e. (settled.kin c owner e).1)
              dead b;
        spared = spares.spares;
        parents = spares.keeps;
      })

-- ===== src/Nucleus/Facts.antt =====
-- What follows from the state of the nucleus as a whole: who is in no queue waits on nothing, and a
-- free PCB is outside the tree.
use pandos_plus.Base.{
  ℕ, length-le, either_number, ◌∷◌, ◌<◌, ◌≡◌, ◌∙◌, refl, ap, ◌==◌, arith, Option, none, List,
  if◌then◌else◌, inl, inr, Bool-cases, Option-cases, ==_iff, count, has, has_iff-count,
}
use pandos_plus.Pcb.{PcbStore}
use pandos_plus.Asl.{Tables, queue_at, key_of, peek_active_semaphore}
use pandos_plus.Asl.View.{waiting, waiting_of_none, waiting_of_some}
use pandos_plus.Asl.Search.{peek_active_semaphore_iff}
use pandos_plus.Asl.Invariant.{IsIdle, sem_add_of}
use pandos_plus.ProcTree.Family.{is_parent, parent}
use pandos_plus.Nucleus.{IsSettled, in_use, queued}

-- 1 if `p` is the parent of `c`
abbrev pub links : PcbStore → ℕ → ℕ → ℕ
links s p c = if is_parent p (parent s c) then 1 else 0

module _ (dying : List ℕ) (t : Tables) (n : ℕ) (low high : List ℕ) (curr : Option ℕ)
    (h : IsSettled dying t n low high curr) where
  -- Who is in no queue waits on no semaphore.
  pub unqueued-IsIdle : (p : ℕ) → queued t low high p ≡ 0 → IsIdle p t
  unqueued-IsIdle p none_of i mi = elim (Bool-cases (has p (queue_at t.asl i))) [
    | inr e ↦ e
    | inl e ↦
        let key : sem_add_of t p ≡ key_of t.asl i = h.asl.linked.waits i p mi e in
        let found =
          (peek_active_semaphore_iff t.asl (key_of t.asl i) i h.asl.linked.sorted).1 (mi, refl) in
        let here : waiting t.asl (sem_add_of t p) ≡ queue_at t.asl i =
          ap (waiting t.asl) key ∙ waiting_of_some t.asl (key_of t.asl i) i found in
        absurd (ground (arith, e, none_of, has_iff-count p (queue_at t.asl i), ap (count p) here))
  ]

  -- A free PCB has no parent and no child.
  pub free-orphan : (p : ℕ) → in_use t.pcbs p ≡ 0 → parent t.pcbs p ≡ none
  free-orphan p free = elim (Option-cases (parent t.pcbs p)) [
    | inl e ↦ e
    | inr (q, e) ↦ absurd (omega (arith, free, (h.kin p q e).0))
  ]

  pub free-childless : (p c : ℕ) → in_use t.pcbs p ≡ 0 → links t.pcbs p c ≡ 0
  free-childless p c free = elim (Option-cases (parent t.pcbs c)) [
    | inl e ↦ rw e refl
    | inr (q, e) ↦ elim (Bool-cases (p == q)) [
      | inr other ↦ rw (e, other) refl
      | inl same ↦
          absurd (omega (arith, free, ap (in_use t.pcbs) ((==_iff p q).0 same), (h.kin c q e).1))
    ]
  ]

  -- Who is between the queues is in none.
  pub limbo-unqueued : (p : ℕ) → 0 < count p dying → queued t low high p ≡ 0
  limbo-unqueued p limbo = ground (arith, h.placed p, h.pcbs.owners p)

  -- Who waits on a semaphore notes it.
  pub waits-notes : (key p : ℕ) → 0 < count p (waiting t.asl key) → sem_add_of t p ≡ key
  waits-notes key p waits = elim (Option-cases (peek_active_semaphore key t.asl)) [
    | inl absent ↦ absurd (omega (arith, ap (count p) (waiting_of_none t.asl key absent)))
    | inr (i, found) ↦
        let act = (peek_active_semaphore_iff t.asl key i h.asl.linked.sorted).0 found in
        let here = ap (count p) (waiting_of_some t.asl key i found) in
        h.asl.linked.waits i p act.0 (ground (arith, has_iff-count p (queue_at t.asl i))) ∙ act.1
  ]

  -- A process that is not dying is counted.
  pub counted-pos : (p : ℕ) → in_use t.pcbs p ≡ 1 → count p dying ≡ 0 → 0 < n
  counted-pos p uses fresh = omega (
    arith,
    h.counted,
    length-le (p ∷ dying) t.pcbs.pid_list
        (either_number _ p (ground (arith, uses, fresh)) λ q ne. ground (arith, h.limbo q)),
  )

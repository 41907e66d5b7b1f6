-- ===== src/Asl/Tree.antt =====
-- `outBlocked` of phase1/asl.c leaves the tree of processes alone.
use pandos_plus.Base.{ℕ, ◌≡◌, Option, none, some, refl, arith, inl, inr, Option-cases, ◌⊎◌}
use pandos_plus.Pcb.{PcbStore}
use pandos_plus.ProcQueue.{out_proc_q}
use pandos_plus.Asl.{Tables, peek_active_semaphore, queue_at, set_queue, unblock, out_blocked}

-- Every PCB has the parent and the children that it had.
abbrev pub SameTree : PcbStore → PcbStore → Type 0
SameTree s s' =
    (q : ℕ) → ((s'.pcb q).p_child ≡ (s.pcb q).p_child) × ((s'.pcb q).p_parent ≡ (s.pcb q).p_parent)

abbrev pub KeepsTree : PcbStore → Option (Option ℕ × Tables) → Type 0
KeepsTree s r =
    (r ≡ none) ⊎ ((pcb : Option ℕ) × (t' : Tables) × (r ≡ some (pcb, t')) × SameTree s t'.pcbs)

unblock-KeepsTree : (sem : ℕ) (pcb : Option ℕ) (t : Tables) → KeepsTree t.pcbs (unblock sem pcb t)
unfolding unblock
unblock-KeepsTree sem none t = inl refl
unblock-KeepsTree sem (some pcb) t = inr (some pcb, _, refl, λ q. (ground arith, ground arith))

pub out_blocked-KeepsTree : (p : ℕ) (t : Tables) → KeepsTree t.pcbs (out_blocked p t)
unfolding out_blocked unblock
out_blocked-KeepsTree p t =
    elim (Option-cases (peek_active_semaphore (t.pcbs.pcb p).p_sem_add t.asl)) [
      | inl idle ↦ rw (idle, out_blocked) (inr (none, t, refl, λ q. (refl, refl)))
      | inr (sem, e) ↦
          rw (e, out_blocked)
            (unblock-KeepsTree sem (out_proc_q (queue_at t.asl sem) p).0
              (record t { asl = set_queue sem (out_proc_q (queue_at t.asl sem) p).1 t.asl }))
    ]

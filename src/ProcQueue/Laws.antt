-- ===== src/ProcQueue/Laws.antt =====
-- What the queue operations of pcb.c do to a queue as a sequence.
use pandos_plus.Base.{ℕ, ◌≡◌, refl, List, [], ◌∷◌, none, some, arith, has, erase, if◌then◌else◌}
use pandos_plus.ProcQueue.{insert_proc_q, remove_proc_q, out_proc_q}

-- `outProcQ` returns its argument exactly if the queue holds it, and then takes it out.
pub out_proc_q_lem :
    (q : List ℕ) (p : ℕ) → out_proc_q q p ≡ ((if has p q then some p else none), erase p q)
unfolding out_proc_q
out_proc_q_lem [] p = refl
out_proc_q_lem (x ∷ q) p = ground (arith, out_proc_q_lem q p)

-- what `removeProcQ` returns from a queue with `p` in front
pub remove_proc_q-insert :
    (x p : ℕ) (q : List ℕ) → remove_proc_q (insert_proc_q (x ∷ q) p) ≡ (some x, insert_proc_q q p)
unfolding remove_proc_q insert_proc_q
remove_proc_q-insert x p q = refl

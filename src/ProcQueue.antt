-- ===== src/ProcQueue.antt =====
-- phase1/pcb.c: the queues of PCBs. A queue is the sequence of the PCBs that its `list_head` links,
-- first to last.
pub mod Laws
use pandos_plus.Base.{
  ℕ, Bool, Option, none, some, List, [], ◌∷◌, ◌++◌, ◌==◌, if◌then◌else◌, is_empty,
}

unfoldable pub mk_empty_proc_q : List ℕ
mk_empty_proc_q = []

unfoldable pub empty_proc_q : List ℕ → Bool
empty_proc_q q = is_empty q

-- `list_add_tail`
unfoldable pub insert_proc_q : List ℕ → ℕ → List ℕ
insert_proc_q q p = q ++ p ∷ []

unfoldable pub head_proc_q : List ℕ → Option ℕ
head_proc_q [] = none
head_proc_q (p ∷ q) = some p

unfoldable pub remove_proc_q : List ℕ → Option ℕ × List ℕ
remove_proc_q [] = (none, [])
remove_proc_q (out ∷ q) = (some out, q)

-- The walk over the queue; the first entry that is `p` is unlinked.
unfoldable pub out_proc_q : List ℕ → ℕ → Option ℕ × List ℕ
out_proc_q [] p = (none, [])
out_proc_q (pos ∷ q) p =
    let (found, rest) = out_proc_q q p in if pos == p then (some p, q) else (found, pos ∷ rest)

-- ===== src/Pcb/Created.antt =====
-- The PCB that `allocPcb` of phase1/pcb.c returns.
use pandos_plus.Base.{
  ℕ, ◌+◌, ◌≡◌, ◌≢◌, none, some, List, [], ◌∷◌, reverse, arith, ◌==◌, if◌then◌else◌, count, All, ap,
  subst, sym, Option, count-reverse, length, length-reverse, suc,
}
use pandos_plus.Machine.{null}
use pandos_plus.Pcb.{PcbStore, pid_of, generate_pid, init_pcb, insert_back, add_pid, alloc_pcb}
use pandos_plus.Pcb.Pids.{next_pid-fresh}
use pandos_plus.Pcb.Alloc.{
  IsValid, taken, fresh, pid_out, few_pids, count-insert_back, length-insert_back,
}

-- `out` joins the PCBs in use, with a pid that none of them has, no parent, child, semaphore or
-- support structure and no time used; the other PCBs are as they were.
pub record Allocated (out : ℕ) (s s' : PcbStore) : Type 0 where
  pub in_use : (p : ℕ) → count p s'.pid_list ≡ count p s.pid_list + (if p == out then 1 else 0)
  pub one_more : length s'.pid_list ≡ suc (length s.pid_list)
  pub new_pid : All (λ p. pid_of s p ≢ pid_of s' out) s.pid_list
  pub no_parent : (s'.pcb out).p_parent ≡ none
  pub no_child : (s'.pcb out).p_child ≡ []
  pub no_semaphore : (s'.pcb out).p_sem_add ≡ null
  pub no_support : (s'.pcb out).p_support_struct ≡ null
  pub no_time : (s'.pcb out).p_time ≡ 0
  pub others : (p : ℕ) → s'.pcb p ≡ (if out == p then s'.pcb out else s.pcb p)

module _ (s : PcbStore) (out : ℕ) (rest : List ℕ) (v : IsValid s)
    (e : s.pcb_free ≡ out ∷ rest) where
  added : PcbStore
  added = add_pid out (fresh s out rest v e)

  added-Allocated : Allocated out s added
  unfolding added add_pid init_pcb generate_pid
  added-Allocated = record {
    in_use = λ p. ground (
      arith,
      count-reverse p (insert_back (fresh s out rest v e) out (reverse s.pid_list)),
      count-insert_back (fresh s out rest v e) out p (reverse s.pid_list),
      count-reverse p s.pid_list,
    );
    one_more = ground (
      arith,
      length-reverse (insert_back (fresh s out rest v e) out (reverse s.pid_list)),
      length-insert_back (fresh s out rest v e) out (reverse s.pid_list),
      length-reverse s.pid_list,
    );
    new_pid =
        rw (pid_out s out rest v e)
          (next_pid-fresh (taken s out rest v e) v.sorted v.counter (few_pids s out rest v e));
    no_parent = ground arith;
    no_child = ground arith;
    no_semaphore = ground arith;
    no_support = ground arith;
    no_time = ground arith;
    others = λ p. ground arith;
  }

  alloc_pcb-free : alloc_pcb s ≡ (some out, added)
  unfolding alloc_pcb added
  alloc_pcb-free =
      ap
        (λ (free : List ℕ). elim free as (λ _. Option ℕ × PcbStore) [
          | [] ↦ (none, s)
          | p ∷ others ↦ (some p, add_pid p (init_pcb p (record s { pcb_free = others })))
        ])
        e

  -- In a valid table with a free PCB, `allocPcb` returns the first free one, new and in use.
  pub alloc_pcb-Allocated : ((alloc_pcb s).0 ≡ some out) × Allocated out s (alloc_pcb s).1
  alloc_pcb-Allocated = (
    ap (λ (r : Option ℕ × PcbStore). r.0) alloc_pcb-free,
    subst (λ (r : Option ℕ × PcbStore). Allocated out s r.1) (sym alloc_pcb-free) added-Allocated,
  )

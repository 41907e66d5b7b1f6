-- ===== src/Nucleus/Create.antt =====
-- `_createProcess` of phase2/exceptions.c and the state of the nucleus as a whole.
use pandos_plus.Base.{
  ℕ, some_injective, subst, ◌≢◌, All, ==_iff, ◌+◌, ◌%◌, ◌≡◌, ◌∙◌, refl, sym, ap, false, ◌==◌, arith,
  Option, none, some, List, [], ◌∷◌, inl, inr, Bool-cases, ==_refl, count,
}
use pandos_plus.Machine.{word_mod, null}
use pandos_plus.Pcb.{PcbStore, pid_of, free_pcb_pid, alloc_pcb, add_pid, init_pcb}
use pandos_plus.Pcb.Alloc.{IsValid, alloc_pcb-IsValid}
use pandos_plus.Pcb.Created.{Allocated, alloc_pcb-Allocated}
use pandos_plus.ProcTree.{insert_child}
use pandos_plus.Asl.{Tables}
use pandos_plus.Asl.View.{waiting}
use pandos_plus.Asl.Invariant.{sem_add_of}
use pandos_plus.ProcTree.Family.{parent-insert, parent}
use pandos_plus.Kernel.{Kernel, ok, Run, set_pcbs, pcb_of}
use pandos_plus.Scheduler.{insert_ready}
use pandos_plus.Syscalls.{create_process, new_process, return_value, minus_one}
use pandos_plus.Nucleus.{IsSettled, IsSettledAs, IsConsistent, Keeps, in_use}
use pandos_plus.Nucleus.Frame.{put-IsSettled}
use pandos_plus.Nucleus.Newborn.{
  join-IsSettled, insert_ready_cases, allocated-IsSettled, insert_child-IsSettled, was_free,
}
use pandos_plus.Nucleus.Facts.{limbo-unqueued}

module _ (k : Kernel) (caller : ℕ) (curr : k.curr_process ≡ some caller) where
  abbrev with_tables : PcbStore → Kernel
  with_tables s = record (set_pcbs s k) { process_count = (k.process_count + 1) % word_mod }

  abbrev newborn : ℕ → PcbStore → Kernel
  newborn p s = insert_ready p (new_process p (with_tables s))

  abbrev adopted : ℕ → PcbStore → Kernel
  adopted p s = set_pcbs (insert_child caller p (newborn p s).tables.pcbs) (newborn p s)

  newborn-curr : (p : ℕ) (s : PcbStore) → (newborn p s).curr_process ≡ some caller
  unfolding new_process
  newborn-curr p s = insert_ready_cases (λ j. j.curr_process ≡ some caller) p _ λ low high. curr

  newborn-tables :
      (p : ℕ) (s : PcbStore) → (newborn p s).tables ≡ (new_process p (with_tables s)).tables
  newborn-tables p s =
      insert_ready_cases (λ j. j.tables ≡ (new_process p (with_tables s)).tables) p _
        λ low high. refl

  create_process-adopts :
      (p : ℕ)
      → (alloc_pcb k.tables.pcbs).0 ≡ some p
      → create_process k
        ≡ ok tt (
            return_value
              (pcb_of (adopted p (alloc_pcb k.tables.pcbs).1) p).p_pid
              (adopted p (alloc_pcb k.tables.pcbs).1))
  unfolding create_process
  create_process-adopts p e = rw (e, newborn-curr p (alloc_pcb k.tables.pcbs).1, create_process)

-- What the call does when a PCB is free: `p`, which was free, is a process in use with a pid that no
-- other has, a child of the caller and ready, in the state and with the support structure that the
-- caller passed; the caller reads its pid, and the state is consistent.
pub record Creates (caller : ℕ) (k : Kernel) (r : Run (Unit {0})) : Type 0 where
  pub p : ℕ
  pub after : Kernel
  pub done : r ≡ ok tt after
  pub consistent : IsConsistent after
  pub was_free : in_use k.tables.pcbs p ≡ 0
  pub uses : in_use after.tables.pcbs p ≡ 1
  pub new_pid :
      All (λ q. pid_of k.tables.pcbs q ≢ pid_of after.tables.pcbs p) k.tables.pcbs.pid_list
  pub child : parent after.tables.pcbs p ≡ some caller
  pub ready : count p after.low_readyqueue + count p after.high_readyqueue ≡ 1
  pub started : (pcb_of after p).p_s ≡ k.states k.prev_state.reg_a1
  pub supported : (pcb_of after p).p_support_struct ≡ k.prev_state.reg_a3
  pub returned : after.prev_state.reg_v0 ≡ pid_of after.tables.pcbs p
  pub same : after.curr_process ≡ some caller
  pub counted : after.process_count ≡ k.process_count + 1

module _ (k : Kernel) (caller : ℕ) (curr : k.curr_process ≡ some caller) (h : IsConsistent k)
    (p : ℕ) (s : PcbStore) (a : Allocated p k.tables.pcbs s) (v : IsValid s)
    (named : pid_of s p ≢ free_pcb_pid) where
  settled : IsSettledAs (some caller) [] k
  settled = rw (← curr) h.0

  used : in_use k.tables.pcbs caller ≡ 1
  used = h.1 caller curr

  apart : (p == caller) ≡ false
  apart = elim (Bool-cases (p == caller)) [
    | inr e ↦ e
    | inl e ↦ absurd (
        omega (
          arith,
          used,
          was_free k.tables _ _ _ _ settled p s a v named,
          ap (in_use k.tables.pcbs) ((==_iff p caller).0 e),
        ))
  ]

  bounded : (k.process_count + 1) % word_mod ≡ k.process_count + 1
  bounded = omega (arith, settled.counted, settled.pcbs.total)

  abbrev grown :
      IsSettled
        (p ∷ [])
        (record { pcbs = s; asl = k.tables.asl })
        k.process_count
        k.low_readyqueue
        k.high_readyqueue
        (some caller)
  grown = allocated-IsSettled k.tables _ _ _ _ settled p s a v named

  newborn-IsSettled : IsSettledAs (some caller) [] (newborn k caller curr p s)
  unfolding new_process
  newborn-IsSettled =
      join-IsSettled p k.process_count (some caller) (new_process p (with_tables k caller curr s))
        (rw apart refl)
        (put-IsSettled (p ∷ []) _ _ _ _ _ grown p _
          (record { pid = refl; parent = refl; child = refl; sem_add = refl })
          (inr (limbo-unqueued (p ∷ []) _ _ _ _ _ grown p (ground arith))))
        bounded

  -- What the new PCB holds once it is ready, it held before.
  newborn-has {ℓ} :
      (P : Tables → Type ℓ)
      → P (new_process p (with_tables k caller curr s)).tables
      → P (newborn k caller curr p s).tables
  newborn-has P = subst P (sym (newborn-tables k caller curr p s))

  caller-uses : in_use (new_process p (with_tables k caller curr s)).tables.pcbs caller ≡ 1
  unfolding new_process
  caller-uses = ground (arith, used, a.in_use caller, v.owners caller)

  adopted-IsSettled : IsSettledAs (some caller) [] (adopted k caller curr p s)
  unfolding new_process
  adopted-IsSettled =
      insert_child-IsSettled (newborn k caller curr p s).tables p caller _ _ _ newborn-IsSettled
        (newborn-has (λ t. parent t.pcbs p ≡ none) (ground (arith, a.no_parent)))
        (newborn-has (λ t. in_use t.pcbs p ≡ 1) (ground (arith, a.in_use p, v.owners p)))
        (newborn-has (λ t. in_use t.pcbs caller ≡ 1) caller-uses)

  adopted-Creates :
      create_process k
        ≡ ok tt
            (return_value (pcb_of (adopted k caller curr p s) p).p_pid (adopted k caller curr p s))
      → Creates caller k (create_process k)
  unfolding new_process insert_child
  adopted-Creates e = record {
    p = p;
    after = return_value (pcb_of (adopted k caller curr p s) p).p_pid (adopted k caller curr p s);
    done = e;
    consistent = (
      rw (newborn-curr k caller curr p s) adopted-IsSettled,
      λ q running.
          sym (
            ap (in_use (newborn k caller curr p s).tables.pcbs)
              (some_injective caller q (sym (newborn-curr k caller curr p s) ∙ running)))
          ∙ newborn-has (λ t. in_use t.pcbs caller ≡ 1) caller-uses,
    );
    was_free = was_free k.tables _ _ _ _ settled p s a v named;
    uses = newborn-has (λ t. in_use t.pcbs p ≡ 1) (ground (arith, a.in_use p, v.owners p));
    new_pid =
        subst (λ (x : ℕ). All (λ q. pid_of k.tables.pcbs q ≢ x) k.tables.pcbs.pid_list)
          (sym (
            newborn-has (λ t. pid_of (insert_child caller p t.pcbs) p ≡ pid_of s p) (ground arith)))
          a.new_pid;
    child = parent-insert caller p (newborn k caller curr p s).tables.pcbs p ∙ rw (==_refl p) refl;
    ready = ground (
      arith,
      newborn-IsSettled.placed p,
      newborn-IsSettled.nowhere p,
      newborn-has (λ t. in_use t.pcbs p ≡ 1) (ground (arith, a.in_use p, v.owners p)),
      ap (λ (x : ℕ). count p (waiting (newborn k caller curr p s).tables.asl x))
          (newborn-has (λ t. sem_add_of t p ≡ null) (ground (arith, a.no_semaphore))),
      apart,
    );
    started =
        newborn-has (λ t. ((insert_child caller p t.pcbs).pcb p).p_s ≡ k.states k.prev_state.reg_a1)
          (ground arith);
    supported =
        newborn-has
          (λ t. ((insert_child caller p t.pcbs).pcb p).p_support_struct ≡ k.prev_state.reg_a3)
          (ground arith);
    returned = refl;
    same = newborn-curr k caller curr p s;
    counted =
        insert_ready_cases (λ j. j.process_count ≡ k.process_count + 1) p _ λ low high. bounded;
  }

-- The pid that `allocPcb` gives is not that of the free PCBs.
abbrev pub GivesPid : PcbStore → Type 0
GivesPid s = (p : ℕ) → (alloc_pcb s).0 ≡ some p → pid_of (alloc_pcb s).1 p ≢ free_pcb_pid

-- If the state of the nucleus is consistent, there is a current process, a PCB is free and its
-- pid is not that of the free PCBs, `_createProcess` returns: a PCB that was free is a process in
-- use with a pid that no other has, a child of the caller and ready once, with the state and the
-- support structure that the caller passed; the caller reads its pid, one more process is
-- counted, and the state is consistent.
pub create_process-Creates :
    (k : Kernel) (caller p : ℕ) (rest : List ℕ)
    → k.curr_process ≡ some caller
    → IsConsistent k
    → GivesPid k.tables.pcbs
    → k.tables.pcbs.pcb_free ≡ p ∷ rest
    → Creates caller k (create_process k)
create_process-Creates k caller p rest curr h named free =
    let (returned, a) = alloc_pcb-Allocated k.tables.pcbs p rest h.0.pcbs free in
    adopted-Creates k caller curr h p (alloc_pcb k.tables.pcbs).1 a
      (alloc_pcb-IsValid k.tables.pcbs h.0.pcbs) (named p returned)
      (create_process-adopts k caller curr p returned)

alloc_pcb-none : (s : PcbStore) → s.pcb_free ≡ [] → alloc_pcb s ≡ (none, s)
unfolding alloc_pcb
alloc_pcb-none s none_free =
    ap
      (λ (free : List ℕ). elim free as (λ _. Option ℕ × PcbStore) [
        | [] ↦ (none, s)
        | p ∷ others ↦ (some p, add_pid p (init_pcb p (record s { pcb_free = others })))
      ])
      none_free

-- With no free PCB `_createProcess` returns -1 to its caller and changes nothing else.
pub create_process_full :
    (k : Kernel) → k.tables.pcbs.pcb_free ≡ [] → create_process k ≡ ok tt (return_value minus_one k)
unfolding create_process
create_process_full k none_free =
    let e = alloc_pcb-none k.tables.pcbs none_free in
    rw (ap (λ (r : Option ℕ × PcbStore). r.0) e, create_process)
      (ap (λ (r : Option ℕ × PcbStore). ok tt (return_value minus_one (set_pcbs r.1 k))) e)

-- `_createProcess` of a current process keeps a consistent state consistent, on both branches.
pub create_process-Keeps :
    (k : Kernel) (caller : ℕ)
    → k.curr_process ≡ some caller
    → IsConsistent k
    → GivesPid k.tables.pcbs
    → Keeps (λ _ k'. IsConsistent k' × (k'.curr_process ≡ some caller)) (create_process k)
create_process-Keeps k caller curr h named = by_free k.tables.pcbs.pcb_free refl
  where
    by_free :
        (free : List ℕ)
        → k.tables.pcbs.pcb_free ≡ free
        → Keeps (λ _ k'. IsConsistent k' × (k'.curr_process ≡ some caller)) (create_process k)
    by_free [] e = rw (create_process_full k e) (h, curr)
    by_free (p ∷ rest) e =
        let c = create_process-Creates k caller p rest curr h named e in
        rw (c.done) (c.consistent, c.same)

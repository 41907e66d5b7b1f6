-- ===== src/Nucleus/Boot.antt =====
-- `main` of phase2/initial.c makes the state of the nucleus consistent.
use pandos_plus.Base.{
  ℕ, ◌+◌, ◌≡◌, ◌∙◌, refl, sym, ap, true, ◌==◌, arith, Option, none, some, [], ◌∷◌, ◌++◌, ◌%◌, inr,
  count, length, zero, suc, if◌then◌else◌, range,
}
use pandos_plus.Machine.{null, word_mod}
use pandos_plus.Pcb.{
  PcbStore, pid_of, init_pcbs, init_loop, init_entry, alloc_pcb, init_pcb, add_pid, generate_pid,
  next_pid, insert_back, skip_used, max_proc,
}
use pandos_plus.Pcb.Alloc.{alloc_pcb-IsValid}
use pandos_plus.Pcb.Created.{Allocated, alloc_pcb-Allocated}
use pandos_plus.Pcb.Release.{init_pcbs-IsValid}
use pandos_plus.ProcQueue.{mk_empty_proc_q, insert_proc_q}
use pandos_plus.ProcTree.Family.{is_parent, parent, children}
use pandos_plus.Asl.{Tables, init_asl}
use pandos_plus.Asl.Invariant.{sem_add_of}
use pandos_plus.Asl.Unblocked.{init_asl-IsValid}
use pandos_plus.Platform.{Platform}
use pandos_plus.Kernel.{Kernel, leave, panic, state_after}
use pandos_plus.Scheduler.{scheduler, stck}
use pandos_plus.Interrupts.{reset_interval_timer}
use pandos_plus.Init.{
  main, init_globals, init_pass_up_vector, init_device_semaphores, zero_semaphores,
  create_first_process, first_process,
}
use pandos_plus.Scheduler.{process_prio_low}
use pandos_plus.Nucleus.{prio_of, IsSettled, Keeps, then_Keeps, deref-Outcome}
use pandos_plus.Nucleus.Facts.{limbo-unqueued}
use pandos_plus.Nucleus.Frame.{put-IsSettled}
use pandos_plus.Nucleus.Newborn.{allocated-IsSettled, low-IsSettled}
use pandos_plus.Nucleus.Ready.{scheduler-Keeps}

-- No PCB has a parent or children.
abbrev pub IsTreeless : PcbStore → Type 0
IsTreeless s = (q : ℕ) → (parent s q ≡ none) × (children s q ≡ [])

module _ (s : PcbStore) where
  init_pcbs-free : (init_pcbs s).pcb_free ≡ range 0 max_proc
  unfolding init_pcbs init_loop init_entry
  init_pcbs-free = refl

  init_pcbs-pids : (init_pcbs s).pid_list ≡ []
  unfolding init_pcbs init_loop init_entry
  init_pcbs-pids = refl

  init_loop-IsTreeless : (n : ℕ) (s : PcbStore) → IsTreeless s → IsTreeless (init_loop n s)
  unfolding init_loop init_entry
  init_loop-IsTreeless zero s h = h
  init_loop-IsTreeless (suc i) s h =
      init_loop-IsTreeless i (init_entry i s)
        λ q. (ground (arith, (h q).0), ground (arith, (h q).1))

  init_pcbs-IsTreeless : IsTreeless s → IsTreeless (init_pcbs s)
  unfolding init_pcbs
  init_pcbs-IsTreeless h =
      init_loop-IsTreeless max_proc (record s { pcb_free = []; pid_list = []; curr_pid = 1 }) h

-- The tables before the first process.
module _ (t : Tables) (treeless : IsTreeless t.pcbs) where
  abbrev empty_tables : Tables
  empty_tables = record { pcbs = init_pcbs t.pcbs; asl = init_asl t.asl }

  empty-IsSettled : IsSettled [] empty_tables 0 [] [] none
  empty-IsSettled =
      let tree = init_pcbs-IsTreeless t.pcbs treeless in
      let asl = init_asl-IsValid (record t { pcbs = init_pcbs t.pcbs }) in
      record {
        pcbs = init_pcbs-IsValid t.pcbs;
        asl = asl.0;
        alive = λ p uses. absurd (cc (ap (count p) (init_pcbs-pids t.pcbs), uses));
        linked = λ p c.
            ap (count c) (tree p).1
            ∙ sym (ap (λ (o : Option ℕ). if is_parent p o then 1 else 0) (tree c).0);
        kin = λ c q e. cc ((tree c).0, e);
        counted = sym (ap (length {A = ℕ}) (init_pcbs-pids t.pcbs));
        limbo = λ p. omega arith;
        placed = λ p. ground (
          arith,
          ap (count p) (asl.1 (sem_add_of empty_tables p)),
          ap (count p) (init_pcbs-pids t.pcbs),
        );
        ranked = λ p. ground arith;
        noted = λ p uses. absurd (cc (ap (count p) (init_pcbs-pids t.pcbs), uses));
        nowhere = λ p. ap (count p) (asl.1 null);
      }

-- The first process is ready.
module _ (t : Tables) (treeless : IsTreeless t.pcbs) where
  abbrev s1 : PcbStore
  s1 = (alloc_pcb (init_pcbs t.pcbs)).1

  first : ((alloc_pcb (init_pcbs t.pcbs)).0 ≡ some 0) × Allocated 0 (init_pcbs t.pcbs) s1
  first =
      alloc_pcb-Allocated (init_pcbs t.pcbs) 0 (range 1 19) (init_pcbs-IsValid t.pcbs)
        (init_pcbs-free t.pcbs)

  first-pid : pid_of s1 0 ≡ 1
  unfolding init_pcbs init_loop init_entry alloc_pcb init_pcb add_pid generate_pid next_pid
      insert_back skip_used
  first-pid = refl

  first-IsSettled : IsSettled (0 ∷ []) (record { pcbs = s1; asl = init_asl t.asl }) 0 [] [] none
  first-IsSettled =
      allocated-IsSettled (empty_tables t treeless) 0 [] [] none (empty-IsSettled t treeless) 0 s1
        first.1 (alloc_pcb-IsValid (init_pcbs t.pcbs) (init_pcbs-IsValid t.pcbs))
        (λ e. cc (first-pid, e))

  -- `_createFirstProcess`: the PCB 0, which is not in its ready queue yet.
  abbrev Born : Kernel → ℕ → Kernel → Type 0
  Born j p j' =
      (p ≡ 0)
      × IsSettled (0 ∷ []) j'.tables 0 [] [] none
      × ((prio_of j'.tables 0 == process_prio_low) ≡ true)
      × (j'.low_readyqueue ≡ j.low_readyqueue)
      × (j'.high_readyqueue ≡ j.high_readyqueue)
      × (j'.process_count ≡ j.process_count)

  create_first_process-Born :
      (pf : Platform) (j : Kernel)
      → Keeps (Born j) (create_first_process pf (record j { tables = empty_tables t treeless }))
  unfolding create_first_process first_process
  create_first_process-Born pf j =
      deref-Outcome _ _ (alloc_pcb (init_pcbs t.pcbs)).0 0 _ _ first.0 (
        refl,
        put-IsSettled (0 ∷ []) _ 0 [] [] none first-IsSettled 0 _
            (record { pid = refl; parent = refl; child = refl; sem_add = refl })
            (inr (limbo-unqueued (0 ∷ []) _ 0 [] [] none first-IsSettled 0 (omega arith))),
        refl,
        refl,
        refl,
        refl,
      )

-- From any state of the statics and globals with no parents and children in the table of PCBs,
-- `main` does not return, reads nothing through NULL, and leaves the nucleus with a consistent
-- state unless it halts or panics.
pub main-Keeps :
    (pf : Platform) (k : Kernel) → IsTreeless k.tables.pcbs → Keeps (λ _ _. ⊥) (main pf k)
unfolding main init_globals init_pass_up_vector init_device_semaphores zero_semaphores
    create_first_process first_process mk_empty_proc_q insert_proc_q stck reset_interval_timer
main-Keeps pf k treeless =
    then_Keeps (Born k.tables treeless prepared) (λ _ _. ⊥) (create_first_process pf prepared) _
      (create_first_process-Born k.tables treeless pf prepared)
      (λ p j (e, settled, prio, low, high, none_counted).
        then_Keeps (λ _ _. ⊥) (λ _ _. ⊥) (scheduler {A = Unit {0}} (started p j)) (λ _. leave panic)
          (scheduler-Keeps {A = Unit {0}} (λ _ _. ⊥) (started p j)
            (rw (e, low, high, none_counted)
              (low-IsSettled j.tables 0 [] [] none 0 settled refl prio)))
          (λ _ _ no. absurd no))
  where
    prepared : Kernel
    prepared = state_after (reset_interval_timer (init_device_semaphores pf (init_globals pf k)))

    started : ℕ → Kernel → Kernel
    started p j = record j {
      low_readyqueue = j.low_readyqueue ++ p ∷ [];
      process_count = (j.process_count + 1) % word_mod;
    }

-- ===== src/Semaphore/Blocking.antt =====
-- The waiting side of `semP` and `semV` of phase1/asl.c: the caller is suspended.
use pandos_plus.Base.{ℕ, ◌≡◌, true, false, Option, some, arith, ◌==◌, ◌∙◌, sym, subst}
use pandos_plus.Machine.{State}
use pandos_plus.Pcb.{PcbStore}
use pandos_plus.Asl.{Tables, insert_blocked}
use pandos_plus.Asl.Invariant.{IsValid, IsIdle, sem_add_of}
use pandos_plus.Asl.Blocked.{Inserted, insert_blocked_lem}
use pandos_plus.Kernel.{Kernel, ok, Run, pcb_of, state_after}
use pandos_plus.Scheduler.{scheduler, set_process_blocked}
use pandos_plus.Semaphore.{set_tables, suspend, block_on, sem_p, sem_v}

-- The caller waits behind those that do, in the state at the call, and the scheduler runs.
pub record Suspends (sem p : ℕ) (state : State) (k : Kernel) (r : Run (Option ℕ)) : Type 0 where
  pub after : Kernel
  pub schedules : r ≡ scheduler after
  pub blocked : Inserted sem p k.tables after.tables
  pub saved : (pcb_of after p).p_s ≡ state
  pub word : after.mem ≡ k.mem

-- what `setProcessBlocked` leaves of the tables
record Saves (p : ℕ) (state : State) (j : Kernel) (r : Run (Unit {0})) : Type 0 where
  after : Kernel
  done : r ≡ ok tt after
  sem_adds : (q : ℕ) → sem_add_of after.tables q ≡ sem_add_of j.tables q
  asl : after.tables ≡ record { pcbs = after.tables.pcbs; asl = j.tables.asl }
  saved : (pcb_of after p).p_s ≡ state
  word : after.mem ≡ j.mem

set_process_blocked-Saves :
    (p : ℕ) (state : State) (j : Kernel)
    → j.curr_process ≡ some p
    → Saves p state j (set_process_blocked (some state) j)
unfolding set_process_blocked
set_process_blocked-Saves p state j curr = record {
  after = state_after (set_process_blocked (some state) j);
  done = rw (curr, set_process_blocked);
  sem_adds = λ q. rw (curr, set_process_blocked) (ground arith);
  asl = rw (curr, set_process_blocked);
  saved = rw (curr, set_process_blocked) (ground arith);
  word = rw (curr, set_process_blocked);
}

Inserted-congr :
    (sem p : ℕ) (t t' : Tables) (s : PcbStore)
    → ((q : ℕ) → (s.pcb q).p_sem_add ≡ sem_add_of t' q)
    → Inserted sem p t t'
    → Inserted sem p t (record { pcbs = s; asl = t'.asl })
Inserted-congr sem p t t' s same i = record {
  valid = record {
    linked = record {
      sorted = i.valid.linked.sorted;
      owners = i.valid.linked.owners;
      waits = λ j q mj mq. same q ∙ i.valid.linked.waits j q mj mq;
      once = i.valid.linked.once;
    };
    nonempty = i.valid.nonempty;
  };
  queue = i.queue;
  noted = same p ∙ i.noted;
}

module _ (sem p : ℕ) (state : State) (k : Kernel) (valid : IsValid k.tables)
    (idle : IsIdle p k.tables) (curr : k.curr_process ≡ some p)
    (room : (insert_blocked sem p k.tables).0 ≡ false) where
  suspend-Suspends : Suspends sem p state k (suspend sem (some p) (some state) k)
  unfolding suspend
  suspend-Suspends = record {
    after = saves.after;
    schedules = rw (entered, saves.done);
    blocked = subst (Inserted sem p k.tables) (sym saves.asl) (
        Inserted-congr sem p k.tables (insert_blocked sem p k.tables).1 saves.after.tables.pcbs
          saves.sem_adds (insert_blocked_lem k.tables sem p valid idle room));
    saved = saves.saved;
    word = saves.word;
  }
    where
      entered : block_on sem (some p) k ≡ ok tt (set_tables (insert_blocked sem p k.tables).1 k)
      entered = unfold block_on in rw (room, block_on)

      saves :
          Saves p state
            (set_tables (insert_blocked sem p k.tables).1 k)
            (set_process_blocked (some state) (set_tables (insert_blocked sem p k.tables).1 k))
      saves =
          set_process_blocked-Saves p state (set_tables (insert_blocked sem p k.tables).1 k) curr

  -- P of the current process on a semaphore that is 0, with room in the table of semaphores.
  pub sem_p-Suspends : k.mem sem ≡ 0 → Suspends sem p state k (sem_p sem (some p) (some state) k)
  unfolding sem_p
  sem_p-Suspends zero_word = let e : (k.mem sem == 0) ≡ true = ground arith in rw e suspend-Suspends

  -- V of the current process on a semaphore that is 1, with room in the table of semaphores.
  pub sem_v-Suspends : k.mem sem ≡ 1 → Suspends sem p state k (sem_v sem (some p) (some state) k)
  unfolding sem_v
  sem_v-Suspends one_word = let e : (k.mem sem == 1) ≡ true = ground arith in rw e suspend-Suspends

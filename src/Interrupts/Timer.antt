-- ===== src/Interrupts/Timer.antt =====
-- The interval timer of phase2/interrupts.c: its handler wakes every process that waits on it.
use pandos_plus.Base.{
  ℕ, zero, suc, ◌+◌, ◌%◌, ◌<◌, refl, ◌≡◌, ◌≢◌, none, some, List, [], ◌∷◌, arith, ◌==◌, ◌∙◌, ap, sym,
  length, if◌then◌else◌,
}
use pandos_plus.Machine.{word_mod}
use pandos_plus.ProcQueue.{head_proc_q}
use pandos_plus.Asl.{Tables, head_blocked}
use pandos_plus.Asl.View.{waiting}
use pandos_plus.Asl.Invariant.{IsValid}
use pandos_plus.Asl.Unblocked.{Removed, head_blocked_lem}
use pandos_plus.Platform.{Platform}
use pandos_plus.Kernel.{Kernel, ok, Run}
use pandos_plus.Semaphore.{set_tables, sem_v}
use pandos_plus.Semaphore.Steps.{
  made_ready, tables-made_ready, mem-made_ready, softblocked-made_ready, sem_v-Proceeds,
}
use pandos_plus.Syscalls.{decrement}
use pandos_plus.Interrupts.{wake_all}

-- Everyone who waits on `sem` is woken: the loop returns, nobody waits there, no other queue has
-- changed, and the count of soft-blocked processes is less by the number that was woken.
pub record Woken (sem n : ℕ) (k : Kernel) (r : Run (Unit {0})) : Type 0 where
  pub after : Kernel
  pub done : r ≡ ok tt after
  pub valid : IsValid after.tables
  pub queue :
      (key : ℕ)
      → waiting after.tables.asl key ≡ (if sem == key then [] else waiting k.tables.asl key)
  pub counted : (after.softblocked_count + n) % word_mod ≡ k.softblocked_count % word_mod
  pub word : after.mem sem ≡ k.mem sem

-- the state after one round that wakes `p` and leaves the tables `t`
abbrev pub round : ℕ → Tables → Kernel → Kernel
round p t k = record (made_ready p (set_tables t k)) {
  softblocked_count = decrement (made_ready p (set_tables t k)).softblocked_count;
}

module _ (pf : Platform) (fuel p : ℕ) (q : List ℕ) (k : Kernel)
    (e : waiting k.tables.asl pf.semaphore_it ≡ p ∷ q) where
  pub wake_all-round :
      (t : Tables)
      → sem_v pf.semaphore_it none none k ≡ ok (some p) (made_ready p (set_tables t k))
      → wake_all pf (suc fuel) k ≡ wake_all pf fuel (round p t k)
  unfolding wake_all head_proc_q
  wake_all-round t s =
      let h : head_blocked pf.semaphore_it k.tables.asl ≡ some p =
        head_blocked_lem k.tables.asl pf.semaphore_it ∙ ap head_proc_q e in
      rw (h, wake_all) (rw s)

  -- One round, and then the others.
  round-Woken :
      (t : Tables)
      → sem_v pf.semaphore_it none none k ≡ ok (some p) (made_ready p (set_tables t k))
      → Removed pf.semaphore_it p k.tables t
      → Woken pf.semaphore_it (length q) (round p t k) (wake_all pf fuel (round p t k))
      → Woken pf.semaphore_it (suc (length q)) k (wake_all pf (suc fuel) k)
  round-Woken t s removed rest = record {
    after = rest.after;
    done = wake_all-round t s ∙ rest.done;
    valid = rest.valid;
    queue = λ key. ground (
      arith,
      rest.queue key,
      ap (λ (u : Tables). waiting u.asl key) (tables-made_ready p (set_tables t k)),
      removed.queue key,
    );
    counted = omega (arith, rest.counted, softblocked-made_ready p (set_tables t k));
    word = rest.word ∙ ap (λ (m : ℕ → ℕ). m pf.semaphore_it) (mem-made_ready p (set_tables t k));
  }

-- With nobody left the loop returns.
pub wake_all-none :
    (pf : Platform) (fuel : ℕ) (k : Kernel)
    → waiting k.tables.asl pf.semaphore_it ≡ []
    → wake_all pf (suc fuel) k ≡ ok tt k
unfolding wake_all head_proc_q
wake_all-none pf fuel k e =
    let h : head_blocked pf.semaphore_it k.tables.asl ≡ none =
      head_blocked_lem k.tables.asl pf.semaphore_it ∙ ap head_proc_q e in
    rw (h, wake_all)

module _ (pf : Platform) where
  -- The loop of `_ITHandler` ends within its fuel, with every waiting process woken, if the timer's
  -- semaphore is not 1.
  pub wake_all-Woken :
      (fuel : ℕ) (xs : List ℕ) (k : Kernel)
      → waiting k.tables.asl pf.semaphore_it ≡ xs
      → IsValid k.tables
      → k.mem pf.semaphore_it ≢ 1
      → length xs < fuel
      → Woken pf.semaphore_it (length xs) k (wake_all pf fuel k)
  wake_all-Woken zero xs k e v ne few = absurd (omega arith)
  wake_all-Woken (suc fuel) [] k e v ne few = record {
    after = k;
    done = wake_all-none pf fuel k e;
    valid = v;
    queue = λ key. ground (arith, e);
    counted = omega arith;
    word = refl;
  }
  wake_all-Woken (suc fuel) (p ∷ q) k e v ne few =
      let (t, s, removed) = (sem_v-Proceeds pf.semaphore_it none none k v ne).hands_over p q e in
      let same = tables-made_ready p (set_tables t k) in
      round-Woken pf fuel p q k e t s removed (
        wake_all-Woken fuel q (round p t k)
          (ap (λ (u : Tables). waiting u.asl pf.semaphore_it) same
            ∙ ground (arith, removed.queue pf.semaphore_it))
          (rw same removed.valid)
          (λ one.
            ne (
              sym (ap (λ (m : ℕ → ℕ). m pf.semaphore_it) (mem-made_ready p (set_tables t k)))
              ∙ one))
          (omega arith))

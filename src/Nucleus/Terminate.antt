-- ===== src/Nucleus/Terminate.antt =====
-- The system calls and traps of phase2/exceptions.c that kill, and the state of the nucleus as a whole.
use Prim.Native.Nat.{bit_and, bit_or}
use pandos_plus.Base.{
  ℕ, ◌<◌, ◌≡◌, ◌∙◌, refl, sym, ap, true, false, ◌==◌, arith, Option, none, some, [], inl, inr,
  some_injective, either_number, Bool-cases, Option-cases, subst, has, has_iff-count, All-has,
  if◌then◌else◌,
}
use pandos_plus.Machine.{null}
use pandos_plus.Pcb.{max_proc, is_alive, get_process_by_pid}
use pandos_plus.Pcb.Pids.{get_process_by_pid_iff}
use pandos_plus.Platform.{Platform}
use pandos_plus.Kernel.{pure, Kernel, and_then, pcb_of}
use pandos_plus.Scheduler.{scheduler}
use pandos_plus.Syscalls.{kill_process, kill_fuel}
use pandos_plus.Exceptions.{
  kill, term_process, pass_up, pass_up_or_die_handler, generate_invalid_system_call_trap,
  general_except,
}
use pandos_plus.Nucleus.{
  IsSettledAs, IsConsistent, Keeps, Keeps-of_Returns, in_use, then_Keeps, deref-Outcome,
}
use pandos_plus.Nucleus.Frame.{moved-IsSettled}
use pandos_plus.Nucleus.Dying.{Killed}
use pandos_plus.Nucleus.Kill.{kill_process-Killed}
use pandos_plus.Nucleus.Ready.{scheduler-Keeps}

-- When the current process is no longer in use, it needs no place.
gone-IsSettled :
    (k : Kernel) (p : ℕ)
    → IsSettledAs (some p) [] k
    → in_use k.tables.pcbs p ≡ 0
    → IsSettledAs none [] k
gone-IsSettled k p h gone =
    moved-IsSettled [] _ _ _ _ _ h [] _ _ _ none refl
      (either_number _ p (ground (arith, h.placed p, gone)) λ q ne. ground (arith, h.placed q, ne))
      h.ranked

-- Who is not alive, of the table, is not in use; who is, is in use.
module _ (k : Kernel) (curr : Option ℕ) (h : IsSettledAs curr [] k) (p : ℕ) where
  dead-free : is_alive k.tables.pcbs p ≡ false → in_use k.tables.pcbs p ≡ 0
  dead-free dead = elim (Bool-cases (in_use k.tables.pcbs p == 1)) [
    | inl uses ↦ absurd (h.alive p (ground arith) (ground arith))
    | inr other ↦ ground (arith, h.pcbs.owners p)
  ]

  alive-uses : p < max_proc → is_alive k.tables.pcbs p ≡ true → in_use k.tables.pcbs p ≡ 1
  alive-uses small alive = elim (Bool-cases (has p k.tables.pcbs.pcb_free)) [
    | inl free ↦
        absurd (ground (arith, alive, All-has _ p k.tables.pcbs.pcb_free free h.pcbs.freed))
    | inr kept ↦ ground (arith, h.pcbs.owners p, has_iff-count p k.tables.pcbs.pcb_free)
  ]

module _ (pf : Platform) (k : Kernel) (p : ℕ) (running : k.curr_process ≡ some p)
    (h : IsConsistent k) where
  -- The current process is killed, and another one is chosen.
  pub die-Keeps {ℓ} :
      {A : Type ℓ} (Q : A → Kernel → Type 0) → Keeps Q (and_then (kill pf p k) (λ _. scheduler))
  unfolding kill
  die-Keeps Q =
      then_Keeps (Killed pf k.curr_process [] p k) Q (kill_process pf kill_fuel p k) _
        (Keeps-of_Returns (Killed pf k.curr_process [] p k) (kill_process pf kill_fuel p k)
          (kill_process-Killed pf p k h.0 (h.1 p running)))
        (λ _ k' (settled, gone, less, fewer, _). scheduler-Keeps Q k' (
          gone-IsSettled k' p (subst (λ (o : Option ℕ). IsSettledAs o [] k') running settled) gone))

  pub pass_up_or_die_handler-Keeps {ℓ} :
      {A : Type ℓ} (Q : A → Kernel → Type 0) (index : ℕ)
      → Keeps Q (pass_up_or_die_handler pf index k)
  unfolding pass_up_or_die_handler pass_up
  pass_up_or_die_handler-Keeps Q index =
      deref-Outcome _ _ k.curr_process p k _ running
        (elim (Bool-cases ((pcb_of k p).p_support_struct == null)) [
          | inl dies ↦ rw dies (die-Keeps Q)
          | inr passes ↦ rw passes h
        ])

module _ (pf : Platform) (k : Kernel) (p : ℕ) (running : k.curr_process ≡ some p)
    (h : IsConsistent k) where
  pub trap-Keeps {ℓ} :
      {A : Type ℓ} (Q : A → Kernel → Type 0) → Keeps Q (generate_invalid_system_call_trap pf k)
  unfolding generate_invalid_system_call_trap
  trap-Keeps Q =
      pass_up_or_die_handler-Keeps pf
        (record k {
          prev_state = record (k.prev_state) {
            cause = bit_or (bit_and k.prev_state.cause 0xffff_ff83) 0x28;
          };
        })
        p running h Q general_except

  small : p < max_proc
  small = ground (arith, h.1 p running, h.0.pcbs.owners p)

  -- What follows the killing of another process: the caller may have been below it.
  outlive-Keeps :
      (k' : Kernel)
      → IsSettledAs (some p) [] k'
      → k'.curr_process ≡ some p
      → Keeps
          (λ _ j. IsConsistent j)
          ((if is_alive k'.tables.pcbs p then pure tt else scheduler {A = Unit {0}}) k')
  outlive-Keeps k' settled same = elim (Bool-cases (is_alive k'.tables.pcbs p)) [
    | inl alive ↦ rw alive (
      rw same settled,
      λ q e.
          ap (in_use k'.tables.pcbs) (some_injective q p (sym e ∙ same))
          ∙ alive-uses k' (some p) settled p small alive,
    )
    | inr dead ↦
        rw dead (
          scheduler-Keeps _ k' (gone-IsSettled k' p settled (dead-free k' (some p) settled p dead)))
  ]

  pub term_process-Keeps : Keeps (λ _ k'. IsConsistent k') (term_process pf k)
  unfolding term_process kill
  term_process-Keeps = elim (Bool-cases (k.prev_state.reg_a1 == 0)) [
    | inl own ↦
        rw (own, term_process)
          (deref-Outcome _ _ k.curr_process p k _ running (die-Keeps pf k p running h _))
    | inr other ↦ elim (Option-cases (get_process_by_pid k.prev_state.reg_a1 k.tables.pcbs)) [
      | inl absent ↦
          rw (other, absent, term_process)
            (deref-Outcome _ _ k.curr_process p k _ running
              (outlive-Keeps k (subst (λ (o : Option ℕ). IsSettledAs o [] k) running h.0) running))
      | inr (q, found) ↦
          let uses : in_use k.tables.pcbs q ≡ 1 = ground (
            arith,
            ((get_process_by_pid_iff k.tables.pcbs k.prev_state.reg_a1 q h.0.pcbs.sorted).0
                found).0,
            has_iff-count q k.tables.pcbs.pid_list,
            h.0.pcbs.owners q,
          ) in
          rw (other, found, term_process)
            (then_Keeps (Killed pf k.curr_process [] q k) (λ _ j. IsConsistent j)
              (kill_process pf kill_fuel q k) _
              (Keeps-of_Returns (Killed pf k.curr_process [] q k) (kill_process pf kill_fuel q k)
                (kill_process-Killed pf q k h.0 uses))
              (λ _ k' (settled, gone, less, fewer, _).
                deref-Outcome _ _ k'.curr_process p k' _ (fewer.0 ∙ running) (
                  outlive-Keeps k' (subst (λ (o : Option ℕ). IsSettledAs o [] k') running settled)
                    (fewer.0 ∙ running))))
    ]
  ]

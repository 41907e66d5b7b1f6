-- ===== src/Nucleus/Calls.antt =====
-- The system calls of phase2/exceptions.c that do not kill, and the state of the nucleus as a whole.
use pandos_plus.Base.{ℕ, ◌≡◌, ◌≢◌, ◌∙◌, refl, subst, sym, true, arith, Option, none, some, [], inl}
use pandos_plus.Machine.{State, null}
use pandos_plus.Pcb.{is_alive}
use pandos_plus.Platform.{Platform}
use pandos_plus.Devices.{get_io_device_semaphore}
use pandos_plus.Kernel.{Kernel, put_pcb, pcb_of}
use pandos_plus.Scheduler.{update_process_cpu_time, set_process_ready, scheduler}
use pandos_plus.Semaphore.{sem_p, sem_v, write_word}
use pandos_plus.Exceptions.{
  call_p, call_v, get_cpu_time, get_support_ptr, get_process_id, yield_cpu, do_io, clock_wait,
  block_soft,
}
use pandos_plus.Nucleus.{
  Returns, Keeps-of_Returns, IsSettledAs, IsConsistent, Keeps, in_use, then_Keeps, deref-Outcome,
}
use pandos_plus.Nucleus.Frame.{put-IsSettled, unchanged}
use pandos_plus.Nucleus.Newborn.{insert_ready_cases}
use pandos_plus.Nucleus.Ready.{insert_ready-IsSettled, scheduler-Keeps}
use pandos_plus.Nucleus.Semaphores.{
  Stays, update_process_cpu_time-Keeps, sem_p-Keeps, sem_v-Keeps, Stays-IsConsistent,
}

module _ (k : Kernel) (p : ℕ) (running : k.curr_process ≡ some p) (h : IsConsistent k) where
  pub call_p-Keeps : (sem : ℕ) → sem ≢ null → Keeps (λ _ k'. IsConsistent k') (call_p sem k)
  unfolding call_p
  call_p-Keeps sem real =
      then_Keeps _ _ (sem_p sem k.curr_process (some (k.prev_state)) k) _
        (subst
          (λ (o : Option ℕ).
            Keeps (Stays k.curr_process [] k) (sem_p sem o (some (k.prev_state)) k))
          (sym running) (sem_p-Keeps sem k h p k.prev_state running real))
        (λ a k' stays. Stays-IsConsistent k k' a h stays)

  pub call_v-Keeps : (sem : ℕ) → sem ≢ null → Keeps (λ _ k'. IsConsistent k') (call_v sem k)
  unfolding call_v
  call_v-Keeps sem real =
      then_Keeps _ _ (sem_v sem k.curr_process (some (k.prev_state)) k) _
        (subst
          (λ (o : Option ℕ).
            Keeps (Stays k.curr_process [] k) (sem_v sem o (some (k.prev_state)) k))
          (sym running) (sem_v-Keeps sem k h p k.prev_state running real))
        (λ a k' stays. Stays-IsConsistent k k' a h stays)

  pub get_cpu_time-Keeps : Keeps (λ _ k'. IsConsistent k') (get_cpu_time k)
  unfolding get_cpu_time
  get_cpu_time-Keeps =
      then_Keeps _ _ (update_process_cpu_time k) _
        (update_process_cpu_time-Keeps k.curr_process [] k p running h.0)
        (λ a k' stays.
          deref-Outcome _ _ k'.curr_process p k' _ (stays.1 ∙ running)
            (Stays-IsConsistent k k' a h stays))

  pub get_support_ptr-Keeps : Keeps (λ _ k'. IsConsistent k') (get_support_ptr k)
  unfolding get_support_ptr
  get_support_ptr-Keeps = deref-Outcome _ _ k.curr_process p k _ running h

  pub get_process_id-Keeps : Keeps (λ _ k'. IsConsistent k') (get_process_id k)
  unfolding get_process_id
  get_process_id-Keeps = deref-Outcome _ _ k.curr_process p k _ running h

  -- The current process with its state saved.
  abbrev pub saved : State → Kernel
  saved state = put_pcb p (record (pcb_of k p) { p_s = state }) k

  pub saved-IsSettled : (state : State) → IsSettledAs (some p) [] (saved state)
  saved-IsSettled state =
      put-IsSettled [] _ _ _ _ _ (subst (λ (o : Option ℕ). IsSettledAs o [] k) running h.0) p _
        (unchanged _ _ _ _) (inl refl)

-- `setProcessReady` of the current process, which is then no longer taken for running.
pub set_process_ready-Stays :
    (p : ℕ) (k : Kernel)
    → IsSettledAs (some p) [] k
    → in_use k.tables.pcbs p ≡ 1
    → Returns (Stays none [] k) (set_process_ready p k)
unfolding set_process_ready
set_process_ready-Stays p k h uses =
    let living = h.alive p uses in
    let alive : is_alive k.tables.pcbs p ≡ true = ground (arith, living) in
    rw alive (
      insert_ready-IsSettled [] p k h uses refl,
      insert_ready_cases (λ j. j.curr_process ≡ k.curr_process) p k λ low high. refl,
      insert_ready_cases (λ j. j.tables.pcbs.pid_list ≡ k.tables.pcbs.pid_list) p k
          λ low high. refl,
    )

-- What follows once the current process is ready: another one is chosen.
pub reschedule-Keeps {ℓ} :
    {A : Type ℓ} (Q : A → Kernel → Type 0) (k : Kernel)
    → IsSettledAs none [] k
    → Keeps Q (scheduler (record k { curr_process = none }))
reschedule-Keeps Q k h = scheduler-Keeps Q (record k { curr_process = none }) h

module _ (k : Kernel) (p : ℕ) (running : k.curr_process ≡ some p) (h : IsConsistent k) where
  pub yield_cpu-Keeps : Keeps (λ _ k'. IsConsistent k') (yield_cpu k)
  unfolding yield_cpu
  yield_cpu-Keeps = deref-Outcome _ _ k.curr_process p k _ running (
      then_Keeps (Stays none [] skipped) (λ _ k'. IsConsistent k') (set_process_ready p skipped) _
        (Keeps-of_Returns (Stays none [] skipped) (set_process_ready p skipped) (
          set_process_ready-Stays p skipped (saved-IsSettled k p running h k.prev_state)
            (h.1 p running)))
        (λ _ k2 ready.
          then_Keeps (Stays none [] k2) (λ _ k'. IsConsistent k') (update_process_cpu_time k2) _
            (update_process_cpu_time-Keeps none [] k2 p (ready.1 ∙ running) ready.0)
            (λ _ k3 stays. reschedule-Keeps _ k3 stays.0)))
    where
      skipped : Kernel
      skipped = record (saved k p running h k.prev_state) { process_to_skip = some p }

  module _ (pf : Platform) where
    pub do_io-Keeps :
        get_io_device_semaphore pf k.prev_state.reg_a1 ≢ null
        → Keeps (λ _ k'. IsConsistent k') (do_io pf k)
    unfolding do_io
    do_io-Keeps real =
        call_p-Keeps (block_soft (write_word k.prev_state.reg_a1 k.prev_state.reg_a2 k)) p running h
          (get_io_device_semaphore pf k.prev_state.reg_a1) real

    pub clock_wait-Keeps :
        pf.semaphore_it ≢ null → Keeps (λ _ k'. IsConsistent k') (clock_wait pf k)
    unfolding clock_wait
    clock_wait-Keeps real = call_p-Keeps (block_soft k) p running h pf.semaphore_it real

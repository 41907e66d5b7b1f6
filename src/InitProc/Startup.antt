-- ===== src/InitProc/Startup.antt =====
-- In which order `test` of phase3/initProc.c starts its processes and waits for them.
use pandos_plus.Base.{
  sym, list_cases, ℕ, zero, suc, ◌+◌, ◌≡◌, ◌≤◌, false, ◌==◌, ◌||◌, List, [], ◌∷◌, length, arith,
  refl, ap, ◌∙◌, some, inl, inr, ◌%◌, ◌*◌,
}
use pandos_plus.Machine.{word_mod}
use pandos_plus.Platform.{Platform}
use pandos_plus.Swap.{Layout}
use pandos_plus.World.{
  Shared, World, Environment, Syscall, master, create_process, passeren, term_process, do_io, done,
  exit, terminated, Act, and_then, called, world_after,
}
use pandos_plus.InitProc.{
  get_stack_frame, allocate, init_contexts, init_free_support_stack, free_supports, deallocate,
}
use pandos_plus.InitProc.Start.{
  Loader, init_support_structure, start_with, start_process, start_loop, wait_loop, test, init_swap,
  set_sem,
}
use pandos_plus.SysSupport.{device_of, init_sys_structs}
use pandos_plus.Pager.{
  flash_read_error, flash_write_error, flash_read, flash_operation, load_page_table,
}

-- the processes that a log creates, and the semaphores that it waits for
abbrev pub creates : List Syscall → ℕ
creates [] = 0
creates (create_process state prio support ∷ log) = suc (creates log)
creates (call ∷ log) = creates log

abbrev pub waits : List Syscall → ℕ
waits [] = 0
waits (passeren sem ∷ log) = suc (waits log)
waits (call ∷ log) = waits log

-- a log with `n` waits for the master semaphore after it
abbrev pub waited : ℕ → List Syscall → List Syscall
waited zero log = log
waited (suc n) log = waited n (passeren master ∷ log)

-- The others give support structures back and take none, and the flash devices report no error.
pub record Boots (env : Environment) : Type 0 where
  pub gives : (n : ℕ) (s : Shared) → length s.free_support ≤ length (env.others n s).free_support
  pub reads :
      (n address command : ℕ)
      → (env.answer n (do_io address command) == flash_write_error
          || env.answer n (do_io address command) == flash_read_error)
        ≡ false

le_trans : {a b c : ℕ} → a ≤ b → b ≤ c → a ≤ c
le_trans first second = omega arith

module _ (env : Environment) (pf : Platform) (y : Layout) (l : Loader) (boots : Boots env) where
  -- A step is done, with `free` structures left at least, and these system calls so far.
  abbrev Steps : ℕ → ℕ → ℕ → Act (Unit {0}) → Type 0
  Steps free created waited r =
      (w' : World) × (r ≡ done tt w')
      × (free ≤ length w'.shared.free_support)
      × (creates w'.log ≡ created)
      × (waits w'.log ≡ waited)

  start_with-Steps :
      (asid support free : ℕ) (w : World) (enough : free ≤ length w.shared.free_support)
      → Steps free (suc (creates w.log)) (waits w.log) (start_with env pf y l asid (some support) w)
  unfolding start_with init_support_structure load_page_table flash_operation init_contexts
      get_stack_frame
  start_with-Steps asid support free w enough =
      let ok =
        boots.reads w.calls (pf.dev_reg_addr 4 (device_of asid) + 0x4)
          ((0 * 256 + flash_read) % word_mod) in
      (
        world_after (start_with env pf y l asid (some support) w),
        rw ok refl,
        rw ok (le_trans enough (le_trans (boots.gives _ _) (boots.gives _ _))),
        rw ok refl,
        rw ok refl,
      )

  recount :
      {free c v : ℕ} {r : Act (Unit {0})} (c' v' : ℕ)
      → c ≡ c'
      → v ≡ v'
      → Steps free c v r
      → Steps free c' v' r
  recount c' v' cs vs (w', e, left, created, waited) = (w', e, left, created ∙ cs, waited ∙ vs)

  then_Steps :
      (free c v free' c' v' : ℕ) (r : Act (Unit {0})) (f : World → Act (Unit {0}))
      → Steps free c v r
      → ((w' : World)
          → free ≤ length w'.shared.free_support
          → creates w'.log ≡ c
          → waits w'.log ≡ v
          → Steps free' c' v' (f w'))
      → Steps free' c' v' (and_then r (λ _. f))
  then_Steps free c v free' c' v' r f (w', e, left, created, waited) go =
      rw e (go w' left created waited)

  start_process-Steps :
      (asid free : ℕ) (w : World) (enough : suc free ≤ length w.shared.free_support)
      → Steps free (suc (creates w.log)) (waits w.log) (start_process env pf y l asid w)
  unfolding start_process allocate
  start_process-Steps asid free w enough = elim (list_cases w.shared.free_support) [
    | inl empty ↦
        let count : length w.shared.free_support ≡ 0 = ap length empty in absurd (omega arith)
    | inr (support, rest, e) ↦
        let count : length w.shared.free_support ≡ suc (length rest) = ap length e in
        rw e (
          start_with-Steps asid support free
            (record w { shared = record (w.shared) { free_support = rest } }) (omega arith))
  ]

  start_loop-Steps :
      (n free : ℕ) (w : World) (enough : n + free ≤ length w.shared.free_support)
      → Steps free (n + creates w.log) (waits w.log) (start_loop env pf y l n w)
  unfolding start_loop
  start_loop-Steps zero free w enough = (w, refl, omega arith, omega arith, refl)
  start_loop-Steps (suc i) free w enough =
      then_Steps (suc free) (i + creates w.log) (waits w.log) free (suc i + creates w.log)
        (waits w.log) (start_loop env pf y l i w) _ (start_loop-Steps i (suc free) w (omega arith))
        (λ w1 left created waited.
          recount (suc i + creates w.log) (waits w.log) (omega arith) waited
            (start_process-Steps (i + 1) free w1 left))

  wait_loop-Steps :
      (n free : ℕ) (w : World) (enough : free ≤ length w.shared.free_support)
      → Steps free (creates w.log) (n + waits w.log) (wait_loop env pf y l n w)
  unfolding wait_loop
  wait_loop-Steps zero free w enough = (w, refl, enough, refl, omega arith)
  wait_loop-Steps (suc rounds) free w enough =
      let w1 = called env (passeren master) w in
      recount (creates w.log) (suc rounds + waits w.log) refl (omega arith)
        (wait_loop-Steps rounds free w1 (le_trans enough (boots.gives w.calls w.shared)))

  wait_loop-log :
      (n : ℕ) (w : World) → (world_after (wait_loop env pf y l n w)).log ≡ waited n w.log
  unfolding wait_loop
  wait_loop-log zero w = refl
  wait_loop-log (suc n) w = wait_loop-log n (called env (passeren master) w)

  -- Where each system call returns, the others take no support structure meanwhile and the flash
  -- devices report no error, `test` creates eight processes before it first waits, never takes a
  -- support structure from an empty list, then waits on the master semaphore exactly eight times,
  -- and only then terminates.
  pub test-Waits :
      (w : World)
      → (started : List Syscall) × (w' : World) × (test env pf y l w ≡ exit terminated w')
        × (w'.log ≡ term_process 0 ∷ waited 8 started)
        × (creates started ≡ 8 + creates w.log)
        × (waits started ≡ waits w.log)
  unfolding test init_free_support_stack free_supports deallocate
  test-Waits w =
      let ready =
        init_free_support_stack (init_sys_structs (init_swap (set_sem master 0 w.shared))) in
      let (w1, e1, left, created, waits1) =
        start_loop-Steps 8 0 (record w { shared = ready }) (omega arith) in
      let (w2, e2, _, _, _) = wait_loop-Steps 8 0 w1 left in
      let log2 : w2.log ≡ waited 8 w1.log =
        sym (ap (λ r. (world_after r).log) e2) ∙ wait_loop-log 8 w1 in
      (
        w1.log,
        record w2 { log = term_process 0 ∷ w2.log },
        rw (e1, e2) refl,
        ap (λ log. term_process 0 ∷ log) log2,
        created,
        waits1,
      )

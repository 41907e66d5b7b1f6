-- ===== src/SysSupport/Clean.antt =====
-- `trapExceptionHandler` of phase3/sysSupport.c: what a process that is ended holds on to.
use pandos_plus.Base.{ℕ, ◌<◌, ◌≡◌, ◌≢◌, arith, refl, ◌∷◌, sym}
use pandos_plus.Swap.{no_proc, pool_size, free_frames}
use pandos_plus.Swap.Frames.{free_frames_lem}
use pandos_plus.World.{
  Shared, World, Environment, printer, terminal, swap_pool, master, exit, and_then, terminated, Act,
  called, set_user, user_v, user_p, passeren, verhogen, get_support_ptr, term_process,
}
use pandos_plus.InitProc.{deallocate, signal_process_termination}
use pandos_plus.SysSupport.{
  asid_of, release_swap_pool_sem, release_frames, terminate, trap_exception_handler,
}
use pandos_plus.SysSupport.Release.{
  IsFree, BothFree, IsFreeFrame, Respects, Ends, FreesDevices, release_if_held-Frees,
  release_devices-FreesDevices,
}

-- Of the first 8 printers and terminals, the swap pool table and its frames, none is of `asid`.
pub record IsClean (asid : ℕ) (s : Shared) : Type 0 where
  pub devices : (i : ℕ) → i < 8 → BothFree asid s i
  pub table : IsFree asid s swap_pool
  pub frames : (j : ℕ) → j < pool_size → IsFreeFrame asid s j

-- A process that is terminated, with nothing left of `asid`.
abbrev pub Leaves {ℓ} : {A : Type ℓ} → ℕ → Act A → Type ℓ
Leaves asid r = (w' : World) × (r ≡ exit terminated w') × IsClean asid w'.shared

module _ (env : Environment) (support asid : ℕ) (respects : Respects env support asid)
    (here : asid ≢ no_proc) where
  others-IsClean : (n : ℕ) (s : Shared) → IsClean asid s → IsClean asid (env.others n s)
  others-IsClean n s clean = record {
    devices = λ i small. (
      respects.sems n s (printer i) (clean.devices i small).0,
      respects.sems n s (terminal i) (clean.devices i small).1,
    );
    table = respects.sems n s swap_pool clean.table;
    frames = λ j small. respects.frames n s j (clean.frames j small);
  }

  free_frames-IsFreeFrame :
      (s : Shared) (j : ℕ) (small : j < pool_size)
      → IsFreeFrame asid (record s { pool = free_frames asid s.pool }) j
  free_frames-IsFreeFrame s j small = rw (free_frames_lem s.pool asid j) (ground arith)

  -- `freeFrames` inside P and V of the swap pool's semaphore
  release_frames-IsClean :
      (w : World)
      → ((i : ℕ) → i < 8 → BothFree asid w.shared i)
      → Ends (IsClean asid) (release_frames env asid w)
  unfolding release_frames user_p user_v
  release_frames-IsClean w free =
      let entered = called env (passeren swap_pool) w in
      let locked = set_user swap_pool asid entered.shared in
      let emptied = record locked { pool = free_frames asid locked.pool } in
      let left = set_user swap_pool no_proc emptied in
      (
        called env (verhogen swap_pool) (record entered { shared = left }),
        refl,
        others-IsClean entered.calls left (record {
          devices = λ i small. (
            respects.sems w.calls w.shared (printer i) (free i small).0,
            respects.sems w.calls w.shared (terminal i) (free i small).1,
          );
          table = λ e. here (sym e);
          frames = free_frames-IsFreeFrame locked;
        }),
      )

  signal-IsClean :
      (w : World) → IsClean asid w.shared → Ends (IsClean asid) (signal_process_termination env w)
  unfolding signal_process_termination deallocate
  signal-IsClean w clean =
      let first = called env get_support_ptr w in
      let kept = others-IsClean w.calls w.shared clean in
      let given = record first { shared = deallocate env.support_ptr first.shared } in
      (
        called env (verhogen master) given,
        refl,
        others-IsClean first.calls given.shared
            (record { devices = kept.devices; table = kept.table; frames = kept.frames }),
      )

  pub terminate-Leaves :
      (w : World) (known : asid_of support w.shared ≡ asid)
      → ((i : ℕ) → i < 8 → BothFree asid w.shared i)
      → Leaves asid (terminate env {A = Unit {0}} support w)
  unfolding terminate
  terminate-Leaves w known free =
      let (w1, e1, clean1) = release_frames-IsClean w free in
      let (w2, e2, clean2) = signal-IsClean w1 clean1 in
      rw (known, e1, e2) (record w2 { log = term_process 0 ∷ w2.log }, refl, clean2)

module _ (env : Environment) (asid : ℕ) (respects : Respects env env.support_ptr asid)
    (here : asid ≢ no_proc) where
  -- `releaseSwapPoolSem` and `_terminate`, after the loop over the devices
  rest-Leaves :
      (w : World)
      → FreesDevices env env.support_ptr asid respects here 8 w.shared
      → Leaves {A = Unit {0}} asid
          (and_then (release_swap_pool_sem env w) (λ _. terminate env env.support_ptr))
  unfolding release_swap_pool_sem
  rest-Leaves w (known, free) =
      let c = called env get_support_ptr w in
      let (w1, e1, (known1, _, keeps)) =
        release_if_held-Frees env env.support_ptr asid respects here swap_pool c
          (respects.names w.calls w.shared known) in
      rw e1 (
        terminate-Leaves env env.support_ptr asid respects here w1 known1 (λ i small. (
          keeps (printer i) (respects.sems w.calls w.shared (printer i) (free i small).0),
          keeps (terminal i) (respects.sems w.calls w.shared (terminal i) (free i small).1),
        )))

  -- `trapExceptionHandler` ends the process that runs it, and then no printer, no terminal, not the
  -- swap pool's semaphore and no frame of the swap pool is held by its address space, if
  -- that is not `NOPROC` and the other processes hand it none of these meanwhile and keep its name.
  pub trap_exception_handler-IsClean :
      (w : World) (known : asid_of env.support_ptr w.shared ≡ asid)
      → Leaves asid (trap_exception_handler env {A = Unit {0}} w)
  unfolding trap_exception_handler
  trap_exception_handler-IsClean w known =
      let c = called env get_support_ptr w in
      let (w1, e1, free) =
        release_devices-FreesDevices env env.support_ptr asid respects here 8 c
          (respects.names w.calls w.shared known) in
      rw e1 (rest-Leaves w1 free)

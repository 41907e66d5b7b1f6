-- ===== src/Pager/Outcome.antt =====
-- How the page fault handler of phase3/vmSupport.c ends, and who holds the swap pool then.
use pandos_plus.Base.{
  ℕ, ◌+◌, ◌*◌, ◌%◌, ◌≡◌, ◌≢◌, ◌⊎◌, Bool, true, false, ◌==◌, ◌||◌, if◌then◌else◌, Bool-cases, refl,
  inl, inr, sym, update,
}
use Prim.Native.Nat.{bit_and}
use pandos_plus.Machine.{State, word_mod}
use pandos_plus.Platform.{Platform}
use pandos_plus.Swap.{
  frame_address, map_page, set_entry, valid_off, Layout, no_proc, get_frame, is_free_frame,
  get_page_index, get_vpn,
}
use pandos_plus.World.{
  Shared, World, Environment, Prog, pure, swap_pool, done, exit, ldst, panic, Act, and_then, called,
  set_user, passeren, verhogen, do_io, get_support_ptr, user_p, user_v,
}
use pandos_plus.SysSupport.{device_of, asid_of, trap_exception_handler}
use pandos_plus.SysSupport.Release.{IsFree, Respects}
use pandos_plus.SysSupport.Clean.{Leaves, trap_exception_handler-IsClean}
use pandos_plus.Pager.{
  flash_read_error, flash_write_error, flash_read, flash_write, tlb_mod, tlb_invld_l, tlb_invld_s,
  in_pool, page_fault_state, flash_operation, store_frame, load_frame, tlb_invalid_handler,
  tlb_exception_handler,
}

-- The process resumes, and does not hold the swap pool.
abbrev pub Resumes : ℕ → Act (Unit {0}) → Type 0
Resumes asid r =
    (state : State) × (w' : World) × (r ≡ exit (ldst state) w') × IsFree asid w'.shared swap_pool

module _ (env : Environment) (asid : ℕ) (respects : Respects env env.support_ptr asid)
    (here : asid ≢ no_proc) where
  abbrev Known : Shared → Type 0
  Known s = asid_of env.support_ptr s ≡ asid

  -- A step goes on, or the process has left with nothing held.
  abbrev Continues : Act (Unit {0}) → Type 0
  Continues r = ((w' : World) × (r ≡ done tt w') × Known w'.shared) ⊎ Leaves asid r

  then_Continues :
      (r : Act (Unit {0})) (f : World → Act (Unit {0}))
      → Continues r
      → ((w' : World) → Known w'.shared → Continues (f w'))
      → Continues (and_then r (λ _. f))
  then_Continues r f (inl (w', e, known)) go = rw e (go w' known)
  then_Continues r f (inr (w', e, clean)) go = rw e (inr (w', refl, clean))

  either_Continues :
      (b : Bool) (m n : Prog (Unit {0})) (w : World)
      → Continues (m w)
      → Continues (n w)
      → Continues ((if b then m else n) w)
  either_Continues true m n w first second = first
  either_Continues false m n w first second = second

  abbrev Outcome : Act (Unit {0}) → Type 0
  Outcome r = Resumes asid r ⊎ Leaves asid r

  then_Outcome :
      (r : Act (Unit {0})) (f : World → Act (Unit {0}))
      → Continues r
      → ((w' : World) → Known w'.shared → Outcome (f w'))
      → Outcome (and_then r (λ _. f))
  then_Outcome r f (inl (w', e, known)) go = rw e (go w' known)
  then_Outcome r f (inr (w', e, clean)) go = rw e (inr (w', refl, clean))

  module _ (pf : Platform) (y : Layout) where
    flash_operation-Continues :
        (command owner page frame : ℕ) (w : World) (known : Known w.shared)
        → Continues (flash_operation env pf y command owner page frame w)
    unfolding flash_operation
    flash_operation-Continues command owner page frame w known =
        let flash_dev_reg = pf.dev_reg_addr 4 (device_of owner) in
        let call = do_io (flash_dev_reg + 0x4) ((page * 256 + command) % word_mod) in
        let status = env.answer w.calls call in
        let loaded = record (w.shared) {
          data0 = update w.shared.data0 (flash_dev_reg + 0x8) frame;
        } in
        let w1 = called env call (record w { shared = loaded }) in
        let known1 = respects.names w.calls loaded known in
        either_Continues (status == flash_write_error || status == flash_read_error)
          (trap_exception_handler env) (pure tt) w1
          (inr (trap_exception_handler-IsClean env asid respects here w1 known1))
          (inl (w1, refl, known1))

    store_frame-Continues :
        (i : ℕ) (w : World) (known : Known w.shared) → Continues (store_frame env pf y i w)
    unfolding store_frame
    store_frame-Continues i w known =
        let pte = (w.shared.pool.swap_pool_table i).sw_pte in
        let s1 =
          in_pool (set_entry y pte (bit_and (w.shared.pool.ptes pte).pte_entry_lo valid_off))
            w.shared in
        let frame = s1.pool.swap_pool_table i in
        flash_operation-Continues flash_write frame.sw_asid frame.sw_page_no (frame_address y i)
          (record w { shared = s1 }) known

    load_frame-Continues :
        (pte i : ℕ) (w : World) (known : Known w.shared) → Continues (load_frame env pf y pte i w)
    unfolding load_frame
    load_frame-Continues pte i w known =
        let hi = (w.shared.pool.ptes pte).pte_entry_hi in
        then_Continues
          (flash_operation env pf y flash_read (y.entry_hi_asid hi) (get_page_index (get_vpn y hi))
            (frame_address y i) w)
          _
          (flash_operation-Continues flash_read (y.entry_hi_asid hi) (get_page_index (get_vpn y hi))
            (frame_address y i) w known)
          (λ w1 known1.
            inl (record w1 { shared = in_pool (map_page y pte i) w1.shared }, refl, known1))

    -- the V and what follows it
    resume :
        (w : World) (known : Known w.shared)
        → Resumes asid (
            and_then
              (user_v env swap_pool w)
              (λ _ w1. exit (ldst (page_fault_state env.support_ptr w1.shared)) w1))
    unfolding user_v
    resume w known =
        let left = set_user swap_pool no_proc w.shared in
        let w1 = called env (verhogen swap_pool) (record w { shared = left }) in
        (
          page_fault_state env.support_ptr w1.shared,
          w1,
          refl,
          respects.sems w.calls left swap_pool (λ e. here (sym e)),
        )

    -- A page fault ends in one of two ways. The process resumes and does not hold the semaphore of the
    -- swap pool, or a request has failed and the process is terminated.
    pub tlb_invalid_handler-Outcome :
        (w : World) (known : Known w.shared)
        → Outcome (tlb_invalid_handler env pf y env.support_ptr w)
    unfolding tlb_invalid_handler user_p
    tlb_invalid_handler-Outcome w known =
        let own = asid_of env.support_ptr w.shared in
        let entered = called env (passeren swap_pool) w in
        let locked = set_user swap_pool own entered.shared in
        let i = (get_frame locked.pool).0 in
        let chosen = in_pool (λ s. (get_frame s).1) locked in
        let w1 = record entered { shared = chosen } in
        let known1 = respects.names w.calls w.shared known in
        let pte =
          (chosen.supports env.support_ptr).sup_private_pg_tbl
          + get_page_index (get_vpn y (page_fault_state env.support_ptr chosen).entry_hi) in
        then_Outcome ((if is_free_frame chosen.pool i then pure tt else store_frame env pf y i) w1)
          _
          (either_Continues (is_free_frame chosen.pool i) (pure tt) (store_frame env pf y i) w1
            (inl (w1, refl, known1)) (store_frame-Continues i w1 known1))
          (λ w2 known2.
            then_Outcome (load_frame env pf y pte i w2) _ (load_frame-Continues pte i w2 known2)
              (λ w3 known3. inl (resume w3 known3)))

    -- The handler of TLB exceptions ends in one of three ways: the process resumes and does not hold
    -- the semaphore of the swap pool, it is terminated and holds nothing, or the kernel
    -- panics. The others hand it no semaphore and no frame meanwhile and keep its name, and its
    -- address space is not `NOPROC`.
    pub tlb_exception_handler-Outcome :
        (w : World) (known : Known w.shared)
        → Outcome (tlb_exception_handler env pf y w)
          ⊎ (tlb_exception_handler env pf y w ≡ exit panic (called env get_support_ptr w))
    unfolding tlb_exception_handler
    tlb_exception_handler-Outcome w known =
        let w1 = called env get_support_ptr w in
        let known1 = respects.names w.calls w.shared known in
        let code = pf.exc_code (page_fault_state env.support_ptr w1.shared).cause in
        elim (Bool-cases (code == tlb_mod)) [
          | inl modified ↦
              rw modified
                (inl (inr (trap_exception_handler-IsClean env asid respects here w1 known1)))
          | inr other ↦ elim (Bool-cases (code == tlb_invld_l || code == tlb_invld_s)) [
            | inl invalid ↦ rw (other, invalid) (inl (tlb_invalid_handler-Outcome w1 known1))
            | inr neither ↦ rw (other, neither) (inr refl)
          ]
        ]

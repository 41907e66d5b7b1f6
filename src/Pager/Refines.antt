-- ===== src/Pager/Refines.antt =====
-- The handler of an invalid page as a process runs it does to the swap pool what `swap_in` does, since
-- the others keep off the pool while the process holds its semaphore.
use pandos_plus.Base.{
  ℕ, ◌+◌, ◌*◌, ◌%◌, ◌≡◌, true, false, ◌==◌, ◌||◌, if◌then◌else◌, Bool-cases, refl, inl, inr, ap,
  ◌∙◌, sym, update,
}
use pandos_plus.Machine.{State, word_mod}
use pandos_plus.Platform.{Platform}
use pandos_plus.Swap.{
  Event, Layout, Pool, frame_address, get_frame, get_page_index, get_vpn, is_free_frame, map_page,
  no_proc, swap_in,
}
use pandos_plus.Swap.Requests.{no_log, swap_in_free, swap_in_taken, unmap_page}
use pandos_plus.World.{
  Shared, World, Environment, swap_pool, done, exit, ldst, Act, and_then, called, set_user, do_io,
  passeren, verhogen, user_p, user_v, pure,
}
use pandos_plus.SysSupport.{device_of, asid_of}
use pandos_plus.Pager.{
  flash_operation, flash_read, flash_write, flash_read_error, flash_write_error, in_pool,
  load_frame, page_fault_state, store_frame, tlb_invalid_handler,
}

-- While the process holds the semaphore of the swap pool, the others leave it and the pool alone.
pub record Excludes (env : Environment) (asid : ℕ) : Type 0 where
  pub holds :
      (n : ℕ) (s : Shared)
      → s.user_asid swap_pool ≡ asid
      → (env.others n s).user_asid swap_pool ≡ asid
  pub pools : (n : ℕ) (s : Shared) → s.user_asid swap_pool ≡ asid → (env.others n s).pool ≡ s.pool

-- The flash devices report no error.
abbrev pub Succeeds : Environment → Type 0
Succeeds env =
    (n address command : ℕ)
    → (env.answer n (do_io address command) == flash_write_error
        || env.answer n (do_io address command) == flash_read_error)
      ≡ false

regroup :
    (r : Act (Unit {0})) (f g : World → Act (Unit {0}))
    → and_then r (λ _ w. and_then (f w) (λ _. g)) ≡ and_then (and_then r (λ _. f)) (λ _. g)
regroup (done a w) f g = refl
regroup (exit e w) f g = refl

module _ (env : Environment) (pf : Platform) (y : Layout) (asid : ℕ) (excludes : Excludes env asid)
    (succeeds : Succeeds env) where
  -- A step ends with this pool, still held.
  abbrev Gives : Pool → Act (Unit {0}) → Type 0
  Gives pool r =
      (w' : World) × (r ≡ done tt w')
      × (w'.shared.pool ≡ pool)
      × (w'.shared.user_asid swap_pool ≡ asid)

  flash_operation-Gives :
      (command owner page frame : ℕ) (w : World)
      → w.shared.user_asid swap_pool ≡ asid
      → Gives w.shared.pool (flash_operation env pf y command owner page frame w)
  unfolding flash_operation
  flash_operation-Gives command owner page frame w held =
      let flash_dev_reg = pf.dev_reg_addr 4 (device_of owner) in
      let call = do_io (flash_dev_reg + 0x4) ((page * 256 + command) % word_mod) in
      let loaded = record (w.shared) {
        data0 = update w.shared.data0 (flash_dev_reg + 0x8) frame;
      } in
      rw (succeeds w.calls (flash_dev_reg + 0x4) ((page * 256 + command) % word_mod)) (
        called env call (record w { shared = loaded }),
        refl,
        excludes.pools w.calls loaded held,
        excludes.holds w.calls loaded held,
      )

  store_frame-Gives :
      (i : ℕ) (w : World)
      → w.shared.user_asid swap_pool ≡ asid
      → Gives (unmap_page y i w.shared.pool) (store_frame env pf y i w)
  unfolding store_frame
  store_frame-Gives i w held =
      let s1 = in_pool (unmap_page y i) w.shared in
      let frame = s1.pool.swap_pool_table i in
      flash_operation-Gives flash_write frame.sw_asid frame.sw_page_no (frame_address y i)
        (record w { shared = s1 }) held

  load_frame-Gives :
      (pte i : ℕ) (w : World)
      → w.shared.user_asid swap_pool ≡ asid
      → Gives (map_page y pte i w.shared.pool) (load_frame env pf y pte i w)
  unfolding load_frame
  load_frame-Gives pte i w held =
      let hi = (w.shared.pool.ptes pte).pte_entry_hi in
      let (w1, e, same, held1) =
        flash_operation-Gives flash_read (y.entry_hi_asid hi) (get_page_index (get_vpn y hi))
          (frame_address y i) w held in
      rw e (
        record w1 { shared = in_pool (map_page y pte i) w1.shared },
        refl,
        ap (map_page y pte i) same,
        held1,
      )

  then_Gives :
      (p q : Pool) (r : Act (Unit {0})) (f : World → Act (Unit {0}))
      → Gives p r
      → ((w' : World) → w'.shared.pool ≡ p → w'.shared.user_asid swap_pool ≡ asid → Gives q (f w'))
      → Gives q (and_then r (λ _. f))
  then_Gives p q r f (w', e, same, held) go = rw e (go w' same held)

  -- the choice of the frame has been made: the page in it is stored, and the missing one loaded
  turn-Gives :
      (pte i : ℕ) (w : World)
      → w.shared.user_asid swap_pool ≡ asid
      → Gives
          (map_page y pte i
            (if is_free_frame w.shared.pool i then w.shared.pool else unmap_page y i w.shared.pool))
          (and_then
            ((if is_free_frame w.shared.pool i then pure tt else store_frame env pf y i) w)
            (λ _. load_frame env pf y pte i))
  turn-Gives pte i w held = elim (Bool-cases (is_free_frame w.shared.pool i)) [
    | inl free ↦ rw free (load_frame-Gives pte i w held)
    | inr taken ↦ rw taken (
        then_Gives (unmap_page y i w.shared.pool) (map_page y pte i (unmap_page y i w.shared.pool))
          _ _ (store_frame-Gives i w held)
          (λ w1 same held1.
            let (w2, e, mapped, held2) = load_frame-Gives pte i w1 held1 in
            (w2, e, mapped ∙ ap (map_page y pte i) same, held2)))
  ]

  module _ (succeed : (e : Event) → y.completes e ≡ true) (support : ℕ) (w : World)
      (known : asid_of support w.shared ≡ asid) where
    -- what the processes share when the P is over
    abbrev pub entered : Shared
    entered = (called env (passeren swap_pool) w).shared

    -- the entry of the missing page
    abbrev pub missing : ℕ
    missing =
        (entered.supports support).sup_private_pg_tbl
        + get_page_index (get_vpn y (page_fault_state support entered).entry_hi)

    abbrev chosen : Pool
    chosen = (get_frame entered.pool).1

    swap_in-turns :
        no_log (
          map_page y missing (get_frame entered.pool).0 (
            if is_free_frame chosen (get_frame entered.pool).0
            then chosen
            else unmap_page y (get_frame entered.pool).0 chosen))
        ≡ no_log (swap_in y missing entered.pool).1
    swap_in-turns = elim (Bool-cases (is_free_frame chosen (get_frame entered.pool).0)) [
      | inl free ↦ rw free (sym (swap_in_free y succeed missing entered.pool free))
      | inr taken ↦ rw taken (sym (swap_in_taken y succeed missing entered.pool taken))
    ]

    -- what follows the loading of the page
    abbrev rest : World → Act (Unit {0})
    rest w' =
        and_then (user_v env swap_pool w')
          (λ _ w'. exit (ldst (page_fault_state support w'.shared)) w')

    -- If the requests to the flash devices succeed and the others leave the swap pool alone while the
    -- process holds its semaphore, `_TLBInvalidHandler` resumes the process, and at the V the pool is,
    -- but for the log of the requests, the one that `swap_in` makes of the pool found after the P.
    pub tlb_invalid_handler-swap_in :
        (state : State) × (left : World) × (tlb_invalid_handler env pf y support w
          ≡ exit (ldst state) (called env (verhogen swap_pool) left))
        × (no_log left.shared.pool ≡ no_log (swap_in y missing entered.pool).1)
    unfolding tlb_invalid_handler user_p user_v
    tlb_invalid_handler-swap_in =
        let locked = set_user swap_pool (asid_of support w.shared) entered in
        let w1 = record (called env (passeren swap_pool) w) {
          shared = in_pool (λ s. (get_frame s).1) locked;
        } in
        let (w2, e, same, held) = turn-Gives missing (get_frame entered.pool).0 w1 known in
        let left = record w2 { shared = set_user swap_pool no_proc w2.shared } in
        (
          page_fault_state support (called env (verhogen swap_pool) left).shared,
          left,
          regroup
                ((if is_free_frame chosen (get_frame entered.pool).0
                    then pure tt
                    else store_frame env pf y (get_frame entered.pool).0)
                  w1)
                (load_frame env pf y missing (get_frame entered.pool).0) rest
              ∙ ap (λ (r : Act (Unit {0})). and_then r (λ _. rest)) e,
          ap no_log same ∙ swap_in-turns,
        )

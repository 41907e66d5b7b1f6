-- ===== src/Swap/Owners.antt =====
-- The frames of the swap pool hold different pages, and what `_TLBInvalidHandler` of
-- phase3/vmSupport.c does to the table.
use pandos_plus.Base.{
  Bool, ℕ, ◌<◌, ◌≡◌, ◌≢◌, inl, inr, true, false, ◌==◌, if◌then◌else◌, arith, refl, Bool-cases, ◌∙◌,
  ap, subst,
}
use pandos_plus.Swap.{
  Pool, SwapEntry, Layout, pool_size, is_free_frame, get_frame, store_page, load_page, map_page,
  set_entry, swap_in, free_frames, init_swap_structs,
}
use pandos_plus.Swap.Frames.{get_frame-lt, free_frames_lem, free_frames-index, clear_loop_lem}

abbrev pub pte_of : Pool → ℕ → ℕ
pte_of s i = (s.swap_pool_table i).sw_pte

-- The next frame is one of the pool, and no page is in two frames.
pub record IsValid (s : Pool) : Type 0 where
  pub start : s.to_swap_frame_index < pool_size
  pub once :
      (i j : ℕ)
      → i < pool_size
      → j < pool_size
      → is_free_frame s i ≡ false
      → is_free_frame s j ≡ false
      → pte_of s i ≡ pte_of s j
      → i ≡ j

-- The page is in no frame.
abbrev pub IsMissing : ℕ → Pool → Type 0
IsMissing pte s = (i : ℕ) → i < pool_size → is_free_frame s i ≡ false → pte_of s i ≢ pte

module _ (y : Layout) (pte : ℕ) where
  -- The entries of the table after the handler: those before, but that of the chosen frame if every
  -- request has completed.
  abbrev Turns : (ℕ → SwapEntry) → ℕ → Bool × Pool → Type 0
  Turns before i (done, s') =
      (e : SwapEntry) × (e.sw_pte ≡ pte)
      × ((j : ℕ)
          → s'.swap_pool_table j ≡ (if done then if i == j then e else before j else before j))

  load_page-Turns : (s : Pool) (i : ℕ) → Turns s.swap_pool_table i (load_page y pte i s)
  unfolding load_page map_page set_entry
  load_page-Turns s i = elim (Bool-cases (load_page y pte i s).0) [
    | inl done ↦ ((load_page y pte i s).1.swap_pool_table i, ground arith, λ j. ground arith)
    | inr failed ↦ (record { sw_asid = 0; sw_page_no = 0; sw_pte = pte }, refl, λ j. ground arith)
  ]

  load_page-index :
      (s : Pool) (i : ℕ) → (load_page y pte i s).1.to_swap_frame_index ≡ s.to_swap_frame_index
  unfolding load_page map_page set_entry
  load_page-index s i = ground arith

  store_page-table :
      (s : Pool) (i : ℕ)
      → ((store_page y i s).1.swap_pool_table ≡ s.swap_pool_table)
        × ((store_page y i s).1.to_swap_frame_index ≡ s.to_swap_frame_index)
  unfolding store_page set_entry
  store_page-table s i = (refl, refl)

  pub get_frame-table : (s : Pool) → (get_frame s).1.swap_pool_table ≡ s.swap_pool_table
  unfolding get_frame
  get_frame-table s = refl

  -- the pool from which the page is read, if no request has failed before
  unfoldable pub with_frame : Pool → Bool × Pool
  with_frame s =
      if is_free_frame (get_frame s).1 (get_frame s).0
      then (true, (get_frame s).1)
      else store_page y (get_frame s).0 (get_frame s).1

  with_frame-table :
      (s : Pool)
      → ((with_frame s).1.swap_pool_table ≡ s.swap_pool_table)
        × ((with_frame s).1.to_swap_frame_index ≡ (get_frame s).1.to_swap_frame_index)
  unfolding with_frame
  with_frame-table s = elim (Bool-cases (is_free_frame (get_frame s).1 (get_frame s).0)) [
    | inl free ↦ rw free (get_frame-table s, refl)
    | inr taken ↦ rw taken (
      (store_page-table (get_frame s).1 (get_frame s).0).0 ∙ get_frame-table s,
      (store_page-table (get_frame s).1 (get_frame s).0).1,
    )
  ]

  swap_in-Turns :
      (s : Pool)
      → Turns s.swap_pool_table (get_frame s).0 (swap_in y pte s)
        × ((swap_in y pte s).1.to_swap_frame_index ≡ (get_frame s).1.to_swap_frame_index)
  unfolding swap_in with_frame
  swap_in-Turns s = elim (Bool-cases (with_frame s).0) [
    | inl done ↦ rw done (
      subst
          (λ before.
            Turns before (get_frame s).0 (load_page y pte (get_frame s).0 (with_frame s).1))
          (with_frame-table s).0 (load_page-Turns (with_frame s).1 (get_frame s).0),
      load_page-index (with_frame s).1 (get_frame s).0 ∙ (with_frame-table s).1,
    )
    | inr failed ↦ rw failed (
      (
        record { sw_asid = 0; sw_page_no = 0; sw_pte = pte },
        refl,
        λ j. ap (λ (t : ℕ → SwapEntry). t j) (with_frame-table s).0,
      ),
      (with_frame-table s).1,
    )
  ]

  -- The handler of an invalid page that is in no frame keeps the frames' pages different, also where
  -- a request to a flash device fails.
  pub swap_in-IsValid : (s : Pool) → IsValid s → IsMissing pte s → IsValid (swap_in y pte s).1
  swap_in-IsValid s v missing =
      let ((e, own, table), next) = swap_in-Turns s in
      record {
        start = rw next (get_frame-lt s v.start).1;
        once = λ i j si sj fi fj same. elim (Bool-cases (swap_in y pte s).0) [
          | inl done ↦ ground (arith, table i, table j, v.once i j, missing i, missing j, own)
          | inr failed ↦ ground (arith, table i, table j, v.once i j)
        ];
      }

  -- If no request fails, the missing page is in the frame that `_getFrame` chose, and every other
  -- frame holds the page that it held.
  pub swap_in-loads :
      (s : Pool) (j : ℕ)
      → (swap_in y pte s).0 ≡ true
      → pte_of (swap_in y pte s).1 j ≡ (if (get_frame s).0 == j then pte else pte_of s j)
  swap_in-loads s j done =
      let ((e, own, table), next) = swap_in-Turns s in ground (arith, table j, own)

-- `freeFrames` keeps the frames' pages different.
pub free_frames-IsValid : (asid : ℕ) (s : Pool) → IsValid s → IsValid (free_frames asid s)
free_frames-IsValid asid s v = record {
  start = rw (free_frames-index s asid) v.start;
  once = λ i j si sj fi fj same.
      ground (arith, free_frames_lem s asid i, free_frames_lem s asid j, v.once i j);
}

-- `initSwapStructs` empties every frame of the pool, so that no page is in one.
pub init_swap_structs_lem :
    (s : Pool) (i : ℕ) → i < pool_size → is_free_frame (init_swap_structs s) i ≡ true
unfolding init_swap_structs
init_swap_structs_lem s i small = ground (arith, clear_loop_lem s pool_size i)

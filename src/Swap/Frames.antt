-- ===== src/Swap/Frames.antt =====
-- The choice and the release of frames, `_getFrame` and `freeFrames` of phase3/vmSupport.c.
use pandos_plus.Base.{
  ℕ, zero, suc, ◌+◌, ◌%◌, ◌<◌, ◌≡◌, ◌⊎◌, inl, inr, true, false, ltb, ◌==◌, ◌&&◌, if◌then◌else◌,
  arith, ◌-◌, ap, refl, Bool-cases,
}
use pandos_plus.Swap.{
  Pool, pool_size, is_free_frame, seek_free, get_frame, free_loop, free_frames, empty_frame,
  clear_loop,
}

module _ (s : Pool) where
  seek_free_lem :
      (rounds i : ℕ)
      → i < pool_size
      → (is_free_frame s (seek_free rounds s i) ≡ true)
        ⊎ ((seek_free rounds s i ≡ (i + rounds) % pool_size)
            × ((k : ℕ) → k < rounds → is_free_frame s ((i + k) % pool_size) ≡ false))
  unfolding seek_free
  seek_free_lem zero i small = inr (omega arith, λ k none. absurd (omega arith))
  seek_free_lem (suc rounds) i small = elim (Bool-cases (is_free_frame s i)) [
    | inl free ↦ inl (rw (free) free)
    | inr taken ↦ elim (seek_free_lem rounds ((i + 1) % pool_size) (omega arith)) [
      | inl free ↦ inl (rw taken free)
      | inr (at, before) ↦ inr (rw taken (omega (arith, at)), λ k few. later before taken k few)
    ]
  ]
    where
      later :
          ((k : ℕ) → k < rounds → is_free_frame s (((i + 1) % pool_size + k) % pool_size) ≡ false)
          → is_free_frame s i ≡ false
          → (k : ℕ) → k < suc rounds
          → is_free_frame s ((i + k) % pool_size) ≡ false
      later before taken zero few = let e : (i + 0) % pool_size ≡ i = omega arith in rw e taken
      later before taken (suc k) few =
          let e : (i + suc k) % pool_size ≡ ((i + 1) % pool_size + k) % pool_size = omega arith in
          rw e (before k (omega arith))

  seek_free-lt : (rounds i : ℕ) → i < pool_size → seek_free rounds s i < pool_size
  unfolding seek_free
  seek_free-lt zero i small = small
  seek_free-lt (suc rounds) i small =
      ground (arith, seek_free-lt rounds ((i + 1) % pool_size) (omega arith))

  -- `_getFrame` returns a free frame if the pool has one.
  pub get_frame_free :
      (j : ℕ)
      → s.to_swap_frame_index < pool_size
      → j < pool_size
      → is_free_frame s j ≡ true
      → is_free_frame s (get_frame s).0 ≡ true
  unfolding get_frame
  get_frame_free j start small free = elim (seek_free_lem pool_size s.to_swap_frame_index start) [
    | inl found ↦ found
    | inr (at, taken) ↦
        let k = (j + pool_size - s.to_swap_frame_index) % pool_size in
        let here : (s.to_swap_frame_index + k) % pool_size ≡ j = omega arith in
        absurd (cc (ap (is_free_frame s) here, taken k (omega arith), free))
  ]

  -- `_getFrame` takes the frames in turn if none is free.
  pub get_frame_full :
      s.to_swap_frame_index < pool_size
      → ((j : ℕ) → j < pool_size → is_free_frame s j ≡ false)
      → ((get_frame s).0 ≡ s.to_swap_frame_index)
        × ((get_frame s).1.to_swap_frame_index ≡ (s.to_swap_frame_index + 1) % pool_size)
  unfolding get_frame
  get_frame_full start full = elim (seek_free_lem pool_size s.to_swap_frame_index start) [
    | inl found ↦ absurd (cc (found, full _ (seek_free-lt pool_size s.to_swap_frame_index start)))
    | inr (at, taken) ↦ (omega (arith, at), omega (arith, at))
  ]

  -- The frame that `_getFrame` returns, and the one it starts from next, are in the pool.
  pub get_frame-lt :
      s.to_swap_frame_index < pool_size
      → ((get_frame s).0 < pool_size) × ((get_frame s).1.to_swap_frame_index < pool_size)
  unfolding get_frame
  get_frame-lt start = (seek_free-lt pool_size s.to_swap_frame_index start, omega arith)

  free_loop_lem :
      (n asid j : ℕ)
      → (free_loop n asid s).swap_pool_table j ≡ (
          if ltb j n && ((s.swap_pool_table j).sw_asid == asid)
          then empty_frame
          else s.swap_pool_table j)
  unfolding free_loop
  free_loop_lem zero asid j = ground arith
  free_loop_lem (suc i) asid j = ground (arith, free_loop_lem i asid j, free_loop_lem i asid i)

  -- `freeFrames` empties the frames of the address space, and no other.
  pub free_frames_lem :
      (asid j : ℕ)
      → (free_frames asid s).swap_pool_table j ≡ (
          if ltb j pool_size && ((s.swap_pool_table j).sw_asid == asid)
          then empty_frame
          else s.swap_pool_table j)
  unfolding free_frames
  free_frames_lem asid j = free_loop_lem pool_size asid j

  free_loop-index : (n asid : ℕ) → (free_loop n asid s).to_swap_frame_index ≡ s.to_swap_frame_index
  unfolding free_loop
  free_loop-index zero asid = refl
  free_loop-index (suc i) asid = ground (arith, free_loop-index i asid)

  pub free_frames-index :
      (asid : ℕ) → (free_frames asid s).to_swap_frame_index ≡ s.to_swap_frame_index
  unfolding free_frames
  free_frames-index asid = free_loop-index pool_size asid

  pub clear_loop_lem :
      (n j : ℕ)
      → (clear_loop n s).swap_pool_table j ≡ (if ltb j n then empty_frame else s.swap_pool_table j)
  unfolding clear_loop
  clear_loop_lem zero j = ground arith
  clear_loop_lem (suc i) j = ground (arith, clear_loop_lem i j)

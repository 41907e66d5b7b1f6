-- ===== src/Swap/Requests.antt =====
-- The handler of an invalid page of phase3/vmSupport.c when every request to a flash device succeeds:
-- the pool it leaves, but for the log of the requests.
use Prim.Native.Nat.{bit_and}
use pandos_plus.Base.{ℕ, true, false, ◌≡◌, refl, []}
use pandos_plus.Swap.{
  Event, Layout, Pool, get_frame, is_free_frame, load_page, map_page, set_entry, store_page,
  swap_in, valid_off,
}

abbrev pub no_log : Pool → Pool
no_log s = record s { log = [] }

-- the page in the frame made invalid
abbrev pub unmap_page : Layout → ℕ → Pool → Pool
unmap_page y i s =
    let pte = (s.swap_pool_table i).sw_pte in
    set_entry y pte (bit_and (s.ptes pte).pte_entry_lo valid_off) s

module _ (y : Layout) (succeed : (e : Event) → y.completes e ≡ true) (pte : ℕ) (s : Pool) where
  pub swap_in_free :
      is_free_frame (get_frame s).1 (get_frame s).0 ≡ true
      → no_log (swap_in y pte s).1 ≡ no_log (map_page y pte (get_frame s).0 (get_frame s).1)
  unfolding swap_in load_page map_page set_entry
  swap_in_free free = rw (free, succeed _) refl

  pub swap_in_taken :
      is_free_frame (get_frame s).1 (get_frame s).0 ≡ false
      → no_log (swap_in y pte s).1
        ≡ no_log (map_page y pte (get_frame s).0 (unmap_page y (get_frame s).0 (get_frame s).1))
  unfolding swap_in load_page store_page map_page set_entry
  swap_in_taken taken = rw (taken, succeed _, succeed _) refl

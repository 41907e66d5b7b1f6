-- ===== src/Swap.antt =====
-- phase3/vmSupport.c: the swap pool, between the P and the V on its semaphore, which every user of
-- the table but `initSwapStructs` holds. A page table entry is an index of `ptes`, a frame an index
-- of the swap pool table. The requests to the flash devices are kept in `log`, the last first.
pub mod Frames
pub mod Coherence
pub mod Owners
pub mod PageTable
pub mod Requests
pub mod Tests
use Prim.Native.Nat.{bit_and, bit_or}
use pandos_plus.Base.{
  ℕ, zero, suc, ◌+◌, ◌*◌, ◌%◌, Bool, true, false, List, [], ◌∷◌, ltb, ◌==◌, if◌then◌else◌, update,
}
use pandos_plus.Machine.{PteEntry, null, word_mod}
use pandos_plus.Tlb.{TlbUnit, Tlb, update_tlb, tlb_write_random}

abbrev pub pool_size : ℕ
pool_size = 16

-- -1 in a word
abbrev pub no_proc : ℕ
no_proc = 0xffff_ffff

abbrev pub page_size : ℕ
page_size = 4096

abbrev pub valid_on : ℕ
valid_on = 0x200

-- `~VALIDON`
abbrev pub valid_off : ℕ
valid_off = 0xffff_fdff

-- `swap_t`
pub record SwapEntry : Type 0 where
  pub sw_asid : ℕ
  pub sw_page_no : ℕ
  pub sw_pte : ℕ

pub data Event : Type 0 where
  write_page : ℕ → ℕ → ℕ → Event
  read_page : ℕ → ℕ → ℕ → Event

-- What the emulator's headers fix, and the address after the kernel's data, from the header that the
-- loader leaves at `KERNELSTACK`; `completes` says of a request to a flash device whether it succeeds.
pub record Layout : Type 0 where
  pub entry_hi_vpn : ℕ → ℕ
  pub entry_hi_asid : ℕ → ℕ
  pub vpn_bit : ℕ
  pub asid_bit : ℕ
  pub entry_lo_dirty : ℕ
  pub entry_lo_no_pfn : ℕ
  pub frame_pool_start : ℕ
  pub completes : Event → Bool
  pub tlb_unit : TlbUnit

pub record Pool : Type 0 where
  pub swap_pool_table : ℕ → SwapEntry
  pub to_swap_frame_index : ℕ
  pub ptes : ℕ → PteEntry
  pub tlb : Tlb
  pub log : List Event

abbrev pub empty_frame : SwapEntry
empty_frame = record { sw_asid = no_proc; sw_page_no = 0; sw_pte = null }

abbrev pub is_free_frame : Pool → ℕ → Bool
is_free_frame s i = (s.swap_pool_table i).sw_asid == no_proc

pub get_page_index : ℕ → ℕ
get_page_index vpn = if vpn == 0xb_ffff then 31 else vpn % 0x8_0000

-- The loop of `_getFrame` with `rounds` left.
pub seek_free : ℕ → Pool → ℕ → ℕ
seek_free zero s i = i
seek_free (suc rounds) s i =
    let rest = seek_free rounds s ((i + 1) % pool_size) in if is_free_frame s i then i else rest

pub get_frame : Pool → ℕ × Pool
get_frame s =
    let i = seek_free pool_size s s.to_swap_frame_index in
    (i, record s { to_swap_frame_index = (i + 1) % pool_size })

-- The loop of `freeFrames` over the entries below `n`, from 0 on.
pub free_loop : ℕ → ℕ → Pool → Pool
free_loop zero asid s = s
free_loop (suc i) asid s =
    let s' = free_loop i asid s in
    if (s'.swap_pool_table i).sw_asid == asid
    then record s' { swap_pool_table = update s'.swap_pool_table i empty_frame }
    else s'

pub free_frames : ℕ → Pool → Pool
unfolding free_loop
free_frames asid s = free_loop pool_size asid s

-- The loop of `initSwapStructs` over the entries below `n`, from 0 on.
pub clear_loop : ℕ → Pool → Pool
clear_loop zero s = s
clear_loop (suc i) s =
    let s' = clear_loop i s in
    record s' { swap_pool_table = update s'.swap_pool_table i empty_frame }

pub init_swap_structs : Pool → Pool
unfolding clear_loop
init_swap_structs s = clear_loop pool_size s

module _ (y : Layout) where
  abbrev pub frame_address : ℕ → ℕ
  frame_address i = (y.frame_pool_start + i * page_size) % word_mod

  -- GET_VPN: with the implicit highest bit
  abbrev pub get_vpn : ℕ → ℕ
  get_vpn entry_hi = 0x8_0000 + y.entry_hi_vpn entry_hi

  -- A request to the flash device, and whether it has completed. After an error the trap handler
  -- ends the process, so that what follows the request is not done.
  abbrev pub backing_store_operation : Event → Pool → Bool × Pool
  backing_store_operation request s = (y.completes request, record s { log = request ∷ s.log })

  -- A page table entry gets a new `entryLO`, and the TLB is told of it.
  pub set_entry : ℕ → ℕ → Pool → Pool
  set_entry pte lo s =
      let entry = record (s.ptes pte) { pte_entry_lo = lo } in
      record s { ptes = update s.ptes pte entry; tlb = update_tlb y.tlb_unit entry s.tlb }

  -- The page in the frame becomes invalid, in the page table and in the TLB, and is written out.
  pub store_page : ℕ → Pool → Bool × Pool
  store_page i s =
      let frame = s.swap_pool_table i in
      backing_store_operation (write_page frame.sw_asid frame.sw_page_no (frame_address i))
        (set_entry frame.sw_pte (bit_and (s.ptes frame.sw_pte).pte_entry_lo valid_off) s)

  -- What `_loadPage` does once the page has been read.
  pub map_page : ℕ → ℕ → Pool → Pool
  map_page pte i s =
      let old = s.ptes pte in
      set_entry pte
        (bit_or (bit_or (bit_and old.pte_entry_lo y.entry_lo_no_pfn) (frame_address i)) valid_on)
        (record s {
          swap_pool_table = update s.swap_pool_table i (record {
            sw_asid = y.entry_hi_asid old.pte_entry_hi;
            sw_page_no = get_page_index (get_vpn old.pte_entry_hi);
            sw_pte = pte;
          });
        })

  -- The page of `pte` is read into the frame, which is its own then, and becomes valid.
  pub load_page : ℕ → ℕ → Pool → Bool × Pool
  load_page pte i s =
      let hi = (s.ptes pte).pte_entry_hi in
      let (done, s') =
        backing_store_operation
          (read_page (y.entry_hi_asid hi) (get_page_index (get_vpn hi)) (frame_address i)) s in
      if done then (true, map_page pte i s') else (false, s')

  -- `_TLBInvalidHandler` from the choice of the frame to the V, for the entry of the missing page.
  -- The flag is FALSE if a request failed.
  pub swap_in : ℕ → Pool → Bool × Pool
  swap_in pte s =
      let (i, chosen) = get_frame s in
      let (done, stored) = if is_free_frame chosen i then (true, chosen) else store_page i chosen in
      if done then load_page pte i stored else (false, stored)

  -- `TLBRefillHandler` before its LDST, for the page of `entry_hi` and the page table at `table`. The
  -- slot is the one that the processor chooses.
  pub tlb_refill : ℕ → ℕ → ℕ → Pool → Pool
  tlb_refill slot table entry_hi s =
      let page_index = get_page_index (get_vpn entry_hi) in
      record s { tlb = tlb_write_random slot (s.ptes (table + page_index)) s.tlb }

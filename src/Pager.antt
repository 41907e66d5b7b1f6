-- ===== src/Pager.antt =====
-- phase3/vmSupport.c on the side of the process that runs it: the requests to its flash device are
-- system calls, so that the others run meanwhile, and an error ends the process.
pub mod Outcome
pub mod Refines
pub mod Tests
use Prim.Native.Nat.{bit_and}
use pandos_plus.Base.{ℕ, ◌+◌, ◌-◌, ◌*◌, ◌/◌, ◌%◌, Bool, ◌||◌, ltb, ◌==◌, if◌then◌else◌, update}
use pandos_plus.Machine.{State, word_mod}
use pandos_plus.Platform.{Platform}
use pandos_plus.Kernel.{Support}
use pandos_plus.Exceptions.{pgfault_except}
use pandos_plus.Swap.PageTable.{text_pages}
use pandos_plus.Swap.{
  Pool, Layout, is_free_frame, frame_address, get_frame, get_page_index, get_vpn, map_page,
  page_size, set_entry, valid_off,
}
use pandos_plus.Swap.PageTable.{fill_page_table}
use pandos_plus.World.{
  Shared, Environment, swap_pool, do_io, Prog, ◌>>=◌, ◌>>◌, pure, leave, get, change, syscall,
  support_pointer, user_p, user_v, ldst, panic,
}
use pandos_plus.SysSupport.{device_of, asid_of, trap_exception_handler}

abbrev pub flash_read : ℕ
flash_read = 2

abbrev pub flash_write : ℕ
flash_write = 3

abbrev pub flash_read_error : ℕ
flash_read_error = 4

abbrev pub flash_write_error : ℕ
flash_write_error = 5

abbrev pub tlb_mod : ℕ
tlb_mod = 1

abbrev pub tlb_invld_l : ℕ
tlb_invld_l = 2

abbrev pub tlb_invld_s : ℕ
tlb_invld_s = 3

-- the state saved at a page fault
abbrev pub page_fault_state : ℕ → Shared → State
page_fault_state support s = (s.supports support).sup_except_state pgfault_except

abbrev pub in_pool : (Pool → Pool) → Shared → Shared
in_pool f s = record s { pool = f s.pool }

module _ (env : Environment) (pf : Platform) (y : Layout) where
  -- `_backingStoreOperation`
  unfoldable pub flash_operation : ℕ → ℕ → ℕ → ℕ → Prog (Unit {0})
  flash_operation operation_command asid page_num frame_address =
      let flash_dev_reg = pf.dev_reg_addr 4 (device_of asid) in
      do
        change (λ s. record s { data0 = update s.data0 (flash_dev_reg + 0x8) frame_address })
        status ←
            syscall env
              (do_io (flash_dev_reg + 0x4) ((page_num * 256 + operation_command) % word_mod))
        if status == flash_write_error || status == flash_read_error
            then trap_exception_handler env
            else pure tt

  -- `_storePage`
  unfoldable pub store_frame : ℕ → Prog (Unit {0})
  store_frame i = do
    change (λ s.
        let pte = (s.pool.swap_pool_table i).sw_pte in
        in_pool (set_entry y pte (bit_and (s.pool.ptes pte).pte_entry_lo valid_off)) s)
    frame ← get (λ s. s.pool.swap_pool_table i)
    flash_operation flash_write frame.sw_asid frame.sw_page_no (frame_address y i)

  -- `_loadPage`; `entryHI` of a page never changes once the process has started.
  unfoldable pub load_frame : ℕ → ℕ → Prog (Unit {0})
  load_frame pt_entry i = do
    hi ← get (λ s. (s.pool.ptes pt_entry).pte_entry_hi)
    flash_operation flash_read (y.entry_hi_asid hi) (get_page_index (get_vpn y hi))
        (frame_address y i)
    change (in_pool (map_page y pt_entry i))

  unfoldable pub tlb_invalid_handler : ℕ → Prog (Unit {0})
  tlb_invalid_handler support = do
    asid ← get (asid_of support)
    user_p env swap_pool asid
    entry_hi ← get (λ s. (page_fault_state support s).entry_hi)
    page_table ← get (λ s. (s.supports support).sup_private_pg_tbl)
    new_frame ← get (λ s. (get_frame s.pool).0)
    change (in_pool (λ s. (get_frame s).1))
    free ← get (λ s. is_free_frame s.pool new_frame)
    if free then pure tt else store_frame new_frame
    load_frame (page_table + get_page_index (get_vpn y entry_hi)) new_frame
    user_v env swap_pool
    state ← get (page_fault_state support)
    leave (ldst state)

  unfoldable pub tlb_exception_handler : Prog (Unit {0})
  tlb_exception_handler = do
    support ← support_pointer env
    state ← get (page_fault_state support)
    let code = pf.exc_code state.cause
    if code == tlb_mod
        then trap_exception_handler env
        else if code == tlb_invld_l || code == tlb_invld_s
        then tlb_invalid_handler support
        else leave panic

  -- `initPageTable`, which reads the header of the program to `tmp_frame`; `word_at` reads a word from
  -- the bytes of memory, in the order of the processor.
  unfoldable pub load_page_table : ((ℕ → ℕ) → ℕ → ℕ) → ℕ → ℕ → ℕ → Prog (Unit {0})
  load_page_table word_at asid page_table tmp_frame = do
    flash_operation flash_read asid 0 tmp_frame
    text_file_size ← get (λ s. word_at s.bytes (tmp_frame + 20))
    change (
        in_pool (λ s. record s {
          ptes = fill_page_table y asid (text_pages text_file_size) page_table s.ptes;
        }))

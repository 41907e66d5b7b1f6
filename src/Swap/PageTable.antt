-- ===== src/Swap/PageTable.antt =====
-- `initPageTable` of phase3/vmSupport.c: the page table of a new process, from index `page_table` of
-- the entries on, and the way back from an entry to its index.
use pandos_plus.Base.{
  ℕ, zero, suc, ◌+◌, ◌*◌, ◌/◌, ◌%◌, ◌^◌, ◌<◌, ◌≡◌, Bool, true, false, ltb, ◌==◌, if◌then◌else◌,
  arith, update, Bool-cases, inl, inr, ◌∙◌,
}
use pandos_plus.Machine.{PteEntry, word_mod}
use pandos_plus.Swap.{
  Pool, Layout, read_page, page_size, backing_store_operation, get_page_index, get_vpn,
}

-- `text_file_size / PAGESIZE` of an `int`: a negative size gives a quotient that is not positive, so
-- that no page is below it, as for 0.
abbrev pub text_pages : ℕ → ℕ
text_pages size = if ltb size (2 ^ 31) then size / page_size else 0

module _ (y : Layout) (asid : ℕ) where
  abbrev pub page_entry_hi : ℕ → ℕ
  page_entry_hi vpn = (vpn * 2 ^ y.vpn_bit + asid * 2 ^ y.asid_bit) % word_mod

  -- The loop over the pages below `n`, of which `num_text_file` hold code and are not written.
  pub page_loop : ℕ → ℕ → ℕ → (ℕ → PteEntry) → ℕ → PteEntry
  page_loop zero num_text_file page_table ptes = ptes
  page_loop (suc i) num_text_file page_table ptes =
      update (page_loop i num_text_file page_table ptes) (page_table + i) (record {
        pte_entry_hi = page_entry_hi (0x8_0000 + i);
        pte_entry_lo = if ltb i num_text_file then 0 else y.entry_lo_dirty;
      })

  pub fill_page_table : ℕ → ℕ → (ℕ → PteEntry) → ℕ → PteEntry
  fill_page_table num_text_file page_table ptes =
      update (page_loop 31 num_text_file page_table ptes) (page_table + 31)
        (record { pte_entry_hi = page_entry_hi 0xb_ffff; pte_entry_lo = y.entry_lo_dirty })

  -- `words` are those of the frame once it has been read. The flag is FALSE if the request failed.
  pub init_page_table : ℕ → ℕ → (ℕ → ℕ) → Pool → Bool × Pool
  init_page_table page_table tmp_frame words s =
      let (done, s') = backing_store_operation y (read_page asid 0 tmp_frame) s in
      if done
      then (true, record s' { ptes = fill_page_table (text_pages (words 5)) page_table s'.ptes })
      else (false, s')

-- The fields of `entryHI`: 6 bits of the address space from bit 6 on,
-- and the 18 bits of `GETPAGENO`, in lib/pandos_const.h, from `VPNSHIFT` on.
pub record IsUmps3 (y : Layout) : Type 0 where
  pub vpn_bits : y.vpn_bit ≡ 12
  pub asid_bits : y.asid_bit ≡ 6
  pub vpn : (hi : ℕ) → y.entry_hi_vpn hi ≡ hi / 4096 % 0x4_0000
  pub asid : (hi : ℕ) → y.entry_hi_asid hi ≡ hi / 64 % 64

module _ (y : Layout) (u : IsUmps3 y) (asid : ℕ) (small : asid < 64) where
  page_loop_lem :
      (n num table i : ℕ) (ptes : ℕ → PteEntry)
      → i < n
      → (page_loop y asid n num table ptes (table + i)).pte_entry_hi
        ≡ page_entry_hi y asid (0x8_0000 + i)
  unfolding page_loop
  page_loop_lem zero num table i ptes few = absurd (omega arith)
  page_loop_lem (suc n) num table i ptes few = ground (arith, page_loop_lem n num table i ptes)

  hi-page : (i : ℕ) → i < 31 → get_page_index (get_vpn y (page_entry_hi y asid (0x8_0000 + i))) ≡ i
  unfolding get_page_index
  hi-page i few =
      rw (u.vpn (page_entry_hi y asid (0x8_0000 + i)), u.vpn_bits, u.asid_bits) (ground arith)

  hi-stack : get_page_index (get_vpn y (page_entry_hi y asid 0xb_ffff)) ≡ 31
  unfolding get_page_index
  hi-stack = rw (u.vpn (page_entry_hi y asid 0xb_ffff), u.vpn_bits, u.asid_bits) (ground arith)

  hi-asid : (vpn : ℕ) → y.entry_hi_asid (page_entry_hi y asid vpn) ≡ asid
  hi-asid vpn = rw (u.asid (page_entry_hi y asid vpn), u.vpn_bits, u.asid_bits) (omega arith)

  fill_lem :
      (num table i : ℕ) (ptes : ℕ → PteEntry)
      → i < 32
      → (fill_page_table y asid num table ptes (table + i)).pte_entry_hi
        ≡ page_entry_hi y asid (if i == 31 then 0xb_ffff else 0x8_0000 + i)
  unfolding fill_page_table
  fill_lem num table i ptes few = ground (arith, page_loop_lem 31 num table i ptes)

  filled-page :
      (i : ℕ)
      → i < 32
      → get_page_index
          (get_vpn y (page_entry_hi y asid (if i == 31 then 0xb_ffff else 0x8_0000 + i)))
        ≡ i
  filled-page i few = elim (Bool-cases (i == 31)) [
    | inl e ↦ rw e (hi-stack ∙ ground arith)
    | inr e ↦ rw e (hi-page i (ground arith))
  ]

  -- With the fields of `entryHI` at the bits that lib/pandos_const.h gives, an address space
  -- below 64 and a header that was read, the 32 entries of a new page table carry the address
  -- space, and `_getPageIndex` of the page of each is the index of the entry.
  pub init_page_table-index :
      (page_table tmp_frame : ℕ) (words : ℕ → ℕ) (s : Pool) (i : ℕ)
      → y.completes (read_page asid 0 tmp_frame) ≡ true
      → i < 32
      → let (done, s') = init_page_table y asid page_table tmp_frame words s in
        let hi = (s'.ptes (page_table + i)).pte_entry_hi in
        (get_page_index (get_vpn y hi) ≡ i) × (y.entry_hi_asid hi ≡ asid)
  unfolding init_page_table
  init_page_table-index page_table tmp_frame words s i done few =
      let e = fill_lem (text_pages (words 5)) page_table i s.ptes few in
      rw (done, e) (filled-page i few, hi-asid (if i == 31 then 0xb_ffff else 0x8_0000 + i))

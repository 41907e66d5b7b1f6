-- ===== src/Swap/Tests.antt =====
-- A swap pool with one page, of the address space 1, in frame 0.
use pandos_plus.Base.{◌+◌, ◌*◌, ◌/◌, ◌%◌, ◌≡◌, true, [], ◌==◌, if◌then◌else◌, arith, refl}
use pandos_plus.Tlb.{is_global}
use pandos_plus.Tlb.Bits.{digit}
use pandos_plus.Tlb.Tests.{scan_tlb, scan_tlb-Probes}
use pandos_plus.Swap.{
  Pool, Layout, empty_frame, get_frame, swap_in, get_page_index, seek_free, load_page,
}
use pandos_plus.Swap.{get_vpn}
use pandos_plus.Swap.PageTable.{IsUmps3, init_page_table, init_page_table-index}
use pandos_plus.Swap.Coherence.{Coheres, IsMapped, swap_in-Coheres}
use pandos_plus.Swap.Owners.{IsValid, IsMissing, swap_in-IsValid}

abbrev pub layout : Layout
layout = record {
  entry_hi_vpn = λ hi. hi / 4096 % 0x4_0000;
  entry_hi_asid = λ hi. hi / 64 % 64;
  vpn_bit = 12;
  asid_bit = 6;
  entry_lo_dirty = 0x400;
  entry_lo_no_pfn = 0xfff;
  frame_pool_start = 0x2002_0000;
  completes = λ _. true;
  tlb_unit = scan_tlb;
}

-- frame 0 holds the page of entry 40
abbrev pub one_page : Pool
one_page = record {
  swap_pool_table =
      λ i. if i == 0 then record { sw_asid = 1; sw_page_no = 2; sw_pte = 40 } else empty_frame;
  to_swap_frame_index = 0;
  ptes = λ i. record { pte_entry_hi = 0x8000_0040 + 4096 * i; pte_entry_lo = 0 };
  tlb = record {
    entries = λ i. record { pte_entry_hi = 0x8000_0040 + 4096 * i; pte_entry_lo = 0 };
    cp0_entry_hi = 0;
    cp0_entry_lo = 0;
    cp0_index = 0;
  };
  log = [];
}

abbrev all_taken : Pool
all_taken = record one_page {
  swap_pool_table = λ i. record { sw_asid = 1; sw_page_no = i; sw_pte = i };
  to_swap_frame_index = 15;
}

one_page-IsValid : IsValid one_page
one_page-IsValid = record { start = omega arith; once = λ i j si sj fi fj same. ground arith }

missing : IsMissing 41 one_page
missing i small taken = ground arith

loaded : (swap_in layout 41 one_page).0 ≡ true
unfolding swap_in get_frame seek_free load_page
loaded = refl

swap_in-IsValid_example : IsValid (swap_in layout 41 one_page).1
swap_in-IsValid_example = swap_in-IsValid layout 41 one_page one_page-IsValid missing

layout-IsUmps3 : IsUmps3 layout
layout-IsUmps3 = record { vpn_bits = refl; asid_bits = refl; vpn = λ hi. refl; asid = λ hi. refl }

-- a process of address space 3 with two pages of code: the entry 7 of its table
init_page_table-index_example :
    let (done, s') = init_page_table layout 3 96 0x2001_0000 (λ _. 8192) one_page in
    let hi = (s'.ptes (96 + 7)).pte_entry_hi in
    (get_page_index (get_vpn layout hi) ≡ 7) × (layout.entry_hi_asid hi ≡ 3)
init_page_table-index_example =
    init_page_table-index layout layout-IsUmps3 3 (omega arith) 96 0x2001_0000 (λ _. 8192) one_page
      7 refl (omega arith)

zero-local : is_global 0 ≡ 0
unfolding digit
zero-local = refl

one_page-Coheres : Coheres one_page
one_page-Coheres = record {
  pages = λ p q sp sq same. omega arith;
  once = λ i j p si sj sp mi mj. omega arith;
  agree = λ i p si sp m. refl;
  local_pages = λ p sp. zero-local;
  local_slots = λ i si. zero-local;
}

one_page-IsMapped : IsMapped one_page
one_page-IsMapped i small taken = ground arith

swap_in-Coheres_example : Coheres (swap_in layout 41 one_page).1
swap_in-Coheres_example =
    swap_in-Coheres layout scan_tlb-Probes refl 41 one_page (omega arith) (omega arith)
      one_page-IsMapped one_page-Coheres

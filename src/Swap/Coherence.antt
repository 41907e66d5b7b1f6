-- ===== src/Swap/Coherence.antt =====
-- The TLB holds no stale entry of a page table: what `_updateTLB` of phase3/vmSupport.c is for.
use Prim.Native.Nat.{bit_and, bit_or}
use pandos_plus.Base.{
  ℕ, ◌%◌, ◌+◌, ◌<◌, ◌≡◌, ◌≢◌, true, false, ◌==◌, if◌then◌else◌, arith, refl, sym, Bool-cases, inl,
  inr, update, subst, Bool, if_either, ◌∷◌,
}
use pandos_plus.Machine.{PteEntry}
use pandos_plus.Tlb.Bits.{digit, digit-bit_and, digit-bit_or}
use pandos_plus.Tlb.{
  is_global, TlbUnit, Tlb, Probes, tlb_size, index_p_bit_mask, update_tlb, tlb_write_random,
}
use pandos_plus.Swap.Frames.{get_frame-lt}
use pandos_plus.Swap.Owners.{with_frame, pte_of}
use pandos_plus.Swap.{
  Pool, Layout, set_entry, store_page, load_page, map_page, get_frame, swap_in, is_free_frame,
  tlb_refill, frame_address, read_page, pool_size, page_size, valid_on, valid_off, get_page_index,
  get_vpn,
}

-- 32 pages for each of 8 processes
abbrev pub page_count : ℕ
page_count = 256

-- Every page has an `entryHI` of its own; no two slots of the TLB hold the same page; and a page in
-- the TLB has there the `entryLO` of its page table. Neither the page tables nor the TLB have the bit
-- G set.
pub record IsCoherent (ptes : ℕ → PteEntry) (entries : ℕ → PteEntry) : Type 0 where
  pub pages :
      (p q : ℕ)
      → p < page_count
      → q < page_count
      → (ptes p).pte_entry_hi ≡ (ptes q).pte_entry_hi
      → p ≡ q
  pub once :
      (i j p : ℕ)
      → i < tlb_size
      → j < tlb_size
      → p < page_count
      → (entries i).pte_entry_hi ≡ (ptes p).pte_entry_hi
      → (entries j).pte_entry_hi ≡ (ptes p).pte_entry_hi
      → i ≡ j
  pub agree :
      (i p : ℕ)
      → i < tlb_size
      → p < page_count
      → (entries i).pte_entry_hi ≡ (ptes p).pte_entry_hi
      → (entries i).pte_entry_lo ≡ (ptes p).pte_entry_lo
  pub local_pages : (p : ℕ) → p < page_count → is_global (ptes p).pte_entry_lo ≡ 0
  pub local_slots : (i : ℕ) → i < tlb_size → is_global (entries i).pte_entry_lo ≡ 0

-- the slots of the TLB after an update by `entry`
abbrev updated : TlbUnit → PteEntry → (ℕ → PteEntry) → ℕ → PteEntry
updated unit entry entries =
    if bit_and (unit.probe entries entry.pte_entry_hi) index_p_bit_mask == 0
    then update entries (unit.slot (unit.probe entries entry.pte_entry_hi)) entry
    else entries

update_tlb-entries :
    (unit : TlbUnit) (entry : PteEntry) (t : Tlb)
    → (update_tlb unit entry t).entries ≡ updated unit entry t.entries
unfolding update_tlb
update_tlb-entries unit entry t =
    elim (Bool-cases (bit_and (unit.probe t.entries entry.pte_entry_hi) index_p_bit_mask == 0)) [
      | inl e ↦ rw e refl
      | inr e ↦ rw e refl
    ]

module _ (unit : TlbUnit) (known : Probes unit) (ptes : ℕ → PteEntry) (entries : ℕ → PteEntry)
    (c : IsCoherent ptes entries) (pte lo : ℕ) (small : pte < page_count)
    (local : is_global lo ≡ 0) where
  abbrev entry : PteEntry
  entry = record (ptes pte) { pte_entry_lo = lo }

  abbrev ptes_after : ℕ → PteEntry
  ptes_after = update ptes pte entry

  kept : (p : ℕ) → (ptes_after p).pte_entry_hi ≡ (ptes p).pte_entry_hi
  kept p = ground arith

  local_after : (p : ℕ) → p < page_count → is_global (ptes_after p).pte_entry_lo ≡ 0
  local_after p few = ground (arith, c.local_pages p)

  updated-IsCoherent : IsCoherent ptes_after (updated unit entry entries)
  updated-IsCoherent =
      elim (Bool-cases
        (bit_and (unit.probe entries (ptes pte).pte_entry_hi) index_p_bit_mask == 0)) [
          | inl e ↦
              let k = unit.slot (unit.probe entries (ptes pte).pte_entry_hi) in
              let few = known.in_range entries (ptes pte).pte_entry_hi in
              let there : (entries k).pte_entry_hi ≡ (ptes pte).pte_entry_hi =
                elim (known.found entries (ptes pte).pte_entry_hi (ground arith)) [
                  | inl same ↦ same
                  | inr everywhere ↦ absurd (omega (arith, c.local_slots k few))
                ] in
              rw e (record {
                pages = λ p q sp sq same. ground (arith, kept p, kept q, c.pages p q);
                once = λ i j p si sj sp mi mj.
                    ground (arith, kept p, c.once i j p, c.pages p pte, c.once i k p, c.once k j p);
                agree = λ i p si sp m.
                    ground (arith, kept p, c.agree i p, c.once i k pte, c.pages p pte);
                local_pages = local_after;
                local_slots = λ i si. ground (arith, c.local_slots i);
              })
          | inr e ↦ rw e (record {
            pages = λ p q sp sq same. ground (arith, kept p, kept q, c.pages p q);
            once = λ i j p si sj sp mi mj. ground (arith, kept p, c.once i j p);
            agree = λ i p si sp m.
                ground
                  (arith, kept p, c.agree i p, known.missing entries (ptes pte).pte_entry_hi i);
            local_pages = local_after;
            local_slots = c.local_slots;
          })
        ]

-- the tables and the TLB of a pool
abbrev pub Coheres : Pool → Type 0
Coheres s = IsCoherent s.ptes s.tlb.entries

-- The pages in the frames are pages of the processes.
abbrev pub IsMapped : Pool → Type 0
IsMapped s = (i : ℕ) → i < pool_size → is_free_frame s i ≡ false → pte_of s i < page_count

valid_on-local : is_global valid_on ≡ 0
unfolding digit
valid_on-local = refl

module _ (y : Layout) (known : Probes y.tlb_unit)
    (aligned : y.frame_pool_start % page_size ≡ 0) where
  address-local : (i : ℕ) → is_global (frame_address y i) ≡ 0
  unfolding digit
  address-local i = omega arith

  set_entry-Coheres :
      (pte lo : ℕ) (s : Pool)
      → pte < page_count
      → is_global lo ≡ 0
      → Coheres s
      → Coheres (set_entry y pte lo s)
  unfolding set_entry
  set_entry-Coheres pte lo s small local c =
      let e : PteEntry = record (s.ptes pte) { pte_entry_lo = lo } in
      subst (IsCoherent (update s.ptes pte e)) (sym (update_tlb-entries y.tlb_unit e s.tlb))
        (updated-IsCoherent y.tlb_unit known s.ptes s.tlb.entries c pte lo small local)

  store_page-Coheres :
      (i : ℕ) (s : Pool) → pte_of s i < page_count → Coheres s → Coheres (store_page y i s).1
  unfolding store_page
  store_page-Coheres i s small c =
      set_entry-Coheres (pte_of s i) (bit_and (s.ptes (pte_of s i)).pte_entry_lo valid_off) s small
        (omega (
          arith,
          digit-bit_and 8 (s.ptes (pte_of s i)).pte_entry_lo valid_off,
          c.local_pages (pte_of s i) small,
        ))
        c

  map_page-Coheres :
      (pte i : ℕ) (s : Pool) → pte < page_count → Coheres s → Coheres (map_page y pte i s)
  unfolding map_page
  map_page-Coheres pte i s small c =
      let lo = (s.ptes pte).pte_entry_lo in
      let kept_bits = bit_and lo y.entry_lo_no_pfn in
      set_entry-Coheres pte (bit_or (bit_or kept_bits (frame_address y i)) valid_on) _ small
        (omega (
          arith,
          digit-bit_or 8 (bit_or kept_bits (frame_address y i)) valid_on,
          digit-bit_or 8 kept_bits (frame_address y i),
          digit-bit_and 8 lo y.entry_lo_no_pfn,
          c.local_pages pte small,
          address-local i,
          valid_on-local,
        ))
        c

  load_page-Coheres :
      (pte i : ℕ) (s : Pool) → pte < page_count → Coheres s → Coheres (load_page y pte i s).1
  unfolding load_page
  load_page-Coheres pte i s small c =
      let hi = (s.ptes pte).pte_entry_hi in
      let request =
        read_page (y.entry_hi_asid hi) (get_page_index (get_vpn y hi)) (frame_address y i) in
      let read = record s { log = request ∷ s.log } in
      if_either (λ (r : Bool × Pool). Coheres r.1) (y.completes request)
        (true, map_page y pte i read) (false, read) (λ _. map_page-Coheres pte i read small c)
        (λ _. c)

  with_frame-Coheres :
      (pte : ℕ) (s : Pool)
      → s.to_swap_frame_index < pool_size
      → IsMapped s
      → Coheres s
      → Coheres (with_frame y pte s).1
  unfolding with_frame get_frame
  with_frame-Coheres pte s start mapped c =
      if_either (λ (r : Bool × Pool). Coheres r.1) (is_free_frame s (get_frame s).0)
        (true, (get_frame s).1) (store_page y (get_frame s).0 (get_frame s).1) (λ _. c)
        (λ taken.
          store_page-Coheres (get_frame s).0 (get_frame s).1
            (mapped (get_frame s).0 (get_frame-lt s start).0 taken) c)

  -- Take the processor's probe of the TLB as documented, a frame pool that starts at a page, a
  -- missing page of the page tables, a next frame in the pool and frames that hold pages of the
  -- page tables: if the pages have different `entryHI`, no page is in two slots of the TLB, no
  -- entry has the bit G, and each page in the TLB has there the `entryLO` of its page table, all
  -- this is so after the handler of an invalid page, also where a request to a flash device
  -- fails.
  pub swap_in-Coheres :
      (pte : ℕ) (s : Pool)
      → pte < page_count
      → s.to_swap_frame_index < pool_size
      → IsMapped s
      → Coheres s
      → Coheres (swap_in y pte s).1
  unfolding swap_in with_frame
  swap_in-Coheres pte s small start mapped c =
      let before = with_frame-Coheres pte s start mapped c in
      if_either (λ (r : Bool × Pool). Coheres r.1) (with_frame y pte s).0
        (load_page y pte (get_frame s).0 (with_frame y pte s).1) (false, (with_frame y pte s).1)
        (λ _. load_page-Coheres pte (get_frame s).0 (with_frame y pte s).1 small before)
        (λ _. before)

-- A refill puts the entry of the page's table into a slot of the TLB, and leaves no stale entry, if
-- the page was not in the TLB.
pub tlb_refill-Coheres :
    (y : Layout) (slot table hi : ℕ) (s : Pool)
    → slot < tlb_size
    → let p = table + get_page_index (get_vpn y hi) in
      p < page_count
      → ((i : ℕ) → i < tlb_size → (s.tlb.entries i).pte_entry_hi ≢ (s.ptes p).pte_entry_hi)
      → Coheres s
      → Coheres (tlb_refill y slot table hi s)
unfolding tlb_refill tlb_write_random
tlb_refill-Coheres y slot table hi s few small missed c =
    let p = table + get_page_index (get_vpn y hi) in
    record {
      pages = c.pages;
      once = λ i j q si sj sq mi mj. ground (arith, c.once i j q, c.pages p q, missed i, missed j);
      agree = λ i q si sq m. ground (arith, c.agree i q, c.pages p q);
      local_pages = c.local_pages;
      local_slots = λ i si. ground (arith, c.local_slots i, c.local_pages p);
    }

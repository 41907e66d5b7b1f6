-- ===== src/Tlb.antt =====
-- phase3/vmSupport.c: `_updateTLB`, on the translation buffer of the processor and the registers of
-- the coprocessor by which it is read and written.
pub mod Bits
pub mod Tests
use Prim.Native.Nat.{bit_and}
use pandos_plus.Base.{ℕ, ◌≡◌, ◌≢◌, ◌<◌, ◌⊎◌, ◌==◌, if◌then◌else◌, update}
use pandos_plus.Tlb.Bits.{digit}
use pandos_plus.Machine.{PteEntry}

abbrev pub tlb_size : ℕ
tlb_size = 16

abbrev pub index_p_bit_mask : ℕ
index_p_bit_mask = 0x8000_0000

-- The instruction TLBP gives the index register from the entries and the register `entryHI`; TLBWI
-- writes the slot that the index register names.
pub record TlbUnit : Type 0 where
  pub probe : (ℕ → PteEntry) → ℕ → ℕ
  pub slot : ℕ → ℕ

pub record Tlb : Type 0 where
  pub entries : ℕ → PteEntry
  pub cp0_entry_hi : ℕ
  pub cp0_entry_lo : ℕ
  pub cp0_index : ℕ

module _ (unit : TlbUnit) where
  -- setENTRYHI, TLBP
  pub tlb_probe : ℕ → Tlb → Tlb
  tlb_probe hi t = record t { cp0_entry_hi = hi; cp0_index = unit.probe t.entries hi }

  -- setENTRYHI, setENTRYLO, TLBWI
  pub tlb_write : PteEntry → Tlb → Tlb
  tlb_write entry t = record t {
    cp0_entry_hi = entry.pte_entry_hi;
    cp0_entry_lo = entry.pte_entry_lo;
    entries = update t.entries (unit.slot t.cp0_index) entry;
  }

  unfoldable pub update_tlb : PteEntry → Tlb → Tlb
  unfolding tlb_probe tlb_write
  update_tlb entry t =
      let probed = tlb_probe entry.pte_entry_hi t in
      if bit_and probed.cp0_index index_p_bit_mask == 0 then tlb_write entry probed else probed

-- setENTRYHI, setENTRYLO, TLBWR: the processor chooses the slot.
unfoldable pub tlb_write_random : ℕ → PteEntry → Tlb → Tlb
tlb_write_random slot entry t = record t {
  cp0_entry_hi = entry.pte_entry_hi;
  cp0_entry_lo = entry.pte_entry_lo;
  entries = update t.entries slot entry;
}

-- The bit G of an `entryLO`: the entry matches in every address space.
abbrev pub is_global : ℕ → ℕ
is_global entry_lo = digit 8 entry_lo

-- What the processor documents: the bit P of the index register says that no entry matches, and
-- otherwise the register names one that does: it has the page and the address space of `entryHI`, or
-- the bit G. The entries of page tables have 0 in the bits of `entryHI` that do not take part in a
-- match.
pub record Probes (unit : TlbUnit) : Type 0 where
  pub found :
      (entries : ℕ → PteEntry) (hi : ℕ)
      → bit_and (unit.probe entries hi) index_p_bit_mask ≡ 0
      → let entry = entries (unit.slot (unit.probe entries hi)) in
        (entry.pte_entry_hi ≡ hi) ⊎ (is_global entry.pte_entry_lo ≡ 1)
  pub in_range : (entries : ℕ → PteEntry) (hi : ℕ) → unit.slot (unit.probe entries hi) < tlb_size
  pub missing :
      (entries : ℕ → PteEntry) (hi : ℕ) (i : ℕ)
      → bit_and (unit.probe entries hi) index_p_bit_mask ≢ 0
      → i < tlb_size
      → (entries i).pte_entry_hi ≢ hi

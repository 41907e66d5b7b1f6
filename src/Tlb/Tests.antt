-- ===== src/Tlb/Tests.antt =====
-- A translation buffer whose probe searches the slots from the last one on.
use Prim.Native.Nat.{bit_and}
use pandos_plus.Base.{
  ℕ, zero, suc, ◌%◌, ◌+◌, ◌<◌, ◌≤◌, ◌≡◌, ◌≢◌, ◌==◌, ==_iff, if◌then◌else◌, inl, arith, refl,
  Bool-cases, inl, inr,
}
use pandos_plus.Machine.{PteEntry}
use pandos_plus.Tlb.{TlbUnit, Probes, index_p_bit_mask, tlb_size}

abbrev pub last_match : ℕ → ℕ → (ℕ → PteEntry) → ℕ
last_match zero hi entries = index_p_bit_mask
last_match (suc i) hi entries =
    if (entries i).pte_entry_hi == hi then i else last_match i hi entries

abbrev pub scan_tlb : TlbUnit
scan_tlb = record {
  probe = λ entries hi. last_match tlb_size hi entries;
  slot = λ index. index % tlb_size;
}

-- the sum of the P bits of the slots below `count`
p_bits : ℕ → ℕ
p_bits zero = 0
p_bits (suc slot) = p_bits slot + bit_and slot index_p_bit_mask

p_bits_bound : (count slot : ℕ) → slot < count → bit_and slot index_p_bit_mask ≤ p_bits count
unfolding p_bits
p_bits_bound zero slot few = elim few [ ]
p_bits_bound (suc last) slot few = elim (Bool-cases (slot == last)) [
  | inl here ↦ ground arith
  | inr before ↦ ground (arith, p_bits_bound last slot)
]

no_p_bits : p_bits 16 ≡ 0
unfolding p_bits
no_p_bits = refl

no_p_bit : (i : ℕ) → i < 16 → bit_and i index_p_bit_mask ≡ 0
no_p_bit i few = omega (arith, no_p_bits, p_bits_bound 16 i few)

last_match_found :
    (n hi : ℕ) (entries : ℕ → PteEntry)
    → n < 17
    → bit_and (last_match n hi entries) index_p_bit_mask ≡ 0
    → (entries (last_match n hi entries % tlb_size)).pte_entry_hi ≡ hi
last_match_found zero hi entries few h = absurd (omega (arith, h))
last_match_found (suc i) hi entries few h = elim (Bool-cases ((entries i).pte_entry_hi == hi)) [
  | inl e ↦
      let here : i % tlb_size ≡ i = omega arith in
      rw (e, here) ((==_iff (entries i).pte_entry_hi hi).0 e)
  | inr e ↦ rw e (last_match_found i hi entries (omega arith) (rw e at h))
]

last_match_missing :
    (n hi : ℕ) (entries : ℕ → PteEntry) (i : ℕ)
    → n < 17
    → bit_and (last_match n hi entries) index_p_bit_mask ≢ 0
    → i < n
    → (entries i).pte_entry_hi ≢ hi
last_match_missing zero hi entries i few h lt = absurd (omega arith)
last_match_missing (suc j) hi entries i few h lt =
    elim (Bool-cases ((entries j).pte_entry_hi == hi)) [
      | inl e ↦ absurd (rw e at h (no_p_bit j (omega arith)))
      | inr e ↦ ground (arith, last_match_missing j hi entries i (omega arith) (rw e at h))
    ]

pub scan_tlb-Probes : Probes scan_tlb
scan_tlb-Probes = record {
  found = λ entries hi h. inl (last_match_found 16 hi entries (omega arith) h);
  in_range = λ entries hi. omega arith;
  missing = λ entries hi i h few. last_match_missing 16 hi entries i (omega arith) h few;
}

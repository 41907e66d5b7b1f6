-- ===== src/Machine.antt =====
-- The processor's state area and the records of lib/pandos_types.h that hold no list.
-- `state_t` belongs to the emulator's headers: its registers that the kernel reads or writes are
-- fields here. Words and addresses are numbers below 2 ^ 32, and `null` is the NULL of lib/listx.h.
use pandos_plus.Base.{ℕ, ◌^◌}

abbrev pub word_mod : ℕ
word_mod = 2 ^ 32

abbrev pub null : ℕ
null = 0xffff_ffff

pub record State : Type 0 where
  pub entry_hi : ℕ
  pub cause : ℕ
  pub status : ℕ
  pub pc_epc : ℕ
  pub reg_v0 : ℕ
  pub reg_a0 : ℕ
  pub reg_a1 : ℕ
  pub reg_a2 : ℕ
  pub reg_a3 : ℕ
  pub reg_sp : ℕ
  pub reg_t9 : ℕ

-- `context_t`
pub record Context : Type 0 where
  pub stack_ptr : ℕ
  pub status : ℕ
  pub pc : ℕ

-- `pteEntry_t`
pub record PteEntry : Type 0 where
  pub pte_entry_hi : ℕ
  pub pte_entry_lo : ℕ

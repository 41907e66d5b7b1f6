-- ===== src/Platform.antt =====
-- What the emulator's headers and the linker fix: the device register area, the interrupt lines,
-- the exception code of a cause word, and the addresses of the kernel's semaphores and handlers.
use pandos_plus.Base.{ℕ, ◌+◌, ◌*◌, ◌≡◌, ◌<◌}

pub record Platform : Type 0 where
  -- umps3/umps/arch.h
  pub dev_reg_start : ℕ
  pub dev_reg_size : ℕ
  pub il_disk : ℕ
  pub il_flash : ℕ
  pub il_ethernet : ℕ
  pub il_printer : ℕ
  pub il_terminal : ℕ
  pub n_dev_per_il : ℕ
  pub interrupt_dev : ℕ → ℕ
  pub dev_reg_addr : ℕ → ℕ → ℕ
  pub ack : ℕ
  -- umps3/umps/cp0.h
  pub exc_code : ℕ → ℕ
  pub cause_ip_mask : ℕ
  -- addresses that the linker chooses
  pub semaphore_it : ℕ
  pub semaphore_devices : ℕ
  pub test : ℕ
  pub tlb_refill_handler_addr : ℕ
  pub exception_handler_addr : ℕ
  -- the addresses of the four fields of `passupvector_t`, in the order of the source
  pub pass_up_field : ℕ → ℕ

-- The values that the emulator documents, and an array of 48 words that lies below 2 ^ 32.
pub record IsUmps3 (pf : Platform) : Type 0 where
  pub start : pf.dev_reg_start ≡ 0x1000_0054
  pub size : pf.dev_reg_size ≡ 0x10
  pub fits : pf.semaphore_devices + 4 * 48 < 0xffff_ffff

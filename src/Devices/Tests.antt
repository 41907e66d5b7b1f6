-- ===== src/Devices/Tests.antt =====
-- The emulator's constants, and the semaphores of devices by them.
use pandos_plus.Base.{ℕ, ◌+◌, ◌*◌, ◌%◌, ◌/◌, ◌-◌, refl, arith}
use pandos_plus.Platform.{Platform, IsUmps3}

-- uMPS3, with the semaphores of the kernel at the given addresses
abbrev pub umps3_at : ℕ → ℕ → Platform
umps3_at timer devices = record {
  dev_reg_start = 0x1000_0054;
  dev_reg_size = 0x10;
  il_disk = 3;
  il_flash = 4;
  il_ethernet = 5;
  il_printer = 6;
  il_terminal = 7;
  n_dev_per_il = 8;
  interrupt_dev = λ line. 0x1000_0040 + 4 * line;
  dev_reg_addr = λ line device. 0x1000_0054 + 0x80 * (line - 3) + 0x10 * device;
  ack = 1;
  exc_code = λ cause. cause / 4 % 32;
  cause_ip_mask = 0xff00;
  semaphore_it = timer;
  semaphore_devices = devices;
  test = 0x2000_1000;
  tlb_refill_handler_addr = 0x2000_2000;
  exception_handler_addr = 0x2000_3000;
  pass_up_field = λ i. 0x0fff_f900 + 4 * i;
}

umps3_at-IsUmps3 : IsUmps3 (umps3_at 96 200)
umps3_at-IsUmps3 = record { start = refl; size = refl; fits = omega arith }

-- ===== src/Devices/Semaphores.antt =====
-- `getIODeviceSemaphore` gives each device its own semaphore, inside `semaphore_devices`.
use pandos_plus.Base.{ℕ, ◌+◌, ◌*◌, ◌≡◌, ◌<◌, arith}
use pandos_plus.Platform.{Platform, IsUmps3}
use pandos_plus.Devices.{device_index}

-- The register of device `d` on line `3 + l`, by the emulator's layout.
abbrev pub register : ℕ → ℕ → ℕ
register l d = 0x1000_0054 + 0x80 * l + 0x10 * d

module _ (pf : Platform) (u : IsUmps3 pf) (d : ℕ) (small : d < 8) where
  -- A device that is no terminal: its command field is the second word of its register.
  pub index_of_device : (l : ℕ) → l < 4 → device_index pf (register l d + 0x4) ≡ 8 * l + d
  unfolding device_index
  index_of_device l few = ground (arith, u.start, u.size)

  pub index_of_terminal :
      (device_index pf (register 4 d + 0x4) ≡ 32 + d)
      × (device_index pf (register 4 d + 0xc) ≡ 40 + d)
  unfolding device_index
  index_of_terminal = ground (arith, u.start, u.size)

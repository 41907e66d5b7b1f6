-- ===== src/Utilities.antt =====
-- lib/utilities.c: `memcpy` over the bytes of memory.
pub mod Copy
use pandos_plus.Base.{ℕ, zero, suc, ◌+◌, update}

-- The loop over the first `n` bytes, from byte 0 on.
pub memcpy : ℕ → ℕ → ℕ → (ℕ → ℕ) → ℕ → ℕ
memcpy dest src zero mem = mem
memcpy dest src (suc i) mem =
    let mem' = memcpy dest src i mem in update mem' (dest + i) (mem' (src + i))

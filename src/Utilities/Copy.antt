-- ===== src/Utilities/Copy.antt =====
-- What `memcpy` of lib/utilities.c copies.
use pandos_plus.Base.{
  ℕ, zero, suc, ◌+◌, ◌-◌, ◌≤◌, ◌≡◌, ◌⊎◌, ltb, leb, ◌&&◌, if◌then◌else◌, arith, ap,
}
use pandos_plus.Utilities.{memcpy}

-- If the destination starts at or below the source, or at or behind its end, the destination holds
-- the bytes that the source held, and every other byte is as it was.
pub memcpy_lem :
    (dest src n : ℕ) (mem : ℕ → ℕ) (a : ℕ)
    → (dest ≤ src) ⊎ (src + n ≤ dest)
    → memcpy dest src n mem a
      ≡ (if leb dest a && ltb a (dest + n) then mem (src + (a - dest)) else mem a)
unfolding memcpy
memcpy_lem dest src zero mem a apart = ground arith
memcpy_lem dest src (suc i) mem a apart =
    let source : memcpy dest src i mem (src + i) ≡ mem (src + i) =
      ground (arith, memcpy_lem dest src i mem (src + i)) in
    let here : dest + i ≡ a → src + (a - dest) ≡ src + i = λ e. omega arith in
    ground (arith, memcpy_lem dest src i mem a, source, here, λ (e : dest + i ≡ a). ap mem (here e))

-- ===== src/Tlb/Bits.antt =====
-- The binary digits of words, and of `&` and `|`.
use Prim.Native.Nat.{
  ℕ, zero, suc, ◌/◌, ◌%◌, ◌≤◌, ◌<◌, min, max, bit_and, bit_or, digits, bit_and-bitwise,
  bit_or-bitwise,
}
use pandos_plus.Base.{◌≡◌, ◌∙◌, sym, refl, ap, arith}

-- the digit at place `i`, the lowest at 0
unfoldable pub digit : ℕ → ℕ → ℕ
digit zero a = a % 2
digit (suc i) a = digit i (a / 2)

digit-zero : (i : ℕ) → digit i 0 ≡ 0
unfolding digit
digit-zero zero = refl
digit-zero (suc i) = digit-zero i

digit-lt : (i a : ℕ) → digit i a < 2
unfolding digit
digit-lt zero a = omega arith
digit-lt (suc i) a = digit-lt i (a / 2)

-- An operation on digits, `f`, with `z` where the first number has run out.
module _ (z : ℕ → ℕ) (f : ℕ → ℕ → ℕ) (small : (x y : ℕ) → x < 2 → y < 2 → f x y < 2)
    (rest : (i b : ℕ) → digit i (z b) ≡ f 0 (digit i b)) where
  digit-digits : (i n a b : ℕ) → a ≤ n → digit i (digits z f n a b) ≡ f (digit i a) (digit i b)
  unfolding digit
  digit-digits i zero zero b few = rest i b ∙ ap (λ x. f x (digit i b)) (sym (digit-zero i))
  digit-digits i zero (suc a) b few = absurd (omega arith)
  digit-digits i (suc n) zero b few = rest i b ∙ ap (λ x. f x (digit i b)) (sym (digit-zero i))
  digit-digits zero (suc n) (suc a) b few =
      omega (arith, small (suc a % 2) (b % 2) (omega arith) (omega arith))
  digit-digits (suc i) (suc n) (suc a) b few =
      ap (digit i) (omega (arith, small (suc a % 2) (b % 2) (omega arith) (omega arith)))
      ∙ digit-digits i n (suc a / 2) (b / 2) (omega arith)

-- A digit of `a & b` is 1 only if both are.
pub digit-bit_and : (i a b : ℕ) → digit i (bit_and a b) ≡ min (digit i a) (digit i b)
digit-bit_and i a b =
    ap (digit i) (bit_and-bitwise a b)
    ∙ digit-digits (λ y. zero) min (λ x y sx sy. omega arith) (λ j y. omega (arith, digit-zero j)) i
        a a b (omega arith)

-- A digit of `a | b` is 0 only if both are.
pub digit-bit_or : (i a b : ℕ) → digit i (bit_or a b) ≡ max (digit i a) (digit i b)
digit-bit_or i a b =
    ap (digit i) (bit_or-bitwise a b)
    ∙ digit-digits (λ y. y) max (λ x y sx sy. omega arith) (λ j y. omega arith) i a a b
        (omega arith)

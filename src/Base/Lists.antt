-- ===== src/Base/Lists.antt =====
-- Lists of native numbers: membership by a test, how often a number occurs, and removal.
use Prim.Native.Nat.{ℕ, zero, suc, ◌+◌, ◌-◌, ◌<◌, ◌≤◌}
use mathlib.Core.Path.{◌≡◌, refl}
use mathlib.Core.Logic.{◌⊎◌, inl, inr}
use mathlib.Core.Bool.{Bool, true, false, ◌||◌}
use mathlib.Core.Option.{Option, none, some}
use mathlib.Core.List.{List, [], ◌∷◌, ◌++◌, reverse, reverse_aux}
use native.Mathlib.Omega.{arith}
use pandos_plus.Base.Tests.{◌==◌, if◌then◌else◌, ltb}

module _ {ℓ} {A : Type ℓ} where
  abbrev pub length : List A → ℕ
  length [] = 0
  length (x ∷ xs) = suc (length xs)

  abbrev pub is_empty : List A → Bool
  is_empty [] = true
  is_empty (x ∷ xs) = false

  abbrev pub get_last? : List A → Option A
  get_last? [] = none
  get_last? (x ∷ []) = some x
  get_last? (x ∷ y ∷ xs) = get_last? (y ∷ xs)

abbrev pub has : ℕ → List ℕ → Bool
has a [] = false
has a (x ∷ xs) = (a == x) || has a xs

abbrev pub count : ℕ → List ℕ → ℕ
count a [] = 0
count a (x ∷ xs) = (if a == x then 1 else 0) + count a xs

-- The first occurrence goes.
abbrev pub erase : ℕ → List ℕ → List ℕ
erase a [] = []
erase a (x ∷ xs) = if a == x then xs else x ∷ erase a xs

-- lo, lo + 1, …: `n` numbers.
abbrev pub range : ℕ → ℕ → List ℕ
range lo zero = []
range lo (suc n) = lo ∷ range (suc lo) n

pub count-append : (p : ℕ) (q rest : List ℕ) → count p (q ++ rest) ≡ count p q + count p rest
count-append p [] rest = omega arith
count-append p (first ∷ q) rest = ground (arith, count-append p q rest)

pub count-reverse_aux :
    (a : ℕ) (xs ys : List ℕ) → count a (reverse_aux xs ys) ≡ count a xs + count a ys
count-reverse_aux a [] ys = omega arith
count-reverse_aux a (x ∷ xs) ys = omega (arith, count-reverse_aux a xs (x ∷ ys))

pub count-reverse : (a : ℕ) (xs : List ℕ) → count a (reverse xs) ≡ count a xs
count-reverse a xs = omega (arith, count-reverse_aux a xs [])

pub length-append {ℓ} : {A : Type ℓ} (xs ys : List A) → length (xs ++ ys) ≡ length xs + length ys
length-append [] ys = omega arith
length-append (x ∷ xs) ys = omega (arith, length-append xs ys)

pub length-reverse_aux {ℓ} :
    {A : Type ℓ} (xs ys : List A) → length (reverse_aux xs ys) ≡ length xs + length ys
length-reverse_aux [] ys = omega arith
length-reverse_aux (x ∷ xs) ys = omega (arith, length-reverse_aux xs (x ∷ ys))

pub length-reverse {ℓ} : {A : Type ℓ} (xs : List A) → length (reverse xs) ≡ length xs
length-reverse xs = omega (arith, length-reverse_aux xs [])

pub has_iff-count : (a : ℕ) (xs : List ℕ) → has a xs ≡ ltb 0 (count a xs)
has_iff-count a [] = refl
has_iff-count a (x ∷ xs) = ground (arith, has_iff-count a xs)

pub count-erase :
    (a b : ℕ) (xs : List ℕ) → count a (erase b xs) ≡ count a xs - (if a == b then 1 else 0)
count-erase a b [] = omega arith
count-erase a b (x ∷ xs) = ground (arith, count-erase a b xs)

pub length-erase : (b : ℕ) (xs : List ℕ) → 0 < count b xs → suc (length (erase b xs)) ≡ length xs
length-erase b [] h = absurd (omega arith)
length-erase b (x ∷ xs) h = ground (arith, length-erase b xs)

pub erase_of_not_has : (b : ℕ) (xs : List ℕ) → has b xs ≡ false → erase b xs ≡ xs
erase_of_not_has b [] h = refl
erase_of_not_has b (x ∷ xs) h = ground (arith, erase_of_not_has b xs)

pub count-range :
    (a lo n : ℕ) → count a (range lo n) ≡ (if ltb a lo then 0 else if ltb a (lo + n) then 1 else 0)
count-range a lo zero = ground arith
count-range a lo (suc n) = ground (arith, count-range a (suc lo) n)

-- What a list holds differs from what it does not hold.
pub ne_of_has :
    (a : ℕ) (xs : List ℕ) → has a xs ≡ false → (b : ℕ) → has b xs ≡ true → (a == b) ≡ false
ne_of_has a [] h b m = cc
ne_of_has a (x ∷ xs) h b m = ground (arith, ne_of_has a xs)

pub has-append : (p : ℕ) (q rest : List ℕ) → has p (q ++ rest) ≡ (has p q || has p rest)
has-append p [] rest = refl
has-append p (first ∷ q) rest = ground (arith, has-append p q rest)

pub has-erase_ne : (a b : ℕ) (xs : List ℕ) → (a == b) ≡ false → has a (erase b xs) ≡ has a xs
has-erase_ne a b [] ne = refl
has-erase_ne a b (x ∷ xs) ne = ground (arith, has-erase_ne a b xs)

pub has_of_has-erase : (a b : ℕ) (xs : List ℕ) → has a (erase b xs) ≡ true → has a xs ≡ true
has_of_has-erase a b [] h = h
has_of_has-erase a b (x ∷ xs) h = ground (arith, has_of_has-erase a b xs)

-- What stands in one list as often as in the other at most, makes a list as long at most.
pub length-le : (xs ys : List ℕ) → ((q : ℕ) → count q xs ≤ count q ys) → length xs ≤ length ys
length-le [] ys fewer = omega arith
length-le (x ∷ xs) ys fewer =
    let shorter =
      length-le xs (erase x ys) λ q. ground (arith, fewer q, fewer x, count-erase q x ys) in
    ground (arith, fewer x, shorter, length-erase x ys)

pub list_cases {ℓ} :
    {A : Type ℓ} (xs : List A) → (xs ≡ []) ⊎ ((x : A) × (rest : List A) × (xs ≡ x ∷ rest))
list_cases [] = inl refl
list_cases (x ∷ rest) = inr (x, rest, refl)

-- ===== src/Base/Predicates.antt =====
-- Predicates on every element, and lists each of whose elements is related to all behind it.
use Prim.Native.Nat.{ℕ}
use mathlib.Core.Path.{◌≡◌}
use mathlib.Core.Bool.{true}
use native.Mathlib.Omega.{arith}
use mathlib.Core.List.{List, [], ◌∷◌, ◌++◌, reverse, reverse_aux}
use pandos_plus.Base.Tests.{◌==◌, Bool-cases, ==_iff}
use mathlib.Core.Logic.{inl, inr}
use pandos_plus.Base.Lists.{has, erase}

abbrev pub All {ℓ κ} : {A : Type ℓ} → (A → Type κ) → List A → Type κ
All P [] = Unit
All P (x ∷ xs) = P x × All P xs

abbrev pub Ordered {ℓ κ} : {A : Type ℓ} → (A → A → Type κ) → List A → Type κ
Ordered R [] = Unit
Ordered R (first ∷ rest) = All (R first) rest × Ordered R rest

module _ {ℓ κ} {A : Type ℓ} where
  pub All-map : (P Q : A → Type κ) (xs : List A) → ((x : A) → P x → Q x) → All P xs → All Q xs
  All-map P Q [] f h = tt
  All-map P Q (x ∷ xs) f h = (f x h.0, All-map P Q xs f h.1)

  pub All-append : (P : A → Type κ) (q r : List A) → All P q → All P r → All P (q ++ r)
  All-append P [] r front back = back
  All-append P (first ∷ q) r front back = (front.0, All-append P q r front.1 back)

  pub All-reverse_aux :
      (P : A → Type κ) (xs ys : List A) → All P xs → All P ys → All P (reverse_aux xs ys)
  All-reverse_aux P [] ys hx hy = hy
  All-reverse_aux P (x ∷ xs) ys hx hy = All-reverse_aux P xs (x ∷ ys) hx.1 (hx.0, hy)

  pub All-reverse : (P : A → Type κ) (xs : List A) → All P xs → All P (reverse xs)
  All-reverse P xs h = All-reverse_aux P xs [] h tt

  All-both : (P Q : A → Type κ) (xs : List A) → All P xs → All Q xs → All (λ x. P x × Q x) xs
  All-both P Q [] h k = tt
  All-both P Q (x ∷ xs) h k = ((h.0, k.0), All-both P Q xs h.1 k.1)

  All-nil : (Q : A → A → Type κ) (xs : List A) → All (λ x. All (Q x) []) xs
  All-nil Q [] = tt
  All-nil Q (x ∷ xs) = (tt, All-nil Q xs)

  Ordered-reverse_aux :
      (R : A → A → Type κ) (xs ys : List A)
      → Ordered R xs
      → Ordered (λ a b. R b a) ys
      → All (λ x. All (λ y. R y x) ys) xs
      → Ordered (λ a b. R b a) (reverse_aux xs ys)
  Ordered-reverse_aux R [] ys hx hy h = hy
  Ordered-reverse_aux R (x ∷ xs) ys hx hy h =
      Ordered-reverse_aux R xs (x ∷ ys) hx.1 (h.0, hy)
        (All-both (R x) (λ x'. All (λ y. R y x') ys) xs hx.0 h.1)

  -- Reversal turns the relation round.
  pub Ordered-reverse :
      (R : A → A → Type κ) (xs : List A) → Ordered R xs → Ordered (λ a b. R b a) (reverse xs)
  Ordered-reverse R xs h = Ordered-reverse_aux R xs [] h tt (All-nil (λ x y. R y x) xs)

  pub Ordered-map :
      (R S : A → A → Type κ) (xs : List A)
      → ((x y : A) → R x y → S x y)
      → Ordered R xs
      → Ordered S xs
  Ordered-map R S [] f h = tt
  Ordered-map R S (x ∷ xs) f h = (All-map (R x) (S x) xs (f x) h.0, Ordered-map R S xs f h.1)

pub All-has {κ} : (P : ℕ → Type κ) (a : ℕ) (xs : List ℕ) → has a xs ≡ true → All P xs → P a
All-has P a [] h p = cc
All-has P a (x ∷ xs) h p = elim (Bool-cases (a == x)) [
  | inl e ↦ rw ((==_iff a x).0 e) p.0
  | inr e ↦ All-has P a xs (rw e at h) p.1
]

-- The implication is needed at the elements of the list only.
pub All-map_has {κ μ} :
    (P : ℕ → Type κ) (Q : ℕ → Type μ) (xs : List ℕ)
    → ((x : ℕ) → has x xs ≡ true → P x → Q x)
    → All P xs
    → All Q xs
All-map_has P Q [] f h = tt
All-map_has P Q (x ∷ xs) f h =
    (f x (ground arith) h.0, All-map_has P Q xs (λ y m. f y (ground arith)) h.1)

pub Ordered-map_has {κ μ} :
    (R : ℕ → ℕ → Type κ) (S : ℕ → ℕ → Type μ) (xs : List ℕ)
    → ((x y : ℕ) → has x xs ≡ true → has y xs ≡ true → R x y → S x y)
    → Ordered R xs
    → Ordered S xs
Ordered-map_has R S [] f h = tt
Ordered-map_has R S (x ∷ xs) f h = (
  All-map_has (R x) (S x) xs (λ y m. f x y (ground arith) (ground arith)) h.0,
  Ordered-map_has R S xs (λ y z m n. f y z (ground arith) (ground arith)) h.1,
)

pub All-of_has {κ} : (P : ℕ → Type κ) (xs : List ℕ) → ((x : ℕ) → has x xs ≡ true → P x) → All P xs
All-of_has P [] f = tt
All-of_has P (x ∷ xs) f = (f x (ground arith), All-of_has P xs λ y m. f y (ground arith))

pub All-erase {κ} : (P : ℕ → Type κ) (a : ℕ) (xs : List ℕ) → All P xs → All P (erase a xs)
All-erase P a [] p = tt
All-erase P a (x ∷ xs) p = elim (Bool-cases (a == x)) [
  | inl e ↦ rw e p.1
  | inr e ↦ rw e (p.0, All-erase P a xs p.1)
]

pub Ordered-erase {κ} :
    (R : ℕ → ℕ → Type κ) (a : ℕ) (xs : List ℕ) → Ordered R xs → Ordered R (erase a xs)
Ordered-erase R a [] p = tt
Ordered-erase R a (x ∷ xs) p = elim (Bool-cases (a == x)) [
  | inl e ↦ rw e p.1
  | inr e ↦ rw e (All-erase (R x) a xs p.0, Ordered-erase R a xs p.1)
]

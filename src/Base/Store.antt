-- ===== src/Base/Store.antt =====
-- Stores as functions from an index or an address.
use Prim.Native.Nat.{ℕ}
use pandos_plus.Base.Tests.{◌==◌, if◌then◌else◌}

abbrev pub update {ℓ} : {A : Type ℓ} → (ℕ → A) → ℕ → A → ℕ → A
update f p v q = if p == q then v else f q

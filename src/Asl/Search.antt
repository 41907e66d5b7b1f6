-- ===== src/Asl/Search.antt =====
-- The sorted active semaphore list of asl.c as a finite map: what a search finds, and what it finds
-- after an insertion or a removal.
use pandos_plus.Base.{
  ℕ, refl, ◌≡◌, ◌<◌, ◌≤◌, ◌↔◌, inl, inr, true, none, some, List, [], ◌∷◌, arith, ltb, ◌==◌,
  if◌then◌else◌, has, erase, count, length, suc, ◌+◌, All, Ordered, All-has, All-map, Bool-cases,
}
use pandos_plus.Asl.{AslStore, key_of, insert_sem, scan_sems, peek_active_semaphore}

-- Keys strictly increase along the list.
abbrev pub IsSorted : AslStore → List ℕ → Type 0
IsSorted a = Ordered (λ i j. key_of a i < key_of a j)

module _ (a : AslStore) where
  pub scan_sems_sound :
      (key sem : ℕ) (xs : List ℕ)
      → scan_sems a key xs ≡ some sem
      → (has sem xs ≡ true) × (key_of a sem ≡ key)
  unfolding scan_sems
  scan_sems_sound key sem [] h = cc
  scan_sems_sound key sem (x ∷ xs) h = ground (arith, scan_sems_sound key sem xs)

  pub scan_sems_complete :
      (sem : ℕ) (xs : List ℕ)
      → IsSorted a xs
      → has sem xs ≡ true
      → scan_sems a (key_of a sem) xs ≡ some sem
  unfolding scan_sems
  scan_sems_complete sem [] o h = cc
  scan_sems_complete sem (x ∷ xs) o h = elim (Bool-cases (sem == x)) [
    | inl e ↦ ground arith
    | inr e ↦
        let later : has sem xs ≡ true = rw e at h in
        ground (arith, scan_sems_complete sem xs o.1 later, All-has _ sem xs later o.0)
  ]

  scan_sems_below :
      (key : ℕ) (xs : List ℕ) → All (λ i. key < key_of a i) xs → scan_sems a key xs ≡ none
  unfolding scan_sems
  scan_sems_below key [] h = refl
  scan_sems_below key (x ∷ xs) h = ground arith

  below_head :
      (x key : ℕ) (xs : List ℕ)
      → All (λ i. key_of a x < key_of a i) xs
      → key ≤ key_of a x
      → scan_sems a key xs ≡ none
  below_head x key xs h le = scan_sems_below key xs (All-map _ _ xs (λ i k. omega arith) h)

  -- An inserted descriptor is found under its key, and hides no other.
  pub scan-insert_sem :
      (new key : ℕ) (xs : List ℕ)
      → scan_sems a (key_of a new) xs ≡ none
      → IsSorted a xs
      → scan_sems a key (insert_sem a new xs)
        ≡ (if key_of a new == key then some new else scan_sems a key xs)
  unfolding scan_sems insert_sem
  scan-insert_sem new key [] h o = ground arith
  scan-insert_sem new key (x ∷ xs) h o = ground (arith, scan-insert_sem new key xs)

  pub scan-erase :
      (old key : ℕ) (xs : List ℕ)
      → has old xs ≡ true
      → IsSorted a xs
      → scan_sems a key (erase old xs) ≡ (if key_of a old == key then none else scan_sems a key xs)
  unfolding scan_sems
  scan-erase old key [] h o = cc
  scan-erase old key (x ∷ xs) h o = elim (Bool-cases (old == x)) [
    | inl e ↦ ground (arith, below_head x key xs o.0)
    | inr e ↦
        let later : has old xs ≡ true = rw e at h in
        ground (
          arith,
          scan-erase old key xs later o.1,
          All-has _ old xs later o.0,
          below_head x key xs o.0,
        )
  ]

  pub count-insert_sem :
      (new i : ℕ) (xs : List ℕ)
      → count i (insert_sem a new xs) ≡ (if i == new then 1 else 0) + count i xs
  unfolding insert_sem
  count-insert_sem new i [] = refl
  count-insert_sem new i (x ∷ xs) = ground (arith, count-insert_sem new i xs)

  pub length-insert_sem : (new : ℕ) (xs : List ℕ) → length (insert_sem a new xs) ≡ suc (length xs)
  unfolding insert_sem
  length-insert_sem new [] = refl
  length-insert_sem new (x ∷ xs) = ground (arith, length-insert_sem new xs)

  All-insert_sem :
      (P : ℕ → Type 0) (new : ℕ) (xs : List ℕ) → P new → All P xs → All P (insert_sem a new xs)
  unfolding insert_sem
  All-insert_sem P new [] h k = (h, tt)
  All-insert_sem P new (x ∷ xs) h k = elim (Bool-cases (ltb (key_of a new) (key_of a x))) [
    | inl e ↦ rw e (h, k)
    | inr e ↦ rw e (k.0, All-insert_sem P new xs h k.1)
  ]

  pub IsSorted-insert_sem :
      (new : ℕ) (xs : List ℕ)
      → scan_sems a (key_of a new) xs ≡ none
      → IsSorted a xs
      → IsSorted a (insert_sem a new xs)
  unfolding insert_sem scan_sems
  IsSorted-insert_sem new [] h o = (tt, tt)
  IsSorted-insert_sem new (x ∷ xs) h o = elim (Bool-cases (ltb (key_of a new) (key_of a x))) [
    | inl e ↦
        let lt : key_of a new < key_of a x = ground arith in
        rw e ((lt, All-map _ _ xs (λ i k. omega arith) o.0), o)
    | inr e ↦ rw e (
      All-insert_sem (λ i. key_of a x < key_of a i) new xs (ground arith) o.0,
      IsSorted-insert_sem new xs (ground arith) o.1,
    )
  ]

-- A search for a key finds a descriptor exactly if it is active under that key.
pub peek_active_semaphore_iff :
    (a : AslStore) (key sem : ℕ)
    → IsSorted a a.semd_h
    → (peek_active_semaphore key a ≡ some sem) ↔ ((has sem a.semd_h ≡ true) × (key_of a sem ≡ key))
unfolding peek_active_semaphore
peek_active_semaphore_iff a key sem o =
    (scan_sems_sound a key sem a.semd_h, λ h. rw (← h.1) (scan_sems_complete a sem a.semd_h o h.0))

-- Searches agree in two stores that give the listed descriptors the same keys.
pub scan_sems-congr :
    (a b : AslStore) (key : ℕ) (xs : List ℕ)
    → ((i : ℕ) → has i xs ≡ true → key_of a i ≡ key_of b i)
    → scan_sems a key xs ≡ scan_sems b key xs
unfolding scan_sems
scan_sems-congr a b key [] h = refl
scan_sems-congr a b key (x ∷ xs) h =
    rw (h x (ground arith), scan_sems-congr a b key xs (λ i m. h i (ground arith)))

-- Two active descriptors with one key are one.
pub key_injective :
    (a : AslStore) (i j : ℕ) (xs : List ℕ)
    → IsSorted a xs
    → has i xs ≡ true
    → has j xs ≡ true
    → key_of a i ≡ key_of a j
    → i ≡ j
key_injective a i j xs o mi mj e =
    cc (scan_sems_complete a i xs o mi, scan_sems_complete a j xs o mj)

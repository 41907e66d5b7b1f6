-- ===== src/SysSupport/Release.antt =====
-- The loop of `trapExceptionHandler` of phase3/sysSupport.c that releases the devices.
use pandos_plus.Base.{
  ℕ, zero, suc, ◌<◌, ◌≡◌, ◌≢◌, true, false, ◌==◌, ltb, arith, refl, Bool-cases, inl, inr, subst,
  sym, if_either, ==_refl,
}
use pandos_plus.Swap.{no_proc}
use pandos_plus.World.{
  Shared, World, Environment, SemName, printer, terminal, swap_pool, master, done, and_then, Act,
  called, set_user, same_sem, user_v, verhogen,
}
use pandos_plus.SysSupport.{asid_of, release_if_held, release_devices}

-- The semaphore is not of the process `asid`.
abbrev pub IsFree : ℕ → Shared → SemName → Type 0
IsFree asid s sem = s.user_asid sem ≢ asid

-- neither the `i`-th printer nor the `i`-th terminal
abbrev pub BothFree : ℕ → Shared → ℕ → Type 0
BothFree asid s i = IsFree asid s (printer i) × IsFree asid s (terminal i)

abbrev pub IsFreeFrame : ℕ → Shared → ℕ → Type 0
IsFreeFrame asid s j = (s.pool.swap_pool_table j).sw_asid ≢ asid

-- What the others do while the process waits: they neither hand it a semaphore or a frame nor
-- rename it.
pub record Respects (env : Environment) (support asid : ℕ) : Type 0 where
  pub names :
      (n : ℕ) (s : Shared) → asid_of support s ≡ asid → asid_of support (env.others n s) ≡ asid
  pub sems :
      (n : ℕ) (s : Shared) (sem : SemName) → IsFree asid s sem → IsFree asid (env.others n s) sem
  pub frames :
      (n : ℕ) (s : Shared) (j : ℕ) → IsFreeFrame asid s j → IsFreeFrame asid (env.others n s) j

abbrev pub Ends : (Shared → Type 0) → Act (Unit {0}) → Type 0
Ends Q r = (w' : World) × (r ≡ done tt w') × Q w'.shared

same_sem_refl : (sem : SemName) → same_sem sem sem ≡ true
same_sem_refl (printer i) = ==_refl i
same_sem_refl (terminal i) = ==_refl i
same_sem_refl swap_pool = refl
same_sem_refl master = refl

below_suc : (P : ℕ → Type 0) (i : ℕ) → P i → ((k : ℕ) → k < i → P k) → (k : ℕ) → k < suc i → P k
below_suc P i last before k small = elim (Bool-cases (ltb k i)) [
  | inl smaller ↦ before k (ground arith)
  | inr other ↦ subst P (ground arith) last
]

module _ (env : Environment) (support asid : ℕ) (respects : Respects env support asid)
    (here : asid ≢ no_proc) where
  -- one release: the semaphore is free then, and what was free stays so
  abbrev pub Frees : SemName → Shared → Shared → Type 0
  Frees sem s s' =
      (asid_of support s' ≡ asid)
      × IsFree asid s' sem
      × ((other : SemName) → IsFree asid s other → IsFree asid s' other)

  unset_user : (sem : SemName) (s : Shared) → IsFree asid (set_user sem no_proc s) sem
  unset_user sem s = rw (same_sem_refl sem) (λ e. here (sym e))

  unset_user-keeps :
      (sem other : SemName) (s : Shared)
      → IsFree asid s other
      → IsFree asid (set_user sem no_proc s) other
  unset_user-keeps sem other s free =
      if_either (λ (user : ℕ). user ≢ asid) (same_sem sem other) no_proc (s.user_asid other)
        (λ _ e. here (sym e)) (λ _. free)

  differs : {user : ℕ} (own : ℕ) → (user == own) ≡ false → own ≡ asid → user ≢ asid
  differs own other known e = ground arith

  pub release_if_held-Frees :
      (sem : SemName) (w : World) (known : asid_of support w.shared ≡ asid)
      → Ends (Frees sem w.shared) (release_if_held env sem support w)
  unfolding release_if_held user_v
  release_if_held-Frees sem w known =
      if_either (Ends (Frees sem w.shared)) (w.shared.user_asid sem == asid_of support w.shared)
        (user_v env sem w) (done tt w)
        (λ held. (
          called env (verhogen sem) (record w { shared = set_user sem no_proc w.shared }),
          refl,
          (
            respects.names w.calls (set_user sem no_proc w.shared) known,
            respects.sems w.calls (set_user sem no_proc w.shared) sem (unset_user sem w.shared),
            λ other free.
                respects.sems w.calls (set_user sem no_proc w.shared) other
                  (unset_user-keeps sem other w.shared free),
          ),
        ))
        (λ other.
          (w, refl, (known, differs (asid_of support w.shared) other known, λ _ free. free)))

  -- The loop over the first `n` devices: those are free then, and what was free stays so.
  abbrev pub FreesDevices : ℕ → Shared → Type 0
  FreesDevices n s = (asid_of support s ≡ asid) × ((i : ℕ) → i < n → BothFree asid s i)

  both_free :
      (i : ℕ) (s1 s2 : Shared) (r : Act (Unit {0}))
      → ((k : ℕ) → k < i → BothFree asid s1 k)
      → IsFree asid s2 (printer i)
      → ((other : SemName) → IsFree asid s1 other → IsFree asid s2 other)
      → Ends (Frees (terminal i) s2) r
      → Ends (FreesDevices (suc i)) r
  both_free i s1 s2 r before free keeps (w', e, (known, last, keeps')) = (
    w',
    e,
    (
      known,
      below_suc (BothFree asid w'.shared) i (keeps' (printer i) free, last)
          (λ k small. (
            keeps' (printer k) (keeps (printer k) (before k small).0),
            keeps' (terminal k) (keeps (terminal k) (before k small).1),
          )),
    ),
  )

  then_Ends :
      (P Q : Shared → Type 0) (r : Act (Unit {0})) (f : World → Act (Unit {0}))
      → Ends P r
      → ((w' : World) → P w'.shared → Ends Q (f w'))
      → Ends Q (and_then r (λ _. f))
  then_Ends P Q r f (w', e, p) go = rw e (go w' p)

  pub release_devices-FreesDevices :
      (n : ℕ) (w : World) (known : asid_of support w.shared ≡ asid)
      → Ends (FreesDevices n) (release_devices env n support w)
  unfolding release_devices
  release_devices-FreesDevices zero w known = (w, refl, (known, λ i small. absurd (omega arith)))
  release_devices-FreesDevices (suc i) w known =
      then_Ends (FreesDevices i) (FreesDevices (suc i)) (release_devices env i support w) _
        (release_devices-FreesDevices i w known)
        (λ w1 (known1, before).
          then_Ends (Frees (printer i) w1.shared) (FreesDevices (suc i))
            (release_if_held env (printer i) support w1) _
            (release_if_held-Frees (printer i) w1 known1)
            (λ w2 (known2, free, keeps).
              both_free i w1.shared w2.shared _ before free keeps
                (release_if_held-Frees (terminal i) w2 known2)))

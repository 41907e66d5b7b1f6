-- ===== src/SysSupport/Held.antt =====
-- The semaphores that a process holds at each step of a system call of phase3/sysSupport.c, other
-- processes running at every call of the nucleus.
use pandos_plus.Base.{
  ℕ, zero, suc, ◌+◌, ◌*◌, ◌/◌, ◌%◌, ◌≡◌, ◌≢◌, ◌⊎◌, Bool, true, false, ◌==◌, if◌then◌else◌,
  Bool-cases, refl, inl, inr, sym, ◌∙◌, update, arith,
}
use pandos_plus.Machine.{State, word_mod}
use pandos_plus.Platform.{Platform}
use pandos_plus.Interrupts.{terminal_status, char_transmitted, char_received}
use pandos_plus.Swap.{no_proc}
use pandos_plus.World.{
  Shared, World, Environment, SemName, same_sem, done, exit, out_of_fuel, Act, Prog, and_then,
  called, set_user, do_io, passeren, verhogen, user_p, user_v, pure,
}
use pandos_plus.SysSupport.{
  asid_of, char_word, dev_ready, negated, print_loop, printer_write, receive_loop,
  set_processor_state, systemcall_return, terminal_read, terminal_write, transmit_loop,
}
use pandos_plus.SysSupport.Release.{IsFree, Respects}
use pandos_plus.SysSupport.Clean.{Leaves}

set_processor_state-asid :
    (support : ℕ) (state : State) (s : Shared)
    → asid_of support (set_processor_state support state s) ≡ asid_of support s
set_processor_state-asid support state s = ground arith

module _ (env : Environment) (asid : ℕ) (respects : Respects env env.support_ptr asid)
    (here : asid ≢ no_proc) where
  -- The process holds no semaphore.
  abbrev pub AllFree : Shared → Type 0
  AllFree s = (asid_of env.support_ptr s ≡ asid) × ((sem : SemName) → IsFree asid s sem)

  -- It holds at most this one.
  abbrev pub OnlyHolds : SemName → Shared → Type 0
  OnlyHolds sem s =
      (asid_of env.support_ptr s ≡ asid)
      × ((other : SemName) → same_sem sem other ≡ false → IsFree asid s other)

  -- The process is terminated with nothing left, or a loop has run out of fuel.
  abbrev pub Stops {ℓ} : {A : Type ℓ} → Act A → Type ℓ
  Stops r = Leaves asid r ⊎ ((w' : World) × (r ≡ exit out_of_fuel w'))

  abbrev pub Safe {ℓ} : {A : Type ℓ} → (Shared → Type 0) → Act A → Type ℓ
  Safe {A = A} Q r = ((a : A) × (w' : World) × (r ≡ done a w') × Q w'.shared) ⊎ Stops r

  pub then_Safe {ℓ κ} :
      {A : Type ℓ} {B : Type κ} (P Q : Shared → Type 0) (r : Act A) (f : A → Prog B)
      → Safe P r
      → ((a : A) (w' : World) → P w'.shared → Safe Q (f a w'))
      → Safe Q (and_then r f)
  then_Safe P Q r f (inl (a, w', e, p)) go = rw e (go a w' p)
  then_Safe P Q r f (inr (inl (w', e, clean))) go = rw e (inr (inl (w', refl, clean)))
  then_Safe P Q r f (inr (inr (w', e))) go = rw e (inr (inr (w', refl)))

  pub either_Safe {ℓ} :
      {A : Type ℓ} (Q : Shared → Type 0) (b : Bool) (m n : Prog A) (w : World)
      → Safe Q (m w)
      → Safe Q (n w)
      → Safe Q ((if b then m else n) w)
  either_Safe Q true m n w first second = first
  either_Safe Q false m n w first second = second

  pub others-OnlyHolds :
      (sem : SemName) (n : ℕ) (s : Shared) → OnlyHolds sem s → OnlyHolds sem (env.others n s)
  others-OnlyHolds sem n s (known, free) =
      (respects.names n s known, λ other differ. respects.sems n s other (free other differ))

  pub others-AllFree : (n : ℕ) (s : Shared) → AllFree s → AllFree (env.others n s)
  others-AllFree n s (known, free) =
      (respects.names n s known, λ sem. respects.sems n s sem (free sem))

  return-OnlyHolds :
      (sem : SemName) (ret : ℕ) (s : Shared)
      → OnlyHolds sem s
      → OnlyHolds sem (systemcall_return ret env.support_ptr s)
  return-OnlyHolds sem ret s (known, free) =
      (set_processor_state-asid env.support_ptr _ s ∙ known, free)

  pub return-AllFree :
      (state : State) (s : Shared)
      → AllFree s
      → AllFree (set_processor_state env.support_ptr state s)
  return-AllFree state s (known, free) =
      (set_processor_state-asid env.support_ptr state s ∙ known, free)

  pub user_p-Safe :
      (sem : SemName) (owner : ℕ) (w : World)
      → AllFree w.shared
      → Safe (OnlyHolds sem) (user_p env sem owner w)
  unfolding user_p
  user_p-Safe sem owner w all =
      let c = called env (passeren sem) w in
      let (known, free) = others-AllFree w.calls w.shared all in
      inl (
        tt,
        record c { shared = set_user sem owner c.shared },
        refl,
        (known, λ other differ. rw differ (free other)),
      )

  pub user_v-Safe :
      (sem : SemName) (w : World) → OnlyHolds sem w.shared → Safe AllFree (user_v env sem w)
  unfolding user_v
  user_v-Safe sem w (known, free) =
      let left = set_user sem no_proc w.shared in
      inl (
        tt,
        called env (verhogen sem) (record w { shared = left }),
        refl,
        others-AllFree w.calls left (
          known,
          λ other. elim (Bool-cases (same_sem sem other)) [
            | inl same ↦ rw same (λ e. here (sym e))
            | inr differ ↦ rw differ (free other differ)
          ],
        ),
      )

  module _ (pf : Platform) where
    pub print_loop-Safe :
        (sem : SemName) (rounds dev_reg string sent : ℕ) (w : World)
        → OnlyHolds sem w.shared
        → Safe (OnlyHolds sem) (print_loop env pf rounds dev_reg string sent env.support_ptr w)
    unfolding print_loop
    print_loop-Safe sem zero dev_reg string sent w holds = inl (sent, w, refl, holds)
    print_loop-Safe sem (suc rounds) dev_reg string sent w holds =
        let loaded = record (w.shared) {
          data0 = update w.shared.data0 (dev_reg + 0x8) (char_word (w.shared.bytes string));
        } in
        let w1 = called env (do_io (dev_reg + 0x4) printer_write) (record w { shared = loaded }) in
        let status = env.answer w.calls (do_io (dev_reg + 0x4) printer_write) in
        let holds1 = others-OnlyHolds sem w.calls loaded holds in
        elim (Bool-cases (status == dev_ready)) [
          | inl ready ↦
              rw ready (print_loop-Safe sem rounds dev_reg (string + 1) (sent + 1) w1 holds1)
          | inr failed ↦ rw failed (
              inl (
                sent,
                record w1 { shared = systemcall_return (negated status) env.support_ptr w1.shared },
                refl,
                return-OnlyHolds sem (negated status) w1.shared holds1,
              ))
        ]

    pub transmit_loop-Safe :
        (sem : SemName) (rounds dev_reg string sent : ℕ) (w : World)
        → OnlyHolds sem w.shared
        → Safe (OnlyHolds sem) (transmit_loop env pf rounds dev_reg string sent env.support_ptr w)
    unfolding transmit_loop
    transmit_loop-Safe sem zero dev_reg string sent w holds = inl (sent, w, refl, holds)
    transmit_loop-Safe sem (suc rounds) dev_reg string sent w holds =
        let call =
          do_io (dev_reg + 0xc)
            ((terminal_write + char_word (w.shared.bytes string) * 256) % word_mod) in
        let w1 = called env call w in
        let status = env.answer w.calls call in
        let holds1 = others-OnlyHolds sem w.calls w.shared holds in
        elim (Bool-cases (terminal_status status == char_transmitted)) [
          | inl ready ↦
              rw ready (transmit_loop-Safe sem rounds dev_reg (string + 1) (sent + 1) w1 holds1)
          | inr failed ↦ rw failed (
              inl (
                sent,
                record w1 { shared = systemcall_return (negated status) env.support_ptr w1.shared },
                refl,
                return-OnlyHolds sem (negated status) w1.shared holds1,
              ))
        ]

    pub receive_loop-Safe :
        (sem : SemName) (fuel dev_reg buffer received : ℕ) (w : World)
        → OnlyHolds sem w.shared
        → Safe (OnlyHolds sem) (receive_loop env pf fuel dev_reg buffer received env.support_ptr w)
    unfolding receive_loop
    receive_loop-Safe sem zero dev_reg buffer received w holds = inr (inr (w, refl))
    receive_loop-Safe sem (suc fuel) dev_reg buffer received w holds =
        let call = do_io (dev_reg + 0x4) terminal_read in
        let w1 = called env call w in
        let status = env.answer w.calls call in
        let read = status / 256 % 256 in
        let stored = record w1 {
          shared = record (w1.shared) { bytes = update w1.shared.bytes (buffer + received) read };
        } in
        let holds1 = others-OnlyHolds sem w.calls w.shared holds in
        elim (Bool-cases (terminal_status status == char_received)) [
          | inl ready ↦ rw ready (
              either_Safe (OnlyHolds sem) (read == b'\n') (pure (received + 1))
                (receive_loop env pf fuel dev_reg buffer (received + 1) env.support_ptr) stored
                (inl (received + 1, stored, refl, holds1))
                (receive_loop-Safe sem fuel dev_reg buffer (received + 1) stored holds1))
          | inr failed ↦ rw failed (
              inl (
                received,
                record w1 { shared = systemcall_return (negated status) env.support_ptr w1.shared },
                refl,
                return-OnlyHolds sem (negated status) w1.shared holds1,
              ))
        ]

-- ===== src/SysSupport/Output.antt =====
-- What the output calls of phase3/sysSupport.c return, and how far they get.
use pandos_plus.Base.{
  ℕ, zero, suc, ◌+◌, ◌≡◌, Bool, false, ◌==◌, if◌then◌else◌, arith, refl, Bool-cases, inl, inr, ap,
  ◌∙◌, update,
}
use pandos_plus.Platform.{Platform}
use pandos_plus.World.{
  World, Environment, passeren, do_io, done, Act, user_p, user_v, world_after, printer, called,
  set_user,
}
use pandos_plus.SysSupport.{
  negated, char_word, device_of, dev_ready, printer_write, is_invalid_text, processor_state,
  print_loop, write_printer, systemcall_return,
}

-- The number of calls from the `i`-th on, of `rounds`, up to the first that is not ready.
abbrev pub leading : (ℕ → Bool) → ℕ → ℕ → ℕ
leading ready i zero = 0
leading ready i (suc rounds) =
    let rest = suc (leading ready (i + 1) rounds) in if ready i then rest else 0

-- A loop that has ended with `n`.
abbrev pub Sends : ℕ → Act ℕ → Type 0
Sends n r = (w' : World) × (r ≡ done n w')

module _ (env : Environment) (pf : Platform) where
  -- whether the printer is ready after the n-th system call
  abbrev pub prints : ℕ → ℕ → Bool
  prints dev_reg n = env.answer n (do_io (dev_reg + 0x4) printer_write) == dev_ready

  -- the world with the character in the device's register
  abbrev loaded : ℕ → ℕ → World → World
  loaded dev_reg string w = record w {
    shared = record (w.shared) {
      data0 = update w.shared.data0 (dev_reg + 0x8) (char_word (w.shared.bytes string));
    };
  }

  print_loop-Sends :
      (rounds dev_reg string sent support : ℕ) (w : World)
      → Sends
          (sent + leading (prints dev_reg) w.calls rounds)
          (print_loop env pf rounds dev_reg string sent support w)
  unfolding print_loop
  print_loop-Sends zero dev_reg string sent support w = (w, ground arith)
  print_loop-Sends (suc rounds) dev_reg string sent support w =
      elim (Bool-cases (prints dev_reg w.calls)) [
        | inl ready ↦
            let (w', e) =
              print_loop-Sends rounds dev_reg (string + 1) (sent + 1) support
                (called env (do_io (dev_reg + 0x4) printer_write) (loaded dev_reg string w)) in
            rw ready (w', e ∙ ap (λ (n : ℕ). done n w') (omega arith))
        | inr failed ↦ rw failed (
          record (called env (do_io (dev_reg + 0x4) printer_write) (loaded dev_reg string w)) {
            shared =
                systemcall_return
                  (negated (env.answer w.calls (do_io (dev_reg + 0x4) printer_write))) support
                  (called env (do_io (dev_reg + 0x4) printer_write)
                    (loaded dev_reg string w)).shared;
          },
          ap (λ (n : ℕ). done n _) (omega arith),
        )
      ]

-- The word in the result register of the caller.
abbrev pub result : ℕ → World → ℕ
result support w = (processor_state support w.shared).reg_v0

abbrev pub text_of : ℕ → World → ℕ
text_of support w = (processor_state support w.shared).reg_a1

abbrev pub length_of : ℕ → World → ℕ
length_of support w = (processor_state support w.shared).reg_a2

module _ (env : Environment) (pf : Platform) (asid support : ℕ) (w : World)
    (valid : is_invalid_text (text_of support w) (length_of support w) ≡ false) where
  abbrev device : ℕ
  device = pf.dev_reg_addr 6 (device_of asid)

  -- the world with the printer's semaphore taken
  entered : World
  entered =
      let c = called env (passeren (printer (device_of asid))) w in
      record c { shared = set_user (printer (device_of asid)) asid c.shared }

  -- `_writePrinter` with a text of at most 128 characters in the user's segment returns to the caller the number of characters that were
  -- printed before the first that was not, never the status of that one.
  pub write_printer-result :
      (w' : World) × (write_printer env pf asid support w ≡ done tt w')
      × (result support w' ≡ leading (prints env pf device) (w.calls + 1) (length_of support w))
  unfolding write_printer user_p user_v entered
  write_printer-result =
      let (w1, e) =
        print_loop-Sends env pf (length_of support w) device (text_of support w) 0 support
          entered in
      (
        world_after (write_printer env pf asid support w),
        rw (valid, e) refl,
        rw (valid, e) (ground arith),
      )

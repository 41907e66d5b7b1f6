-- ===== src/SysSupport/Terminal.antt =====
-- The terminal calls of phase3/sysSupport.c: the order of the characters sent, and the end of the
-- loop that reads a line.
use pandos_plus.Base.{
  ℕ, zero, suc, ◌+◌, ◌%◌, ◌*◌, ◌≡◌, Bool, false, ◌==◌, ltb, if◌then◌else◌, arith, refl, Bool-cases,
  inl, inr, ap, subst, ◌∙◌, sym, List, [], ◌∷◌, ◌++◌,
}
use pandos_plus.Machine.{word_mod}
use pandos_plus.Platform.{Platform}
use pandos_plus.Interrupts.{terminal_status, char_transmitted}
use pandos_plus.World.{
  Shared, World, Environment, Syscall, do_io, done, Act, user_p, user_v, world_after, terminal,
  called, set_user, passeren, verhogen,
}
use pandos_plus.SysSupport.{
  negated, char_word, device_of, terminal_write, is_invalid_text, transmit_loop, write_terminal,
  systemcall_return,
}
use pandos_plus.SysSupport.Output.{result, text_of, length_of}

-- The other processes do not write the memory of this one.
abbrev pub KeepsBytes : Environment → Type 0
KeepsBytes env = (n : ℕ) (s : Shared) → (env.others n s).bytes ≡ s.bytes

-- the command that sends the character at an address
abbrev pub send_char : ℕ → (ℕ → ℕ) → ℕ → Syscall
send_char dev_reg bytes string =
    do_io (dev_reg + 0xc) ((terminal_write + char_word (bytes string) * 256) % word_mod)

-- the commands for the first `n` characters from `string` on, the last first
abbrev pub sends : ℕ → (ℕ → ℕ) → ℕ → ℕ → List Syscall
sends dev_reg bytes string zero = []
sends dev_reg bytes string (suc n) =
    send_char dev_reg bytes (string + n) ∷ sends dev_reg bytes string n

sends-suc :
    (dev_reg : ℕ) (bytes : ℕ → ℕ) (string n : ℕ) (log : List Syscall)
    → sends dev_reg bytes (string + 1) n ++ send_char dev_reg bytes string ∷ log
      ≡ sends dev_reg bytes string (suc n) ++ log
sends-suc dev_reg bytes string zero log =
    ap (λ (a : ℕ). send_char dev_reg bytes a ∷ log) (omega arith)
sends-suc dev_reg bytes string (suc n) log =
    let e : string + 1 + n ≡ string + suc n = omega arith in
    rw e (
      ap (λ (l : List Syscall). send_char dev_reg bytes (string + suc n) ∷ l)
        (sends-suc dev_reg bytes string n log))

-- of `rounds` characters, those that were tried when `sent` were sent: one more, if one failed
abbrev pub tried : ℕ → ℕ → ℕ
tried sent rounds = if ltb sent rounds then sent + 1 else sent

tried-suc : (sent rounds : ℕ) → tried (suc sent) (suc rounds) ≡ suc (tried sent rounds)
tried-suc sent rounds = ground arith

tried_zero : (rounds : ℕ) → tried 0 (suc rounds) ≡ 1
tried_zero rounds = ground arith

add_zero : (m : ℕ) → m + 0 ≡ m
add_zero m = omega arith

add_suc : (m n : ℕ) → m + 1 + n ≡ m + suc n
add_suc m n = omega arith

-- The loop has ended with `sent`, and has made these calls.
abbrev Transmits : ℕ → List Syscall → Act ℕ → Type 0
Transmits sent log r = (w' : World) × (r ≡ done sent w') × (w'.log ≡ log)

more_Transmits :
    (dev_reg : ℕ) (bytes : ℕ → ℕ) (string sent n rounds : ℕ) (log : List Syscall) (r : Act ℕ)
    → Transmits
        (sent + 1 + n)
        (sends dev_reg bytes (string + 1) (tried n rounds) ++ send_char dev_reg bytes string ∷ log)
        r
    → Transmits (sent + suc n) (sends dev_reg bytes string (tried (suc n) (suc rounds)) ++ log) r
more_Transmits dev_reg bytes string sent n rounds log r (w', e, l) = (
  w',
  e ∙ ap (λ (n : ℕ). done n w') (add_suc sent n),
  l
      ∙ sends-suc dev_reg bytes string (tried n rounds) log
      ∙ ap (λ (k : ℕ). sends dev_reg bytes string k ++ log) (sym (tried-suc n rounds)),
)

module _ (env : Environment) (pf : Platform) where
  -- whether the character at `string` is sent by the n-th system call
  abbrev pub transmits : ℕ → (ℕ → ℕ) → ℕ → ℕ → Bool
  transmits dev_reg bytes string n =
      terminal_status (env.answer n (send_char dev_reg bytes string)) == char_transmitted

  -- The number of characters sent before the first that is not, of `rounds`.
  abbrev pub sent_of : ℕ → (ℕ → ℕ) → ℕ → ℕ → ℕ → ℕ
  sent_of dev_reg bytes string n zero = 0
  sent_of dev_reg bytes string n (suc rounds) =
      let rest = suc (sent_of dev_reg bytes (string + 1) (n + 1) rounds) in
      if transmits dev_reg bytes string n then rest else 0

  -- what the loop does from the world `w` on, with the user's memory `bytes`
  abbrev Follows : ℕ → ℕ → ℕ → ℕ → ℕ → World → (ℕ → ℕ) → Type 0
  Follows rounds dev_reg string sent support w bytes =
      Transmits (sent + sent_of dev_reg bytes string w.calls rounds)
        (sends dev_reg bytes string (tried (sent_of dev_reg bytes string w.calls rounds) rounds)
          ++ w.log)
        (transmit_loop env pf rounds dev_reg string sent support w)

  module _ (keeps : KeepsBytes env) where
    transmit_loop-Transmits :
        (rounds dev_reg string sent support : ℕ) (bytes : ℕ → ℕ) (w : World)
        (same : w.shared.bytes ≡ bytes)
        → Follows rounds dev_reg string sent support w bytes
    unfolding transmit_loop
    transmit_loop-Transmits zero dev_reg string sent support bytes w same = (w, ground arith, refl)
    transmit_loop-Transmits (suc rounds) dev_reg string sent support bytes w same =
        let own = w.shared.bytes in
        let next = called env (send_char dev_reg own string) w in
        subst (Follows (suc rounds) dev_reg string sent support w) same
          (elim (Bool-cases (transmits dev_reg own string w.calls)) [
            | inl ready ↦ rw ready (
                more_Transmits dev_reg own string sent
                  (sent_of dev_reg own (string + 1) (w.calls + 1) rounds) rounds w.log _
                  (transmit_loop-Transmits rounds dev_reg (string + 1) (sent + 1) support own next
                    (keeps w.calls w.shared)))
            | inr failed ↦
                let tried_one = called env (send_char dev_reg own string) w in
                rw failed (
                  record tried_one {
                    shared =
                        systemcall_return
                          (negated (env.answer w.calls (send_char dev_reg own string))) support
                          tried_one.shared;
                  },
                  ap (λ (n : ℕ). done n _) (omega arith),
                  ap (λ (a : ℕ). send_char dev_reg own a ∷ w.log) (sym (add_zero string))
                      ∙ ap (λ (k : ℕ). sends dev_reg own string k ++ w.log)
                          (sym (tried_zero rounds)),
                )
          ])

module _ (env : Environment) (pf : Platform) (keeps : KeepsBytes env) (asid support : ℕ) (w : World)
    (valid : is_invalid_text (text_of support w) (length_of support w) ≡ false) where
  abbrev device : ℕ
  device = pf.dev_reg_addr 7 (device_of asid)

  abbrev count : ℕ
  count =
      sent_of env pf device w.shared.bytes (text_of support w) (w.calls + 1) (length_of support w)

  -- the world with the terminal's semaphore taken
  entered : World
  entered =
      let c = called env (passeren (terminal (device_of asid))) w in
      record c { shared = set_user (terminal (device_of asid)) asid c.shared }

  -- `_writeTerminal` with a text of at most 128 characters in the user's segment, while the others do
  -- not write the caller's memory, gives the terminal, between P and V of its semaphore, the
  -- characters of the text in order up to the first that it does not send, and returns to the caller
  -- how many it sent, never the status of that one.
  pub write_terminal-result :
      (w' : World) × (write_terminal env pf asid support w ≡ done tt w')
      × (result support w' ≡ count)
      × (w'.log
          ≡ verhogen (terminal (device_of asid))
              ∷ sends device w.shared.bytes (text_of support w) (tried count (length_of support w))
            ++ passeren (terminal (device_of asid)) ∷ w.log)
  unfolding write_terminal user_p user_v entered
  write_terminal-result =
      let (w1, e, l) =
        transmit_loop-Transmits env pf keeps (length_of support w) device (text_of support w) 0
          support w.shared.bytes entered (keeps w.calls w.shared) in
      (
        world_after (write_terminal env pf asid support w),
        rw (valid, e) refl,
        rw (valid, e) (ground arith),
        rw (valid, e) (ap (λ (l : List Syscall). verhogen (terminal (device_of asid)) ∷ l) l),
      )

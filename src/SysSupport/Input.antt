-- ===== src/SysSupport/Input.antt =====
-- The loop of `_readTerminal` in phase3/sysSupport.c: that it ends with the line, and what it leaves
-- in memory.
use pandos_plus.Base.{
  ℕ, zero, suc, ◌+◌, ◌-◌, ◌%◌, ◌/◌, ◌<◌, ◌≡◌, Bool, true, false, ◌==◌, ltb, leb, ◌&&◌,
  if◌then◌else◌, arith, refl, ap, ◌∙◌, update,
}
use pandos_plus.Platform.{Platform}
use pandos_plus.Interrupts.{terminal_status, char_received}
use pandos_plus.Swap.{no_proc}
use pandos_plus.World.{
  Environment, World, do_io, done, Act, called, passeren, terminal, set_user, user_p, user_v,
  world_after,
}
use pandos_plus.SysSupport.{kuseg, device_of, terminal_read, receive_loop, read_terminal}
use pandos_plus.SysSupport.Output.{result, text_of}
use pandos_plus.SysSupport.Terminal.{KeepsBytes}

module _ (env : Environment) (dev_reg : ℕ) where
  -- the status that the n-th system call returns
  abbrev pub read_status : ℕ → ℕ
  read_status n = env.answer n (do_io (dev_reg + 0x4) terminal_read)

  abbrev pub char_read : ℕ → ℕ
  char_read n = read_status n / 256 % 256

  abbrev pub is_received : ℕ → Bool
  is_received n = terminal_status (read_status n) == char_received

  -- The user types a line of `j` characters and a newline, from the n-th system call on.
  abbrev pub IsLine : ℕ → ℕ → Type 0
  IsLine n zero = (is_received n ≡ true) × ((char_read n == b'\n') ≡ true)
  IsLine n (suc j) = (is_received n ≡ true) × ((char_read n == b'\n') ≡ false) × IsLine (n + 1) j

  -- The memory with `count` characters at `place`, those of the system calls from the n-th on.
  abbrev pub with_line : (ℕ → ℕ) → ℕ → ℕ → ℕ → ℕ → ℕ
  with_line bytes place n count address =
      if leb place address && ltb address (place + count)
      then char_read (n + (address - place))
      else bytes address

  with_line-one :
      (bytes : ℕ → ℕ) (place n address : ℕ)
      → update bytes place (char_read n) address ≡ with_line bytes place n 1 address
  with_line-one bytes place n address = ground arith

  with_line-suc :
      (bytes : ℕ → ℕ) (place n count address : ℕ)
      → with_line (update bytes place (char_read n)) (place + 1) (n + 1) count address
        ≡ with_line bytes place n (suc count) address
  with_line-suc bytes place n count address = ground arith

  -- The loop ends with `count`, and the memory is then `bytes`.
  abbrev pub EndsWith : ℕ → (ℕ → ℕ) → Act ℕ → Type 0
  EndsWith count bytes r =
      (w' : World) × (r ≡ done count w') × ((address : ℕ) → w'.shared.bytes address ≡ bytes address)

  ends_more :
      (bytes kept : ℕ → ℕ) (same : kept ≡ bytes) (buffer received n j : ℕ) (r : Act ℕ)
      → EndsWith
          (received + 1 + j + 1)
          (with_line
            (update kept (buffer + received) (char_read n))
            (buffer + (received + 1))
            (n + 1)
            (suc j))
          r
      → EndsWith (received + suc j + 1) (with_line bytes (buffer + received) n (suc (suc j))) r
  ends_more bytes kept same buffer received n j r (w', e, b) =
      let place : buffer + (received + 1) ≡ buffer + received + 1 = omega arith in
      (
        w',
        e ∙ ap (λ (n : ℕ). done n w') (omega arith),
        λ address.
            b address
            ∙ ap
                (λ (m : ℕ → ℕ).
                  with_line (update m (buffer + received) (char_read n)) (buffer + (received + 1))
                    (n + 1) (suc j) address)
                same
            ∙ ap
                (λ (a : ℕ).
                  with_line (update bytes (buffer + received) (char_read n)) a (n + 1) (suc j)
                    address)
                place
            ∙ with_line-suc bytes (buffer + received) n (suc j) address,
      )

  module _ (pf : Platform) (keeps : KeepsBytes env) where
    -- When the user types a line, the loop ends at its newline, within as many rounds as the line has
    -- characters, with their number, and the line stands in the buffer.
    pub receive_loop-EndsWith :
        (j fuel buffer received support : ℕ) (w : World) (line : IsLine w.calls j)
        (enough : j < fuel)
        → EndsWith
            (received + j + 1)
            (with_line w.shared.bytes (buffer + received) w.calls (suc j))
            (receive_loop env pf fuel dev_reg buffer received support w)
    unfolding receive_loop
    receive_loop-EndsWith zero zero buffer received support w line enough = absurd (omega arith)
    receive_loop-EndsWith (suc j) zero buffer received support w line enough = absurd (omega arith)
    receive_loop-EndsWith zero (suc fuel) buffer received support w (got, newline) enough =
        let next = called env (do_io (dev_reg + 0x4) terminal_read) w in
        let stored = record next {
          shared = record (next.shared) {
            bytes = update next.shared.bytes (buffer + received) (char_read w.calls);
          };
        } in
        rw (got, newline)
          (
            stored,
            ap (λ (n : ℕ). done n stored) (omega arith),
            λ address.
                ap (λ (m : ℕ → ℕ). update m (buffer + received) (char_read w.calls) address)
                  (keeps w.calls w.shared)
                ∙ with_line-one w.shared.bytes (buffer + received) w.calls address,
          )
    receive_loop-EndsWith (suc j) (suc fuel) buffer received support w (got, other, line) enough =
        let next = called env (do_io (dev_reg + 0x4) terminal_read) w in
        let stored = record next {
          shared = record (next.shared) {
            bytes = update next.shared.bytes (buffer + received) (char_read w.calls);
          };
        } in
        rw (got, other)
          (ends_more w.shared.bytes next.shared.bytes (keeps w.calls w.shared) buffer received
            w.calls j _
            (receive_loop-EndsWith j fuel buffer (received + 1) support stored line (omega arith)))

module _ (env : Environment) (pf : Platform) (keeps : KeepsBytes env) (j fuel asid support : ℕ)
    (w : World) (valid : ltb (text_of support w) kuseg ≡ false)
    (line : IsLine env (pf.dev_reg_addr 7 (device_of asid)) (w.calls + 1) j)
    (enough : j < fuel) where
  abbrev device : ℕ
  device = pf.dev_reg_addr 7 (device_of asid)

  -- the world with the terminal's semaphore taken
  entered : World
  entered =
      let c = called env (passeren (terminal (device_of asid))) w in
      record c { shared = set_user (terminal (device_of asid)) asid c.shared }

  -- `_readTerminal`, on a buffer of the user's segment, when the user types a line of `j` characters
  -- and the others do not write the caller's memory, returns within `j + 1` rounds: the caller gets the number of characters with the
  -- newline, and finds the line, the newline included, in its buffer and its other memory unchanged.
  pub read_terminal-EndsWith :
      (w' : World) × (read_terminal env pf fuel asid support w ≡ done tt w')
      × (result support w' ≡ j + 1)
      × ((address : ℕ)
          → w'.shared.bytes address
            ≡ with_line env device w.shared.bytes (text_of support w) (w.calls + 1) (suc j) address)
  unfolding read_terminal user_p user_v entered
  read_terminal-EndsWith =
      let start : text_of support w + 0 ≡ text_of support w = omega arith in
      let (w1, e, b) =
        receive_loop-EndsWith env device pf keeps j fuel (text_of support w) 0 support entered line
          enough in
      (
        world_after (read_terminal env pf fuel asid support w),
        rw (valid, e) refl,
        rw (valid, e) (ground arith),
        rw (valid, e)
            (λ address.
              ap (λ (m : ℕ → ℕ). m address)
                (keeps w1.calls (set_user (terminal (device_of asid)) no_proc w1.shared))
              ∙ b address
              ∙ ap
                  (λ (place : ℕ).
                    with_line env device entered.shared.bytes place (w.calls + 1) (suc j) address)
                  start
              ∙ ap
                  (λ (m : ℕ → ℕ).
                    with_line env device m (text_of support w) (w.calls + 1) (suc j) address)
                  (keeps w.calls w.shared)),
      )

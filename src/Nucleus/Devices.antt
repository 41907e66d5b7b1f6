-- ===== src/Nucleus/Devices.antt =====
-- The device interrupts of phase2/interrupts.c and the state of the nucleus as a whole.
use Prim.Native.Nat.{bit_and}
use pandos_plus.Base.{
  Option, update, ==_iff, Option-cases, ℕ, zero, suc, ◌+◌, ◌-◌, ◌≡◌, ◌≢◌, ◌<◌, subst, refl, ap,
  true, false, ◌==◌, arith, none, some, List, [], ◌∷◌, inl, inr, Bool-cases, count, if_either,
}
use pandos_plus.Pcb.{is_alive}
use pandos_plus.Asl.{AslStore}
use pandos_plus.Asl.View.{waiting}
use pandos_plus.Platform.{Platform}
use pandos_plus.Devices.{get_io_device_semaphore}
use pandos_plus.Kernel.{Kernel, Cmd}
use pandos_plus.Semaphore.{write_word, set_tables}
use pandos_plus.Semaphore.Steps.{made_ready, sem_v-Proceeds}
use pandos_plus.Interrupts.{
  device_interrupt_return, non_terminal_handler, terminal_handler, serve, device_loop,
  device_handler, select_handler, has_bit, terminal_status, char_received, char_transmitted,
}
use pandos_plus.Nucleus.{IsConsistent, Keeps, then_Keeps}
use pandos_plus.Nucleus.Frame.{put-IsSettled, unchanged}
use pandos_plus.Nucleus.Semaphores.{woken-Stays, Stays-IsConsistent}
use pandos_plus.Nucleus.Interrupts.{
  interrupt_handler_exit-Keeps, it_handler-Keeps, plt_handler-Keeps,
}

module _ (pf : Platform) where
  -- A process waits for the device with this command register, and its semaphore is not 1, also once
  -- the interrupt is acknowledged.
  abbrev pub IsAwaited : ℕ → AslStore → (ℕ → ℕ) → Type 0
  IsAwaited command asl mem =
      let sem = get_io_device_semaphore pf command in
      (waiting asl sem ≢ []) × (update mem command pf.ack sem ≢ 1)

  device_interrupt_return-Keeps :
      (status command : ℕ) (k : Kernel)
      → IsConsistent k
      → IsAwaited command k.tables.asl k.mem
      → Keeps (λ _ k'. IsConsistent k') (device_interrupt_return pf status command k)
  unfolding device_interrupt_return
  device_interrupt_return-Keeps status command k h (awaited, ne) =
      by_queue (waiting k.tables.asl sem) refl
    where
      sem : ℕ
      sem = get_io_device_semaphore pf command

      by_queue :
          (w : List ℕ)
          → waiting k.tables.asl sem ≡ w
          → Keeps (λ _ k'. IsConsistent k') (device_interrupt_return pf status command k)
      by_queue [] e = absurd (awaited e)
      by_queue (p ∷ q) e =
          let k1 = write_word command pf.ack k in
          let (t, s, removed) = (sem_v-Proceeds sem none none k1 h.0.asl ne).hands_over p q e in
          let k2 = made_ready p (set_tables t k1) in
          let stays = woken-Stays k1 h sem p (ground (arith, ap (count p) e)) t (some p) removed in
          let (settled, uses) = Stays-IsConsistent k1 k2 (some p) h stays in
          rw s (elim (Bool-cases (is_alive k2.tables.pcbs p)) [
            | inl alive ↦
                rw alive
                  (put-IsSettled [] _ _ _ _ _ settled p _ (unchanged _ _ _ _) (inl refl), uses)
            | inr dead ↦ rw dead (settled, uses)
          ])

-- A line of devices with its bit among the pending interrupts.
pub data IsPending (pf : Platform) (ip : ℕ) : ℕ → Type 0 where
  disk : has_bit 11 ip ≡ true → IsPending pf ip pf.il_disk
  flash : has_bit 12 ip ≡ true → IsPending pf ip pf.il_flash
  ethernet : has_bit 13 ip ≡ true → IsPending pf ip pf.il_ethernet
  printer : has_bit 14 ip ≡ true → IsPending pf ip pf.il_printer
  terminal : has_bit 15 ip ≡ true → IsPending pf ip pf.il_terminal

-- The first of the devices of a line that interrupt.
pub record IsFirst (pf : Platform) (n bitmap : ℕ) : Type 0 where
  pub device : n < pf.n_dev_per_il
  pub interrupts : has_bit n bitmap ≡ true
  pub before : (m : ℕ) → m < n → has_bit m bitmap ≡ false

-- What the handlers rely on: only a running process uses up its time slice, the semaphore of the
-- interval timer is not 1 when the timer rings, and a process waits for the first device that
-- interrupts on a pending line.
pub record IsExpected (pf : Platform) (asl : AslStore) (mem : ℕ → ℕ) (curr : Option ℕ) (cause : ℕ)
    : Type 0 where
  pub slice : has_bit 9 (bit_and cause pf.cause_ip_mask) ≡ true → curr ≢ none
  pub timer : has_bit 10 (bit_and cause pf.cause_ip_mask) ≡ true → mem pf.semaphore_it ≢ 1
  pub device :
      (line n : ℕ)
      → IsPending pf (bit_and cause pf.cause_ip_mask) line
      → (line == pf.il_terminal) ≡ false
      → IsFirst pf n (mem (pf.interrupt_dev (line - 3)))
      → IsAwaited pf (pf.dev_reg_addr line n + 0x4) asl mem
  pub receiver :
      (n : ℕ)
      → IsPending pf (bit_and cause pf.cause_ip_mask) pf.il_terminal
      → IsFirst pf n (mem (pf.interrupt_dev (pf.il_terminal - 3)))
      → (terminal_status (mem (pf.dev_reg_addr pf.il_terminal n)) == char_received) ≡ true
      → IsAwaited pf (pf.dev_reg_addr pf.il_terminal n + 0x4) asl mem
  pub transmitter :
      (n : ℕ)
      → IsPending pf (bit_and cause pf.cause_ip_mask) pf.il_terminal
      → IsFirst pf n (mem (pf.interrupt_dev (pf.il_terminal - 3)))
      → (terminal_status (mem (pf.dev_reg_addr pf.il_terminal n)) == char_received) ≡ false
      → (terminal_status (mem (pf.dev_reg_addr pf.il_terminal n + 0x8)) == char_transmitted) ≡ true
      → IsAwaited pf (pf.dev_reg_addr pf.il_terminal n + 0xc) asl mem

module _ (pf : Platform) (k : Kernel) (h : IsConsistent k)
    (x : IsExpected pf k.tables.asl k.mem k.curr_process k.prev_state.cause) where
  abbrev Kept : Cmd (Unit {0}) → Type 0
  Kept m = Keeps (λ _ k'. IsConsistent k') (m k)

  abbrev ip : ℕ
  ip = bit_and k.prev_state.cause pf.cause_ip_mask

  terminal_handler-Keeps :
      (n : ℕ)
      → IsPending pf ip pf.il_terminal
      → IsFirst pf n (k.mem (pf.interrupt_dev (pf.il_terminal - 3)))
      → Kept (terminal_handler pf n)
  unfolding terminal_handler
  terminal_handler-Keeps n pending first =
      if_either Kept (terminal_status (k.mem (pf.dev_reg_addr pf.il_terminal n)) == char_received) _
        _
        (λ received. device_interrupt_return-Keeps pf _ _ k h (x.receiver n pending first received))
        (λ quiet.
          if_either Kept
            (terminal_status (k.mem (pf.dev_reg_addr pf.il_terminal n + 0x8)) == char_transmitted) _
            _
            (λ sent.
              device_interrupt_return-Keeps pf _ _ k h (x.transmitter n pending first quiet sent))
            (λ _. tt))

  serve-Keeps :
      (line n : ℕ)
      → IsPending pf ip line
      → IsFirst pf n (k.mem (pf.interrupt_dev (line - 3)))
      → Kept (serve pf line n)
  unfolding serve non_terminal_handler
  serve-Keeps line n pending first =
      if_either Kept (line == pf.il_terminal) _ _
        (λ e.
          let same = (==_iff line pf.il_terminal).0 e in
          terminal_handler-Keeps n (subst (IsPending pf ip) same pending)
            (subst (λ l. IsFirst pf n (k.mem (pf.interrupt_dev (l - 3)))) same first))
        (λ e. device_interrupt_return-Keeps pf _ _ k h (x.device line n pending e first))

  device_loop-Keeps :
      (rounds line n : ℕ)
      → IsPending pf ip line
      → n + rounds ≡ pf.n_dev_per_il
      → ((m : ℕ) → m < n → has_bit m (k.mem (pf.interrupt_dev (line - 3))) ≡ false)
      → Kept (device_loop pf rounds line (k.mem (pf.interrupt_dev (line - 3))) n)
  unfolding device_loop
  device_loop-Keeps zero line n pending left before = h
  device_loop-Keeps (suc rounds) line n pending left before =
      if_either Kept (has_bit n (k.mem (pf.interrupt_dev (line - 3)))) _ _
        (λ interrupts.
          then_Keeps (λ _ k'. IsConsistent k') (λ _ k'. IsConsistent k') (serve pf line n k) _
            (serve-Keeps line n pending
              (record { device = omega (arith, left); interrupts = interrupts; before = before }))
            (λ _ k' h'. interrupt_handler_exit-Keeps _ k' h'))
        (λ quiet. device_loop-Keeps rounds line (n + 1) pending (omega (arith, left)) (λ m few.
          elim (Bool-cases (m == n)) [
            | inl e ↦ rw ((==_iff m n).0 e) quiet
            | inr ne ↦ before m (ground arith)
          ]))

  device_handler-Keeps : (line : ℕ) → IsPending pf ip line → Kept (device_handler pf line)
  unfolding device_handler
  device_handler-Keeps line pending =
      device_loop-Keeps pf.n_dev_per_il line 0 pending (omega arith) (λ m few. absurd (omega arith))

  pub select_handler-Keeps : Kept (select_handler pf (bit_and k.prev_state.cause pf.cause_ip_mask))
  unfolding select_handler
  select_handler-Keeps =
      if_either Kept (has_bit 9 ip) _ _
        (λ slice. elim (Option-cases k.curr_process) [
          | inl idle ↦ absurd (x.slice slice idle)
          | inr (p, running) ↦ plt_handler-Keeps _ k p running h
        ])
        (λ _.
          if_either Kept (has_bit 10 ip) _ _ (λ rings. it_handler-Keeps pf _ k h (x.timer rings))
            (λ _.
              if_either Kept (has_bit 11 ip) _ _ (λ e. device_handler-Keeps pf.il_disk (disk e))
                (λ _.
                  if_either Kept (has_bit 12 ip) _ _
                    (λ e. device_handler-Keeps pf.il_flash (flash e))
                    (λ _.
                      if_either Kept (has_bit 13 ip) _ _
                        (λ e. device_handler-Keeps pf.il_ethernet (ethernet e))
                        (λ _.
                          if_either Kept (has_bit 14 ip) _ _
                            (λ e. device_handler-Keeps pf.il_printer (printer e))
                            (λ _.
                              if_either Kept (has_bit 15 ip) _ _
                                (λ e. device_handler-Keeps pf.il_terminal (terminal e))
                                (λ _. interrupt_handler_exit-Keeps _ k h)))))))

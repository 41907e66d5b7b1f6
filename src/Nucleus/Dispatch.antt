-- ===== src/Nucleus/Dispatch.antt =====
-- The system call handler of phase2/exceptions.c and the state of the nucleus as a whole.
use pandos_plus.Base.{ℕ, ==_iff, ◌≡◌, ◌≢◌, ◌==◌, some, if◌then◌else◌, if_either}
use pandos_plus.Machine.{null}
use pandos_plus.Platform.{Platform}
use pandos_plus.Devices.{get_io_device_semaphore}
use pandos_plus.Kernel.{Kernel, Cmd}
use pandos_plus.Syscalls.{create_process}
use pandos_plus.Interrupts.{has_bit}
use pandos_plus.Exceptions.{call, systemcall_handler, general_except, advance_pc, is_positive}
use pandos_plus.Nucleus.{IsConsistent, Keeps, then_Keeps, map_Outcome, LeavesWell}
use pandos_plus.Nucleus.Create.{GivesPid, create_process-Keeps}
use pandos_plus.Nucleus.Calls.{
  call_p-Keeps, call_v-Keeps, get_cpu_time-Keeps, get_support_ptr-Keeps, get_process_id-Keeps,
  yield_cpu-Keeps, do_io-Keeps, clock_wait-Keeps,
}
use pandos_plus.Nucleus.Terminate.{term_process-Keeps, trap-Keeps, pass_up_or_die_handler-Keeps}

-- What the call relies on: the semaphore that it works on has not the address NULL, and a new process
-- is not given the pid of the free PCBs.
pub record IsServed (pf : Platform) (k : Kernel) : Type 0 where
  pub passeren : k.prev_state.reg_a0 ≡ 0xffff_fffd → k.prev_state.reg_a1 ≢ null
  pub verhogen : k.prev_state.reg_a0 ≡ 0xffff_fffc → k.prev_state.reg_a1 ≢ null
  pub device :
      k.prev_state.reg_a0 ≡ 0xffff_fffb → get_io_device_semaphore pf k.prev_state.reg_a1 ≢ null
  pub timer : k.prev_state.reg_a0 ≡ 0xffff_fff9 → pf.semaphore_it ≢ null
  pub pid : k.prev_state.reg_a0 ≡ 0xffff_ffff → GivesPid k.tables.pcbs

abbrev Served : Cmd (Unit {0}) → Kernel → Type 0
Served m k = Keeps (λ _ k'. IsConsistent k') (m k)

-- What the one command has on its code, and the other has, the choice has.
either_cmd :
    (code c : ℕ) (m n : Cmd (Unit {0})) (k : Kernel)
    → (code ≡ c → Served m k)
    → Served n k
    → Served (if code == c then m else n) k
either_cmd code c m n k here other =
    if_either (λ r. Served r k) (code == c) m n (λ e. here ((==_iff code c).0 e)) (λ _. other)

module _ (pf : Platform) (k : Kernel) (p : ℕ) (running : k.curr_process ≡ some p)
    (h : IsConsistent k) (served : IsServed pf k) where
  call-Keeps : Served (call pf k.prev_state.reg_a0) k
  unfolding call
  call-Keeps =
      either_cmd code 0xffff_ffff _ _ k
        (λ e.
          map_Outcome LeavesWell (λ _ k'. IsConsistent k' × (k'.curr_process ≡ some p)) _
            (create_process k) (create_process-Keeps k p running h (served.pid e)) λ _ k' r. r.0)
        (either_cmd code 0xffff_fffe _ _ k (λ _. term_process-Keeps pf k p running h)
          (either_cmd code 0xffff_fffd _ _ k
            (λ e. call_p-Keeps k p running h k.prev_state.reg_a1 (served.passeren e))
            (either_cmd code 0xffff_fffc _ _ k
              (λ e. call_v-Keeps k p running h k.prev_state.reg_a1 (served.verhogen e))
              (either_cmd code 0xffff_fffb _ _ k
                (λ e. do_io-Keeps k p running h pf (served.device e))
                (either_cmd code 0xffff_fffa _ _ k (λ _. get_cpu_time-Keeps k p running h)
                  (either_cmd code 0xffff_fff9 _ _ k
                    (λ e. clock_wait-Keeps k p running h pf (served.timer e))
                    (either_cmd code 0xffff_fff8 _ _ k (λ _. get_support_ptr-Keeps k p running h)
                      (either_cmd code 0xffff_fff7 _ _ k (λ _. get_process_id-Keeps k p running h)
                        (either_cmd code 0xffff_fff6 _ _ k (λ _. yield_cpu-Keeps k p running h)
                          (trap-Keeps pf k p running h _))))))))))
    where
      code : ℕ
      code = k.prev_state.reg_a0

advanced-IsServed : (pf : Platform) (k : Kernel) → IsServed pf k → IsServed pf (advance_pc pf k)
advanced-IsServed pf k served = record {
  passeren = served.passeren;
  verhogen = served.verhogen;
  device = served.device;
  timer = served.timer;
  pid = served.pid;
}

-- If the state of the nucleus is consistent, there is a current process, the semaphore that the
-- call works on has not the address NULL, and a new process does not get the pid of the free
-- PCBs, `systemcallHandler` does not return, reads nothing through NULL and lacks no fuel: it
-- halts, panics, or leaves the nucleus with a consistent state.
pub systemcall_handler-Keeps :
    (pf : Platform) (k : Kernel) (p : ℕ)
    → k.curr_process ≡ some p
    → IsConsistent k
    → IsServed pf k
    → Keeps (λ _ _. ⊥) (systemcall_handler pf k)
unfolding systemcall_handler
systemcall_handler-Keeps pf k p running h served =
    if_either (λ (m : Cmd (Unit {0})). Keeps (λ _ _. ⊥) (m k)) (is_positive pf k.prev_state.reg_a0)
      _ _ (λ _. pass_up_or_die_handler-Keeps pf k p running h _ general_except)
      (λ _.
        if_either (λ (m : Cmd (Unit {0})). Keeps (λ _ _. ⊥) (m k)) (has_bit 3 k.prev_state.status) _
          _ (λ _. trap-Keeps pf k p running h _)
          (λ _.
            then_Keeps (λ _ k'. IsConsistent k') (λ _ _. ⊥)
              (call pf k.prev_state.reg_a0 (advance_pc pf k)) _
              (call-Keeps pf (advance_pc pf k) p running h (advanced-IsServed pf k served))
              (λ _ k' consistent. consistent)))

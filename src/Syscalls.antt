-- ===== src/Syscalls.antt =====
-- phase2/exceptions.c: the system calls. The state of the caller is `prev_state`, its parameters are
-- the registers a1, a2, a3.
pub mod Detach
pub mod Kill
use pandos_plus.Base.{ℕ, zero, suc, ◌+◌, ◌*◌, ◌%◌, none, some, ◌==◌, if◌then◌else◌}
use pandos_plus.Machine.{null, word_mod}
use pandos_plus.Pcb.{max_proc, alloc_pcb, free_pcb}
use pandos_plus.ProcQueue.{out_proc_q}
use pandos_plus.ProcTree.{insert_child, remove_child, out_child}
use pandos_plus.Asl.{out_blocked}
use pandos_plus.Platform.{Platform}
use pandos_plus.Devices.{is_soft_blocked}
use pandos_plus.Kernel.{
  Kernel, fault, out_of_fuel, Cmd, ◌>>=◌, ◌>>◌, leave, get, modify, deref, pcb_of, set_pcbs,
  put_pcb, ok, left, and_then,
}
use pandos_plus.Scheduler.{process_prio_low, process_prio_high, insert_ready}
use pandos_plus.Semaphore.{set_tables}

-- `SYSTEMCALL_RETURN`
abbrev pub return_value : ℕ → Kernel → Kernel
return_value v k = record k { prev_state = record (k.prev_state) { reg_v0 = v } }

-- -1 in a word
abbrev pub minus_one : ℕ
minus_one = 0xffff_ffff

-- The fields that `_createProcess` sets in a new PCB.
unfoldable pub new_process : ℕ → Kernel → Kernel
new_process p k =
    put_pcb p
      (record (pcb_of k p) {
        p_s = k.states k.prev_state.reg_a1;
        p_prio = if k.prev_state.reg_a2 == 0 then process_prio_low else process_prio_high;
        p_support_struct = k.prev_state.reg_a3;
      })
      k

unfoldable pub create_process : Cmd (Unit {0})
unfolding new_process
create_process k =
    let (new_proc, s) = alloc_pcb k.tables.pcbs in
    let k' = set_pcbs s k in
    elim new_proc [
      | none ↦ ok tt (return_value minus_one k')
      | some p ↦
          (do
            modify (λ k. record k { process_count = (k.process_count + 1) % word_mod })
            modify (new_process p)
            modify (insert_ready p)
            parent ← get (λ k. k.curr_process)
            parent ← deref parent
            modify (λ k. set_pcbs (insert_child parent p k.tables.pcbs) k)
            modify (λ k. return_value (pcb_of k p).p_pid k))
            k'
    ]

-- A counter of the kernel, an unsigned word, less one.
abbrev pub decrement : ℕ → ℕ
decrement n = (n + minus_one) % word_mod

-- A process that is killed takes one step of the fuel, and each of its children one more.
abbrev pub kill_fuel : ℕ
kill_fuel = 2 * max_proc

module _ (pf : Platform) where
  -- The semaphore part of `_killProcess`.
  unfoldable pub leave_semaphore : ℕ → Cmd (Unit {0})
  leave_semaphore p k =
      if (pcb_of k p).p_sem_add == null
      then ok tt k
      else (let k' =
            if is_soft_blocked pf (pcb_of k p).p_sem_add
            then record k { softblocked_count = decrement k.softblocked_count }
            else k in
          elim (out_blocked p k'.tables) [
            | none ↦ left fault k'
            | some (_, t) ↦ ok tt (set_tables t k')
          ])

  unfoldable pub leave_ready_queue : ℕ → Kernel → Kernel
  leave_ready_queue p k =
      if (pcb_of k p).p_prio == process_prio_low
      then record k { low_readyqueue = (out_proc_q k.low_readyqueue p).1 }
      else record k { high_readyqueue = (out_proc_q k.high_readyqueue p).1 }

  -- What `_killProcess` does to the process itself, before its children.
  unfoldable pub detach : ℕ → Cmd (Unit {0})
  unfolding leave_semaphore leave_ready_queue
  detach p = do
    modify (λ k. set_pcbs (out_child p k.tables.pcbs).1 k)
    modify (λ k. record k { process_count = decrement k.process_count })
    leave_semaphore p
    modify (leave_ready_queue p)

  unfoldable mutual
    -- `_killProcess`, on fuel for its depth and its rounds.
    pub kill_process : ℕ → ℕ → Cmd (Unit {0})
    kill_process zero p = leave out_of_fuel
    kill_process (suc fuel) p = do
      detach p
      kill_children fuel p
      modify (λ k. set_pcbs (free_pcb p k.tables.pcbs) k)

    -- `while ((child = removeChild(process)) != NULL) { _killProcess(child); }`
    pub kill_children : ℕ → ℕ → Cmd (Unit {0})
    kill_children zero p k = left out_of_fuel k
    kill_children (suc fuel) p k =
        let (child, s) = remove_child p k.tables.pcbs in
        elim child [
          | none ↦ ok tt (set_pcbs s k)
          | some c ↦ and_then (kill_process fuel c (set_pcbs s k)) (λ _. kill_children fuel p)
        ]

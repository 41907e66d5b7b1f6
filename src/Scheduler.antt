-- ===== src/Scheduler.antt =====
-- phase2/scheduler.c, and the timers of phase2/initial.c that it uses.
pub mod Queues
pub mod Tests
use Prim.Native.Nat.{bit_and, bit_or}
use pandos_plus.Base.{
  ℕ, ◌+◌, ◌-◌, ◌*◌, ◌%◌, Bool, true, false, not, ◌&&◌, ◌||◌, Option, none, some, List, ltb, ◌==◌,
  if◌then◌else◌,
}
use pandos_plus.Machine.{State, word_mod}
use pandos_plus.Pcb.{is_alive}
use pandos_plus.ProcQueue.{empty_proc_q, insert_proc_q, head_proc_q, remove_proc_q}
use pandos_plus.Kernel.{
  Kernel, halt, panic, wait, ldst, Cmd, ◌>>=◌, ◌>>◌, pure, leave, get, modify, deref, pcb_of,
  put_pcb, ok, left,
}

abbrev pub process_prio_low : ℕ
process_prio_low = 0

abbrev pub process_prio_high : ℕ
process_prio_high = 1

abbrev pub iec_on : ℕ
iec_on = 0x1

abbrev pub im_on : ℕ
im_on = 0xff00

abbrev pub te_bit_on : ℕ
te_bit_on = 0x0800_0000

-- `~TEBITON`
abbrev pub te_bit_off : ℕ
te_bit_off = 0xf7ff_ffff

abbrev pub timeslice : ℕ
timeslice = 5000

abbrev pub timescale_addr : ℕ
timescale_addr = 0x1000_0024

-- STCK: the next reading of the time of day.
unfoldable pub stck : Cmd ℕ
stck k = ok (k.clock k.reads % word_mod) (record k { reads = k.reads + 1 })

-- The difference to the last call, in the 32 bits of `cpu_t`.
unfoldable pub timer_flush : Cmd ℕ
unfolding stck
timer_flush = do
  curr_time ← stck
  start ← get (λ k. k.timer_start)
  restart ← stck
  modify (λ k. record k { timer_start = restart })
  pure ((curr_time + word_mod - start) % word_mod)

unfoldable pub update_process_cpu_time : Cmd (Unit {0})
unfolding timer_flush
update_process_cpu_time = do
  diff ← timer_flush
  p ← get (λ k. k.curr_process)
  p ← deref p
  modify
      (λ k. put_pcb p (record (pcb_of k p) { p_time = ((pcb_of k p).p_time + diff) % word_mod }) k)

unfoldable pub start_plt : Cmd (Unit {0})
start_plt = modify (λ k. record k { timer = timeslice * k.mem timescale_addr % word_mod })

abbrev pub ptr_eq : Option ℕ → Option ℕ → Bool
ptr_eq none none = true
ptr_eq (some p) (some q) = p == q
ptr_eq none (some q) = false
ptr_eq (some p) none = false

-- The high-priority queue gives its head, unless that is the process to skip and a low-priority
-- process is ready.
unfoldable pub pick_high : List ℕ → List ℕ → Option ℕ → Option ℕ × List ℕ
unfolding empty_proc_q head_proc_q remove_proc_q
pick_high high low skip =
    if not (empty_proc_q high) && (not (ptr_eq (head_proc_q high) skip) || empty_proc_q low)
    then remove_proc_q high
    else (none, high)

-- The process chosen from the queues, and the two queues without it.
unfoldable pub choose : List ℕ → List ℕ → Option ℕ → Option ℕ × List ℕ × List ℕ
unfolding pick_high
choose high low skip = elim (pick_high high low skip).0 [
  | some p ↦ (some p, (pick_high high low skip).1, low)
  | none ↦ let (p, low') = remove_proc_q low in (p, (pick_high high low skip).1, low')
]

unfoldable pub get_next_process : Kernel → Option ℕ × Kernel
unfolding choose
get_next_process k =
    let (next, high, low) = choose k.high_readyqueue k.low_readyqueue k.process_to_skip in
    (next, record k { high_readyqueue = high; low_readyqueue = low; process_to_skip = none })

-- The last part of `scheduler`, once a process is chosen.
unfoldable pub dispatch {ℓ} : {A : Type ℓ} → ℕ → Cmd A
unfolding start_plt timer_flush
dispatch p = do
  pcb ← get (λ k. pcb_of k p)
  if pcb.p_prio == process_prio_low
      then (do
        modify (
            put_pcb p
              (record pcb { p_s = record (pcb.p_s) { status = bit_or pcb.p_s.status te_bit_on } }))
        start_plt)
      else modify (
          put_pcb p
            (record pcb { p_s = record (pcb.p_s) { status = bit_and pcb.p_s.status te_bit_off } }))
  _ ← timer_flush
  s ← get (λ k. (pcb_of k p).p_s)
  leave (ldst s)

unfoldable pub idle {ℓ} : {A : Type ℓ} → Cmd A
idle k =
    if ltb 0 k.softblocked_count
    then left wait
        (record k { status = bit_and (bit_or k.status (bit_or iec_on im_on)) te_bit_off })
    else left panic k

-- What follows once `curr_process` is set.
unfoldable pub run_next {ℓ} : {A : Type ℓ} → Option ℕ → Cmd A
run_next none = idle
run_next (some p) = dispatch p

-- `scheduler` leaves the nucleus on every branch.
unfoldable pub scheduler {ℓ} : {A : Type ℓ} → Cmd A
scheduler k =
    if k.process_count == 0
    then left halt k
    else (let (next, k') = get_next_process k in run_next next (record k' { curr_process = next }))

-- The code writes to the current process, whatever `p` is.
unfoldable pub set_process_blocked : Option State → Cmd (Unit {0})
unfolding update_process_cpu_time
set_process_blocked state = do
  p ← get (λ k. k.curr_process)
  p ← deref p
  s ← deref state
  modify (λ k. put_pcb p (record (pcb_of k p) { p_s = s }) k)
  update_process_cpu_time

-- `GET_READY_QUEUE(p->p_prio)` at its end.
unfoldable pub insert_ready : ℕ → Kernel → Kernel
unfolding insert_proc_q
insert_ready p k =
    if (pcb_of k p).p_prio == process_prio_low
    then record k { low_readyqueue = insert_proc_q k.low_readyqueue p }
    else record k { high_readyqueue = insert_proc_q k.high_readyqueue p }

unfoldable pub set_process_ready : ℕ → Cmd (Unit {0})
unfolding insert_ready
set_process_ready p = modify (λ k. if is_alive k.tables.pcbs p then insert_ready p k else k)

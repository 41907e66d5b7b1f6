-- ===== src/Semaphore.antt =====
-- phase1/asl.c: P and V on a binary semaphore, over the state of the nucleus.
pub mod Blocking
pub mod Steps
pub mod Tests
use pandos_plus.Base.{ℕ, Bool, true, false, Option, none, some, update, ◌==◌, if◌then◌else◌}
use pandos_plus.Machine.{State}
use pandos_plus.Asl.{Tables, insert_blocked, remove_blocked, head_blocked}
use pandos_plus.Kernel.{
  Kernel, panic, fault, Cmd, ◌>>=◌, ◌>>◌, pure, leave, get, modify, deref, ok, left, and_then,
}
use pandos_plus.Scheduler.{scheduler, set_process_blocked, set_process_ready}

abbrev pub set_tables : Tables → Kernel → Kernel
set_tables t k = record k { tables = t }

-- `if (insertBlocked(sem, process)) { PANIC(); }`. Whether a descriptor is found does not depend on
-- the process, and the process is written only after that.
unfoldable pub block_on : ℕ → Option ℕ → Cmd (Unit {0})
block_on sem none k = if (insert_blocked sem 0 k.tables).0 then left panic k else left fault k
block_on sem (some p) k =
    let (full, t) = insert_blocked sem p k.tables in
    if full then left panic (set_tables t k) else ok tt (set_tables t k)

-- The caller waits and another process runs.
unfoldable pub suspend {ℓ} : {A : Type ℓ} → ℕ → Option ℕ → Option State → Cmd A
suspend sem process state = do block_on sem process; set_process_blocked state; scheduler

-- `removeBlocked` for its process.
unfoldable pub take_blocked : ℕ → Cmd (Option ℕ)
take_blocked sem k = elim (remove_blocked sem k.tables) [
  | none ↦ left fault k
  | some (p, t) ↦ ok p (set_tables t k)
]

-- The first process that waits becomes ready.
unfoldable pub wake : ℕ → Cmd (Option ℕ)
wake sem = do
  ready_proc ← take_blocked sem
  p ← deref ready_proc
  set_process_ready p
  pure (some p)

abbrev pub write_word : ℕ → ℕ → Kernel → Kernel
write_word addr v k = record k { mem = update k.mem addr v }

-- What both do where the semaphore does not block the caller: wake a waiting process, or take the
-- value `v`.
unfoldable pub proceed : ℕ → ℕ → Cmd (Option ℕ)
proceed v sem k = elim (head_blocked sem k.tables.asl) [
  | none ↦ ok none (write_word sem v k)
  | some p ↦ wake sem k
]

unfoldable pub sem_p : ℕ → Option ℕ → Option State → Cmd (Option ℕ)
sem_p sem process state k = if k.mem sem == 0 then suspend sem process state k else proceed 0 sem k

unfoldable pub sem_v : ℕ → Option ℕ → Option State → Cmd (Option ℕ)
sem_v sem process state k = if k.mem sem == 1 then suspend sem process state k else proceed 1 sem k

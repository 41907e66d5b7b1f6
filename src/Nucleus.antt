-- ===== src/Nucleus.antt =====
-- The state of the nucleus as a whole: what phase1/pcb.c, phase1/asl.c, phase2/scheduler.c and
-- phase2/exceptions.c keep together, between two entries of the exception handler.
pub mod Below
pub mod Boot
pub mod Calls
pub mod Create
pub mod Devices
pub mod Dispatch
pub mod Dying
pub mod Facts
pub mod Frame
pub mod Detach
pub mod Kill
pub mod Handler
pub mod Interrupts
pub mod InterruptTests
pub mod Leaving
pub mod Newborn
pub mod Reach
pub mod Ready
pub mod Semaphores
pub mod Slice
pub mod Terminate
pub mod Tests
pub mod Turns
pub mod Waiting
use pandos_plus.Base.{
  ℕ, ◌+◌, ◌-◌, ◌<◌, ◌≤◌, ◌≡◌, ◌≢◌, Option, some, List, [], ◌==◌, if◌then◌else◌, count, length,
}
use pandos_plus.Machine.{null}
use pandos_plus.Pcb.{PcbStore, pid_of, free_pcb_pid}
use pandos_plus.ProcTree.Family.{IsLinked, parent}
use pandos_plus.Asl.{Tables}
use pandos_plus.Asl.View.{waiting}
use pandos_plus.Asl.Invariant.{sem_add_of}
use pandos_plus.Kernel.{
  deref, Cmd, and_then, Kernel, Leave, halt, panic, wait, ldst, ldcxt, fault, out_of_fuel, Run, ok,
  left,
}
use pandos_plus.Scheduler.{process_prio_low}
use pandos_plus.Scheduler.Queues.{held}
use pandos_plus.Pcb.Alloc
use pandos_plus.Asl.Invariant

-- 1 for a PCB in use, 0 for a free one
abbrev pub in_use : PcbStore → ℕ → ℕ
in_use s p = count p s.pid_list

-- in how many of the ready queues and the queue of its semaphore the process stands
abbrev pub queued : Tables → List ℕ → List ℕ → ℕ → ℕ
queued t low high p = count p low + count p high + count p (waiting t.asl (sem_add_of t p))

abbrev pub prio_of : Tables → ℕ → ℕ
prio_of t p = (t.pcbs.pcb p).p_prio

-- The tables, the number of processes, the ready queues and the current process fit together, while
-- the processes of `dying` are being killed: every process in use that is not dying and not the
-- current one stands in one queue, once, and no other PCB is in a queue; a ready process is in the
-- queue of its priority; a process that notes a semaphore waits there; parents and children are
-- processes in use; and no process has the pid `FREE_PCB_PID`.
pub record IsSettled (dying : List ℕ) (t : Tables) (n : ℕ) (low high : List ℕ) (curr : Option ℕ)
    : Type 0 where
  pub pcbs : Alloc.IsValid t.pcbs
  pub asl : Invariant.IsValid t
  pub alive : (p : ℕ) → in_use t.pcbs p ≡ 1 → pid_of t.pcbs p ≢ free_pcb_pid
  pub linked : IsLinked t.pcbs
  pub kin : (c q : ℕ) → parent t.pcbs c ≡ some q → (in_use t.pcbs c ≡ 1) × (in_use t.pcbs q ≡ 1)
  pub counted : n + length dying ≡ length t.pcbs.pid_list
  pub limbo : (p : ℕ) → count p dying ≤ in_use t.pcbs p
  pub placed : (p : ℕ) → queued t low high p ≡ in_use t.pcbs p - count p dying - held p curr
  pub ranked : (p : ℕ) → (if prio_of t p == process_prio_low then count p high else count p low) ≡ 0
  pub noted :
      (p : ℕ)
      → in_use t.pcbs p ≡ 1
      → sem_add_of t p ≢ null
      → 0 < count p (waiting t.asl (sem_add_of t p))
  pub nowhere : (p : ℕ) → count p (waiting t.asl null) ≡ 0

-- The same of a state, with `curr` in the place of its current process.
abbrev pub IsSettledAs : Option ℕ → List ℕ → Kernel → Type 0
IsSettledAs curr dying k =
    IsSettled dying k.tables k.process_count k.low_readyqueue k.high_readyqueue curr

-- The state between two entries of the nucleus: nobody is dying, and the current process, if there
-- is one, is in use.
abbrev pub IsConsistent : Kernel → Type 0
IsConsistent k =
    IsSettledAs k.curr_process [] k
    × ((p : ℕ) → k.curr_process ≡ some p → in_use k.tables.pcbs p ≡ 1)

-- What a run ends with: `Q` where it returns, a consistent state where a process or the handler of
-- a process goes on or the machine waits; it never reads through NULL and never lacks fuel.
abbrev pub LeavesWell : Leave → Kernel → Type 0
LeavesWell halt k = Unit
LeavesWell panic k = Unit
LeavesWell wait k = IsConsistent k
LeavesWell (ldst s) k = IsConsistent k
LeavesWell (ldcxt c) k = IsConsistent k
LeavesWell fault k = ⊥
LeavesWell out_of_fuel k = ⊥

-- `Q` where the run returns, `L` where it leaves the nucleus.
abbrev pub Outcome {ℓ} :
    {A : Type ℓ} → (Leave → Kernel → Type 0) → (A → Kernel → Type 0) → Run A → Type 0
Outcome L Q (ok a k) = Q a k
Outcome L Q (left o k) = L o k

abbrev pub Keeps {ℓ} : {A : Type ℓ} → (A → Kernel → Type 0) → Run A → Type 0
Keeps = Outcome LeavesWell

-- The run returns, with `Q`.
abbrev pub Returns {ℓ} : {A : Type ℓ} → (A → Kernel → Type 0) → Run A → Type 0
Returns = Outcome λ _ _. ⊥

module _ {ℓ} {A : Type ℓ} (L : Leave → Kernel → Type 0) (Q : A → Kernel → Type 0) where
  pub then_Outcome {κ} :
      {B : Type κ} (R : B → Kernel → Type 0) (r : Run A) (f : A → Cmd B)
      → Outcome L Q r
      → ((a : A) (k : Kernel) → Q a k → Outcome L R (f a k))
      → Outcome L R (and_then r f)
  then_Outcome R (ok a k) f q next = next a k q
  then_Outcome R (left o k) f q next = q

  pub map_Outcome :
      (R : A → Kernel → Type 0) (r : Run A)
      → Outcome L Q r
      → ((a : A) (k : Kernel) → Q a k → R a k)
      → Outcome L R r
  map_Outcome R (ok a k) q weaker = weaker a k q
  map_Outcome R (left o k) q weaker = q

pub then_Keeps {ℓ κ} :
    {A : Type ℓ} {B : Type κ} (Q : A → Kernel → Type 0) (R : B → Kernel → Type 0) (r : Run A)
    (f : A → Cmd B)
    → Keeps Q r
    → ((a : A) (k : Kernel) → Q a k → Keeps R (f a k))
    → Keeps R (and_then r f)
then_Keeps Q = then_Outcome LeavesWell Q

pub then_Returns {ℓ κ} :
    {A : Type ℓ} {B : Type κ} (Q : A → Kernel → Type 0) (R : B → Kernel → Type 0) (r : Run A)
    (f : A → Cmd B)
    → Returns Q r
    → ((a : A) (k : Kernel) → Q a k → Returns R (f a k))
    → Returns R (and_then r f)
then_Returns Q = then_Outcome (λ _ _. ⊥) Q

-- What returns, does not leave.
pub Outcome-of_Returns {ℓ} :
    {A : Type ℓ} (L : Leave → Kernel → Type 0) (Q : A → Kernel → Type 0) (r : Run A)
    → Returns Q r
    → Outcome L Q r
Outcome-of_Returns L Q (ok a k) q = q
Outcome-of_Returns L Q (left o k) q = absurd q

pub Keeps-of_Returns {ℓ} :
    {A : Type ℓ} (Q : A → Kernel → Type 0) (r : Run A) → Returns Q r → Keeps Q r
Keeps-of_Returns = Outcome-of_Returns LeavesWell

-- Two things that are known of a run.
pub both_Outcome {ℓ} :
    {A : Type ℓ} (L M : Leave → Kernel → Type 0) (Q R : A → Kernel → Type 0) (r : Run A)
    → Outcome L Q r
    → Outcome M R r
    → Outcome L (λ a k. Q a k × R a k) r
both_Outcome L M Q R (ok a k) q r = (q, r)
both_Outcome L M Q R (left o k) q r = q

-- A pointer that is not NULL.
pub deref-Outcome {ℓ κ} :
    {A : Type ℓ} {B : Type κ} (L : Leave → Kernel → Type 0) (Q : B → Kernel → Type 0) (o : Option A)
    (a : A) (k : Kernel) (f : A → Cmd B)
    → o ≡ some a
    → Outcome L Q (f a k)
    → Outcome L Q (and_then (deref o k) f)
deref-Outcome L Q o a k f e q = rw e q

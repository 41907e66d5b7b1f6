-- ===== src/Nucleus/Reach.antt =====
-- The states that the nucleus of phase2 can be in between two of its entries: after `main`, and after
-- each exception.
use pandos_plus.Base.{ℕ, ◌+◌, ◌≤◌, ◌≡◌, refl, Option, none, some, arith, subst, either_number}
use pandos_plus.Pcb.{PcbStore}
use pandos_plus.Machine.{State}
use pandos_plus.Platform.{Platform}
use pandos_plus.Kernel.{
  Kernel, Support, Leave, halt, panic, wait, ldst, ldcxt, fault, out_of_fuel, left,
}
use pandos_plus.Scheduler.Queues.{held}
use pandos_plus.Init.{main}
use pandos_plus.Exceptions.{exception_handler}
use pandos_plus.Nucleus.{IsConsistent, Keeps, LeavesWell, in_use, queued}
use pandos_plus.Nucleus.Boot.{IsTreeless, main-Keeps}
use pandos_plus.Nucleus.Handler.{IsRaised, exception_handler-Keeps}

-- What the processes and the machine change while the nucleus does not run: the memory, the states
-- and structures that the processes hold, the saved state of the exception, and the timers.
pub record Meanwhile : Type 0 where
  pub mem : ℕ → ℕ
  pub states : ℕ → State
  pub supports : ℕ → Support
  pub prev_state : State
  pub timer : ℕ
  pub interval_timer : ℕ

abbrev pub elapse : Meanwhile → Kernel → Kernel
elapse m k = record k {
  mem = m.mem;
  states = m.states;
  supports = m.supports;
  prev_state = m.prev_state;
  timer = m.timer;
  interval_timer = m.interval_timer;
}

-- A process, the handler of a process or nobody runs next, until the next exception.
abbrev pub GoesOn : Leave → Type 0
GoesOn halt = ⊥
GoesOn panic = ⊥
GoesOn wait = Unit
GoesOn (ldst s) = Unit
GoesOn (ldcxt c) = Unit
GoesOn fault = ⊥
GoesOn out_of_fuel = ⊥

pub data Reachable (pf : Platform) : Kernel → Type 0 where
  booted :
      (k k' : Kernel) (o : Leave)
      → IsTreeless k.tables.pcbs
      → main pf k ≡ left o k'
      → GoesOn o
      → Reachable pf k'
  entered :
      (k k' : Kernel) (m : Meanwhile) (o : Leave)
      → Reachable pf k
      → IsRaised pf (elapse m k)
      → exception_handler pf (elapse m k) ≡ left o k'
      → GoesOn o
      → Reachable pf k'

GoesOn-IsConsistent : (o : Leave) (k : Kernel) → GoesOn o → LeavesWell o k → IsConsistent k
GoesOn-IsConsistent wait k goes h = h
GoesOn-IsConsistent (ldst s) k goes h = h
GoesOn-IsConsistent (ldcxt c) k goes h = h
GoesOn-IsConsistent halt k goes h = absurd goes
GoesOn-IsConsistent panic k goes h = absurd goes
GoesOn-IsConsistent fault k goes h = absurd goes
GoesOn-IsConsistent out_of_fuel k goes h = absurd goes

pub Reachable-IsConsistent : (pf : Platform) (k : Kernel) → Reachable pf k → IsConsistent k
Reachable-IsConsistent pf k (booted k0 k' o treeless e goes) =
    GoesOn-IsConsistent o k goes (subst (Keeps λ _ _. ⊥) e (main-Keeps pf k0 treeless))
Reachable-IsConsistent pf k (entered k0 k' m o before raised e goes) =
    GoesOn-IsConsistent o k goes (
      subst (Keeps λ _ j. IsConsistent j) e
        (exception_handler-Keeps pf (elapse m k0) (Reachable-IsConsistent pf k0 before) raised))

held-le :
    (s : PcbStore) (o : Option ℕ)
    → ((q : ℕ) → o ≡ some q → in_use s q ≡ 1)
    → (p : ℕ) → held p o ≤ in_use s p
held-le s none used p = omega arith
held-le s (some q) used p =
    either_number (λ r. held r (some q) ≤ in_use s r) q (ground (arith, used q refl))
      (λ r ne. ground (arith, ne)) p

-- In every state that the nucleus reaches from `main` by exceptions that come as their handlers
-- expect (as for the consistency that `exceptionHandler` keeps), each process in use is the
-- current one or stands, once in all, in one of the ready queues or the queue of the semaphore
-- that it notes, and a free PCB is in none of them.
pub Reachable-placed :
    (pf : Platform) (k : Kernel) (p : ℕ)
    → Reachable pf k
    → queued k.tables k.low_readyqueue k.high_readyqueue p + held p k.curr_process
      ≡ in_use k.tables.pcbs p
Reachable-placed pf k p r =
    let (h, used) = Reachable-IsConsistent pf k r in
    omega (arith, h.placed p, held-le k.tables.pcbs k.curr_process used p)

-- ===== src/World.antt =====
-- The support level (phase3) around its system calls to the nucleus: the data that its processes
-- share, one process of it as a command, and `P` and `V` of lib/utilities.c. While a process waits in
-- a system call the others run, so that each call gives the shared data to `others` on its way back.
-- Only the runs in which each system call returns are described: a P that blocks for ever is not, and
-- neither are the others' steps between two system calls, where the timer may interrupt the process.
use pandos_plus.Base.{ℕ, ◌+◌, Bool, true, false, List, ◌∷◌, ◌==◌, if◌then◌else◌}
use pandos_plus.Machine.{State}
use pandos_plus.Kernel.{Support}
use pandos_plus.Swap.{Pool, no_proc}

-- the semaphores of sysSupport.c, vmSupport.c and initProc.c
pub data SemName : Type 0 where
  printer : ℕ → SemName
  terminal : ℕ → SemName
  swap_pool : SemName
  master : SemName

abbrev pub same_sem : SemName → SemName → Bool
same_sem (printer i) (printer j) = i == j
same_sem (terminal i) (terminal j) = i == j
same_sem swap_pool swap_pool = true
same_sem master master = true
same_sem _ _ = false

-- `SYSCALL(code, a1, a2, a3)`, by its code
pub data Syscall : Type 0 where
  create_process : State → ℕ → ℕ → Syscall
  term_process : ℕ → Syscall
  passeren : SemName → Syscall
  verhogen : SemName → Syscall
  do_io : ℕ → ℕ → Syscall
  get_support_ptr : Syscall

-- `semaphore_t` has the word `val`, which the nucleus changes at P and V, and its owner.
pub record Shared : Type 0 where
  pub sem_val : SemName → ℕ
  pub user_asid : SemName → ℕ
  pub supports : ℕ → Support
  pub free_support : List ℕ
  pub curr_offset : ℕ
  pub pool : Pool
  -- the bytes of user memory, and the words `data0` of the devices by address
  pub bytes : ℕ → ℕ
  pub data0 : ℕ → ℕ

-- `calls` counts the system calls of the process, `log` holds them, the last first.
pub record World : Type 0 where
  pub shared : Shared
  pub calls : ℕ
  pub log : List Syscall

-- What the process meets: the support structure that the nucleus gives it, what its n-th system call
-- returns, and what the others do meanwhile; the readings of the time of day.
pub record Environment : Type 0 where
  pub support_ptr : ℕ
  pub answer : ℕ → Syscall → ℕ
  pub others : ℕ → Shared → Shared
  pub clock : ℕ → ℕ

-- How a process leaves: it resumes, in a state, it is terminated, or what follows is undefined in C.
pub data Exit : Type 0 where
  ldst : State → Exit
  terminated : Exit
  panic : Exit
  out_of_fuel : Exit
  undefined : Exit

pub data Act {ℓ} (A : Type ℓ) : Type ℓ where
  done : A → World → Act A
  exit : Exit → World → Act A

abbrev pub Prog {ℓ} : Type ℓ → Type ℓ
Prog A = World → Act A

module _ {ℓ κ} {A : Type ℓ} {B : Type κ} where
  abbrev pub and_then : Act A → (A → Prog B) → Act B
  and_then (done a w) f = f a w
  and_then (exit e w) f = exit e w

  infixl 5 ◌>>=◌
  abbrev pub ◌>>=◌ : Prog A → (A → Prog B) → Prog B
  m >>= f = λ w. and_then (m w) f

infixl 5 ◌>>◌
abbrev pub ◌>>◌ {ℓ} : {B : Type ℓ} → Prog (Unit {0}) → Prog B → Prog B
m >> n = λ w. and_then (m w) (λ _. n)

abbrev pub pure {ℓ} : {A : Type ℓ} → A → Prog A
pure a w = done a w

abbrev pub leave {ℓ} : {A : Type ℓ} → Exit → Prog A
leave e w = exit e w

abbrev pub get {ℓ} : {A : Type ℓ} → (Shared → A) → Prog A
get f w = done (f w.shared) w

abbrev pub change : (Shared → Shared) → Prog (Unit {0})
change f w = done tt (record w { shared = f w.shared })

abbrev pub world_after {ℓ} : {A : Type ℓ} → Act A → World
world_after (done a w) = w
world_after (exit e w) = w

abbrev pub set_user : SemName → ℕ → Shared → Shared
set_user sem asid s = record s {
  user_asid = λ other. if same_sem sem other then asid else s.user_asid other;
}

module _ (env : Environment) where
  -- the world when the system call returns
  abbrev pub called : Syscall → World → World
  called call w = record {
    shared = env.others w.calls w.shared;
    calls = w.calls + 1;
    log = call ∷ w.log;
  }

  abbrev pub syscall : Syscall → Prog ℕ
  syscall call w = done (env.answer w.calls call) (called call w)

  -- GETSUPPORTPTR
  abbrev pub support_pointer : Prog ℕ
  support_pointer w = done env.support_ptr (called get_support_ptr w)

  -- `SYSCALL(TERMPROCESS, 0, 0, 0)` does not return.
  abbrev pub exit_process {ℓ} : {A : Type ℓ} → Prog A
  exit_process w = exit terminated (record w { log = term_process 0 ∷ w.log })

  -- `P` and `V`
  unfoldable pub user_p : SemName → ℕ → Prog (Unit {0})
  user_p sem asid = do _ ← syscall (passeren sem); change (set_user sem asid)

  unfoldable pub user_v : SemName → Prog (Unit {0})
  user_v sem = do change (set_user sem no_proc); _ ← syscall (verhogen sem); pure tt

-- ===== src/Kernel.antt =====
-- The state of the nucleus: the globals of phase2/initial.c and phase2/scheduler.c, the tables of
-- phase 1 and the machine that the handlers read and write, and commands over it.
use pandos_plus.Base.{ℕ, Option, none, some, List, update}
use pandos_plus.Machine.{State, Context}
use pandos_plus.Pcb.{Pcb, PcbStore}
use pandos_plus.Asl.{Tables}

-- `support_t`, with its page table as the index of its first entry among all entries.
pub record Support : Type 0 where
  pub sup_asid : ℕ
  pub sup_except_state : ℕ → State
  pub sup_except_context : ℕ → Context
  pub sup_private_pg_tbl : ℕ

-- `mem` holds the words behind an `int *` and the device registers, `states` the `state_t` that a
-- user passes by address, `supports` the support structures. The time of day is an input: its
-- n-th reading is `clock n`, and `reads` counts the readings so far.
pub record Kernel : Type 0 where
  pub tables : Tables
  pub curr_process : Option ℕ
  pub process_count : ℕ
  pub softblocked_count : ℕ
  pub low_readyqueue : List ℕ
  pub high_readyqueue : List ℕ
  pub process_to_skip : Option ℕ
  pub timer_start : ℕ
  pub mem : ℕ → ℕ
  pub states : ℕ → State
  pub supports : ℕ → Support
  pub prev_state : State
  pub status : ℕ
  pub timer : ℕ
  pub interval_timer : ℕ
  pub clock : ℕ → ℕ
  pub reads : ℕ

-- How a handler leaves the nucleus: HALT, PANIC, WAIT, LDST, LDCXT. None of these returns. A fault
-- is a read or write through NULL.
pub data Leave : Type 0 where
  halt : Leave
  panic : Leave
  wait : Leave
  ldst : State → Leave
  ldcxt : Context → Leave
  fault : Leave
  out_of_fuel : Leave

pub data Run {ℓ} (A : Type ℓ) : Type ℓ where
  ok : A → Kernel → Run A
  left : Leave → Kernel → Run A

abbrev pub Cmd {ℓ} : Type ℓ → Type ℓ
Cmd A = Kernel → Run A

module _ {ℓ κ} {A : Type ℓ} {B : Type κ} where
  abbrev pub and_then : Run A → (A → Cmd B) → Run B
  and_then (ok a k) f = f a k
  and_then (left o k) f = left o k

  infixl 5 ◌>>=◌
  abbrev pub ◌>>=◌ : Cmd A → (A → Cmd B) → Cmd B
  m >>= f = λ k. and_then (m k) f

infixl 5 ◌>>◌
abbrev pub ◌>>◌ {ℓ} : {B : Type ℓ} → Cmd (Unit {0}) → Cmd B → Cmd B
m >> n = λ k. and_then (m k) (λ _. n)

abbrev pub pure {ℓ} : {A : Type ℓ} → A → Cmd A
pure a k = ok a k

abbrev pub leave {ℓ} : {A : Type ℓ} → Leave → Cmd A
leave o k = left o k

-- reads and writes of the state
abbrev pub get {ℓ} : {A : Type ℓ} → (Kernel → A) → Cmd A
get f k = ok (f k) k

abbrev pub modify : (Kernel → Kernel) → Cmd (Unit {0})
modify f k = ok tt (f k)

-- A pointer that is dereferenced.
abbrev pub deref {ℓ} : {A : Type ℓ} → Option A → Cmd A
deref none k = left fault k
deref (some a) k = ok a k

abbrev pub pcb_of : Kernel → ℕ → Pcb
pcb_of k p = k.tables.pcbs.pcb p

abbrev pub set_pcbs : PcbStore → Kernel → Kernel
set_pcbs s k = record k { tables = record { pcbs = s; asl = k.tables.asl } }

abbrev pub put_pcb : ℕ → Pcb → Kernel → Kernel
put_pcb p v k = set_pcbs (record (k.tables.pcbs) { pcb = update k.tables.pcbs.pcb p v }) k

abbrev pub state_after {ℓ} : {A : Type ℓ} → Run A → Kernel
state_after (ok a k) = k
state_after (left o k) = k

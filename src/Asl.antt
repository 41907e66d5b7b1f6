-- ===== src/Asl.antt =====
-- phase1/asl.c: the table of semaphore descriptors and the active semaphore list.
-- A semaphore's key is the address of its `int`; a descriptor is its index in `semd_table`.
pub mod Blocked
pub mod Invariant
pub mod Search
pub mod Tests
pub mod Tree
pub mod Unblocked
pub mod View
use pandos_plus.Base.{
  ℕ, zero, suc, Bool, true, false, Option, none, some, List, [], ◌∷◌, ltb, ◌==◌, if◌then◌else◌,
  erase, update,
}
use pandos_plus.Machine.{null}
use pandos_plus.Pcb.{PcbStore, max_proc, set_pcb}
use pandos_plus.ProcQueue.{
  mk_empty_proc_q, empty_proc_q, insert_proc_q, head_proc_q, remove_proc_q, out_proc_q,
}

-- `semd_t`
pub record Semd : Type 0 where
  pub s_key : ℕ
  pub s_procq : List ℕ

-- The statics of asl.c: `semd_table`, `semdFree_h` and `semd_h`.
pub record AslStore : Type 0 where
  pub semd : ℕ → Semd
  pub semd_free : List ℕ
  pub semd_h : List ℕ

-- What asl.c works on: its own statics, and the PCBs.
pub record Tables : Type 0 where
  pub pcbs : PcbStore
  pub asl : AslStore

abbrev pub key_of : AslStore → ℕ → ℕ
key_of a sem = (a.semd sem).s_key

abbrev pub queue_at : AslStore → ℕ → List ℕ
queue_at a sem = (a.semd sem).s_procq

abbrev pub set_queue : ℕ → List ℕ → AslStore → AslStore
set_queue sem q a = record a { semd = update a.semd sem (record (a.semd sem) { s_procq = q }) }

abbrev pub set_sem_add : ℕ → ℕ → PcbStore → PcbStore
set_sem_add p addr s = set_pcb p (record (s.pcb p) { p_sem_add = addr }) s

unfoldable pub add_free_semaphore : ℕ → AslStore → AslStore
add_free_semaphore sem a = record a { semd_free = sem ∷ a.semd_free }

unfoldable pub get_free_semaphore : AslStore → Option ℕ × AslStore
get_free_semaphore a = elim a.semd_free [
  | [] ↦ (none, a)
  | sem ∷ rest ↦ (some sem, record a { semd_free = rest })
]

-- The walk of `_addActiveSemaphore` over the list from `iter` on.
unfoldable pub insert_sem : AslStore → ℕ → List ℕ → List ℕ
insert_sem a new_sem [] = new_sem ∷ []
insert_sem a new_sem (iter ∷ rest) =
    if ltb (key_of a new_sem) (key_of a iter)
    then new_sem ∷ iter ∷ rest
    else iter ∷ insert_sem a new_sem rest

unfoldable pub add_active_semaphore : ℕ → AslStore → AslStore
unfolding insert_sem
add_active_semaphore new_sem a = record a { semd_h = insert_sem a new_sem a.semd_h }

-- The walk of `_peekActiveSemaphore`.
unfoldable pub scan_sems : AslStore → ℕ → List ℕ → Option ℕ
scan_sems a key [] = none
scan_sems a key (iter ∷ rest) =
    if key_of a iter == key
    then some iter
    else if ltb key (key_of a iter)
    then none
    else scan_sems a key rest

unfoldable pub peek_active_semaphore : ℕ → AslStore → Option ℕ
unfolding scan_sems
peek_active_semaphore key a = scan_sems a key a.semd_h

-- `s_key` and an empty queue
abbrev pub fill_semd : ℕ → ℕ → AslStore → AslStore
fill_semd sem key a = record a {
  semd = update a.semd sem (record { s_key = key; s_procq = mk_empty_proc_q });
}

unfoldable pub init_semaphore : ℕ → AslStore → Option ℕ × AslStore
unfolding get_free_semaphore add_active_semaphore
init_semaphore key a =
    let (new_sem, a') = get_free_semaphore a in
    elim new_sem [
      | none ↦ (none, a')
      | some sem ↦ (some sem, add_active_semaphore sem (fill_semd sem key a'))
    ]

unfoldable pub update_active_semaphore : ℕ → AslStore → AslStore
unfolding add_free_semaphore empty_proc_q
update_active_semaphore sem a =
    if empty_proc_q (queue_at a sem)
    then add_free_semaphore sem (record a { semd_h = erase sem a.semd_h })
    else a

unfoldable pub asl_loop : ℕ → AslStore → AslStore
unfolding add_free_semaphore
asl_loop zero a = a
asl_loop (suc i) a = asl_loop i (add_free_semaphore i a)

unfoldable pub init_asl : AslStore → AslStore
init_asl a = asl_loop max_proc (record a { semd_free = []; semd_h = [] })

-- The queue of `sem` takes `p` at its end, and `p` notes the semaphore.
unfoldable pub enqueue : ℕ → ℕ → ℕ → Tables → Tables
unfolding insert_proc_q
enqueue sem sem_add p t = record {
  asl = set_queue sem (insert_proc_q (queue_at t.asl sem) p) t.asl;
  pcbs = set_sem_add p sem_add t.pcbs;
}

-- The flag is TRUE if no descriptor is free.
unfoldable pub insert_blocked : ℕ → ℕ → Tables → Bool × Tables
insert_blocked sem_add p t = elim (peek_active_semaphore sem_add t.asl) [
  | some sem ↦ (false, enqueue sem sem_add p t)
  | none ↦
      let (sem, asl') = init_semaphore sem_add t.asl in
      let t' = record t { asl = asl' } in
      elim sem [ none ↦ (true, t') | some sem ↦ (false, enqueue sem sem_add p t') ]
]

-- The last steps of `removeBlocked` and `outBlocked`, once the queue has lost `pcb`. `none` is the
-- fault of `pcb->p_semAdd` at NULL.
unfoldable pub unblock : ℕ → Option ℕ → Tables → Option (Option ℕ × Tables)
unfolding update_active_semaphore
unblock sem none t = none
unblock sem (some pcb) t = some (
  some pcb,
  record { pcbs = set_sem_add pcb null t.pcbs; asl = update_active_semaphore sem t.asl },
)

unfoldable pub remove_blocked : ℕ → Tables → Option (Option ℕ × Tables)
unfolding unblock
remove_blocked sem_add t = elim (peek_active_semaphore sem_add t.asl) [
  | none ↦ some (none, t)
  | some sem ↦
      let (pcb, q) = remove_proc_q (queue_at t.asl sem) in
      unblock sem pcb (record t { asl = set_queue sem q t.asl })
]

pub out_blocked : ℕ → Tables → Option (Option ℕ × Tables)
unfolding unblock
out_blocked p t = elim (peek_active_semaphore (t.pcbs.pcb p).p_sem_add t.asl) [
  | none ↦ some (none, t)
  | some sem ↦
      let (pcb, q) = out_proc_q (queue_at t.asl sem) p in
      unblock sem pcb (record t { asl = set_queue sem q t.asl })
]

unfoldable pub head_blocked : ℕ → AslStore → Option ℕ
unfolding head_proc_q
head_blocked sem_add a = elim (peek_active_semaphore sem_add a) [
  | none ↦ none
  | some sem ↦ head_proc_q (queue_at a sem)
]

-- ===== src/Asl/Tests.antt =====
-- The semaphores of phase1/asl.c at concrete tables: processes 3 and 5 wait on the semaphore at
-- address 100.
use pandos_plus.Base.{
  ℕ, ◌⊎◌, ◌≢◌, ◌≡◌, refl, true, false, none, some, [], ◌∷◌, has, arith, if◌then◌else◌, ◌==◌, ◌↔◌,
  ◌∙◌, ap,
}
use pandos_plus.Pcb.{is_alive}
use pandos_plus.Pcb.Tests.{blank_pcbs}
use pandos_plus.ProcQueue.{mk_empty_proc_q}
use pandos_plus.Asl.{
  AslStore, Tables, init_asl, insert_blocked, remove_blocked, out_blocked, asl_loop,
  add_free_semaphore, get_free_semaphore, insert_sem, add_active_semaphore, scan_sems,
  peek_active_semaphore, init_semaphore, enqueue, key_of, queue_at,
}
use pandos_plus.Asl.Search.{peek_active_semaphore_iff}
use pandos_plus.Asl.View.{waiting}
use pandos_plus.Asl.Invariant.{IsValid, IsIdle, sem_add_of}
use pandos_plus.Asl.Unblocked.{init_asl-IsValid, Removed, remove_blocked_lem, out_blocked_lem}
use pandos_plus.Asl.Blocked.{Inserted, insert_blocked_lem, insert_blocked_full}

abbrev pub blank_asl : AslStore
blank_asl = record { semd = λ _. record { s_key = 0; s_procq = [] }; semd_free = []; semd_h = [] }

abbrev pub nobody_waits : Tables
nobody_waits = record { pcbs = blank_pcbs; asl = init_asl blank_asl }

abbrev pub one_waits : Tables
one_waits = (insert_blocked 100 3 nobody_waits).1

abbrev pub two_wait : Tables
two_wait = (insert_blocked 100 5 one_waits).1

pub nobody_waits-IsValid : IsValid nobody_waits
nobody_waits-IsValid = (init_asl-IsValid (record { pcbs = blank_pcbs; asl = blank_asl })).0

nobody_active : nobody_waits.asl.semd_h ≡ []
unfolding init_asl asl_loop add_free_semaphore
nobody_active = refl

pub nobody_waits-IsIdle : (p : ℕ) → IsIdle p nobody_waits
nobody_waits-IsIdle p i m = cc (ap (has i) nobody_active)

pub room_for_first : (insert_blocked 100 3 nobody_waits).0 ≡ false
unfolding insert_blocked init_asl asl_loop add_free_semaphore peek_active_semaphore scan_sems
    init_semaphore get_free_semaphore
room_for_first = refl

pub one_waits-Inserted : Inserted 100 3 nobody_waits one_waits
one_waits-Inserted =
    insert_blocked_lem nobody_waits 100 3 nobody_waits-IsValid (nobody_waits-IsIdle 3)
      room_for_first

one_active : (i : ℕ) → has i one_waits.asl.semd_h ≡ true → i ≡ 0
unfolding insert_blocked init_asl asl_loop add_free_semaphore peek_active_semaphore scan_sems
    init_semaphore get_free_semaphore enqueue add_active_semaphore insert_sem
one_active i m = ground (arith, m)

one_queue : queue_at one_waits.asl 0 ≡ 3 ∷ []
unfolding mk_empty_proc_q insert_blocked init_asl asl_loop add_free_semaphore peek_active_semaphore
    scan_sems init_semaphore get_free_semaphore enqueue add_active_semaphore insert_sem
one_queue = refl

pub one_waits-IsIdle : IsIdle 5 one_waits
one_waits-IsIdle i m = rw (one_active i m, one_queue) refl

pub room_for_second : (insert_blocked 100 5 one_waits).0 ≡ false
unfolding insert_blocked init_asl asl_loop add_free_semaphore peek_active_semaphore scan_sems
    init_semaphore get_free_semaphore enqueue add_active_semaphore insert_sem
room_for_second = refl

insert_blocked_lem_example : Inserted 100 5 one_waits two_wait
insert_blocked_lem_example =
    insert_blocked_lem one_waits 100 5 one_waits-Inserted.valid one_waits-IsIdle room_for_second

pub two_wait-Inserted : Inserted 100 5 one_waits two_wait
two_wait-Inserted =
    insert_blocked_lem one_waits 100 5 one_waits-Inserted.valid one_waits-IsIdle room_for_second

-- No descriptor is free, and the only active semaphore is the one at 100.
abbrev exhausted : Tables
exhausted = record one_waits { asl = record (one_waits.asl) { semd_free = [] } }

insert_blocked_full_example :
    ((peek_active_semaphore 104 exhausted.asl ≡ none)
      × (exhausted.asl.semd_free ≡ [])
      × (insert_blocked 104 5 exhausted ≡ (true, exhausted)))
    ⊎ (((peek_active_semaphore 104 exhausted.asl ≢ none) ⊎ (exhausted.asl.semd_free ≢ []))
        × ((insert_blocked 104 5 exhausted).0 ≡ false))
insert_blocked_full_example = insert_blocked_full exhausted 104 5

nobody_at : (key : ℕ) → waiting nobody_waits.asl key ≡ []
nobody_at = (init_asl-IsValid (record { pcbs = blank_pcbs; asl = blank_asl })).1

pub one_waits_on : (key : ℕ) → waiting one_waits.asl key ≡ (if 100 == key then 3 ∷ [] else [])
one_waits_on key = one_waits-Inserted.queue key ∙ ground (arith, nobody_at key)

pub two_wait_on : (key : ℕ) → waiting two_wait.asl key ≡ (if 100 == key then 3 ∷ 5 ∷ [] else [])
two_wait_on key = two_wait-Inserted.queue key ∙ ground (arith, one_waits_on key)

pub two_wait_here : waiting two_wait.asl 100 ≡ 3 ∷ 5 ∷ []
two_wait_here = two_wait_on 100

remove_blocked_lem_example :
    (t' : Tables) × (remove_blocked 100 two_wait ≡ some (some 3, t')) × Removed 100 3 two_wait t'
remove_blocked_lem_example =
    remove_blocked_lem two_wait 100 3 (5 ∷ []) two_wait-Inserted.valid two_wait_here

five_waits : has 5 (waiting two_wait.asl (sem_add_of two_wait 5)) ≡ true
five_waits = rw (two_wait-Inserted.noted, two_wait_here) refl

out_blocked_lem_example :
    (t' : Tables) × (out_blocked 5 two_wait ≡ some (some 5, t'))
    × Removed (sem_add_of two_wait 5) 5 two_wait t'
out_blocked_lem_example = out_blocked_lem two_wait 5 two_wait-Inserted.valid five_waits

peek_active_semaphore_iff_example :
    (peek_active_semaphore 100 two_wait.asl ≡ some 0)
    ↔ ((has 0 two_wait.asl.semd_h ≡ true) × (key_of two_wait.asl 0 ≡ 100))
peek_active_semaphore_iff_example =
    peek_active_semaphore_iff two_wait.asl 100 0 two_wait-Inserted.valid.linked.sorted

pub three_alive : is_alive two_wait.pcbs 3 ≡ true
unfolding insert_blocked init_asl asl_loop add_free_semaphore peek_active_semaphore scan_sems
    init_semaphore get_free_semaphore enqueue add_active_semaphore insert_sem
three_alive = refl

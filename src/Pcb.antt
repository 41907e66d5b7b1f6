-- ===== src/Pcb.antt =====
-- phase1/pcb.c: process control blocks, their pids, the queues and the tree that link them.
-- A pointer to a PCB is its index in `pcbFree_table`, `none` for NULL. A list anchored at a
-- `list_head` is the sequence of the PCBs it links.
pub mod Alloc
pub mod Created
pub mod Pids
pub mod Release
pub mod Tests
use pandos_plus.Base.{
  ℕ, zero, suc, ◌+◌, ◌*◌, ◌%◌, Bool, true, false, Option, none, some, List, [], ◌∷◌, reverse, ltb,
  leb, ◌==◌, if◌then◌else◌, get_last?, length, erase, update,
}
use pandos_plus.Machine.{State, null, word_mod}

abbrev pub max_proc : ℕ
max_proc = 20

-- `FREE_PCB_PID` is -1 in the unsigned `pid_t`.
abbrev pub free_pcb_pid : ℕ
free_pcb_pid = 0xffff_ffff

-- `pcb_t`. The links `p_list`, `p_sib` and `pid_list` are the sequences that hold the PCB.
pub record Pcb : Type 0 where
  pub p_parent : Option ℕ
  pub p_child : List ℕ
  pub p_s : State
  pub p_time : ℕ
  pub p_sem_add : ℕ
  pub p_support_struct : ℕ
  pub p_prio : ℕ
  pub p_pid : ℕ

-- The file's static variables: `pcbFree_table`, `pcbFree_h`, `pid_list_h` and `curr_pid`.
pub record PcbStore : Type 0 where
  pub pcb : ℕ → Pcb
  pub pcb_free : List ℕ
  pub pid_list : List ℕ
  pub curr_pid : ℕ

abbrev pub pid_of : PcbStore → ℕ → ℕ
pid_of s p = (s.pcb p).p_pid

abbrev pub set_pcb : ℕ → Pcb → PcbStore → PcbStore
set_pcb p v s = record s { pcb = update s.pcb p v }

-- `IS_ALIVE`
abbrev pub is_alive : PcbStore → ℕ → Bool
is_alive s p = if pid_of s p == free_pcb_pid then false else true

-- One round: `list_add` puts the PCB in front.
unfoldable pub init_entry : ℕ → PcbStore → PcbStore
init_entry i s = record s {
  pcb_free = i ∷ s.pcb_free;
  pcb = update s.pcb i (record (s.pcb i) { p_pid = free_pcb_pid });
}

-- The loop counts down.
unfoldable pub init_loop : ℕ → PcbStore → PcbStore
init_loop zero s = s
init_loop (suc i) s = init_loop i (init_entry i s)

unfoldable pub init_pcbs : PcbStore → PcbStore
unfolding init_loop init_entry
init_pcbs s = init_loop max_proc (record s { pcb_free = []; pid_list = []; curr_pid = 1 })

unfoldable pub free_pcb : ℕ → PcbStore → PcbStore
free_pcb p s = record s {
  pcb_free = p ∷ s.pcb_free;
  pid_list = erase p s.pid_list;
  pcb = update s.pcb p (record (s.pcb p) { p_pid = free_pcb_pid });
}

-- The walk of `getProcessByPid` over the pid list from `iter` on.
pub scan_pids : PcbStore → ℕ → List ℕ → Option ℕ
scan_pids s pid [] = none
scan_pids s pid (iter ∷ rest) =
    if pid_of s iter == pid
    then some iter
    else if ltb pid (pid_of s iter)
    then none
    else scan_pids s pid rest

pub get_process_by_pid : ℕ → PcbStore → Option ℕ
unfolding scan_pids
get_process_by_pid pid s = scan_pids s pid s.pid_list

-- `while (getProcessByPid(curr_pid) != NULL) curr_pid++`, on fuel.
unfoldable pub skip_used : ℕ → PcbStore → ℕ → ℕ
skip_used zero s c = c
skip_used (suc fuel) s c = elim (get_process_by_pid c s) [
  | none ↦ c
  | some p ↦ skip_used fuel s ((c + 1) % word_mod)
]

-- The pid that `_generatePid` returns. The pids in use are distinct, so that two rounds per
-- process, one before the counter wraps and one after, and one more are enough.
unfoldable pub next_pid : PcbStore → ℕ
unfolding skip_used
next_pid s =
    let c = if s.curr_pid == 0 then 1 else s.curr_pid in
    elim (get_last? s.pid_list) [
      | none ↦ c
      | some last ↦ if leb c (pid_of s last) then skip_used (2 * length s.pid_list + 2) s c else c
    ]

unfoldable pub generate_pid : PcbStore → ℕ × PcbStore
generate_pid s = let pid = next_pid s in (pid, record s { curr_pid = (pid + 1) % word_mod })

-- The priority and the other registers keep what the last owner left.
unfoldable pub init_pcb : ℕ → PcbStore → PcbStore
init_pcb p s =
    let (pid, s') = generate_pid s in
    let old = s'.pcb p in
    set_pcb p
      (record {
        p_parent = none;
        p_child = [];
        p_s = record (old.p_s) { entry_hi = pid };
        p_time = 0;
        p_sem_add = null;
        p_support_struct = null;
        p_prio = old.p_prio;
        p_pid = pid;
      })
      s'

-- The walk of `_addPid` from the end of the list: the sequence is the list reversed.
unfoldable pub insert_back : PcbStore → ℕ → List ℕ → List ℕ
insert_back s p [] = p ∷ []
insert_back s p (iter ∷ rest) =
    if leb (pid_of s iter) (pid_of s p) then p ∷ iter ∷ rest else iter ∷ insert_back s p rest

unfoldable pub add_pid : ℕ → PcbStore → PcbStore
unfolding insert_back
add_pid p s = record s { pid_list = reverse (insert_back s p (reverse s.pid_list)) }

unfoldable pub alloc_pcb : PcbStore → Option ℕ × PcbStore
unfolding init_pcb add_pid
alloc_pcb s = elim s.pcb_free [
  | [] ↦ (none, s)
  | out ∷ rest ↦ (some out, add_pid out (init_pcb out (record s { pcb_free = rest })))
]

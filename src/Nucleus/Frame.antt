-- ===== src/Nucleus/Frame.antt =====
-- Changes of a PCB that the state of the nucleus as a whole does not see: its saved state, its time
-- and its support structure.
use pandos_plus.Base.{
  ◌+◌, ◌-◌, ◌≤◌, some, length, ◌⊎◌, either_number, ==_refl, arith, ℕ, ◌≡◌, ◌∙◌, refl, sym, ap, ◌==◌,
  Option, List, if◌then◌else◌, update, inl, inr, All-map, Ordered-map, count, false,
}
use pandos_plus.Pcb.{Pcb, PcbStore}
use pandos_plus.Machine.{State}
use pandos_plus.Pcb.Alloc
use pandos_plus.Asl.{Tables}
use pandos_plus.Asl.Invariant
use pandos_plus.Asl.Invariant.{sem_add_of}
use pandos_plus.ProcTree.Family.{is_parent}
use pandos_plus.Scheduler.{process_prio_low}
use pandos_plus.Scheduler.Queues.{held}
use pandos_plus.ProcTree.Family.{IsLinked}
use pandos_plus.Nucleus.{in_use, IsSettled, queued, prio_of}

-- The fields that the tables and the tree depend on.
pub record Agrees (a b : Pcb) : Type 0 where
  pub pid : b.p_pid ≡ a.p_pid
  pub parent : b.p_parent ≡ a.p_parent
  pub child : b.p_child ≡ a.p_child
  pub sem_add : b.p_sem_add ≡ a.p_sem_add

Agrees-refl : (a : Pcb) → Agrees a a
Agrees-refl a = record { pid = refl; parent = refl; child = refl; sem_add = refl }

pub same_pids-IsValid :
    (s : PcbStore) (f : ℕ → Pcb)
    → ((q : ℕ) → (f q).p_pid ≡ (s.pcb q).p_pid)
    → Alloc.IsValid s
    → Alloc.IsValid (record s { pcb = f })
same_pids-IsValid s f same v = record {
  sorted = Ordered-map _ _ s.pid_list (λ x y lt. rw (same x, same y) lt) v.sorted;
  owners = v.owners;
  total = v.total;
  freed = All-map _ _ s.pcb_free (λ x e. same x ∙ e) v.freed;
  words = All-map _ _ s.pid_list (λ x lt. rw (same x) lt) v.words;
  counter = v.counter;
}

pub same_sem_adds-IsValid :
    (t : Tables) (s : PcbStore)
    → ((q : ℕ) → (s.pcb q).p_sem_add ≡ sem_add_of t q)
    → Invariant.IsValid t
    → Invariant.IsValid (record { pcbs = s; asl = t.asl })
same_sem_adds-IsValid t s same v = record {
  linked = record {
    sorted = v.linked.sorted;
    owners = v.linked.owners;
    waits = λ i p mi mp. same p ∙ v.linked.waits i p mi mp;
    once = v.linked.once;
  };
  nonempty = v.nonempty;
}

module _ (dying : List ℕ) (t : Tables) (n : ℕ) (low high : List ℕ) (curr : Option ℕ)
    (h : IsSettled dying t n low high curr) where
  -- The priority of a process that is in no queue may change.
  abbrev pub MayRank : ℕ → ℕ → Type 0
  MayRank q prio = (prio ≡ prio_of t q) ⊎ (queued t low high q ≡ 0)

  -- PCBs with the same pid and semaphore, and a tree that is right.
  pub retree-IsSettled :
      (f : ℕ → Pcb)
      → ((q : ℕ) → (f q).p_pid ≡ (t.pcbs.pcb q).p_pid)
      → ((q : ℕ) → (f q).p_sem_add ≡ sem_add_of t q)
      → ((q : ℕ) → MayRank q (f q).p_prio)
      → IsLinked (record (t.pcbs) { pcb = f })
      → ((c q : ℕ) → (f c).p_parent ≡ some q → (in_use t.pcbs c ≡ 1) × (in_use t.pcbs q ≡ 1))
      → IsSettled dying (record { pcbs = record (t.pcbs) { pcb = f }; asl = t.asl }) n low high curr
  retree-IsSettled f pid sem_add rank linked kin = record {
    pcbs = same_pids-IsValid t.pcbs f pid h.pcbs;
    asl = same_sem_adds-IsValid t (record (t.pcbs) { pcb = f }) sem_add h.asl;
    alive = λ q uses e. h.alive q uses (sym (pid q) ∙ e);
    linked = linked;
    kin = kin;
    counted = h.counted;
    limbo = h.limbo;
    placed = λ p. rw (sem_add p) (h.placed p);
    ranked =
        λ p. elim (rank p) [ inl e ↦ rw e (h.ranked p) | inr none_of ↦ ground (arith, none_of) ];
    noted = λ p used. rw (sem_add p) (h.noted p used);
    nowhere = h.nowhere;
  }

  pub same-IsSettled :
      (f : ℕ → Pcb)
      → ((q : ℕ) → Agrees (t.pcbs.pcb q) (f q))
      → ((q : ℕ) → MayRank q (f q).p_prio)
      → IsSettled dying (record { pcbs = record (t.pcbs) { pcb = f }; asl = t.asl }) n low high curr
  same-IsSettled f same rank =
      retree-IsSettled f (λ q. (same q).pid) (λ q. (same q).sem_add) rank
        (λ p c.
          ap (count c) (same p).child
          ∙ h.linked p c
          ∙ ap (λ (o : Option ℕ). if is_parent p o then 1 else 0) (sym (same c).parent))
        (λ c q e. h.kin c q (sym (same c).parent ∙ e))

  -- Processes move between the queues, the current process and those in between.
  pub moved-IsSettled :
      (dying' : List ℕ) (n' : ℕ) (low' high' : List ℕ) (curr' : Option ℕ)
      → n' + length dying' ≡ n + length dying
      → ((p : ℕ)
          → (count p dying' ≤ in_use t.pcbs p)
            × (queued t low' high' p ≡ in_use t.pcbs p - count p dying' - held p curr'))
      → ((p : ℕ) → (if prio_of t p == process_prio_low then count p high' else count p low') ≡ 0)
      → IsSettled dying' t n' low' high' curr'
  moved-IsSettled dying' n' low' high' curr' counted placed ranked = record {
    pcbs = h.pcbs;
    asl = h.asl;
    alive = h.alive;
    linked = h.linked;
    kin = h.kin;
    counted = counted ∙ h.counted;
    limbo = λ p. (placed p).0;
    placed = λ p. (placed p).1;
    ranked = ranked;
    noted = h.noted;
    nowhere = h.nowhere;
  }

  -- One PCB changes.
  pub put-IsSettled :
      (p : ℕ) (v : Pcb)
      → Agrees (t.pcbs.pcb p) v
      → MayRank p v.p_prio
      → IsSettled dying
          (record { pcbs = record (t.pcbs) { pcb = update t.pcbs.pcb p v }; asl = t.asl })
          n
          low
          high
          curr
  put-IsSettled p v same rank =
      same-IsSettled (update t.pcbs.pcb p v)
        (either_number _ p (rw (==_refl p) same)
          λ q ne. rw (other q ne) (Agrees-refl (t.pcbs.pcb q)))
        (either_number _ p (rw (==_refl p) rank) λ q ne. rw (other q ne) (inl refl))
    where
      other : (q : ℕ) → (q == p) ≡ false → (p == q) ≡ false
      other q ne = ground arith

-- A change of the other fields.
pub unchanged :
    (a : Pcb) (s : State) (time support : ℕ)
    → Agrees a (record a { p_s = s; p_time = time; p_support_struct = support })
unchanged a s time support = record { pid = refl; parent = refl; child = refl; sem_add = refl }

-- ===== src/Pcb/Release.antt =====
-- Release of PCBs and the initial store: both meet the invariant of `Pcb.Alloc`.
use pandos_plus.Base.{
  ℕ, zero, suc, ◌+◌, ◌≡◌, refl, true, false, [], arith, ltb, ◌==◌, if◌then◌else◌, has, count, erase,
  All, All-map, All-map_has, Ordered-map_has, All-erase, Ordered-erase, count-erase, has_iff-count,
  length-erase, ne_of_has,
}
use pandos_plus.Pcb.{
  PcbStore, max_proc, free_pcb_pid, pid_of, init_entry, init_loop, init_pcbs, free_pcb,
}
use pandos_plus.Pcb.Alloc.{IsValid}

-- the pids after `freePcb`
pid_of-free_pcb :
    (s : PcbStore) (p q : ℕ)
    → pid_of (free_pcb p s) q ≡ (if p == q then free_pcb_pid else pid_of s q)
unfolding free_pcb
pid_of-free_pcb s p q = ground arith

module _ (s : PcbStore) (p : ℕ) (v : IsValid s) where
  gone : has p (erase p s.pid_list) ≡ false
  gone =
      ground (arith, has_iff-count p (erase p s.pid_list), count-erase p p s.pid_list, v.owners p)

  stays : (x : ℕ) → has x (erase p s.pid_list) ≡ true → pid_of (free_pcb p s) x ≡ pid_of s x
  stays x m = rw (pid_of-free_pcb s p x, ne_of_has p (erase p s.pid_list) gone x m)

  -- `freePcb` of a process in use keeps the invariant.
  pub free_pcb-IsValid : has p s.pid_list ≡ true → IsValid (free_pcb p s)
  unfolding free_pcb
  free_pcb-IsValid m = record {
    sorted =
        Ordered-map_has _ _ (erase p s.pid_list) (λ x y mx my lt. rw (stays x mx, stays y my) lt)
          (Ordered-erase _ p s.pid_list v.sorted);
    owners =
        λ q. ground (arith, v.owners q, count-erase q p s.pid_list, has_iff-count p s.pid_list);
    total = ground (arith, v.total, length-erase p s.pid_list, has_iff-count p s.pid_list);
    freed = (
      ground arith,
      All-map (λ x. pid_of s x ≡ free_pcb_pid) _ s.pcb_free
          (λ x h. rw (pid_of-free_pcb s p x) (ground arith)) v.freed,
    );
    words =
        All-map_has _ _ (erase p s.pid_list) (λ x mx h. rw (stays x mx) h)
          (All-erase _ p s.pid_list v.words);
    counter = v.counter;
  }

init_loop-count :
    (n q : ℕ) (s : PcbStore)
    → count q (init_loop n s).pcb_free ≡ (if ltb q n then 1 else 0) + count q s.pcb_free
unfolding init_loop init_entry
init_loop-count zero q s = ground arith
init_loop-count (suc i) q s = ground (arith, init_loop-count i q (init_entry i s))

init_loop-freed :
    (n : ℕ) (s : PcbStore)
    → All (λ p. pid_of s p ≡ free_pcb_pid) s.pcb_free
    → All (λ p. pid_of (init_loop n s) p ≡ free_pcb_pid) (init_loop n s).pcb_free
unfolding init_loop init_entry
init_loop-freed zero s h = h
init_loop-freed (suc i) s h =
    init_loop-freed i (init_entry i s)
      (ground arith, All-map (λ x. pid_of s x ≡ free_pcb_pid) _ s.pcb_free (λ x e. ground arith) h)

-- `initPcbs` makes the invariant true, whatever the statics held.
pub init_pcbs-IsValid : (s : PcbStore) → IsValid (init_pcbs s)
unfolding init_pcbs
init_pcbs-IsValid s = record {
  sorted = tt;
  owners = λ p.
      ground (
        arith,
        init_loop-count max_proc p (record s { pcb_free = []; pid_list = []; curr_pid = 1 }),
      );
  total = refl;
  freed = init_loop-freed max_proc (record s { pcb_free = []; pid_list = []; curr_pid = 1 }) tt;
  words = tt;
  counter = omega arith;
}

-- `freePcb` leaves the tree of processes alone.
pub free_pcb-tree :
    (p q : ℕ) (s : PcbStore)
    → (((free_pcb p s).pcb q).p_child ≡ (s.pcb q).p_child)
      × (((free_pcb p s).pcb q).p_parent ≡ (s.pcb q).p_parent)
unfolding free_pcb
free_pcb-tree p q s = (ground arith, ground arith)

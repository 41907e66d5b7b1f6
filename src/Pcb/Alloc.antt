-- ===== src/Pcb/Alloc.antt =====
-- Allocation and release of PCBs: the invariant of the statics of pcb.c and what keeps it.
use pandos_plus.Base.{
  ℕ, suc, ◌+◌, ◌<◌, ◌≡◌, refl, ◌≢◌, inl, inr, true, false, List, [], ◌∷◌, reverse, arith, ltb, leb,
  ◌==◌, if◌then◌else◌, has, length, count, All, Ordered, All-map, All-map_has, Ordered-map_has,
  Ordered-reverse, All-reverse, count-reverse, length-reverse, Bool-cases, has_iff-count, ap,
  ==_refl, ne_of_has, subst,
}
use pandos_plus.Machine.{word_mod}
use pandos_plus.Pcb.{
  PcbStore, max_proc, free_pcb_pid, pid_of, next_pid, generate_pid, init_pcb, insert_back, add_pid,
  alloc_pcb,
}
use pandos_plus.Pcb.Pids.{IsSorted, next_pid-fresh, next_pid-lt}

-- Every PCB of the table is either free or in the pid list, and once; the pid list is sorted; a
-- free PCB has the pid `FREE_PCB_PID`.
pub record IsValid (s : PcbStore) : Type 0 where
  pub sorted : IsSorted s s.pid_list
  pub owners : (p : ℕ) → count p s.pcb_free + count p s.pid_list ≡ (if ltb p max_proc then 1 else 0)
  pub total : length s.pcb_free + length s.pid_list ≡ max_proc
  pub freed : All (λ p. pid_of s p ≡ free_pcb_pid) s.pcb_free
  pub words : All (λ p. pid_of s p < word_mod) s.pid_list
  pub counter : s.curr_pid < word_mod

module _ (s : PcbStore) (p : ℕ) where
  All-insert_back : (P : ℕ → Type 0) (xs : List ℕ) → P p → All P xs → All P (insert_back s p xs)
  unfolding insert_back
  All-insert_back P [] h k = (h, tt)
  All-insert_back P (x ∷ xs) h k = elim (Bool-cases (leb (pid_of s x) (pid_of s p))) [
    | inl e ↦ rw e (h, k)
    | inr e ↦ rw e (k.0, All-insert_back P xs h k.1)
  ]

  pub count-insert_back :
      (a : ℕ) (xs : List ℕ) → count a (insert_back s p xs) ≡ (if a == p then 1 else 0) + count a xs
  unfolding insert_back
  count-insert_back a [] = refl
  count-insert_back a (x ∷ xs) = ground (arith, count-insert_back a xs)

  pub length-insert_back : (xs : List ℕ) → length (insert_back s p xs) ≡ suc (length xs)
  unfolding insert_back
  length-insert_back [] = refl
  length-insert_back (x ∷ xs) = ground (arith, length-insert_back xs)

  Ordered-insert_back :
      (xs : List ℕ)
      → Ordered (λ a b. pid_of s b < pid_of s a) xs
      → All (λ a. pid_of s a ≢ pid_of s p) xs
      → Ordered (λ a b. pid_of s b < pid_of s a) (insert_back s p xs)
  unfolding insert_back
  Ordered-insert_back [] o ne = (tt, tt)
  Ordered-insert_back (x ∷ xs) o ne = elim (Bool-cases (leb (pid_of s x) (pid_of s p))) [
    | inl e ↦
        let lt : pid_of s x < pid_of s p = ground arith in
        rw e ((lt, All-map _ _ xs (λ a h. omega arith) o.0), o)
    | inr e ↦ rw e (
      All-insert_back (λ b. pid_of s b < pid_of s x) xs (ground arith) o.0,
      Ordered-insert_back xs o.1 ne.1,
    )
  ]

  -- `_addPid` keeps the pid list sorted, if the new pid is not in use.
  add_pid-IsSorted :
      IsSorted s s.pid_list
      → All (λ a. pid_of s a ≢ pid_of s p) s.pid_list
      → IsSorted s (add_pid p s).pid_list
  unfolding add_pid
  add_pid-IsSorted o ne =
      Ordered-reverse (λ a b. pid_of s b < pid_of s a) (insert_back s p (reverse s.pid_list))
        (Ordered-insert_back (reverse s.pid_list)
          (Ordered-reverse (λ a b. pid_of s a < pid_of s b) s.pid_list o)
          (All-reverse _ s.pid_list ne))

pid_of-init_pcb :
    (s : PcbStore) (p q : ℕ) → pid_of (init_pcb p s) q ≡ (if p == q then next_pid s else pid_of s q)
unfolding init_pcb generate_pid
pid_of-init_pcb s p q = ground arith

module _ (s : PcbStore) (out : ℕ) (rest : List ℕ) (v : IsValid s)
    (e : s.pcb_free ≡ out ∷ rest) where
  -- the store with the head of the free list taken off
  abbrev pub taken : PcbStore
  taken = record s { pcb_free = rest }

  abbrev pub fresh : PcbStore
  fresh = init_pcb out taken

  out_not_used : (has out s.pid_list ≡ false) × (has out rest ≡ false)
  out_not_used =
      let own = v.owners out in
      (
        ground (arith, has_iff-count out s.pid_list, ap (count out) e),
        ground (arith, has_iff-count out rest, ap (count out) e),
      )

  pid_kept :
      (xs : List ℕ) → has out xs ≡ false → (x : ℕ) → has x xs ≡ true → pid_of fresh x ≡ pid_of s x
  pid_kept xs h x m = rw (pid_of-init_pcb taken out x, ne_of_has out xs h x m)

  pub pid_out : pid_of fresh out ≡ next_pid taken
  pid_out = rw (pid_of-init_pcb taken out out, ==_refl out)

  pub few_pids : length s.pid_list < word_mod
  few_pids = omega (arith, v.total)

  kept-IsSorted : IsSorted fresh s.pid_list
  kept-IsSorted =
      let kept = pid_kept s.pid_list out_not_used.0 in
      Ordered-map_has _ _ s.pid_list (λ x y mx my lt. rw (kept x mx, kept y my) lt) v.sorted

  kept_ne : All (λ a. pid_of fresh a ≢ pid_of fresh out) s.pid_list
  kept_ne =
      All-map_has _ _ s.pid_list (λ x m ne. rw (pid_kept s.pid_list out_not_used.0 x m, pid_out) ne)
        (next_pid-fresh taken v.sorted v.counter few_pids)

  freed_kept : All (λ p. pid_of s p ≡ free_pcb_pid) rest
  freed_kept = (subst (All (λ p. pid_of s p ≡ free_pcb_pid)) e v.freed).1

  pid_list-fresh : fresh.pid_list ≡ s.pid_list
  unfolding init_pcb generate_pid
  pid_list-fresh = refl

  -- `allocPcb` on a free list that is not empty.
  alloc-IsValid : IsValid (add_pid out fresh)
  unfolding init_pcb generate_pid add_pid
  alloc-IsValid = record {
    sorted = add_pid-IsSorted fresh out kept-IsSorted kept_ne;
    owners = λ p. ground (
      arith,
      v.owners p,
      ap (count p) e,
      count-reverse p (insert_back fresh out (reverse s.pid_list)),
      count-insert_back fresh out p (reverse s.pid_list),
      count-reverse p s.pid_list,
    );
    total = ground (
      arith,
      v.total,
      ap (length {A = ℕ}) e,
      length-reverse (insert_back fresh out (reverse s.pid_list)),
      length-insert_back fresh out (reverse s.pid_list),
      length-reverse s.pid_list,
    );
    freed = All-map_has _ _ rest (λ x m h. rw (pid_kept rest out_not_used.1 x m) h) freed_kept;
    words = All-reverse _ (insert_back fresh out (reverse s.pid_list)) (
        All-insert_back fresh out _ (reverse s.pid_list) (rw pid_out (next_pid-lt taken v.counter))
          (All-reverse _ s.pid_list (
            All-map_has _ _ s.pid_list (λ x m h. rw (pid_kept s.pid_list out_not_used.0 x m) h)
              v.words)));
    counter = omega arith;
  }

-- `allocPcb` keeps the invariant on every branch.
pub alloc_pcb-IsValid : (s : PcbStore) → IsValid s → IsValid (alloc_pcb s).1
unfolding alloc_pcb
alloc_pcb-IsValid s v = by_free s.pcb_free refl
  where
    by_free : (free : List ℕ) → s.pcb_free ≡ free → IsValid (alloc_pcb s).1
    by_free [] e = rw (e, alloc_pcb) v
    by_free (out ∷ rest) e = rw (e, alloc_pcb) (alloc-IsValid s out rest v e)

-- ===== src/Pcb/Pids.antt =====
-- The pids of pcb.c: a search of the sorted pid list finds exactly the pids in use, and a generated
-- pid is not in use, also after the counter has wrapped.
use pandos_plus.Base.{
  ℕ, zero, suc, ◌+◌, ◌*◌, ◌%◌, ◌≤◌, ◌<◌, ◌≡◌, ◌≢◌, ◌↔◌, inl, inr, true, none, some, List, [], ◌∷◌,
  ap, arith, leb, ◌==◌, if◌then◌else◌, has, length, get_last?, All, Ordered, All-has, All-map,
  All-of_has, Option-cases, Bool-cases,
}
use pandos_plus.Machine.{word_mod}
use pandos_plus.Pcb.{PcbStore, pid_of, scan_pids, get_process_by_pid, skip_used, next_pid}

-- Pids strictly increase along the list.
abbrev pub IsSorted : PcbStore → List ℕ → Type 0
IsSorted s = Ordered (λ p q. pid_of s p < pid_of s q)

module _ (s : PcbStore) where
  scan_pids_sound :
      (pid p : ℕ) (xs : List ℕ)
      → scan_pids s pid xs ≡ some p
      → (has p xs ≡ true) × (pid_of s p ≡ pid)
  unfolding scan_pids
  scan_pids_sound pid p [] h = cc
  scan_pids_sound pid p (x ∷ xs) h = ground (arith, scan_pids_sound pid p xs)

  scan_pids_complete :
      (p : ℕ) (xs : List ℕ) → IsSorted s xs → has p xs ≡ true → scan_pids s (pid_of s p) xs ≡ some p
  unfolding scan_pids
  scan_pids_complete p [] o h = cc
  scan_pids_complete p (x ∷ xs) o h = elim (Bool-cases (p == x)) [
    | inl e ↦ ground arith
    | inr e ↦
        let later : has p xs ≡ true = rw e at h in
        ground (arith, scan_pids_complete p xs o.1 later, All-has _ p xs later o.0)
  ]

  -- how many PCBs of the list have a pid of `c` or more
  above : ℕ → List ℕ → ℕ
  above c [] = 0
  above c (x ∷ xs) = (if leb c (pid_of s x) then 1 else 0) + above c xs

  above-le-length : (c : ℕ) (xs : List ℕ) → above c xs ≤ length xs
  unfolding above
  above-le-length c [] = omega arith
  above-le-length c (x ∷ xs) = ground (arith, above-le-length c xs)

  above-suc-le : (c : ℕ) (xs : List ℕ) → above (c + 1) xs ≤ above c xs
  unfolding above
  above-suc-le c [] = omega arith
  above-suc-le c (x ∷ xs) = ground (arith, above-suc-le c xs)

  above-suc-lt :
      (c p : ℕ) (xs : List ℕ) → has p xs ≡ true → pid_of s p ≡ c → above (c + 1) xs < above c xs
  unfolding above
  above-suc-lt c p [] h e = cc
  above-suc-lt c p (x ∷ xs) h e = ground (arith, above-suc-lt c p xs, above-suc-le c xs)

  skip_used_no_wrap :
      (fuel c : ℕ)
      → above c s.pid_list < fuel
      → c + above c s.pid_list < word_mod
      → get_process_by_pid (skip_used fuel s c) s ≡ none
  unfolding skip_used get_process_by_pid
  skip_used_no_wrap zero c few small = absurd (omega arith)
  skip_used_no_wrap (suc fuel) c few small = elim (Option-cases (scan_pids s c s.pid_list)) [
    | inl e ↦ rw (e, skip_used) e
    | inr (p, e) ↦
        let (used, eq) = scan_pids_sound c p s.pid_list e in
        let fewer = above-suc-lt c p s.pid_list used eq in
        let same : (c + 1) % word_mod ≡ c + 1 = omega arith in
        rw (e, skip_used, same) (skip_used_no_wrap fuel (c + 1) (omega arith) (omega arith))
  ]

  skip_used_lem :
      (fuel c : ℕ)
      → above c s.pid_list + length s.pid_list + 1 < fuel
      → c < word_mod
      → length s.pid_list < word_mod
      → get_process_by_pid (skip_used fuel s c) s ≡ none
  unfolding skip_used get_process_by_pid
  skip_used_lem zero c few cw small = absurd (omega arith)
  skip_used_lem (suc fuel) c few cw small = elim (Option-cases (scan_pids s c s.pid_list)) [
    | inl e ↦ rw (e, skip_used) e
    | inr (p, e) ↦
        let (used, eq) = scan_pids_sound c p s.pid_list e in
        let fewer = above-suc-lt c p s.pid_list used eq in
        elim (Bool-cases (c + 1 == word_mod)) [
          | inl last ↦
              let wrapped : (c + 1) % word_mod ≡ 0 = ground arith in
              rw (e, skip_used, wrapped)
                (skip_used_no_wrap fuel 0 (omega (arith, above-le-length 0 s.pid_list))
                  (omega (arith, above-le-length 0 s.pid_list)))
          | inr more ↦
              let same : (c + 1) % word_mod ≡ c + 1 = ground arith in
              rw (e, skip_used, same)
                (skip_used_lem fuel (c + 1) (omega arith) (ground arith) small)
        ]
  ]

  unused_of_none :
      (pid : ℕ)
      → IsSorted s s.pid_list
      → get_process_by_pid pid s ≡ none
      → All (λ p. pid_of s p ≢ pid) s.pid_list
  unfolding get_process_by_pid
  unused_of_none pid o e =
      All-of_has _ s.pid_list
        λ p m eq. cc (scan_pids_complete p s.pid_list o m, ap (λ k. scan_pids s k s.pid_list) eq)

  le-get_last? :
      (xs : List ℕ) (last : ℕ)
      → IsSorted s xs
      → get_last? xs ≡ some last
      → All (λ p. pid_of s p ≤ pid_of s last) xs
  le-get_last? [] last o e = tt
  le-get_last? (x ∷ []) last o e = (ground arith, tt)
  le-get_last? (x ∷ y ∷ xs) last o e =
      let rest = le-get_last? (y ∷ xs) last o.1 e in (omega (arith, rest.0), rest)

  get_last?-cons : (x : ℕ) (xs : List ℕ) → ¬ (get_last? (x ∷ xs) ≡ none)
  get_last?-cons x [] e = cc
  get_last?-cons x (y ∷ xs) e = get_last?-cons y xs e

  All-of_get_last?-none : (P : ℕ → Type 0) (xs : List ℕ) → get_last? xs ≡ none → All P xs
  All-of_get_last?-none P [] e = tt
  All-of_get_last?-none P (x ∷ xs) e = absurd (get_last?-cons x xs e)

  -- A search of the sorted pid list finds a PCB exactly if it is in use and has that pid.
  pub get_process_by_pid_iff :
      (pid p : ℕ)
      → IsSorted s s.pid_list
      → (get_process_by_pid pid s ≡ some p) ↔ ((has p s.pid_list ≡ true) × (pid_of s p ≡ pid))
  unfolding get_process_by_pid
  get_process_by_pid_iff pid p o =
      (scan_pids_sound pid p s.pid_list, λ h. rw (← h.1) (scan_pids_complete p s.pid_list o h.0))

  fresh_from :
      (c : ℕ)
      → IsSorted s s.pid_list
      → c < word_mod
      → length s.pid_list < word_mod
      → All
          (λ p. pid_of s p ≢ elim (get_last? s.pid_list) [
            | none ↦ c
            | some last ↦
                if leb c (pid_of s last) then skip_used (2 * length s.pid_list + 2) s c else c
          ])
          s.pid_list
  fresh_from c o cw small = elim (Option-cases (get_last? s.pid_list)) [
    | inl e ↦ All-of_get_last?-none _ s.pid_list e
    | inr (last, e) ↦ elim (Bool-cases (leb c (pid_of s last))) [
      | inl below ↦
          let done =
            skip_used_lem (2 * length s.pid_list + 2) c
              (omega (arith, above-le-length c s.pid_list)) cw small in
          rw (e, below) (unused_of_none _ o done)
      | inr over ↦
          rw (e, over)
            (All-map _ _ s.pid_list (λ p h eq. ground arith) (le-get_last? s.pid_list last o e))
    ]
  ]

  -- A generated pid belongs to no process in use, whatever the counter has reached.
  pub next_pid-fresh :
      IsSorted s s.pid_list
      → s.curr_pid < word_mod
      → length s.pid_list < word_mod
      → All (λ p. pid_of s p ≢ next_pid s) s.pid_list
  unfolding next_pid
  next_pid-fresh o cw small =
      fresh_from (if s.curr_pid == 0 then 1 else s.curr_pid) o (ground arith) small

  skip_used-lt : (fuel c : ℕ) → c < word_mod → skip_used fuel s c < word_mod
  unfolding skip_used
  skip_used-lt zero c cw = cw
  skip_used-lt (suc fuel) c cw = ground (arith, skip_used-lt fuel ((c + 1) % word_mod))

  pub next_pid-lt : s.curr_pid < word_mod → next_pid s < word_mod
  unfolding next_pid
  next_pid-lt cw =
      ground (
        arith,
        skip_used-lt (2 * length s.pid_list + 2) (if s.curr_pid == 0 then 1 else s.curr_pid),
      )

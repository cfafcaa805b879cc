-- ===== src/Store/ReadStates/Ascending.antt =====
-- Sequences in ascending order, as the test of store/util.go gives them: `MakeGetReadStatesResp`
-- splits them into blocks that together say all that it was given.
use mathlib.Core.List.{append_assoc, map-append}
use minipush.Base.{
  ℕ, zero, suc, ◌+◌, ◌<◌, ◌^◌, List, [], ◌∷◌, ◌++◌, map, Bool, false, some, length, length-append,
  ◌≡◌, refl, ap, arith, inl, inr, Bool-cases, ltb, sym, ◌∙◌,
}
use minipush.Base.Int.{ℤ, pos, negsuc, ◌+ℤ◌, wrap32}
use minipush.Proto.{Block}
use minipush.Store.ReadStates.{
  block_at, block_of, end_of, make_blocks, make_get_read_states_resp, entries, pairs,
}
use minipush.Store.ReadStates.Runs.{
  Ascending, count_up, count_up_snoc, pairs-count_up, Says, make_block_lem, first_block,
  make_blocks_cons, block_at_cons,
}

-- The block that is open begins at `start` with the sequence `m` and has `k` sequences after that
-- one before the index `i`; the last of them is `last`.
record IsOpen (pre : List ℤ) (before : List Bool) (m k : ℕ) (run : List Bool) (start i last : ℕ)
    : Type 0 where
  starts : start ≡ length pre
  starts_before : start ≡ length before
  index : i ≡ start + length run
  count : length run ≡ suc k
  latest : last ≡ m + k
  positive : 0 < m
  bounded : m + k < 2 ^ 31

length-count_up : (m k : ℕ) → length (map pos (count_up m k)) ≡ k
unfolding count_up
length-count_up m zero = refl
length-count_up m (suc k) = ap suc (length-count_up (suc m) k)

module _ (pre : List ℤ) (before : List Bool) (m k : ℕ) (run : List Bool) (start i last : ℕ)
    (o : IsOpen pre before m k run start i last) where
  -- The open block, closed at the index `i`.
  close :
      (ns : List ℕ) (states : List Bool) (starts : List ℕ)
      → end_of (before ++ (run ++ states)) starts ≡ i
      → Says
          (make_blocks
            (pre ++ map pos (count_up m (suc k) ++ ns))
            (before ++ (run ++ states))
            starts)
          (pairs (map pos ns) states)
      → Says
          (make_blocks
            (pre ++ map pos (count_up m (suc k) ++ ns))
            (before ++ (run ++ states))
            (start ∷ starts))
          (pairs (map pos (count_up m (suc k) ++ ns)) (run ++ states))
  unfolding count_up
  close ns states starts e (bs, made, said) = (
    block_of (pos m) run ∷ bs,
    make_blocks_cons _ _ start starts _ _
        (make_block_lem pre m (map pos (count_up (suc m) k ++ ns)) before run states start _
          o.starts o.starts_before (e ∙ o.index))
        made,
    first_block m run bs _ (omega (arith, o.count, o.bounded, o.positive)) said
        ∙ sym (pairs-count_up m (suc k) ns run states o.count),
  )

  IsOpen-next :
      (n : ℕ) (b : Bool)
      → n < 2 ^ 31
      → last < n
      → IsOpen (pre ++ map pos (count_up m (suc k))) (before ++ run) n 0 (b ∷ []) i (suc i) n
  IsOpen-next n b h lt = record {
    starts = omega (
      arith,
      o.starts,
      o.index,
      o.count,
      length-append pre (map pos (count_up m (suc k))),
      length-count_up m (suc k),
    );
    starts_before = omega (arith, o.starts_before, o.index, length-append before run);
    index = omega arith;
    count = refl;
    latest = omega arith;
    positive = omega arith;
    bounded = omega arith;
  }

  keep-IsOpen :
      (n : ℕ) (b : Bool)
      → n < 2 ^ 31
      → n ≡ suc last
      → IsOpen pre before m (suc k) (run ++ b ∷ []) start (suc i) n
  keep-IsOpen n b h e = record {
    starts = o.starts;
    starts_before = o.starts_before;
    index = omega (arith, o.index, length-append run (b ∷ []));
    count = omega (arith, o.count, length-append run (b ∷ []));
    latest = omega (arith, o.latest);
    positive = o.positive;
    bounded = omega (arith, o.latest);
  }

run_on_value : (last n : ℕ) → ltb (suc last) n ≡ false → last < n → n ≡ suc last
run_on_value last n e lt = ground arith

next_seqs :
    (pre : List ℤ) (m k n : ℕ) (ns : List ℕ)
    → pre ++ map pos (count_up m (suc k)) ++ map pos (count_up n 1 ++ ns)
      ≡ pre ++ map pos (count_up m (suc k) ++ n ∷ ns)
unfolding count_up
next_seqs pre m k n ns =
    append_assoc pre (map pos (count_up m (suc k))) (pos n ∷ map pos ns)
    ∙ ap (◌++◌ pre) (sym (map-append pos (count_up m (suc k)) (n ∷ ns)))

longer_run :
    (m k n : ℕ) (ns : List ℕ)
    → n ≡ suc (m + k)
    → count_up m (suc (suc k)) ++ ns ≡ count_up m (suc k) ++ n ∷ ns
longer_run m k n ns e =
    count_up_snoc m (suc k) ns ∙ ap (λ x. count_up m (suc k) ++ x ∷ ns) (omega arith)

move :
    {seqs seqs' : List ℤ} {states states' : List Bool} {said said' : List (ℤ × Bool)}
    (starts : List ℕ)
    → seqs ≡ seqs'
    → states ≡ states'
    → said ≡ said'
    → Says (make_blocks seqs states starts) said
    → Says (make_blocks seqs' states' starts) said'
move starts p q r h = rw (← p, ← q, ← r) h

single : (n : ℕ) (ns : List ℕ) → map pos (count_up n 1 ++ ns) ≡ map pos (n ∷ ns)
unfolding count_up
single n ns = refl

make_blocks_nil : (seqs : List ℤ) (states : List Bool) → Says (make_blocks seqs states []) []
unfolding make_blocks
make_blocks_nil seqs states = ([], refl, refl)

cover :
    (pre : List ℤ) (before : List Bool) (m k : ℕ) (run : List Bool) (start i last : ℕ) (ns : List ℕ)
    (states : List Bool)
    → IsOpen pre before m k run start i last
    → length states ≡ length ns
    → Ascending last ns
    → Says
        (make_blocks
          (pre ++ map pos (count_up m (suc k) ++ ns))
          (before ++ (run ++ states))
          (start ∷ block_at i (pos last) (map pos ns)))
        (pairs (map pos (count_up m (suc k) ++ ns)) (run ++ states))
unfolding block_at
cover pre before m k run start i last [] (b ∷ states) o h asc = absurd (omega arith)
cover pre before m k run start i last (n ∷ ns) [] o h asc = absurd (omega arith)
cover pre before m k run start i last [] [] o h asc =
    close pre before m k run start i last o [] [] []
      (omega
        (arith, o.starts_before, o.index, length-append before (run ++ []), length-append run []))
      (make_blocks_nil _ _)
cover pre before m k run start i last (n ∷ ns) (b ∷ states) o h asc =
    rw (block_at_cons i last n (map pos ns) asc.0 asc.1) (elim (Bool-cases (ltb (suc last) n)) [
      | inl gap ↦ rw gap (
          close pre before m k run start i last o (n ∷ ns) (b ∷ states)
            (i ∷ block_at (suc i) (pos n) (map pos ns)) refl
            (let next =
                cover (pre ++ map pos (count_up m (suc k))) (before ++ run) n 0 (b ∷ []) i (suc i) n
                  ns states (IsOpen-next pre before m k run start i last o n b asc.1 asc.0)
                  (omega arith) asc.2 in
              move (i ∷ block_at (suc i) (pos n) (map pos ns)) (next_seqs pre m k n ns)
                (append_assoc before run (b ∷ states))
                (ap (λ x. pairs x (b ∷ states)) (single n ns)) next))
      | inr run_on ↦ rw run_on (
          let e = run_on_value last n run_on asc.0 in
          let next =
            cover pre before m (suc k) (run ++ b ∷ []) start (suc i) n ns states
              (keep-IsOpen pre before m k run start i last o n b asc.1 e) (omega arith) asc.2 in
          let seqs = longer_run m k n ns (e ∙ ap suc o.latest) in
          move (start ∷ block_at (suc i) (pos n) (map pos ns)) (ap (λ x. pre ++ map pos x) seqs)
            (ap (◌++◌ before) (append_assoc run (b ∷ []) states))
            (ap (λ x. pairs (map pos x) (run ++ b ∷ [] ++ states)) seqs
              ∙ ap (pairs (map pos (count_up m (suc k) ++ n ∷ ns)))
                  (append_assoc run (b ∷ []) states))
            next)
    ])

first_at :
    (n : ℕ) (ns : List ℤ) → 0 < n → block_at 0 (negsuc 0) (pos n ∷ ns) ≡ 0 ∷ block_at 1 (pos n) ns
unfolding block_at wrap32 ◌+ℤ◌
first_at n ns h = ground arith

-- For ascending positive sequences and as many states, the answer does not panic, and a reader that
-- counts upwards inside each block finds exactly the sequences and states that were given.
pub make_get_read_states_resp-Ascending :
    (seqs : List ℕ) (states : List Bool)
    → Ascending 0 seqs
    → length states ≡ length seqs
    → (blocks : List Block) × (make_get_read_states_resp (map pos seqs) states ≡ some blocks)
      × (entries (λ z. z +ℤ pos 1) blocks ≡ pairs (map pos seqs) states)
unfolding make_get_read_states_resp count_up
make_get_read_states_resp-Ascending [] states asc h = ([], refl, refl)
make_get_read_states_resp-Ascending (n ∷ ns) [] asc h = absurd (omega arith)
make_get_read_states_resp-Ascending (n ∷ ns) (b ∷ states) asc h =
    rw (first_at n (map pos ns) asc.0) (
      cover [] [] n 0 (b ∷ []) 0 1 n ns states
        (record {
          starts = refl;
          starts_before = refl;
          index = refl;
          count = refl;
          latest = omega arith;
          positive = asc.0;
          bounded = omega arith;
        })
        (omega arith) asc.2)

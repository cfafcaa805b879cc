-- ===== src/Store/ReadStates/Runs.antt =====
-- One block of `MakeGetReadStatesResp` of store/util.go, for a run of ascending sequences without a gap.
use minipush.Base.{
  ℕ, zero, suc, ◌+◌, ◌<◌, ◌^◌, List, [], ◌∷◌, ◌++◌, map, Bool, Option, some, length,
  get_elem?-append, slice-append, if◌then◌else◌, ◌≡◌, refl, ap, arith, ltb, ◌∙◌,
}
use minipush.Base.Int.{ℤ, pos, ◌+ℤ◌, ltb_ℤ, wrap32, wrap32_id}
use minipush.Proto.{Block}
use minipush.Store.Bits.{bool_slice_to_bytes}
use minipush.Store.Bits.RoundTrip.{bool_slice_to_bytes_roundtrip}
use minipush.Store.Base64.RoundTrip.{decode_string-encode_to_string}
use minipush.Store.ReadStates.{
  block_at, block_of, make_block, end_of, make_blocks, number_from, bools_of, entries, pairs,
}

-- Positive `int32` values, each greater than the one before.
abbrev pub Ascending : ℕ → List ℕ → Type 0
Ascending last [] = Unit
Ascending last (n ∷ ns) = (last < n) × (n < 2 ^ 31) × Ascending n ns

-- The states of a block come back whole.
pub bools_of-block_of :
    (seq : ℤ) (bools : List Bool) → length bools < 2 ^ 31 → bools_of (block_of seq bools) ≡ bools
bools_of-block_of seq bools h =
    rw
      (
        wrap32_id (pos (length bools)) (h, omega arith),
        decode_string-encode_to_string (bool_slice_to_bytes bools)
            (bool_slice_to_bytes_roundtrip bools).3,
      )
      (bool_slice_to_bytes_roundtrip bools).0

pub succ_pos : (n : ℕ) → pos n +ℤ pos 1 ≡ pos (suc n)
unfolding ◌+ℤ◌
succ_pos n = ground arith

split_test :
    (last n : ℕ)
    → last < n
    → n < 2 ^ 31
    → ltb_ℤ (wrap32 (pos last +ℤ pos 1)) (pos n) ≡ ltb (suc last) n
split_test last n p q =
    rw (succ_pos last, wrap32_id (pos (suc last)) (omega arith, omega arith)) (ground arith)

unfoldable pub count_up : ℕ → ℕ → List ℕ
count_up m zero = []
count_up m (suc k) = m ∷ count_up (suc m) k

pub count_up_snoc :
    (m k : ℕ) (ns : List ℕ) → count_up m (suc k) ++ ns ≡ count_up m k ++ (m + k) ∷ ns
unfolding count_up
count_up_snoc m zero ns = ap (λ x. x ∷ ns) (omega arith)
count_up_snoc m (suc k) ns =
    ap (◌∷◌ m) (count_up_snoc (suc m) k ns ∙ ap (λ x. count_up (suc m) k ++ x ∷ ns) (omega arith))

abbrev succ : ℤ → ℤ
succ z = z +ℤ pos 1

pub pairs-count_up :
    (m k : ℕ) (ns : List ℕ) (run states : List Bool)
    → length run ≡ k
    → pairs (map pos (count_up m k ++ ns)) (run ++ states)
      ≡ number_from succ (pos m) run ++ pairs (map pos ns) states
unfolding count_up
pairs-count_up m zero ns [] states h = refl
pairs-count_up m zero ns (b ∷ run) states h = absurd (omega arith)
pairs-count_up m (suc k) ns [] states h = absurd (omega arith)
pairs-count_up m (suc k) ns (b ∷ run) states h =
    rw succ_pos (ap (◌∷◌ (pos m, b)) (pairs-count_up (suc m) k ns run states (omega arith)))

-- What a call of the second loop gives: blocks, and what they say.
abbrev pub Says : Option (List Block) → List (ℤ × Bool) → Type 0
Says result said = (blocks : List Block) × (result ≡ some blocks) × (entries succ blocks ≡ said)

pub make_block_lem :
    (pre : List ℤ) (m : ℕ) (seqs : List ℤ) (before run after : List Bool) (start end : ℕ)
    → start ≡ length pre
    → start ≡ length before
    → end ≡ start + length run
    → make_block (pre ++ pos m ∷ seqs) (before ++ (run ++ after)) start end
      ≡ some (block_of (pos m) run)
unfolding make_block
make_block_lem pre m seqs before run after start end p q r =
    rw (
      slice-append before run after start end q (omega arith),
      p,
      get_elem?-append pre (pos m) seqs,
    )

pub first_block :
    (m : ℕ) (run : List Bool) (blocks : List Block) (said : List (ℤ × Bool))
    → length run < 2 ^ 31
    → entries succ blocks ≡ said
    → entries succ (block_of (pos m) run ∷ blocks) ≡ number_from succ (pos m) run ++ said
first_block m run blocks said h e = rw (bools_of-block_of (pos m) run h, e)

pub make_blocks_cons :
    (seqs : List ℤ) (states : List Bool) (start : ℕ) (starts : List ℕ) (b : Block) (bs : List Block)
    → make_block seqs states start (end_of states starts) ≡ some b
    → make_blocks seqs states starts ≡ some bs
    → make_blocks seqs states (start ∷ starts) ≡ some (b ∷ bs)
unfolding make_blocks
make_blocks_cons seqs states start starts b bs p q = rw (p, q)

pub block_at_cons :
    (i last n : ℕ) (ns : List ℤ)
    → last < n
    → n < 2 ^ 31
    → block_at i (pos last) (pos n ∷ ns)
      ≡ (if ltb (suc last) n then i ∷ block_at (suc i) (pos n) ns else block_at (suc i) (pos n) ns)
unfolding block_at
block_at_cons i last n ns p q = rw (split_test last n p q)

-- ===== src/Store/ReadStates.antt =====
-- The answer to a read-states request: `MakeGetReadStatesResp` of store/util.go, and
-- the client's reading of it.
pub mod Runs
pub mod Ascending
pub mod Descending
pub mod Total
use minipush.Base.{
  ℕ, zero, suc, ◌+◌, List, [], ◌∷◌, ◌++◌, Bool, true, false, Option, none, some, length, get_elem?,
  slice, if◌then◌else◌, ◌≡◌, refl, ap,
}
use minipush.Base.Int.{ℤ, pos, negsuc, pos_part, ◌+ℤ◌, ltb_ℤ, wrap32}
use minipush.Base.Options.{◌>>=◌}
use minipush.Proto.{Block}
use minipush.Store.Bits.{bool_slice_to_bytes, read_bits}
use minipush.Store.Base64.{encode_to_string, decode_string}

-- The first loop: the indices at which a block begins.
unfoldable pub block_at : ℕ → ℤ → List ℤ → List ℕ
block_at i last_seq [] = []
block_at i last_seq (seq ∷ seqs) =
    let rest = block_at (suc i) seq seqs in
    if ltb_ℤ (wrap32 (last_seq +ℤ pos 1)) seq then i ∷ rest else rest

abbrev pub block_of : ℤ → List Bool → Block
block_of seq bools = record {
  seq = seq;
  len = wrap32 (pos (length bools));
  base64 = encode_to_string (bool_slice_to_bytes bools);
}

-- The body of the second loop, for the block from `start` up to `end`.
unfoldable pub make_block : List ℤ → List Bool → ℕ → ℕ → Option Block
make_block seqs states start end = do
  bools ← slice start end states
  seq ← get_elem? seqs start
  some (block_of seq bools)

-- The end of the block before the starts that are left.
abbrev pub end_of : List Bool → List ℕ → ℕ
end_of states [] = length states
end_of states (next ∷ _) = next

-- The second loop.
unfoldable pub make_blocks : List ℤ → List Bool → List ℕ → Option (List Block)
unfolding make_block
make_blocks seqs states [] = some []
make_blocks seqs states (start ∷ starts) = do
  block ← make_block seqs states start (end_of states starts)
  blocks ← make_blocks seqs states starts
  some (block ∷ blocks)

unfoldable pub make_get_read_states_resp : List ℤ → List Bool → Option (List Block)
unfolding block_at make_blocks
make_get_read_states_resp [] states = some []
make_get_read_states_resp (seq ∷ seqs) [] = some []
make_get_read_states_resp (seq ∷ seqs) (state ∷ states) =
    make_blocks (seq ∷ seqs) (state ∷ states) (block_at 0 (negsuc 0) (seq ∷ seqs))

-- What a reader takes from a block: its states, each with the sequence that it stands for, where
-- `next` leads from one sequence to the following one.
abbrev pub number_from : (ℤ → ℤ) → ℤ → List Bool → List (ℤ × Bool)
number_from next seq [] = []
number_from next seq (b ∷ bs) = (seq, b) ∷ number_from next (next seq) bs

abbrev pub bools_of : Block → List Bool
bools_of block = read_bits 0 (pos_part block.len) (decode_string block.base64)

abbrev pub entries : (ℤ → ℤ) → List Block → List (ℤ × Bool)
entries next [] = []
entries next (block ∷ blocks) = number_from next block.seq (bools_of block) ++ entries next blocks

abbrev pub pairs : List ℤ → List Bool → List (ℤ × Bool)
pairs (s ∷ ss) (b ∷ bs) = (s, b) ∷ pairs ss bs
pairs _ _ = []

-- The input and the answer of TestNewReadAck.
tested :
    make_get_read_states_resp
      (pos 1 ∷ pos 2 ∷ pos 4 ∷ pos 5 ∷ pos 7 ∷ [])
      (false ∷ true ∷ true ∷ true ∷ false ∷ [])
    ≡ some (
        record { seq = pos 1; len = pos 2; base64 = b'Q' ∷ b'A' ∷ b'=' ∷ b'=' ∷ [] }
        ∷ record { seq = pos 4; len = pos 2; base64 = b'w' ∷ b'A' ∷ b'=' ∷ b'=' ∷ [] }
        ∷ record { seq = pos 7; len = pos 1; base64 = b'A' ∷ b'A' ∷ b'=' ∷ b'=' ∷ [] }
        ∷ [])
unfolding make_get_read_states_resp bool_slice_to_bytes encode_to_string ◌+ℤ◌ wrap32
tested = refl

-- ===== src/Store/ReadStates/Descending.antt =====
-- Sequences in descending order, as the query of `GetReadStates` in store/event.go returns them
-- (`ORDER BY seq DESC`). The client of dev/demo/static/index.js counts down inside each block.
use mathlib.Core.List.{append-nil}
use minipush.Base.{
  ℕ, suc, ◌+◌, ◌<◌, ◌^◌, List, [], ◌∷◌, map, Bool, false, some, length, ◌≡◌, ◌↔◌, refl, ap, arith,
  sym, ◌∙◌, slice_whole,
}
use minipush.Base.Int.{ℤ, pos, negsuc, ◌+ℤ◌, ◌-ℤ◌, ltb_ℤ, wrap32, wrap32_id}
use minipush.Proto.{Block}
use minipush.Store.ReadStates.{
  block_at, block_of, make_blocks, make_get_read_states_resp, number_from, entries, pairs,
}
use minipush.Store.ReadStates.Runs.{bools_of-block_of, succ_pos}

-- Each sequence is smaller than the one before, and positive.
abbrev pub Descending : ℕ → List ℕ → Type 0
Descending last [] = Unit
Descending last (n ∷ ns) = (n < last) × (0 < n) × Descending n ns

-- Each sequence is one less than the one before.
abbrev pub Gapless : ℕ → List ℕ → Type 0
Gapless last [] = Unit
Gapless last (n ∷ ns) = (last ≡ suc n) × Gapless n ns

abbrev pub previous : ℤ → ℤ
previous z = z -ℤ pos 1

no_split :
    (last n : ℕ) → n < last → last + 1 < 2 ^ 31 → ltb_ℤ (wrap32 (pos last +ℤ pos 1)) (pos n) ≡ false
no_split last n p q =
    rw (succ_pos last, wrap32_id (pos (suc last)) (omega arith, omega arith)) (ground arith)

block_at-Descending :
    (i last : ℕ) (ns : List ℕ)
    → last + 1 < 2 ^ 31
    → Descending last ns
    → block_at i (pos last) (map pos ns) ≡ []
unfolding block_at
block_at-Descending i last [] h d = refl
block_at-Descending i last (n ∷ ns) h d =
    rw (no_split last n d.0 h) (block_at-Descending (suc i) n ns (omega arith) d.2)

first_at :
    (n : ℕ) (ns : List ℤ) → 0 < n → block_at 0 (negsuc 0) (pos n ∷ ns) ≡ 0 ∷ block_at 1 (pos n) ns
unfolding block_at wrap32 ◌+ℤ◌
first_at n ns h = ground arith

one_block :
    (seq : ℤ) (seqs : List ℤ) (states : List Bool)
    → make_blocks (seq ∷ seqs) states (0 ∷ []) ≡ some (block_of seq states ∷ [])
unfolding make_blocks
one_block seq seqs states = rw (slice_whole states)

-- Descending sequences, with gaps or without, go into one block that names the first sequence.
make_get_read_states_resp-Descending :
    (n : ℕ) (ns : List ℕ) (b : Bool) (states : List Bool)
    → 0 < n
    → n + 1 < 2 ^ 31
    → Descending n ns
    → make_get_read_states_resp (map pos (n ∷ ns)) (b ∷ states)
      ≡ some (block_of (pos n) (b ∷ states) ∷ [])
unfolding make_get_read_states_resp
make_get_read_states_resp-Descending n ns b states h k d =
    rw (first_at n (map pos ns) h, block_at-Descending 1 n ns k d)
      (one_block (pos n) (map pos ns) (b ∷ states))

pred_pos : (n : ℕ) → pos (suc n) -ℤ pos 1 ≡ pos n
unfolding ◌-ℤ◌
pred_pos n = ground arith

pred_pos_eq : (last n : ℕ) → n < last → pos last -ℤ pos 1 ≡ pos n → last ≡ suc n
unfolding ◌-ℤ◌
pred_pos_eq last n h e = ground arith

Gapless-pairs :
    (last : ℕ) (ns : List ℕ) (states : List Bool)
    → length states ≡ length ns
    → Gapless last ns
    → number_from previous (previous (pos last)) states ≡ pairs (map pos ns) states
Gapless-pairs last [] [] h g = refl
Gapless-pairs last [] (b ∷ states) h g = absurd (omega arith)
Gapless-pairs last (n ∷ ns) [] h g = absurd (omega arith)
Gapless-pairs last (n ∷ ns) (b ∷ states) h g =
    rw (g.0, pred_pos n) (ap (◌∷◌ (pos n, b)) (Gapless-pairs n ns states (omega arith) g.1))

abbrev head_seq : List (ℤ × Bool) → ℤ
head_seq [] = pos 0
head_seq ((z, _) ∷ _) = z

abbrev rest_of : List (ℤ × Bool) → List (ℤ × Bool)
rest_of [] = []
rest_of (_ ∷ xs) = xs

pairs-Gapless :
    (last : ℕ) (ns : List ℕ) (states : List Bool)
    → length states ≡ length ns
    → Descending last ns
    → number_from previous (previous (pos last)) states ≡ pairs (map pos ns) states
    → Gapless last ns
pairs-Gapless last [] states h d e = tt
pairs-Gapless last (n ∷ ns) [] h d e = absurd (omega arith)
pairs-Gapless last (n ∷ ns) (b ∷ states) h d e =
    let step = ap head_seq e in
    (
      pred_pos_eq last n d.0 step,
      pairs-Gapless n ns states (omega arith) d.2
          (ap (λ z. number_from previous (previous z) states) (sym step) ∙ ap rest_of e),
    )

client_reads :
    (n : ℕ) (b : Bool) (states : List Bool)
    → length (b ∷ states) < 2 ^ 31
    → entries previous (block_of (pos n) (b ∷ states) ∷ [])
      ≡ (pos n, b) ∷ number_from previous (previous (pos n)) states
client_reads n b states h = rw (bools_of-block_of (pos n) (b ∷ states) h, append-nil)

-- For positive descending sequences below 2^31 - 1, and as many states, the answer does not panic,
-- is one block whether the sequences have gaps or not, and the client that counts down in it finds
-- the sequences and states that the query gave exactly when the sequences have no gap.
pub make_get_read_states_resp-Descending_iff :
    (n : ℕ) (ns : List ℕ) (states : List Bool)
    → 0 < n
    → n + 1 < 2 ^ 31
    → Descending n ns
    → length states ≡ suc (length ns)
    → length states < 2 ^ 31
    → (block : Block) × (make_get_read_states_resp (map pos (n ∷ ns)) states ≡ some (block ∷ []))
      × ((entries previous (block ∷ []) ≡ pairs (map pos (n ∷ ns)) states) ↔ Gapless n ns)
make_get_read_states_resp-Descending_iff n ns [] h k d e l = absurd (omega arith)
make_get_read_states_resp-Descending_iff n ns (b ∷ states) h k d e l = (
  block_of (pos n) (b ∷ states),
  make_get_read_states_resp-Descending n ns b states h k d,
  (
    λ read.
        pairs-Gapless n ns states (omega arith) d
          (ap rest_of (sym (client_reads n b states l) ∙ read)),
    λ g.
        client_reads n b states l ∙ ap (◌∷◌ (pos n, b)) (Gapless-pairs n ns states (omega arith) g),
  ),
)

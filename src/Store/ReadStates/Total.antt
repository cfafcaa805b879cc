-- ===== src/Store/ReadStates/Total.antt =====
-- `MakeGetReadStatesResp` of store/util.go on as many sequences as states: no index is out of range.
use minipush.Base.{
  ℕ, suc, zero, ◌+◌, ◌≤◌, ◌<◌, List, [], ◌∷◌, Bool, some, length, get_elem?, slice, take, drop,
  within, ◌-◌, ◌≡◌, refl, arith, inl, inr, Bool-cases,
}
use minipush.Base.Int.{ℤ, pos, ◌+ℤ◌, negsuc, wrap32, ltb_ℤ}
use minipush.Proto.{Block}
use minipush.Store.ReadStates.{
  block_at, block_of, make_block, end_of, make_blocks, make_get_read_states_resp,
}

-- Indices that go up, from `low` on and below `high`.
abbrev Within : ℕ → ℕ → List ℕ → Type 0
Within low high [] = Unit
Within low high (i ∷ is) = (low ≤ i) × (i < high) × Within (suc i) high is

Within-weaken : (low m high : ℕ) (is : List ℕ) → low ≤ m → Within m high is → Within low high is
Within-weaken low m high [] h w = tt
Within-weaken low m high (i ∷ is) h (a, b, rest) = (omega arith, b, rest)

block_at-Within :
    (i high : ℕ) (last : ℤ) (seqs : List ℤ)
    → i + length seqs ≤ high
    → Within i high (block_at i last seqs)
unfolding block_at
block_at-Within i high last [] h = tt
block_at-Within i high last (seq ∷ seqs) h =
    let rest = block_at-Within (suc i) high seq seqs (omega arith) in
    elim (Bool-cases (ltb_ℤ (wrap32 (last +ℤ pos 1)) seq)) [
      | inl y ↦ rw y (omega arith, omega arith, rest)
      | inr n ↦ rw n (Within-weaken i (suc i) high _ (omega arith) rest)
    ]

get_elem?-below :
    {A : Type 0} (xs : List A) (i : ℕ) → i < length xs → (x : A) × (get_elem? xs i ≡ some x)
get_elem?-below [] i h = absurd (omega arith)
get_elem?-below (x ∷ xs) zero h = (x, refl)
get_elem?-below (x ∷ xs) (suc i) h = get_elem?-below xs i (omega arith)

slice-within :
    {A : Type 0} (xs : List A) (start end : ℕ)
    → start ≤ end
    → end ≤ length xs
    → (part : List A) × (slice start end xs ≡ some part)
slice-within xs start end p q =
    (take (end - start) (drop start xs), rw (within start end (length xs) p q) refl)

end_of-Within :
    (states : List Bool) (start : ℕ) (starts : List ℕ)
    → start < length states
    → Within (suc start) (length states) starts
    → (start ≤ end_of states starts) × (end_of states starts ≤ length states)
end_of-Within states start [] h w = (omega arith, omega arith)
end_of-Within states start (next ∷ starts) h (a, b, w) = (omega arith, omega arith)

make_blocks-Within :
    (seqs : List ℤ) (states : List Bool) (low : ℕ) (starts : List ℕ)
    → length seqs ≡ length states
    → Within low (length states) starts
    → (blocks : List Block) × (make_blocks seqs states starts ≡ some blocks)
unfolding make_blocks make_block
make_blocks-Within seqs states low [] e w = ([], refl)
make_blocks-Within seqs states low (start ∷ starts) e (a, b, w) =
    let (p, q) = end_of-Within states start starts b w in
    let (part, f) = slice-within states start (end_of states starts) p q in
    let (seq, g) = get_elem?-below seqs start (omega arith) in
    let (blocks, h) = make_blocks-Within seqs states (suc start) starts e w in
    (block_of seq part ∷ blocks, rw (f, g, h) refl)

pub make_get_read_states_resp-total :
    (seqs : List ℤ) (states : List Bool)
    → length seqs ≡ length states
    → (blocks : List Block) × (make_get_read_states_resp seqs states ≡ some blocks)
unfolding make_get_read_states_resp
make_get_read_states_resp-total [] states e = ([], refl)
make_get_read_states_resp-total (seq ∷ seqs) [] e = ([], refl)
make_get_read_states_resp-total (seq ∷ seqs) (state ∷ states) e =
    make_blocks-Within (seq ∷ seqs) (state ∷ states) 0 (block_at 0 (negsuc 0) (seq ∷ seqs)) e
      (block_at-Within 0 (length (state ∷ states)) (negsuc 0) (seq ∷ seqs) (omega arith))

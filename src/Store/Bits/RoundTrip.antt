-- ===== src/Store/Bits/RoundTrip.antt =====
-- Reading the bits back: `boolSliceToBytes` of store/util.go loses nothing.
use minipush.Base.{
  ℕ, zero, suc, ◌+◌, ◌-◌, ◌*◌, ◌/◌, ◌%◌, ◌^◌, ◌≤◌, ◌<◌, List, [], ◌∷◌, Bool, true, false, eqb,
  length, if◌then◌else◌, ◌≡◌, refl, ◌∙◌, ap, arith, All, Bool-cases, eqb_self, eqb_ne, inl, inr,
  ◌≢◌,
}
use minipush.Store.Bits.{
  zero_bytes, or_at, set_bits, num_bytes, bool_slice_to_bytes, byte_bit, byte_at, bit_at, read_bits,
}
use minipush.Store.Bits.Bytes.{
  IsBytes, byte_bit-or, or_at-IsBytes, length-or_at, byte_at-or_self, byte_at-or_ne, byte_at-lt,
}

abbrev mark : ℕ → List ℕ → List ℕ
mark i bs = or_at (i / 8) (2 ^ (7 - i % 8)) bs

bit_at-mark_same :
    (i j : ℕ) (bs : List ℕ)
    → IsBytes bs
    → i / 8 < length bs
    → i / 8 ≡ j / 8
    → bit_at j (mark i bs) ≡ (if eqb (i % 8) (j % 8) then true else bit_at j bs)
bit_at-mark_same i j bs h lt e =
    rw (← e, byte_at-or_self (i / 8) (2 ^ (7 - i % 8)) bs lt)
      (byte_bit-or (byte_at bs (i / 8)) (i % 8) (j % 8) (byte_at-lt bs (i / 8) h) (omega arith)
        (omega arith))

bit_at-mark_self :
    (i : ℕ) (bs : List ℕ) → IsBytes bs → i / 8 < length bs → bit_at i (mark i bs) ≡ true
bit_at-mark_self i bs h lt =
    bit_at-mark_same i i bs h lt refl ∙ ap (λ b. if b then true else bit_at i bs) (eqb_self (i % 8))

eqb-true : (a b : ℕ) → eqb a b ≡ true → a ≡ b
eqb-true a b h = ground arith

mod-div-ne : (i j : ℕ) → i ≢ j → i / 8 ≡ j / 8 → i % 8 ≡ j % 8 → ⊥
mod-div-ne i j ne p q = omega arith

bit_at-mark_ne :
    (i j : ℕ) (bs : List ℕ)
    → IsBytes bs
    → i / 8 < length bs
    → i ≢ j
    → bit_at j (mark i bs) ≡ bit_at j bs
bit_at-mark_ne i j bs h lt ne = elim (Bool-cases (eqb (i / 8) (j / 8))) [
  | inl e ↦
      bit_at-mark_same i j bs h lt (ground arith)
      ∙ ap (λ b. if b then true else bit_at j bs)
          (eqb_ne (i % 8) (j % 8) (λ p. absurd (mod-div-ne i j ne (eqb-true _ _ e) p)))
  | inr e ↦
      ap (byte_bit (j % 8)) (byte_at-or_ne (i / 8) (j / 8) (2 ^ (7 - i % 8)) bs (λ p. ground arith))
]

length-zero_bytes : (n : ℕ) → length (zero_bytes n) ≡ n
unfolding zero_bytes
length-zero_bytes zero = refl
length-zero_bytes (suc n) = ap suc (length-zero_bytes n)

zero_bytes-IsBytes : (n : ℕ) → IsBytes (zero_bytes n)
unfolding zero_bytes
zero_bytes-IsBytes zero = tt
zero_bytes-IsBytes (suc n) = (omega arith, zero_bytes-IsBytes n)

byte_at-zero_bytes : (n x : ℕ) → byte_at (zero_bytes n) x ≡ 0
unfolding zero_bytes
byte_at-zero_bytes zero x = refl
byte_at-zero_bytes (suc n) zero = refl
byte_at-zero_bytes (suc n) (suc x) = byte_at-zero_bytes n x

byte_bit-zero : (z : ℕ) → z < 8 → byte_bit z 0 ≡ false
byte_bit-zero z h = ground arith

-- One round of the loop.
abbrev put_bit : ℕ → Bool → List ℕ → List ℕ
put_bit i v bs = if v then mark i bs else bs

put_bit-IsBytes : (i : ℕ) (v : Bool) (bs : List ℕ) → IsBytes bs → IsBytes (put_bit i v bs)
put_bit-IsBytes i true bs h = or_at-IsBytes (i / 8) (i % 8) bs (omega arith) h
put_bit-IsBytes i false bs h = h

length-put_bit : (i : ℕ) (v : Bool) (bs : List ℕ) → length (put_bit i v bs) ≡ length bs
length-put_bit i true bs = length-or_at (i / 8) (2 ^ (7 - i % 8)) bs
length-put_bit i false bs = refl

bit_at-put_ne :
    (i j : ℕ) (v : Bool) (bs : List ℕ)
    → IsBytes bs
    → i / 8 < length bs
    → i ≢ j
    → bit_at j (put_bit i v bs) ≡ bit_at j bs
bit_at-put_ne i j true bs h lt ne = bit_at-mark_ne i j bs h lt ne
bit_at-put_ne i j false bs h lt ne = refl

bit_at-put_self :
    (i : ℕ) (v : Bool) (bs : List ℕ)
    → IsBytes bs
    → i / 8 < length bs
    → bit_at i bs ≡ false
    → bit_at i (put_bit i v bs) ≡ v
bit_at-put_self i true bs h lt e = bit_at-mark_self i bs h lt
bit_at-put_self i false bs h lt e = e

-- The loop leaves the bits before its index alone.
bit_at-set_bits :
    (i j : ℕ) (vs : List Bool) (bs : List ℕ)
    → IsBytes bs
    → i + length vs ≤ 8 * length bs
    → j < i
    → bit_at j (set_bits i vs bs) ≡ bit_at j bs
unfolding set_bits
bit_at-set_bits i j [] bs h fits lt = refl
bit_at-set_bits i j (v ∷ vs) bs h fits lt =
    bit_at-set_bits (suc i) j vs (put_bit i v bs) (put_bit-IsBytes i v bs h)
      (omega (arith, length-put_bit i v bs)) (omega arith)
    ∙ bit_at-put_ne i j v bs h (omega arith) (omega arith)

read_bits-set_bits :
    (i : ℕ) (vs : List Bool) (bs : List ℕ)
    → IsBytes bs
    → i + length vs ≤ 8 * length bs
    → ((j : ℕ) → i ≤ j → bit_at j bs ≡ false)
    → read_bits i (length vs) (set_bits i vs bs) ≡ vs
unfolding set_bits read_bits
read_bits-set_bits i [] bs h fits clear = refl
read_bits-set_bits i (v ∷ vs) bs h fits clear = cc (
  bit_at-set_bits (suc i) i vs (put_bit i v bs) (put_bit-IsBytes i v bs h)
      (omega (arith, length-put_bit i v bs)) (omega arith),
  bit_at-put_self i v bs h (omega arith) (clear i (omega arith)),
  read_bits-set_bits (suc i) vs (put_bit i v bs) (put_bit-IsBytes i v bs h)
      (omega (arith, length-put_bit i v bs))
      (λ j le. bit_at-put_ne i j v bs h (omega arith) (omega arith) ∙ clear j (omega arith)),
)

length-set_bits : (i : ℕ) (vs : List Bool) (bs : List ℕ) → length (set_bits i vs bs) ≡ length bs
unfolding set_bits
length-set_bits i [] bs = refl
length-set_bits i (v ∷ vs) bs = length-set_bits (suc i) vs (put_bit i v bs) ∙ length-put_bit i v bs

num_bytes_bounds : (n : ℕ) → (n ≤ 8 * num_bytes n) × (8 * num_bytes n < n + 8)
unfolding num_bytes
num_bytes_bounds n = ground arith

set_bits-IsBytes : (i : ℕ) (vs : List Bool) (bs : List ℕ) → IsBytes bs → IsBytes (set_bits i vs bs)
unfolding set_bits
set_bits-IsBytes i [] bs h = h
set_bits-IsBytes i (v ∷ vs) bs h =
    set_bits-IsBytes (suc i) vs (put_bit i v bs) (put_bit-IsBytes i v bs h)

-- Every slice can be read back from its bytes, bit by bit from the most significant bit of the
-- first byte; there are as many bytes as the bits need, and each is below 256.
pub bool_slice_to_bytes_roundtrip :
    (slice : List Bool)
    → (read_bits 0 (length slice) (bool_slice_to_bytes slice) ≡ slice)
      × (length slice ≤ 8 * length (bool_slice_to_bytes slice))
      × (8 * length (bool_slice_to_bytes slice) < length slice + 8)
      × All (λ b. b < 256) (bool_slice_to_bytes slice)
unfolding bool_slice_to_bytes
bool_slice_to_bytes_roundtrip slice =
    let n : ℕ = num_bytes (length slice) in
    let bounds = num_bytes_bounds (length slice) in
    let size = length-set_bits 0 slice (zero_bytes n) ∙ length-zero_bytes n in
    (
      read_bits-set_bits 0 slice (zero_bytes n) (zero_bytes-IsBytes n)
          (omega (arith, bounds.0, length-zero_bytes n))
          (λ j _.
            ap (byte_bit (j % 8)) (byte_at-zero_bytes n (j / 8))
            ∙ byte_bit-zero (j % 8) (omega arith)),
      omega (arith, bounds.0, size),
      omega (arith, bounds.1, size),
      set_bits-IsBytes 0 slice (zero_bytes n) (zero_bytes-IsBytes n),
    )

-- ===== src/Store/Bits.antt =====
-- The bitmap of read states: `boolSliceToBytes` of store/util.go, and a reader of one
-- bit, against which it is checked. A byte is a number below 256.
pub mod Bytes
pub mod RoundTrip
use Prim.Native.Nat.{bit_or}
use minipush.Base.{
  ℕ, zero, suc, ◌+◌, ◌-◌, ◌/◌, ◌%◌, ◌^◌, List, [], ◌∷◌, Bool, true, false, ltb, eqb, length,
  if◌then◌else◌, ◌≡◌, refl,
}

-- make([]byte, n)
unfoldable pub zero_bytes : ℕ → List ℕ
zero_bytes zero = []
zero_bytes (suc n) = 0 ∷ zero_bytes n

-- byteSlice[x] |= mask; an index out of range, which panics in Go, changes nothing here.
unfoldable pub or_at : ℕ → ℕ → List ℕ → List ℕ
or_at x mask [] = []
or_at zero mask (b ∷ bs) = bit_or b mask ∷ bs
or_at (suc x) mask (b ∷ bs) = b ∷ or_at x mask bs

-- The loop `for i, v := range slice`, from index `i` on.
unfoldable pub set_bits : ℕ → List Bool → List ℕ → List ℕ
set_bits i [] bytes = bytes
set_bits i (v ∷ slice) bytes =
    set_bits (suc i) slice (if v then or_at (i / 8) (2 ^ (7 - i % 8)) bytes else bytes)

unfoldable pub num_bytes : ℕ → ℕ
num_bytes n = if ltb 0 (n % 8) then n / 8 + 1 else n / 8

unfoldable pub bool_slice_to_bytes : List Bool → List ℕ
unfolding zero_bytes or_at set_bits num_bytes
bool_slice_to_bytes slice = set_bits 0 slice (zero_bytes (num_bytes (length slice)))

-- Bit `z` of a byte, from the most significant one.
abbrev pub byte_bit : ℕ → ℕ → Bool
byte_bit z b = eqb ((b / 2 ^ (7 - z)) % 2) 1

abbrev pub byte_at : List ℕ → ℕ → ℕ
byte_at [] x = 0
byte_at (b ∷ bs) zero = b
byte_at (b ∷ bs) (suc x) = byte_at bs x

abbrev pub bit_at : ℕ → List ℕ → Bool
bit_at j bytes = byte_bit (j % 8) (byte_at bytes (j / 8))

-- `n` bits from index `i` on, as a client reads them.
unfoldable pub read_bits : ℕ → ℕ → List ℕ → List Bool
read_bits i zero bytes = []
read_bits i (suc n) bytes = bit_at i bytes ∷ read_bits (suc i) n bytes

-- The example of the comment above the function, and of TestBoolSliceToBytes.
abbrev commented : List Bool
commented = false ∷ true ∷ true ∷ true ∷ false ∷ false ∷ true ∷ true ∷ true ∷ []

commented_bytes : bool_slice_to_bytes commented ≡ 0b01110011 ∷ 0b10000000 ∷ []
unfolding bool_slice_to_bytes
commented_bytes = refl

-- ===== src/Store/Bits/Bytes.antt =====
-- Setting one bit of one byte, as `boolSliceToBytes` of store/util.go does.
use Prim.Native.Nat.{bit_or}
use minipush.Base.{
  ℕ, zero, suc, ◌-◌, ◌^◌, ◌<◌, List, [], ◌∷◌, Bool, true, false, ltb, eqb, length, if◌then◌else◌,
  ◌≡◌, refl, sym, ap, arith, All, ◌&&◌, ◌≢◌,
}
use minipush.Store.Bits.{or_at, byte_bit, byte_at}

-- A test that every number under a bound passes, and what a number passes then.
passes_under : (ℕ → Bool) → ℕ → Bool
passes_under test zero = true
passes_under test (suc bound) = passes_under test bound && test bound

passes_at :
    (test : ℕ → Bool) (bound i : ℕ) → i < bound → passes_under test bound ≡ true → test i ≡ true
unfolding passes_under
passes_at test zero i below all = absurd (omega arith)
passes_at test (suc bound) i below all = ground (arith, passes_at test bound i)

abbrev same : Bool → Bool → Bool
same true b = b
same false true = false
same false false = true

same_sound : (a b : Bool) → same a b ≡ true → a ≡ b
same_sound true b h = sym h
same_sound false true h = h
same_sound false false h = refl

-- One byte: the mask of bit `y` sets that bit and no other, and stays a byte.
abbrev or_ok : ℕ → ℕ → ℕ → Bool
or_ok b y z =
    same (byte_bit z (bit_or b (2 ^ (7 - y)))) (if eqb y z then true else byte_bit z b)
    && ltb (bit_or b (2 ^ (7 - y))) 256

or_bits : ℕ → ℕ → Bool
or_bits b y = passes_under (or_ok b y) 8

or_byte : ℕ → Bool
or_byte b = passes_under (or_bits b) 8

or_table : passes_under or_byte 256 ≡ true
unfolding passes_under or_byte or_bits
or_table = refl

or_entry : (b y z : ℕ) → b < 256 → y < 8 → z < 8 → or_ok b y z ≡ true
unfolding or_byte or_bits
or_entry b y z hb hy hz =
    passes_at (or_ok b y) 8 z hz
      (passes_at (or_bits b) 8 y hy (passes_at or_byte 256 b hb or_table))

and_left : (a b : Bool) → a && b ≡ true → a ≡ true
and_left true b h = refl
and_left false b h = h

and_right : (a b : Bool) → a && b ≡ true → b ≡ true
and_right true b h = h
and_right false true h = refl
and_right false false h = h

abbrev pub IsBytes : List ℕ → Type 0
IsBytes = All (λ b. b < 256)

or-lt : (b y : ℕ) → b < 256 → y < 8 → bit_or b (2 ^ (7 - y)) < 256
or-lt b y hb hy = ground (
  arith,
  and_right (same (byte_bit 0 (bit_or b (2 ^ (7 - y)))) (if eqb y 0 then true else byte_bit 0 b))
      (ltb (bit_or b (2 ^ (7 - y))) 256) (or_entry b y 0 hb hy (omega arith)),
)

pub byte_bit-or :
    (b y z : ℕ)
    → b < 256
    → y < 8
    → z < 8
    → byte_bit z (bit_or b (2 ^ (7 - y))) ≡ (if eqb y z then true else byte_bit z b)
byte_bit-or b y z hb hy hz = same_sound _ _ (and_left _ _ (or_entry b y z hb hy hz))

pub or_at-IsBytes :
    (x y : ℕ) (bs : List ℕ) → y < 8 → IsBytes bs → IsBytes (or_at x (2 ^ (7 - y)) bs)
unfolding or_at
or_at-IsBytes x y [] hy h = tt
or_at-IsBytes zero y (b ∷ bs) hy h = (or-lt b y h.0 hy, h.1)
or_at-IsBytes (suc x) y (b ∷ bs) hy h = (h.0, or_at-IsBytes x y bs hy h.1)

pub length-or_at : (x mask : ℕ) (bs : List ℕ) → length (or_at x mask bs) ≡ length bs
unfolding or_at
length-or_at x mask [] = refl
length-or_at zero mask (b ∷ bs) = refl
length-or_at (suc x) mask (b ∷ bs) = ap suc (length-or_at x mask bs)

pub byte_at-or_self :
    (x mask : ℕ) (bs : List ℕ)
    → x < length bs
    → byte_at (or_at x mask bs) x ≡ bit_or (byte_at bs x) mask
unfolding or_at
byte_at-or_self x mask [] h = elim h [ ]
byte_at-or_self zero mask (b ∷ bs) h = refl
byte_at-or_self (suc x) mask (b ∷ bs) h = byte_at-or_self x mask bs (omega arith)

pub byte_at-or_ne :
    (x k mask : ℕ) (bs : List ℕ) → x ≢ k → byte_at (or_at x mask bs) k ≡ byte_at bs k
unfolding or_at
byte_at-or_ne x k mask [] h = refl
byte_at-or_ne zero zero mask (b ∷ bs) h = absurd (h refl)
byte_at-or_ne zero (suc k) mask (b ∷ bs) h = refl
byte_at-or_ne (suc x) zero mask (b ∷ bs) h = refl
byte_at-or_ne (suc x) (suc k) mask (b ∷ bs) h = byte_at-or_ne x k mask bs (λ e. h (ap suc e))

pub byte_at-lt : (bs : List ℕ) (x : ℕ) → IsBytes bs → byte_at bs x < 256
byte_at-lt [] x h = omega arith
byte_at-lt (b ∷ bs) zero h = h.0
byte_at-lt (b ∷ bs) (suc x) h = byte_at-lt bs x h.1

-- ===== src/Store/Base64/RoundTrip.antt =====
-- Decoding undoes encoding/base64's StdEncoding.EncodeToString on bytes.
use minipush.Base.{
  ℕ, ◌+◌, ◌*◌, ◌/◌, ◌%◌, ◌<◌, List, [], ◌∷◌, eqb, false, ◌≡◌, ◌≢◌, refl, arith, All, eqb_ne,
}
use minipush.Store.Base64.{symbol, encode_to_string, value, decode_string}

value-symbol : (n : ℕ) → n < 64 → value (symbol n) ≡ n
unfolding value symbol
value-symbol n h = ground arith

symbol-ne-pad : (n : ℕ) → n < 64 → symbol n ≢ b'='
unfolding symbol
symbol-ne-pad n h = ground arith

no_pad : (n : ℕ) → n < 64 → eqb (symbol n) b'=' ≡ false
no_pad n h = eqb_ne (symbol n) b'=' (symbol-ne-pad n h)

pub decode_string-encode_to_string :
    (bytes : List ℕ) → All (λ b. b < 256) bytes → decode_string (encode_to_string bytes) ≡ bytes
unfolding encode_to_string decode_string
decode_string-encode_to_string [] h = refl
decode_string-encode_to_string (a ∷ []) h =
    ground (arith, value-symbol (a / 4), value-symbol (a % 4 * 16))
decode_string-encode_to_string (a ∷ b ∷ []) h = ground (
  arith,
  value-symbol (a / 4),
  value-symbol (a % 4 * 16 + b / 16),
  value-symbol (b % 16 * 4),
  no_pad (b % 16 * 4),
)
decode_string-encode_to_string (a ∷ b ∷ c ∷ rest) h = ground (
  arith,
  value-symbol (a / 4),
  value-symbol (a % 4 * 16 + b / 16),
  value-symbol (b % 16 * 4 + c / 64),
  value-symbol (c % 64),
  no_pad (b % 16 * 4 + c / 64),
  no_pad (c % 64),
  decode_string-encode_to_string rest h.1.1.1,
)

-- ===== src/Store/Base64.antt =====
-- encoding/base64's StdEncoding, as store/util.go line 47 uses it, and a decoder. A text is the
-- list of its byte values.
pub mod RoundTrip
use Prim.Native.Char.{code}
use Prim.Native.String
use minipush.Base.{
  ℕ, zero, suc, ◌+◌, ◌*◌, ◌/◌, ◌%◌, ◌-◌, List, [], ◌∷◌, String, eqb, leb, ◌&&◌, if◌then◌else◌, ◌≡◌,
  refl,
}

abbrev codes : String → List ℕ
codes String.[] = []
codes (String.◌∷◌ c s) = code c ∷ codes s

-- The alphabet: A-Z, a-z, 0-9, + and /.
unfoldable pub symbol : ℕ → ℕ
symbol n =
    if leb n 25
    then 65 + n
    else if leb n 51
    then 97 + (n - 26)
    else if leb n 61
    then 48 + (n - 52)
    else if eqb n 62
    then 43
    else 47

unfoldable pub encode_to_string : List ℕ → List ℕ
unfolding symbol
encode_to_string [] = []
encode_to_string (a ∷ []) = symbol (a / 4) ∷ symbol (a % 4 * 16) ∷ b'=' ∷ b'=' ∷ []
encode_to_string (a ∷ b ∷ []) =
    symbol (a / 4) ∷ symbol (a % 4 * 16 + b / 16) ∷ symbol (b % 16 * 4) ∷ b'=' ∷ []
encode_to_string (a ∷ b ∷ c ∷ rest) =
    symbol (a / 4)
    ∷ symbol (a % 4 * 16 + b / 16)
    ∷ symbol (b % 16 * 4 + c / 64)
    ∷ symbol (c % 64)
    ∷ encode_to_string rest

-- The value of a symbol; what is no symbol reads as 0.
unfoldable pub value : ℕ → ℕ
value c =
    if leb 65 c && leb c 90
    then c - 65
    else if leb 97 c && leb c 122
    then c - 97 + 26
    else if leb 48 c && leb c 57
    then c - 48 + 52
    else if eqb c 43
    then 62
    else if eqb c 47
    then 63
    else 0

unfoldable pub decode_string : List ℕ → List ℕ
unfolding value
decode_string (p ∷ q ∷ r ∷ s ∷ rest) =
    let a : ℕ = value p * 4 + value q / 16 in
    let b : ℕ = value q % 16 * 16 + value r / 4 in
    let c : ℕ = value r % 4 * 64 + value s in
    let more = decode_string rest in
    if eqb r b'=' then a ∷ [] else if eqb s b'=' then a ∷ b ∷ [] else a ∷ b ∷ c ∷ more
decode_string _ = []

-- The texts of TestNewReadAck.
tested :
    (encode_to_string (64 ∷ []) ≡ codes "QA==")
    × (encode_to_string (192 ∷ []) ≡ codes "wA==")
    × (encode_to_string (0 ∷ []) ≡ codes "AA==")
unfolding encode_to_string
tested = (refl, refl, refl)

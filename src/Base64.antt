-- ===== src/Base64.antt =====
-- `base64.b64encode`, and `base64.b64decode` with `validate=True`: the strict decoding of RFC 4648.
use pazuzu.Base.{
  ℕ, ◌+◌, ◌-◌, ◌*◌, ◌/◌, ◌%◌, ◌<◌, ◌≡◌, refl, false, ◌&&◌, Option, none, some, [], ◌∷◌, Text, Bytes,
  All, arith, ltb, leb, ◌==◌, if◌then◌else◌, is_empty,
}

unfoldable pub digit_of : ℕ → ℕ
digit_of n =
    if ltb n 26
    then b'A' + n
    else if ltb n 52
    then b'a' + (n - 26)
    else if ltb n 62
    then b'0' + (n - 52)
    else if n == 62
    then b'+'
    else b'/'

unfoldable pub value_of : ℕ → Option ℕ
value_of c =
    if leb b'A' c && leb c b'Z'
    then some (c - b'A')
    else if leb b'a' c && leb c b'z'
    then some (c - b'a' + 26)
    else if leb b'0' c && leb c b'9'
    then some (c - b'0' + 52)
    else if c == b'+'
    then some 62
    else if c == b'/'
    then some 63
    else none

unfoldable pub encode : Bytes → Text
encode [] = []
encode (a ∷ []) = digit_of (a / 4) ∷ digit_of (a % 4 * 16) ∷ b'=' ∷ b'=' ∷ []
encode (a ∷ b ∷ []) =
    digit_of (a / 4) ∷ digit_of (a % 4 * 16 + b / 16) ∷ digit_of (b % 16 * 4) ∷ b'=' ∷ []
encode (a ∷ b ∷ c ∷ rest) =
    digit_of (a / 4)
    ∷ digit_of (a % 4 * 16 + b / 16)
    ∷ digit_of (b % 16 * 4 + c / 64)
    ∷ digit_of (c % 64)
    ∷ encode rest

-- The bytes of two, three and four digits.
abbrev one_byte : Option ℕ → Option ℕ → Option Bytes
one_byte (some x) (some y) = some ((x * 4 + y / 16) ∷ [])
one_byte _ _ = none

abbrev two_bytes : Option ℕ → Option ℕ → Option ℕ → Option Bytes
two_bytes (some x) (some y) (some z) = some ((x * 4 + y / 16) ∷ (y % 16 * 16 + z / 4) ∷ [])
two_bytes _ _ _ = none

abbrev three_bytes : Option ℕ → Option ℕ → Option ℕ → Option ℕ → Option Bytes → Option Bytes
three_bytes (some x) (some y) (some z) (some w) (some rest) =
    some ((x * 4 + y / 16) ∷ (y % 16 * 16 + z / 4) ∷ (z % 4 * 64 + w) ∷ rest)
three_bytes _ _ _ _ _ = none

unfoldable pub decode : Text → Option Bytes
decode [] = some []
decode (x ∷ y ∷ z ∷ w ∷ rest) =
    let four = three_bytes (value_of x) (value_of y) (value_of z) (value_of w) (decode rest) in
    if w == b'=' && is_empty rest
    then (if z == b'='
        then one_byte (value_of x) (value_of y)
        else two_bytes (value_of x) (value_of y) (value_of z))
    else four
decode _ = none

value_of-digit_of : (n : ℕ) → n < 64 → value_of (digit_of n) ≡ some n
unfolding value_of digit_of
value_of-digit_of n h = ground arith

digit-ne-pad : (n : ℕ) → n < 64 → (digit_of n == b'=') ≡ false
unfolding digit_of
digit-ne-pad n h = ground arith

-- Bytes that are encoded are decoded to themselves.
pub decode-encode : (bytes : Bytes) → All (λ b. b < 256) bytes → decode (encode bytes) ≡ some bytes
unfolding decode encode
decode-encode [] h = refl
decode-encode (a ∷ []) h = ground (arith, value_of-digit_of (a / 4), value_of-digit_of (a % 4 * 16))
decode-encode (a ∷ b ∷ []) h = ground (
  arith,
  value_of-digit_of (a / 4),
  value_of-digit_of (a % 4 * 16 + b / 16),
  value_of-digit_of (b % 16 * 4),
  digit-ne-pad (b % 16 * 4),
)
decode-encode (a ∷ b ∷ c ∷ rest) (ha, (hb, (hc, hr))) = ground (
  arith,
  value_of-digit_of (a / 4),
  value_of-digit_of (a % 4 * 16 + b / 16),
  value_of-digit_of (b % 16 * 4 + c / 64),
  value_of-digit_of (c % 64),
  digit-ne-pad (c % 64),
  decode-encode rest hr,
)

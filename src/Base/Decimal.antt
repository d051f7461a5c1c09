-- ===== src/Base/Decimal.antt =====
-- Decimal text: `str` and `int` of Python, and `str.strip`.
use Prim.Native.Nat.{ℕ, zero, suc, ◌+◌, ◌-◌, ◌*◌, ◌/◌, ◌%◌, ◌<◌}
use mathlib.Core.Path.{◌≡◌, refl}
use native.Mathlib.Omega.{arith}
use pazuzu.Base.Lists.{any}
use mathlib.Core.Bool.{Bool, true, false, ◌&&◌, ◌||◌}
use mathlib.Core.Option.{Option, none, some}
use mathlib.Core.List.{[], ◌∷◌, ◌++◌, reverse, reverse-append, reverse-reverse}
use pazuzu.Base.Tests.{ltb, leb, ◌==◌, if◌then◌else◌}
use pazuzu.Base.Texts.{Text}
use pazuzu.Base.Int.{ℤ, pos, negsuc}

-- The fuel exceeds the number of digits.
digits : ℕ → ℕ → Text → Text
digits zero n rest = rest
digits (suc fuel) n rest =
    let more = digits fuel (n / 10) ((b'0' + n % 10) ∷ rest) in
    if ltb n 10 then (b'0' + n) ∷ rest else more

-- `str(n)`
unfoldable pub decimal : ℕ → Text
unfolding digits
decimal n = digits (suc n) n []

-- `c.isspace()`
unfoldable pub is_space : ℕ → Bool
is_space c =
    c == 32
    || leb 9 c && leb c 13
    || leb 28 c && leb c 31
    || c == 0x85
    || c == 0xa0
    || c == 0x1680
    || leb 0x2000 c && leb c 0x200a
    || leb 0x2028 c && leb c 0x2029
    || c == 0x202f
    || c == 0x205f
    || c == 0x3000

-- `str(n)` of an integer
unfoldable pub int_text : ℤ → Text
unfolding decimal
int_text (pos n) = decimal n
int_text (negsuc n) = b'-' ∷ decimal (suc n)

digit_spaceless : (d : ℕ) → d < 10 → is_space (b'0' + d) ≡ false
unfolding is_space
digit_spaceless d h = ground arith

digits_spaceless :
    (fuel n : ℕ) (rest : Text)
    → any is_space rest ≡ false
    → any is_space (digits fuel n rest) ≡ false
unfolding digits
digits_spaceless zero n rest h = h
digits_spaceless (suc fuel) n rest h = ground (
  arith,
  digit_spaceless n,
  digit_spaceless (n % 10),
  digits_spaceless fuel (n / 10) ((b'0' + n % 10) ∷ rest),
)

pub int_text_spaceless : (n : ℤ) → any is_space (int_text n) ≡ false
unfolding int_text decimal is_space
int_text_spaceless (pos n) = digits_spaceless (suc n) n [] refl
int_text_spaceless (negsuc n) = digits_spaceless (suc (suc n)) (suc n) [] refl

-- `s.lstrip()`
unfoldable pub strip_left : Text → Text
unfolding is_space
strip_left [] = []
strip_left (c ∷ s) = if is_space c then strip_left s else c ∷ s

-- `s.strip()`
unfoldable pub strip : Text → Text
unfolding strip_left
strip s = reverse (strip_left (reverse (strip_left s)))

unfoldable pub is_digit : ℕ → Bool
is_digit c = leb b'0' c && leb c b'9'

-- The digits of an integer, where one `_` may stand between two of them. The flag says that the
-- character before was a digit.
unsigned : Text → Bool → ℕ → Option ℕ
unfolding is_digit
unsigned [] after_digit n = if after_digit then some n else none
unsigned (c ∷ s) after_digit n =
    if is_digit c
    then unsigned s true (n * 10 + (c - b'0'))
    else if c == b'_' && after_digit
    then unsigned s false n
    else none

negated : Option ℕ → Option ℤ
negated none = none
negated (some zero) = some (pos 0)
negated (some (suc n)) = some (negsuc n)

positive : Option ℕ → Option ℤ
positive none = none
positive (some n) = some (pos n)

signed : Text → Option ℤ
unfolding unsigned negated positive
signed [] = none
signed (c ∷ s) =
    if c == b'-'
    then negated (unsigned s false 0)
    else if c == b'+'
    then positive (unsigned s false 0)
    else positive (unsigned (c ∷ s) false 0)

-- `int(s)` of an ASCII text; `none` is its ValueError.
unfoldable pub parse_int : Text → Option ℤ
unfolding signed strip
parse_int s = signed (strip s)

unsigned-digits :
    (fuel n : ℕ) (rest : Text) (b : Bool)
    → n < fuel
    → unsigned (digits fuel n rest) b 0 ≡ unsigned rest true n
unfolding digits unsigned is_digit
unsigned-digits zero n rest b h = absurd (omega arith)
unsigned-digits (suc fuel) n rest b h =
    ground (arith, unsigned-digits fuel (n / 10) ((b'0' + n % 10) ∷ rest) b)

signed-digits :
    (fuel n : ℕ) (rest : Text)
    → n < fuel
    → signed (digits fuel n rest) ≡ positive (unsigned rest true n)
unfolding digits signed unsigned is_digit
signed-digits zero n rest h = absurd (omega arith)
signed-digits (suc fuel) n rest h =
    ground (arith, signed-digits fuel (n / 10) ((b'0' + n % 10) ∷ rest))

strip_left_spaceless : (s : Text) → any is_space s ≡ false → strip_left s ≡ s
unfolding strip_left
strip_left_spaceless [] h = refl
strip_left_spaceless (c ∷ s) h = ground arith

any-append :
    (s t : Text) → any is_space s ≡ false → any is_space t ≡ false → any is_space (s ++ t) ≡ false
any-append [] t h k = k
any-append (c ∷ s) t h k = ground (arith, any-append s t)

any-reverse : (s : Text) → any is_space s ≡ false → any is_space (reverse s) ≡ false
any-reverse [] h = refl
any-reverse (c ∷ s) h =
    rw (reverse-append (c ∷ []) s)
      (any-append (reverse s) (c ∷ []) (ground (arith, any-reverse s)) (ground arith))

strip_spaceless : (s : Text) → any is_space s ≡ false → strip s ≡ s
unfolding strip
strip_spaceless s h =
    rw (strip_left_spaceless s h)
      (rw (strip_left_spaceless (reverse s) (any-reverse s h)) (reverse-reverse s))

-- `int(str(n)) == n`
pub parse_int-int_text : (n : ℤ) → parse_int (int_text n) ≡ some n
unfolding parse_int int_text decimal
parse_int-int_text (pos n) =
    rw (strip_spaceless _ (int_text_spaceless (pos n)))
      (rw (signed-digits (suc n) n [] (omega arith)) refl)
parse_int-int_text (negsuc n) =
    rw (strip_spaceless _ (int_text_spaceless (negsuc n)))
      (rw (unsigned-digits (suc (suc n)) (suc n) [] false (omega arith)) refl)

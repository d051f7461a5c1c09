-- ===== src/Shlex.antt =====
-- `shlex.quote` and `shlex.join`, which the program builds remote command lines with.
use pazuzu.Base.{
  ℕ, Bool, ◌&&◌, ◌||◌, List, [], ◌∷◌, ◌++◌, Text, codes, leb, ◌==◌, if◌then◌else◌, all, is_empty,
  has_char,
}

-- A character that needs no quotes: `[A-Za-z0-9_@%+=:,./-]`.
unfoldable pub is_safe : ℕ → Bool
unfolding has_char
is_safe c =
    leb b'a' c && leb c b'z'
    || leb b'A' c && leb c b'Z'
    || leb b'0' c && leb c b'9'
    || has_char c (codes "_@%+=:,./-")

-- `s.replace("'", "'\"'\"'")`
unfoldable pub escape_quotes : Text → Text
escape_quotes [] = []
escape_quotes (c ∷ s) = (if c == 39 then 39 ∷ 34 ∷ 39 ∷ 34 ∷ 39 ∷ [] else c ∷ []) ++ escape_quotes s

unfoldable pub quote : Text → Text
unfolding is_safe escape_quotes
quote s =
    if is_empty s
    then codes "''"
    else if all is_safe s
    then s
    else 39 ∷ (escape_quotes s ++ (39 ∷ []))

-- `shlex.join`
unfoldable pub join : List Text → Text
unfolding quote
join [] = []
join (s ∷ []) = quote s
join (s ∷ t ∷ words) = quote s ++ (32 ∷ join (t ∷ words))

-- ===== src/Base/Splitting.antt =====
-- `str.splitlines`, `str.split`, `str.replace` and `str.join` of Python.
use Prim.Native.Nat.{ℕ, zero, suc}
use mathlib.Core.Bool.{Bool, true, false, ◌&&◌, ◌||◌}
use mathlib.Core.Option.{Option, none, some}
use mathlib.Core.List.{List, [], ◌∷◌, ◌++◌, reverse}
use pazuzu.Base.Tests.{leb, ◌==◌, if◌then◌else◌}
use pazuzu.Base.Lists.{length, drop}
use pazuzu.Base.Texts.{Text, starts_with}
use pazuzu.Base.Decimal.{is_space, strip_left}

-- A character that `splitlines` splits at.
unfoldable pub is_line_break : ℕ → Bool
is_line_break c =
    leb 10 c && leb c 13 || leb 28 c && leb c 30 || c == 0x85 || leb 0x2028 c && leb c 0x2029

-- `c` before the first of some lines.
abbrev pub prepend : ℕ → List Text → List Text
prepend c [] = (c ∷ []) ∷ []
prepend c (line ∷ lines) = (c ∷ line) ∷ lines

-- `s.splitlines()`: a carriage return and a line feed are one break, and the last line may lack one.
unfoldable pub split_lines : Text → List Text
unfolding is_line_break starts_with
split_lines [] = []
split_lines (c ∷ s) =
    let rest = split_lines s in
    if c == 13 && starts_with s (10 ∷ [])
    then rest
    else if is_line_break c
    then [] ∷ rest
    else prepend c rest

-- `s.split(c, n)`
unfoldable pub split_max : ℕ → ℕ → Text → List Text
split_max c zero s = s ∷ []
split_max c (suc n) [] = [] ∷ []
split_max c (suc n) (d ∷ s) = elim (d == c) [
  | true ↦ [] ∷ split_max c n s
  | false ↦ prepend d (split_max c (suc n) s)
]

-- `s.split(c, 1)[0]`
unfoldable pub before : ℕ → Text → Text
before c [] = []
before c (d ∷ s) = if d == c then [] else d ∷ before c s

-- Up to the first space.
unfoldable pub word : Text → Text
unfolding is_space
word [] = []
word (c ∷ s) = if is_space c then [] else c ∷ word s

nonempty_word : Text → Option Text
nonempty_word [] = none
nonempty_word (c ∷ s) = some (c ∷ s)

-- `s.split(maxsplit=1)[0]`; `none` is its IndexError.
unfoldable pub first_word : Text → Option Text
unfolding nonempty_word word strip_left
first_word s = nonempty_word (word (strip_left s))

strip_char_left : ℕ → Text → Text
strip_char_left c [] = []
strip_char_left c (d ∷ s) = if d == c then strip_char_left c s else d ∷ s

-- `s.rstrip(c)`
unfoldable pub strip_char_right : ℕ → Text → Text
unfolding strip_char_left
strip_char_right c s = reverse (strip_char_left c (reverse s))

-- `skip` characters of an occurrence are still to be dropped.
replace_from : Text → Text → ℕ → Text → Text
unfolding starts_with
replace_from old new skip [] = []
replace_from old new (suc skip) (c ∷ s) = replace_from old new skip s
replace_from old new zero (c ∷ s) = elim (starts_with (c ∷ s) old) [
  | true ↦ new ++ replace_from old new (length (drop 1 old)) s
  | false ↦ c ∷ replace_from old new zero s
]

-- `s.replace(old, new)`, for an `old` that is not empty.
unfoldable pub replace : Text → Text → Text → Text
unfolding replace_from
replace old new s = replace_from old new zero s

-- `"\n".join(lines)`
unfoldable pub join_lines : List Text → Text
join_lines [] = []
join_lines (line ∷ []) = line
join_lines (line ∷ next ∷ lines) = line ++ (10 ∷ join_lines (next ∷ lines))

-- ===== src/Cli.antt =====
-- cli.py: the command line as argparse parses it. Cli/Parser is `_parser`, Cli/Commands what each
-- operation does, and Cli/Main `_run` and `main`. Parsing by argparse itself is a parameter.
pub mod Parser
pub mod Commands
pub mod Main
pub mod Agents
pub mod Exits
pub mod Relay
use pazuzu.Base.{
  ℕ, ℤ, pos, Bool, false, Option, none, some, List, [], ◌∷◌, Text, text_eq, parse_int,
  if◌then◌else◌,
}

-- A value of a `Namespace`.
pub data Value : Type 0 where
  absent : Value
  text : Text → Value
  number : ℤ → Value
  seconds : ℕ → Value
  flag : Bool → Value
  texts : List Text → Value

-- The attributes of a `Namespace`; the first of a name counts.
abbrev pub Namespace : Type 0
Namespace = List (Text × Value)

unfoldable pub attribute : Namespace → Text → Value
attribute [] name = absent
attribute ((k, v) ∷ ns) name = let rest = attribute ns name in if text_eq k name then v else rest

-- Attributes, each of the type that its argument declares; None is the empty text, as all tests of a
-- text that may be None are for its truth.
abbrev as_text : Value → Text
as_text (text t) = t
as_text _ = []

abbrev as_number : Value → ℤ
as_number (number n) = n
as_number _ = pos 0

abbrev as_seconds : Value → ℕ
as_seconds (seconds n) = n
as_seconds _ = 0

abbrev as_flag : Value → Bool
as_flag (flag b) = b
as_flag _ = false

abbrev as_texts : Value → List Text
as_texts (texts ts) = ts
as_texts _ = []

unfoldable pub text_at : Namespace → Text → Text
unfolding attribute
text_at ns name = as_text (attribute ns name)

unfoldable pub number_at : Namespace → Text → ℤ
unfolding attribute
number_at ns name = as_number (attribute ns name)

unfoldable pub seconds_at : Namespace → Text → ℕ
unfolding attribute
seconds_at ns name = as_seconds (attribute ns name)

unfoldable pub flag_at : Namespace → Text → Bool
unfolding attribute
flag_at ns name = as_flag (attribute ns name)

unfoldable pub texts_at : Namespace → Text → List Text
unfolding attribute
texts_at ns name = as_texts (attribute ns name)

-- `type=` of an argument.
pub data Conversion : Type 0 where
  plain path integer float : Conversion

-- `action=` and `nargs=` of an argument.
pub data Action : Type 0 where
  store : Conversion → Action
  store_true remainder one_or_more : Action

-- What `add_argument` declares. A positional argument has no flags.
pub record Argument : Type 0 where
  pub flags : List Text
  pub dest : Text
  pub action : Action
  pub default : Value
  pub required : Bool

-- A subparser: its arguments, or subparsers of its own.
pub data Subparser : Type 0 where
  arguments : List Argument → Subparser
  commands : Text → List (Text × List Argument) → Subparser

-- What the parser gets of the process: the environment variables, the default paths, `_path`, which
-- expands and resolves a path, and `float`, in milliseconds and 0 where it is not positive.
pub record Environment : Type 0 where
  pub environ : Text → Option Text
  pub default_socket_path : Text
  pub default_control_path : Text
  pub resolve : Text → Text
  pub parse_float : Text → Option ℕ

-- `type=` applied to an argument's text; `none` is its ValueError.
unfoldable pub convert : Environment → Conversion → Text → Option Value
convert env Conversion.plain t = some (text t)
convert env Conversion.path t = some (text (env.resolve t))
convert env Conversion.integer t = elim (parse_int t) [ none ↦ none | some n ↦ some (number n) ]
convert env Conversion.float t = elim (env.parse_float t) [
  | none ↦ none
  | some n ↦ some (seconds n)
]

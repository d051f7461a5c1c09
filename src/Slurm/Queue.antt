-- ===== src/Slurm/Queue.antt =====
-- What slurm.py reads of the lines that `squeue` and `sacct` print.
use pazuzu.Base.{
  ℕ, suc, ◌≡◌, refl, ap, ◌∙◌, true, false, not, Option, none, some, List, [], ◌∷◌, ◌++◌, map, Text,
  codes, all, All, arith, strip, has_char, length, text_eq, before, first_word, strip_char_right,
  is_line_break, split_lines, split_max, if◌then◌else◌,
}
use pazuzu.Errors.{Kind, Result, ok, raise}
use pazuzu.Slurm.{SlurmStatus}
use pazuzu.Slurm.Parsing.{
  or_none, squeue_fields, squeue_lines, parse_squeue, sacct_fields, sacct_lines, parse_sacct,
}

-- Fields with a bar between each two.
unfoldable pub join_fields : Text → List Text → Text
join_fields field [] = field
join_fields field (next ∷ fields) = field ++ (b'|' ∷ join_fields next fields)

-- No field but the last holds a bar.
abbrev pub NoBars : Text → List Text → Type 0
NoBars field [] = Unit
NoBars field (next ∷ fields) = (has_char b'|' field ≡ false) × NoBars next fields

-- A line that is printed with these fields: one line, with no space at its ends.
abbrev pub IsLine : Text × List Text → Type 0
IsLine (field, fields) =
    NoBars field fields
    × (all (λ c. not (is_line_break c)) (join_fields field fields) ≡ true)
    × (strip (join_fields field fields) ≡ join_fields field fields)

-- The output of a command that prints these lines.
abbrev pub print_lines : List (Text × List Text) → Text
print_lines [] = []
print_lines ((field, fields) ∷ rows) = join_fields field fields ++ (10 ∷ print_lines rows)

abbrev all_fields : Text × List Text → List Text
all_fields (field, fields) = field ∷ fields

pub split_lines-append :
    (line rest : Text)
    → all (λ c. not (is_line_break c)) line ≡ true
    → split_lines (line ++ (10 ∷ rest)) ≡ line ∷ split_lines rest
unfolding split_lines is_line_break
split_lines-append [] rest h = refl
split_lines-append (c ∷ line) rest h = ground (arith, split_lines-append line rest)

split_max-append :
    (c n : ℕ) (field rest : Text)
    → has_char c field ≡ false
    → split_max c (suc n) (field ++ (c ∷ rest)) ≡ field ∷ split_max c n rest
unfolding split_max has_char
split_max-append c n [] rest h = ground arith
split_max-append c n (d ∷ field) rest h = ground (arith, split_max-append c n field rest)

split_max-join_fields :
    (field : Text) (fields : List Text)
    → NoBars field fields
    → split_max b'|' (length fields) (join_fields field fields) ≡ field ∷ fields
unfolding split_max join_fields
split_max-join_fields field [] h = refl
split_max-join_fields field (next ∷ fields) (h, hs) =
    let e = split_max-append b'|' (length fields) field (join_fields next fields) h in
    let d = split_max-join_fields next fields hs in cc

split_line :
    (field : Text) (fields : List Text)
    → IsLine (field, fields)
    → split_max b'|' (length fields) (strip (join_fields field fields)) ≡ field ∷ fields
split_line field fields (bars, breaks, ends) =
    ap (split_max b'|' (length fields)) ends ∙ split_max-join_fields field fields bars

-- One line of `squeue`, and one of `sacct`.
pub record QueueRow : Type 0 where
  pub id : Text
  pub state : Text
  pub elapsed : Text
  pub time_limit : Text
  pub reason : Text

pub record AccountRow : Type 0 where
  pub id : Text
  pub state : Text
  pub elapsed : Text
  pub exit_code : Text

abbrev pub queue_fields : QueueRow → Text × List Text
queue_fields r = (r.id, r.state ∷ r.elapsed ∷ r.time_limit ∷ r.reason ∷ [])

abbrev pub account_fields : AccountRow → Text × List Text
account_fields r = (r.id, r.state ∷ r.elapsed ∷ r.exit_code ∷ [])

-- The status of the first row of the job, or of one of its array tasks.
unfoldable pub queue_status : Text → List QueueRow → Option SlurmStatus
queue_status job_id [] = none
queue_status job_id (r ∷ rows) =
    let rest = queue_status job_id rows in
    if text_eq (before b'_' r.id) job_id
    then some (record {
      job_id = job_id;
      state = r.state;
      source = codes "squeue";
      elapsed = some r.elapsed;
      time_limit = some r.time_limit;
      reason = or_none r.reason;
      exit_code = none;
    })
    else rest

account_row_status : Text → AccountRow → Option Text → Result (Option SlurmStatus)
account_row_status job_id r none = raise Kind.index_error (codes "list index out of range")
account_row_status job_id r (some state) = ok (
    some (record {
      job_id = job_id;
      state = strip_char_right b'+' state;
      source = codes "sacct";
      elapsed = or_none r.elapsed;
      time_limit = none;
      reason = none;
      exit_code = or_none r.exit_code;
    }))

-- The status of the first row of the job itself, whose steps have other names; an exception if
-- that row has a blank state.
unfoldable pub account_status : Text → List AccountRow → Result (Option SlurmStatus)
unfolding account_row_status
account_status job_id [] = ok none
account_status job_id (r ∷ rows) =
    let rest = account_status job_id rows in
    if text_eq r.id job_id then account_row_status job_id r (first_word r.state) else rest

-- `parse_squeue` reads back what `squeue` prints, if the first four fields hold no bar and each row
-- takes one line with no space at its ends: it finds the first row of the job or of one of its
-- array tasks, and a reason may hold bars.
pub parse_squeue-print_lines :
    (job_id : Text) (rows : List QueueRow)
    → All (λ r. IsLine (queue_fields r)) rows
    → parse_squeue job_id (print_lines (map queue_fields rows)) ≡ queue_status job_id rows
unfolding parse_squeue squeue_lines squeue_fields queue_status
parse_squeue-print_lines job_id [] h = unfold split_lines in refl
parse_squeue-print_lines job_id (r ∷ rows) (is_line, hs) =
    let fields = r.state ∷ r.elapsed ∷ r.time_limit ∷ r.reason ∷ [] in
    let line =
      split_lines-append (join_fields r.id fields) (print_lines (map queue_fields rows))
        is_line.1 in
    let split = split_line r.id fields is_line in
    let rest = parse_squeue-print_lines job_id rows hs in rw line (ground (arith, split, rest))

-- `parse_sacct` reads back what `sacct` prints, under the same conditions: it finds the first row of the job itself,
-- takes the first word of its state less a `+` at the end, and raises exactly when that state is blank.
pub parse_sacct-print_lines :
    (job_id : Text) (rows : List AccountRow)
    → All (λ r. IsLine (account_fields r)) rows
    → parse_sacct job_id (print_lines (map account_fields rows)) ≡ account_status job_id rows
unfolding parse_sacct sacct_lines sacct_fields account_status
parse_sacct-print_lines job_id [] h = unfold split_lines in refl
parse_sacct-print_lines job_id (r ∷ rows) (is_line, hs) =
    let fields = r.state ∷ r.elapsed ∷ r.exit_code ∷ [] in
    let line =
      split_lines-append (join_fields r.id fields) (print_lines (map account_fields rows))
        is_line.1 in
    let split = split_line r.id fields is_line in
    let rest = parse_sacct-print_lines job_id rows hs in rw line (ground (arith, split, rest))

-- ===== src/Transfer.antt =====
-- transfer.py: the command lines of scp and rsync over the current master.
pub mod Rewriting
use pazuzu.Base.{
  ℕ, zero, suc, ◌+◌, Bool, true, false, ◌&&◌, ◌||◌, not, List, [], ◌∷◌, ◌++◌, Text, codes, text_eq,
  starts_with, has_substring, has_char, contains, is_empty, ◌==◌, if◌then◌else◌, any, length, ltb,
}
use pazuzu.Errors.{Kind, Result, ok, err, raise, raise_if, ◌>>=◌, ◌>>◌}
use pazuzu.Settings.{SshAttachment}
use pazuzu.Shlex.{join}

pub data Tool : Type 0 where
  cp rsync : Tool

-- `_arguments`: one leading `--` is dropped.
unfoldable pub arguments : List Text → Result (List Text)
unfolding text_eq
arguments [] = raise Kind.value_error (codes "provide transfer arguments after '--'")
arguments (a ∷ rest) =
    let values = if text_eq a (codes "--") then rest else a ∷ rest in
    if is_empty values
    then raise Kind.value_error (codes "provide transfer arguments after '--'")
    else ok values

abbrev transport_options : List Text
transport_options = codes "-D" ∷ codes "-F" ∷ codes "-J" ∷ codes "-S" ∷ codes "-o" ∷ []

abbrev pub tail : Text → Text
tail [] = []
tail (c ∷ s) = s

-- The tests of `_reject_transport_overrides` on one argument.
unfoldable pub overrides_transport : Tool → Text → Bool
unfolding contains starts_with has_char text_eq
overrides_transport Tool.cp argument =
    contains transport_options argument || any (starts_with argument) transport_options
overrides_transport Tool.rsync argument =
    text_eq argument (codes "-e")
    || starts_with argument (codes "--rsh")
    || starts_with argument (codes "-")
      && not (starts_with argument (codes "--"))
      && has_char b'e' (tail argument)

abbrev override_message : Tool → Text
override_message Tool.cp = codes "pazuzu cp does not allow SSH transport overrides"
override_message Tool.rsync = codes "pazuzu rsync does not allow a remote-shell override"

unfoldable pub reject_transport_overrides : Tool → List Text → Result (Unit {0})
unfolding overrides_transport
reject_transport_overrides tool [] = ok tt
reject_transport_overrides tool (argument ∷ rest) = do
  raise_if (overrides_transport tool argument) Kind.value_error (override_message tool)
  reject_transport_overrides tool rest

-- `[^:]*:` at the start: whether a colon follows.
abbrev has_colon : Text → Bool
has_colon s = has_char b':' s

-- `re.compile(r"^[^/][^:]*:").match`
unfoldable pub remote_spec : Text → Bool
remote_spec [] = false
remote_spec (c ∷ s) = not (c == b'/') && has_colon s

abbrev pub is_remote : Text → Bool
is_remote argument = starts_with argument (codes ":") && not (starts_with argument (codes "::"))

abbrev pub is_foreign : Text → Bool
is_foreign argument =
    not (starts_with argument (codes "-"))
    && (has_substring (codes "://") argument
        || has_substring (codes "::") argument
        || remote_spec argument)

-- The loop of `_remote_arguments`, with the rewritten arguments and the number of remote ones.
unfoldable pub rewrite_arguments : Text → List Text → List Text → ℕ → Result (List Text × ℕ)
rewrite_arguments host [] rewritten remote_count = ok (rewritten, remote_count)
rewrite_arguments host (argument ∷ rest) rewritten remote_count =
    let remote =
      rewrite_arguments host rest (rewritten ++ ((host ++ (b':' ∷ tail argument)) ∷ []))
        (remote_count + 1) in
    let local = rewrite_arguments host rest (rewritten ++ (argument ∷ [])) remote_count in
    if is_remote argument
    then if length argument == 1
      then raise Kind.value_error (codes "remote paths must not be empty")
      else remote
    else if is_foreign argument
    then raise Kind.value_error
        (codes "remote paths must use the Pazuzu ':path' form; other hosts are not allowed")
    else local

unfoldable pub remote_arguments : Text → List Text → Tool → Result (List Text)
remote_arguments host values tool = do
  given ← arguments values
  reject_transport_overrides tool given
  (rewritten, remote_count) ← rewrite_arguments host given [] 0
  raise_if (not (remote_count == 1)) Kind.value_error
      (codes "provide exactly one remote path using the Pazuzu ':path' form")
  ok rewritten

abbrev common_ssh_options : List Text
common_ssh_options =
    codes "ControlMaster=no"
    ∷ codes "ControlPersist=no"
    ∷ codes "ProxyCommand=/usr/bin/false"
    ∷ codes "ConnectTimeout=5"
    ∷ codes "BatchMode=yes"
    ∷ []

-- `options.extend(("-o", value))` for each value.
abbrev pub as_options : List Text → List Text
as_options [] = []
as_options (value ∷ values) = codes "-o" ∷ value ∷ as_options values

unfoldable pub ssh_options : SshAttachment → List Text
ssh_options attachment =
    as_options common_ssh_options
    ++ as_options ((codes "ControlPath=" ++ attachment.control_path) ∷ [])

unfoldable pub copy_argv : SshAttachment → List Text → Text → Result (List Text)
unfolding ssh_options remote_arguments
copy_argv attachment values executable = do
  given ← remote_arguments attachment.host values Tool.cp
  ok (executable ∷ codes "-S" ∷ attachment.ssh_binary ∷ (ssh_options attachment ++ given))

unfoldable pub rsync_argv : SshAttachment → List Text → Text → Result (List Text)
unfolding ssh_options remote_arguments join
rsync_argv attachment values executable = do
  let remote_shell = join (attachment.ssh_binary ∷ ssh_options attachment)
  given ← remote_arguments attachment.host values Tool.rsync
  ok (executable ∷ codes "-e" ∷ remote_shell ∷ given)

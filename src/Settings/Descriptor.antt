-- ===== src/Settings/Descriptor.antt =====
-- transport.py: `SshAttachment.as_dict` and `from_dict`.
use pazuzu.Base.{
  ℕ, pos, negsuc, ◌≡◌, ap, ◌∙◌, true, false, not, ◌&&◌, ◌||◌, Option, some, List, [], ◌∷◌, ◌++◌,
  Text, codes, arith, is_empty, text_eq, contains, starts_with, ◌==◌, if◌then◌else◌,
}
use pazuzu.Errors.{Kind, Result, ok, raise, raise_if, ◌>>◌}
use pazuzu.Json.{Json, Dict, get, has_keys}
use pazuzu.Settings.{SshAttachment, ssh_attachment}

-- The components of a path but the empty ones and `.`, each after a slash; `current` is the
-- component so far.
unfoldable pub components : Text → Text → Text
unfolding text_eq
components current [] =
    if is_empty current || text_eq current (codes ".") then [] else b'/' ∷ current
components current (c ∷ s) = elim (c == b'/') [
  | true ↦
      (if is_empty current || text_eq current (codes ".") then [] else b'/' ∷ current)
      ++ components [] s
  | false ↦ components (current ++ (c ∷ [])) s
]

abbrev or_root : Text → Text
or_root [] = codes "/"
or_root (c ∷ s) = c ∷ s

abbrev or_here : Text → Text
or_here [] = codes "."
or_here (c ∷ s) = s

-- `str(Path(s))`: exactly two slashes at the start stay.
unfoldable pub path_text : Text → Text
unfolding components starts_with
path_text s =
    if starts_with s (codes "//") && not (starts_with s (codes "///"))
    then b'/' ∷ or_root (components [] s)
    else if starts_with s (codes "/")
    then or_root (components [] s)
    else or_here (components [] s)

unfoldable pub as_dict : SshAttachment → Dict
as_dict a =
    (codes "host", Json.text a.host)
    ∷ (codes "ssh_binary", Json.text a.ssh_binary)
    ∷ (codes "control_path", Json.text a.control_path)
    ∷ (codes "generation", Json.number (pos a.generation))
    ∷ []

abbrev expected : List Text
expected = codes "host" ∷ codes "ssh_binary" ∷ codes "control_path" ∷ codes "generation" ∷ []

-- The tests of the values, in the order of the source; an integer that is not positive is refused
-- by the constructor.
unfoldable pub from_values :
    Option Json → Option Json → Option Json → Option Json → Result SshAttachment
from_values (some (Json.text host)) (some (Json.text ssh_binary)) (some (Json.text control_path))
      generation =
    if is_empty control_path
    then raise Kind.value_error (codes "shell attachment control path must not be empty")
    else elim generation [
      | some (Json.number (pos n)) ↦ ssh_attachment host ssh_binary (path_text control_path) n
      | some (Json.number (negsuc n)) ↦ ssh_attachment host ssh_binary (path_text control_path) 0
      | _ ↦ raise Kind.type_error (codes "shell attachment generation must be an integer")
    ]
from_values _ _ _ generation =
    raise Kind.type_error (codes "shell attachment paths and host must be strings")

unfoldable pub from_dict : Dict → Result SshAttachment
from_dict value = do
  raise_if (not (has_keys expected value)) Kind.value_error
      (codes "invalid shell attachment descriptor fields")
  from_values (get value (codes "host")) (get value (codes "ssh_binary"))
      (get value (codes "control_path")) (get value (codes "generation"))

from_values-eq :
    (host ssh_binary control_path : Text) (generation : ℕ)
    → is_empty control_path ≡ false
    → from_values
        (some (Json.text host))
        (some (Json.text ssh_binary))
        (some (Json.text control_path))
        (some (Json.number (pos generation)))
      ≡ ssh_attachment host ssh_binary (path_text control_path) generation
unfolding from_values
from_values-eq host ssh_binary control_path generation h = ground arith

-- A client reads back the attachment that the gateway described, if it has passed the checks of its
-- constructor and its control path is in the form that `Path` gives it.
pub from_dict-as_dict :
    (a : SshAttachment)
    → ssh_attachment a.host a.ssh_binary a.control_path a.generation ≡ ok a
    → path_text a.control_path ≡ a.control_path
    → from_dict (as_dict a) ≡ ok a
unfolding from_dict as_dict get has_keys text_eq contains
from_dict-as_dict a h p =
    from_values-eq a.host a.ssh_binary a.control_path a.generation (nonempty a h)
    ∙ (ap (λ path. ssh_attachment a.host a.ssh_binary path a.generation) p ∙ h)
  where
    nonempty :
        (b : SshAttachment)
        → ssh_attachment b.host b.ssh_binary b.control_path b.generation ≡ ok b
        → is_empty b.control_path ≡ false
    nonempty b k = unfold ssh_attachment in ground arith

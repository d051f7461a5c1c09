-- ===== src/Examples/Transfers.antt =====
-- Transfer arguments at small inputs.
use pazuzu.Base.{◌≡◌, refl, ◌↔◌, List, [], ◌∷◌, Text, codes, has_substring}
use pazuzu.Errors.{ok}
use pazuzu.Transfer.{
  Tool, remote_arguments, arguments, reject_transport_overrides, rewrite_arguments, remote_spec,
}
use pazuzu.Transfer.Rewriting.{Accepted, remote_arguments_iff}

abbrev given : List Text
given = codes "--" ∷ codes "-r" ∷ codes "a.txt" ∷ codes ":b/c" ∷ []

abbrev rewritten : List Text
rewritten = codes "-r" ∷ codes "a.txt" ∷ codes "login:b/c" ∷ []

remote_arguments_run : remote_arguments (codes "login") given Tool.cp ≡ ok rewritten
unfolding remote_arguments arguments reject_transport_overrides rewrite_arguments remote_spec
    has_substring
remote_arguments_run = refl

remote_arguments_iff_example :
    (remote_arguments (codes "login") given Tool.cp ≡ ok rewritten)
    ↔ Accepted (codes "login") Tool.cp given rewritten
remote_arguments_iff_example = remote_arguments_iff (codes "login") given Tool.cp rewritten

-- ===== src/Launchd/Written.antt =====
-- The file of an agent is replaced as a whole, or not at all.
use pazuzu.Base.{
  ◌≡◌, refl, ap, ◌∙◌, ◌≢◌, arith, some, List, [], ◌∷◌, ◌++◌, Text, codes, map, length,
  length-append, text_eq, Option,
}
use pazuzu.Errors.{Exception, Result, ok, err}
use pazuzu.Exec.{Exec}
use pazuzu.Exec.Ensures.{Ensures, Ensures-pure, Ensures-bind}
use pazuzu.Json.{Json, Dict, elements, array_of, get}
use pazuzu.Launchd.{Agent}
use pazuzu.Launchd.Files.{
  Files, IsFiles, agents_directory, agent_path, temporary_path, plist_dict, arguments_of,
  write_plist, write_agent, program_arguments,
}

-- The new arguments, or those from before.
abbrev pub IsReplaced :
    Text → Agent → Result (List Text) → Result Text → Result (List Text) → Type 0
IsReplaced home a before (ok target) after =
    (target ≡ agent_path home a.label) × (after ≡ ok a.program_arguments)
IsReplaced home a before (err e) after = after ≡ before

paths_differ : (home label : Text) → temporary_path home label ≢ agent_path home label
unfolding temporary_path agent_path
paths_differ home label same = omega (
  arith,
  ap length same,
  length-append (agents_directory home ++ (47 ∷ label)) (codes ".tmp"),
  length-append (agents_directory home ++ (47 ∷ label)) (codes ".plist"),
)

elements-array_of : (vs : List Json) → elements (array_of vs) ≡ vs
elements-array_of [] = refl
elements-array_of (v ∷ vs) = ap (◌∷◌ v) (elements-array_of vs)

arguments_of-texts :
    (str : Json → Text) (ts : List Text)
    → arguments_of str (some (Json.array (array_of (map Json.text ts)))) ≡ ts
unfolding arguments_of
arguments_of-texts str [] = refl
arguments_of-texts str (t ∷ ts) = ap (◌∷◌ t) (arguments_of-texts str ts)

module _ {Content W : Type 0} (files : Files Content W) (is_files : IsFiles files)
    (home : Text) where
  module _ (label : Text) (first : Option Content) where
    -- The file has what it had first.
    abbrev Same : W → Type 0
    Same w = files.read (agent_path home label) w ≡ first

    Ensures-Same :
        {A : Type 0} (m : Exec W A)
        → ((w : W)
            → files.read (agent_path home label) (m w).1 ≡ files.read (agent_path home label) w)
        → Ensures Same m (λ _ w. Same w)
    Ensures-Same m h = record { at = λ w p. h w ∙ p }

    -- The file has the new content, unless the write raised.
    abbrev Replaced : Content → Result Text → W → Type 0
    Replaced content (ok target) w =
        (target ≡ agent_path home label) × (files.read (agent_path home label) w ≡ some content)
    Replaced content (err e) w = Same w

    abbrev Prepared : Content → Result (Unit {0}) → W → Type 0
    Prepared content (ok _) w = Same w × (files.read (temporary_path home label) w ≡ some content)
    Prepared content (err e) w = Same w

    Ensures-write :
        (content : Content)
        → Ensures Same (files.write (temporary_path home label) content) (Prepared content)
    Ensures-write content = record {
      at = λ w p.
          go (files.write (temporary_path home label) content w)
            (is_files.elsewhere _ _ content w (paths_differ home label) ∙ p)
            (is_files.writes (temporary_path home label) content w);
    }
      where
        go :
            (r : Result (Unit {0}) × W)
            → Same r.1
            → (r.0 ≡ ok tt → files.read (temporary_path home label) r.1 ≡ some content)
            → Prepared content r.0 r.1
        go (ok _, w) same written = (same, written refl)
        go (err e, w) same written = same

    abbrev Swapped : Content → Result (Unit {0}) → W → Type 0
    Swapped content (ok _) w = files.read (agent_path home label) w ≡ some content
    Swapped content (err e) w = Same w

    Ensures-replace :
        (content : Content)
        → Ensures
            (Prepared content (ok tt))
            (files.replace (temporary_path home label) (agent_path home label))
            (Swapped content)
    Ensures-replace content = record {
      at = λ w p.
          go w p (files.replace (temporary_path home label) (agent_path home label) w)
            (is_files.replaces (temporary_path home label) (agent_path home label) w)
            (is_files.refuses (temporary_path home label) (agent_path home label) w);
    }
      where
        go :
            (w : W)
            → Prepared content (ok tt) w
            → (r : Result (Unit {0}) × W)
            → (r.0 ≡ ok tt
                → files.read (agent_path home label) r.1 ≡ files.read (temporary_path home label) w)
            → ((e : Exception)
                → r.0 ≡ err e
                → files.read (agent_path home label) r.1 ≡ files.read (agent_path home label) w)
            → Swapped content r.0 r.1
        go w p (ok _, w') done refused = done refl ∙ p.1
        go w p (err e, w') done refused = refused e refl ∙ p.0

    Ensures-chmod :
        (content : Content)
        → Ensures
            (Prepared content (ok tt))
            (files.chmod (temporary_path home label) 384)
            (λ _ w. Prepared content (ok tt) w)
    Ensures-chmod content = record {
      at = λ w p. (is_files.chmods _ _ 384 w ∙ p.0, is_files.chmods _ _ 384 w ∙ p.1);
    }

    Ensures-write_plist :
        (content : Dict)
        → Ensures Same (write_plist files home label content) (Replaced (files.dump content))
    unfolding write_plist
    Ensures-write_plist content =
        Ensures-bind (λ _ w. Same w) _ _ (Ensures-Same _ (is_files.makes _ _))
          (λ _.
            Ensures-bind (Prepared (files.dump content)) _ _ (Ensures-write (files.dump content))
              (λ _.
                Ensures-bind (λ _ w. Prepared (files.dump content) (ok tt) w) _ _
                  (Ensures-chmod (files.dump content))
                  (λ _.
                    Ensures-bind (Swapped (files.dump content)) _ _
                      (Ensures-replace (files.dump content))
                      (λ _. Ensures-pure _ (λ w p. (refl, p))) (λ e w p. p))
                  (λ e w p. p.0))
              (λ e w p. p))
          (λ e w p. p)

  Ensures-write_agent :
      (state_dir : Text) (a : Agent) (first : Option Content)
      → Ensures
          (Same a.label first)
          (write_agent files home state_dir a)
          (Replaced a.label first (files.dump (plist_dict a)))
  unfolding write_agent
  Ensures-write_agent state_dir a first =
      Ensures-bind (λ _ w. Same a.label first w) _ _
        (Ensures-Same a.label first _ (is_files.makes _ _))
        (λ _.
          Ensures-bind (λ _ w. Same a.label first w) _ _
            (Ensures-Same a.label first _ (is_files.chmods _ _ 448))
            (λ _. Ensures-write_plist a.label first (plist_dict a)) (λ e w p. p))
        (λ e w p. p)

  loaded :
      (str : Json → Text) (a : Agent) (w : W)
      → files.read (agent_path home a.label) w ≡ some (files.dump (plist_dict a))
      → program_arguments files home str a.label w ≡ ok a.program_arguments
  unfolding program_arguments plist_dict get text_eq
  loaded str a w h =
      let (d, same, values) = is_files.loads (plist_dict a) in
      rw h (
        rw same (
          rw (values (codes "ProgramArguments"))
            (ap ok (arguments_of-texts str a.program_arguments))))

-- Writing the file of an agent replaces it as a whole or leaves it: the arguments read back afterwards
-- are those that were written if the write returns, and those from before if it raises anywhere, where
-- a rename has its effect or none and a loaded property list has the values that were dumped.
pub write_agent-program_arguments :
    {Content W : Type 0} (files : Files Content W) (is_files : IsFiles files)
    (home state_dir : Text) (str : Json → Text) (a : Agent) (w : W)
    → let (r, w') = write_agent files home state_dir a w in
      IsReplaced home a
        (program_arguments files home str a.label w)
        r
        (program_arguments files home str a.label w')
unfolding program_arguments
write_agent-program_arguments {W = W} files is_files home state_dir str a w =
    go (write_agent files home state_dir a w)
      ((Ensures-write_agent files is_files home state_dir a _).at w refl)
  where
    go :
        (r : Result Text × W)
        → Replaced files is_files home a.label
            (files.read (agent_path home a.label) w)
            (files.dump (plist_dict a))
            r.0
            r.1
        → IsReplaced home a
            (program_arguments files home str a.label w)
            r.0
            (program_arguments files home str a.label r.1)
    go (ok target, w') p = (p.0, loaded files is_files home str a w' p.1)
    go (err e, w') p = rw p refl

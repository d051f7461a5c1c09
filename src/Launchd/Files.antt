-- ===== src/Launchd/Files.antt =====
-- launchd.py: the property list of an agent and its file.
use pazuzu.Base.{
  Bool, if◌then◌else◌, ℕ, pos, ◌-◌, ◌≡◌, ◌≢◌, true, Option, none, some, List, [], ◌∷◌, ◌++◌, Text,
  codes, decimal, map, length, take,
}
use pazuzu.Errors.{Exception, Result, ok, err}
use pazuzu.Exec.{Exec, pure, ◌>>◌}
use pazuzu.Json.{Json, Dict, elements, array_of, get}
use pazuzu.Launchd.{Agent}

-- Files that hold a `Content`, and `plistlib`: `sorted_glob` has the names that start and end so, `load` the dictionary of a
-- property list, or the exception of reading one or of `get` on what is no dictionary, and
-- `is_invalid` says which of these are an InvalidFileException.
pub record Files (Content W : Type 0) : Type 0 where
  pub make_directory : Text → W → Result (Unit {0}) × W
  pub chmod : Text → ℕ → W → Result (Unit {0}) × W
  pub write : Text → Content → W → Result (Unit {0}) × W
  pub replace : Text → Text → W → Result (Unit {0}) × W
  pub read : Text → W → Option Content
  pub sorted_glob : Text → Text → Text → W → List Text
  pub dump : Dict → Content
  pub load : Content → Result Dict
  pub is_invalid : Exception → Bool

-- `_domain`
unfoldable pub domain : ℕ → Text
domain uid = codes "gui/" ++ decimal uid

-- The directory of the agents, from the home directory.
abbrev pub agents_directory : Text → Text
agents_directory home = home ++ codes "/Library/LaunchAgents"

-- A file of an agent, by its suffix.
abbrev agent_file : Text → Text → Text → Text
agent_file home label suffix = (agents_directory home ++ (47 ∷ label)) ++ suffix

unfoldable pub agent_path : Text → Text → Text
agent_path home label = agent_file home label (codes ".plist")

-- `target.with_suffix(".tmp")`
unfoldable pub temporary_path : Text → Text → Text
temporary_path home label = agent_file home label (codes ".tmp")

-- The whole dictionary of `_plist`.
unfoldable pub plist_dict : Agent → Dict
plist_dict a =
    (codes "Label", Json.text a.label)
    ∷ (codes "ProgramArguments", Json.array (array_of (map Json.text a.program_arguments)))
    ∷ (codes "RunAtLoad", Json.boolean true)
    ∷ (codes "KeepAlive", Json.boolean true)
    ∷ (codes "ProcessType", Json.text a.process_type)
    ∷ (codes "ThrottleInterval", Json.number (pos 5))
    ∷ (codes "Umask", Json.number (pos 63))
    ∷ (codes "StandardOutPath", Json.text a.standard_out_path)
    ∷ (codes "StandardErrorPath", Json.text a.standard_error_path)
    ∷ []

-- `str(item)`; `str` is that of what is not a text.
abbrev item_text : (Json → Text) → Json → Text
item_text str (Json.text t) = t
item_text str item = str item

unfoldable pub arguments_of : (Json → Text) → Option Json → List Text
arguments_of str (some (Json.array items)) = map (item_text str) (elements items)
arguments_of str _ = []

-- `except (OSError, plistlib.InvalidFileException)`, for what was read.
abbrev loaded_arguments : (Exception → Bool) → (Json → Text) → Result Dict → Result (List Text)
loaded_arguments is_invalid str (ok d) = ok (arguments_of str (get d (codes "ProgramArguments")))
loaded_arguments is_invalid str (err e) = if is_invalid e then ok [] else err e

module _ {Content W : Type 0} (files : Files Content W) (home : Text) where
  -- `_write_plist`
  unfoldable pub write_plist : Text → Dict → Exec W Text
  write_plist label content = do
    files.make_directory (agents_directory home)
    files.write (temporary_path home label) (files.dump content)
    files.chmod (temporary_path home label) 384
    files.replace (temporary_path home label) (agent_path home label)
    pure (agent_path home label)

  -- `_plist`, and the file that `_install` makes of it.
  unfoldable pub write_agent : Text → Agent → Exec W Text
  write_agent state_dir a = do
    files.make_directory state_dir
    files.chmod state_dir 448
    write_plist a.label (plist_dict a)

  abbrev read_arguments : (Json → Text) → Option Content → Result (List Text)
  read_arguments str none = ok []
  read_arguments str (some content) = loaded_arguments files.is_invalid str (files.load content)

  -- `_program_arguments`
  unfoldable pub program_arguments : (Json → Text) → Text → W → Result (List Text)
  program_arguments str label w = read_arguments str (files.read (agent_path home label) w)

  unfoldable pub bridge_labels : W → List Text
  bridge_labels w =
      map (λ name. take (length name - 6) name)
        (files.sorted_glob (agents_directory home) (codes "science.jamali.pazuzu.bridge.")
          (codes ".plist") w)

-- What files do: a file that was written is read back, a write changes no other file, and a
-- replacement has its effect or, if it raises, none. A property list that is loaded has the values
-- that were dumped.
pub record IsFiles {Content W : Type 0} (files : Files Content W) : Type 0 where
  pub makes :
      (path other : Text) (w : W)
      → files.read other (files.make_directory path w).1 ≡ files.read other w
  pub chmods :
      (path other : Text) (mode : ℕ) (w : W)
      → files.read other (files.chmod path mode w).1 ≡ files.read other w
  pub writes :
      (path : Text) (content : Content) (w : W)
      → (files.write path content w).0 ≡ ok tt
      → files.read path (files.write path content w).1 ≡ some content
  pub elsewhere :
      (path other : Text) (content : Content) (w : W)
      → path ≢ other
      → files.read other (files.write path content w).1 ≡ files.read other w
  pub replaces :
      (source target : Text) (w : W)
      → (files.replace source target w).0 ≡ ok tt
      → files.read target (files.replace source target w).1 ≡ files.read source w
  pub refuses :
      (source target : Text) (w : W) (e : Exception)
      → (files.replace source target w).0 ≡ err e
      → files.read target (files.replace source target w).1 ≡ files.read target w
  pub loads :
      (d : Dict)
      → (d' : Dict) × (files.load (files.dump d) ≡ ok d') × ((key : Text) → get d' key ≡ get d key)

-- ===== src/Examples/Files.antt =====
-- The file of an agent, among files that hold dictionaries.
use pazuzu.Base.{
  true, refl, arith, Option, none, some, [], ◌∷◌, codes, Text, text_eq, text_eq_iff, if◌then◌else◌,
}
use pazuzu.Errors.{Kind, Result, ok, raise}
use pazuzu.Json.{Dict}
use pazuzu.Launchd.{Agent, agent}
use pazuzu.Launchd.Files.{Files, IsFiles, write_agent, program_arguments}
use pazuzu.Launchd.Written.{IsReplaced, write_agent-program_arguments}

abbrev pub Disk : Type 0
Disk = Text → Option Dict

-- The disk with one file changed.
abbrev changed : Text → Option Dict → Disk → Disk
changed path content disk other = if text_eq path other then content else disk other

abbrev renamed : Text → Text → Disk → Option Dict → Result (Unit {0}) × Disk
renamed source target disk none = (raise Kind.os_error (codes "No such file or directory"), disk)
renamed source target disk (some content) =
    (ok tt, changed target (some content) (changed source none disk))

abbrev pub files : Files Dict Disk
files = record {
  make_directory = λ path disk. (ok tt, disk);
  chmod = λ path mode disk. (ok tt, disk);
  write = λ path content disk. (ok tt, changed path (some content) disk);
  replace = λ source target disk. renamed source target disk (disk source);
  read = λ path disk. disk path;
  sorted_glob = λ directory prefix suffix disk. [];
  dump = λ d. d;
  load = λ d. ok d;
  is_invalid = λ e. true;
}

pub files-IsFiles : IsFiles files
files-IsFiles = record {
  makes = λ path other disk. refl;
  chmods = λ path other mode disk. refl;
  writes = λ path content disk h. ground (arith, text_eq_iff path path);
  elsewhere = λ path other content disk apart. ground (arith, text_eq_iff path other, apart);
  replaces = λ source target disk. ground (arith, text_eq_iff target target);
  refuses = λ source target disk e. ground arith;
  loads = λ d. (d, refl, λ key. refl);
}

abbrev serving : Agent
serving =
    agent (codes "/x") (codes "science.jamali.pazuzu.mcp") (codes "/bin/pazuzu-mcp" ∷ [])
      (codes "mcp") (codes "Standard")

write_agent-program_arguments_example :
    let (r, disk) = write_agent files (codes "/home") (codes "/x") serving (λ path. none) in
    IsReplaced
      (codes "/home")
      serving
      (program_arguments files
        (codes "/home")
        (λ v. [])
        (codes "science.jamali.pazuzu.mcp")
        (λ path. none))
      r
      (program_arguments files (codes "/home") (λ v. []) (codes "science.jamali.pazuzu.mcp") disk)
unfolding agent
write_agent-program_arguments_example =
    write_agent-program_arguments files files-IsFiles (codes "/home") (codes "/x") (λ v. []) serving
      (λ path. none)

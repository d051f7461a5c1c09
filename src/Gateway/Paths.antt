-- ===== src/Gateway/Paths.antt =====
-- gateway.py: the default paths, from the environment and the home directory.
use pazuzu.Base.{Bool, Option, none, some, ◌++◌, Text, codes, if◌then◌else◌}
use pazuzu.Settings.Descriptor.{path_text}

-- `Path(os.environ.get("XDG_CACHE_HOME", Path.home() / ".cache"))`
abbrev cache_home : Text → Option Text → Text
cache_home home (some path) = path_text path
cache_home home none = home ++ codes "/.cache"

unfoldable pub default_state_dir : Bool → Text → Option Text → Text
default_state_dir is_darwin home xdg_cache_home =
    if is_darwin
    then home ++ codes "/Library/Caches/pazuzu"
    else cache_home home xdg_cache_home ++ codes "/pazuzu"

-- The paths in that directory.
unfoldable pub default_socket_path : Text → Text
default_socket_path state_dir = state_dir ++ codes "/gateway.sock"

unfoldable pub default_control_path : Text → Text
default_control_path state_dir = state_dir ++ codes "/ssh.ctl"

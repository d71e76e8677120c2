-- ===== src/Paths.antt =====
-- src/paths.rs: where the daemon keeps its files. A path is its text; the environment variables and
-- the user's number are arguments.
pub mod PrivateDir
use livesh.Prelude.{
  ℕ, Bool, true, false, not, Option, none, some, List, [], ◌∷◌, ◌++◌, ◌==◌, if◌then◌else◌, is_empty,
  Bytes, codes,
}
use livesh.Protocol.{ShellId}

abbrev pub starts_with_slash : Bytes → Bool
starts_with_slash [] = false
starts_with_slash (c ∷ cs) = c == b'/'

abbrev pub ends_with_slash : Bytes → Bool
ends_with_slash [] = false
ends_with_slash (c ∷ []) = c == b'/'
ends_with_slash (c ∷ d ∷ cs) = ends_with_slash (d ∷ cs)

-- `Path::join`: an absolute second path replaces the first.
unfoldable pub join : Bytes → Bytes → Bytes
join base name =
    if starts_with_slash name
    then name
    else if is_empty base
    then name
    else if ends_with_slash base
    then base ++ name
    else base ++ (b'/' ∷ name)

pub record RuntimePaths : Type 0 where
  pub base : Bytes
  pub socket : Bytes
  pub lock : Bytes
  pub daemon_json : Bytes
  pub states : Bytes
  pub snapshots : Bytes
  pub scrollback : Bytes
  pub events : Bytes
  pub tmp : Bytes
  pub log : Bytes

-- The directories and files of `RuntimePaths::resolve`, below its base.
unfoldable pub below_base : Bytes → RuntimePaths
unfolding join
below_base base = record {
  base = base;
  socket = join base (codes "liveshd.sock");
  lock = join base (codes "liveshd.lock");
  daemon_json = join base (codes "daemon.json");
  states = join base (codes "states");
  snapshots = join base (codes "snapshots");
  scrollback = join base (codes "scrollback");
  events = join base (codes "events");
  tmp = join base (codes "tmp");
  log = join base (codes "liveshd.log");
}

-- The base: `LIVESH_RUNTIME_DIR`, else `livesh` below `XDG_RUNTIME_DIR`, else a directory of `/tmp`
-- with the user's number, here as its decimal text.
unfoldable pub base_dir : Option Bytes → Option Bytes → Bytes → Bytes
unfolding join
base_dir (some dir) xdg uid = dir
base_dir none (some dir) uid = join dir (codes "livesh")
base_dir none none uid = join (codes "/tmp") (codes "livesh-" ++ uid)

pub resolve : Option Bytes → Option Bytes → Bytes → RuntimePaths
unfolding base_dir below_base
resolve livesh_dir xdg uid = below_base (base_dir livesh_dir xdg uid)

unfoldable pub metadata : RuntimePaths → ShellId → Bytes
unfolding join
metadata paths id = join paths.states (id ++ codes ".json")

unfoldable pub snapshot : RuntimePaths → ShellId → Bytes
unfolding join
snapshot paths id = join paths.snapshots (id ++ codes ".screen")

unfoldable pub scrollback : RuntimePaths → ShellId → Bytes
unfolding join
scrollback paths id = join paths.scrollback (id ++ codes ".ring")

unfoldable pub events : RuntimePaths → ShellId → Bytes
unfolding join
events paths id = join paths.events (id ++ codes ".ring")

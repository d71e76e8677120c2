-- ===== src/Daemon/Registry/Listed.antt =====
-- `list`: what a client is told of the shells.
use mathlib.Core.List.{Perm}
use livesh.Prelude.{map}
use livesh.Prelude.Dict.{values}
use livesh.Daemon.Shell
use livesh.Daemon.Listing.Sorted.{IsSorted, sort-IsSorted, sort-perm}
use livesh.Daemon.Registry.{Daemon, list}

-- The list has every registered shell exactly once, as its own description, in the order of creation.
pub list-IsSorted :
    {P : Type 0} (d : Daemon P)
    → IsSorted (list d) × Perm (list d) (map Shell.info (values d.states))
unfolding list
list-IsSorted d =
    (sort-IsSorted (map Shell.info (values d.states)), sort-perm (map Shell.info (values d.states)))

-- ===== src/Daemon/Listing.antt =====
-- src/daemon.rs, the sort in `ShellRegistry::list`: `sort_by_key` on the time of creation, which is
-- stable.
pub mod Sorted
use livesh.Prelude.{Bool, List, [], ◌∷◌, leb, if◌then◌else◌}
use livesh.Protocol.{ShellInfo}

unfoldable pub insert_info : ShellInfo → List ShellInfo → List ShellInfo
insert_info x [] = x ∷ []
insert_info x (y ∷ ys) =
    let rest = insert_info x ys in
    if leb x.created_at_ms y.created_at_ms then x ∷ y ∷ ys else y ∷ rest

unfoldable pub sort_by_created : List ShellInfo → List ShellInfo
unfolding insert_info
sort_by_created [] = []
sort_by_created (x ∷ xs) = insert_info x (sort_by_created xs)

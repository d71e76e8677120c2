-- ===== src/Daemon/Errors.antt =====
-- src/daemon.rs, `classify_error`: the code that a client gets for an error, by its text.
pub mod Classified
use livesh.Prelude.{◌||◌, if◌then◌else◌, Bytes, codes, contains, Bool}
use livesh.Protocol.{ErrorCode, fd_limit, not_found, too_many_shells, internal}

abbrev pub mentions_fd_limit : Bytes → Bool
mentions_fd_limit msg =
    contains (codes "dup of fd") msg
    || contains (codes "Too many open files") msg
    || contains (codes "EMFILE") msg

unfoldable pub classify_error : Bytes → ErrorCode
unfolding contains
classify_error msg =
    if mentions_fd_limit msg
    then fd_limit
    else if contains (codes "not found") msg
    then not_found
    else if contains (codes "too many") msg
    then too_many_shells
    else internal

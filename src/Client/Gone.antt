-- ===== src/Client/Gone.antt =====
-- A shell that a client has killed is not in the list that it gets next.
use livesh.Prelude.{
  ◌≡◌, refl, ap, ◌∙◌, sym, subst, ℕ, true, Bool, not, none, some, List, [], ◌∷◌, ◌&&◌, inl, arith,
  map, all, eq_bytes, eq_bytes_refl,
}
use livesh.Prelude.Dict.{Dict, lookup, remove, values, AllEntries, AllEntries-remove, lookup-remove}
use livesh.Prelude.Result.{Result, ok, err}
use livesh.Protocol.{ShellId, ShellInfo, ClientMsg, ServerMsg, shell_list}
use livesh.Terminal.{Vt100}
use livesh.Daemon.Os.{Os}
use livesh.Daemon.Env.{CommandBuilder}
use livesh.Daemon.Listing.{insert_info, sort_by_created}
use livesh.Daemon.Shell
use livesh.Daemon.Shell.{ShellState}
use livesh.Daemon.Registry
use livesh.Daemon.Registry.{Registry, Daemon, terminate}
use livesh.Daemon.Registry.Killing.{states-terminate}
use livesh.Daemon.Server.{Server, answer}
use livesh.Client
use livesh.Client.{Codecs}
use livesh.Client.Calls.{IsLawful, joined}
use livesh.Client.Control.{expect_ok-kill_shell, list_shells-joined, killed, to_answer}
use livesh.Client.Session.{Framed, IsElsewhere}
use livesh.Client.Wire.{wire}

abbrev pub is_other : ShellId → ShellInfo → Bool
is_other id info = not (eq_bytes info.id id)

all-insert_info :
    (p : ShellInfo → Bool) (x : ShellInfo) (xs : List ShellInfo)
    → all p (insert_info x xs) ≡ (p x && all p xs)
unfolding insert_info
all-insert_info p x [] = refl
all-insert_info p x (y ∷ ys) = ground (arith, all-insert_info p x ys)

all-sort : (p : ShellInfo → Bool) (xs : List ShellInfo) → all p (sort_by_created xs) ≡ all p xs
unfolding sort_by_created
all-sort p [] = refl
all-sort p (x ∷ xs) = ground (arith, all-insert_info p x (sort_by_created xs), all-sort p xs)

all-is_other :
    {P : Type 0} (id : ShellId) (m : Dict (ShellState P))
    → AllEntries (λ j s. s.id ≡ j) m
    → lookup id m ≡ none
    → all (is_other id) (map Shell.info (values m)) ≡ true
unfolding lookup Shell.info
all-is_other id [] a h = refl
all-is_other id ((j, s) ∷ m) a h = ground (arith, all-is_other id m a.1)

abbrev list_of : {P : Type 0} → Dict (ShellState P) → List ShellInfo
list_of m = sort_by_created (map Shell.info (values m))

states-answer :
    {P : Type 0} (tx : ℕ) (r : Result (Unit {0})) (d : Daemon P)
    → (answer tx (r, d)).states ≡ d.states
states-answer tx (ok u) d = refl
states-answer tx (err e) d = refl

module _ {P : Type 0} (reg : Registry) where
  states-cleanup_shell :
      (d : Daemon P) (id : ShellId) {s : ShellState P}
      → lookup id d.states ≡ some s
      → (Registry.cleanup_shell reg d id none).states ≡ remove id d.states
  unfolding Registry.cleanup_shell remove
  states-cleanup_shell d id h = rw (Registry.cleanup_shell, h) refl

  states-kill_shell :
      (d : Daemon P) (id : ShellId) {s : ShellState P}
      → lookup id d.states ≡ some s
      → (Registry.kill_shell reg d id).1.states ≡ remove id d.states
  unfolding Registry.kill_shell
  states-kill_shell d id {s} h =
      let kept = states-terminate s.pid d in
      rw (Registry.kill_shell, h)
        (states-cleanup_shell (terminate s.pid d) id (ap (lookup id) kept ∙ h)
          ∙ ap (remove id) kept)

module _ {P C : Type 0} (vt : Vt100 P) (cb : CommandBuilder C) (reg : Registry) (codecs : Codecs)
    (lawful : IsLawful codecs) (tx : ℕ) (os : Os) (v : Server P) where
  -- A client that is attached to no shell kills a shell that is there and then lists the shells, over
  -- one connection where nothing was under way; the messages fit into frames, and every shell has the
  -- id that it is registered with. The first call succeeds, and the list that the second one gets is
  -- the registry's behind the kill and has no shell with that id.
  pub list_shells-kill_shell :
      (id : ShellId) (s : ShellState P)
      → lookup id v.daemon.states ≡ some s
      → AllEntries (λ j t. t.id ≡ j) v.daemon.states
      → AllEntries (λ j t. IsElsewhere tx t.attach) v.daemon.states
      → Framed codecs.client_msg (ClientMsg.kill_shell id)
      → Framed codecs.server_msg ServerMsg.ok
      → Framed codecs.client_msg ClientMsg.list_shells
      → let d = (Registry.kill_shell reg v.daemon id).1 in
        Framed codecs.server_msg (shell_list (Registry.list d))
        → let w = wire vt cb reg codecs os tx in
          let killing = Client.expect_ok w codecs (joined v []) (ClientMsg.kill_shell id) in
          (killing.0 ≡ inl tt)
          × ((Client.list_shells w codecs killing.1).0 ≡ inl (Registry.list d))
          × (all (is_other id) (Registry.list d) ≡ true)
  unfolding Registry.kill_shell Registry.list
  list_shells-kill_shell id s found same elsewhere request accepted listing framed =
      let succeeds : (Registry.kill_shell reg v.daemon id).0 ≡ ok tt =
        rw (Registry.kill_shell, found) refl in
      let framed_ok : Framed codecs.server_msg (to_answer (Registry.kill_shell reg v.daemon id).0) =
        subst (λ r. Framed codecs.server_msg (to_answer r)) (sym succeeds) accepted in
      let killing =
        expect_ok-kill_shell vt cb reg codecs lawful tx os v id elsewhere request framed_ok in
      let d = (Registry.kill_shell reg v.daemon id).1 in
      let answered : Registry.list (killed reg tx v id).daemon ≡ Registry.list d =
        ap list_of (states-answer tx (Registry.kill_shell reg v.daemon id).0 d) in
      let listing_after =
        list_shells-joined vt cb reg codecs lawful tx os (killed reg tx v id) listing
          (subst (λ l. Framed codecs.server_msg (shell_list l)) (sym answered) framed) in
      let left = states-kill_shell reg v.daemon id found in
      let gone : lookup id (remove id v.daemon.states) ≡ none =
        lookup-remove id id v.daemon.states ∙ rw (eq_bytes_refl id) refl in
      rw (killing, succeeds)
        (
          refl,
          listing_after.0 ∙ ap inl answered,
          ap (λ m. all (is_other id) (list_of m)) left
              ∙ all-sort (is_other id) _
              ∙ all-is_other id (remove id v.daemon.states)
                  (AllEntries-remove (λ j t. t.id ≡ j) id v.daemon.states same) gone,
        )

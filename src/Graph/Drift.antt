-- ===== src/Graph/Drift.antt =====
-- `drift` and `assert_fresh` of graph.py: which resources the workspace no longer agrees with.
use open_tapeout.Prelude.{
  ℕ, String, false, not, Option, none, some, List, [], ◌∷◌, str_eq, if◌then◌else◌, Dict, lookup,
  is_empty, ◌&&◌,
}
use open_tapeout.Result.{tapeout, team, os_error, Result, ok, err, ensure, key_error, ◌>>=◌, ◌>>◌}
use open_tapeout.Json.{Json, Fields, get, field_is, json_eq, fields_eq, is_true}
use open_tapeout.Records.{Resource}
use open_tapeout.Graph.{Graph}

-- What the program reads of the workspace: the files of a directory (tree_capture.py), the metadata
-- of a Git worktree (git_capture.py), the digest and the size of a file below the root, and of a file
-- that `put_file` stores, why `verify_object` refuses an object, and the size of metadata as canonical JSON.
pub record Workspace : Type 0 where
  pub capture_tree : Json → Result Json
  pub inspect_git : Json → Result Fields
  pub file_digest : String → Result (String × ℕ)
  pub put_file : String → Result (String × ℕ)
  pub object_error : String → Option String
  pub metadata_size : Fields → ℕ

-- `except (TapeoutError, OSError) as exc: result[key] = str(exc)`
unfoldable pub caught_io : Result (Option String) → Result (Option String)
caught_io (err (tapeout message)) = ok (some message)
caught_io (err (team code message status)) = ok (some message)
caught_io (err (os_error message)) = ok (some message)
caught_io r = r

-- `except TapeoutError as exc: result[key] = str(exc)`
unfoldable pub caught_tapeout : Result (Option String) → Result (Option String)
caught_tapeout (err (tapeout message)) = ok (some message)
caught_tapeout (err (team code message status)) = ok (some message)
caught_tapeout r = r

abbrev pub later : Option String → Option String → Option String
later first none = first
later first (some why) = some why

-- `{key: self.stale[key] for key in selected if self.stale[key]}`, its keys
unfoldable pub stale_of : Graph → List String → Result (List String)
stale_of g [] = ok []
stale_of g (key ∷ selected) = elim (lookup key g.stale) [
  | none ↦ err key_error
  | some reasons ↦ do
    others ← stale_of g selected
    ok (if is_empty reasons then others else key ∷ others)
]

module _ (w : Workspace) where
  unfoldable pub tree_changed : Resource → Result (Option String)
  tree_changed r = do
    directory ← get "directory" r.metadata
    observed ← w.capture_tree directory
    files ← get "files" r.metadata
    ok (
        if json_eq observed files
        then none
        else some "Directory contents changed (addition, deletion, or changed file bytes)")

  unfoldable pub git_changed : Resource → Result (Option String)
  git_changed r = do
    repo_path ← get "repo_path" r.metadata
    observed ← w.inspect_git repo_path
    unchanged ←
        if fields_eq observed r.metadata
        then (do dirty ← get "dirty" observed; ok (not (is_true dirty)))
        else ok false
    ok (
        if unchanged
        then none
        else some "Git commit, submodule pins, or worktree cleanliness changed")

  unfoldable pub file_changed : Resource → String → Result (Option String)
  file_changed r path = do
    (actual, _) ← w.file_digest path
    ok (
        if str_eq actual r.sha256
        then none
        else some "Workspace bytes differ from recorded content")

  -- The tests of one resource; a later one replaces the reason of an earlier one.
  unfoldable pub drift_of : Resource → Result (Option String)
  unfolding caught_io caught_tapeout tree_changed git_changed file_changed
  drift_of r = do
    tree ←
        if field_is "capture" "directory-tree" r.metadata
        then caught_io (tree_changed r)
        else ok none
    git ←
        if str_eq r.kind "git" && field_is "capture" "git-worktree" r.metadata
        then caught_tapeout (git_changed r)
        else ok none
    file ← elim r.path [ none ↦ ok none | some path ↦ caught_io (file_changed r path) ]
    ok (later (later tree git) file)

  -- `drift(root, selected)`, over the keys that are selected
  unfoldable pub drift : Dict Resource → List String → Result (Dict String)
  drift resources [] = ok []
  drift resources (key ∷ selected) = elim (lookup key resources) [
    | none ↦ err key_error
    | some r ↦ do
      reason ← drift_of r
      others ← drift resources selected
      ok (elim reason [ none ↦ others | some why ↦ (key, why) ∷ others ])
  ]

  unfoldable pub assert_fresh : Graph → List String → Result (Unit {0})
  unfolding drift stale_of
  assert_fresh g selected = do
    stale ← stale_of g selected
    ensure (is_empty stale) "Obsolete derived inputs must be rebuilt"
    found ← drift g.resources selected
    ensure (is_empty found) "Workspace drift; register changed inputs first"

-- ===== src/Graph/Unchanged.antt =====
-- What it means that no resource has drifted.
use open_tapeout.Prelude.{
  ℕ, String, Bool, true, false, not, Bool-cases, ◌&&◌, Option, none, some, Option-cases, List, [],
  ◌∷◌, ◌≡◌, sym, ap, ◌∙◌, arith, str_eq, eq_iff, if◌then◌else◌, Dict, lookup, All, inl, inr,
}
use open_tapeout.Result.{Result, ok, ◌>>=◌, >>=-eq-ok, ensure-eq-ok, ok-injective}
use open_tapeout.Json.{Json, Fields, get, field_is, json_eq, fields_eq, is_true}
use open_tapeout.Records.{Resource, Platform}
use open_tapeout.Graph.{Graph, build, link_resources, kahn, start, no_links}
use open_tapeout.Graph.Drift.{
  Workspace, later, caught_io, caught_tapeout, tree_changed, git_changed, file_changed, drift_of,
  drift,
}

pub build-resources :
    (p : Platform) (resources : Dict Resource) (g : Graph)
    → build p resources ≡ ok g
    → g.resources ≡ resources
unfolding build
build-resources p resources g h =
    let (t, _, h1) = >>=-eq-ok (link_resources resources resources no_links) _ h in
    let (s, _, h2) = >>=-eq-ok (kahn p resources t.children _ (start resources t)) _ h1 in
    let (_, h3) = ensure-eq-ok _ _ _ h2 in sym (ap (λ (x : Graph). x.resources) (ok-injective h3))

-- The workspace still shows what was registered: a captured directory has its files, a captured
-- worktree its metadata and is clean, and a file its digest.
pub record IsUnchanged (w : Workspace) (r : Resource) : Type 0 where
  pub tree :
      field_is "capture" "directory-tree" r.metadata ≡ true
      → (directory : Json) × (observed : Json) × (files : Json) × (get "directory" r.metadata
          ≡ ok directory)
        × (w.capture_tree directory ≡ ok observed)
        × (get "files" r.metadata ≡ ok files)
        × (json_eq observed files ≡ true)
  pub git :
      (str_eq r.kind "git" && field_is "capture" "git-worktree" r.metadata) ≡ true
      → (repo_path : Json) × (observed : Fields) × (get "repo_path" r.metadata ≡ ok repo_path)
        × (w.inspect_git repo_path ≡ ok observed)
        × (fields_eq observed r.metadata ≡ true)
        × (dirty : Json) × (get "dirty" observed ≡ ok dirty)
        × (is_true dirty ≡ false)
  pub file :
      (path : String) → r.path ≡ some path → (size : ℕ) × (w.file_digest path ≡ ok (r.sha256, size))

caught_io-none : (r : Result (Option String)) → caught_io r ≡ ok none → r ≡ ok none
unfolding caught_io
caught_io-none r h = ground arith

caught_tapeout-none : (r : Result (Option String)) → caught_tapeout r ≡ ok none → r ≡ ok none
unfolding caught_tapeout
caught_tapeout-none r h = ground arith

later-none : (a b : Option String) → later a b ≡ none → (a ≡ none) × (b ≡ none)
later-none a b h = ground arith

clean_of :
    (observed metadata : Fields) (unchanged : Bool)
    → (if fields_eq observed metadata
        then (do dirty ← get "dirty" observed; ok (not (is_true dirty)))
        else ok false)
      ≡ ok unchanged
    → unchanged ≡ true
    → (fields_eq observed metadata ≡ true)
      × (dirty : Json) × (get "dirty" observed ≡ ok dirty)
      × (is_true dirty ≡ false)
clean_of observed metadata unchanged h clear = elim (Bool-cases (fields_eq observed metadata)) [
  | inr e ↦ absurd (ground arith)
  | inl e ↦
      let (dirty, d, h1) = >>=-eq-ok (get "dirty" observed) _ (rw e at h) in
      (e, dirty, d, ground arith)
]

module _ (w : Workspace) (r : Resource) where
  tree_changed-none :
      tree_changed w r ≡ ok none
      → (directory : Json) × (observed : Json) × (files : Json) × (get "directory" r.metadata
          ≡ ok directory)
        × (w.capture_tree directory ≡ ok observed)
        × (get "files" r.metadata ≡ ok files)
        × (json_eq observed files ≡ true)
  unfolding tree_changed
  tree_changed-none h =
      let (directory, d, h1) = >>=-eq-ok (get "directory" r.metadata) _ h in
      let (observed, o, h2) = >>=-eq-ok (w.capture_tree directory) _ h1 in
      let (files, f, h3) = >>=-eq-ok (get "files" r.metadata) _ h2 in
      (directory, observed, files, d, o, f, ground arith)

  git_changed-none :
      git_changed w r ≡ ok none
      → (repo_path : Json) × (observed : Fields) × (get "repo_path" r.metadata ≡ ok repo_path)
        × (w.inspect_git repo_path ≡ ok observed)
        × (fields_eq observed r.metadata ≡ true)
        × (dirty : Json) × (get "dirty" observed ≡ ok dirty)
        × (is_true dirty ≡ false)
  unfolding git_changed
  git_changed-none h =
      let (repo_path, d, h1) = >>=-eq-ok (get "repo_path" r.metadata) _ h in
      let (observed, o, h2) = >>=-eq-ok (w.inspect_git repo_path) _ h1 in
      let (unchanged, u, h3) =
        >>=-eq-ok
          (if fields_eq observed r.metadata
            then (do dirty ← get "dirty" observed; ok (not (is_true dirty)))
            else ok false)
          _ h2 in
      let (same, dirty, is, clean) = clean_of observed r.metadata unchanged u (ground arith) in
      (repo_path, observed, d, o, same, dirty, is, clean)

  file_changed-none :
      (path : String)
      → file_changed w r path ≡ ok none
      → (size : ℕ) × (w.file_digest path ≡ ok (r.sha256, size))
  unfolding file_changed
  file_changed-none path h =
      let ((actual, size), d, h1) = >>=-eq-ok (w.file_digest path) _ h in
      let same : actual ≡ r.sha256 = ground (arith, eq_iff actual r.sha256) in
      (size, d ∙ ap (λ a. ok (a, size)) same)

  drift_of-IsUnchanged : drift_of w r ≡ ok none → IsUnchanged w r
  unfolding drift_of
  drift_of-IsUnchanged h =
      let (tree, t, h1) =
        >>=-eq-ok
          (if field_is "capture" "directory-tree" r.metadata
            then caught_io (tree_changed w r)
            else ok none)
          _ h in
      let (git, g, h2) =
        >>=-eq-ok
          (if str_eq r.kind "git" && field_is "capture" "git-worktree" r.metadata
            then caught_tapeout (git_changed w r)
            else ok none)
          _ h1 in
      let (file, f, h3) =
        >>=-eq-ok (elim r.path [ none ↦ ok none | some path ↦ caught_io (file_changed w r path) ]) _
          h2 in
      let (first, last) = later-none (later tree git) file (ok-injective h3) in
      let (no_tree, no_git) = later-none tree git first in
      record {
        tree =
            λ e. tree_changed-none (caught_io-none (tree_changed w r) (rw e at t ∙ ap ok no_tree));
        git = λ e.
            git_changed-none (caught_tapeout-none (git_changed w r) (rw e at g ∙ ap ok no_git));
        file = λ path e.
            file_changed-none path
              (caught_io-none (file_changed w r path) (rw e at f ∙ ap ok last));
      }

pub drift-IsUnchanged :
    (w : Workspace) (resources : Dict Resource) (selected : List String)
    → drift w resources selected ≡ ok []
    → All (λ k. (r : Resource) × (lookup k resources ≡ some r) × IsUnchanged w r) selected
unfolding drift
drift-IsUnchanged w resources [] h = tt
drift-IsUnchanged w resources (key ∷ selected) h = elim (Option-cases (lookup key resources)) [
  | inl missing ↦ absurd (ground arith)
  | inr (r, e) ↦
      let (reason, here, h1) = >>=-eq-ok (drift_of w r) _ (rw (e, drift) at h) in
      let (others, more, h2) = >>=-eq-ok (drift w resources selected) _ h1 in
      elim (Option-cases reason) [
        | inr (why, e') ↦ absurd (ground arith)
        | inl fine ↦ (
          (r, e, drift_of-IsUnchanged w r (here ∙ ap ok fine)),
          drift-IsUnchanged w resources selected (more ∙ rw fine at h2),
        )
      ]
]

-- ===== src/Engine/Register.antt =====
-- `init`, `register`, `begin` and `receipt` of engine.py: resources, runs and foundry receipts.
use open_tapeout.Prelude.{
  ℕ, String, ◌&&◌, not, Option, none, some, List, [], ◌∷◌, ◌++◌, Dict, lookup, insert, keys,
  contains, sorted, to_set, is_empty, str_eq, leb, length,
}
use open_tapeout.Result.{Result, ok, err, tapeout, key_error, ensure, known, ◌>>=◌, ◌>>◌}
use open_tapeout.Json.{Fields}
use open_tapeout.Util.{identifier, codes}
use open_tapeout.Util.Paths.{safe_relative}
use open_tapeout.Records.{Resource, Run, Platform}
use open_tapeout.Graph.{Graph, build, closure, current_of}
use open_tapeout.Graph.Drift.{Workspace, assert_fresh}
use open_tapeout.Graph.Kinds.{validate_resource}
use open_tapeout.Parsers.{checks}
use open_tapeout.Store.{Codec, Transaction, append}
use open_tapeout.Engine.State.{
  State, Project, Receipt, Payload, project_created, resource_registered, run_started,
  receipt_recorded, state_from,
}

-- `graph.resources[key]`
unfoldable pub resource_at : Dict Resource → String → Result Resource
resource_at resources key = elim (lookup key resources) [ none ↦ err key_error | some r ↦ ok r ]

unfoldable pub of_kind : Graph → String → String → String → Result Resource
unfolding known
of_kind g key kind message = do
  r ← known (lookup key g.resources) message
  ensure (str_eq r.kind kind) message
  ok r

-- `for key in selected: self.store.verify_object(graph.resources[key]["sha256"])`
unfoldable pub verify_objects : Workspace → Dict Resource → List String → Result (Unit {0})
unfolding resource_at
verify_objects w resources [] = ok tt
verify_objects w resources (key ∷ selected) = do
  r ← resource_at resources key
  elim (w.object_error r.sha256) [ none ↦ ok tt | some reason ↦ err (tapeout reason) ]
  verify_objects w resources selected

module _ (p : Platform) (w : Workspace) (c : Codec String Payload) where
  -- `init`, behind the creation of the directories; `project_id` is the new UUID
  unfoldable pub init : Transaction c → String → String → String → String → Result (Transaction c)
  init tx project_id project actor now = do
    ensure (not (str_eq (p.strip project) "") && leb (length (codes project)) 128)
        "Project name required"
    ensure (is_empty tx.events) "Workspace already initialized; refusing to overwrite"
    let created : Project = record {
      id = project_id;
      name = project;
      schema = "opentapeout.project/v1";
    }
    (_, tx') ← append c "project.created" (project_created created) actor now tx
    ok tx'

  -- What the store keeps of a new resource: its path, its digest and its size.
  unfoldable pub capture : Option String → Fields → Result (Option String × String × ℕ)
  capture none metadata = ok (none, p.digest_metadata metadata, w.metadata_size metadata)
  capture (some path) metadata = do
    relative ← safe_relative path
    (checksum, size) ← w.put_file relative
    ok (some relative, checksum, size)

  -- The new resource, pinned to the fingerprints of its dependencies.
  unfoldable pub prepare :
      State → String → String → Option String → Fields → List String → Result Resource
  unfolding capture
  prepare s resource_id kind path metadata depends_on = do
    graph ← build p s.resources
    ensure (not (contains resource_id depends_on)) "A resource cannot depend on itself"
    selected ← closure graph depends_on
    assert_fresh w graph (keys selected)
    pins ← current_of graph.fingerprints depends_on
    (relative, checksum, size) ← capture path metadata
    ok (record {
      kind = kind;
      sha256 = checksum;
      size = size;
      path = relative;
      metadata = metadata;
      depends_on = sorted depends_on;
      built_from = pins;
    })

  unfoldable pub register :
      Transaction c
      → String
      → String
      → Option String
      → Fields
      → List String
      → String
      → String
      → Result (Resource × Transaction c)
  unfolding prepare
  register tx resource_id kind path metadata depends_on actor now = do
    _ ← identifier resource_id
    validate_resource p kind metadata
    s ← state_from p tx.events
    resource ← prepare s resource_id kind path metadata depends_on
    _ ← build p (insert resource_id resource s.resources)
    (_, tx') ←
        append c "resource.registered" (resource_registered resource_id resource) actor now tx
    ok (resource, tx')

  -- The run that `begin` records; `run_id` is the new UUID.
  unfoldable pub start_run :
      State → String → String → List String → String → String → String → Result Run
  unfolding of_kind verify_objects
  start_run s run_id kind inputs tool corner now = do
    graph ← build p s.resources
    spec ← of_kind graph tool "tool" "A tool resource is required"
    _ ← of_kind graph corner "corner" "A corner resource is required"
    let roots = sorted (to_set (inputs ++ tool ∷ corner ∷ []))
    selected ← closure graph roots
    assert_fresh w graph (keys selected)
    verify_objects w graph.resources (keys selected)
    ok (record {
      id = run_id;
      kind = kind;
      corner = corner;
      tool = tool;
      roots = roots;
      snapshot = selected;
      started_at = now;
      tool_spec = spec.metadata;
      sequence = 0;
      completion = none;
    })

  unfoldable pub begin :
      Transaction c
      → String
      → String
      → List String
      → String
      → String
      → String
      → String
      → Result (Run × Transaction c)
  unfolding start_run
  begin tx run_id kind inputs tool corner actor now = do
    ensure (contains kind checks) "Unknown check kind"
    ensure (not (is_empty inputs)) "Run inputs cannot be empty"
    s ← state_from p tx.events
    run ← start_run s run_id kind inputs tool corner now
    (_, tx') ← append c "run.started" (run_started run) actor now tx
    ok (run, tx')

  unfoldable pub receipt :
      Transaction c → String → String → String → String → String → Result (Receipt × Transaction c)
  unfolding known
  receipt tx release_id uploaded_sha256 reference actor now = do
    ensure (not (str_eq (p.strip reference) "")) "Foundry receipt/reference required"
    s ← state_from p tx.events
    release ← known (lookup release_id s.releases) "Unknown sealed release"
    ensure (str_eq uploaded_sha256 release.archive_sha256)
        "Foundry-upload checksum does not match sealed archive"
    let recorded : Receipt = record {
      release_id = release_id;
      archive_sha256 = uploaded_sha256;
      reference = reference;
      recorded_at = now;
    }
    (_, tx') ← append c "receipt.recorded" (receipt_recorded recorded) actor now tx
    ok (recorded, tx')

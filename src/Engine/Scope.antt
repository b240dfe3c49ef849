-- ===== src/Engine/Scope.antt =====
-- `scope_view` and `object_refs` of engine.py: what a candidate is now, and the objects it needs.
use open_tapeout.Prelude.{
  String, Bool, true, false, Option, none, some, List, [], ◌∷◌, ◌++◌, Dict, lookup, insert, has,
  values, contains, ltb, str_le, if◌then◌else◌,
}
use open_tapeout.Result.{Result, ok, err, tapeout, type_error, ◌>>=◌}
use open_tapeout.Json.{Json, str, arr, obj, get, get?, elements}
use open_tapeout.Records.{
  Resource, Run, Envelope, Delivery, Candidate, Requirement, Policy, Trust, Platform,
}
use open_tapeout.Policy.Checks.{run_key, requirement_key, is_directory_tree}
use open_tapeout.Engine.State.{State}

-- `if scope not in latest_by_check or run["sequence"] > latest_by_check[scope]["sequence"]`
abbrev pub is_newer : Run → Option Run → Bool
is_newer run none = true
is_newer run (some old) = ltb old.sequence run.sequence

unfoldable pub note_run : Run → Dict Run → Dict Run
note_run run latest =
    if is_newer run (lookup (run_key run) latest) then insert (run_key run) run latest else latest

unfoldable pub latest_by_check : List Run → Dict Run → Dict Run
unfolding note_run
latest_by_check [] latest = latest
latest_by_check (run ∷ runs) latest = latest_by_check runs (note_run run latest)

-- The runs of the view: the latest of each required check.
unfoldable pub required_runs : Dict Run → List Requirement → Dict Run → Dict Run
required_runs latest [] runs = runs
required_runs latest (check ∷ checks) runs =
    let found = lookup (requirement_key check) latest in
    required_runs latest checks (elim found [ none ↦ runs | some run ↦ insert run.id run runs ])

-- `envelope["payload"]["run_id"] in runs`
unfoldable pub names_run : Dict Run → Json → Result Bool
names_run runs (str id) = ok (has id runs)
names_run runs (arr _) = err type_error
names_run runs (obj _) = err type_error
names_run runs _ = ok false

-- The waivers that are not revoked and name a run of the view.
unfoldable pub live_waivers : State → Dict Run → Dict Envelope → Result (List Envelope)
unfolding names_run
live_waivers s runs [] = ok []
live_waivers s runs ((key, envelope) ∷ rest) = elim (contains key s.revoked_waivers) [
  | true ↦ live_waivers s runs rest
  | false ↦ do
    run_id ← get "run_id" envelope.payload
    named ← names_run runs run_id
    others ← live_waivers s runs rest
    ok (if named then envelope ∷ others else others)
]

-- `sorted(waivers, key=digest)`
unfoldable pub insert_waiver : Platform → Envelope → List Envelope → List Envelope
insert_waiver p w [] = w ∷ []
insert_waiver p w (x ∷ xs) =
    if str_le (p.digest_envelope w) (p.digest_envelope x)
    then w ∷ x ∷ xs
    else x ∷ insert_waiver p w xs

unfoldable pub by_digest : Platform → List Envelope → List Envelope
unfolding insert_waiver
by_digest p [] = []
by_digest p (w ∷ ws) = insert_waiver p w (by_digest p ws)

unfoldable pub current_deliveries : State → List Delivery → Result (List Delivery)
current_deliveries s [] = ok []
current_deliveries s (delivery ∷ rest) = elim (lookup delivery.resource_id s.resources) [
  | none ↦ err (tapeout "Delivery resource missing")
  | some resource ↦ do
    others ← current_deliveries s rest
    ok (record delivery { sha256 = resource.sha256; size = resource.size } ∷ others)
]

unfoldable pub scope_view : Platform → State → Candidate → Policy → Trust → Result Candidate
unfolding latest_by_check required_runs live_waivers by_digest current_deliveries
scope_view p s candidate policy trust = do
  let runs = required_runs (latest_by_check (values s.runs) []) policy.required_checks []
  waivers ← live_waivers s runs s.waivers
  deliveries ← current_deliveries s candidate.deliveries
  ok (record candidate {
    resources = s.resources;
    runs = runs;
    waivers = by_digest p waivers;
    deliveries = deliveries;
    policy_sha256 = p.digest_policy policy;
    trust_sha256 = trust.sha256;
  })

-- `{f["sha256"] for f in metadata["files"]}`
unfoldable pub file_digests : List Json → Result (List String)
file_digests [] = ok []
file_digests (obj f ∷ rest) = do
  v ← get "sha256" f
  others ← file_digests rest
  elim v [ str s ↦ ok (s ∷ others) | _ ↦ err type_error ]
file_digests (_ ∷ rest) = err type_error

unfoldable pub tree_refs : Resource → Result (List String)
unfolding file_digests
tree_refs r =
    if is_directory_tree r
    then (do
      files ← get "files" r.metadata
      elim files [ arr items ↦ file_digests (elements items) | _ ↦ err type_error ])
    else ok []

unfoldable pub resource_refs : List Resource → Result (List String)
unfolding tree_refs
resource_refs [] = ok []
resource_refs (r ∷ rest) = do
  files ← tree_refs r
  others ← resource_refs rest
  ok (r.sha256 ∷ files ++ others)

abbrev pub present : Option String → List String
present none = []
present (some s) = s ∷ []

-- `report_sha256`, `stdout_sha256` and `stderr_sha256` of a run, where there is one
unfoldable pub run_refs : Run → List String
run_refs run = elim run.completion [
  | none ↦ []
  | some c ↦ present c.report_sha256 ++ present c.stdout_sha256 ++ present c.stderr_sha256
]

unfoldable pub runs_refs : List Run → List String
unfolding run_refs
runs_refs [] = []
runs_refs (r ∷ rest) = run_refs r ++ runs_refs rest

-- `waiver["payload"].get("attachments", [])`, which `waive` writes as a list of texts
unfoldable pub text_elements : List Json → Result (List String)
text_elements [] = ok []
text_elements (str s ∷ rest) = do others ← text_elements rest; ok (s ∷ others)
text_elements (_ ∷ rest) = err type_error

unfoldable pub attachment_refs : List Envelope → Result (List String)
unfolding text_elements
attachment_refs [] = ok []
attachment_refs (w ∷ rest) = do
  own ← elim (get? "attachments" w.payload) [
    | none ↦ ok []
    | some (arr items) ↦ text_elements (elements items)
    | some _ ↦ err type_error
  ]
  others ← attachment_refs rest
  ok (own ++ others)

-- The set is a list that may name an object twice.
unfoldable pub object_refs : Candidate → Result (List String)
unfolding resource_refs runs_refs attachment_refs
object_refs candidate = do
  resources ← resource_refs (values candidate.resources)
  attachments ← attachment_refs candidate.waivers
  ok (resources ++ runs_refs (values candidate.runs) ++ attachments)

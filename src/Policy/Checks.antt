-- ===== src/Policy/Checks.antt =====
-- The loop of `evaluate` over the required checks (policy.py): what blocks one of them.
use Prim.Native.String as Text
use open_tapeout.Prelude.{
  ℕ, ◌+◌, String, Bool, true, false, ◌&&◌, ◌||◌, not, Option, none, some, List, [], ◌∷◌, ◌++◌,
  if◌then◌else◌, ◌==◌, length, is_empty, str_eq, Dict, lookup, keys, values, has, contains, any,
  find, keep, ltb, all, pos, eqb_ℤ,
}
use open_tapeout.Result.{Result, ok, ◌>>=◌}
use open_tapeout.Json.{str, num, Number, get?, field_is, number_lt, fields_eq}
use open_tapeout.Util.{is_hex, finite_number}
use open_tapeout.Records.{
  Resource, Violation, Outcome, Completion, Run, Candidate, Limits, Requirement, Policy, Platform,
}
use open_tapeout.Signing.{timestamp}
use open_tapeout.Graph.{Graph, closure}
use open_tapeout.Policy.Waivers.{ValidWaiver}

pub record Blocker : Type 0 where
  pub code : String
  pub scope : String
  pub message : String

-- `if t: block(code, message, scope)`
unfoldable pub block_if : Bool → String → String → String → List Blocker
block_if t code message scope =
    if t then record { code = code; scope = scope; message = message } ∷ [] else []

-- Blockers added one group after the other
unfoldable pub concat : List (List Blocker) → List Blocker
concat [] = []
concat (x ∷ xs) = x ++ concat xs

-- `for x in xs: ...`, each round adding its blockers
unfoldable pub block_each {ℓ} : {A : Type ℓ} → (A → List Blocker) → List A → List Blocker
block_each f [] = []
block_each f (x ∷ xs) = f x ++ block_each f xs

-- `f"{check['kind']}:{check['corner']}"`
abbrev pub check_key : String → String → String
check_key kind corner = Text.◌++◌ kind (Text.◌++◌ ":" corner)

abbrev pub run_key : Run → String
run_key run = check_key run.kind run.corner

abbrev pub requirement_key : Requirement → String
requirement_key check = check_key check.kind check.corner

-- `next((r for r in candidate["runs"].values() if check_key(r) == scope), None)`
unfoldable pub run_for : Candidate → String → Option Run
run_for candidate scope = find (λ r. str_eq (run_key r) scope) (values candidate.runs)

abbrev pub option_is : Option String → String → Bool
option_is none s = false
option_is (some t) s = str_eq t s

-- `a == b` for dictionaries of texts, whose keys are distinct
unfoldable pub same_dict : Dict String → Dict String → Bool
same_dict a b = length a == length b && all (λ e. option_is (lookup e.0 b) e.1) a

-- `set(a) ^ set(b)`
unfoldable pub symmetric_difference : Dict String → Dict String → List String
symmetric_difference a b = keep (λ k. not (has k b)) (keys a) ++ keep (λ k. not (has k a)) (keys b)

unfoldable pub stale_inputs : Graph → Run → Result (List String)
unfolding same_dict symmetric_difference
stale_inputs g run = do
  let moved = keys (keep (λ e. not (option_is (lookup e.0 g.fingerprints) e.1)) run.snapshot)
  current ← closure g run.roots
  ok (
      if same_dict current run.snapshot
      then moved
      else moved ++ symmetric_difference current run.snapshot)

abbrev pub is_policy_v2 : Policy → Bool
is_policy_v2 policy = str_eq policy.schema "opentapeout.policy/v2"

abbrev pub is_directory_tree : Resource → Bool
is_directory_tree r = field_is "capture" "directory-tree" r.metadata

-- What blocks a pinned input whose resource is `found`.
unfoldable pub pin_blockers :
    Platform → Run → String → String → String → Option Resource → List Blocker
pin_blockers p run scope resource_id expected none =
    block_if true "EXACT_INPUT_MISSING" "Run does not bind required resource" scope
pin_blockers p run scope resource_id expected (some resource) =
    (if has resource_id run.snapshot
      then block_if (not (str_eq resource.sha256 expected)) "INPUT_PIN_MISMATCH"
          "Resource does not match policy checksum" scope
      else block_if true "EXACT_INPUT_MISSING" "Run does not bind required resource" scope)
    ++ block_if
        ((str_eq resource_id run.tool || str_eq resource_id run.corner)
          && (elim resource.path [ none ↦ false | some _ ↦ true ]
              || not (str_eq resource.sha256 (p.digest_metadata resource.metadata))))
        "DEFINITION_PIN_INVALID" "Tool/corner pins must bind canonical metadata-only definitions"
        scope

-- `continue` for an allowed tool that the run did not use
unfoldable pub input_pin_blockers :
    Platform → Graph → Requirement → Run → String → String × String → List Blocker
input_pin_blockers p g check run scope (resource_id, expected) =
    if contains resource_id check.allowed_tools && not (str_eq resource_id run.tool)
    then []
    else pin_blockers p run scope resource_id expected (lookup resource_id g.resources)

-- `run["tool_spec"] != graph.resources.get(run["tool"], {}).get("metadata")`
abbrev pub is_tool_spec : Graph → Run → Bool
is_tool_spec g run = elim (lookup run.tool g.resources) [
  | none ↦ false
  | some r ↦ fields_eq run.tool_spec r.metadata
]

-- The test of `require_pinned_executable`: a managed run of matching, unchanged bytes.
unfoldable pub has_pinned_executable : Run → Bool
has_pinned_executable run = elim run.completion [
  | none ↦ false
  | some c ↦ elim c.execution_identity [
    | none ↦ false
    | some identity ↦ elim (get? "executable_sha256" run.tool_spec) [
      | some (str pin) ↦
          is_hex pin
          && str_eq identity.sha256 pin
          && identity.unchanged
          && str_eq c.capture_mode "managed"
      | _ ↦ false
    ]
  ]
]

abbrev pub format_not_allowed : Requirement → Run → Bool
format_not_allowed check run = elim run.completion [
  | none ↦ false
  | some c ↦ not (contains c.format check.report_formats)
]

unfoldable pub exact_input_blockers : Platform → Graph → Requirement → Run → String → List Blocker
exact_input_blockers p g check run scope = concat (
    block_each (input_pin_blockers p g check run scope) check.input_pins
    ∷ block_if (not (is_tool_spec g run)) "TOOL_SPEC_MISMATCH"
        "Captured tool options differ from the pinned tool definition" scope
    ∷ block_if (not (contains run.tool check.allowed_tools)) "TOOL_NOT_ALLOWED"
        "Run used a tool outside the policy allowlist" scope
    ∷ block_if (format_not_allowed check run) "REPORT_FORMAT_NOT_ALLOWED"
        "Report adapter is not permitted for this check" scope
    ∷ block_if (check.require_pinned_executable && not (has_pinned_executable run))
        "EXECUTABLE_IDENTITY" "Requires a managed run with matching, unchanged executable bytes"
        scope
    ∷ [])

-- `{graph.resources[key]["kind"] for key in run["snapshot"] if key in graph.resources}`
unfoldable pub bound_kinds : Graph → List String → List String
bound_kinds g [] = []
bound_kinds g (k ∷ ks) = elim (lookup k g.resources) [
  | none ↦ bound_kinds g ks
  | some r ↦ r.kind ∷ bound_kinds g ks
]

abbrev pub is_metadata_pdk : Resource → Bool
is_metadata_pdk r =
    str_eq r.kind "pdk" && elim r.path [ none ↦ true | some _ ↦ false ] && not (is_directory_tree r)

unfoldable pub pdk_blockers : Graph → String → String → List Blocker
pdk_blockers g scope key = elim (lookup key g.resources) [
  | none ↦ []
  | some r ↦
      block_if (is_metadata_pdk r) "PDK_CHECKSUM_MISSING"
        "Run uses metadata-only PDK; hash a pinned manifest/archive" scope
]

-- `value < bounds["min"]` or `value > bounds["max"]`
abbrev pub out_of_bounds : Limits → Number → Bool
out_of_bounds bounds value =
    elim bounds.min [ none ↦ false | some low ↦ number_lt value low ]
    || elim bounds.max [ none ↦ false | some high ↦ number_lt high value ]

unfoldable pub metric_blockers : Outcome → String → String × Limits → List Blocker
metric_blockers result scope (name, bounds) = elim (lookup name result.metrics) [
  | none ↦ block_if true "METRIC_MISSING" "Required metric missing" scope
  | some value ↦
      if finite_number (num value)
      then block_if (out_of_bounds bounds value) "METRIC_THRESHOLD" "violates" scope
      else block_if true "METRIC_MISSING" "Required metric missing" scope
]

abbrev pub is_waived : List ValidWaiver → Run → Violation → Bool
is_waived waivers run v =
    any (λ w. str_eq w.run_id run.id && str_eq w.fingerprint v.fingerprint) waivers

-- What blocks a run that completed at `completed`, with the gate evaluated at `now`.
unfoldable pub outcome_blockers :
    Platform
    → Policy
    → List ValidWaiver
    → Requirement
    → Run
    → String
    → Completion
    → ℕ
    → ℕ
    → List Blocker
outcome_blockers p policy waivers check run scope c now completed = concat (
    block_if (ltb now completed || ltb (completed + p.hours check.max_age_hours) now) "RESULT_AGE"
      "Evidence is too old or future-dated" scope
    ∷ block_if (not (is_empty c.input_drift)) "INPUT_CHANGED_DURING_RUN"
        "Inputs changed during execution" scope
    ∷ block_if (not (eqb_ℤ c.exit_code (pos 0))) "TOOL_FAILED" "Process exit code; cannot be waived"
        scope
    ∷ block_if (policy.require_managed_runs && not (str_eq c.capture_mode "managed"))
        "UNMANAGED_RUN" "Policy requires execution through the managed runner" scope
    ∷ block_if (not c.result.complete || str_eq c.result.status "unknown") "RESULT_UNKNOWN"
        "Incomplete/unknown result cannot establish success" scope
    ∷ block_if (str_eq c.result.status "fail" && is_empty c.result.violations) "RESULT_FAILED"
        "Failure without individually waiverable violations" scope
    ∷ block_each
        (λ v. block_if (not (is_waived waivers run v)) "UNWAIVED_VIOLATION" v.message scope)
        c.result.violations
    ∷ block_each (metric_blockers c.result scope) check.metrics
    ∷ [])

-- The branch of a run that has completed.
unfoldable pub completion_blockers :
    Platform
    → Policy
    → List ValidWaiver
    → String
    → Requirement
    → Run
    → String
    → Completion
    → Result (List Blocker)
completion_blockers p policy waivers at check run scope c = do
  now ← timestamp p (str at)
  completed ← timestamp p (str c.completed_at)
  ok (outcome_blockers p policy waivers check run scope c now completed)

unfoldable pub age_blockers :
    Platform
    → Policy
    → List ValidWaiver
    → String
    → Requirement
    → Run
    → String
    → Result (List Blocker)
age_blockers p policy waivers at check run scope = elim run.completion [
  | none ↦ ok (block_if true "RUN_INCOMPLETE" "Latest run has not completed" scope)
  | some c ↦ completion_blockers p policy waivers at check run scope c
]

-- What blocks the inputs of a run, whose stale inputs are `stale`.
unfoldable pub input_blockers :
    Platform → Graph → Policy → Requirement → Run → String → List String → List Blocker
input_blockers p g policy check run scope stale = concat (
    block_if (not (is_empty stale)) "RESULT_STALE" "Input/dependency changed" scope
    ∷ (if is_policy_v2 policy then exact_input_blockers p g check run scope else [])
    ∷ block_each
        (λ kind.
          block_if (not (contains kind (bound_kinds g (keys run.snapshot)))) "INPUT_KIND_MISSING"
            "Run does not bind required input kind" scope)
        check.required_resource_kinds
    ∷ (if policy.require_hashed_pdk
        then block_each (pdk_blockers g scope) (keys run.snapshot)
        else [])
    ∷ [])

-- What the loop's body adds for a requirement that has a run.
unfoldable pub run_blockers :
    Platform
    → Graph
    → Policy
    → List ValidWaiver
    → String
    → Requirement
    → Run
    → List String
    → Result (List Blocker)
run_blockers p g policy waivers at check run stale = do
  let scope = requirement_key check
  outcome ← age_blockers p policy waivers at check run scope
  ok (input_blockers p g policy check run scope stale ++ outcome)

-- A row of `checks`.
pub record CheckRow : Type 0 where
  pub check : String
  pub status : String
  pub run_id : Option String
  pub violations : ℕ

abbrev pub violation_count : Run → ℕ
violation_count run = elim run.completion [ none ↦ 0 | some c ↦ length c.result.violations ]

unfoldable pub evaluate_check :
    Platform
    → Graph
    → Policy
    → Candidate
    → List ValidWaiver
    → String
    → Requirement
    → Result (List Blocker × CheckRow)
evaluate_check p g policy candidate waivers at check =
    elim (run_for candidate (requirement_key check)) [
      | none ↦ ok (
        block_if true "CHECK_MISSING" "No run for required check/corner" (requirement_key check),
        record { check = requirement_key check; status = "missing"; run_id = none; violations = 0 },
      )
      | some run ↦ do
        stale ← stale_inputs g run
        blockers ← run_blockers p g policy waivers at check run stale
        ok (
          blockers,
          record {
            check = requirement_key check;
            status =
                if is_empty blockers then "pass" else if is_empty stale then "blocked" else "stale";
            run_id = some run.id;
            violations = violation_count run;
          },
        )
    ]

unfoldable pub evaluate_checks :
    Platform
    → Graph
    → Policy
    → Candidate
    → List ValidWaiver
    → String
    → List Requirement
    → Result (List Blocker × List CheckRow)
evaluate_checks p g policy candidate waivers at [] = ok ([], [])
evaluate_checks p g policy candidate waivers at (check ∷ rest) = do
  (blockers, row) ← evaluate_check p g policy candidate waivers at check
  (more, rows) ← evaluate_checks p g policy candidate waivers at rest
  ok (blockers ++ more, row ∷ rows)

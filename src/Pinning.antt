-- ===== src/Pinning.antt =====
-- src/opentapeout/pinning.py: a policy v2 whose pins are the inputs of completed, managed runs.
pub mod Evidence
pub mod Backed
use open_tapeout.Prelude.{
  ℕ, String, Bool, true, false, ◌&&◌, not, Option, none, some, List, [], ◌∷◌, Dict, lookup, keys,
  values, is_empty, str_eq, if◌then◌else◌,
}
use open_tapeout.Result.{Result, ok, err, tapeout, key_error, ensure, known, ◌>>=◌, ◌>>◌}
use open_tapeout.Json.{
  Json, bool, num, str, arr, obj, Items, nil, cons, Fields, end, field, get?, fields_eq, Number,
}
use open_tapeout.Util.{is_hex}
use open_tapeout.Records.{
  Resource, Completion, ExecutionIdentity, Run, Limits, Requirement, Policy, Platform,
}
use open_tapeout.Graph.{Graph, build, closure}
use open_tapeout.Graph.Drift.{Workspace, assert_fresh}
use open_tapeout.Policy.Checks.{requirement_key, same_dict}
use open_tapeout.Policy.Schema.{validate_policy}
use open_tapeout.Engine.State.{State}
use open_tapeout.Engine.Scope.{latest_by_check}
use open_tapeout.Engine.Register.{resource_at}

-- The dictionary of a policy, as `validate_policy` reads it.
unfoldable pub name_list : List String → Items
name_list [] = nil
name_list (s ∷ rest) = cons (str s) (name_list rest)

unfoldable pub pin_fields : Dict String → Fields
pin_fields [] = end
pin_fields ((k, v) ∷ rest) = field k (str v) (pin_fields rest)

abbrev pub bound_field : String → Option Number → Fields → Fields
bound_field key none rest = rest
bound_field key (some n) rest = field key (num n) rest

unfoldable pub metric_fields : Dict Limits → Fields
metric_fields [] = end
metric_fields ((name, l) ∷ rest) =
    field name (obj (bound_field "max" l.max (bound_field "min" l.min end))) (metric_fields rest)

unfoldable pub requirement_fields : Requirement → Fields
unfolding name_list pin_fields metric_fields
requirement_fields r = field "allowed_tools" (arr (name_list r.allowed_tools)) (
    field "corner" (str r.corner) (
      field "input_pins" (obj (pin_fields r.input_pins)) (
        field "kind" (str r.kind) (
          field "max_age_hours" (num r.max_age_hours) (
            field "metrics" (obj (metric_fields r.metrics)) (
              field "report_formats" (arr (name_list r.report_formats)) (
                field "require_pinned_executable" (bool r.require_pinned_executable) (
                  field "required_resource_kinds" (arr (name_list r.required_resource_kinds))
                    end))))))))

unfoldable pub requirement_list : List Requirement → Items
unfolding requirement_fields
requirement_list [] = nil
requirement_list (r ∷ rest) = cons (obj (requirement_fields r)) (requirement_list rest)

unfoldable pub policy_object : Policy → Fields
unfolding requirement_list name_list
policy_object policy = field "approval_roles" (arr (name_list policy.approval_roles)) (
    field "distinct_approvers" (bool policy.distinct_approvers) (
      field "forbid_self_approval" (bool policy.forbid_self_approval) (
        field "max_approval_age_hours" (num policy.max_approval_age_hours) (
          field "require_delivery" (bool policy.require_delivery) (
            field "require_git" (bool policy.require_git) (
              field "require_hashed_pdk" (bool policy.require_hashed_pdk) (
                field "require_managed_runs" (bool policy.require_managed_runs) (
                  field "required_checks" (arr (requirement_list policy.required_checks))
                    (field "schema" (str policy.schema) end)))))))))

-- `resource["path"] is None and resource["sha256"] == digest(resource["metadata"])`
abbrev pub is_metadata_only : Platform → Resource → Bool
is_metadata_only p r =
    elim r.path [ none ↦ true | some _ ↦ false ] && str_eq r.sha256 (p.digest_metadata r.metadata)

-- `identity.get("sha256") == pin and identity.get("unchanged") is True`
abbrev pub is_identified : Option ExecutionIdentity → String → Bool
is_identified none pin = false
is_identified (some identity) pin = str_eq identity.sha256 pin && identity.unchanged

unfoldable pub executable_pin : Fields → Result String
executable_pin spec = elim (get? "executable_sha256" spec) [
  | some (str pin) ↦ do
    ensure (is_hex pin) "Register an executable SHA-256 pin before execution"
    ok pin
  | _ ↦ err (tapeout "Register an executable SHA-256 pin before execution")
]

-- `{key: graph.resources[key]["sha256"] for key in sorted(current)}`; a closure is sorted
unfoldable pub digests_at : Dict Resource → List String → Result (Dict String)
unfolding resource_at
digests_at resources [] = ok []
digests_at resources (key ∷ rest) = do
  r ← resource_at resources key
  others ← digests_at resources rest
  ok ((key, r.sha256) ∷ others)

module _ (p : Platform) (w : Workspace) where
  -- `ensure(run.get(name) is not None); engine.store.verify_object(run[name])`
  unfoldable pub captured : Option String → Result (Unit {0})
  captured none = err (tapeout "Managed evidence is missing captured bytes")
  captured (some checksum) = elim (w.object_error checksum) [
    | none ↦ ok tt
    | some reason ↦ err (tapeout reason)
  ]

  -- The completion of a run, if it is managed and of the inputs of now.
  unfoldable pub fresh_evidence : Graph → Run → Result (Completion × Dict String)
  unfolding known
  fresh_evidence g run = do
    c ← known run.completion "Pinning requires a completed latest run for every required check"
    ensure (str_eq c.capture_mode "managed") "Pinning requires managed evidence"
    current ← closure g run.roots
    assert_fresh w g (keys current)
    ensure (same_dict current run.snapshot && is_empty c.input_drift) "Cannot pin stale evidence"
    ok (c, current)

  -- Tool and corner are metadata, and the tool that ran is the registered one.
  unfoldable pub known_tool : Graph → Run → Result String
  unfolding resource_at executable_pin
  known_tool g run = do
    tool ← resource_at g.resources run.tool
    ensure (is_metadata_only p tool)
        "Pinning requires metadata-only tool/corner definitions; capture executable bytes separately"
    corner ← resource_at g.resources run.corner
    ensure (is_metadata_only p corner)
        "Pinning requires metadata-only tool/corner definitions; capture executable bytes separately"
    ensure (fields_eq run.tool_spec tool.metadata) "Captured tool specification mismatch"
    executable_pin run.tool_spec

  unfoldable pub pin_requirement : Graph → Dict Run → Requirement → Result Requirement
  unfolding fresh_evidence known_tool captured digests_at known
  pin_requirement g latest r = do
    run ←
        known (lookup (requirement_key r) latest)
          "Pinning requires a completed latest run for every required check"
    (c, current) ← fresh_evidence g run
    pin ← known_tool g run
    ensure (is_identified c.execution_identity pin) "Executable identity was not established"
    captured c.report_sha256
    captured c.stdout_sha256
    captured c.stderr_sha256
    pins ← digests_at g.resources (keys current)
    ok (record r {
      input_pins = pins;
      allowed_tools = run.tool ∷ [];
      report_formats = c.format ∷ [];
      require_pinned_executable = true;
    })

  unfoldable pub pin_requirements : Graph → Dict Run → List Requirement → Result (List Requirement)
  unfolding pin_requirement
  pin_requirements g latest [] = ok []
  pin_requirements g latest (r ∷ rest) = do
    r' ← pin_requirement g latest r
    others ← pin_requirements g latest rest
    ok (r' ∷ others)

  -- `pin_policy`; `given` is the policy that has passed `validate_policy`.
  unfoldable pub pin_policy : State → Policy → Result Policy
  unfolding pin_requirements policy_object latest_by_check
  pin_policy s given = do
    g ← build p s.resources
    pinned ← pin_requirements g (latest_by_check (values s.runs) []) given.required_checks
    let result : Policy = record given {
      schema = "opentapeout.policy/v2";
      required_checks = pinned;
    }
    _ ← validate_policy (obj (policy_object result))
    ok result

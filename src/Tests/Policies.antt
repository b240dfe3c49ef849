-- ===== src/Tests/Policies.antt =====
-- A run that is finished once, a policy that is read, and one that is pinned.
use open_tapeout.Prelude.{
  ℕ, ℤ, String, Bool, true, false, Option, none, some, List, [], ◌∷◌, ◌++◌, ◌≡◌, refl, pos, All,
  values, Dict,
}
use open_tapeout.Result.{Result, ok, err, tapeout, key_error}
use open_tapeout.Json.{Json, Fields, str, obj, arr, bool, num, int, cons, nil, field, end}
use open_tapeout.Records.{Resource, Completion, Run, Policy, Platform}
use open_tapeout.Graph.{Graph, build}
use open_tapeout.Store.{Transaction}
use open_tapeout.Engine.State.{
  State, Payload, initial, project_created, run_started, run_completed, LedgerEvent,
}
use open_tapeout.Engine.Scope.{latest_by_check}
use open_tapeout.Parsers.Formats.{Reports}
use open_tapeout.Engine.Runs.{unknown_result, finish}
use open_tapeout.Engine.Runs.Once.{finish-again}
use open_tapeout.Policy.Schema.{validate_policy}
use open_tapeout.Policy.Schema.Valid.{IsValid}
use open_tapeout.Policy.Schema.Accepted.{validate_policy-IsValid}
use open_tapeout.Pinning.{pin_policy}
use open_tapeout.Pinning.Backed.{IsBacked, pin_policy-IsBacked}
use open_tapeout.Tests.Project.{platform, evening}
use open_tapeout.Tests.Engine.{workspace}
use open_tapeout.Tests.Team.{codec, happened}

abbrev reports : Reports
reports = record {
  size = λ checksum. 0;
  loads = λ checksum. err key_error;
  csv_records = λ checksum. none;
  adapter = λ name checksum run_id. err key_error;
}

abbrev open_run : Run
open_run = record {
  id = "run-9";
  kind = "DRC";
  corner = "typical";
  tool = "checker";
  roots = [];
  snapshot = [];
  started_at = evening;
  tool_spec = end;
  sequence = 0;
  completion = none;
}

abbrev begun : List LedgerEvent
begun =
    happened 1 "project.created" "zero"
      (project_created (record { id = "p1"; name = "chip"; schema = "s" }))
    ∷ happened 2 "run.started" "first" (run_started open_run)
    ∷ []

abbrev ledger : Transaction codec
ledger = record { rows = []; events = begun }

abbrev no_report : Completion
no_report = record {
  completed_at = evening;
  exit_code = pos 0;
  capture_mode = "imported";
  report_sha256 = none;
  format = "json";
  parser_error = some "No report produced";
  result = unknown_result;
  input_drift = [];
  stdout_sha256 = none;
  stderr_sha256 = none;
  execution_identity = none;
}

abbrev ending : LedgerEvent
ending =
    happened 3 "run.completed" (happened 2 "run.started" "first" (run_started open_run)).hash
      (run_completed "run-9" no_report)

abbrev ledger_after : Transaction codec
ledger_after = record {
  rows = record { seq = 3; text = ending.body; hash = ending.hash } ∷ [];
  events = begun ++ ending ∷ [];
}

finish-run-9 :
    finish platform workspace reports codec ledger "run-9" none
      (pos 0)
      "json"
      "dora"
      false
      none
      none
      evening
    ≡ ok (no_report, ledger_after)
unfolding open_tapeout.Engine.Runs.finish open_tapeout.Tests.Ledger.string_discrete
    open_tapeout.Tests.Ledger.same_text mathlib.Core.Bool.decide
    open_tapeout.Engine.State.state_from open_tapeout.Result.known open_tapeout.Prelude.lookup
    open_tapeout.Prelude.insert build open_tapeout.Prelude.sorted open_tapeout.Graph.closure
    open_tapeout.Graph.Drift.drift open_tapeout.Store.append open_tapeout.Prelude.to_set
finish-run-9 = refl

finish-again_example :
    finish platform workspace reports codec ledger_after "run-9" none
      (pos 7)
      "csv"
      "bob"
      true
      none
      none
      evening
    ≡ err (tapeout "Run is already completed; start a new run")
finish-again_example =
    finish-again platform workspace reports codec ledger ledger_after "run-9" none none (pos 0)
      (pos 7) "json" "csv" "dora" "bob" false true none none none none evening evening no_report
      finish-run-9 refl

abbrev strict_policy : Policy
strict_policy = record {
  schema = "opentapeout.policy/v1";
  required_checks =
      record {
        kind = "DRC";
        corner = "typical";
        required_resource_kinds = "tool" ∷ [];
        max_age_hours = int (pos 168);
        metrics = ("area", record { min = some (int (pos 1)); max = some (int (pos 9)) }) ∷ [];
        input_pins = [];
        allowed_tools = [];
        report_formats = [];
        require_pinned_executable = false;
      }
      ∷ [];
  approval_roles = "physical" ∷ "verification" ∷ [];
  distinct_approvers = true;
  forbid_self_approval = true;
  max_approval_age_hours = int (pos 168);
  require_managed_runs = true;
  require_delivery = true;
  require_git = true;
  require_hashed_pdk = true;
}

abbrev limits_field : Json
limits_field = obj (field "min" (num (int (pos 1))) (field "max" (num (int (pos 9))) end))

abbrev check_field : Json
check_field = obj (
    field "kind" (str "DRC") (
      field "corner" (str "typical") (
        field "required_resource_kinds" (arr (cons (str "tool") nil)) (
          field "max_age_hours" (num (int (pos 168)))
            (field "metrics" (obj (field "area" limits_field end)) end)))))

abbrev policy_file : Json
policy_file = obj (
    field "schema" (str "opentapeout.policy/v1") (
      field "required_checks" (arr (cons check_field nil)) (
        field "approval_roles" (arr (cons (str "physical") (cons (str "verification") nil))) (
          field "distinct_approvers" (bool true) (
            field "forbid_self_approval" (bool true) (
              field "max_approval_age_hours" (num (int (pos 168))) (
                field "require_managed_runs" (bool true) (
                  field "require_delivery" (bool true) (
                    field "require_git" (bool true)
                      (field "require_hashed_pdk" (bool true) end))))))))))

validate_policy-file : validate_policy policy_file ≡ ok strict_policy
unfolding open_tapeout.Policy.Schema.validate_policy open_tapeout.Json.get?
    open_tapeout.Prelude.contains open_tapeout.Json.field_names open_tapeout.Json.get
    open_tapeout.Util.identifier open_tapeout.Util.finite_number open_tapeout.Json.number_lt
validate_policy-file = refl

validate_policy-IsValid_example : IsValid strict_policy
validate_policy-IsValid_example =
    validate_policy-IsValid policy_file strict_policy validate_policy-file

abbrev hex : String
hex = "eeeeeeeeeeeeeeeeeeeeeeeeeeeeeeeeeeeeeeeeeeeeeeeeeeeeeeeeeeeeeeee"

abbrev hashing : Platform
hashing = record platform { digest_metadata = λ m. hex }

abbrev plain : String → Fields → Resource
plain kind metadata = record {
  kind = kind;
  sha256 = hex;
  size = 4;
  path = none;
  metadata = metadata;
  depends_on = [];
  built_from = [];
}

abbrev tool_metadata : Fields
tool_metadata = field "executable_sha256" (str hex) end

abbrev pinned_run : Run
pinned_run = record {
  id = "run-1";
  kind = "DRC";
  corner = "typical";
  tool = "checker";
  roots = "checker" ∷ "typical" ∷ [];
  snapshot = ("checker", hex) ∷ ("typical", hex) ∷ [];
  started_at = evening;
  tool_spec = tool_metadata;
  sequence = 4;
  completion = some (record no_report {
    capture_mode = "managed";
    format = "csv";
    report_sha256 = some hex;
    stdout_sha256 = some hex;
    stderr_sha256 = some hex;
    execution_identity =
        some (record { path = "/bin/checker"; sha256 = hex; size = 9; unchanged = true });
  });
}

abbrev state : State
state = record initial {
  resources = ("checker", plain "tool" tool_metadata) ∷ ("typical", plain "corner" end) ∷ [];
  runs = ("run-1", pinned_run) ∷ [];
}

abbrev locked : Policy
locked = record strict_policy {
  schema = "opentapeout.policy/v2";
  required_checks =
      record {
        kind = "DRC";
        corner = "typical";
        required_resource_kinds = "tool" ∷ [];
        max_age_hours = int (pos 168);
        metrics = ("area", record { min = some (int (pos 1)); max = some (int (pos 9)) }) ∷ [];
        input_pins = ("checker", hex) ∷ ("typical", hex) ∷ [];
        allowed_tools = "checker" ∷ [];
        report_formats = "csv" ∷ [];
        require_pinned_executable = true;
      }
      ∷ [];
}

pin_policy-locked : pin_policy hashing workspace state strict_policy ≡ ok locked
unfolding open_tapeout.Pinning.pin_policy open_tapeout.Policy.Schema.metrics_of
    open_tapeout.Policy.Schema.flag open_tapeout.Policy.Schema.validate_policy
    open_tapeout.Policy.Checks.same_dict open_tapeout.Graph.build open_tapeout.Graph.closure
    open_tapeout.Graph.Drift.drift_of open_tapeout.Graph.Drift.assert_fresh
    open_tapeout.Engine.Register.register open_tapeout.Json.get open_tapeout.Json.field_names
    open_tapeout.Json.elements open_tapeout.Json.number_lt open_tapeout.Json.field_is
    open_tapeout.Util.is_hex open_tapeout.Util.identifier open_tapeout.Util.finite_number
    open_tapeout.Prelude.insert open_tapeout.Prelude.lookup open_tapeout.Prelude.contains
    open_tapeout.Prelude.to_set open_tapeout.Prelude.sorted open_tapeout.Json.fields_eq
    open_tapeout.Json.json_eq open_tapeout.Json.items_eq
pin_policy-locked = refl

pin_policy-IsBacked_example :
    (g : Graph) × (build hashing state.resources ≡ ok g)
    × All
        (IsBacked hashing workspace g (latest_by_check (values state.runs) []))
        locked.required_checks
pin_policy-IsBacked_example =
    pin_policy-IsBacked hashing workspace state strict_policy locked pin_policy-locked

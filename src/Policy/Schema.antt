-- ===== src/Policy/Schema.antt =====
-- `validate_policy` of src/opentapeout/policy.py: the policy that a JSON value states.
pub mod Valid
pub mod Accepted
use open_tapeout.Prelude.{
  ℕ, String, Bool, true, false, ◌&&◌, ◌||◌, not, Option, none, some, List, [], ◌∷◌, Dict, keys,
  contains, all, is_empty, subset, same_set, str_eq, leb, length, pos, if◌then◌else◌, has,
}
use open_tapeout.Result.{Result, ok, err, tapeout, ensure, known, ◌>>=◌, ◌>>◌}
use open_tapeout.Json.{
  Json, bool, num, str, arr, obj, Number, int, number_lt, Items, nil, cons, Fields, end, field, get,
  get?, field_names,
}
use open_tapeout.Util.{identifier, is_hex, finite_number}
use open_tapeout.Records.{Limits, Requirement, Policy}
use open_tapeout.Graph.Kinds.{kinds}
use open_tapeout.Parsers.{checks, formats}
use open_tapeout.Policy.Checks.{check_key}

unfoldable pub strings : Items → Option (List String)
strings nil = some []
strings (cons (str s) rest) = elim (strings rest) [ none ↦ none | some others ↦ some (s ∷ others) ]
strings (cons _ rest) = none

-- `isinstance(v, list) and all(isinstance(x, str) for x in v)`
unfoldable pub string_list : String → Json → Result (List String)
unfolding strings known
string_list message (arr items) = known (strings items) message
string_list message _ = err (tapeout message)

-- `len(xs) == len(set(xs))`
unfoldable pub distinct : List String → Bool
distinct [] = true
distinct (x ∷ xs) = not (contains x xs) && distinct xs

unfoldable pub named : String → Json → Result String
named message (str s) = ok s
named message _ = err (tapeout message)

unfoldable pub boolean : String → Json → Result Bool
boolean message (bool b) = ok b
boolean message _ = err (tapeout message)

-- `finite_number(v) and 0 < v <= 876000`
abbrev pub is_age : Number → Bool
is_age n =
    finite_number (num n) && number_lt (int (pos 0)) n && not (number_lt (int (pos 876000)) n)

unfoldable pub age : String → Json → Result Number
age message (num n) = do ensure (is_age n) message; ok n
age message _ = err (tapeout message)

unfoldable pub pins_of : Fields → Result (Dict String)
pins_of end = ok []
pins_of (field resource_id (str checksum) rest) = do
  _ ← identifier resource_id
  ensure (is_hex checksum) "Invalid input pin digest"
  others ← pins_of rest
  ok ((resource_id, checksum) ∷ others)
pins_of (field resource_id _ rest) = err (tapeout "Invalid input pin digest")

-- Each tool is an identifier with a pin.
unfoldable pub check_tools : Dict String → List String → Result (Unit {0})
check_tools pins [] = ok tt
check_tools pins (tool ∷ rest) = do
  _ ← identifier tool
  ensure (has tool pins) "Every allowed tool must have an exact metadata pin"
  check_tools pins rest

-- What policy v2 adds to a required check.
pub record Strict : Type 0 where
  pub input_pins : Dict String
  pub allowed_tools : List String
  pub report_formats : List String
  pub require_pinned_executable : Bool

unfoldable pub strict_pins : Json → Result (Dict String)
unfolding pins_of
strict_pins (obj f) = do
  ensure (not (is_empty (field_names f))) "Exact input pins are required by policy v2"
  pins_of f
strict_pins _ = err (tapeout "Exact input pins are required by policy v2")

unfoldable pub strict_part : String → Fields → Result Strict
unfolding strict_pins string_list check_tools boolean distinct
strict_part corner check = do
  pinned ← get "input_pins" check
  pins ← strict_pins pinned
  tool_list ← get "allowed_tools" check
  format_list ← get "report_formats" check
  tools ← string_list "Allowed tools required" tool_list
  ensure (not (is_empty tools) && distinct tools) "Allowed tools required"
  check_tools pins tools
  ensure (has corner pins) "The corner definition must have an exact pin"
  names ← string_list "Invalid report format allowlist" format_list
  ensure (not (is_empty names) && subset names formats && distinct names)
      "Invalid report format allowlist"
  executable ← get "require_pinned_executable" check
  pinned_executable ← boolean "Executable pin requirement must be boolean" executable
  ok (record {
    input_pins = pins;
    allowed_tools = tools;
    report_formats = names;
    require_pinned_executable = pinned_executable;
  })

abbrev pub lenient : Strict
lenient = record {
  input_pins = [];
  allowed_tools = [];
  report_formats = [];
  require_pinned_executable = false;
}

-- A bound of a metric: a finite number, if there is one.
unfoldable pub limit : String → Fields → Result (Option Number)
limit key f = elim (get? key f) [
  | none ↦ ok none
  | some (num n) ↦ do ensure (finite_number (num n)) "Invalid metric threshold"; ok (some n)
  | some _ ↦ err (tapeout "Invalid metric threshold")
]

-- `not ("min" in limits and "max" in limits and limits["min"] > limits["max"])`
abbrev pub is_range : Limits → Bool
is_range l = elim l.min [
  | none ↦ true
  | some least ↦ elim l.max [ none ↦ true | some most ↦ not (number_lt most least) ]
]

unfoldable pub limits_of : Json → Result Limits
unfolding limit
limits_of (obj f) = do
  ensure (not (is_empty (field_names f)) && subset (field_names f) ("min" ∷ "max" ∷ []))
      "Invalid metric threshold"
  least ← limit "min" f
  most ← limit "max" f
  let l : Limits = record { min = least; max = most }
  ensure (is_range l) "Metric minimum exceeds maximum"
  ok l
limits_of _ = err (tapeout "Invalid metric threshold")

unfoldable pub thresholds : Fields → Result (Dict Limits)
unfolding limits_of
thresholds end = ok []
thresholds (field name limits rest) = do
  l ← limits_of limits
  others ← thresholds rest
  ok ((name, l) ∷ others)

unfoldable pub metrics_of : Json → Result (Dict Limits)
unfolding thresholds
metrics_of (obj f) = thresholds f
metrics_of _ = err (tapeout "Metric thresholds must be an object")

abbrev pub common_fields : List String
common_fields = "kind" ∷ "corner" ∷ "required_resource_kinds" ∷ "max_age_hours" ∷ "metrics" ∷ []

abbrev pub strict_fields : List String
strict_fields =
    "kind" ∷ "corner" ∷ "required_resource_kinds" ∷ "max_age_hours" ∷ "metrics" ∷ "input_pins"
    ∷ "allowed_tools" ∷ "report_formats" ∷ "require_pinned_executable" ∷ []

-- Kind and corner of a required check, with what v2 adds.
unfoldable pub scope_of : Bool → Fields → Result (String × String × Strict)
unfolding named strict_part
scope_of strict check = do
  ensure (same_set (field_names check) (if strict then strict_fields else common_fields))
      "Malformed check policy"
  corner_field ← get "corner" check
  corner ← named "Invalid identifier" corner_field
  _ ← identifier corner
  kind_field ← get "kind" check
  kind ← named "Unsupported check kind" kind_field
  ensure (contains kind checks) "Unsupported check kind"
  extra ← if strict then strict_part corner check else ok lenient
  ok (kind, corner, extra)

-- One of `required_checks`, behind the keys that are taken.
unfoldable pub requirement_of : Bool → List String → Fields → Result Requirement
unfolding scope_of string_list age metrics_of
requirement_of strict seen check = do
  (kind, corner, extra) ← scope_of strict check
  ensure (not (contains (check_key kind corner) seen)) "Duplicate kind/corner requirement"
  listed ← get "required_resource_kinds" check
  required ← string_list "Invalid required resource kinds" listed
  ensure (not (is_empty required) && subset required kinds) "Invalid required resource kinds"
  aged ← get "max_age_hours" check
  hours ← age "Check maximum age must be positive and at most 100 years" aged
  measured ← get "metrics" check
  metrics ← metrics_of measured
  ok (record {
    kind = kind;
    corner = corner;
    required_resource_kinds = required;
    max_age_hours = hours;
    metrics = metrics;
    input_pins = extra.input_pins;
    allowed_tools = extra.allowed_tools;
    report_formats = extra.report_formats;
    require_pinned_executable = extra.require_pinned_executable;
  })

unfoldable pub requirements : Bool → List String → Items → Result (List Requirement)
unfolding requirement_of
requirements strict seen nil = ok []
requirements strict seen (cons (obj check) rest) = do
  r ← requirement_of strict seen check
  others ← requirements strict (check_key r.kind r.corner ∷ seen) rest
  ok (r ∷ others)
requirements strict seen (cons _ rest) = err (tapeout "Malformed check policy")

unfoldable pub required_checks : Bool → Json → Result (List Requirement)
unfolding requirements
required_checks strict (arr (cons check rest)) = requirements strict [] (cons check rest)
required_checks strict _ = err (tapeout "At least one required check is mandatory")

abbrev pub policy_fields : List String
policy_fields =
    "schema" ∷ "required_checks" ∷ "approval_roles" ∷ "distinct_approvers" ∷ "forbid_self_approval"
    ∷ "max_approval_age_hours" ∷ "require_managed_runs" ∷ "require_delivery" ∷ "require_git"
    ∷ "require_hashed_pdk" ∷ []

-- `isinstance(roles, list)` with 1 to 64 names, each once
unfoldable pub roles_of : Json → Result (List String)
unfolding string_list distinct
roles_of v = do
  roles ← string_list "Approval roles must be nonempty and unique" v
  ensure
      (not (is_empty roles)
        && all (λ r. not (str_eq r "")) roles
        && distinct roles
        && leb (length roles) 64)
      "Approval roles must be nonempty and unique"
  ok roles

unfoldable pub flag : String → Fields → Result Bool
unfolding boolean
flag key f = do v ← get key f; boolean "must be a boolean" v

-- The switches of a policy.
pub record Switches : Type 0 where
  pub distinct_approvers : Bool
  pub forbid_self_approval : Bool
  pub require_managed_runs : Bool
  pub require_delivery : Bool
  pub require_git : Bool
  pub require_hashed_pdk : Bool

unfoldable pub switches_of : Fields → Result Switches
unfolding flag
switches_of f = do
  distinct_approvers ← flag "distinct_approvers" f
  forbid_self_approval ← flag "forbid_self_approval" f
  require_managed_runs ← flag "require_managed_runs" f
  require_delivery ← flag "require_delivery" f
  require_git ← flag "require_git" f
  require_hashed_pdk ← flag "require_hashed_pdk" f
  ok (record {
    distinct_approvers = distinct_approvers;
    forbid_self_approval = forbid_self_approval;
    require_managed_runs = require_managed_runs;
    require_delivery = require_delivery;
    require_git = require_git;
    require_hashed_pdk = require_hashed_pdk;
  })

-- `isinstance(v, str) and v in {...}` for the value under `schema`
unfoldable pub schema_of : Option Json → Result String
schema_of (some (str s)) = do
  ensure (contains s ("opentapeout.policy/v1" ∷ "opentapeout.policy/v2" ∷ []))
      "Invalid policy schema"
  ok s
schema_of _ = err (tapeout "Invalid policy schema")

unfoldable pub validate_policy : Json → Result Policy
unfolding schema_of required_checks roles_of switches_of age
validate_policy (obj f) = do
  schema ← schema_of (get? "schema" f)
  ensure (same_set (field_names f) policy_fields)
      "Policy has missing or unknown fields; do not silently ignore policy"
  listed ← get "required_checks" f
  checked ← required_checks (str_eq schema "opentapeout.policy/v2") listed
  named_roles ← get "approval_roles" f
  roles ← roles_of named_roles
  switches ← switches_of f
  aged ← get "max_approval_age_hours" f
  hours ← age "Approval maximum age must be positive and at most 100 years" aged
  ok (record {
    schema = schema;
    required_checks = checked;
    approval_roles = roles;
    distinct_approvers = switches.distinct_approvers;
    forbid_self_approval = switches.forbid_self_approval;
    max_approval_age_hours = hours;
    require_managed_runs = switches.require_managed_runs;
    require_delivery = switches.require_delivery;
    require_git = switches.require_git;
    require_hashed_pdk = switches.require_hashed_pdk;
  })
validate_policy _ = err (tapeout "Invalid policy schema")

-- ===== src/Tests/Project.antt =====
-- The data of the tests. Digests are short names, a signature holds if it is the public key, and
-- dates are read from a table of three.
use open_tapeout.Prelude.{
  ℕ, String, true, false, Option, none, some, List, [], ◌∷◌, if◌then◌else◌, str_eq, pos, Dict,
}
use open_tapeout.Json.{int, end, field, str}
use open_tapeout.Records.{
  Resource, Violation, Completion, Run, Envelope, Candidate, Requirement, Policy, KeyEntry, Trust,
  Platform,
}

abbrev noon_of : String → Option ℕ
noon_of s =
    if str_eq s "2026-01-01T00:00:00Z"
    then some 10
    else if str_eq s "2026-01-02T00:00:00Z"
    then some 20
    else if str_eq s "2026-01-03T00:00:00Z"
    then some 30
    else none

abbrev pub platform : Platform
platform = record {
  digest_node = λ r inputs. r.sha256;
  digest_metadata = λ m. "metadata";
  digest_run = λ r. r.id;
  digest_envelope = λ e. e.key_id;
  digest_candidate = λ c. c.name;
  digest_policy = λ p. p.schema;
  parse_timestamp = noon_of;
  hours = λ h. 15;
  strip = λ s. s;
  suffix = λ s. ".gds";
  is_signed = λ key payload signature. str_eq key signature;
}

abbrev pub layout : Resource
layout = record {
  kind = "layout";
  sha256 = "layout-1";
  size = 4;
  path = some "chip.gds";
  metadata = end;
  depends_on = [];
  built_from = [];
}

abbrev pub resources : Dict Resource
resources = ("layout", layout) ∷ []

abbrev pub violation : Violation
violation = record {
  rule = "M1.S.1";
  location = "x1";
  message = "spacing";
  severity = "error";
  fingerprint = "f1";
}

abbrev pub completion : Completion
completion = record {
  completed_at = "2026-01-02T00:00:00Z";
  exit_code = pos 0;
  capture_mode = "managed";
  report_sha256 = some "report";
  format = "klayout";
  parser_error = none;
  result = record {
    status = "fail";
    complete = true;
    metrics = ("density", int (pos 5)) ∷ [];
    violations = violation ∷ [];
  };
  input_drift = [];
  stdout_sha256 = none;
  stderr_sha256 = none;
  execution_identity = none;
}

abbrev pub run : Run
run = record {
  id = "run-1";
  kind = "drc";
  corner = "typical";
  tool = "checker";
  roots = "layout" ∷ [];
  snapshot = ("layout", "layout-1") ∷ [];
  started_at = "2026-01-01T00:00:00Z";
  tool_spec = end;
  sequence = 3;
  completion = some completion;
}

abbrev pub earlier_run : Run
earlier_run = record run { id = "run-0"; sequence = 2; completion = none }

abbrev pub waiver : Envelope
waiver = record {
  payload = field "created_at" (str "2026-01-01T00:00:00Z") (
      field "evidence_sha256" (str "run-1") (
        field "expires_at" (str "2026-01-03T00:00:00Z") (
          field "owner" (str "alice") (
            field "project_id" (str "p1") (
              field "rationale" (str "known") (
                field "run_id" (str "run-1") (
                  field "type" (str "opentapeout.waiver/v1")
                    (field "violation_fingerprint" (str "f1") end))))))));
  key_id = "bob-key";
  signature = "bob-public";
}

abbrev pub approval_of : String → String → String → Envelope
approval_of candidate_sha256 role key = record {
  payload = field "candidate_sha256" (str candidate_sha256) (
      field "created_at" (str "2026-01-02T00:00:00Z") (
        field "decision" (str "approve") (
          field "project_id" (str "p1")
            (field "role" (str role) (field "type" (str "opentapeout.approval/v1") end)))));
  key_id = key;
  signature = if str_eq key "bob-key" then "bob-public" else "carol-public";
}

abbrev pub approval : String → String → Envelope
approval = approval_of "rc1"

abbrev pub approvals : List Envelope
approvals =
    approval "layout" "bob-key" ∷ approval "layout" "carol-key" ∷ approval "signoff" "bob-key" ∷ []

abbrev pub candidate : Candidate
candidate = record {
  project_id = "p1";
  project_name = "chip";
  name = "rc1";
  created_at = "2026-01-02T00:00:00Z";
  created_by = "alice";
  notes = "";
  deliveries =
      record { name = "chip.gds"; resource_id = "layout"; sha256 = "layout-1"; size = 4 } ∷ [];
  resources = resources;
  runs = ("run-1", run) ∷ [];
  waivers = waiver ∷ [];
  policy_sha256 = "opentapeout.policy/v1";
  trust_sha256 = "trust";
}

abbrev pub requirement : Requirement
requirement = record {
  kind = "drc";
  corner = "typical";
  required_resource_kinds = "layout" ∷ [];
  max_age_hours = int (pos 24);
  metrics = ("density", record { min = some (int (pos 1)); max = none }) ∷ [];
  input_pins = [];
  allowed_tools = [];
  report_formats = [];
  require_pinned_executable = false;
}

abbrev pub policy : Policy
policy = record {
  schema = "opentapeout.policy/v1";
  required_checks = requirement ∷ [];
  approval_roles = "layout" ∷ "signoff" ∷ [];
  distinct_approvers = true;
  forbid_self_approval = true;
  max_approval_age_hours = int (pos 24);
  require_managed_runs = true;
  require_delivery = true;
  require_git = false;
  require_hashed_pdk = false;
}

abbrev pub bob : KeyEntry
bob = record {
  public_key = "bob-public";
  principal = "bob";
  roles = "layout" ∷ "signoff" ∷ "waiver" ∷ [];
  revoked = false;
}

abbrev carol : KeyEntry
carol = record {
  public_key = "carol-public";
  principal = "carol";
  roles = "layout" ∷ [];
  revoked = false;
}

abbrev pub trust : Trust
trust = record { keys = ("bob-key", bob) ∷ ("carol-key", carol) ∷ []; sha256 = "trust" }

abbrev pub evening : String
evening = "2026-01-02T00:00:00Z"

-- A digest, as hexadecimal text.
abbrev pub hash : String
hash = "aaaaaaaaaaaaaaaaaaaaaaaaaaaaaaaaaaaaaaaaaaaaaaaaaaaaaaaaaaaaaaaa"

-- A candidate under the name of a digest.
abbrev pub hashed_candidate : Candidate
hashed_candidate = record candidate { name = hash }

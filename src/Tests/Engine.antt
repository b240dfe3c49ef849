-- ===== src/Tests/Engine.antt =====
-- The state of the project and its gate.
use open_tapeout.Prelude.{
  ℕ, String, Bool, true, false, Option, none, some, List, [], ◌∷◌, ◌≡◌, refl, Dict, lookup, has,
  Among, here, there, values, ◌≤◌, ◌++◌,
}
use open_tapeout.Result.{Failure, Result, ok, err, key_error}
use open_tapeout.Json.{end}
use open_tapeout.Policy.{Report}
use open_tapeout.Engine.State.{
  State, Project, Payload, project_created, resource_registered, run_started, candidate_created,
  approval_signed, approval_revoked, initial, LedgerEvent, replay,
}
use open_tapeout.Engine.Scope.{scope_view}
use open_tapeout.Graph.Drift.{Workspace}
use open_tapeout.Engine.Release.{gate_state, withdrawal_blockers}
use open_tapeout.Engine.Ready.{IsCleared, gate_state-IsCleared}
use open_tapeout.Engine.Latest.{scope_view-latest}
use open_tapeout.Engine.Withdrawal.{gate_state-withdrawn}
use open_tapeout.Engine.History.{Extends, replay-Extends}
use open_tapeout.Tests.Project.{
  platform, candidate, policy, trust, approvals, evening, waiver, resources, run, earlier_run,
}

abbrev pub workspace : Workspace
workspace = record {
  capture_tree = λ path. err key_error;
  inspect_git = λ path. err key_error;
  file_digest = λ path. ok ("layout-1", 4);
  put_file = λ path. ok ("layout-1", 4);
  object_error = λ s. none;
  metadata_size = λ m. 0;
}

abbrev state : State
state = record initial {
  project = some (record { id = "p1"; name = "chip"; schema = "opentapeout.project/v1" });
  resources = resources;
  runs = ("run-0", earlier_run) ∷ ("run-1", run) ∷ [];
  waivers = ("bob-key", waiver) ∷ [];
  candidates = ("rc1", candidate) ∷ [];
  approvals = approvals;
}

abbrev report : Report
report = record {
  ready = true;
  candidate_sha256 = "rc1";
  evaluated_at = evening;
  blockers = [];
  checks =
      record { check = "drc:typical"; status = "pass"; run_id = some "run-1"; violations = 1 } ∷ [];
  approval_assignment = ("signoff", "bob") ∷ ("layout", "carol") ∷ [];
  valid_waivers = 1;
  rejected_waivers = [];
  rejected_approvals = [];
}

gate_state-candidate :
    gate_state platform workspace state "rc1" policy trust evening true ≡ ok report
unfolding open_tapeout.Result.known open_tapeout.Graph.build open_tapeout.Graph.closure
    open_tapeout.Graph.Drift.drift_of open_tapeout.Graph.Drift.drift
    open_tapeout.Policy.stale_blockers open_tapeout.Policy.release_blockers
    open_tapeout.Policy.evaluate open_tapeout.Policy.Checks.block_if
    open_tapeout.Policy.Checks.concat open_tapeout.Policy.Checks.block_each
    open_tapeout.Policy.Checks.run_for open_tapeout.Policy.Checks.stale_inputs
    open_tapeout.Policy.Checks.pin_blockers open_tapeout.Policy.Checks.input_pin_blockers
    open_tapeout.Policy.Checks.has_pinned_executable open_tapeout.Policy.Checks.exact_input_blockers
    open_tapeout.Policy.Checks.bound_kinds open_tapeout.Policy.Checks.pdk_blockers
    open_tapeout.Policy.Checks.metric_blockers open_tapeout.Policy.Checks.outcome_blockers
    open_tapeout.Policy.Checks.completion_blockers open_tapeout.Policy.Checks.age_blockers
    open_tapeout.Policy.Checks.input_blockers open_tapeout.Policy.Checks.run_blockers
    open_tapeout.Policy.Checks.evaluate_check open_tapeout.Policy.Checks.evaluate_checks
    open_tapeout.Policy.Approvals.collect_options open_tapeout.Policy.Roles.assign_roles
    open_tapeout.Policy.Waivers.valid_waivers open_tapeout.Signing.timestamp
    open_tapeout.Signing.verify open_tapeout.Json.hashable open_tapeout.Json.get
    open_tapeout.Json.field_names open_tapeout.Json.elements open_tapeout.Json.number_lt
    open_tapeout.Json.field_is open_tapeout.Util.is_hex open_tapeout.Util.identifier
    open_tapeout.Util.finite_number open_tapeout.Prelude.insert open_tapeout.Prelude.lookup
    open_tapeout.Prelude.contains open_tapeout.Prelude.add open_tapeout.Prelude.to_set
    open_tapeout.Prelude.sorted open_tapeout.Engine.State.state_from
    open_tapeout.Engine.Scope.scope_view open_tapeout.Engine.Scope.object_refs
    open_tapeout.Engine.Release.approve
gate_state-candidate = refl

gate_state-IsCleared_example : IsCleared platform workspace state "rc1" policy trust evening
gate_state-IsCleared_example =
    gate_state-IsCleared platform workspace state "rc1" policy trust evening report
      gate_state-candidate refl

scope_view-candidate : scope_view platform state candidate policy trust ≡ ok candidate
unfolding open_tapeout.Engine.Scope.scope_view open_tapeout.Prelude.contains open_tapeout.Json.get
    lookup open_tapeout.Prelude.insert
scope_view-candidate = refl

run-1_found : lookup "run-1" candidate.runs ≡ some run
unfolding lookup
run-1_found = refl

scope_view-latest_example : earlier_run.sequence ≤ run.sequence
scope_view-latest_example =
    scope_view-latest platform state candidate candidate policy trust "run-1" run earlier_run
      scope_view-candidate run-1_found (here refl) refl

abbrev event : ℕ → Payload → LedgerEvent
event seq payload = record {
  body = record {
    seq = seq;
    previous = "before";
    kind = "kind";
    actor = "alice";
    at = evening;
    payload = payload;
  };
  hash = "after";
}

abbrev later : List LedgerEvent
later =
    event 7 (run_started (record run { id = "run-2"; completion = none }))
    ∷ event 8 (approval_signed waiver)
    ∷ []

abbrev state_later : State
state_later = record state {
  runs =
      ("run-0", earlier_run)
      ∷ ("run-1", run)
      ∷ ("run-2", record run { id = "run-2"; completion = none; sequence = 7 })
      ∷ [];
  approvals = approvals ++ waiver ∷ [];
}

replay-later : replay platform state later ≡ ok state_later
unfolding open_tapeout.Engine.State.replay open_tapeout.Prelude.insert
replay-later = refl

replay-Extends_example : Extends state state_later
replay-Extends_example = replay-Extends platform later state state_later replay-later

abbrev gone : State
gone = record state { withdrawals = ("rc1", waiver) ∷ [] }

abbrev gone_later : State
gone_later = record state_later { withdrawals = ("rc1", waiver) ∷ [] }

replay-gone : replay platform gone later ≡ ok gone_later
unfolding open_tapeout.Engine.State.replay open_tapeout.Prelude.insert
replay-gone = refl

abbrev blocked : Report
blocked = record report {
  ready = false;
  blockers = withdrawal_blockers platform gone candidate "rc1";
  rejected_approvals = key_error ∷ [];
}

gate_state-gone :
    gate_state platform workspace gone_later "rc1" policy trust evening true ≡ ok blocked
unfolding open_tapeout.Result.known open_tapeout.Graph.build open_tapeout.Graph.closure
    open_tapeout.Graph.Drift.drift_of open_tapeout.Graph.Drift.drift
    open_tapeout.Policy.stale_blockers open_tapeout.Policy.release_blockers
    open_tapeout.Policy.evaluate open_tapeout.Policy.Checks.block_if
    open_tapeout.Policy.Checks.concat open_tapeout.Policy.Checks.block_each
    open_tapeout.Policy.Checks.run_for open_tapeout.Policy.Checks.stale_inputs
    open_tapeout.Policy.Checks.pin_blockers open_tapeout.Policy.Checks.input_pin_blockers
    open_tapeout.Policy.Checks.has_pinned_executable open_tapeout.Policy.Checks.exact_input_blockers
    open_tapeout.Policy.Checks.bound_kinds open_tapeout.Policy.Checks.pdk_blockers
    open_tapeout.Policy.Checks.metric_blockers open_tapeout.Policy.Checks.outcome_blockers
    open_tapeout.Policy.Checks.completion_blockers open_tapeout.Policy.Checks.age_blockers
    open_tapeout.Policy.Checks.input_blockers open_tapeout.Policy.Checks.run_blockers
    open_tapeout.Policy.Checks.evaluate_check open_tapeout.Policy.Checks.evaluate_checks
    open_tapeout.Policy.Approvals.collect_options open_tapeout.Policy.Roles.assign_roles
    open_tapeout.Policy.Waivers.valid_waivers open_tapeout.Signing.timestamp
    open_tapeout.Signing.verify open_tapeout.Json.hashable open_tapeout.Json.get
    open_tapeout.Json.field_names open_tapeout.Json.elements open_tapeout.Json.number_lt
    open_tapeout.Json.field_is open_tapeout.Util.is_hex open_tapeout.Util.identifier
    open_tapeout.Util.finite_number open_tapeout.Prelude.insert open_tapeout.Prelude.lookup
    open_tapeout.Prelude.contains open_tapeout.Prelude.add open_tapeout.Prelude.to_set
    open_tapeout.Prelude.sorted open_tapeout.Engine.State.state_from
    open_tapeout.Engine.Scope.scope_view open_tapeout.Engine.Scope.object_refs
    open_tapeout.Engine.Release.approve
gate_state-gone = refl

gone_candidate :
    (lookup "rc1" gone_later.candidates ≡ some candidate) × (has "rc1" gone.withdrawals ≡ true)
unfolding lookup
gone_candidate = (refl, refl)

gate_state-withdrawn_example : blocked.ready ≡ false
gate_state-withdrawn_example =
    gate_state-withdrawn platform workspace later gone gone_later "rc1" candidate policy trust
      evening blocked gone_candidate.1 replay-gone gone_candidate.0 gate_state-gone

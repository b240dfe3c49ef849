-- ===== src/Tests/Gate.antt =====
-- The gate on the project of the tests.
use open_tapeout.Prelude.{
  ℕ, String, Bool, true, false, Option, none, some, List, [], ◌∷◌, ◌≡◌, refl, Dict, lookup, Among,
  here, values, ◌≤◌, contains, ◌⊎◌, ◌↔◌,
}
use open_tapeout.Result.{ok}
use open_tapeout.Records.{Envelope}
use open_tapeout.Policy.{Report, evaluate}
use open_tapeout.Policy.Waivers.{ValidWaiver, valid_waivers}
use open_tapeout.Policy.Waivers.Justified.{IsJustified, valid_waivers-IsJustified}
use open_tapeout.Policy.Roles.{options_for, assign_roles}
use open_tapeout.Policy.Approvals.{collect_options}
use open_tapeout.Policy.Approvals.Justified.{IsApproval, collect_options-IsApproval}
use open_tapeout.Policy.Roles.Fuel.{assign_roles-ok}
use open_tapeout.Policy.Roles.Assignment.{assign_roles_sound}
use open_tapeout.Signing.{verify}
use open_tapeout.Signing.Authority.{IsAuthorized, verify_iff}
use open_tapeout.Policy.Gate.{IsReleasable, evaluate-IsReleasable}
use open_tapeout.Tests.Project.{platform, candidate, policy, trust, approvals, evening, waiver}

abbrev report : Report
report = record {
  ready = true;
  candidate_sha256 = "rc1";
  evaluated_at = evening;
  blockers = [];
  checks =
      record { check = "drc:typical"; status = "pass"; run_id = some "run-1"; violations = 1 } ∷ [];
  approval_assignment = ("signoff", "bob") ∷ ("layout", "carol") ∷ [];
  valid_waivers = 1;
  rejected_waivers = [];
  rejected_approvals = [];
}

evaluate-ready_candidate :
    evaluate platform candidate policy trust approvals evening true ≡ ok report
unfolding open_tapeout.Graph.build open_tapeout.Graph.closure open_tapeout.Policy.stale_blockers
    open_tapeout.Policy.release_blockers open_tapeout.Policy.evaluate
    open_tapeout.Policy.Checks.block_if open_tapeout.Policy.Checks.concat
    open_tapeout.Policy.Checks.block_each open_tapeout.Policy.Checks.run_for
    open_tapeout.Policy.Checks.stale_inputs open_tapeout.Policy.Checks.pin_blockers
    open_tapeout.Policy.Checks.input_pin_blockers open_tapeout.Policy.Checks.has_pinned_executable
    open_tapeout.Policy.Checks.exact_input_blockers open_tapeout.Policy.Checks.bound_kinds
    open_tapeout.Policy.Checks.pdk_blockers open_tapeout.Policy.Checks.metric_blockers
    open_tapeout.Policy.Checks.outcome_blockers open_tapeout.Policy.Checks.completion_blockers
    open_tapeout.Policy.Checks.age_blockers open_tapeout.Policy.Checks.input_blockers
    open_tapeout.Policy.Checks.run_blockers open_tapeout.Policy.Checks.evaluate_check
    open_tapeout.Policy.Checks.evaluate_checks open_tapeout.Policy.Approvals.collect_options
    open_tapeout.Policy.Roles.assign_roles open_tapeout.Json.hashable
    open_tapeout.Policy.Waivers.valid_waivers open_tapeout.Signing.timestamp
    open_tapeout.Signing.verify open_tapeout.Json.get open_tapeout.Json.field_names
    open_tapeout.Json.elements open_tapeout.Json.number_lt open_tapeout.Json.field_is
    open_tapeout.Util.is_hex open_tapeout.Util.identifier open_tapeout.Util.finite_number
    open_tapeout.Prelude.lookup open_tapeout.Prelude.insert open_tapeout.Prelude.contains
    open_tapeout.Prelude.add open_tapeout.Prelude.to_set open_tapeout.Prelude.sorted
evaluate-ready_candidate = refl

evaluate-IsReleasable_example : IsReleasable platform candidate policy trust approvals evening
evaluate-IsReleasable_example =
    evaluate-IsReleasable platform candidate policy trust approvals evening report
      evaluate-ready_candidate refl

abbrev valid : ValidWaiver
valid = record { run_id = "run-1"; fingerprint = "f1" }

valid_waivers-candidate :
    valid_waivers platform candidate trust evening candidate.waivers ([], []) ≡ ok (valid ∷ [], [])
unfolding open_tapeout.Policy.Waivers.valid_waivers verify lookup contains
    open_tapeout.Json.field_is open_tapeout.Json.get open_tapeout.Json.hashable
valid_waivers-candidate = refl

valid_waivers-IsJustified_example :
    (e : Envelope) × Among e candidate.waivers
    × IsJustified platform candidate trust evening e valid
valid_waivers-IsJustified_example =
    valid_waivers-IsJustified platform candidate trust evening (valid ∷ []) [] valid
      valid_waivers-candidate (here refl)

abbrev options : Dict (List String)
options = ("layout", "bob" ∷ "carol" ∷ []) ∷ ("signoff", "bob" ∷ []) ∷ []

abbrev assignment : Dict String
assignment = ("signoff", "bob") ∷ ("layout", "carol") ∷ []

assign_roles-options : assign_roles ("layout" ∷ "signoff" ∷ []) options true ≡ ok (some assignment)
unfolding open_tapeout.Policy.Roles.assign_roles lookup open_tapeout.Prelude.sorted contains
    open_tapeout.Prelude.insert open_tapeout.Prelude.add
assign_roles-options = refl

assign_roles_sound_example :
    ((role : String)
      → contains role ("layout" ∷ "signoff" ∷ []) ≡ true
      → (principal : String) × (lookup role assignment ≡ some principal)
        × (contains principal (options_for options role) ≡ true))
    × ((role other principal : String)
        → lookup role assignment ≡ some principal
        → lookup other assignment ≡ some principal
        → role ≡ other)
assign_roles_sound_example =
    assign_roles_sound ("layout" ∷ "signoff" ∷ []) options assignment assign_roles-options

verify_iff_example :
    (verify platform trust waiver "waiver" "opentapeout.waiver/v1" ≡ ok (waiver.payload, "bob")) ↔ (
      (waiver.payload ≡ waiver.payload)
      × IsAuthorized platform trust waiver "waiver" "opentapeout.waiver/v1" "bob")
verify_iff_example =
    verify_iff platform trust waiver "waiver" "opentapeout.waiver/v1" waiver.payload "bob"

collect_options-approvals :
    collect_options platform candidate policy trust evening approvals ([], []) ≡ ok (options, [])
unfolding open_tapeout.Policy.Approvals.collect_options open_tapeout.Json.get contains verify lookup
    open_tapeout.Json.field_is open_tapeout.Prelude.insert open_tapeout.Prelude.add
collect_options-approvals = refl

contains-carol : contains "carol" (options_for options "layout") ≡ true
unfolding contains options_for lookup
contains-carol = refl

collect_options-IsApproval_example :
    (e : Envelope) × Among e approvals
    × IsApproval platform candidate policy trust evening e "layout" "carol"
collect_options-IsApproval_example =
    collect_options-IsApproval platform candidate policy trust evening approvals options [] "layout"
      "carol" collect_options-approvals contains-carol

assign_roles-ok_example :
    (o : Option (Dict String)) × (assign_roles ("layout" ∷ "signoff" ∷ []) options true ≡ ok o)
assign_roles-ok_example = assign_roles-ok ("layout" ∷ "signoff" ∷ []) options true

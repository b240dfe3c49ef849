-- ===== src/Tests/Reports.antt =====
-- A waiver that is signed and then counted, and a report that is read.
use open_tapeout.Prelude.{
  ℕ, String, Bool, true, false, Option, none, some, List, [], ◌∷◌, ◌++◌, ◌≡◌, refl, pos,
}
use open_tapeout.Result.{ok}
use open_tapeout.Json.{Json, Fields, str, obj, arr, bool, num, int, cons, nil, field, end}
use open_tapeout.Records.{Envelope, Run, Candidate, Outcome}
use open_tapeout.Signing.{PrivateKey}
use open_tapeout.Store.{Transaction}
use open_tapeout.Policy.Waivers.{check_waiver}
use open_tapeout.Engine.State.{
  State, Payload, initial, project_created, run_started, run_completed, waiver_signed, LedgerEvent,
  state_from,
}
use open_tapeout.Engine.Waiving.{waiver_statement, waive}
use open_tapeout.Engine.Waiving.Counts.{waive-check_waiver}
use open_tapeout.Parsers.{validate_result}
use open_tapeout.Parsers.Consistent.{IsConsistent, validate_result-IsConsistent}
use open_tapeout.Tests.Project.{platform, candidate, completion, run, trust, evening}
use open_tapeout.Tests.Engine.{workspace}
use open_tapeout.Tests.Team.{codec, happened}

abbrev morning : String
morning = "2026-01-01T00:00:00Z"

abbrev signing_key : PrivateKey
signing_key = record { id = "bob-key"; signature = λ payload. "bob-public" }

abbrev checked_run : Run
checked_run = record run { sequence = 2 }

abbrev measured : List LedgerEvent
measured =
    happened 1 "project.created" "zero"
      (project_created (record { id = "p1"; name = "chip"; schema = "s" }))
    ∷ happened 2 "run.started" "first" (run_started (record run { completion = none }))
    ∷ happened 3 "run.completed" "second" (run_completed "run-1" completion)
    ∷ []

abbrev ledger : Transaction codec
ledger = record { rows = []; events = measured }

abbrev state : State
state = record initial {
  project = some (record { id = "p1"; name = "chip"; schema = "s" });
  runs = ("run-1", checked_run) ∷ [];
}

abbrev why : String
why = "known marginal spacing"

abbrev signed_waiver : Envelope
signed_waiver = record {
  payload =
      waiver_statement platform "p1" "run-1" checked_run "f1" why "alice" "2026-01-03T00:00:00Z" []
        morning;
  key_id = "bob-key";
  signature = "bob-public";
}

abbrev fourth : LedgerEvent
fourth = record {
  body = record {
    seq = 4;
    previous = (happened 3 "run.completed" "second" (run_completed "run-1" completion)).hash;
    kind = "waiver.signed";
    actor = "bob";
    at = morning;
    payload = waiver_signed signed_waiver;
  };
  hash = (happened 4 "waiver.signed" "third" (waiver_signed signed_waiver)).hash;
}

abbrev ledger_after : Transaction codec
ledger_after = record {
  rows = record { seq = 4; text = fourth.body; hash = fourth.hash } ∷ [];
  events = measured ++ fourth ∷ [];
}

waive-f1 :
    waive platform workspace codec signing_key ledger "run-1" "f1" why "alice"
      "2026-01-03T00:00:00Z" [] trust morning
    ≡ ok (signed_waiver, ledger_after)
unfolding open_tapeout.Result.known open_tapeout.Engine.Waiving.texts
    open_tapeout.Engine.Waiving.waiver_statement open_tapeout.Engine.Waiving.waiver_revocation
    open_tapeout.Engine.Waiving.verify_attachments open_tapeout.Engine.Waiving.completed_run
    open_tapeout.Engine.Waiving.check_request open_tapeout.Engine.Waiving.sign_waiver
    open_tapeout.Engine.Waiving.waive open_tapeout.Engine.Waiving.revoke_waiver
    open_tapeout.Store.checkpoint open_tapeout.Store.place_row open_tapeout.Store.insert_row
    open_tapeout.Store.append open_tapeout.Store.read_row open_tapeout.Store.read_from
    open_tapeout.Store.read_events open_tapeout.Store.hash_at open_tapeout.Store.check_expected
    open_tapeout.Store.verify_checkpoint open_tapeout.Engine.State.digest_field
    open_tapeout.Engine.State.complete_run open_tapeout.Engine.State.record_command
    open_tapeout.Engine.State.apply_payload open_tapeout.Engine.State.apply_event
    open_tapeout.Engine.State.replay open_tapeout.Engine.State.state_from
    open_tapeout.Engine.Release.add_blockers open_tapeout.Engine.Release.drift_blockers
    open_tapeout.Engine.Release.object_blockers open_tapeout.Engine.Release.candidate_named
    open_tapeout.Engine.Release.compare_view open_tapeout.Engine.Release.active
    open_tapeout.Engine.Release.active_approvals open_tapeout.Engine.Release.gate_state
    open_tapeout.Engine.Release.project_id open_tapeout.Engine.Release.gate
    open_tapeout.Engine.Release.approval_statement open_tapeout.Engine.Release.approve
    open_tapeout.Engine.Release.delivery_entry open_tapeout.Engine.Release.delivery_entries
    open_tapeout.Engine.Release.insert_item open_tapeout.Engine.Release.sorted_items
    open_tapeout.Engine.Release.draft open_tapeout.Engine.Release.create_candidate
    open_tapeout.Signing.sign open_tapeout.Signing.timestamp open_tapeout.Signing.untrusted
    open_tapeout.Signing.verify open_tapeout.Json.hashable open_tapeout.Json.get?
    open_tapeout.Json.get open_tapeout.Json.field_names open_tapeout.Json.elements
    open_tapeout.Json.finite_parts open_tapeout.Json.number_eq open_tapeout.Json.number_lt
    open_tapeout.Json.field_is open_tapeout.Util.is_hex open_tapeout.Util.is_identifier
    open_tapeout.Util.identifier open_tapeout.Util.finite_number open_tapeout.Prelude.insert
    open_tapeout.Prelude.lookup open_tapeout.Prelude.contains open_tapeout.Prelude.add
    open_tapeout.Prelude.to_set open_tapeout.Prelude.insert_sorted open_tapeout.Prelude.sorted
    open_tapeout.Prelude.texts_eq open_tapeout.Tests.Ledger.string_discrete
    open_tapeout.Tests.Ledger.same_text mathlib.Core.Bool.decide
waive-f1 = refl

state_from-measured : state_from platform measured ≡ ok state
unfolding open_tapeout.Engine.State.digest_field open_tapeout.Engine.State.complete_run
    open_tapeout.Engine.State.record_command open_tapeout.Engine.State.apply_payload
    open_tapeout.Engine.State.apply_event open_tapeout.Engine.State.replay
    open_tapeout.Engine.State.state_from open_tapeout.Prelude.insert open_tapeout.Prelude.lookup
    open_tapeout.Prelude.contains open_tapeout.Prelude.add open_tapeout.Prelude.to_set
    open_tapeout.Prelude.insert_sorted open_tapeout.Prelude.sorted open_tapeout.Prelude.texts_eq
state_from-measured = refl

abbrev frozen : Candidate
frozen = record candidate { runs = ("run-1", checked_run) ∷ [] }

waive-check_waiver_example :
    check_waiver platform frozen trust evening signed_waiver
    ≡ ok (record { run_id = "run-1"; fingerprint = "f1" })
unfolding open_tapeout.Engine.Release.project_id
waive-check_waiver_example =
    waive-check_waiver platform workspace codec signing_key trust "run-1" "f1" why "alice"
      "2026-01-03T00:00:00Z" morning [] ledger ledger_after signed_waiver state frozen evening 10 20
      30 waive-f1 state_from-measured refl refl refl refl refl refl refl

abbrev violation_field : Json
violation_field = obj (
    field "rule" (str "M1.S.1") (
      field "location" (str "x1")
        (field "message" (str "spacing") (field "severity" (str "error") end))))

abbrev report : Json
report = obj (
    field "schema" (str "opentapeout.result/v1") (
      field "run_id" (str "run-1") (
        field "status" (str "fail") (
          field "complete" (bool true) (
            field "metrics" (obj (field "area" (num (int (pos 7))) end))
              (field "violations" (arr (cons violation_field nil)) end))))))

abbrev outcome : Outcome
outcome = record {
  status = "fail";
  complete = true;
  metrics = ("area", int (pos 7)) ∷ [];
  violations =
      record {
        rule = "M1.S.1";
        location = "x1";
        message = "spacing";
        severity = "error";
        fingerprint = "metadata";
      }
      ∷ [];
}

validate_result-report : validate_result platform report "run-1" ≡ ok outcome
unfolding open_tapeout.Parsers.is_one_of open_tapeout.Parsers.drop_field
    open_tapeout.Parsers.text_field open_tapeout.Parsers.normalise_violation
    open_tapeout.Parsers.normalise open_tapeout.Parsers.metric_values
    open_tapeout.Parsers.cross_check open_tapeout.Parsers.validate_result open_tapeout.Json.hashable
    open_tapeout.Json.get? open_tapeout.Json.get open_tapeout.Json.field_names
    open_tapeout.Json.elements open_tapeout.Json.finite_parts open_tapeout.Json.number_eq
    open_tapeout.Json.number_lt open_tapeout.Json.field_is open_tapeout.Util.is_hex
    open_tapeout.Util.is_identifier open_tapeout.Util.identifier open_tapeout.Util.finite_number
    open_tapeout.Prelude.insert open_tapeout.Prelude.lookup open_tapeout.Prelude.contains
    open_tapeout.Prelude.add open_tapeout.Prelude.to_set open_tapeout.Prelude.insert_sorted
    open_tapeout.Prelude.sorted open_tapeout.Prelude.texts_eq
validate_result-report = refl

validate_result-IsConsistent_example : IsConsistent platform report "run-1" outcome
validate_result-IsConsistent_example =
    validate_result-IsConsistent platform report "run-1" outcome validate_result-report

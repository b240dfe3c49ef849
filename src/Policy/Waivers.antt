-- ===== src/Policy/Waivers.antt =====
-- `valid_waivers` of src/opentapeout/policy.py: the waivers that count.
pub mod Justified
use open_tapeout.Prelude.{
  ℕ, String, Bool, true, false, ◌&&◌, not, Option, none, some, List, [], ◌∷◌, ◌++◌, map, leb, ltb,
  str_eq, lookup, any, is_empty, if◌then◌else◌, ◌==◌,
}
use open_tapeout.Result.{
  Failure, tapeout, team, key_error, type_error, attribute_error, out_of_fuel, Result, ok, err,
  ensure, ◌>>=◌, ◌>>◌,
}
use open_tapeout.Json.{Json, null, bool, num, str, arr, obj, Fields, get, is_text, hashable}
use open_tapeout.Records.{Violation, Completion, Run, Envelope, Candidate, Trust, Platform}
use open_tapeout.Signing.{verify, timestamp}

-- A key of `valid`: the run and the fingerprint of the violation that is waived.
pub record ValidWaiver : Type 0 where
  pub run_id : String
  pub fingerprint : String

-- `candidate["runs"].get(key)`: a list or an object is no key, other values are no run's.
unfoldable pub find_run : Candidate → Json → Result (Option Run)
find_run candidate (str s) = ok (lookup s candidate.runs)
find_run candidate (arr _) = err type_error
find_run candidate (obj _) = err type_error
find_run candidate _ = ok none

-- `value.strip()`
unfoldable pub strip_json : Platform → Json → Result String
strip_json p (str s) = ok (p.strip s)
strip_json p _ = err attribute_error

-- `run["result"]["violations"]`: a run that has not completed has no result.
unfoldable pub violations_of : Run → Result (List Violation)
violations_of run = elim run.completion [ none ↦ err key_error | some c ↦ ok c.result.violations ]

-- `run is not None and evidence_digest(run) == body["evidence_sha256"]`
unfoldable pub matching_run : Platform → Option Run → Fields → Result Run
matching_run p none body = err (tapeout "Waiver does not match this exact evidence")
matching_run p (some run) body = do
  evidence ← get "evidence_sha256" body
  ensure (is_text (p.digest_run run) evidence) "Waiver does not match this exact evidence"
  ok run

abbrev pub has_fingerprint : Json → List Violation → Bool
has_fingerprint v = any (λ x. is_text x.fingerprint v)

-- A checked text; the tests before it have shown that it is one.
abbrev pub text_of : Json → Result String
text_of (str s) = ok s
text_of _ = err type_error

unfoldable pub check_owner : Candidate → Fields → String → Result (Unit {0})
check_owner candidate body principal = do
  project ← get "project_id" body
  ensure (is_text candidate.project_id project) "Waiver belongs to another project"
  owner ← get "owner" body
  ensure (not (is_text principal owner)) "Waiver owner cannot review their own waiver"

-- `timestamp(created_at) <= timestamp(at) < timestamp(expires_at)`
unfoldable pub check_period : Platform → String → Fields → Result (Unit {0})
check_period p at body = do
  created_at ← get "created_at" body
  created ← timestamp p created_at
  now ← timestamp p (str at)
  ensure (leb created now) "Waiver expired or not yet valid"
  expires_at ← get "expires_at" body
  expires ← timestamp p expires_at
  ensure (ltb now expires) "Waiver expired or not yet valid"

unfoldable pub check_evidence : Platform → Candidate → Fields → Result ValidWaiver
check_evidence p candidate body = do
  run_id ← get "run_id" body
  found ← find_run candidate run_id
  run ← matching_run p found body
  violations ← violations_of run
  fingerprint ← get "violation_fingerprint" body
  hashable fingerprint
  ensure (has_fingerprint fingerprint violations) "Waiver violation not present"
  run_key ← text_of run_id
  fingerprint_key ← text_of fingerprint
  ok (record { run_id = run_key; fingerprint = fingerprint_key })

unfoldable pub check_rationale : Platform → Fields → Result (Unit {0})
check_rationale p body = do
  rationale ← get "rationale" body
  reason ← strip_json p rationale
  ensure (not (str_eq reason "")) "Waiver rationale required"

-- The body of the `try`.
unfoldable pub check_waiver : Platform → Candidate → Trust → String → Envelope → Result ValidWaiver
unfolding find_run strip_json violations_of matching_run check_owner check_period check_evidence
    check_rationale
check_waiver p candidate trust at envelope = do
  (body, principal) ← verify p trust envelope "waiver" "opentapeout.waiver/v1"
  check_owner candidate body principal
  check_period p at body
  w ← check_evidence p candidate body
  check_rationale p body
  ok w

-- `except (TapeoutError, KeyError, TypeError)`: the waiver is rejected; any other exception goes on.
unfoldable pub caught : Failure → Bool
caught (tapeout _) = true
caught (team _ _ _) = true
caught key_error = true
caught type_error = true
caught _ = false

abbrev pub same_waiver : ValidWaiver → ValidWaiver → Bool
same_waiver w x = str_eq w.run_id x.run_id && str_eq w.fingerprint x.fingerprint

-- `valid[(run_id, fingerprint)] = envelope`
unfoldable pub note_waiver : ValidWaiver → List ValidWaiver → List ValidWaiver
note_waiver w valid = if any (same_waiver w) valid then valid else valid ++ w ∷ []

unfoldable pub add_waiver :
    Result ValidWaiver → List ValidWaiver × List Failure → Result (List ValidWaiver × List Failure)
unfolding caught note_waiver
add_waiver (ok w) (valid, rejected) = ok (note_waiver w valid, rejected)
add_waiver (err e) (valid, rejected) = if caught e then ok (valid, rejected ++ e ∷ []) else err e

-- `valid` and `rejected` after the loop, from what they hold before it.
unfoldable pub valid_waivers :
    Platform
    → Candidate
    → Trust
    → String
    → List Envelope
    → List ValidWaiver × List Failure
    → Result (List ValidWaiver × List Failure)
unfolding check_waiver add_waiver
valid_waivers p candidate trust at [] found = ok found
valid_waivers p candidate trust at (envelope ∷ rest) found = do
  found' ← add_waiver (check_waiver p candidate trust at envelope) found
  valid_waivers p candidate trust at rest found'

-- ===== src/Parsers.antt =====
-- src/opentapeout/parsers.py: the result that a report states. `validate_result` reads the
-- normalised form; the children read the other formats.
pub mod Stated
pub mod Consistent
pub mod Formats
use open_tapeout.Prelude.{
  ℕ, String, Bool, true, false, ◌&&◌, ◌||◌, not, Option, none, some, List, [], ◌∷◌, str_eq,
  contains, is_empty, same_set, subset, Dict, if◌then◌else◌,
}
use open_tapeout.Result.{Result, ok, err, tapeout, type_error, ensure, ◌>>=◌, ◌>>◌}
use open_tapeout.Json.{
  Json, null, bool, num, str, arr, obj, Number, Fields, end, field, get?, field_is, field_names,
  elements, is_text,
}
use open_tapeout.Util.{finite_number}
use open_tapeout.Records.{Violation, Outcome, Platform}

abbrev pub schema : String
schema = "opentapeout.result/v1"

-- CHECKS
abbrev pub checks : List String
checks = "DRC" ∷ "LVS" ∷ "STA" ∷ "CDC" ∷ "RDC" ∷ "POWER" ∷ "FORMAL" ∷ "LINT" ∷ "ERC" ∷ "EMIR" ∷ []

-- FORMATS
abbrev pub formats : List String
formats =
    "json" ∷ "junit" ∷ "klayout-rdb" ∷ "csv" ∷ "yosys-sat" ∷ "klayout-drc" ∷ "klayout-lvs"
    ∷ "opensta" ∷ []

-- `v in {...}` for a value that may be missing: a list or an object has no hash.
unfoldable pub is_one_of : List String → Option Json → Result Bool
is_one_of names (some (str s)) = ok (contains s names)
is_one_of names (some (arr _)) = err type_error
is_one_of names (some (obj _)) = err type_error
is_one_of names _ = ok false

-- `{k: v for k, v in violation.items() if k != key}`
unfoldable pub drop_field : String → Fields → Fields
drop_field key end = end
drop_field key (field k v rest) =
    let kept = drop_field key rest in if str_eq k key then kept else field k v kept

-- `isinstance(v, str) and bool(v.strip())`
unfoldable pub text_field : Platform → String → Fields → Result String
text_field p key violation = elim (get? key violation) [
  | some (str s) ↦ do ensure (not (str_eq (p.strip s) "")) "Violation field required"; ok s
  | _ ↦ err (tapeout "Violation field required")
]

-- `violation.get("fingerprint", fingerprint) == fingerprint`
abbrev pub agrees : String → Option Json → Bool
agrees fingerprint none = true
agrees fingerprint (some v) = is_text fingerprint v

abbrev pub severity_of : Fields → String
severity_of violation = elim (get? "severity" violation) [ some (str s) ↦ s | _ ↦ "" ]

module _ (p : Platform) where
  -- One violation, after the ones with the fingerprints `seen`.
  unfoldable pub normalise_violation : List String → Fields → Result Violation
  unfolding is_one_of text_field drop_field
  normalise_violation seen violation = do
    ensure
        (subset (field_names violation)
          ("rule" ∷ "location" ∷ "message" ∷ "severity" ∷ "geometry" ∷ "fingerprint" ∷ []))
        "Unknown violation fields"
    rule ← text_field p "rule" violation
    location ← text_field p "location" violation
    message ← text_field p "message" violation
    known ← is_one_of ("error" ∷ "warning" ∷ "info" ∷ []) (get? "severity" violation)
    ensure known "Invalid violation severity"
    let fingerprint = p.digest_metadata (drop_field "fingerprint" violation)
    ensure (agrees fingerprint (get? "fingerprint" violation)) "Invalid violation fingerprint"
    ensure (not (contains fingerprint seen))
        "Duplicate violation fingerprint; disambiguate location"
    ok (record {
      rule = rule;
      location = location;
      message = message;
      severity = severity_of violation;
      fingerprint = fingerprint;
    })

  unfoldable pub normalise : List String → List Json → Result (List Violation)
  unfolding normalise_violation
  normalise seen [] = ok []
  normalise seen (obj violation ∷ rest) = do
    v ← normalise_violation seen violation
    others ← normalise (v.fingerprint ∷ seen) rest
    ok (v ∷ others)
  normalise seen (_ ∷ rest) = err (tapeout "Violation must be an object")

  -- `isinstance(metrics, dict)` with finite numbers
  unfoldable pub metric_values : Fields → Result (Dict Number)
  metric_values end = ok []
  metric_values (field k (num n) rest) = do
    ensure (finite_number (num n)) "Metrics must be finite numbers"
    others ← metric_values rest
    ok ((k, n) ∷ others)
  metric_values (field k _ rest) = err (tapeout "Metrics must be finite numbers")

  abbrev pub flag : Option Json → Result Bool
  flag (some (bool b)) = ok b
  flag _ = err (tapeout "Result must declare complete as a boolean")

  abbrev pub metrics_of : Option Json → Result (Dict Number)
  metrics_of (some (obj f)) = metric_values f
  metrics_of _ = err (tapeout "Metrics must be finite numbers")

  abbrev pub listed_of : Option Json → Result (List Json)
  listed_of (some (arr items)) = ok (elements items)
  listed_of _ = err (tapeout "violations must be a list")

  abbrev pub status_of : Fields → String
  status_of result = elim (get? "status" result) [ some (str s) ↦ s | _ ↦ "" ]

  -- The tests that compare the parts of a result with each other.
  unfoldable pub cross_check : Fields → Outcome → Result Outcome
  cross_check result outcome = do
    ensure (not (str_eq outcome.status "pass" && not (is_empty outcome.violations)))
        "A passing report cannot contain violations"
    ensure (not (str_eq outcome.status "pass" && not outcome.complete))
        "Incomplete report cannot pass"
    ensure
        (same_set (field_names result)
          ("schema" ∷ "run_id" ∷ "status" ∷ "complete" ∷ "metrics" ∷ "violations" ∷ []))
        "Result has missing or unknown fields"
    ok outcome

  unfoldable pub validate_result : Json → String → Result Outcome
  unfolding normalise metric_values cross_check is_one_of
  validate_result (obj result) run_id = do
    ensure (field_is "schema" schema result) "Unsupported result schema"
    ensure (field_is "run_id" run_id result) "Report run_id does not match captured run"
    known ← is_one_of ("pass" ∷ "fail" ∷ "unknown" ∷ []) (get? "status" result)
    ensure known "Invalid result status"
    complete ← flag (get? "complete" result)
    metrics ← metrics_of (get? "metrics" result)
    listed ← listed_of (get? "violations" result)
    violations ← normalise [] listed
    cross_check result (record {
      status = status_of result;
      complete = complete;
      metrics = metrics;
      violations = violations;
    })
  validate_result _ run_id = err (tapeout "Unsupported result schema")

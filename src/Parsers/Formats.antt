-- ===== src/Parsers/Formats.antt =====
-- `parse` of parsers.py: a report in one of the formats, read from the object that was captured.
--
-- What json, csv and the adapters for text and XML reports read of an object is in `Reports`.
use open_tapeout.Prelude.{
  ℕ, String, true, Option, none, some, List, [], ◌∷◌, leb, length, str_eq, contains, is_empty,
  texts_eq, if◌then◌else◌, ◌*◌, pos,
}
use open_tapeout.Result.{Result, ok, err, tapeout, ensure, ◌>>=◌, ◌>>◌}
use open_tapeout.Json.{Json, bool, num, str, arr, obj, int, Items, nil, cons, end, field}
use open_tapeout.Records.{Outcome, Platform}
use open_tapeout.Parsers.{schema, validate_result}

-- The size of an object, its JSON value, its CSV records (blank ones are skipped, none if it is not
-- CSV in UTF-8), and the results of the adapters in native.py, physical.py and for XML.
pub record Reports : Type 0 where
  pub size : String → ℕ
  pub loads : String → Result Json
  pub csv_records : String → Option (List (List String))
  pub adapter : String → String → String → Result Outcome

abbrev pub max_report : ℕ
max_report = 32 * 1024 * 1024

-- A row of a CSV report as a violation.
unfoldable pub csv_violation : List String → Result Json
csv_violation (rule ∷ location ∷ message ∷ severity ∷ []) = ok (
    obj (
      field "location" (str location) (
        field "message" (str message)
          (field "rule" (str rule) (field "severity" (str severity) end)))))
csv_violation _ = err (tapeout "Malformed CSV row")

unfoldable pub csv_violations : List (List String) → Result (List Json)
unfolding csv_violation
csv_violations [] = ok []
csv_violations (row ∷ rows) = do
  v ← csv_violation row
  others ← csv_violations rows
  ok (v ∷ others)

abbrev csv_header : List String
csv_header = "rule" ∷ "location" ∷ "message" ∷ "severity" ∷ []

unfoldable pub csv_rows : Option (List (List String)) → Result (List Json)
unfolding csv_violations
csv_rows none = err (tapeout "Malformed CSV report")
csv_rows (some []) = err (tapeout "CSV header must be rule,location,message,severity")
csv_rows (some (header ∷ rows)) = do
  ensure (texts_eq header csv_header) "CSV header must be rule,location,message,severity"
  csv_violations rows

unfoldable pub array : List Json → Items
array [] = nil
array (v ∷ vs) = cons v (array vs)

-- The result of a report that lists violations and no metrics of its own.
unfoldable pub listing : String → List Json → Json
unfolding array
listing run_id violations = obj (
    field "complete" (bool true) (
      field "metrics" (obj (field "violation_count" (num (int (pos (length violations)))) end)) (
        field "run_id" (str run_id) (
          field "schema" (str schema) (
            field "status" (str (if is_empty violations then "pass" else "fail"))
              (field "violations" (arr (array violations)) end))))))

-- `parse(data, format_name, run_id)`, where `data` is what the object with the checksum holds.
unfoldable pub parse : Platform → Reports → String → String → String → Result Outcome
unfolding csv_rows listing
parse p reports checksum format_name run_id = do
  ensure (leb (reports.size checksum) max_report)
      "Report exceeds parser size limit; use a normalized summary"
  if contains format_name
        ("klayout-drc" ∷ "klayout-lvs" ∷ "opensta" ∷ "yosys-sat" ∷ "junit" ∷ "klayout-rdb" ∷ [])
      then reports.adapter format_name checksum run_id
      else if str_eq format_name "json"
      then (do report ← reports.loads checksum; validate_result p report run_id)
      else if str_eq format_name "csv"
      then (do
        rows ← csv_rows (reports.csv_records checksum)
        validate_result p (listing run_id rows) run_id)
      else err (tapeout "Unknown report format")

-- ===== src/Engine/Runs.antt =====
-- `finish` of engine.py: the completion of a run, from its report, its logs and its inputs.
pub mod Once
use open_tapeout.Prelude.{
  ℕ, String, Bool, true, false, ◌&&◌, not, Option, none, some, List, [], ◌∷◌, ◌++◌, Dict, lookup,
  keys, contains, sorted, to_set, keep, str_eq, leb, if◌then◌else◌, ℤ, pos, negsuc, ltb,
}
use open_tapeout.Result.{tapeout, team, Result, ok, err, ensure, known, ◌>>=◌, ◌>>◌}
use open_tapeout.Records.{Outcome, ExecutionIdentity, Completion, Run, Platform}
use open_tapeout.Graph.{build, closure}
use open_tapeout.Graph.Drift.{Workspace, drift}
use open_tapeout.Parsers.Formats.{Reports, parse}
use open_tapeout.Policy.Checks.{option_is}
use open_tapeout.Store.{Codec, Transaction, append}
use open_tapeout.Engine.State.{State, Payload, run_completed, state_from}

-- The files that a managed run wrote, with the size of the one from standard error.
pub record Logs : Type 0 where
  pub stdout : String
  pub stderr : String
  pub stderr_size : ℕ

-- `-65536 <= exit_code <= 65536`
abbrev pub is_exit_code : ℤ → Bool
is_exit_code (pos n) = leb n 65536
is_exit_code (negsuc n) = ltb n 65536

-- FORMAT_KINDS
abbrev pub format_kinds : Dict String
format_kinds =
    ("yosys-sat", "FORMAL")
    ∷ ("klayout-drc", "DRC")
    ∷ ("klayout-lvs", "LVS")
    ∷ ("opensta", "STA")
    ∷ []

abbrev pub unknown_result : Outcome
unknown_result = record { status = "unknown"; complete = false; metrics = []; violations = [] }

-- `_logs and _logs[1].stat().st_size` for a native physical format
abbrev pub wrote_stderr : String → Option Logs → Bool
wrote_stderr format_name none = false
wrote_stderr format_name (some logs) =
    contains format_name ("klayout-drc" ∷ "klayout-lvs" ∷ "opensta" ∷ []) && ltb 0 logs.stderr_size

-- What a run has of its report: its digest, the parser's error and the result.
pub record Parsed : Type 0 where
  pub report_sha256 : Option String
  pub parser_error : Option String
  pub result : Outcome

-- `except TapeoutError as exc: parser_error = str(exc)`; any other exception goes on.
unfoldable pub parsed : String → String → Option Logs → Result Outcome → Result Parsed
parsed checksum format_name logs (ok result) = ok (
    if wrote_stderr format_name logs
    then record {
      report_sha256 = some checksum;
      parser_error =
          some
            "Native physical collector wrote stderr; review diagnostics before accepting evidence";
      result = unknown_result;
    }
    else record { report_sha256 = some checksum; parser_error = none; result = result })
parsed checksum format_name logs (err (tapeout message)) =
    ok (record {
      report_sha256 = some checksum;
      parser_error = some message;
      result = unknown_result;
    })
parsed checksum format_name logs (err (team code message status)) =
    ok (record {
      report_sha256 = some checksum;
      parser_error = some message;
      result = unknown_result;
    })
parsed checksum format_name logs (err e) = err e

-- `current.get(key) != snapshot.get(key)` for the keys of both
unfoldable pub changed_keys : Dict String → Dict String → List String
changed_keys current snapshot =
    keep
      (λ k. elim (lookup k current) [
        | none ↦ true
        | some f ↦ not (option_is (lookup k snapshot) f)
      ])
      (to_set (keys current ++ keys snapshot))

-- `zip(("stdout_sha256", "stderr_sha256"), _logs)`: the digests of the logs, where there are any
unfoldable pub store_logs : Workspace → Option Logs → Result (Option String × Option String)
store_logs w none = ok (none, none)
store_logs w (some logs) = do
  (out, _) ← w.put_file logs.stdout
  (problems, _) ← w.put_file logs.stderr
  ok (some out, some problems)

-- `run["completed_at"] is None`
abbrev pub is_open : Run → Bool
is_open run = elim run.completion [ none ↦ true | some _ ↦ false ]

module _ (p : Platform) (w : Workspace) (reports : Reports) where
  -- The report that was captured, if there is one.
  unfoldable pub read_report : String → Run → Option String → String → Option Logs → Result Parsed
  unfolding parsed
  read_report run_id run none format_name logs = ok (record {
    report_sha256 = none;
    parser_error = some "No report produced";
    result = unknown_result;
  })
  read_report run_id run (some path) format_name logs = do
    (checksum, _) ← w.put_file path
    elim (w.object_error checksum) [ none ↦ ok tt | some reason ↦ err (tapeout reason) ]
    parsed checksum format_name logs (do
      ensure
          (elim (lookup format_name format_kinds) [
            | none ↦ true
            | some kind ↦ str_eq run.kind kind
          ])
          "evidence can only satisfy another check"
      parse p reports checksum format_name run_id)

  -- The payload of the event.
  unfoldable pub complete :
      State
      → String
      → Run
      → Option String
      → ℤ
      → String
      → Bool
      → Option Logs
      → Option ExecutionIdentity
      → String
      → Result Completion
  unfolding read_report changed_keys store_logs
  complete s run_id run report exit_code format_name managed logs identity now = do
    read ← read_report run_id run report format_name logs
    graph ← build p s.resources
    current ← closure graph run.roots
    observed ← drift w graph.resources (keys current)
    (out, problems) ← store_logs w logs
    ok (record {
      completed_at = now;
      exit_code = exit_code;
      capture_mode = if managed then "managed" else "imported";
      report_sha256 = read.report_sha256;
      format = format_name;
      parser_error = read.parser_error;
      result = read.result;
      input_drift = sorted (to_set (changed_keys current run.snapshot ++ keys observed));
      stdout_sha256 = out;
      stderr_sha256 = problems;
      execution_identity = identity;
    })

  module _ (c : Codec String Payload) where
    unfoldable pub finish :
        Transaction c
        → String
        → Option String
        → ℤ
        → String
        → String
        → Bool
        → Option Logs
        → Option ExecutionIdentity
        → String
        → Result (Completion × Transaction c)
    unfolding complete
    finish tx run_id report exit_code format_name actor managed logs identity now = do
      ensure (is_exit_code exit_code) "Invalid exit code"
      s ← state_from p tx.events
      run ← known (lookup run_id s.runs) "Unknown run"
      ensure (is_open run) "Run is already completed; start a new run"
      completion ← complete s run_id run report exit_code format_name managed logs identity now
      (_, tx') ← append c "run.completed" (run_completed run_id completion) actor now tx
      ok (completion, tx')

-- ===== src/Tests/Withdrawn.antt =====
-- The release of the layout after its withdrawal.
use open_tapeout.Prelude.{
  ℕ, String, true, none, some, List, [], ◌∷◌, ◌++◌, ◌≡◌, ◌≢◌, refl, has, pos,
}
use open_tapeout.Result.{Result, ok, err}
use open_tapeout.Json.{int, str, Fields, end, field}
use open_tapeout.Records.{Envelope}
use open_tapeout.Store.{Transaction, checkpoint}
use open_tapeout.Engine.State.{State, initial, release_withdrawn, state_from}
use open_tapeout.Archive.{Archive}
use open_tapeout.Lifecycle.Export.{status_statement, export_status}
use open_tapeout.Bundle.Verify.{max_total, verify_bundle}
use open_tapeout.Bundle.Withdrawn.{verify_bundle-withdrawn}
use open_tapeout.Tests.Project.{platform, policy, evening, hash}
use open_tapeout.Tests.Team.{codec, happened}
use open_tapeout.Tests.Release.{senders, dora_key, ledger_after, packing, archive, manifest, result}

abbrev withdrawal : Envelope
withdrawal = record {
  payload = field "candidate_sha256" (str hash) end;
  key_id = "dora-key";
  signature = "dora-public";
}

abbrev ledger : Transaction codec
ledger = record ledger_after {
  events =
      ledger_after.events ++ happened 11 "release.withdrawn" "" (release_withdrawn withdrawal) ∷ [];
}

abbrev state_of : Result State → State
state_of (ok s) = s
state_of (err e) = initial

abbrev midnight : ℕ → String
midnight t = "2026-01-03T00:00:00Z"

state_from-ledger :
    state_from platform ledger.events ≡ ok (state_of (state_from platform ledger.events))
unfolding state_from open_tapeout.Prelude.lookup open_tapeout.Prelude.insert open_tapeout.Json.get
state_from-ledger = refl

has-withdrawn : has hash (state_of (state_from platform ledger.events)).withdrawals ≡ true
unfolding state_from open_tapeout.Prelude.lookup open_tapeout.Prelude.insert open_tapeout.Json.get
has-withdrawn = refl

abbrev status : Envelope
status = record {
  payload =
      status_statement (state_of (state_from platform ledger.events)) "p1" evening
        "2026-01-03T00:00:00Z" (checkpoint codec ledger).seq (checkpoint codec ledger).hash;
  key_id = "dora-key";
  signature = "dora-public";
}

export_status-chip :
    export_status platform codec midnight dora_key ledger senders (int (pos 1)) evening ≡ ok status
unfolding export_status state_from open_tapeout.Prelude.lookup open_tapeout.Prelude.insert
    open_tapeout.Signing.verify open_tapeout.Signing.timestamp open_tapeout.Json.number_lt
    open_tapeout.Util.finite_number open_tapeout.Prelude.contains open_tapeout.Json.field_is
    open_tapeout.Json.get
export_status-chip = refl

manifest-read : archive.manifest ≡ ok manifest
unfolding open_tapeout.Archive.write_archive
manifest-read = refl

verify_bundle-withdrawn_example :
    verify_bundle platform packing policy senders max_total (some status) 0 evening (ok archive)
    ≢ ok result
verify_bundle-withdrawn_example =
    verify_bundle-withdrawn platform codec packing midnight dora_key ledger senders (int (pos 1))
      evening status (state_of (state_from platform ledger.events)) policy senders max_total 0
      evening archive manifest result export_status-chip state_from-ledger manifest-read
      has-withdrawn

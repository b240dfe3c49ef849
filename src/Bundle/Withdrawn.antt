-- ===== src/Bundle/Withdrawn.antt =====
-- A withdrawn release of lifecycle.py and the offline verification of bundle.py.
use open_tapeout.Prelude.{ℕ, String, true, some, ◌≡◌, ◌≢◌, sym, ap, ◌∙◌, has}
use open_tapeout.Result.{ok, >>=-eq-ok, ok-injective}
use open_tapeout.Json.{Number}
use open_tapeout.Records.{Envelope, Policy, Trust, Platform}
use open_tapeout.Signing.{PrivateKey}
use open_tapeout.Store.{Codec, Transaction}
use open_tapeout.Engine.State.{State, Payload, state_from}
use open_tapeout.Lifecycle.Status.{check_candidate_status}
use open_tapeout.Lifecycle.Export.{export_status}
use open_tapeout.Lifecycle.Withdrawn.{check_candidate_status-withdrawn}
use open_tapeout.Archive.{Archive, Packing}
use open_tapeout.Bundle.Manifest.{ReleaseManifest}
use open_tapeout.Bundle.Verify.{counted_approvals, verify_bundle, Verified}
use open_tapeout.Bundle.Verified.{verify_bundle-IsVerified}

-- A withdrawn release is refused offline: if a status is exported from a ledger that has withdrawn a
-- candidate, then `verify_bundle` with this status accepts no archive whose manifest holds that
-- candidate, whatever the policy, the trust store, the size budget, the minimum sequence and the time.
pub verify_bundle-withdrawn :
    (p : Platform) (c : Codec String Payload) (packing : Packing ReleaseManifest)
    (isoformat : ℕ → String) (key : PrivateKey) (tx : Transaction c) (exporters : Trust)
    (valid_hours : Number) (issued : String) (status : Envelope) (s : State) (policy : Policy)
    (trust : Trust) (budget minimum : ℕ) (now : String) (archive : Archive ReleaseManifest)
    (manifest : ReleaseManifest) (result : Verified)
    → export_status p c isoformat key tx exporters valid_hours issued ≡ ok status
    → state_from p tx.events ≡ ok s
    → archive.manifest ≡ ok manifest
    → has (p.digest_candidate manifest.candidate) s.withdrawals ≡ true
    → verify_bundle p packing policy trust budget (some status) minimum now (ok archive) ≢ ok result
unfolding counted_approvals
verify_bundle-withdrawn p c packing isoformat key tx exporters valid_hours issued status s policy
      trust budget minimum now archive manifest result exported state read gone accepted =
    let (opened, same, v) =
      verify_bundle-IsVerified p packing policy trust budget (some status) minimum now (ok archive)
        result accepted in
    let held : manifest ≡ v.manifest =
      ok-injective (
        sym read ∙ ap (λ (a : Archive ReleaseManifest). a.manifest) (ok-injective same) ∙ v.read) in
    let (t, checked, _) =
      >>=-eq-ok
        (check_candidate_status p trust v.manifest.candidate v.manifest.approvals status minimum
          now)
        _ v.counted in
    check_candidate_status-withdrawn p c isoformat key tx exporters trust valid_hours issued now
      status s v.manifest.candidate v.manifest.approvals minimum t exported state
      (ap (λ (m : ReleaseManifest). has (p.digest_candidate m.candidate) s.withdrawals) (sym held)
        ∙ gone)
      checked

-- ===== src/Tests/Status.antt =====
-- The offline check of the candidate of the tests.
use open_tapeout.Prelude.{ℕ, String, false, List, [], ◌∷◌, ◌≡◌, refl, contains, All, Among, pos}
use open_tapeout.Result.{ok}
use open_tapeout.Json.{Json, str, arr, obj, num, int, nil, cons, Fields, end, field}
use open_tapeout.Records.{Envelope, KeyEntry, Trust}
use open_tapeout.Lifecycle.Status.{Status, check_candidate_status}
use open_tapeout.Lifecycle.Status.Cleared.{IsStatus, check_candidate_status-IsStatus}
use open_tapeout.Tests.Project.{platform, candidate, approvals, evening}

abbrev dora : KeyEntry
dora = record {
  public_key = "dora-public";
  principal = "dora";
  roles = "release" ∷ [];
  revoked = false;
}

abbrev signers : Trust
signers = record { keys = ("dora-key", dora) ∷ []; sha256 = "signers" }

abbrev other_digest : String
other_digest = "0123456789abcdef0123456789abcdef0123456789abcdef0123456789abcdef"

abbrev statement : Fields
statement =
    field "checkpoint" (obj (field "hash" (str other_digest) (field "seq" (num (int (pos 7))) end)))
      (field "created_at" (str evening) (
        field "expires_at" (str "2026-01-03T00:00:00Z") (
          field "project_id" (str "p1") (
            field "revoked_approvals" (arr (cons (str other_digest) nil)) (
              field "revoked_waivers" (arr nil) (
                field "type" (str "opentapeout.release-status/v1")
                  (field "withdrawn_candidates" (arr nil) end)))))))

abbrev envelope : Envelope
envelope = record { payload = statement; key_id = "dora-key"; signature = "dora-public" }

abbrev status : Status
status = record {
  signer = "dora";
  statement = statement;
  checked_at = 20;
  revoked_approvals = other_digest ∷ [];
  revoked_waivers = [];
  withdrawn_candidates = [];
}

check_candidate_status-candidate :
    check_candidate_status platform signers candidate approvals envelope 5 evening
    ≡ ok (approvals, status)
unfolding open_tapeout.Lifecycle.Status.check_candidate_status open_tapeout.Signing.verify
    open_tapeout.Prelude.lookup contains open_tapeout.Json.field_is open_tapeout.Json.get
    open_tapeout.Json.field_names open_tapeout.Util.is_hex open_tapeout.Json.elements
    open_tapeout.Prelude.texts_eq open_tapeout.Prelude.sorted open_tapeout.Prelude.to_set
check_candidate_status-candidate = refl

check_candidate_status-IsStatus_example :
    IsStatus platform signers envelope "p1" 5 evening status
    × (contains "rc1" status.withdrawn_candidates ≡ false)
    × All
        (λ w. contains (platform.digest_envelope w) status.revoked_waivers ≡ false)
        candidate.waivers
    × ((a : Envelope)
        → Among a approvals
        → Among a approvals
          × (contains (platform.digest_envelope a) status.revoked_approvals ≡ false))
check_candidate_status-IsStatus_example =
    check_candidate_status-IsStatus platform signers candidate approvals approvals envelope 5
      evening status check_candidate_status-candidate

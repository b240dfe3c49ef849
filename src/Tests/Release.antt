-- ===== src/Tests/Release.antt =====
-- A release of the layout: its archive, and its seal.
use open_tapeout.Prelude.{
  ℕ, ℤ, Bool, true, false, Option, none, some, List, [], ◌∷◌, ◌++◌, ◌≡◌, refl, contains,
}
use open_tapeout.Result.{Result, ok, err, key_error, tapeout}
use open_tapeout.Json.{Fields}
use open_tapeout.Records.{Envelope, Trust}
use open_tapeout.Signing.{PrivateKey}
use open_tapeout.Policy.{Report}
use open_tapeout.Store.{Transaction}
use open_tapeout.Engine.State.{
  Release, Payload, LedgerEvent, project_created, resource_registered, run_started, run_completed,
  waiver_signed, candidate_created, approval_signed, release_sealed,
}
use open_tapeout.Engine.Scope.{object_refs}
use open_tapeout.Archive.{
  Member, Archive, Entry, Content, document, signed, stored, Packing, write_archive,
}
use open_tapeout.Bundle.Manifest.{ReleaseManifest, release_statement}
use open_tapeout.Bundle.Verify.{Verified, verify_bundle, max_total}
use open_tapeout.Bundle.Verified.{IsVerified, verify_bundle-IsVerified}
use open_tapeout.Bundle.Seal.{seal}
use open_tapeout.Bundle.Released.{IsReleased, seal-IsReleased}
use open_tapeout.Bundle.Once.{seal-again}
use open_tapeout.Tests.Project.{
  platform, policy, trust, approval_of, evening, waiver, run, completion, earlier_run, layout, hash,
  hashed_candidate,
}
use open_tapeout.Tests.Engine.{workspace}
use open_tapeout.Tests.Team.{codec, happened}

abbrev pub senders : Trust
senders = record trust {
  keys =
      trust.keys
      ++ (
        "dora-key",
        record {
          public_key = "dora-public";
          principal = "dora";
          roles = "release" ∷ [];
          revoked = false;
        },
      )
        ∷ (
          "fab-key",
          record {
            public_key = "fab-public";
            principal = "foundry";
            roles = "delivery-receiver" ∷ [];
            revoked = false;
          },
        )
        ∷ [];
}

abbrev pub dora_key : PrivateKey
dora_key = record { id = "dora-key"; signature = λ payload. "dora-public" }

abbrev pub history : List LedgerEvent
history =
    happened 1 "project.created" ""
      (project_created (record { id = "p1"; name = "chip"; schema = "s" }))
    ∷ happened 2 "run.started" "" (run_started earlier_run)
    ∷ happened 3 "run.started" "" (run_started (record run { completion = none }))
    ∷ happened 4 "run.completed" "" (run_completed "run-1" completion)
    ∷ happened 5 "resource.registered" "" (resource_registered "layout" layout)
    ∷ happened 6 "waiver.signed" "" (waiver_signed waiver)
    ∷ happened 7 "candidate.created" "" (candidate_created hash hashed_candidate)
    ∷ happened 8 "approval.signed" "" (approval_signed (approval_of hash "signoff" "bob-key"))
    ∷ happened 9 "approval.signed" "" (approval_signed (approval_of hash "layout" "carol-key"))
    ∷ []

-- The member that is read back where this was written.
abbrev member_of : {M : Type 0} → Entry × Content M → Member
member_of (e, content) = record {
  filename = e.filename;
  is_dir = false;
  flag_bits = 0;
  external_attr = e.external_attr;
  compress_type = e.compress_type;
  file_size = 4;
  content = elim content [
    | document m ↦ some ("document", 4)
    | signed e ↦ some ("envelope", 4)
    | stored checksum ↦ some (checksum, 4)
  ];
}

abbrev document_of : {M : Type 0} → List (Entry × Content M) → Result M
document_of [] = err key_error
document_of ((e, document m) ∷ rest) = ok m
document_of ((e, signed m) ∷ rest) = document_of rest
document_of ((e, stored m) ∷ rest) = document_of rest

abbrev envelope_of : {M : Type 0} → List (Entry × Content M) → Result Envelope
envelope_of [] = err key_error
envelope_of ((e, signed m) ∷ rest) = ok m
envelope_of ((e, document m) ∷ rest) = envelope_of rest
envelope_of ((e, stored m) ∷ rest) = envelope_of rest

abbrev members_of : {M : Type 0} → List (Entry × Content M) → List Member
members_of [] = []
members_of (e ∷ rest) = member_of e ∷ members_of rest

abbrev pub read_back : {M : Type 0} → List (Entry × Content M) → Archive M
read_back entries = record {
  infolist = members_of entries;
  manifest = document_of entries;
  signature = envelope_of entries;
}

abbrev pub packing : Packing ReleaseManifest
packing = record {
  digest_manifest = λ m. hash;
  object_size = λ checksum. ok 4;
  zip_file = λ entries. ok (read_back entries, hash, 50);
}

abbrev ledger : Transaction codec
ledger = record { rows = []; events = history }

abbrev pub manifest : ReleaseManifest
manifest = record {
  schema = "opentapeout.release/v1";
  created_at = evening;
  candidate = hashed_candidate;
  candidate_sha256 = hash;
  approvals = approval_of hash "signoff" "bob-key" ∷ approval_of hash "layout" "carol-key" ∷ [];
  checkpoint = (
    9,
    (happened 9 "approval.signed" ""
        (approval_signed (approval_of hash "layout" "carol-key"))).hash,
  );
  files =
      ("objects/sha256/layout-1", record { sha256 = "layout-1"; size = 4 })
      ∷ ("objects/sha256/report", record { sha256 = "report"; size = 4 })
      ∷ ("delivery/chip.gds", record { sha256 = "layout-1"; size = 4 })
      ∷ [];
  object_index = ("layout-1", "objects/sha256/layout-1") ∷ ("report", "objects/sha256/report") ∷ [];
  policy = policy;
  disclosure = "full evidence: may include confidential design/PDK material";
}

abbrev signature : Envelope
signature = record {
  payload = release_statement packing manifest;
  key_id = "dora-key";
  signature = "dora-public";
}

abbrev pub sealed_chip : Release
sealed_chip = record {
  id = hash;
  archive_sha256 = hash;
  archive_size = 50;
  manifest_sha256 = hash;
  candidate_sha256 = hash;
  sealed_at = evening;
  signature = signature;
}

abbrev added : LedgerEvent
added =
    happened 10 "release.sealed"
      (happened 9 "approval.signed" ""
        (approval_signed (approval_of hash "layout" "carol-key"))).hash
      (release_sealed sealed_chip)

abbrev pub ledger_after : Transaction codec
ledger_after = record {
  rows = record { seq = 10; text = added.body; hash = added.hash } ∷ [];
  events = history ++ added ∷ [];
}

seal-chip :
    seal platform codec packing workspace workspace dora_key ledger hash policy senders evening
    ≡ ok (sealed_chip, ledger_after)
unfolding open_tapeout.Graph.build open_tapeout.Graph.closure open_tapeout.Graph.Drift.drift_of
    open_tapeout.Graph.Drift.drift open_tapeout.Policy.stale_blockers
    open_tapeout.Policy.release_blockers open_tapeout.Policy.evaluate
    open_tapeout.Policy.Checks.block_if open_tapeout.Policy.Checks.concat
    open_tapeout.Policy.Checks.block_each open_tapeout.Policy.Checks.run_for
    open_tapeout.Policy.Checks.stale_inputs open_tapeout.Policy.Checks.bound_kinds
    open_tapeout.Policy.Checks.metric_blockers open_tapeout.Policy.Checks.outcome_blockers
    open_tapeout.Policy.Checks.completion_blockers open_tapeout.Policy.Checks.age_blockers
    open_tapeout.Policy.Checks.input_blockers open_tapeout.Policy.Checks.run_blockers
    open_tapeout.Policy.Checks.evaluate_check open_tapeout.Policy.Checks.evaluate_checks
    open_tapeout.Policy.Approvals.collect_options open_tapeout.Policy.Roles.assign_roles
    open_tapeout.Policy.Waivers.valid_waivers open_tapeout.Signing.verify open_tapeout.Json.hashable
    open_tapeout.Json.get open_tapeout.Json.number_lt open_tapeout.Json.field_is
    open_tapeout.Util.identifier open_tapeout.Util.finite_number open_tapeout.Prelude.insert
    open_tapeout.Prelude.lookup open_tapeout.Prelude.contains open_tapeout.Prelude.add
    open_tapeout.Prelude.to_set open_tapeout.Prelude.sorted open_tapeout.Engine.State.state_from
    open_tapeout.Engine.Scope.scope_view open_tapeout.Engine.Scope.object_refs
    open_tapeout.Engine.Release.approve open_tapeout.Util.Paths.safe_relative
    open_tapeout.Archive.has_no_repeat open_tapeout.Archive.total_size
    open_tapeout.Bundle.Verify.verify_bundle open_tapeout.Bundle.Seal.seal
    open_tapeout.Delivery.Seal.verify_object open_tapeout.Store.append
seal-chip = refl

seal-IsReleased_example :
    IsReleased platform codec packing workspace workspace ledger ledger_after policy senders evening
      sealed_chip
seal-IsReleased_example =
    seal-IsReleased platform codec packing workspace workspace dora_key ledger ledger_after hash
      policy senders evening sealed_chip seal-chip

seal-again_example :
    seal platform codec packing workspace workspace dora_key ledger_after hash policy trust evening
    ≡ err (tapeout "Release already sealed; use a new candidate name")
seal-again_example =
    seal-again platform codec packing workspace workspace workspace workspace dora_key dora_key
      ledger ledger_after policy policy senders trust hash evening evening sealed_chip seal-chip

abbrev pub archive : Archive ReleaseManifest
archive = read_back (
    write_archive manifest signature (
      ("delivery/chip.gds", "layout-1")
      ∷ ("objects/sha256/layout-1", "layout-1")
      ∷ ("objects/sha256/report", "report")
      ∷ []))

abbrev report : Report
report = record {
  ready = true;
  candidate_sha256 = hash;
  evaluated_at = evening;
  blockers = [];
  checks =
      record { check = "drc:typical"; status = "pass"; run_id = some "run-1"; violations = 1 } ∷ [];
  approval_assignment = ("layout", "carol") ∷ ("signoff", "bob") ∷ [];
  valid_waivers = 1;
  rejected_waivers = [];
  rejected_approvals = [];
}

abbrev pub result : Verified
result = record {
  candidate_sha256 = hash;
  manifest_sha256 = hash;
  signer = "dora";
  objects = 2;
  files = 3;
  gate = report;
  release_status = none;
}

verify_bundle-chip :
    verify_bundle platform packing policy senders max_total none 0 evening (ok archive) ≡ ok result
unfolding open_tapeout.Graph.build open_tapeout.Graph.closure open_tapeout.Policy.stale_blockers
    open_tapeout.Policy.release_blockers open_tapeout.Policy.evaluate
    open_tapeout.Policy.Checks.block_if open_tapeout.Policy.Checks.concat
    open_tapeout.Policy.Checks.block_each open_tapeout.Policy.Checks.run_for
    open_tapeout.Policy.Checks.stale_inputs open_tapeout.Policy.Checks.bound_kinds
    open_tapeout.Policy.Checks.metric_blockers open_tapeout.Policy.Checks.outcome_blockers
    open_tapeout.Policy.Checks.completion_blockers open_tapeout.Policy.Checks.age_blockers
    open_tapeout.Policy.Checks.input_blockers open_tapeout.Policy.Checks.run_blockers
    open_tapeout.Policy.Checks.evaluate_check open_tapeout.Policy.Checks.evaluate_checks
    open_tapeout.Policy.Approvals.collect_options open_tapeout.Policy.Roles.assign_roles
    open_tapeout.Policy.Waivers.valid_waivers open_tapeout.Signing.verify open_tapeout.Json.hashable
    open_tapeout.Json.get open_tapeout.Json.number_lt open_tapeout.Json.field_is
    open_tapeout.Util.identifier open_tapeout.Util.finite_number open_tapeout.Prelude.insert
    open_tapeout.Prelude.lookup open_tapeout.Prelude.contains open_tapeout.Prelude.add
    open_tapeout.Prelude.to_set open_tapeout.Prelude.sorted open_tapeout.Engine.Scope.object_refs
    open_tapeout.Util.Paths.safe_relative open_tapeout.Archive.has_no_repeat
    open_tapeout.Archive.total_size open_tapeout.Archive.write_archive
    open_tapeout.Bundle.Verify.verify_bundle open_tapeout.Bundle.Manifest.release_statement
verify_bundle-chip = refl

verify_bundle-IsVerified_example :
    (archive' : Archive ReleaseManifest) × (ok archive ≡ ok archive')
    × IsVerified platform packing policy senders max_total none 0 evening archive' result
verify_bundle-IsVerified_example =
    verify_bundle-IsVerified platform packing policy senders max_total none 0 evening (ok archive)
      result verify_bundle-chip

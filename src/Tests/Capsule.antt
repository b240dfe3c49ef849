-- ===== src/Tests/Capsule.antt =====
-- A capsule of the layout for a recipient, and the receipt for it.
use open_tapeout.Prelude.{
  ℕ, ℤ, String, Bool, true, false, Option, none, some, List, [], ◌∷◌, ◌++◌, ◌≡◌, refl,
}
use open_tapeout.Result.{ok}
use open_tapeout.Json.{Fields}
use open_tapeout.Records.{Envelope}
use open_tapeout.Signing.{PrivateKey, sign}
use open_tapeout.Store.{Transaction}
use open_tapeout.Engine.State.{
  SealedDelivery, Payload, LedgerEvent, delivery_sealed, delivery_received, release_sealed,
}
use open_tapeout.Archive.{Archive, write_archive}
use open_tapeout.Delivery.Disclosed.{Disclosure}
use open_tapeout.Delivery.Capsule.{Manifest, Packing, signature_statement, verify_delivery}
use open_tapeout.Delivery.Seal.{seal_delivery, sources_of}
use open_tapeout.Delivery.Recorded.{IsSealed, seal_delivery-IsSealed}
use open_tapeout.Delivery.Allowed.{IsAllowed, verify_delivery-IsAllowed}
use open_tapeout.Delivery.Receipts.{receipt_statement, record_receipt}
use open_tapeout.Delivery.Acknowledged.{IsAcknowledged, record_receipt-IsAcknowledged}
use open_tapeout.Tests.Project.{platform, policy, evening, hash}
use open_tapeout.Tests.Engine.{workspace}
use open_tapeout.Tests.Team.{codec, happened}
use open_tapeout.Tests.Release.{senders, dora_key, sealed_chip, history, read_back}

abbrev releases : List LedgerEvent
releases = history ++ happened 10 "release.sealed" "" (release_sealed sealed_chip) ∷ []

abbrev ledger : Transaction codec
ledger = record { rows = []; events = releases }

abbrev disclosure : Disclosure
disclosure = record {
  recipient = "foundry";
  files = record { delivery = "chip.gds"; name = "top.gds"; sha256 = "layout-1" } ∷ [];
  max_bytes = 10;
}

abbrev packing : Packing
packing = record {
  digest_disclosure = λ d. hash;
  zip = record {
    digest_manifest = λ m. hash;
    object_size = λ checksum. ok 4;
    zip_file = λ entries. ok (read_back entries, "capsule", 50);
  };
}

abbrev manifest : Manifest
manifest = record {
  schema = "opentapeout.delivery/v1";
  delivery_id = "d1";
  project_id = "p1";
  created_at = evening;
  recipient = "foundry";
  candidate_sha256 = hash;
  source_archive_sha256 = hash;
  source_manifest_sha256 = hash;
  disclosure_sha256 = hash;
  files = ("delivery/top.gds", record { sha256 = "layout-1"; size = 4 }) ∷ [];
}

abbrev signature : Envelope
signature = record {
  payload = signature_statement packing manifest;
  key_id = "dora-key";
  signature = "dora-public";
}

abbrev capsule : SealedDelivery
capsule = record {
  id = "d1";
  release_id = hash;
  project_id = "p1";
  candidate_sha256 = hash;
  archive_sha256 = "capsule";
  archive_size = 50;
  manifest_sha256 = hash;
  recipient = "foundry";
  disclosure_sha256 = hash;
  sealed_at = evening;
  signature = signature;
}

abbrev added : LedgerEvent
added =
    happened 11 "delivery.sealed"
      (happened 10 "release.sealed" "" (release_sealed sealed_chip)).hash (delivery_sealed capsule)

abbrev ledger_after : Transaction codec
ledger_after = record {
  rows = record { seq = 11; text = added.body; hash = added.hash } ∷ [];
  events = releases ++ added ∷ [];
}

seal_delivery-d1 :
    seal_delivery platform codec packing workspace workspace dora_key ledger hash "d1" disclosure
      policy senders evening
    ≡ ok (capsule, ledger_after)
unfolding open_tapeout.Graph.build open_tapeout.Graph.closure open_tapeout.Graph.Drift.drift_of
    open_tapeout.Graph.Drift.drift open_tapeout.Policy.stale_blockers
    open_tapeout.Policy.release_blockers open_tapeout.Policy.evaluate
    open_tapeout.Policy.Checks.block_if open_tapeout.Policy.Checks.concat
    open_tapeout.Policy.Checks.block_each open_tapeout.Policy.Checks.run_for
    open_tapeout.Policy.Checks.stale_inputs open_tapeout.Policy.Checks.pin_blockers
    open_tapeout.Policy.Checks.input_pin_blockers open_tapeout.Policy.Checks.has_pinned_executable
    open_tapeout.Policy.Checks.exact_input_blockers open_tapeout.Policy.Checks.bound_kinds
    open_tapeout.Policy.Checks.pdk_blockers open_tapeout.Policy.Checks.metric_blockers
    open_tapeout.Policy.Checks.outcome_blockers open_tapeout.Policy.Checks.completion_blockers
    open_tapeout.Policy.Checks.age_blockers open_tapeout.Policy.Checks.input_blockers
    open_tapeout.Policy.Checks.run_blockers open_tapeout.Policy.Checks.evaluate_check
    open_tapeout.Policy.Checks.evaluate_checks open_tapeout.Policy.Approvals.collect_options
    open_tapeout.Policy.Roles.assign_roles open_tapeout.Policy.Waivers.valid_waivers
    open_tapeout.Signing.timestamp open_tapeout.Signing.verify open_tapeout.Json.hashable
    open_tapeout.Json.get open_tapeout.Json.field_names open_tapeout.Json.elements
    open_tapeout.Json.number_lt open_tapeout.Json.field_is open_tapeout.Util.is_hex
    open_tapeout.Util.identifier open_tapeout.Util.finite_number open_tapeout.Prelude.insert
    open_tapeout.Prelude.lookup open_tapeout.Prelude.contains open_tapeout.Prelude.add
    open_tapeout.Prelude.to_set open_tapeout.Prelude.sorted open_tapeout.Engine.State.state_from
    open_tapeout.Engine.Scope.scope_view open_tapeout.Engine.Scope.object_refs
    open_tapeout.Engine.Release.approve open_tapeout.Util.Paths.safe_relative
    open_tapeout.Archive.has_no_repeat open_tapeout.Archive.entry
    open_tapeout.Delivery.Capsule.verify_delivery open_tapeout.Delivery.Seal.verify_object
    open_tapeout.Delivery.Seal.seal_delivery open_tapeout.Store.checkpoint open_tapeout.Store.append
    open_tapeout.Tests.Ledger.string_discrete open_tapeout.Tests.Ledger.same_text
    mathlib.Core.Bool.decide open_tapeout.Json.fields_eq open_tapeout.Json.json_eq
    open_tapeout.Json.items_eq
seal_delivery-d1 = refl

seal_delivery-IsSealed_example :
    IsSealed platform codec packing workspace workspace ledger ledger_after disclosure policy
      senders evening capsule
seal_delivery-IsSealed_example =
    seal_delivery-IsSealed platform codec packing workspace workspace dora_key ledger ledger_after
      hash "d1" disclosure policy senders evening capsule seal_delivery-d1

abbrev archive : Archive Manifest
archive = read_back (write_archive manifest signature (sources_of manifest.files))

verify_delivery-d1 :
    verify_delivery platform packing disclosure senders evening (ok archive) ≡ ok ("dora", manifest)
unfolding open_tapeout.Delivery.Capsule.verify_delivery write_archive sources_of
    open_tapeout.Archive.has_no_repeat open_tapeout.Prelude.contains
    open_tapeout.Util.Paths.safe_relative open_tapeout.Signing.verify open_tapeout.Prelude.lookup
    open_tapeout.Json.field_is signature_statement open_tapeout.Json.get
    open_tapeout.Json.field_names open_tapeout.Util.identifier open_tapeout.Util.is_hex
verify_delivery-d1 = refl

verify_delivery-IsAllowed_example :
    (archive' : Archive Manifest) × (ok archive ≡ ok archive')
    × IsAllowed platform packing disclosure senders evening archive' "dora" manifest
verify_delivery-IsAllowed_example =
    verify_delivery-IsAllowed platform packing disclosure senders evening (ok archive) "dora"
      manifest verify_delivery-d1

abbrev fab_key : PrivateKey
fab_key = record { id = "fab-key"; signature = λ payload. "fab-public" }

abbrev receipt : Envelope
receipt = record {
  payload = receipt_statement packing manifest "capsule" "lot 7" evening;
  key_id = "fab-key";
  signature = "fab-public";
}

abbrev received : LedgerEvent
received = happened 12 "delivery.received" added.hash (delivery_received receipt)

abbrev sent : Transaction codec
sent = record { rows = []; events = ledger_after.events }

abbrev acknowledged : Transaction codec
acknowledged = record {
  rows =
      record { seq = 12; text = record received.body { actor = "foundry" }; hash = received.hash }
      ∷ [];
  events =
      sent.events ++ record received { body = record received.body { actor = "foundry" } } ∷ [];
}

record_receipt-d1 :
    record_receipt platform codec sent receipt senders evening ≡ ok ("foundry", acknowledged)
unfolding open_tapeout.Delivery.Receipts.record_receipt open_tapeout.Tests.Ledger.string_discrete
    open_tapeout.Tests.Ledger.same_text mathlib.Core.Bool.decide open_tapeout.Signing.verify
    open_tapeout.Prelude.lookup open_tapeout.Prelude.contains open_tapeout.Json.field_is
    receipt_statement open_tapeout.Json.get open_tapeout.Json.field_names
    open_tapeout.Engine.State.state_from open_tapeout.Prelude.insert open_tapeout.Store.append
record_receipt-d1 = refl

record_receipt-IsAcknowledged_example :
    IsAcknowledged platform codec sent acknowledged receipt senders evening "foundry"
record_receipt-IsAcknowledged_example =
    record_receipt-IsAcknowledged platform codec sent acknowledged receipt senders evening "foundry"
      record_receipt-d1

-- ===== src/Bundle/Seal.antt =====
-- `seal` of bundle.py: a release, signed, packed, verified and recorded under the ledger's lock.
use open_tapeout.Prelude.{
  ℕ, String, true, not, none, List, [], ◌∷◌, has, lookup, insert, sorted, to_set, str_le, Dict,
  if◌then◌else◌,
}
use open_tapeout.Result.{Result, ok, ensure, ◌>>=◌, ◌>>◌}
use open_tapeout.Json.{get, is_text}
use open_tapeout.Util.{identifier}
use open_tapeout.Records.{Envelope, Delivery, Candidate, Policy, Trust, Platform}
use open_tapeout.Signing.{PrivateKey, sign, verify}
use open_tapeout.Graph.Drift.{Workspace}
use open_tapeout.Store.{Codec, Transaction, Checkpoint, append}
use open_tapeout.Engine.State.{State, Release, Payload, release_sealed, state_from}
use open_tapeout.Engine.Scope.{object_refs}
use open_tapeout.Engine.Release.{active_approvals, gate}
use open_tapeout.Delivery.Seal.{verify_object, known_candidate}
use open_tapeout.Archive.{FileEntry, Packing, write_archive, object_member, delivery_member}
use open_tapeout.Bundle.Manifest.{ReleaseManifest, release_statement}
use open_tapeout.Bundle.Verify.{max_total, verify_bundle}

-- `[a for a in approvals if a["payload"]["candidate_sha256"] == checksum]`
unfoldable pub approvals_for : String → List Envelope → Result (List Envelope)
approvals_for checksum [] = ok []
approvals_for checksum (a ∷ rest) = do
  of ← get "candidate_sha256" a.payload
  others ← approvals_for checksum rest
  ok (if is_text checksum of then a ∷ others else others)

-- `sorted(approvals, key=digest)`
unfoldable pub insert_approval : Platform → Envelope → List Envelope → List Envelope
insert_approval p a [] = a ∷ []
insert_approval p a (b ∷ rest) =
    if str_le (p.digest_envelope a) (p.digest_envelope b)
    then a ∷ b ∷ rest
    else b ∷ insert_approval p a rest

unfoldable pub sorted_approvals : Platform → List Envelope → List Envelope
unfolding insert_approval
sorted_approvals p [] = []
sorted_approvals p (a ∷ rest) = insert_approval p a (sorted_approvals p rest)

-- The dictionaries `sources`, with an object's digest for its path, `files` and `object_index`.
pub record Collected : Type 0 where
  pub sources : Dict String
  pub files : Dict FileEntry
  pub object_index : Dict String

-- `for checksum in sorted(object_refs(candidate))`
unfoldable pub collect_objects :
    Packing ReleaseManifest → Workspace → List String → Collected → Result Collected
collect_objects packing w [] t = ok t
collect_objects packing w (checksum ∷ rest) t = do
  verify_object w checksum
  size ← packing.object_size checksum
  let member = object_member checksum
  collect_objects packing w rest (record {
    sources = insert member checksum t.sources;
    files = insert member (record { sha256 = checksum; size = size }) t.files;
    object_index = insert checksum member t.object_index;
  })

-- `for delivery in candidate["deliveries"]`
unfoldable pub collect_deliveries : Workspace → List Delivery → Collected → Result Collected
collect_deliveries w [] t = ok t
collect_deliveries w (d ∷ rest) t = do
  verify_object w d.sha256
  let member = delivery_member d.name
  collect_deliveries w rest (record t {
    sources = insert member d.sha256 t.sources;
    files = insert member (record { sha256 = d.sha256; size = d.size }) t.files;
  })

unfoldable pub collect : Packing ReleaseManifest → Workspace → Candidate → Result Collected
unfolding collect_objects collect_deliveries
collect packing w candidate = do
  refs ← object_refs candidate
  t ←
      collect_objects packing w (sorted (to_set refs))
        (record { sources = []; files = []; object_index = [] })
  collect_deliveries w candidate.deliveries t

module _ (p : Platform) (c : Codec String Payload) (packing : Packing ReleaseManifest) where
  -- The candidate, if its name is free and the gate passes, with the head of the ledger.
  unfoldable pub sealable :
      Workspace
      → Transaction c
      → State
      → String
      → Policy
      → Trust
      → String
      → Result (Candidate × Checkpoint c)
  unfolding known_candidate
  sealable w tx s name policy trust now = do
    ensure (not (has name s.releases)) "Release already sealed; use a new candidate name"
    (report, head) ← gate p w c tx name policy trust now true
    ensure report.ready "Release blocked"
    candidate ← known_candidate (lookup name s.candidates)
    ok (candidate, head)

  -- The manifest of the release, with the sources of its archive.
  unfoldable pub release_manifest :
      Workspace
      → State
      → Candidate
      → Checkpoint c
      → Policy
      → String
      → Result (ReleaseManifest × Dict String)
  unfolding collect approvals_for sorted_approvals
  release_manifest w s candidate head policy now = do
    approvals ← approvals_for (p.digest_candidate candidate) (active_approvals p s)
    t ← collect packing w candidate
    ok (
      record {
        schema = "opentapeout.release/v1";
        created_at = now;
        candidate = candidate;
        candidate_sha256 = p.digest_candidate candidate;
        approvals = sorted_approvals p approvals;
        checkpoint = (head.seq, head.hash);
        files = t.files;
        object_index = t.object_index;
        policy = policy;
        disclosure = "full evidence: may include confidential design/PDK material";
      },
      t.sources,
    )

  -- The archive with its signature and signer, verified as a recipient does, and the gate once more:
  -- `later` is the workspace then.
  unfoldable pub pack_release :
      Workspace
      → PrivateKey
      → Transaction c
      → String
      → ReleaseManifest
      → Dict String
      → Policy
      → Trust
      → String
      → Result (Envelope × String × String × ℕ)
  unfolding release_statement sign write_archive
  pack_release later key tx name manifest sources policy trust now = do
    let envelope = sign key (release_statement packing manifest)
    (_, principal) ← verify p trust envelope "release" "opentapeout.release-signature/v1"
    (archive, checksum, size) ← packing.zip_file (write_archive manifest envelope sources)
    _ ← verify_bundle p packing policy trust max_total none 0 now (ok archive)
    (report, _) ← gate p later c tx name policy trust now true
    ensure report.ready "Workspace/evidence changed while sealing the archive"
    ok (envelope, principal, checksum, size)

  -- `seal`, without the temporary file and the link to the output; `now` is what every reading of the
  -- clock gives.
  unfoldable pub seal :
      Workspace
      → Workspace
      → PrivateKey
      → Transaction c
      → String
      → Policy
      → Trust
      → String
      → Result (Release × Transaction c)
  unfolding sealable release_manifest pack_release
  seal w later key tx name policy trust now = do
    _ ← identifier name
    s ← state_from p tx.events
    (candidate, head) ← sealable w tx s name policy trust now
    (manifest, sources) ← release_manifest w s candidate head policy now
    (envelope, principal, checksum, size) ←
        pack_release later key tx name manifest sources policy trust now
    let sealed : Release = record {
      id = name;
      archive_sha256 = checksum;
      archive_size = size;
      manifest_sha256 = packing.digest_manifest manifest;
      candidate_sha256 = p.digest_candidate candidate;
      sealed_at = now;
      signature = envelope;
    }
    (_, tx') ← append c "release.sealed" (release_sealed sealed) principal now tx
    ok (sealed, tx')

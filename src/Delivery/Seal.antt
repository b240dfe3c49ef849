-- ===== src/Delivery/Seal.antt =====
-- `seal_delivery` of delivery.py: a capsule, signed, packed, verified and recorded.
use open_tapeout.Prelude.{
  ℕ, ◌+◌, String, Bool, true, not, Option, none, some, List, [], ◌∷◌, Dict, lookup, has, contains,
  find, str_eq, leb, if◌then◌else◌,
}
use open_tapeout.Result.{Result, ok, err, tapeout, key_error, ensure, known, ◌>>=◌, ◌>>◌}
use open_tapeout.Util.{identifier}
use open_tapeout.Records.{Envelope, Delivery, Candidate, Policy, Trust, Platform}
use open_tapeout.Signing.{PrivateKey, sign, verify}
use open_tapeout.Graph.Drift.{Workspace}
use open_tapeout.Store.{Codec, Transaction, append}
use open_tapeout.Engine.State.{State, Release, SealedDelivery, Payload, delivery_sealed, state_from}
use open_tapeout.Engine.Release.{gate}
use open_tapeout.Archive.{FileEntry, write_archive, delivery_member}
use open_tapeout.Delivery.Disclosed.{DisclosedFile, Disclosure}
use open_tapeout.Delivery.Capsule.{Manifest, Packing, signature_statement, verify_delivery}

-- `verify_object`
unfoldable pub verify_object : Workspace → String → Result (Unit {0})
verify_object w checksum = elim (w.object_error checksum) [
  | none ↦ ok tt
  | some reason ↦ err (tapeout reason)
]

-- `"gds" if ... in {".gds", ".gdsii"} else "oas"`
abbrev pub is_gds : Platform → String → Bool
is_gds p name = contains (p.suffix name) (".gds" ∷ ".gdsii" ∷ [])

abbrev pub same_format : Platform → String → String → Bool
same_format p a b = if is_gds p a then is_gds p b else not (is_gds p b)

-- `sum(f["size"] for f in files.values())`
unfoldable pub total_files : Dict FileEntry → ℕ
total_files [] = 0
total_files ((name, f) ∷ rest) = f.size + total_files rest

-- The digests of the objects that the members of the archive are written from.
unfoldable pub sources_of : Dict FileEntry → Dict String
sources_of [] = []
sources_of ((name, f) ∷ rest) = (name, f.sha256) ∷ sources_of rest

module _ (p : Platform) (w : Workspace) where
  -- One file of the capsule: its member, and the entry of the manifest.
  unfoldable pub select_file : List Delivery → DisclosedFile → Result (String × FileEntry)
  unfolding known
  select_file declared item = do
    entry ←
        known (find (λ d. str_eq d.name item.delivery) declared)
          "Disclosure may only select declared candidate deliveries, not raw evidence"
    ensure (same_format p entry.name item.name) "Renaming cannot convert GDS to OASIS or vice versa"
    ensure (str_eq entry.sha256 item.sha256) "Disclosure is pinned to different artifact bytes"
    verify_object w entry.sha256
    ok (delivery_member item.name, record { sha256 = entry.sha256; size = entry.size })

  -- The names of the disclosure differ, so each file is a new key.
  unfoldable pub select_files : List Delivery → List DisclosedFile → Result (Dict FileEntry)
  unfolding select_file
  select_files declared [] = ok []
  select_files declared (item ∷ rest) = do
    f ← select_file declared item
    others ← select_files declared rest
    ok (f ∷ others)

  -- The manifest of the capsule, once the files are selected.
  unfoldable pub manifest_of :
      Packing → Release → Candidate → String → Disclosure → String → Result Manifest
  unfolding select_files total_files
  manifest_of packing release candidate delivery_id disclosure now = do
    files ← select_files candidate.deliveries disclosure.files
    ensure (leb (total_files files) disclosure.max_bytes) "Disclosure exceeds byte budget"
    ok (record {
      schema = "opentapeout.delivery/v1";
      delivery_id = delivery_id;
      project_id = candidate.project_id;
      created_at = now;
      recipient = disclosure.recipient;
      candidate_sha256 = p.digest_candidate candidate;
      source_archive_sha256 = release.archive_sha256;
      source_manifest_sha256 = release.manifest_sha256;
      disclosure_sha256 = packing.digest_disclosure disclosure;
      files = files;
    })

-- `state["candidates"][release_id]`
unfoldable pub known_candidate : Option Candidate → Result Candidate
known_candidate none = err key_error
known_candidate (some candidate) = ok candidate

module _ (p : Platform) (c : Codec String Payload) (packing : Packing) where
  -- The release, if the gate passes and the ID is free, with its candidate.
  unfoldable pub deliverable :
      Workspace
      → Transaction c
      → State
      → String
      → String
      → Policy
      → Trust
      → String
      → Result (Release × Candidate)
  unfolding known known_candidate
  deliverable w tx s release_id delivery_id policy trust now = do
    ensure (not (has delivery_id s.deliveries)) "Delivery ID already used"
    release ←
        known (lookup release_id s.releases)
          "Seal a full evidence release before creating a delivery capsule"
    (report, _) ← gate p w c tx release_id policy trust now true
    ensure report.ready "Delivery blocked"
    candidate ← known_candidate (lookup release_id s.candidates)
    ok (release, candidate)

  -- The archive with its signature and signer, verified as its recipient does, and the gate once
  -- more: `later` is the workspace then.
  unfoldable pub sign_capsule :
      Workspace
      → PrivateKey
      → Transaction c
      → String
      → Disclosure
      → Manifest
      → Policy
      → Trust
      → String
      → Result (Envelope × String × String × ℕ)
  unfolding signature_statement sign write_archive sources_of
  sign_capsule later key tx release_id disclosure manifest policy trust now = do
    let signature = sign key (signature_statement packing manifest)
    (_, principal) ← verify p trust signature "release" "opentapeout.delivery-signature/v1"
    (archive, checksum, size) ←
        packing.zip.zip_file (write_archive manifest signature (sources_of manifest.files))
    _ ← verify_delivery p packing disclosure trust now (ok archive)
    (report, _) ← gate p later c tx release_id policy trust now true
    ensure report.ready "Release changed during delivery packaging"
    ok (signature, principal, checksum, size)

  -- `seal_delivery`, without the files of the archive; the disclosure has passed `validate_disclosure`
  -- and `now` is what every reading of the clock gives.
  unfoldable pub seal_delivery :
      Workspace
      → Workspace
      → PrivateKey
      → Transaction c
      → String
      → String
      → Disclosure
      → Policy
      → Trust
      → String
      → Result (SealedDelivery × Transaction c)
  unfolding deliverable manifest_of sign_capsule
  seal_delivery w later key tx release_id delivery_id disclosure policy trust now = do
    _ ← identifier delivery_id
    s ← state_from p tx.events
    (release, candidate) ← deliverable w tx s release_id delivery_id policy trust now
    manifest ← manifest_of p w packing release candidate delivery_id disclosure now
    (signature, principal, checksum, size) ←
        sign_capsule later key tx release_id disclosure manifest policy trust now
    let sealed : SealedDelivery = record {
      id = delivery_id;
      release_id = release_id;
      project_id = candidate.project_id;
      candidate_sha256 = p.digest_candidate candidate;
      archive_sha256 = checksum;
      archive_size = size;
      manifest_sha256 = packing.zip.digest_manifest manifest;
      recipient = disclosure.recipient;
      disclosure_sha256 = packing.digest_disclosure disclosure;
      sealed_at = now;
      signature = signature;
    }
    (_, tx') ← append c "delivery.sealed" (delivery_sealed sealed) principal now tx
    ok (sealed, tx')

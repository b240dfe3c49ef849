-- ===== src/Bundle/Verify.antt =====
-- `verify_bundle` of bundle.py: the strict offline verification of a release archive.
use open_tapeout.Prelude.{
  ℕ, String, Bool, true, false, ◌&&◌, Option, none, some, List, [], ◌∷◌, ◌++◌, ◌==◌, leb, length,
  str_eq, subset, same_set, Dict, keys, lookup,
}
use open_tapeout.Result.{Result, ok, ensure, ◌>>=◌, ◌>>◌}
use open_tapeout.Json.{str, get, is_text}
use open_tapeout.Util.{max_json_bytes}
use open_tapeout.Util.Paths.{safe_relative}
use open_tapeout.Records.{Envelope, Delivery, Policy, Trust, Platform}
use open_tapeout.Signing.{timestamp, verify}
use open_tapeout.Policy.{Report, evaluate}
use open_tapeout.Lifecycle.Status.{Status, check_candidate_status}
use open_tapeout.Engine.Scope.{object_refs}
use open_tapeout.Archive.{
  Member, Archive, FileEntry, Packing, metadata, names, has_no_repeat, total_size, is_plain_member,
  is_regular, is_stored, getinfo, hash_stream, repackaged, delivery_member,
}
use open_tapeout.Bundle.Manifest.{ReleaseManifest}

-- MAX_MEMBERS, MAX_TOTAL
abbrev pub max_members : ℕ
max_members = 100000

abbrev pub max_total : ℕ
max_total = 1099511627776

-- `for item in infos`
unfoldable pub check_items : List Member → Result (Unit {0})
check_items [] = ok tt
check_items (item ∷ rest) = do
  _ ← safe_relative item.filename
  ensure (is_plain_member item) "Directories/encrypted members are forbidden"
  ensure (is_regular item) "ZIP symlinks/special files are forbidden"
  ensure (is_stored item) "Only uncompressed release archives are supported"
  check_items rest

-- `for name in METADATA`
unfoldable pub check_metadata : List Member → List String → Result (Unit {0})
check_metadata infos [] = ok tt
check_metadata infos (name ∷ rest) = do
  info ← getinfo infos name
  ensure (leb info.file_size max_json_bytes) "Oversized release metadata"
  check_metadata infos rest

unfoldable pub check_members : List Member → ℕ → Result (Unit {0})
unfolding check_items check_metadata
check_members infos budget = do
  ensure (leb 2 (length infos) && leb (length infos) max_members) "Invalid archive member count"
  ensure (has_no_repeat (names infos)) "Duplicate ZIP members"
  ensure (leb (total_size infos) budget) "Archive exceeds uncompressed-size budget"
  check_items infos
  ensure (subset metadata (names infos)) "Release metadata is missing"
  check_metadata infos metadata

-- `for name, entry in files.items()`
unfoldable pub check_files : List Member → Dict FileEntry → Result (Unit {0})
unfolding getinfo hash_stream
check_files infos [] = ok tt
check_files infos ((name, entry) ∷ rest) = do
  _ ← safe_relative name
  info ← getinfo infos name
  ensure (info.file_size == entry.size) "Size mismatch"
  (checksum, size) ← hash_stream info.content entry.size
  ensure (str_eq checksum entry.sha256 && size == entry.size) "Artifact digest mismatch"
  check_files infos rest

-- `member in files and files[member]["sha256"] == checksum`
abbrev pub holds : Option FileEntry → String → Bool
holds none checksum = false
holds (some entry) checksum = str_eq entry.sha256 checksum

-- `for checksum, member in manifest["object_index"].items()`
unfoldable pub check_index : Dict FileEntry → Dict String → Result (Unit {0})
check_index files [] = ok tt
check_index files ((checksum, member) ∷ rest) = do
  ensure (holds (lookup member files) checksum) "Evidence object index mismatch"
  check_index files rest

-- `info == {"sha256": delivery["sha256"], "size": delivery["size"]}`
abbrev pub is_entry : Option FileEntry → Delivery → Bool
is_entry none d = false
is_entry (some entry) d = str_eq entry.sha256 d.sha256 && entry.size == d.size

-- `for delivery in candidate["deliveries"]`
unfoldable pub check_deliveries : Dict FileEntry → List Delivery → Result (Unit {0})
check_deliveries files [] = ok tt
check_deliveries files (d ∷ rest) = do
  name ← safe_relative d.name
  ensure (is_entry (lookup (delivery_member name) files) d) "Delivery manifest mismatch"
  check_deliveries files rest

-- The dictionary that `verify_bundle` returns.
pub record Verified : Type 0 where
  pub candidate_sha256 : String
  pub manifest_sha256 : String
  pub signer : String
  pub objects : ℕ
  pub files : ℕ
  pub gate : Report
  pub release_status : Option Status

-- The members of the archive against the manifest.
unfoldable pub check_contents : List Member → ReleaseManifest → Result (Unit {0})
unfolding check_files check_index check_deliveries
check_contents infos manifest = do
  ensure (same_set (names infos) (keys manifest.files ++ metadata))
      "Missing or unexpected archive members"
  check_files infos manifest.files
  refs ← object_refs manifest.candidate
  ensure (same_set (keys manifest.object_index) refs) "Evidence object set mismatch"
  check_index manifest.files manifest.object_index
  check_deliveries manifest.files manifest.candidate.deliveries

module _ (p : Platform) (packing : Packing ReleaseManifest) where
  -- The signature, which must be on this manifest; its signer is returned.
  unfoldable pub check_signature : Trust → ReleaseManifest → Envelope → Result String
  check_signature trust manifest envelope = do
    (statement, signer) ← verify p trust envelope "release" "opentapeout.release-signature/v1"
    digest ← get "manifest_sha256" statement
    ensure (is_text (packing.digest_manifest manifest) digest) "Manifest signature digest mismatch"
    project ← get "project_id" statement
    ensure (is_text manifest.candidate.project_id project) "Release signature project mismatch"
    created ← get "created_at" statement
    ensure (is_text manifest.created_at created) "Release timestamp mismatch"
    ok signer

  -- The date of the release at the present time `now`, and the digests that bind the manifest to its candidate and policy.
  unfoldable pub check_bindings : Policy → String → ReleaseManifest → Result (Unit {0})
  check_bindings policy now manifest = do
    issued ← timestamp p (str manifest.created_at)
    current ← timestamp p (str now)
    ensure (leb issued current) "Release is future-dated"
    ensure (str_eq (p.digest_candidate manifest.candidate) manifest.candidate_sha256)
        "Candidate digest mismatch"
    ensure
        (str_eq (p.digest_policy manifest.policy) (p.digest_policy policy)
          && str_eq (p.digest_policy policy) manifest.candidate.policy_sha256)
        "External policy does not match signed candidate"

  -- The approvals that the historical gate counts: those that a status statement does not revoke.
  unfoldable pub counted_approvals :
      Trust
      → String
      → ReleaseManifest
      → Option Envelope
      → ℕ
      → Result (List Envelope × Option Status)
  counted_approvals trust now manifest none minimum = ok (manifest.approvals, none)
  counted_approvals trust now manifest (some status) minimum = do
    (approvals, result) ←
        check_candidate_status p trust manifest.candidate manifest.approvals status minimum now
    ok (approvals, some result)

  unfoldable pub historical_gate : Policy → Trust → ReleaseManifest → List Envelope → Result Report
  historical_gate policy trust manifest approvals = do
    report ← evaluate p manifest.candidate policy trust approvals manifest.created_at true
    ensure report.ready "Signed release fails historical gate"
    ok report

  -- The archive, once its members are tested.
  unfoldable pub check_release :
      Policy
      → Trust
      → List Member
      → ReleaseManifest
      → Envelope
      → Option Envelope
      → ℕ
      → String
      → Result Verified
  unfolding check_signature check_bindings counted_approvals historical_gate check_contents
  check_release policy trust infos manifest envelope status minimum now = do
    ensure (str_eq manifest.schema "opentapeout.release/v1") "Unsupported release schema"
    signer ← check_signature trust manifest envelope
    check_bindings policy now manifest
    (approvals, status_result) ← counted_approvals trust now manifest status minimum
    report ← historical_gate policy trust manifest approvals
    check_contents infos manifest
    ok (record {
      candidate_sha256 = p.digest_candidate manifest.candidate;
      manifest_sha256 = packing.digest_manifest manifest;
      signer = signer;
      objects = length manifest.object_index;
      files = length manifest.files;
      gate = report;
      release_status = status_result;
    })

  -- The body of `with zipfile.ZipFile(path) as archive`
  unfoldable pub check_archive :
      Policy → Trust → ℕ → Option Envelope → ℕ → String → Archive ReleaseManifest → Result Verified
  unfolding check_members check_release
  check_archive policy trust budget status minimum now archive = do
    check_members archive.infolist budget
    manifest ← archive.manifest
    envelope ← archive.signature
    check_release policy trust archive.infolist manifest envelope status minimum now

  -- The policy has passed `validate_policy`; `opened` is what opening the file gives.
  unfoldable pub verify_bundle :
      Policy
      → Trust
      → ℕ
      → Option Envelope
      → ℕ
      → String
      → Result (Archive ReleaseManifest)
      → Result Verified
  unfolding check_archive repackaged
  verify_bundle policy trust budget status minimum now opened = do
    ensure (elim status [ none ↦ minimum == 0 | some _ ↦ true ])
        "A status statement is required for anti-replay verification"
    repackaged "Invalid release package"
        (opened >>= check_archive policy trust budget status minimum now)

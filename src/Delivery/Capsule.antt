-- ===== src/Delivery/Capsule.antt =====
-- `verify_delivery` of delivery.py: what a recipient tests of a delivery capsule.
use open_tapeout.Prelude.{
  ℕ, ◌+◌, String, ◌&&◌, none, some, List, [], ◌∷◌, ◌++◌, ◌==◌, leb, ltb, length, str_eq, contains,
  same_set, Dict, keys, lookup, if◌then◌else◌,
}
use open_tapeout.Result.{Result, ok, err, ensure, key_error, ◌>>=◌, ◌>>◌}
use open_tapeout.Json.{str, Fields, end, field, get, field_names, is_text}
use open_tapeout.Util.{identifier, is_hex}
use open_tapeout.Util.{max_json_bytes}
use open_tapeout.Util.Paths.{safe_relative}
use open_tapeout.Records.{Envelope, Trust, Platform}
use open_tapeout.Signing.{timestamp, verify}
use open_tapeout.Archive.{
  Member, Archive, FileEntry, metadata, names, has_no_repeat, total_size, is_plain_member,
  is_regular, is_stored, getinfo, hash_stream, repackaged, delivery_member,
}
use open_tapeout.Archive as Zip
use open_tapeout.Delivery.Disclosed.{DisclosedFile, Disclosure}

-- The manifest of a capsule; the type has just the keys that it must have.
pub record Manifest : Type 0 where
  pub schema : String
  pub delivery_id : String
  pub project_id : String
  pub created_at : String
  pub recipient : String
  pub candidate_sha256 : String
  pub source_archive_sha256 : String
  pub source_manifest_sha256 : String
  pub disclosure_sha256 : String
  pub files : Dict FileEntry

-- The digest of a disclosure, and what archive.py takes of `zipfile` and of the store.
pub record Packing : Type 0 where
  pub digest_disclosure : Disclosure → String
  pub zip : Zip.Packing Manifest

unfoldable pub signature_statement : Packing → Manifest → Fields
signature_statement packing manifest = field "created_at" (str manifest.created_at) (
    field "manifest_sha256" (str (packing.zip.digest_manifest manifest)) (
      field "project_id" (str manifest.project_id)
        (field "type" (str "opentapeout.delivery-signature/v1") end)))

-- `{"delivery/" + item["name"]: item["sha256"] for item in disclosure["files"]}`
unfoldable pub expected_files : List DisclosedFile → Dict String
expected_files [] = []
expected_files (item ∷ rest) = (delivery_member item.name, item.sha256) ∷ expected_files rest

-- `for info in infos`
unfoldable pub check_capsule_items : ℕ → List Member → Result (Unit {0})
check_capsule_items max_bytes [] = ok tt
check_capsule_items max_bytes (info ∷ rest) = do
  _ ← safe_relative info.filename
  ensure (is_plain_member info && is_regular info && is_stored info) "Unsafe delivery ZIP member"
  ensure
      (leb info.file_size (if contains info.filename metadata then max_json_bytes else max_bytes))
      "Delivery member exceeds size budget"
  check_capsule_items max_bytes rest

-- `sum(i.file_size for i in infos if i.filename not in METADATA)`
unfoldable pub delivered_size : List Member → ℕ
delivered_size [] = 0
delivered_size (info ∷ rest) =
    (if contains info.filename metadata then 0 else info.file_size) + delivered_size rest

unfoldable pub check_capsule_members : Disclosure → List Member → Result (Unit {0})
unfolding expected_files check_capsule_items delivered_size
check_capsule_members disclosure infos = do
  ensure (ltb 2 (length infos) && leb (length infos) 1002) "Invalid delivery archive member count"
  ensure (has_no_repeat (names infos)) "Duplicate ZIP members"
  ensure (same_set (names infos) (metadata ++ keys (expected_files disclosure.files)))
      "Unexpected or missing members: disclosure is an exact allowlist"
  check_capsule_items disclosure.max_bytes infos
  ensure (leb (delivered_size infos) disclosure.max_bytes) "Delivery exceeds disclosure byte budget"

-- `manifest["files"][name]`
unfoldable pub file_entry : Dict FileEntry → String → Result FileEntry
file_entry files name = elim (lookup name files) [ none ↦ err key_error | some entry ↦ ok entry ]

-- `for name, checksum in expected.items()`
unfoldable pub check_expected_files :
    ℕ → List Member → Dict FileEntry → Dict String → Result (Unit {0})
unfolding file_entry getinfo hash_stream
check_expected_files max_bytes infos files [] = ok tt
check_expected_files max_bytes infos files ((name, checksum) ∷ rest) = do
  entry ← file_entry files name
  info ← getinfo infos name
  ensure (leb entry.size max_bytes && entry.size == info.file_size && str_eq entry.sha256 checksum)
      "Delivery file entry mismatch"
  (observed, size) ← hash_stream info.content entry.size
  ensure (str_eq observed checksum && size == entry.size) "Delivery artifact digest mismatch"
  check_expected_files max_bytes infos files rest

module _ (p : Platform) (packing : Packing) where
  unfoldable pub check_capsule_signature : Trust → Manifest → Envelope → Result String
  check_capsule_signature trust manifest envelope = do
    (statement, signer) ← verify p trust envelope "release" "opentapeout.delivery-signature/v1"
    ensure
        (same_set (field_names statement)
          ("type" ∷ "project_id" ∷ "created_at" ∷ "manifest_sha256" ∷ []))
        "Unexpected signature fields"
    digest ← get "manifest_sha256" statement
    ensure (is_text (packing.zip.digest_manifest manifest) digest)
        "Delivery manifest signature mismatch"
    project ← get "project_id" statement
    created ← get "created_at" statement
    ensure (is_text manifest.project_id project && is_text manifest.created_at created)
        "Delivery signature scope mismatch"
    ok signer

  -- `now` is the present time.
  unfoldable pub check_capsule_manifest : Disclosure → String → Manifest → Result (Unit {0})
  check_capsule_manifest disclosure now manifest = do
    issued ← timestamp p (str manifest.created_at)
    current ← timestamp p (str now)
    ensure (leb issued current) "Future-dated delivery"
    _ ← identifier manifest.delivery_id
    _ ← identifier manifest.project_id
    ensure
        (is_hex manifest.candidate_sha256
          && is_hex manifest.source_archive_sha256
          && is_hex manifest.source_manifest_sha256
          && is_hex manifest.disclosure_sha256)
        "Invalid delivery digest"
    ensure
        (str_eq manifest.disclosure_sha256 (packing.digest_disclosure disclosure)
          && str_eq manifest.recipient disclosure.recipient)
        "Delivery recipient or external disclosure policy mismatch"
    ensure (same_set (keys manifest.files) (keys (expected_files disclosure.files)))
        "Delivery file index mismatch"

  -- The manifest and its signer.
  unfoldable pub check_capsule :
      Disclosure → Trust → String → Archive Manifest → Result (String × Manifest)
  unfolding check_capsule_members check_capsule_signature check_capsule_manifest
      check_expected_files
  check_capsule disclosure trust now archive = do
    check_capsule_members disclosure archive.infolist
    manifest ← archive.manifest
    envelope ← archive.signature
    ensure (str_eq manifest.schema "opentapeout.delivery/v1") "Invalid delivery manifest"
    signer ← check_capsule_signature trust manifest envelope
    check_capsule_manifest disclosure now manifest
    check_expected_files disclosure.max_bytes archive.infolist manifest.files
        (expected_files disclosure.files)
    ok (signer, manifest)

  -- The disclosure has passed `validate_disclosure`; `opened` is what opening the file gives.
  unfoldable pub verify_delivery :
      Disclosure → Trust → String → Result (Archive Manifest) → Result (String × Manifest)
  unfolding check_capsule repackaged
  verify_delivery disclosure trust now opened =
      repackaged "Invalid delivery package" (opened >>= check_capsule disclosure trust now)

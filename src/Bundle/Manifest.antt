-- ===== src/Bundle/Manifest.antt =====
-- The manifest of a release of bundle.py, as a record: `seal` says which keys it has.
use open_tapeout.Prelude.{ℕ, String, List, Dict}
use open_tapeout.Json.{str, Fields, end, field}
use open_tapeout.Records.{Envelope, Candidate, Policy}
use open_tapeout.Archive.{FileEntry, Packing}

-- `checkpoint` is the sequence number and the hash of the ledger's head.
pub record ReleaseManifest : Type 0 where
  pub schema : String
  pub created_at : String
  pub candidate : Candidate
  pub candidate_sha256 : String
  pub approvals : List Envelope
  pub checkpoint : ℕ × String
  pub files : Dict FileEntry
  pub object_index : Dict String
  pub policy : Policy
  pub disclosure : String

-- The statement that `seal` signs, its keys in order.
unfoldable pub release_statement : Packing ReleaseManifest → ReleaseManifest → Fields
release_statement packing manifest = field "created_at" (str manifest.created_at) (
    field "manifest_sha256" (str (packing.digest_manifest manifest)) (
      field "project_id" (str manifest.candidate.project_id)
        (field "type" (str "opentapeout.release-signature/v1") end)))

-- ===== src/Records.antt =====
-- The dictionaries that the program builds and keeps, as records: engine.py, policy.py, parsers.py
-- and signing.py say which keys each has. Signed payloads and metadata come from outside and stay
-- JSON objects. `Platform` holds what is not the program's own: hashing, dates, base64 and Ed25519.
use open_tapeout.Prelude.{ℕ, String, Bool, Option, List, Dict, ℤ}
use open_tapeout.Json.{Number, Fields}

pub record Resource : Type 0 where
  pub kind : String
  pub sha256 : String
  pub size : ℕ
  pub path : Option String
  pub metadata : Fields
  pub depends_on : List String
  pub built_from : Dict String

pub record Violation : Type 0 where
  pub rule : String
  pub location : String
  pub message : String
  pub severity : String
  pub fingerprint : String

-- The normalised report of a run.
pub record Outcome : Type 0 where
  pub status : String
  pub complete : Bool
  pub metrics : Dict Number
  pub violations : List Violation

pub record ExecutionIdentity : Type 0 where
  pub path : String
  pub sha256 : String
  pub size : ℕ
  pub unchanged : Bool

-- The payload of `run.completed`.
pub record Completion : Type 0 where
  pub completed_at : String
  pub exit_code : ℤ
  pub capture_mode : String
  pub report_sha256 : Option String
  pub format : String
  pub parser_error : Option String
  pub result : Outcome
  pub input_drift : List String
  pub stdout_sha256 : Option String
  pub stderr_sha256 : Option String
  pub execution_identity : Option ExecutionIdentity

-- The payload of `run.started`, with what `run.completed` adds; `completed_at` is null while there
-- is no completion.
pub record Run : Type 0 where
  pub id : String
  pub kind : String
  pub corner : String
  pub tool : String
  pub roots : List String
  pub snapshot : Dict String
  pub started_at : String
  pub tool_spec : Fields
  pub sequence : ℕ
  pub completion : Option Completion

-- A signed statement.
pub record Envelope : Type 0 where
  pub payload : Fields
  pub key_id : String
  pub signature : String

pub record Delivery : Type 0 where
  pub name : String
  pub resource_id : String
  pub sha256 : String
  pub size : ℕ

pub record Candidate : Type 0 where
  pub project_id : String
  pub project_name : String
  pub name : String
  pub created_at : String
  pub created_by : String
  pub notes : String
  pub deliveries : List Delivery
  pub resources : Dict Resource
  pub runs : Dict Run
  pub waivers : List Envelope
  pub policy_sha256 : String
  pub trust_sha256 : String

pub record Limits : Type 0 where
  pub min : Option Number
  pub max : Option Number

-- One of `required_checks`. The last four fields are read under policy v2 only.
pub record Requirement : Type 0 where
  pub kind : String
  pub corner : String
  pub required_resource_kinds : List String
  pub max_age_hours : Number
  pub metrics : Dict Limits
  pub input_pins : Dict String
  pub allowed_tools : List String
  pub report_formats : List String
  pub require_pinned_executable : Bool

pub record Policy : Type 0 where
  pub schema : String
  pub required_checks : List Requirement
  pub approval_roles : List String
  pub distinct_approvers : Bool
  pub forbid_self_approval : Bool
  pub max_approval_age_hours : Number
  pub require_managed_runs : Bool
  pub require_delivery : Bool
  pub require_git : Bool
  pub require_hashed_pdk : Bool

pub record KeyEntry : Type 0 where
  pub public_key : String
  pub principal : String
  pub roles : List String
  pub revoked : Bool

-- `sha256` is the digest of the whole trust file.
pub record Trust : Type 0 where
  pub keys : Dict KeyEntry
  pub sha256 : String

-- What hashlib, json, datetime, base64 and cryptography do for the program: `digest` of each
-- document that it hashes, ISO dates as microseconds, `timedelta(hours=h)` in microseconds,
-- `str.strip`, `Path(name).suffix.lower()`, and the check of an Ed25519 signature over the domain prefix and a payload.
pub record Platform : Type 0 where
  pub digest_node : Resource → Dict String → String
  pub digest_metadata : Fields → String
  pub digest_run : Run → String
  pub digest_envelope : Envelope → String
  pub digest_candidate : Candidate → String
  pub digest_policy : Policy → String
  pub parse_timestamp : String → Option ℕ
  pub hours : Number → ℕ
  pub strip : String → String
  pub suffix : String → String
  pub is_signed : String → Fields → String → Bool

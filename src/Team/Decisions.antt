-- ===== src/Team/Decisions.antt =====
-- `_apply` of src/opentapeout/team.py: the four actions of a team command.
use open_tapeout.Prelude.{
  ◌+◌, String, false, ◌&&◌, ◌||◌, not, Option, none, some, [], ◌∷◌, Dict, lookup, has, contains,
  any, find, str_eq, leb, length, if◌then◌else◌,
}
use open_tapeout.Result.{Result, ok, err, tapeout, ensure, require, known, ◌>>=◌, ◌>>◌}
use open_tapeout.Json.{
  Json, str, obj, Fields, end, field, get, get?, field_is, field_names, json_eq,
}
use open_tapeout.Util.{codes, identifier}
use open_tapeout.Records.{Envelope, Candidate, Policy, Trust, Platform}
use open_tapeout.Signing.{timestamp, verify}
use open_tapeout.Graph.Drift.{Workspace}
use open_tapeout.Store.{Codec, Transaction, append}
use open_tapeout.Engine.State.{State, Payload, approval_signed, approval_revoked, release_withdrawn}
use open_tapeout.Engine.Release.{gate, project_id, create_candidate}
use open_tapeout.Lifecycle.{find_approval, revocation_role}
use open_tapeout.Team.Access.{fields, text, max_validity}

-- The statement of a decision as an envelope. A signature that is no text is refused here, before
-- the key is looked up.
unfoldable pub envelope_of : Fields → Fields → String → Result Envelope
unfolding fields text
envelope_of statement payload key_id = do
  _ ← fields (obj statement) ("payload" ∷ "key_id" ∷ "signature" ∷ [])
  signature ← get "signature" statement
  signed ← text signature "Untrusted key, malformed statement or invalid signature"
  ok (record { payload = payload; key_id = key_id; signature = signed })

unfoldable pub string_values : Fields → Result (Dict String)
string_values end = ok []
string_values (field k (str v) rest) = do others ← string_values rest; ok ((k, v) ∷ others)
string_values (field k _ rest) = err (tapeout "Delivery aliases must map to existing resource IDs")

-- `isinstance(params["deliveries"], dict)` with at most 1000 texts
unfoldable pub deliveries_of : Json → Result (Dict String)
unfolding string_values
deliveries_of (obj f) = do
  ensure (leb (length (field_names f)) 1000) "Delivery aliases must map to existing resource IDs"
  string_values f
deliveries_of _ = err (tapeout "Delivery aliases must map to existing resource IDs")

-- A decision: its statement, its payload, and the key that must be the command's.
pub record Decision : Type 0 where
  pub statement : Fields
  pub payload : Fields
  pub key_id : String

-- `timestamp(body) - timedelta(seconds=MAX_VALIDITY) <= created <= timestamp(body)`
unfoldable pub is_recent : Platform → Fields → Fields → Result (Unit {0})
is_recent p body payload = do
  created_at ← elim (get? "created_at" payload) [
    | some v ↦ ok v
    | none ↦ err (tapeout "Timestamp must be ISO 8601 with a timezone")
  ]
  created ← timestamp p created_at
  issued_at ← get "created_at" body
  issued ← timestamp p issued_at
  ensure (leb issued (created + max_validity) && leb created issued)
      "Decision timestamp must be recent and no later than its command"

-- What `_apply` tests before it looks at the action of a decision.
unfoldable pub open_decision : Platform → State → Fields → Fields → String → Result Decision
unfolding fields is_recent
open_decision p s body parameters command_key_id = do
  f ← fields (obj parameters) ("statement" ∷ [])
  statement ← get "statement" f
  envelope ← elim statement [
    | obj e ↦ ok e
    | _ ↦ err (tapeout "Decision must be signed with the same key as the command")
  ]
  ensure (field_is "key_id" command_key_id envelope)
      "Decision must be signed with the same key as the command"
  payload ← elim (get? "payload" envelope) [
    | some (obj f) ↦ ok f
    | _ ↦ err (tapeout "Decision payload required")
  ]
  project ← project_id s
  ensure (field_is "project_id" project payload) "Decision project mismatch"
  is_recent p body payload
  ok (record { statement = envelope; payload = payload; key_id = command_key_id })

module _ (p : Platform) where
  -- `next((n for n, c in state["candidates"].items() if digest(c) == ...), None)`
  unfoldable pub find_candidate : String → Dict Candidate → Option (String × Candidate)
  find_candidate digest = find (λ e. str_eq (p.digest_candidate e.1) digest)

  -- An approval, if its fields and its signature are in order: the envelope and the reviewer.
  unfoldable pub open_approval : Policy → Trust → Decision → Result (Envelope × String)
  unfolding fields text envelope_of
  open_approval policy trust d = do
    _ ←
        fields (obj d.payload)
          ("type" ∷ "project_id" ∷ "candidate_sha256" ∷ "role" ∷ "decision" ∷ "created_at" ∷ [])
    named ← get "role" d.payload
    role ← text named "Approval role/decision is not required by policy"
    ensure (contains role policy.approval_roles && field_is "decision" "approve" d.payload)
        "Approval role/decision is not required by policy"
    envelope ← envelope_of d.statement d.payload d.key_id
    (_, reviewer) ← verify p trust envelope role "opentapeout.approval/v1"
    ok (envelope, reviewer)

  unfoldable pub is_reason : Fields → Result (Unit {0})
  is_reason payload = elim (get? "reason" payload) [
    | some (str s) ↦
        ensure (leb 12 (length (codes (p.strip s))) && leb (length (codes (p.strip s))) 4000)
          "Decision reason must be 12..4000 characters"
    | _ ↦ err (tapeout "Decision reason must be 12..4000 characters")
  ]

  -- The role of a revocation, and the digest of the approval that it takes back.
  unfoldable pub open_revocation : State → Trust → Decision → Result (Envelope × String × String)
  unfolding fields text envelope_of find_approval revocation_role known
  open_revocation s trust d = do
    _ ← fields (obj d.payload) (
        "type" ∷ "project_id" ∷ "approval_sha256" ∷ "candidate_sha256" ∷ "reason" ∷ "created_at"
        ∷ [])
    named ← get "approval_sha256" d.payload
    k ← text named "Unknown approval"
    approval ← known (find (λ a. str_eq (p.digest_envelope a) k) s.approvals) "Unknown approval"
    ensure (not (has k s.revoked_approvals)) "Approval already revoked"
    original ←
        known (lookup approval.key_id trust.keys) "Retain original reviewer key in trust store"
    theirs ← get "candidate_sha256" approval.payload
    ours ← get "candidate_sha256" d.payload
    ensure (json_eq ours theirs) "Revocation candidate mismatch"
    role ← revocation_role trust d.key_id approval
    envelope ← envelope_of d.statement d.payload d.key_id
    (_, reviewer) ← verify p trust envelope role "opentapeout.approval-revocation/v1"
    require (str_eq role "release-admin" || str_eq reviewer original.principal) "PERMISSION_DENIED"
        "Only original reviewer or release-admin may revoke approval" 403
    ok (envelope, reviewer, k)

  unfoldable pub open_withdrawal : State → Trust → Decision → Result (Envelope × String × String)
  unfolding fields text envelope_of known
  open_withdrawal s trust d = do
    _ ← fields (obj d.payload) (
        "type" ∷ "project_id" ∷ "release_id" ∷ "candidate_sha256" ∷ "archive_sha256" ∷ "reason"
        ∷ "created_at" ∷ [])
    named ← get "release_id" d.payload
    release_id ← text named "Release ID required"
    release ← known (lookup release_id s.releases) "Unknown sealed release"
    ensure
        (field_is "candidate_sha256" release.candidate_sha256 d.payload
          && field_is "archive_sha256" release.archive_sha256 d.payload)
        "Release bytes/digest mismatch"
    ensure (not (has release.candidate_sha256 s.withdrawals)) "Release already withdrawn"
    envelope ← envelope_of d.statement d.payload d.key_id
    (_, reviewer) ← verify p trust envelope "release" "opentapeout.release-withdrawal/v1"
    ok (envelope, reviewer, release_id)

module _ (p : Platform) (w : Workspace) (c : Codec String Payload) where
  unfoldable pub apply_creation :
      Transaction c → Fields → Policy → Trust → String → String → Result (Fields × Transaction c)
  unfolding fields text deliveries_of
  apply_creation tx parameters policy trust principal now = do
    f ← fields (obj parameters) ("name" ∷ "notes" ∷ "deliveries" ∷ [])
    given ← get "deliveries" f
    deliveries ← deliveries_of given
    named ← get "name" f
    name ← text named "Invalid identifier"
    _ ← identifier name
    noted ← get "notes" f
    notes ← text noted "Release notes required"
    (checksum, tx') ← create_candidate p w c tx name notes deliveries policy trust principal now
    ok (field "candidate_sha256" (str checksum) (field "name" (str name) end), tx')

  unfoldable pub apply_approval :
      Transaction c → State → Decision → Policy → Trust → String → Result (Fields × Transaction c)
  unfolding open_approval find_candidate text known
  apply_approval tx s d policy trust now = do
    (envelope, reviewer) ← open_approval p policy trust d
    digest ← get "candidate_sha256" d.payload
    wanted ← text digest "Unknown candidate digest"
    (name, candidate) ← known (find_candidate p wanted s.candidates) "Unknown candidate digest"
    (report, _) ← gate p w c tx name policy trust now false
    require report.ready "EVIDENCE_BLOCKED" "Fresh evidence gate blocks approval" 409
    ensure (not policy.forbid_self_approval || not (str_eq reviewer candidate.created_by))
        "Candidate author cannot approve their own release"
    ensure (not (any (λ a. str_eq (p.digest_envelope a) (p.digest_envelope envelope)) s.approvals))
        "Approval already exists"
    (_, tx') ← append c "approval.signed" (approval_signed envelope) reviewer now tx
    ok (
      field "approval_sha256" (str (p.digest_envelope envelope))
          (field "candidate_sha256" (str wanted) end),
      tx',
    )

  unfoldable pub apply_revocation :
      Transaction c → State → Decision → Trust → String → Result (Fields × Transaction c)
  unfolding open_revocation is_reason
  apply_revocation tx s d trust now = do
    is_reason p d.payload
    (envelope, reviewer, k) ← open_revocation p s trust d
    (_, tx') ← append c "approval.revoked" (approval_revoked envelope) reviewer now tx
    ok (field "revoked_approval" (str k) end, tx')

  unfoldable pub apply_withdrawal :
      Transaction c → State → Decision → Trust → String → Result (Fields × Transaction c)
  unfolding open_withdrawal is_reason
  apply_withdrawal tx s d trust now = do
    is_reason p d.payload
    (envelope, reviewer, release_id) ← open_withdrawal p s trust d
    (_, tx') ← append c "release.withdrawn" (release_withdrawn envelope) reviewer now tx
    ok (field "withdrawn_release" (str release_id) end, tx')

  unfoldable pub apply_decision :
      String
      → Transaction c
      → State
      → Decision
      → Policy
      → Trust
      → String
      → Result (Fields × Transaction c)
  unfolding apply_approval apply_revocation apply_withdrawal
  apply_decision action tx s d policy trust now =
      if str_eq action "approval.submit"
      then apply_approval tx s d policy trust now
      else (if str_eq action "approval.revoke"
          then apply_revocation tx s d trust now
          else apply_withdrawal tx s d trust now)

  -- `_apply`, for an action that is one of the four
  unfoldable pub apply_action :
      String
      → Transaction c
      → State
      → Fields
      → Fields
      → String
      → String
      → Policy
      → Trust
      → String
      → Result (Fields × Transaction c)
  unfolding apply_creation apply_decision open_decision
  apply_action action tx s body parameters command_key_id principal policy trust now =
      if str_eq action "candidate.create"
      then apply_creation tx parameters policy trust principal now
      else (open_decision p s body parameters command_key_id >>= λ d.
          apply_decision action tx s d policy trust now)

-- ===== src/Lifecycle.antt =====
-- src/opentapeout/lifecycle.py: revoking an approval and withdrawing a release.
pub mod Effects
pub mod Status
pub mod Export
pub mod Withdrawn
use open_tapeout.Prelude.{
  String, Bool, false, ◌||◌, not, Option, none, some, List, lookup, has, contains, find, str_eq,
  leb, length, if◌then◌else◌,
}
use open_tapeout.Result.{Result, ok, err, ensure, known, tapeout, ◌>>=◌, ◌>>◌}
use open_tapeout.Json.{Json, str, Fields, end, field, get}
use open_tapeout.Util.{codes}
use open_tapeout.Records.{Envelope, KeyEntry, Trust, Platform}
use open_tapeout.Signing.{PrivateKey, sign, verify}
use open_tapeout.Store.{Codec, Transaction, append}
use open_tapeout.Engine.State.{
  State, Release, Payload, approval_revoked, release_withdrawn, state_from,
}
use open_tapeout.Engine.Release.{project_id}

-- The body of a revocation, its keys in order.
unfoldable pub revocation_statement : String → String → Json → String → String → Fields
revocation_statement project approval_sha256 candidate_sha256 reason now =
    field "approval_sha256" (str approval_sha256) (
      field "candidate_sha256" candidate_sha256 (
        field "created_at" (str now) (
          field "project_id" (str project) (
            field "reason" (str reason)
              (field "type" (str "opentapeout.approval-revocation/v1") end)))))

unfoldable pub withdrawal_statement : String → String → Release → String → String → Fields
withdrawal_statement project release_id release reason now =
    field "archive_sha256" (str release.archive_sha256) (
      field "candidate_sha256" (str release.candidate_sha256) (
        field "created_at" (str now) (
          field "project_id" (str project) (
            field "reason" (str reason) (
              field "release_id" (str release_id)
                (field "type" (str "opentapeout.release-withdrawal/v1") end))))))

-- `trust.keys.get(key_id, {}).get("roles", [])` has the role of an administrator
abbrev pub is_admin : Trust → String → Bool
is_admin trust key_id = elim (lookup key_id trust.keys) [
  | none ↦ false
  | some e ↦ contains "release-admin" e.roles
]

-- The role in which a revocation is signed. No key is authorized for a role that is no text.
unfoldable pub revocation_role : Trust → String → Envelope → Result String
revocation_role trust key_id approval = if is_admin trust key_id then ok "release-admin" else (do
  role ← get "role" approval.payload
  elim role [ str r ↦ ok r | _ ↦ err (tapeout "Signing key is not authorized for role") ])

module _ (p : Platform) (c : Codec String Payload) where
  unfoldable pub find_approval : String → List Envelope → Option Envelope
  find_approval approval_sha256 = find (λ a. str_eq (p.digest_envelope a) approval_sha256)

  -- The approval, if it can be revoked, and the key of its reviewer.
  unfoldable pub revocable : State → String → Trust → Result (Envelope × KeyEntry)
  unfolding find_approval known
  revocable s approval_sha256 trust = do
    approval ← known (find_approval approval_sha256 s.approvals) "Unknown approval"
    ensure (not (has approval_sha256 s.revoked_approvals)) "Approval already revoked"
    original ←
        known (lookup approval.key_id trust.keys)
          "Original reviewer key must remain in trust store (may be revoked)"
    ok (approval, original)

  -- The principal who revokes an approval of the reviewer `original`.
  unfoldable pub authorize_revocation : Trust → Envelope → Envelope → KeyEntry → Result String
  unfolding revocation_role
  authorize_revocation trust envelope approval original = do
    role ← revocation_role trust envelope.key_id approval
    (_, principal) ← verify p trust envelope role "opentapeout.approval-revocation/v1"
    ensure (str_eq role "release-admin" || str_eq principal original.principal)
        "Only the original reviewer or release-admin can revoke this approval"
    ok principal

  unfoldable pub revoke_approval :
      PrivateKey
      → Transaction c
      → String
      → String
      → Trust
      → String
      → Result (Envelope × Transaction c)
  unfolding revocable authorize_revocation revocation_statement sign
  revoke_approval key tx approval_sha256 reason trust now = do
    ensure (leb 12 (length (codes (p.strip reason)))) "Revocation reason requires 12+ characters"
    s ← state_from p tx.events
    (approval, original) ← revocable s approval_sha256 trust
    project ← project_id s
    candidate_sha256 ← get "candidate_sha256" approval.payload
    let envelope =
        sign key (revocation_statement project approval_sha256 candidate_sha256 reason now)
    principal ← authorize_revocation trust envelope approval original
    (_, tx') ← append c "approval.revoked" (approval_revoked envelope) principal now tx
    ok (envelope, tx')

  unfoldable pub withdraw_release :
      PrivateKey
      → Transaction c
      → String
      → String
      → Trust
      → String
      → Result (Envelope × Transaction c)
  unfolding known withdrawal_statement sign
  withdraw_release key tx release_id reason trust now = do
    ensure (leb 12 (length (codes (p.strip reason)))) "Withdrawal reason requires 12+ characters"
    s ← state_from p tx.events
    release ← known (lookup release_id s.releases) "Unknown sealed release"
    ensure (not (has release.candidate_sha256 s.withdrawals))
        "Release already withdrawn; withdrawal is irreversible"
    project ← project_id s
    let envelope = sign key (withdrawal_statement project release_id release reason now)
    (_, principal) ← verify p trust envelope "release" "opentapeout.release-withdrawal/v1"
    (_, tx') ← append c "release.withdrawn" (release_withdrawn envelope) principal now tx
    ok (envelope, tx')

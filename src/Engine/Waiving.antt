-- ===== src/Engine/Waiving.antt =====
-- `waive` and `revoke_waiver` of engine.py: signing a waiver of one violation, and taking it back.
pub mod Counts
use open_tapeout.Prelude.{
  ℕ, String, Bool, true, false, not, Option, none, some, List, [], ◌∷◌, Dict, lookup, has, any,
  sorted, to_set, str_eq, leb, ltb, length,
}
use open_tapeout.Result.{Result, ok, err, tapeout, ensure, known, ◌>>=◌, ◌>>◌}
use open_tapeout.Json.{Json, str, arr, Items, nil, cons, Fields, end, field}
use open_tapeout.Util.{identifier, codes}
use open_tapeout.Records.{Violation, Completion, Run, Envelope, Trust, Platform}
use open_tapeout.Signing.{PrivateKey, sign, timestamp, verify}
use open_tapeout.Graph.Drift.{Workspace}
use open_tapeout.Store.{Codec, Transaction, append}
use open_tapeout.Engine.State.{State, Payload, waiver_signed, waiver_revoked, state_from}
use open_tapeout.Engine.Release.{project_id}

unfoldable pub texts : List String → Items
texts [] = nil
texts (s ∷ rest) = cons (str s) (texts rest)

-- The body of a waiver, its keys in order.
unfoldable pub waiver_statement :
    Platform
    → String
    → String
    → Run
    → String
    → String
    → String
    → String
    → List String
    → String
    → Fields
unfolding texts
waiver_statement p project run_id run fingerprint rationale owner expires_at attachments now =
    field "attachments" (arr (texts (sorted (to_set attachments)))) (
      field "created_at" (str now) (
        field "evidence_sha256" (str (p.digest_run run)) (
          field "expires_at" (str expires_at) (
            field "owner" (str owner) (
              field "project_id" (str project) (
                field "rationale" (str rationale) (
                  field "run_id" (str run_id) (
                    field "type" (str "opentapeout.waiver/v1")
                      (field "violation_fingerprint" (str fingerprint) end)))))))))

unfoldable pub waiver_revocation : String → String → String → String → Fields
waiver_revocation project waiver_sha256 reason now = field "created_at" (str now) (
    field "project_id" (str project) (
      field "reason" (str reason) (
        field "type" (str "opentapeout.waiver-revocation/v1")
          (field "waiver_sha256" (str waiver_sha256) end))))

-- `for checksum in attachments: self.store.verify_object(checksum)`
unfoldable pub verify_attachments : Workspace → List String → Result (Unit {0})
verify_attachments w [] = ok tt
verify_attachments w (checksum ∷ rest) = do
  elim (w.object_error checksum) [ none ↦ ok tt | some reason ↦ err (tapeout reason) ]
  verify_attachments w rest

-- The run, if it has completed with the violation.
unfoldable pub completed_run : State → String → String → Result Run
completed_run s run_id fingerprint = do
  run ← known (lookup run_id s.runs) "Waiver requires completed evidence"
  c ← known run.completion "Waiver requires completed evidence"
  ensure (any (λ v. str_eq v.fingerprint fingerprint) c.result.violations)
      "Violation fingerprint not found"
  ok run

-- What a request for a waiver must say.
unfoldable pub check_request : Platform → String → String → String → String → Result (Unit {0})
check_request p rationale owner expires_at now = do
  ensure (leb 12 (length (codes (p.strip rationale))))
      "Explain the waiver rationale (12+ characters)"
  _ ← identifier owner
  expires ← timestamp p (str expires_at)
  current ← timestamp p (str now)
  ensure (ltb current expires) "Waiver expiration must be in the future"

module _ (p : Platform) (w : Workspace) where
  -- The signed waiver with its reviewer, who must not be its owner.
  unfoldable pub sign_waiver :
      PrivateKey
      → State
      → String
      → String
      → String
      → String
      → String
      → List String
      → Trust
      → String
      → Result (Envelope × String)
  unfolding verify_attachments completed_run waiver_statement sign
  sign_waiver key s run_id fingerprint rationale owner expires_at attachments trust now = do
    run ← completed_run s run_id fingerprint
    verify_attachments w attachments
    project ← project_id s
    let envelope = sign key (
        waiver_statement p project run_id run fingerprint rationale owner expires_at attachments
          now)
    (_, principal) ← verify p trust envelope "waiver" "opentapeout.waiver/v1"
    ensure (not (str_eq principal owner)) "Waiver owner cannot review their own waiver"
    ok (envelope, principal)

module _ (p : Platform) (w : Workspace) (c : Codec String Payload) where
  unfoldable pub waive :
      PrivateKey
      → Transaction c
      → String
      → String
      → String
      → String
      → String
      → List String
      → Trust
      → String
      → Result (Envelope × Transaction c)
  unfolding check_request sign_waiver
  waive key tx run_id fingerprint rationale owner expires_at attachments trust now = do
    check_request p rationale owner expires_at now
    s ← state_from p tx.events
    (envelope, principal) ←
        sign_waiver p w key s run_id fingerprint rationale owner expires_at attachments trust now
    (_, tx') ← append c "waiver.signed" (waiver_signed envelope) principal now tx
    ok (envelope, tx')

  unfoldable pub revoke_waiver :
      PrivateKey
      → Transaction c
      → String
      → String
      → Trust
      → String
      → Result (Envelope × Transaction c)
  unfolding waiver_revocation sign
  revoke_waiver key tx waiver_hash reason trust now = do
    ensure (not (str_eq (p.strip reason) "")) "Revocation reason required"
    s ← state_from p tx.events
    ensure (has waiver_hash s.waivers) "Unknown waiver"
    project ← project_id s
    let envelope = sign key (waiver_revocation project waiver_hash reason now)
    (_, principal) ← verify p trust envelope "waiver" "opentapeout.waiver-revocation/v1"
    (_, tx') ← append c "waiver.revoked" (waiver_revoked envelope) principal now tx
    ok (envelope, tx')

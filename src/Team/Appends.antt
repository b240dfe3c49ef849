-- ===== src/Team/Appends.antt =====
-- Each action of a team command adds one event to the ledger.
use open_tapeout.Prelude.{
  String, false, ◌&&◌, ◌||◌, not, Bool-cases, [], ◌∷◌, ◌++◌, ◌≡◌, ap, subst, inl, inr, Dict, any,
  leb, length, str_eq,
}
use open_tapeout.Result.{ok, known, >>=-eq-ok, ensure-eq-ok, require-eq-ok, ok-injective}
use open_tapeout.Json.{Fields, obj, get}
use open_tapeout.Util.{codes, identifier}
use open_tapeout.Records.{Policy, Trust, Platform}
use open_tapeout.Graph.Drift.{Workspace}
use open_tapeout.Store.{Codec, Transaction, append}
use open_tapeout.Store.Append.{append-events}
use open_tapeout.Engine.State.{
  State, Payload, LedgerEvent, approval_signed, approval_revoked, release_withdrawn,
  candidate_created, state_from,
}
use open_tapeout.Engine.Release.{gate, draft, create_candidate}
use open_tapeout.Team.Access.{fields, text}
use open_tapeout.Team.Decisions.{
  Decision, deliveries_of, is_reason, open_decision, open_approval, open_revocation,
  open_withdrawal, find_candidate, apply_creation, apply_approval, apply_revocation,
  apply_withdrawal, apply_decision, apply_action,
}

module _ (p : Platform) (w : Workspace) (c : Codec String Payload) where
  abbrev pub Appended : Transaction c → Transaction c → Type 0
  Appended tx tx' = (e : LedgerEvent) × (tx'.events ≡ tx.events ++ e ∷ [])

  pub append-Appended :
      (event_type : String) (payload : Payload) (actor now : String) (tx tx' : Transaction c)
      (e : LedgerEvent)
      → append c event_type payload actor now tx ≡ ok (e, tx')
      → Appended tx tx'
  append-Appended event_type payload actor now tx tx' e h =
      (e, (append-events c event_type payload actor now tx tx' e h).0)

  apply_withdrawal-Appended :
      (tx tx' : Transaction c) (s : State) (d : Decision) (trust : Trust) (now : String)
      (result : Fields)
      → apply_withdrawal p w c tx s d trust now ≡ ok (result, tx')
      → Appended tx tx'
  unfolding apply_withdrawal
  apply_withdrawal-Appended tx tx' s d trust now result h =
      let (_, _, h1) = >>=-eq-ok (is_reason p d.payload) _ h in
      let (t, _, h2) = >>=-eq-ok (open_withdrawal p s trust d) _ h1 in
      let (a, added, h3) =
        >>=-eq-ok (append c "release.withdrawn" (release_withdrawn t.0) t.1 now tx) _ h2 in
      subst (Appended tx) (ap (λ (x : Fields × Transaction c). x.1) (ok-injective h3))
        (append-Appended "release.withdrawn" (release_withdrawn t.0) t.1 now tx a.1 a.0 added)

  apply_revocation-Appended :
      (tx tx' : Transaction c) (s : State) (d : Decision) (trust : Trust) (now : String)
      (result : Fields)
      → apply_revocation p w c tx s d trust now ≡ ok (result, tx')
      → Appended tx tx'
  unfolding apply_revocation
  apply_revocation-Appended tx tx' s d trust now result h =
      let (_, _, h1) = >>=-eq-ok (is_reason p d.payload) _ h in
      let (t, _, h2) = >>=-eq-ok (open_revocation p s trust d) _ h1 in
      let (a, added, h3) =
        >>=-eq-ok (append c "approval.revoked" (approval_revoked t.0) t.1 now tx) _ h2 in
      subst (Appended tx) (ap (λ (x : Fields × Transaction c). x.1) (ok-injective h3))
        (append-Appended "approval.revoked" (approval_revoked t.0) t.1 now tx a.1 a.0 added)

  apply_approval-Appended :
      (tx tx' : Transaction c) (s : State) (d : Decision) (policy : Policy) (trust : Trust)
      (now : String) (result : Fields)
      → apply_approval p w c tx s d policy trust now ≡ ok (result, tx')
      → Appended tx tx'
  unfolding apply_approval
  apply_approval-Appended tx tx' s d policy trust now result h =
      let (t, _, h1) = >>=-eq-ok (open_approval p policy trust d) _ h in
      let (digest, _, h2) = >>=-eq-ok (get "candidate_sha256" d.payload) _ h1 in
      let (wanted, _, h3) = >>=-eq-ok (text digest "Unknown candidate digest") _ h2 in
      let (named, _, h4) =
        >>=-eq-ok (known (find_candidate p wanted s.candidates) "Unknown candidate digest") _ h3 in
      let (report, _, h5) = >>=-eq-ok (gate p w c tx named.0 policy trust now false) _ h4 in
      let (_, h6) = require-eq-ok report.0.ready _ _ _ _ h5 in
      let (_, h7) =
        ensure-eq-ok (not policy.forbid_self_approval || not (str_eq t.1 named.1.created_by)) _ _
          h6 in
      let (_, h8) =
        ensure-eq-ok
          (not (any (λ a. str_eq (p.digest_envelope a) (p.digest_envelope t.0)) s.approvals)) _ _
          h7 in
      let (a, added, h9) =
        >>=-eq-ok (append c "approval.signed" (approval_signed t.0) t.1 now tx) _ h8 in
      subst (Appended tx) (ap (λ (x : Fields × Transaction c). x.1) (ok-injective h9))
        (append-Appended "approval.signed" (approval_signed t.0) t.1 now tx a.1 a.0 added)

  apply_decision-Appended :
      (action : String) (tx tx' : Transaction c) (s : State) (d : Decision) (policy : Policy)
      (trust : Trust) (now : String) (result : Fields)
      → apply_decision p w c action tx s d policy trust now ≡ ok (result, tx')
      → Appended tx tx'
  unfolding apply_decision
  apply_decision-Appended action tx tx' s d policy trust now result h =
      elim (Bool-cases (str_eq action "approval.submit")) [
        | inl this ↦ apply_approval-Appended tx tx' s d policy trust now result (rw this at h)
        | inr other ↦ elim (Bool-cases (str_eq action "approval.revoke")) [
          | inl this ↦ apply_revocation-Appended tx tx' s d trust now result (rw (other, this) at h)
          | inr neither ↦
              apply_withdrawal-Appended tx tx' s d trust now result (rw (other, neither) at h)
        ]
      ]

  create_candidate-Appended :
      (tx tx' : Transaction c) (name notes : String) (deliveries : Dict String) (policy : Policy)
      (trust : Trust) (actor now checksum : String)
      → create_candidate p w c tx name notes deliveries policy trust actor now ≡ ok (checksum, tx')
      → Appended tx tx'
  unfolding create_candidate
  create_candidate-Appended tx tx' name notes deliveries policy trust actor now checksum h =
      let (_, _, h1) = >>=-eq-ok (identifier name) _ h in
      let (_, h2) =
        ensure-eq-ok (not (str_eq (p.strip notes) "") && leb (length (codes notes)) 100000) _ _
          h1 in
      let (s, _, h3) = >>=-eq-ok (state_from p tx.events) _ h2 in
      let (candidate, _, h4) =
        >>=-eq-ok (draft p w c s name notes deliveries policy trust actor now) _ h3 in
      let (a, added, h5) =
        >>=-eq-ok (append c "candidate.created" (candidate_created name candidate) actor now tx) _
          h4 in
      subst (Appended tx) (ap (λ (x : String × Transaction c). x.1) (ok-injective h5)) (
        append-Appended "candidate.created" (candidate_created name candidate) actor now tx a.1 a.0
          added)

  apply_creation-Appended :
      (tx tx' : Transaction c) (parameters : Fields) (policy : Policy) (trust : Trust)
      (principal now : String) (result : Fields)
      → apply_creation p w c tx parameters policy trust principal now ≡ ok (result, tx')
      → Appended tx tx'
  unfolding apply_creation
  apply_creation-Appended tx tx' parameters policy trust principal now result h =
      let (f, _, h1) =
        >>=-eq-ok (fields (obj parameters) ("name" ∷ "notes" ∷ "deliveries" ∷ [])) _ h in
      let (given, _, h2) = >>=-eq-ok (get "deliveries" f) _ h1 in
      let (deliveries, _, h3) = >>=-eq-ok (deliveries_of given) _ h2 in
      let (named, _, h4) = >>=-eq-ok (get "name" f) _ h3 in
      let (name, _, h5) = >>=-eq-ok (text named "Invalid identifier") _ h4 in
      let (_, _, h6) = >>=-eq-ok (identifier name) _ h5 in
      let (noted, _, h7) = >>=-eq-ok (get "notes" f) _ h6 in
      let (notes, _, h8) = >>=-eq-ok (text noted "Release notes required") _ h7 in
      let (t, made, h9) =
        >>=-eq-ok (create_candidate p w c tx name notes deliveries policy trust principal now) _
          h8 in
      subst (Appended tx) (ap (λ (x : Fields × Transaction c). x.1) (ok-injective h9))
        (create_candidate-Appended tx t.1 name notes deliveries policy trust principal now t.0 made)

  pub apply_action-Appended :
      (action : String) (tx tx' : Transaction c) (s : State) (body parameters : Fields)
      (command_key_id principal : String) (policy : Policy) (trust : Trust) (now : String)
      (result : Fields)
      → apply_action p w c action tx s body parameters command_key_id principal policy trust now
        ≡ ok (result, tx')
      → Appended tx tx'
  unfolding apply_action
  apply_action-Appended action tx tx' s body parameters command_key_id principal policy trust now
        result h =
      elim (Bool-cases (str_eq action "candidate.create")) [
        | inl creation ↦
            apply_creation-Appended tx tx' parameters policy trust principal now result
              (rw creation at h)
        | inr other ↦
            let (d, _, h1) =
              >>=-eq-ok (open_decision p s body parameters command_key_id) _ (rw other at h) in
            apply_decision-Appended action tx tx' s d policy trust now result h1
      ]

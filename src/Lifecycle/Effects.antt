-- ===== src/Lifecycle/Effects.antt =====
-- What a withdrawal and a revocation leave in the ledger.
use open_tapeout.Prelude.{
  String, true, false, not, ◌||◌, some, Bool-cases, List, [], ◌∷◌, ◌≡◌, ◌≢◌, refl, sym, ap, ◌∙◌,
  subst, arith, lookup, has, lookup-insert, eq_refl, eq_iff, ◌⊎◌, Dict, insert, ℕ, inl, inr, Among,
  here, there, leb, length, str_eq,
}
use open_tapeout.Result.{known, known-eq-ok, ok, >>=-eq-ok, ensure-eq-ok, ok-injective}
use open_tapeout.Json.{Json, get, get?}
use open_tapeout.Util.{codes}
use open_tapeout.Records.{Envelope, KeyEntry, Trust, Platform}
use open_tapeout.Signing.Authority.{IsAuthorized, verify_iff}
use open_tapeout.Signing.{PrivateKey, sign, verify}
use open_tapeout.Store.{Codec, Transaction, append}
use open_tapeout.Engine.State.{
  State, Release, Payload, approval_revoked, release_withdrawn, state_from, apply_payload,
  digest_field,
}
use open_tapeout.Engine.Appended.{appended_state}
use open_tapeout.Engine.Release.{project_id, active, active_approvals}
use open_tapeout.Lifecycle.{
  find_approval, revocable, authorize_revocation, revocation_role, revocation_statement,
  withdrawal_statement, revoke_approval, withdraw_release,
}

has_self {ℓ} : {V : Type ℓ} (k : String) (v : V) (m : Dict V) → has k (insert k v m) ≡ true
has_self k v m = ground (arith, lookup-insert k k v m, eq_refl k)

withdrawn_state :
    (p : Platform) (seq : ℕ) (hash : String) (key : PrivateKey) (project release_id : String)
    (release : Release) (reason now : String) (s : State)
    → apply_payload p seq hash
        (release_withdrawn (sign key (withdrawal_statement project release_id release reason now)))
        s
      ≡ ok (record s {
        withdrawals =
            insert release.candidate_sha256
              (sign key (withdrawal_statement project release_id release reason now))
              s.withdrawals;
      })
unfolding apply_payload digest_field get get? sign withdrawal_statement
withdrawn_state p seq hash key project release_id release reason now s = refl

revoked_state :
    (p : Platform) (seq : ℕ) (hash : String) (key : PrivateKey) (project approval : String)
    (candidate : Json) (reason now : String) (s : State)
    → apply_payload p seq hash
        (approval_revoked (sign key (revocation_statement project approval candidate reason now)))
        s
      ≡ ok (record s {
        revoked_approvals =
            insert approval
              (sign key (revocation_statement project approval candidate reason now))
              s.revoked_approvals;
      })
unfolding apply_payload digest_field get get? sign revocation_statement
revoked_state p seq hash key project approval candidate reason now s = refl

Among-cons : {a x : Envelope} {rest : List Envelope} → Among a (x ∷ rest) → (a ≡ x) ⊎ Among a rest
Among-cons (here e) = inl e
Among-cons (there m) = inr m

active-unrevoked :
    (p : Platform) (s : State) (approvals : List Envelope) (a : Envelope)
    → Among a (active p s approvals)
    → has (p.digest_envelope a) s.revoked_approvals ≡ false
unfolding active
active-unrevoked p s [] a m = elim m [ ]
active-unrevoked p s (x ∷ rest) a m =
    elim (Bool-cases (has (p.digest_envelope x) s.revoked_approvals)) [
      | inl gone ↦ active-unrevoked p s rest a (rw gone at m)
      | inr live ↦ elim (Among-cons (rw live at m)) [
        | inl first ↦ ap (λ e. has (p.digest_envelope e) s.revoked_approvals) first ∙ live
        | inr later ↦ active-unrevoked p s rest a later
      ]
    ]

revoked-inactive :
    (k : String) (made : Envelope) (revoked : Dict Envelope) (j : String)
    → has j (insert k made revoked) ≡ false
    → j ≡ k
    → ⊥
revoked-inactive k made revoked j off same =
    let on = ap (λ i. has i (insert k made revoked)) same ∙ has_self k made revoked in cc

admin_or_own :
    (role principal original : String)
    → (str_eq role "release-admin" || str_eq principal original) ≡ true
    → (role ≡ "release-admin") ⊎ (principal ≡ original)
admin_or_own role principal original h = elim (Bool-cases (str_eq role "release-admin")) [
  | inl admin ↦ inl ((eq_iff role "release-admin").0 admin)
  | inr other ↦ inr ((eq_iff principal original).0 (rw other at h))
]

module _ (p : Platform) (c : Codec String Payload) (key : PrivateKey) (tx : Transaction c)
    (reason : String) (trust : Trust) (now : String) where
  revoked-not_active :
      (s : State) (k : String) (made : Envelope) (a : Envelope)
      → Among a
          (active_approvals p (record s { revoked_approvals = insert k made s.revoked_approvals }))
      → p.digest_envelope a ≢ k
  unfolding active_approvals
  revoked-not_active s k made a among same =
      let s' : State = record s { revoked_approvals = insert k made s.revoked_approvals } in
      revoked-inactive k made s.revoked_approvals (p.digest_envelope a)
        (active-unrevoked p s' s.approvals a among) same

  -- A withdrawal that succeeds leaves a ledger in whose state the candidate of the release, a sealed
  -- one of the state before, is withdrawn.
  pub withdraw_release-has :
      (release_id : String) (envelope : Envelope) (tx' : Transaction c)
      → withdraw_release p c key tx release_id reason trust now ≡ ok (envelope, tx')
      → (s : State) × (s' : State) × (release : Release) × (state_from p tx.events ≡ ok s)
        × (lookup release_id s.releases ≡ some release)
        × (state_from p tx'.events ≡ ok s')
        × (has release.candidate_sha256 s'.withdrawals ≡ true)
  unfolding withdraw_release
  withdraw_release-has release_id envelope tx' h =
      let (_, h1) = ensure-eq-ok (leb 12 (length (codes (p.strip reason)))) _ _ h in
      let (s, before, h2) = >>=-eq-ok (state_from p tx.events) _ h1 in
      let (release, found, h3) =
        >>=-eq-ok (known (lookup release_id s.releases) "Unknown sealed release") _ h2 in
      let (_, h4) = ensure-eq-ok (not (has release.candidate_sha256 s.withdrawals)) _ _ h3 in
      let (project, _, h5) = >>=-eq-ok (project_id s) _ h4 in
      let made = sign key (withdrawal_statement project release_id release reason now) in
      let (t, _, h6) =
        >>=-eq-ok (verify p trust made "release" "opentapeout.release-withdrawal/v1") _ h5 in
      let (a, added, h7) =
        >>=-eq-ok (append c "release.withdrawn" (release_withdrawn made) t.1 now tx) _ h6 in
      let last = ap (λ (x : Envelope × Transaction c). x.1) (ok-injective h7) in
      let after =
        ap (λ (x : Transaction c). state_from p x.events) (sym last)
        ∙ appended_state p c tx now "release.withdrawn" (release_withdrawn made) t.1 a.1 a.0 s
            before added in
      (
        s,
        _,
        release,
        before,
        known-eq-ok _ _ found,
        after ∙ withdrawn_state p a.0.body.seq a.0.hash key project release_id release reason now s,
        has_self release.candidate_sha256 made s.withdrawals,
      )

  -- The signer acts as a release administrator or is the reviewer himself.
  pub record IsEntitled (original : KeyEntry) (envelope : Envelope) : Type 0 where
    pub role : String
    pub principal : String
    pub authorized :
        IsAuthorized p trust envelope role "opentapeout.approval-revocation/v1" principal
    pub entitled : (role ≡ "release-admin") ⊎ (principal ≡ original.principal)

  revocable-known :
      (s : State) (approval_sha256 : String) (approval : Envelope) (original : KeyEntry)
      → revocable p c s approval_sha256 trust ≡ ok (approval, original)
      → (find_approval p c approval_sha256 s.approvals ≡ some approval)
        × (lookup approval.key_id trust.keys ≡ some original)
  unfolding revocable
  revocable-known s approval_sha256 approval original h =
      let (a, found, h1) =
        >>=-eq-ok (known (find_approval p c approval_sha256 s.approvals) "Unknown approval") _ h in
      let (_, h2) = ensure-eq-ok (not (has approval_sha256 s.revoked_approvals)) _ _ h1 in
      let (k, reviewer, h3) = >>=-eq-ok (known (lookup a.key_id trust.keys) _) _ h2 in
      let pair = ok-injective h3 in
      (
        known-eq-ok _ _ found ∙ ap (λ (x : Envelope × KeyEntry). some x.0) pair,
        ap (λ (x : Envelope × KeyEntry). lookup x.0.key_id trust.keys) (sym pair)
            ∙ known-eq-ok _ _ reviewer
            ∙ ap (λ (x : Envelope × KeyEntry). some x.1) pair,
      )

  authorize_revocation-IsEntitled :
      (envelope approval : Envelope) (original : KeyEntry) (principal : String)
      → authorize_revocation p c trust envelope approval original ≡ ok principal
      → IsEntitled original envelope
  unfolding authorize_revocation
  authorize_revocation-IsEntitled envelope approval original principal h =
      let (role, _, h1) = >>=-eq-ok (revocation_role trust envelope.key_id approval) _ h in
      let (t, verified, h2) =
        >>=-eq-ok (verify p trust envelope role "opentapeout.approval-revocation/v1") _ h1 in
      let (entitled, _) =
        ensure-eq-ok (str_eq role "release-admin" || str_eq t.1 original.principal) _ _ h2 in
      record {
        role = role;
        principal = t.1;
        authorized =
            ((verify_iff p trust envelope role "opentapeout.approval-revocation/v1" t.0 t.1).0
              verified).1;
        entitled = admin_or_own role t.1 original.principal entitled;
      }

  -- A revocation that succeeds is of an approval of the ledger, is signed by its reviewer or by a
  -- release administrator, and leaves a ledger in whose state no approval with that digest is active.
  pub revoke_approval-active_approvals :
      (approval_sha256 : String) (envelope : Envelope) (tx' : Transaction c)
      → revoke_approval p c key tx approval_sha256 reason trust now ≡ ok (envelope, tx')
      → (s : State) × (s' : State) × (approval : Envelope) × (original : KeyEntry) × (state_from p
            tx.events
          ≡ ok s)
        × (find_approval p c approval_sha256 s.approvals ≡ some approval)
        × (lookup approval.key_id trust.keys ≡ some original)
        × IsEntitled original envelope
        × (state_from p tx'.events ≡ ok s')
        × ((a : Envelope) → Among a (active_approvals p s') → p.digest_envelope a ≢ approval_sha256)
  unfolding revoke_approval
  revoke_approval-active_approvals approval_sha256 envelope tx' h =
      let (_, h1) = ensure-eq-ok (leb 12 (length (codes (p.strip reason)))) _ _ h in
      let (s, before, h2) = >>=-eq-ok (state_from p tx.events) _ h1 in
      let ((approval, original), found, h3) =
        >>=-eq-ok (revocable p c s approval_sha256 trust) _ h2 in
      let (project, _, h4) = >>=-eq-ok (project_id s) _ h3 in
      let (candidate, _, h5) = >>=-eq-ok (get "candidate_sha256" approval.payload) _ h4 in
      let made = sign key (revocation_statement project approval_sha256 candidate reason now) in
      let (principal, entitled, h6) =
        >>=-eq-ok (authorize_revocation p c trust made approval original) _ h5 in
      let (a, added, h7) =
        >>=-eq-ok (append c "approval.revoked" (approval_revoked made) principal now tx) _ h6 in
      let s' : State = record s {
        revoked_approvals = insert approval_sha256 made s.revoked_approvals;
      } in
      let (first, reviewer) = revocable-known s approval_sha256 approval original found in
      let pair : (a.1 ≡ tx') × (made ≡ envelope) = (
        ap (λ (x : Envelope × Transaction c). x.1) (ok-injective h7),
        ap (λ (x : Envelope × Transaction c). x.0) (ok-injective h7),
      ) in
      (
        s,
        s',
        approval,
        original,
        before,
        first,
        reviewer,
        subst (IsEntitled original) pair.1
            (authorize_revocation-IsEntitled made approval original principal entitled),
        ap (λ (x : Transaction c). state_from p x.events) (sym pair.0)
            ∙ appended_state p c tx now "approval.revoked" (approval_revoked made) principal a.1 a.0
                s before added
            ∙ revoked_state p a.0.body.seq a.0.hash key project approval_sha256 candidate reason now
                s,
        revoked-not_active s approval_sha256 made,
      )

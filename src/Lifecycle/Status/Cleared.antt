-- ===== src/Lifecycle/Status/Cleared.antt =====
-- What a candidate that passes the offline check has.
use open_tapeout.Prelude.{
  ℕ, String, Bool, true, false, not, List, [], ◌∷◌, ◌≡◌, sym, ap, ◌∙◌, subst, arith, contains, any,
  keep, All, Among, here, there, Bool-cases, inl, inr, ◌⊎◌,
}
use open_tapeout.Result.{ok, >>=-eq-ok, ensure-eq-ok, ok-injective}
use open_tapeout.Records.{Envelope, Candidate, Trust, Platform}
use open_tapeout.Signing.{verify}
use open_tapeout.Signing.Authority.{IsAuthorized, verify_iff}
use open_tapeout.Lifecycle.Status.{
  Status, digest_list, check_statement_fields, verify_status, check_candidate_status,
}
use open_tapeout.Lifecycle.Status.InForce.{IsInForce, check_statement_fields-IsInForce}

Among-cons {ℓ} :
    {A : Type ℓ} {a x : A} {rest : List A} → Among a (x ∷ rest) → (a ≡ x) ⊎ Among a rest
Among-cons (here e) = inl e
Among-cons (there m) = inr m

Among-keep {ℓ} :
    {A : Type ℓ} (t : A → Bool) (xs : List A) (a : A)
    → Among a (keep t xs)
    → Among a xs × (t a ≡ true)
Among-keep t [] a m = elim m [ ]
Among-keep t (x ∷ xs) a m = elim (Bool-cases (t x)) [
  | inl e ↦ elim (Among-cons (rw e at m)) [
    | inl first ↦ (here first, ap t first ∙ e)
    | inr later ↦ let (among, holds) = Among-keep t xs a later in (there among, holds)
  ]
  | inr e ↦ let (among, holds) = Among-keep t xs a (rw e at m) in (there among, holds)
]

none_of_any {ℓ} :
    {A : Type ℓ} (t : A → Bool) (xs : List A) → any t xs ≡ false → All (λ x. t x ≡ false) xs
none_of_any t [] h = tt
none_of_any t (x ∷ xs) h = (ground arith, none_of_any t xs (ground arith))

false_of_not : (b : Bool) → not b ≡ true → b ≡ false
false_of_not b h = ground arith

module _ (p : Platform) (trust : Trust) where
  pub record IsStatus (envelope : Envelope) (project_id : String) (minimum_sequence : ℕ)
      (at : String) (status : Status) : Type 0 where
    pub authorized :
        IsAuthorized p trust envelope "release" "opentapeout.release-status/v1" status.signer
    pub in_force : IsInForce p envelope.payload project_id minimum_sequence at status.checked_at
    pub approvals : digest_list "revoked_approvals" envelope.payload ≡ ok status.revoked_approvals
    pub waivers : digest_list "revoked_waivers" envelope.payload ≡ ok status.revoked_waivers
    pub candidates :
        digest_list "withdrawn_candidates" envelope.payload ≡ ok status.withdrawn_candidates

  verify_status-IsStatus :
      (envelope : Envelope) (project_id : String) (minimum_sequence : ℕ) (at : String)
      (status : Status)
      → verify_status p trust envelope project_id minimum_sequence at ≡ ok status
      → IsStatus envelope project_id minimum_sequence at status
  unfolding verify_status
  verify_status-IsStatus envelope project_id minimum_sequence at status h =
      let (t, verified, h1) =
        >>=-eq-ok (verify p trust envelope "release" "opentapeout.release-status/v1") _ h in
      let (current, in_force, h2) =
        >>=-eq-ok (check_statement_fields p t.0 project_id minimum_sequence at) _ h1 in
      let (approvals, a, h3) = >>=-eq-ok (digest_list "revoked_approvals" t.0) _ h2 in
      let (waivers, w, h4) = >>=-eq-ok (digest_list "revoked_waivers" t.0) _ h3 in
      let (candidates, c, h5) = >>=-eq-ok (digest_list "withdrawn_candidates" t.0) _ h4 in
      let (same, authorized) =
        (verify_iff p trust envelope "release" "opentapeout.release-status/v1" t.0 t.1).0
          verified in
      subst (IsStatus envelope project_id minimum_sequence at) (ok-injective h5) (record {
        authorized = authorized;
        in_force =
            check_statement_fields-IsInForce p envelope.payload project_id minimum_sequence at
              current
              (ap (λ b. check_statement_fields p b project_id minimum_sequence at) (sym same)
                ∙ in_force);
        approvals = ap (digest_list "revoked_approvals") (sym same) ∙ a;
        waivers = ap (digest_list "revoked_waivers") (sym same) ∙ w;
        candidates = ap (digest_list "withdrawn_candidates") (sym same) ∙ c;
      })

  -- A candidate passes the offline check only with a status statement that an authorized release
  -- signer made for its project, that is in force: it was issued before now, expires later than now
  -- and at most 24 hours after its issue, and names a checkpoint with a sequence number of at least 1
  -- and the minimum, and with the form of a digest as hash; and whose lists name neither the candidate nor
  -- any of its waivers; the approvals that are left are given ones that the statement does not revoke.
  pub check_candidate_status-IsStatus :
      (candidate : Candidate) (approvals left : List Envelope) (envelope : Envelope)
      (minimum_sequence : ℕ) (at : String) (status : Status)
      → check_candidate_status p trust candidate approvals envelope minimum_sequence at
        ≡ ok (left, status)
      → IsStatus envelope candidate.project_id minimum_sequence at status
        × (contains (p.digest_candidate candidate) status.withdrawn_candidates ≡ false)
        × All (λ w. contains (p.digest_envelope w) status.revoked_waivers ≡ false) candidate.waivers
        × ((a : Envelope)
            → Among a left
            → Among a approvals × (contains (p.digest_envelope a) status.revoked_approvals ≡ false))
  unfolding check_candidate_status
  check_candidate_status-IsStatus candidate approvals left envelope minimum_sequence at status h =
      let (s, verified, h1) =
        >>=-eq-ok (verify_status p trust envelope candidate.project_id minimum_sequence at) _ h in
      let (live, h2) =
        ensure-eq-ok (not (contains (p.digest_candidate candidate) s.withdrawn_candidates)) _ _
          h1 in
      let (clean, h3) =
        ensure-eq-ok
          (not (any (λ w. contains (p.digest_envelope w) s.revoked_waivers) candidate.waivers)) _ _
          h2 in
      let pair = ok-injective h3 in
      let is_s = ap (λ (x : List Envelope × Status). x.1) pair in
      let is_left = ap (λ (x : List Envelope × Status). x.0) pair in
      (
        verify_status-IsStatus envelope candidate.project_id minimum_sequence at status
            (verified ∙ ap ok is_s),
        subst
            (λ (x : Status). contains (p.digest_candidate candidate) x.withdrawn_candidates ≡ false)
            is_s (false_of_not _ live),
        subst
            (λ (x : Status).
              All (λ w. contains (p.digest_envelope w) x.revoked_waivers ≡ false) candidate.waivers)
            is_s (none_of_any _ candidate.waivers (false_of_not _ clean)),
        λ a among.
            let (given, free) = Among-keep _ approvals a (subst (Among a) (sym is_left) among) in
            (
              given,
              subst (λ (x : Status). contains (p.digest_envelope a) x.revoked_approvals ≡ false)
                  is_s (false_of_not _ free),
            ),
      )

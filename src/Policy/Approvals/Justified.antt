-- ===== src/Policy/Approvals/Justified.antt =====
-- Why a principal may fill a role: `check_approval` and the loop of `collect_options`.
use open_tapeout.Prelude.{
  ℕ, ◌+◌, ◌≤◌, String, Bool, true, false, not, ◌&&◌, Bool-cases, List, [], ◌∷◌, ◌++◌, ◌≡◌, ◌≢◌,
  refl, sym, ap, ◌∙◌, subst, arith, leb, lookup, insert, lookup-insert, ◌⊎◌, inl, inr, Among, here,
  there, contains, contains-add, add, str_eq, eq_iff, if◌then◌else◌,
}
use open_tapeout.Result.{Failure, Result-cases, ok, err, >>=-eq-ok, ensure-eq-ok, ok-injective}
use open_tapeout.Json.{Json, null, bool, num, arr, obj, str, get, is_text}
use open_tapeout.Records.{Envelope, Candidate, Policy, Trust, Platform}
use open_tapeout.Signing.{verify, timestamp}
use open_tapeout.Signing.Authority.{IsAuthorized, verify_iff}
use open_tapeout.Policy.Waivers.{caught}
use open_tapeout.Policy.Roles.{Options, options_for}
use open_tapeout.Policy.Approvals.{
  required_role, check_approval, add_option, add_approval, collect_options,
}

module _ (p : Platform) (candidate : Candidate) (policy : Policy) (trust : Trust)
    (at : String) where
  -- The statement approves exactly this candidate, in the role, by the principal, and is of age.
  pub record IsApproval (envelope : Envelope) (role principal : String) : Type 0 where
    pub role_field : get "role" envelope.payload ≡ ok (str role)
    pub required : contains role policy.approval_roles ≡ true
    pub authorized : IsAuthorized p trust envelope role "opentapeout.approval/v1" principal
    pub bound : Json
    pub bound_field : get "candidate_sha256" envelope.payload ≡ ok bound
    pub same_candidate : is_text (p.digest_candidate candidate) bound ≡ true
    pub project : Json
    pub project_field : get "project_id" envelope.payload ≡ ok project
    pub same_project : is_text candidate.project_id project ≡ true
    pub decision : Json
    pub decision_field : get "decision" envelope.payload ≡ ok decision
    pub approves : is_text "approve" decision ≡ true
    pub independent : policy.forbid_self_approval ≡ true → principal ≢ candidate.created_by
    pub created_at : Json
    pub created_field : get "created_at" envelope.payload ≡ ok created_at
    pub created : ℕ
    pub now : ℕ
    pub created_time : timestamp p created_at ≡ ok created
    pub now_time : timestamp p (str at) ≡ ok now
    pub not_future : created ≤ now
    pub not_old : now ≤ created + p.hours policy.max_approval_age_hours

  distinct_of :
      (forbid : Bool) (a b : String) → not (forbid && str_eq a b) ≡ true → forbid ≡ true → a ≢ b
  distinct_of forbid a b h f e = ground (arith, eq_iff a b)

  within_of : (m n k : ℕ) → (leb m n && leb n k) ≡ true → (m ≤ n) × (n ≤ k)
  within_of m n k h = ground arith

  required_role-str :
      (claimed : Json) (role : String)
      → required_role policy claimed ≡ ok role
      → (claimed ≡ str role) × (contains role policy.approval_roles ≡ true)
  unfolding required_role
  required_role-str (str s) role h =
      let (required, same) = ensure-eq-ok (contains s policy.approval_roles) _ _ h in
      let e = ok-injective same in
      (ap str e, ap (λ r. contains r policy.approval_roles) (sym e) ∙ required)
  required_role-str null role h = cc
  required_role-str (bool b) role h = cc
  required_role-str (num n) role h = cc
  required_role-str (arr items) role h = cc
  required_role-str (obj fields) role h = cc

  check_approval-IsApproval :
      (envelope : Envelope) (role principal : String)
      → check_approval p candidate policy trust at envelope ≡ ok (role, principal)
      → IsApproval envelope role principal
  unfolding check_approval
  check_approval-IsApproval envelope role principal h =
      let (claimed, claimed_field, h1) = >>=-eq-ok (get "role" envelope.payload) _ h in
      let (r, required, h2) = >>=-eq-ok (required_role policy claimed) _ h1 in
      let (t, verified, h3) =
        >>=-eq-ok (verify p trust envelope r "opentapeout.approval/v1") _ h2 in
      let (bound, bound_field, h4) = >>=-eq-ok (get "candidate_sha256" t.0) _ h3 in
      let (same_candidate, h5) =
        ensure-eq-ok (is_text (p.digest_candidate candidate) bound) _ _ h4 in
      let (project, project_field, h6) = >>=-eq-ok (get "project_id" t.0) _ h5 in
      let (same_project, h7) = ensure-eq-ok (is_text candidate.project_id project) _ _ h6 in
      let (decision, decision_field, h8) = >>=-eq-ok (get "decision" t.0) _ h7 in
      let (approves, h9) = ensure-eq-ok (is_text "approve" decision) _ _ h8 in
      let (independent, h10) =
        ensure-eq-ok (not (policy.forbid_self_approval && str_eq t.1 candidate.created_by)) _ _
          h9 in
      let (now, now_time, h11) = >>=-eq-ok (timestamp p (str at)) _ h10 in
      let (created_at, created_field, h12) = >>=-eq-ok (get "created_at" t.0) _ h11 in
      let (created, created_time, h13) = >>=-eq-ok (timestamp p created_at) _ h12 in
      let (aged, h14) =
        ensure-eq-ok (leb created now && leb now (created + p.hours policy.max_approval_age_hours))
          _ _ h13 in
      let result = ok-injective h14 in
      let (role_text, listed) = required_role-str claimed r required in
      let (same, authorized) =
        (verify_iff p trust envelope r "opentapeout.approval/v1" t.0 t.1).0 verified in
      let field_of : (k : String) → get k envelope.payload ≡ get k t.0 =
        (λ k. ap (get k) (sym same)) in
      subst (λ (x : String × String). IsApproval envelope x.0 x.1) result
        (record {
          role_field = claimed_field ∙ ap ok role_text;
          required = listed;
          authorized = authorized;
          bound = bound;
          bound_field = field_of "candidate_sha256" ∙ bound_field;
          same_candidate = same_candidate;
          project = project;
          project_field = field_of "project_id" ∙ project_field;
          same_project = same_project;
          decision = decision;
          decision_field = field_of "decision" ∙ decision_field;
          approves = approves;
          independent =
              distinct_of policy.forbid_self_approval t.1 candidate.created_by independent;
          created_at = created_at;
          created_field = field_of "created_at" ∙ created_field;
          created = created;
          now = now;
          created_time = created_time;
          now_time = now_time;
          not_future = (within_of created now _ aged).0;
          not_old = (within_of created now _ aged).1;
        })

  options_for-insert :
      (role : String) (principals : List String) (options : Options) (r : String)
      → options_for (insert role principals options) r
        ≡ (if str_eq role r then principals else options_for options r)
  unfolding options_for
  options_for-insert role principals options r =
      ground (arith, lookup-insert role r principals options)

  no_options : (role principal : String) → contains principal (options_for [] role) ≡ true → ⊥
  unfolding options_for lookup contains
  no_options role principal h = cc

  contains-add_option :
      (role principal : String) (options : Options) (r q : String)
      → contains q (options_for (add_option role principal options) r) ≡ true
      → (contains q (options_for options r) ≡ true) ⊎ ((role ≡ r) × (principal ≡ q))
  unfolding add_option
  contains-add_option role principal options r q h = elim (Bool-cases (str_eq role r)) [
    | inr other ↦ inl (
        ground
          (arith, options_for-insert role (add principal (options_for options role)) options r))
    | inl same ↦ elim (Bool-cases (str_eq principal q)) [
      | inl new ↦ inr ((eq_iff role r).0 same, (eq_iff principal q).0 new)
      | inr other ↦
          let e = (eq_iff role r).0 same in
          let added =
            rw (options_for-insert role (add principal (options_for options role)) options r, same)
              at h in
          let kept = sym (contains-add principal q (options_for options role)) ∙ added in
          inl (ap (λ x. contains q (options_for options x)) (sym e) ∙ rw other at kept)
    ]
  ]

  add_approval-new :
      (envelope : Envelope) (before after : Options × List Failure)
      → add_approval (check_approval p candidate policy trust at envelope) before ≡ ok after
      → (role principal : String) → contains principal (options_for after.0 role) ≡ true
      → (contains principal (options_for before.0 role) ≡ true) ⊎ IsApproval envelope role principal
  unfolding add_approval
  add_approval-new envelope (options, rejected) after h role principal c =
      let held : Options × List Failure → Type 0 =
        (λ x. contains principal (options_for x.0 role) ≡ true) in
      elim (Result-cases (check_approval p candidate policy trust at envelope)) [
        | inl ((r, q), e) ↦
            elim (contains-add_option r q options role principal
              (subst held (sym (ok-injective (rw e at h))) c)) [
                | inl old ↦ inl old
                | inr (same, own) ↦ inr (
                    check_approval-IsApproval envelope role principal
                      (e ∙ ap ok (λ i. (same i, own i))))
              ]
        | inr (f, e) ↦ elim (Bool-cases (caught f)) [
          | inl kept ↦ inl (subst held (sym (ok-injective (rw (e, kept) at h))) c)
          | inr raised ↦ absurd (raised_err f raised (rw e at h))
        ]
      ]
    where
      raised_err :
          (f : Failure)
          → caught f ≡ false
          → (if caught f then ok (options, rejected ++ f ∷ []) else err f) ≡ ok after
          → ⊥
      raised_err f r k = ground arith

  collect_options-from :
      (envelopes : List Envelope) (before after : Options × List Failure)
      → collect_options p candidate policy trust at envelopes before ≡ ok after
      → (role principal : String) → contains principal (options_for after.0 role) ≡ true
      → (contains principal (options_for before.0 role) ≡ true)
        ⊎ ((envelope : Envelope) × Among envelope envelopes × IsApproval envelope role principal)
  unfolding collect_options
  collect_options-from [] before after h role principal c = inl (
      ap (λ (x : Options × List Failure). contains principal (options_for x.0 role))
        (ok-injective h)
      ∙ c)
  collect_options-from (envelope ∷ rest) before after h role principal c =
      let (mid, added, h1) =
        >>=-eq-ok (add_approval (check_approval p candidate policy trust at envelope) before) _ h in
      elim (collect_options-from rest mid after h1 role principal c) [
        | inr (e, among, approval) ↦ inr (e, there among, approval)
        | inl early ↦ elim (add_approval-new envelope before mid added role principal early) [
          | inl old ↦ inl old
          | inr new ↦ inr (envelope, here refl, new)
        ]
      ]

  -- Every principal that the gate counts for a role signed an approval in that role: the policy asks
  -- for the role, the key may act in it, the approval names the digest of this candidate and its
  -- project, decides to approve, is of age, and is not by the candidate's author where the policy
  -- forbids that.
  pub collect_options-IsApproval :
      (envelopes : List Envelope) (options : Options) (rejected : List Failure)
      (role principal : String)
      → collect_options p candidate policy trust at envelopes ([], []) ≡ ok (options, rejected)
      → contains principal (options_for options role) ≡ true
      → (envelope : Envelope) × Among envelope envelopes × IsApproval envelope role principal
  collect_options-IsApproval envelopes options rejected role principal h c =
      elim (collect_options-from envelopes ([], []) (options, rejected) h role principal c) [
        | inl early ↦ absurd (no_options role principal early)
        | inr found ↦ found
      ]

-- ===== src/Policy/Waivers/Justified.antt =====
-- Why a waiver counts: `check_waiver` and the loop of `valid_waivers`.
use open_tapeout.Prelude.{
  any, ℕ, ◌≤◌, ◌<◌, String, true, false, not, Option, none, some, Option-cases, Bool-cases, List,
  [], ◌∷◌, ◌++◌, ◌≡◌, refl, sym, ap, ◌∙◌, subst, arith, leb, ltb, lookup, ◌⊎◌, inl, inr, Among,
  here, there, Among-append, eq_of_Among, if◌then◌else◌,
}
use open_tapeout.Result.{
  Failure, Result-cases, ok, err, >>=-eq-ok, ensure-eq-ok, true_of_ensure, ok-injective,
}
use open_tapeout.Json.{hashable, Json, str, Fields, get, is_text}
use open_tapeout.Records.{Violation, Completion, Run, Envelope, Candidate, Trust, Platform}
use open_tapeout.Signing.{verify, timestamp}
use open_tapeout.Signing.Authority.{IsAuthorized, verify_iff}
use open_tapeout.Policy.Waivers.{
  ValidWaiver, find_run, violations_of, matching_run, has_fingerprint, text_of, check_waiver,
  check_owner, check_period, check_evidence, check_rationale, caught, add_waiver, note_waiver,
  same_waiver, valid_waivers,
}

module _ (p : Platform) (candidate : Candidate) (trust : Trust) (at : String) where
  -- The waiver is for this project, and its reviewer is not its owner.
  pub record IsIndependent (body : Fields) (reviewer : String) : Type 0 where
    pub project : Json
    pub project_field : get "project_id" body ≡ ok project
    pub same_project : is_text candidate.project_id project ≡ true
    pub owner : Json
    pub owner_field : get "owner" body ≡ ok owner
    pub independent : is_text reviewer owner ≡ false

  -- The waiver is in force.
  pub record IsInForce (body : Fields) : Type 0 where
    pub created_at : Json
    pub created_field : get "created_at" body ≡ ok created_at
    pub expires_at : Json
    pub expires_field : get "expires_at" body ≡ ok expires_at
    pub created : ℕ
    pub now : ℕ
    pub expires : ℕ
    pub created_time : timestamp p created_at ≡ ok created
    pub now_time : timestamp p (str at) ≡ ok now
    pub expires_time : timestamp p expires_at ≡ ok expires
    pub started : created ≤ now
    pub unexpired : now < expires

  -- The waiver names a run of the candidate by the digest of the whole run, and one violation of
  -- its report.
  pub record IsExact (body : Fields) (w : ValidWaiver) : Type 0 where
    pub run_field : get "run_id" body ≡ ok (str w.run_id)
    pub run : Run
    pub found : lookup w.run_id candidate.runs ≡ some run
    pub evidence : Json
    pub evidence_field : get "evidence_sha256" body ≡ ok evidence
    pub exact : is_text (p.digest_run run) evidence ≡ true
    pub fingerprint_field : get "violation_fingerprint" body ≡ ok (str w.fingerprint)
    pub completion : Completion
    pub completed : run.completion ≡ some completion
    pub present : has_fingerprint (str w.fingerprint) completion.result.violations ≡ true

  -- An authorized reviewer signed the waiver, which is in force and exact.
  pub record IsJustified (envelope : Envelope) (w : ValidWaiver) : Type 0 where
    pub reviewer : String
    pub authorized : IsAuthorized p trust envelope "waiver" "opentapeout.waiver/v1" reviewer
    pub independence : IsIndependent envelope.payload reviewer
    pub period : IsInForce envelope.payload
    pub evidence : IsExact envelope.payload w

  find_run-str :
      (v : Json) (o : Option Run) (s : String)
      → find_run candidate v ≡ ok o
      → text_of v ≡ ok s
      → (v ≡ str s) × (lookup s candidate.runs ≡ o)
  unfolding find_run
  find_run-str (str t) o s h k = (
    ap str (ok-injective k),
    ap (λ x. lookup x candidate.runs) (sym (ok-injective k)) ∙ ok-injective h,
  )
  find_run-str v o s h k = cc

  text_of-str : (v : Json) (s : String) → text_of v ≡ ok s → v ≡ str s
  text_of-str (str t) s h = ap str (ok-injective h)
  text_of-str v s h = cc

  matching_run-exact :
      (o : Option Run) (body : Fields) (run : Run)
      → matching_run p o body ≡ ok run
      → (o ≡ some run)
        × (evidence : Json) × (get "evidence_sha256" body ≡ ok evidence)
        × (is_text (p.digest_run run) evidence ≡ true)
  unfolding matching_run
  matching_run-exact none body run h = cc
  matching_run-exact (some r) body run h =
      let (evidence, field, h1) = >>=-eq-ok (get "evidence_sha256" body) _ h in
      let (exact, h2) = ensure-eq-ok (is_text (p.digest_run r) evidence) _ _ h1 in
      let same = ok-injective h2 in
      (
        ap some same,
        evidence,
        field,
        subst (λ x. is_text (p.digest_run x) evidence ≡ true) same exact,
      )

  violations_of-completed :
      (run : Run) (vs : List Violation)
      → violations_of run ≡ ok vs
      → (c : Completion) × (run.completion ≡ some c) × (c.result.violations ≡ vs)
  unfolding violations_of
  violations_of-completed run vs h = elim (Option-cases run.completion) [
    | inl missing ↦ absurd (ground arith)
    | inr (c, e) ↦ (c, e, ground arith)
  ]

  check_owner-IsIndependent :
      (body : Fields) (reviewer : String) {u : Unit {0}}
      → check_owner candidate body reviewer ≡ ok u
      → IsIndependent body reviewer
  unfolding check_owner
  check_owner-IsIndependent body reviewer h =
      let (project, project_field, h2) = >>=-eq-ok (get "project_id" body) _ h in
      let (same_project, h3) = ensure-eq-ok (is_text candidate.project_id project) _ _ h2 in
      let (owner, owner_field, h4) = >>=-eq-ok (get "owner" body) _ h3 in
      let independent = true_of_ensure (not (is_text reviewer owner)) _ h4 in
      record {
        project = project;
        project_field = project_field;
        same_project = same_project;
        owner = owner;
        owner_field = owner_field;
        independent = ground arith;
      }

  check_period-IsInForce :
      (body : Fields) {u : Unit {0}} → check_period p at body ≡ ok u → IsInForce body
  unfolding check_period
  check_period-IsInForce body h =
      let (created_at, created_field, h6) = >>=-eq-ok (get "created_at" body) _ h in
      let (created, created_time, h7) = >>=-eq-ok (timestamp p created_at) _ h6 in
      let (now, now_time, h8) = >>=-eq-ok (timestamp p (str at)) _ h7 in
      let (started, h9) = ensure-eq-ok (leb created now) _ _ h8 in
      let (expires_at, expires_field, h10) = >>=-eq-ok (get "expires_at" body) _ h9 in
      let (expires, expires_time, h11) = >>=-eq-ok (timestamp p expires_at) _ h10 in
      let unexpired = true_of_ensure (ltb now expires) _ h11 in
      record {
        created_at = created_at;
        created_field = created_field;
        expires_at = expires_at;
        expires_field = expires_field;
        created = created;
        now = now;
        expires = expires;
        created_time = created_time;
        now_time = now_time;
        expires_time = expires_time;
        started = ground arith;
        unexpired = ground arith;
      }

  -- The parts of the evidence, with the texts named.
  IsExact-of_parts :
      (body : Fields) (run_id fingerprint : Json) (o : Option Run) (run : Run) (vs : List Violation)
      (w : ValidWaiver)
      → get "run_id" body ≡ ok run_id
      → find_run candidate run_id ≡ ok o
      → matching_run p o body ≡ ok run
      → violations_of run ≡ ok vs
      → get "violation_fingerprint" body ≡ ok fingerprint
      → has_fingerprint fingerprint vs ≡ true
      → text_of run_id ≡ ok w.run_id
      → text_of fingerprint ≡ ok w.fingerprint
      → IsExact body w
  IsExact-of_parts body run_id fingerprint o run vs w run_field looked matching violations
        fingerprint_field present key mark =
      let (run_text, run_found) = find_run-str run_id o w.run_id looked key in
      let mark_str = text_of-str fingerprint w.fingerprint mark in
      let (is_run, evidence, evidence_field, exact) = matching_run-exact o body run matching in
      let (c, completed, listed) = violations_of-completed run vs violations in
      record {
        run_field = run_field ∙ ap ok run_text;
        run = run;
        found = run_found ∙ is_run;
        evidence = evidence;
        evidence_field = evidence_field;
        exact = exact;
        fingerprint_field = fingerprint_field ∙ ap ok mark_str;
        completion = c;
        completed = completed;
        present =
            subst (λ x. has_fingerprint x c.result.violations ≡ true) mark_str
              (subst (λ x. has_fingerprint fingerprint x ≡ true) (sym listed) present);
      }

  check_evidence-IsExact :
      (body : Fields) (w : ValidWaiver) → check_evidence p candidate body ≡ ok w → IsExact body w
  unfolding check_evidence
  check_evidence-IsExact body w h =
      let (run_id, run_field, h1) = >>=-eq-ok (get "run_id" body) _ h in
      let (o, looked, h2) = >>=-eq-ok (find_run candidate run_id) _ h1 in
      let (run, matching, h3) = >>=-eq-ok (matching_run p o body) _ h2 in
      let (vs, violations, h4) = >>=-eq-ok (violations_of run) _ h3 in
      let (fingerprint, fingerprint_field, h5) =
        >>=-eq-ok (get "violation_fingerprint" body) _ h4 in
      let (_, _, hashed) = >>=-eq-ok (hashable fingerprint) _ h5 in
      let (present, h6) = ensure-eq-ok (has_fingerprint fingerprint vs) _ _ hashed in
      let (key, key_text, h7) = >>=-eq-ok (text_of run_id) _ h6 in
      let (mark, mark_text, h8) = >>=-eq-ok (text_of fingerprint) _ h7 in
      subst (IsExact body) (ok-injective h8) (
        IsExact-of_parts body run_id fingerprint o run vs
          (record { run_id = key; fingerprint = mark }) run_field looked matching violations
          fingerprint_field present key_text mark_text)

  check_waiver-IsJustified :
      (envelope : Envelope) (w : ValidWaiver)
      → check_waiver p candidate trust at envelope ≡ ok w
      → IsJustified envelope w
  unfolding check_waiver
  check_waiver-IsJustified envelope w h =
      let (t, verified, h1) =
        >>=-eq-ok (verify p trust envelope "waiver" "opentapeout.waiver/v1") _ h in
      let (same, authorized) =
        (verify_iff p trust envelope "waiver" "opentapeout.waiver/v1" t.0 t.1).0 verified in
      let (_, owned, h2) = >>=-eq-ok (check_owner candidate t.0 t.1) _ h1 in
      let (_, timed, h3) = >>=-eq-ok (check_period p at t.0) _ h2 in
      let (v, proved, h4) = >>=-eq-ok (check_evidence p candidate t.0) _ h3 in
      let (_, explained, h5) = >>=-eq-ok (check_rationale p t.0) _ h4 in
      record {
        reviewer = t.1;
        authorized = authorized;
        independence =
            subst (λ b. IsIndependent b t.1) same (check_owner-IsIndependent t.0 t.1 owned);
        period = subst IsInForce same (check_period-IsInForce t.0 timed);
        evidence = subst (λ b. IsExact b w) same (check_evidence-IsExact t.0 w (proved ∙ h5));
      }

  note_waiver-new :
      (v w : ValidWaiver) (valid : List ValidWaiver)
      → Among w (note_waiver v valid)
      → Among w valid ⊎ (w ≡ v)
  unfolding note_waiver
  note_waiver-new v w valid m = elim (Bool-cases (any (same_waiver v) valid)) [
    | inl known ↦ inl (rw known at m)
    | inr fresh ↦ elim (Among-append valid (v ∷ []) (rw fresh at m)) [
      | inl old ↦ inl old
      | inr new ↦ inr (eq_of_Among new)
    ]
  ]

  -- What one round of the loop adds is justified by its envelope.
  add_waiver-new :
      (envelope : Envelope) (before after : List ValidWaiver × List Failure)
      → add_waiver (check_waiver p candidate trust at envelope) before ≡ ok after
      → (w : ValidWaiver) → Among w after.0
      → Among w before.0 ⊎ IsJustified envelope w
  unfolding add_waiver
  add_waiver-new envelope (valid, rejected) after h w m =
      elim (Result-cases (check_waiver p candidate trust at envelope)) [
        | inl (v, e) ↦
            elim (note_waiver-new v w valid (
              subst (λ (x : List ValidWaiver × List Failure). Among w x.0)
                (sym (ok-injective (rw e at h))) m)) [
                  | inl old ↦ inl old
                  | inr new ↦ inr (check_waiver-IsJustified envelope w (e ∙ ap ok (sym new)))
                ]
        | inr (f, e) ↦ inl (kept f (rw e at h))
      ]
    where
      kept :
          (f : Failure)
          → (if caught f then ok (valid, rejected ++ f ∷ []) else err f) ≡ ok after
          → Among w valid
      kept f k = elim (Bool-cases (caught f)) [
        | inl c ↦
            subst (λ (x : List ValidWaiver × List Failure). Among w x.0)
              (sym (ok-injective (rw c at k))) m
        | inr c ↦ absurd (ground arith)
      ]

  valid_waivers-from :
      (envelopes : List Envelope) (before after : List ValidWaiver × List Failure)
      → valid_waivers p candidate trust at envelopes before ≡ ok after
      → (w : ValidWaiver) → Among w after.0
      → Among w before.0
        ⊎ ((envelope : Envelope) × Among envelope envelopes × IsJustified envelope w)
  unfolding valid_waivers
  valid_waivers-from [] before after h w m =
      inl (subst (λ (x : List ValidWaiver × List Failure). Among w x.0) (sym (ok-injective h)) m)
  valid_waivers-from (envelope ∷ rest) before after h w m =
      let (mid, added, h1) =
        >>=-eq-ok (add_waiver (check_waiver p candidate trust at envelope) before) _ h in
      elim (valid_waivers-from rest mid after h1 w m) [
        | inl early ↦ elim (add_waiver-new envelope before mid added w early) [
          | inl old ↦ inl old
          | inr new ↦ inr (envelope, here refl, new)
        ]
        | inr (e, among, justified) ↦ inr (e, there among, justified)
      ]

  -- Every waiver that the gate counts comes from a signed statement of the candidate: an authorized
  -- reviewer other than the owner signed it for this project, it is in force when the gate is
  -- evaluated, and it names the digest of the whole run and one violation that the run reports.
  pub valid_waivers-IsJustified :
      (valid : List ValidWaiver) (rejected : List Failure) (w : ValidWaiver)
      → valid_waivers p candidate trust at candidate.waivers ([], []) ≡ ok (valid, rejected)
      → Among w valid
      → (envelope : Envelope) × Among envelope candidate.waivers × IsJustified envelope w
  valid_waivers-IsJustified valid rejected w h m =
      elim (valid_waivers-from candidate.waivers ([], []) (valid, rejected) h w m) [
        | inl early ↦ elim early [ ]
        | inr found ↦ found
      ]

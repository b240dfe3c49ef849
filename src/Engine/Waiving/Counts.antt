-- ===== src/Engine/Waiving/Counts.antt =====
-- A waiver that `waive` signs is one that the gate counts.
use open_tapeout.Prelude.{
  ℕ, String, true, false, not, some, List, [], ◌∷◌, ◌≡◌, sym, ap, ◌∙◌, subst, arith, lookup, any,
  str_eq, eq_iff, eq_refl, inl, inr, leb, ltb, length, Bool-cases,
}
use open_tapeout.Result.{
  ok, known, known-eq-ok, ensure, >>=-ok, ensure-true, >>=-eq-ok, ensure-eq-ok, ok-injective,
}
use open_tapeout.Json.{Fields, str, get, get?, hashable}
use open_tapeout.Util.{codes}
use open_tapeout.Records.{Violation, Completion, Run, Envelope, Candidate, Trust, Platform}
use open_tapeout.Signing.{PrivateKey, sign, verify}
use open_tapeout.Signing.Authority.{verify_iff, timestamp-parsed}
use open_tapeout.Graph.Drift.{Workspace}
use open_tapeout.Store.{Codec, Transaction, append}
use open_tapeout.Policy.Waivers.{
  check_owner, check_period, check_evidence, check_rationale, check_waiver, has_fingerprint,
  find_run, matching_run, violations_of, strip_json,
}
use open_tapeout.Engine.State.{State, Payload, waiver_signed, state_from}
use open_tapeout.Engine.Release.{project_id}
use open_tapeout.Engine.Waiving.{
  waiver_statement, verify_attachments, completed_run, check_request, sign_waiver, waive,
}

module _ (p : Platform) (w : Workspace) (c : Codec String Payload) (key : PrivateKey)
    (trust : Trust) (run_id fingerprint rationale owner expires_at now : String)
    (attachments : List String) where
  spoken : (reason : String) → leb 12 (length (codes reason)) ≡ true → not (str_eq reason "") ≡ true
  spoken reason long = elim (Bool-cases (str_eq reason "")) [
    | inl empty ↦
        let none_left : leb 12 (length (codes "")) ≡ true =
          subst (λ r. leb 12 (length (codes r)) ≡ true) ((eq_iff reason "").0 empty) long in
        cc
    | inr some_left ↦ ap not some_left
  ]

  has_fingerprint-any :
      (violations : List Violation)
      → any (λ v. str_eq v.fingerprint fingerprint) violations ≡ true
      → has_fingerprint (str fingerprint) violations ≡ true
  has_fingerprint-any [] h = h
  has_fingerprint-any (v ∷ rest) h = ground (
    arith,
    has_fingerprint-any rest,
    eq_iff v.fingerprint fingerprint,
    eq_iff fingerprint v.fingerprint,
  )

  abbrev statement : String → Run → Envelope
  statement project run =
      sign key (
        waiver_statement p project run_id run fingerprint rationale owner expires_at attachments
          now)

  -- What `waive` has tested when it succeeds.
  record IsWaivable (s : State) (envelope : Envelope) : Type 0 where
    run : Run
    project : String
    explained : leb 12 (length (codes (p.strip rationale))) ≡ true
    completed : completed_run s run_id fingerprint ≡ ok run
    owned : project_id s ≡ ok project
    made : statement project run ≡ envelope
    principal : String
    verified :
        verify p trust envelope "waiver" "opentapeout.waiver/v1" ≡ ok (envelope.payload, principal)
    independent : str_eq principal owner ≡ false

  sign_waiver-IsWaivable :
      (s : State) (envelope : Envelope) (principal : String)
      → leb 12 (length (codes (p.strip rationale))) ≡ true
      → sign_waiver p w key s run_id fingerprint rationale owner expires_at attachments trust now
        ≡ ok (envelope, principal)
      → IsWaivable s envelope
  unfolding sign_waiver
  sign_waiver-IsWaivable s envelope principal explained h =
      let (run, completed, h1) = >>=-eq-ok (completed_run s run_id fingerprint) _ h in
      let (_, _, h2) = >>=-eq-ok (verify_attachments w attachments) _ h1 in
      let (project, owned, h3) = >>=-eq-ok (project_id s) _ h2 in
      let (t, verified, h4) =
        >>=-eq-ok (verify p trust (statement project run) "waiver" "opentapeout.waiver/v1") _ h3 in
      let (independent, h5) = ensure-eq-ok (not (str_eq t.1 owner)) _ _ h4 in
      let made = ap (λ (x : Envelope × String). x.0) (ok-injective h5) in
      let same =
        ((verify_iff p trust (statement project run) "waiver" "opentapeout.waiver/v1" t.0 t.1).0
          verified).0 in
      record {
        run = run;
        project = project;
        explained = explained;
        completed = completed;
        owned = owned;
        made = made;
        principal = t.1;
        verified =
            subst
              (λ (e : Envelope).
                verify p trust e "waiver" "opentapeout.waiver/v1" ≡ ok (e.payload, t.1))
              made (verified ∙ ap (λ b. ok (b, t.1)) same);
        independent = ground arith;
      }

  check_request-explained :
      check_request p rationale owner expires_at now ≡ ok tt
      → leb 12 (length (codes (p.strip rationale))) ≡ true
  unfolding check_request
  check_request-explained h = (ensure-eq-ok (leb 12 (length (codes (p.strip rationale)))) _ _ h).0

  waive-IsWaivable :
      (tx tx' : Transaction c) (envelope : Envelope)
      → waive p w c key tx run_id fingerprint rationale owner expires_at attachments trust now
        ≡ ok (envelope, tx')
      → (s : State) × (state_from p tx.events ≡ ok s) × IsWaivable s envelope
  unfolding waive
  waive-IsWaivable tx tx' envelope h =
      let (u, checked, h1) = >>=-eq-ok (check_request p rationale owner expires_at now) _ h in
      let (s, before, h2) = >>=-eq-ok (state_from p tx.events) _ h1 in
      let (e, signed, h3) =
        >>=-eq-ok
          (sign_waiver p w key s run_id fingerprint rationale owner expires_at attachments trust
            now)
          _ h2 in
      let (a, _, h4) = >>=-eq-ok (append c "waiver.signed" (waiver_signed e.0) e.1 now tx) _ h3 in
      let made = ap (λ (x : Envelope × Transaction c). x.0) (ok-injective h4) in
      (
        s,
        before,
        subst (IsWaivable s) made
            (sign_waiver-IsWaivable s e.0 e.1 (check_request-explained checked) signed),
      )

  abbrev body : String → Run → Fields
  body project run =
      waiver_statement p project run_id run fingerprint rationale owner expires_at attachments now

  check_owner-body :
      (candidate : Candidate) (project principal : String) (run : Run)
      → project ≡ candidate.project_id
      → str_eq principal owner ≡ false
      → check_owner candidate (body project run) principal ≡ ok tt
  unfolding check_owner waiver_statement get get?
  check_owner-body candidate project principal run same independent =
      let other : not (str_eq owner principal) ≡ true =
        ground (arith, eq_iff owner principal, eq_iff principal owner) in
      ensure-true _ _ ((eq_iff project candidate.project_id).1 same)
      ∙ ap (λ b. ensure b "Waiver owner cannot review their own waiver") other

  check_period-body :
      (project at : String) (run : Run) (issued moment expires : ℕ)
      → p.parse_timestamp now ≡ some issued
      → p.parse_timestamp at ≡ some moment
      → p.parse_timestamp expires_at ≡ some expires
      → leb issued moment ≡ true
      → ltb moment expires ≡ true
      → check_period p at (body project run) ≡ ok tt
  unfolding check_period waiver_statement get get?
  check_period-body project at run issued moment expires a b c d e =
      >>=-ok _ (timestamp-parsed p now issued a)
      ∙ >>=-ok _ (timestamp-parsed p at moment b)
      ∙ ensure-true _ _ d
      ∙ >>=-ok _ (timestamp-parsed p expires_at expires c)
      ∙ ap (λ t. ensure t "Waiver expired or not yet valid") e

  record IsCompleted (s : State) (run : Run) : Type 0 where
    completion : Completion
    found : lookup run_id s.runs ≡ some run
    ended : run.completion ≡ some completion
    named : any (λ v. str_eq v.fingerprint fingerprint) completion.result.violations ≡ true

  completed_run-IsCompleted :
      (s : State) (run : Run) → completed_run s run_id fingerprint ≡ ok run → IsCompleted s run
  unfolding completed_run
  completed_run-IsCompleted s run h =
      let (r, found, h1) =
        >>=-eq-ok (known (lookup run_id s.runs) "Waiver requires completed evidence") _ h in
      let (done, ended, h2) =
        >>=-eq-ok (known r.completion "Waiver requires completed evidence") _ h1 in
      let (named, h3) =
        ensure-eq-ok (any (λ v. str_eq v.fingerprint fingerprint) done.result.violations) _ _ h2 in
      let same = ok-injective h3 in
      record {
        completion = done;
        found = known-eq-ok _ _ found ∙ ap some same;
        ended = ap (λ (x : Run). x.completion) (sym same) ∙ known-eq-ok _ _ ended;
        named = named;
      }

  matching_run-body :
      (project : String) (run : Run) → matching_run p (some run) (body project run) ≡ ok run
  unfolding matching_run waiver_statement get get?
  matching_run-body project run = ensure-true _ _ (eq_refl (p.digest_run run))

  violations_of-completed :
      (run : Run) (c : Completion)
      → run.completion ≡ some c
      → violations_of run ≡ ok c.result.violations
  unfolding violations_of
  violations_of-completed run c e = rw e

  check_evidence-body :
      (s : State) (candidate : Candidate) (project : String) (run : Run)
      → IsCompleted s run
      → lookup run_id candidate.runs ≡ lookup run_id s.runs
      → check_evidence p candidate (body project run)
        ≡ ok (record { run_id = run_id; fingerprint = fingerprint })
  unfolding check_evidence find_run waiver_statement get get? hashable
  check_evidence-body s candidate project run done frozen =
      >>=-ok _ (
        ap (λ found. matching_run p found (body project run)) (frozen ∙ done.found)
        ∙ matching_run-body project run)
      ∙ >>=-ok _ (violations_of-completed run done.completion done.ended)
      ∙ ensure-true _ _ (has_fingerprint-any done.completion.result.violations done.named)

  check_rationale-body :
      (project : String) (run : Run)
      → leb 12 (length (codes (p.strip rationale))) ≡ true
      → check_rationale p (body project run) ≡ ok tt
  unfolding check_rationale strip_json waiver_statement get get?
  check_rationale-body project run explained =
      ap (λ t. ensure t "Waiver rationale required") (spoken (p.strip rationale) explained)

  check_waiver-signed :
      (s : State) (candidate : Candidate) (at : String) (envelope : Envelope)
      (issued moment expires : ℕ)
      → IsWaivable s envelope
      → project_id s ≡ ok candidate.project_id
      → lookup run_id candidate.runs ≡ lookup run_id s.runs
      → p.parse_timestamp now ≡ some issued
      → p.parse_timestamp at ≡ some moment
      → p.parse_timestamp expires_at ≡ some expires
      → leb issued moment ≡ true
      → ltb moment expires ≡ true
      → check_waiver p candidate trust at envelope
        ≡ ok (record { run_id = run_id; fingerprint = fingerprint })
  unfolding check_waiver sign
  check_waiver-signed s candidate at envelope issued moment expires x owned frozen a b e le lt =
      let named : body x.project x.run ≡ envelope.payload =
        ap (λ (y : Envelope). y.payload) x.made in
      let project : x.project ≡ candidate.project_id = ok-injective (sym x.owned ∙ owned) in
      >>=-ok _ x.verified
      ∙ >>=-ok _ (
          ap (λ y. check_owner candidate y x.principal) (sym named)
          ∙ check_owner-body candidate x.project x.principal x.run project x.independent)
      ∙ >>=-ok _ (
          ap (check_period p at) (sym named)
          ∙ check_period-body x.project at x.run issued moment expires a b e le lt)
      ∙ >>=-ok _ (
          ap (check_evidence p candidate) (sym named)
          ∙ check_evidence-body s candidate x.project x.run
              (completed_run-IsCompleted s x.run x.completed) frozen)
      ∙ >>=-ok _
          (ap (check_rationale p) (sym named) ∙ check_rationale-body x.project x.run x.explained)

  -- A waiver that `waive` signs is one that the gate counts for its run and violation: for every
  -- candidate of the project that holds the run as the ledger does, at each moment from the signing
  -- on and before the expiry, under the same trust store.
  pub waive-check_waiver :
      (tx tx' : Transaction c) (envelope : Envelope) (s : State) (candidate : Candidate)
      (at : String) (issued moment expires : ℕ)
      → waive p w c key tx run_id fingerprint rationale owner expires_at attachments trust now
        ≡ ok (envelope, tx')
      → state_from p tx.events ≡ ok s
      → project_id s ≡ ok candidate.project_id
      → lookup run_id candidate.runs ≡ lookup run_id s.runs
      → p.parse_timestamp now ≡ some issued
      → p.parse_timestamp at ≡ some moment
      → p.parse_timestamp expires_at ≡ some expires
      → leb issued moment ≡ true
      → ltb moment expires ≡ true
      → check_waiver p candidate trust at envelope
        ≡ ok (record { run_id = run_id; fingerprint = fingerprint })
  waive-check_waiver tx tx' envelope s candidate at issued moment expires h before owned frozen a b
        e le lt =
      let (s', before', done) = waive-IsWaivable tx tx' envelope h in
      let same : s' ≡ s = ok-injective (sym before' ∙ before) in
      check_waiver-signed s candidate at envelope issued moment expires
        (subst (λ z. IsWaivable z envelope) same done) owned frozen a b e le lt

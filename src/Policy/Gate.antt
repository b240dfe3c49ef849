-- ===== src/Policy/Gate.antt =====
-- What a ready report of `evaluate` certifies.
use open_tapeout.Prelude.{
  String, Bool, true, false, Option, none, some, Option-cases, List, [], ◌∷◌, ◌++◌, ◌≡◌, ◌≢◌, refl,
  sym, ap, ◌∙◌, subst, inl, inr, arith, All, is_empty, Dict, eq_iff, any, values,
}
use open_tapeout.Result.{Failure, ok, >>=-eq-ok, ok-injective}
use open_tapeout.Records.{
  Completion, Run, Envelope, Candidate, Requirement, Policy, Trust, Platform,
}
use open_tapeout.Graph.{Graph, build}
use open_tapeout.Policy.{
  Report, evaluate, release_blockers, stale_blockers, is_clean_git, is_hashed_pdk, is_missing,
}
use open_tapeout.Policy.Waivers.{ValidWaiver, valid_waivers}
use open_tapeout.Policy.Roles.{Options, assign_roles}
use open_tapeout.Policy.Approvals.{collect_options}
use open_tapeout.Policy.Checks.{
  Blocker, block_if, block_each, CheckRow, run_for, requirement_key, stale_inputs, input_blockers,
  age_blockers, completion_blockers, run_blockers, evaluate_check, evaluate_checks,
}
use open_tapeout.Policy.Blocking.{
  append-eq-nil, false_of_block_if, concat-eq-nil, block_each-eq-nil, eq-nil_of_is_empty, All-map,
}
use open_tapeout.Policy.Outcomes.{IsEvidence, outcome_blockers-IsEvidence}
use open_tapeout.Policy.Inputs.{IsFresh, stale_inputs-IsFresh, IsBound, input_blockers-IsBound}

module _ (p : Platform) (g : Graph) (policy : Policy) (candidate : Candidate)
    (waivers : List ValidWaiver) (at : String) where
  -- A required check is established by a completed, fresh run of its kind and corner.
  pub record Establishes (check : Requirement) : Type 0 where
    pub run : Run
    pub found : run_for candidate (requirement_key check) ≡ some run
    pub fresh : IsFresh g run
    pub bound : IsBound p g policy check run (requirement_key check) []
    pub completion : Completion
    pub completed : run.completion ≡ some completion
    pub evidence : IsEvidence p policy waivers at check run completion

  IsEvidence-of_age :
      (check : Requirement) (run : Run) (scope : String)
      → age_blockers p policy waivers at check run scope ≡ ok []
      → (c : Completion) × (run.completion ≡ some c) × IsEvidence p policy waivers at check run c
  unfolding age_blockers completion_blockers block_if
  IsEvidence-of_age check run scope h = elim (Option-cases run.completion) [
    | inl running ↦ absurd (ground arith)
    | inr (c, e) ↦
        let h' = rw (e, age_blockers) at h in
        let (now, at_time, h1) = >>=-eq-ok _ _ h' in
        let (ended, end_time, h2) = >>=-eq-ok _ _ h1 in
        (
          c,
          e,
          outcome_blockers-IsEvidence p policy waivers at check run scope c now ended at_time
              end_time (ok-injective h2),
        )
  ]

  run_blockers-Establishes :
      (check : Requirement) (run : Run) (stale : List String)
      → run_for candidate (requirement_key check) ≡ some run
      → stale_inputs g run ≡ ok stale
      → run_blockers p g policy waivers at check run stale ≡ ok []
      → Establishes check
  unfolding run_blockers
  run_blockers-Establishes check run stale found inputs h =
      let scope = requirement_key check in
      let (outcome, aged, h1) = >>=-eq-ok (age_blockers p policy waivers at check run scope) _ h in
      let (first, last) =
        append-eq-nil (input_blockers p g policy check run scope stale) outcome (ok-injective h1) in
      let bound = input_blockers-IsBound p g policy check run scope stale first in
      let (c, completed, evidence) = IsEvidence-of_age check run scope (aged ∙ ap ok last) in
      record {
        run = run;
        found = found;
        fresh = stale_inputs-IsFresh g run (inputs ∙ ap ok bound.current);
        bound = subst (IsBound p g policy check run scope) bound.current bound;
        completion = c;
        completed = completed;
        evidence = evidence;
      }

  evaluate_check-Establishes :
      (check : Requirement) (row : CheckRow)
      → evaluate_check p g policy candidate waivers at check ≡ ok ([], row)
      → Establishes check
  unfolding evaluate_check block_if
  evaluate_check-Establishes check row h =
      elim (Option-cases (run_for candidate (requirement_key check))) [
        | inl missing ↦ absurd (ground arith)
        | inr (run, found) ↦
            let h' = rw (found, evaluate_check) at h in
            let (stale, inputs, h1) = >>=-eq-ok _ _ h' in
            let (blockers, outcome, h2) = >>=-eq-ok _ _ h1 in
            let none_left = ap (λ (t : List Blocker × CheckRow). t.0) (ok-injective h2) in
            run_blockers-Establishes check run stale found inputs (outcome ∙ ap ok none_left)
      ]

  evaluate_checks-Establishes :
      (checks : List Requirement) (rows : List CheckRow)
      → evaluate_checks p g policy candidate waivers at checks ≡ ok ([], rows)
      → All Establishes checks
  unfolding evaluate_checks
  evaluate_checks-Establishes [] rows h = tt
  evaluate_checks-Establishes (check ∷ checks) rows h =
      let (head, first, h1) =
        >>=-eq-ok (evaluate_check p g policy candidate waivers at check) _ h in
      let (tail, later, h2) =
        >>=-eq-ok (evaluate_checks p g policy candidate waivers at checks) _ h1 in
      let (none_here, none_later) =
        append-eq-nil head.0 tail.0
          (ap (λ (t : List Blocker × List CheckRow). t.0) (ok-injective h2)) in
      (
        evaluate_check-Establishes check head.1 (first ∙ ap (λ b. ok (b, head.1)) none_here),
        evaluate_checks-Establishes checks tail.1 (later ∙ ap (λ b. ok (b, tail.1)) none_later),
      )

-- The candidate as a whole: its policy, its trust store, its resources and its deliveries.
pub record IsSound (p : Platform) (g : Graph) (candidate : Candidate) (policy : Policy)
    (trust : Trust) : Type 0 where
  pub bound_policy : p.digest_policy policy ≡ candidate.policy_sha256
  pub bound_trust : trust.sha256 ≡ candidate.trust_sha256
  pub derived : All (λ (e : String × List String). e.1 ≡ []) g.stale
  pub git : policy.require_git ≡ true → any is_clean_git (values g.resources) ≡ true
  pub pdk : policy.require_hashed_pdk ≡ true → any is_hashed_pdk (values g.resources) ≡ true
  pub delivered : policy.require_delivery ≡ true → candidate.deliveries ≢ []

stale_blockers-eq-nil : (e : String × List String) → stale_blockers e ≡ [] → e.1 ≡ []
unfolding stale_blockers block_each block_if
stale_blockers-eq-nil (key, []) h = refl
stale_blockers-eq-nil (key, reason ∷ reasons) h = cc

some_of_present {ℓ} : {A : Type ℓ} (o : Option A) → is_missing o ≡ false → (a : A) × (o ≡ some a)
some_of_present none h = cc
some_of_present (some a) h = (a, refl)

module _ (p : Platform) where
  release_blockers-IsSound :
      (g : Graph) (candidate : Candidate) (policy : Policy) (trust : Trust)
      → release_blockers p g candidate policy trust ≡ []
      → IsSound p g candidate policy trust
  unfolding release_blockers
  release_blockers-IsSound g candidate policy trust h =
      let parts = concat-eq-nil _ h in
      let b = false_of_block_if _ _ _ _ parts.0 in
      let t = false_of_block_if _ _ _ _ parts.1.0 in
      let git = false_of_block_if _ _ _ _ parts.1.1.1.0 in
      let pdk = false_of_block_if _ _ _ _ parts.1.1.1.1.0 in
      let delivery = false_of_block_if _ _ _ _ parts.1.1.1.1.1.0 in
      record {
        bound_policy = ground (arith, eq_iff (p.digest_policy policy) candidate.policy_sha256);
        bound_trust = ground (arith, eq_iff trust.sha256 candidate.trust_sha256);
        derived = All-map g.stale stale_blockers-eq-nil (block_each-eq-nil _ _ parts.1.1.0);
        git = λ required. ground arith;
        pdk = λ required. ground arith;
        delivered = λ required e. ground arith;
      }

  -- All that a ready report of a gate with approvals stands for.
  pub record IsReleasable (candidate : Candidate) (policy : Policy) (trust : Trust)
      (approvals : List Envelope) (at : String) : Type 0 where
    pub graph : Graph
    pub built : build p candidate.resources ≡ ok graph
    pub sound : IsSound p graph candidate policy trust
    pub waivers : List ValidWaiver
    pub rejected : List Failure
    pub waived :
        valid_waivers p candidate trust at candidate.waivers ([], []) ≡ ok (waivers, rejected)
    pub established : All (Establishes p graph policy candidate waivers at) policy.required_checks
    pub options : Options
    pub refused : List Failure
    pub approved :
        collect_options p candidate policy trust at approvals ([], []) ≡ ok (options, refused)
    pub assignment : Dict String
    pub assigned :
        assign_roles policy.approval_roles options policy.distinct_approvers ≡ ok (some assignment)

  -- If the gate with approvals reports a candidate ready, then the policy and the trust store are the
  -- ones that the candidate is bound to, its dependency graph can be built and no resource is stale,
  -- the required Git, PDK and delivery evidence is there, every required check is established by a
  -- completed, fresh run that meets the requirement (age, exit code, capture, inputs, metrics) and
  -- whose every violation is waived, and the approvals give an assignment of the roles.
  pub evaluate-IsReleasable :
      (candidate : Candidate) (policy : Policy) (trust : Trust) (approvals : List Envelope)
      (at : String) (report : Report)
      → evaluate p candidate policy trust approvals at true ≡ ok report
      → report.ready ≡ true
      → IsReleasable candidate policy trust approvals at
  unfolding evaluate
  evaluate-IsReleasable candidate policy trust approvals at report h ready =
      let (g, built, h1) = >>=-eq-ok (build p candidate.resources) _ h in
      let (w, waived, h2) =
        >>=-eq-ok (valid_waivers p candidate trust at candidate.waivers ([], [])) _ h1 in
      let (c, checked, h3) =
        >>=-eq-ok (evaluate_checks p g policy candidate w.0 at policy.required_checks) _ h2 in
      let (o, approved, h4) =
        >>=-eq-ok (collect_options p candidate policy trust at approvals ([], [])) _ h3 in
      let (a, assigned, h5) =
        >>=-eq-ok (assign_roles policy.approval_roles o.0 policy.distinct_approvers) _ h4 in
      let clear = eq-nil_of_is_empty _ (ap (λ (r : Report). r.ready) (ok-injective h5) ∙ ready) in
      let (both, satisfied) =
        append-eq-nil (release_blockers p g candidate policy trust ++ c.0) _ clear in
      let (whole, each) = append-eq-nil (release_blockers p g candidate policy trust) c.0 both in
      let (assignment, present) = some_of_present a (false_of_block_if _ _ _ _ satisfied) in
      record {
        graph = g;
        built = built;
        sound = release_blockers-IsSound g candidate policy trust whole;
        waivers = w.0;
        rejected = w.1;
        waived = waived;
        established =
            evaluate_checks-Establishes p g policy candidate w.0 at policy.required_checks c.1
              (checked ∙ ap (λ b. ok (b, c.1)) each);
        options = o.0;
        refused = o.1;
        approved = approved;
        assignment = assignment;
        assigned = assigned ∙ ap ok present;
      }

  -- The report says ready exactly if it lists no blocker.
  pub evaluate-ready :
      (candidate : Candidate) (policy : Policy) (trust : Trust) (approvals : List Envelope)
      (at : String) (include : Bool) (report : Report)
      → evaluate p candidate policy trust approvals at include ≡ ok report
      → report.ready ≡ is_empty report.blockers
  unfolding evaluate
  evaluate-ready candidate policy trust approvals at include report h =
      let (g, built, h1) = >>=-eq-ok (build p candidate.resources) _ h in
      let (w, waived, h2) =
        >>=-eq-ok (valid_waivers p candidate trust at candidate.waivers ([], [])) _ h1 in
      let (c, checked, h3) =
        >>=-eq-ok (evaluate_checks p g policy candidate w.0 at policy.required_checks) _ h2 in
      let (o, approved, h4) =
        >>=-eq-ok (collect_options p candidate policy trust at approvals ([], [])) _ h3 in
      let (a, assigned, h5) =
        >>=-eq-ok (assign_roles policy.approval_roles o.0 policy.distinct_approvers) _ h4 in
      let e = ok-injective h5 in
      sym (ap (λ (r : Report). r.ready) e) ∙ ap (λ (r : Report). is_empty r.blockers) e

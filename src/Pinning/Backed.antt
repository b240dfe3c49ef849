-- ===== src/Pinning/Backed.antt =====
-- Every pin that `pin_policy` of pinning.py sets comes from evidence of now.
use open_tapeout.Prelude.{
  String, true, ◌&&◌, and-eq-true, Option, none, some, List, [], ◌∷◌, ◌≡◌, refl, subst, All, Dict,
  lookup, keys, values, is_empty, str_eq, eq_iff,
}
use open_tapeout.Result.{ok, known, known-eq-ok, >>=-eq-ok, ensure-eq-ok, ok-injective}
use open_tapeout.Json.{obj}
use open_tapeout.Records.{Completion, ExecutionIdentity, Run, Requirement, Policy, Platform}
use open_tapeout.Graph.{Graph, build, closure}
use open_tapeout.Graph.Drift.{Workspace, assert_fresh}
use open_tapeout.Policy.Checks.{requirement_key, same_dict}
use open_tapeout.Policy.Schema.{validate_policy}
use open_tapeout.Engine.State.{State}
use open_tapeout.Engine.Scope.{latest_by_check}
use open_tapeout.Policy.Blocking.{eq-nil_of_is_empty}
use open_tapeout.Pinning.Evidence.{
  AreFresh, assert_fresh-AreFresh, AreSame, same_dict-AreSame, captured-intact, IsKnownTool,
  known_tool-IsKnownTool, is_identified-unchanged, ArePins, digests_at-ArePins,
}
use open_tapeout.Pinning.{
  is_identified, captured, fresh_evidence, known_tool, digests_at, pin_requirement,
  pin_requirements, policy_object, pin_policy,
}

module _ (p : Platform) (w : Workspace) where
  -- An object was captured, and the store holds its bytes.
  abbrev pub IsIntact : Option String → Type 0
  IsIntact o = (checksum : String) × (o ≡ some checksum) × (w.object_error checksum ≡ none)

  -- The latest run of a check: complete, managed, of inputs that are fresh now, by a pinned executable
  -- that did not change, with its captured bytes intact; and the requirement pins exactly its inputs.
  pub record IsBacked (g : Graph) (latest : Dict Run) (r : Requirement) : Type 0 where
    pub run : Run
    pub completion : Completion
    pub current : Dict String
    pub pin : String
    pub found : lookup (requirement_key r) latest ≡ some run
    pub completed : run.completion ≡ some completion
    pub managed : completion.capture_mode ≡ "managed"
    pub reached : closure g run.roots ≡ ok current
    pub fresh : AreFresh w g (keys current)
    pub same : AreSame current run.snapshot
    pub undrifted : completion.input_drift ≡ []
    pub executable : IsKnownTool p w g run pin
    pub identified :
        (identity : ExecutionIdentity) × (completion.execution_identity ≡ some identity)
        × (identity.sha256 ≡ pin)
        × (identity.unchanged ≡ true)
    pub report : IsIntact completion.report_sha256
    pub stdout : IsIntact completion.stdout_sha256
    pub stderr : IsIntact completion.stderr_sha256
    pub pins : ArePins p w g.resources (keys current) r.input_pins
    pub formats : r.report_formats ≡ completion.format ∷ []
    pub tool : r.allowed_tools ≡ run.tool ∷ []
    pub strict : r.require_pinned_executable ≡ true

  record IsFresh (g : Graph) (run : Run) (t : Completion × Dict String) : Type 0 where
    completed : run.completion ≡ some t.0
    managed : t.0.capture_mode ≡ "managed"
    reached : closure g run.roots ≡ ok t.1
    fresh : AreFresh w g (keys t.1)
    same : AreSame t.1 run.snapshot
    undrifted : t.0.input_drift ≡ []

  fresh_evidence-IsFresh :
      (g : Graph) (run : Run) (t : Completion × Dict String)
      → fresh_evidence p w g run ≡ ok t
      → IsFresh g run t
  unfolding fresh_evidence
  fresh_evidence-IsFresh g run t h =
      let (c, completed, h1) =
        >>=-eq-ok
          (known run.completion "Pinning requires a completed latest run for every required check")
          _ h in
      let (managed, h2) = ensure-eq-ok (str_eq c.capture_mode "managed") _ _ h1 in
      let (current, reached, h3) = >>=-eq-ok (closure g run.roots) _ h2 in
      let (_, fresh, h4) = >>=-eq-ok (assert_fresh w g (keys current)) _ h3 in
      let (still, h5) =
        ensure-eq-ok (same_dict current run.snapshot && is_empty c.input_drift) _ _ h4 in
      let (same, undrifted) = and-eq-true (same_dict current run.snapshot) _ still in
      subst (IsFresh g run) (ok-injective h5) (record {
        completed = known-eq-ok _ _ completed;
        managed = (eq_iff c.capture_mode "managed").0 managed;
        reached = reached;
        fresh = assert_fresh-AreFresh w g (keys current) fresh;
        same = same_dict-AreSame current run.snapshot same;
        undrifted = eq-nil_of_is_empty c.input_drift undrifted;
      })

  pin_requirement-IsBacked :
      (g : Graph) (latest : Dict Run) (r r' : Requirement)
      → pin_requirement p w g latest r ≡ ok r'
      → IsBacked g latest r'
  unfolding pin_requirement
  pin_requirement-IsBacked g latest r r' h =
      let (run, found, h1) =
        >>=-eq-ok
          (known (lookup (requirement_key r) latest)
            "Pinning requires a completed latest run for every required check")
          _ h in
      let (t, evidence, h2) = >>=-eq-ok (fresh_evidence p w g run) _ h1 in
      let (pin, executable, h3) = >>=-eq-ok (known_tool p w g run) _ h2 in
      let (identified, h4) = ensure-eq-ok (is_identified t.0.execution_identity pin) _ _ h3 in
      let (_, report, h5) = >>=-eq-ok (captured p w t.0.report_sha256) _ h4 in
      let (_, stdout, h6) = >>=-eq-ok (captured p w t.0.stdout_sha256) _ h5 in
      let (_, stderr, h7) = >>=-eq-ok (captured p w t.0.stderr_sha256) _ h6 in
      let (pins, pinned, h8) = >>=-eq-ok (digests_at g.resources (keys t.1)) _ h7 in
      let x = fresh_evidence-IsFresh g run t evidence in
      subst (IsBacked g latest) (ok-injective h8) (record {
        run = run;
        completion = t.0;
        current = t.1;
        pin = pin;
        found = known-eq-ok _ _ found;
        completed = x.completed;
        managed = x.managed;
        reached = x.reached;
        fresh = x.fresh;
        same = x.same;
        undrifted = x.undrifted;
        executable = known_tool-IsKnownTool p w g run pin executable;
        identified = is_identified-unchanged p w t.0.execution_identity pin identified;
        report = captured-intact p w t.0.report_sha256 report;
        stdout = captured-intact p w t.0.stdout_sha256 stdout;
        stderr = captured-intact p w t.0.stderr_sha256 stderr;
        pins = digests_at-ArePins p w g.resources (keys t.1) pins pinned;
        formats = refl;
        tool = refl;
        strict = refl;
      })

  pin_requirements-IsBacked :
      (g : Graph) (latest : Dict Run) (rs rs' : List Requirement)
      → pin_requirements p w g latest rs ≡ ok rs'
      → All (IsBacked g latest) rs'
  unfolding pin_requirements
  pin_requirements-IsBacked g latest [] rs' h = subst (All (IsBacked g latest)) (ok-injective h) tt
  pin_requirements-IsBacked g latest (r ∷ rest) rs' h =
      let (r', one, h1) = >>=-eq-ok (pin_requirement p w g latest r) _ h in
      let (others, more, h2) = >>=-eq-ok (pin_requirements p w g latest rest) _ h1 in
      subst (All (IsBacked g latest)) (ok-injective h2) (
        pin_requirement-IsBacked g latest r r' one,
        pin_requirements-IsBacked g latest rest others more,
      )

  -- Every required check of a policy that `pin_policy` makes is backed: its latest run is complete and
  -- managed, and saw no drift; its inputs are those of its snapshot, none is stale, and the workspace
  -- still shows each as registered; its tool and corner are metadata alone, the tool that ran is the
  -- registered one, and the digest of its executable, unchanged by the run, is the pin it was
  -- registered with; report and both outputs were captured and are intact; and the requirement allows
  -- this tool and the format of this report, and pins exactly these inputs by their digests.
  pub pin_policy-IsBacked :
      (s : State) (given result : Policy)
      → pin_policy p w s given ≡ ok result
      → (g : Graph) × (build p s.resources ≡ ok g)
        × All (IsBacked g (latest_by_check (values s.runs) [])) result.required_checks
  unfolding pin_policy
  pin_policy-IsBacked s given result h =
      let (g, built, h1) = >>=-eq-ok (build p s.resources) _ h in
      let latest = latest_by_check (values s.runs) [] in
      let (pinned, backed, h2) =
        >>=-eq-ok (pin_requirements p w g latest given.required_checks) _ h1 in
      let made : Policy = record given {
        schema = "opentapeout.policy/v2";
        required_checks = pinned;
      } in
      let (_, _, h3) = >>=-eq-ok (validate_policy (obj (policy_object made))) _ h2 in
      (
        g,
        built,
        subst (λ (x : Policy). All (IsBacked g latest) x.required_checks) (ok-injective h3)
            (pin_requirements-IsBacked g latest given.required_checks pinned backed),
      )

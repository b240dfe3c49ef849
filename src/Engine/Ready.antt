-- ===== src/Engine/Ready.antt =====
-- What a ready report of the gate under the ledger's lock shows, and what keeps it from being ready.
use open_tapeout.Prelude.{
  keys, Dict, subst, String, true, false, none, some, Option-cases, Bool-cases, List, [], ◌∷◌, ◌++◌,
  ◌≡◌, refl, ap, ◌∙◌, arith, Dict, lookup, has, str_eq, eq_iff, if◌then◌else◌, inl, inr, is_empty,
  All, any,
}
use open_tapeout.Result.{ok, >>=-eq-ok, ok-injective}
use open_tapeout.Records.{Resource, Candidate, Policy, Trust, Platform}
use open_tapeout.Graph.{Graph, build}
use open_tapeout.Graph.Drift.{Workspace, drift}
use open_tapeout.Graph.Unchanged.{IsUnchanged, drift-IsUnchanged, build-resources}
use open_tapeout.Policy.{Report, evaluate}
use open_tapeout.Policy.Checks.{Blocker}
use open_tapeout.Policy.Blocking.{append-eq-nil, eq-nil_of_is_empty}
use open_tapeout.Policy.Gate.{IsReleasable, evaluate-IsReleasable, evaluate-ready}
use open_tapeout.Engine.State.{State, Payload}
use open_tapeout.Store.{Codec, Transaction, Checkpoint}
use open_tapeout.Engine.Scope.{scope_view, object_refs}
use open_tapeout.Engine.Release.{
  blocker_eq, add_blockers, drift_blockers, object_blockers, candidate_named, withdrawal_blockers,
  compare_view, active_approvals, gate_state, gate,
}

add_blockers-eq-nil : (known live : List Blocker) → add_blockers known live ≡ [] → known ≡ []
unfolding add_blockers
add_blockers-eq-nil known [] h = h
add_blockers-eq-nil known (b ∷ live) h =
    let old = any (λ k. blocker_eq k b) known in
    let kept = add_blockers-eq-nil (if old then known else known ++ b ∷ []) live h in
    elim (Bool-cases old) [
      | inl e ↦ rw e at kept
      | inr e ↦ (append-eq-nil known (b ∷ []) (rw e at kept)).0
    ]

drift_blockers-eq-nil : (drift : Dict String) → drift_blockers drift ≡ [] → drift ≡ []
unfolding drift_blockers
drift_blockers-eq-nil [] h = refl
drift_blockers-eq-nil (d ∷ drift) h = cc

object_blockers-eq-nil :
    (w : Workspace) (refs : List String)
    → object_blockers w refs ≡ []
    → All (λ r. w.object_error r ≡ none) refs
unfolding object_blockers
object_blockers-eq-nil w [] h = tt
object_blockers-eq-nil w (r ∷ refs) h = elim (Option-cases (w.object_error r)) [
  | inl fine ↦ (fine, object_blockers-eq-nil w refs (ground arith))
  | inr (reason, e) ↦ absurd (ground arith)
]

snoc-ne-nil : (xs : List Blocker) (b : Blocker) → (xs ++ b ∷ []) ≡ [] → ⊥
snoc-ne-nil [] b h = cc
snoc-ne-nil (x ∷ xs) b h = cc

module _ (p : Platform) (w : Workspace) (s : State) (name : String) (policy : Policy)
    (trust : Trust) (at : String) where
  -- All that a ready report stands for, beside what `evaluate` establishes of the candidate.
  pub record IsCleared : Type 0 where
    pub candidate : Candidate
    pub named : lookup name s.candidates ≡ some candidate
    pub releasable : IsReleasable p candidate policy trust (active_approvals p s) at
    pub not_withdrawn : has (p.digest_candidate candidate) s.withdrawals ≡ false
    pub view : Candidate
    pub viewed : scope_view p s candidate policy trust ≡ ok view
    pub unchanged : p.digest_candidate view ≡ p.digest_candidate candidate
    pub no_drift :
        All
          (λ k. (r : Resource) × (lookup k s.resources ≡ some r) × IsUnchanged w r)
          (keys s.resources)
    pub refs : List String
    pub needed : object_refs candidate ≡ ok refs
    pub intact : All (λ r. w.object_error r ≡ none) refs

  named-lookup :
      (candidate : Candidate)
      → candidate_named s name ≡ ok candidate
      → lookup name s.candidates ≡ some candidate
  unfolding candidate_named
  named-lookup candidate h = ground arith

  not_withdrawn_of :
      (candidate : Candidate)
      → withdrawal_blockers p s candidate name ≡ []
      → has (p.digest_candidate candidate) s.withdrawals ≡ false
  not_withdrawn_of candidate h = ground arith

  drift_lookups :
      (graph : Graph)
      → build p s.resources ≡ ok graph
      → drift w graph.resources (keys graph.resources) ≡ ok []
      → All
          (λ k. (r : Resource) × (lookup k s.resources ≡ some r) × IsUnchanged w r)
          (keys s.resources)
  drift_lookups graph built h =
      let same = build-resources p s.resources graph built in
      subst
        (λ (m : Dict Resource).
          All (λ k. (r : Resource) × (lookup k m ≡ some r) × IsUnchanged w r) (keys m))
        same (drift-IsUnchanged w graph.resources (keys graph.resources) h)

  -- A comparison that leaves no blocker found the same digest and added nothing.
  compare_view-clear :
      (candidate current : Candidate) (report compared : Report)
      → compare_view p name candidate current policy trust at report ≡ ok compared
      → compared.blockers ≡ []
      → (p.digest_candidate current ≡ p.digest_candidate candidate) × (report.blockers ≡ [])
  unfolding compare_view
  compare_view-clear candidate current report compared h clear =
      elim (Bool-cases (str_eq (p.digest_candidate current) (p.digest_candidate candidate))) [
        | inl same ↦ (
          (eq_iff _ _).0 same,
          ap (λ (r : Report). r.blockers) (ok-injective (rw same at h)) ∙ clear,
        )
        | inr differs ↦
            let (live, _, h1) =
              >>=-eq-ok (evaluate p current policy trust [] at false) _ (rw differs at h) in
            let all = ap (λ (r : Report). r.blockers) (ok-injective h1) ∙ clear in
            absurd (snoc-ne-nil _ _ (add_blockers-eq-nil _ live.blockers all))
      ]

  ready_of_clear :
      (report : Report)
      → report.blockers ≡ []
      → report.ready ≡ is_empty report.blockers
      → report.ready ≡ true
  ready_of_clear report clear e = e ∙ ap is_empty clear

  -- If the gate with approvals reports a candidate ready, then what `evaluate` establishes holds of
  -- it, with the approvals that are not revoked; it was not withdrawn; its present view has its own
  -- digest; no registered input has drifted; and every object that it refers to is intact.
  pub gate_state-IsCleared :
      (report : Report)
      → gate_state p w s name policy trust at true ≡ ok report
      → report.ready ≡ true
      → IsCleared
  unfolding gate_state
  gate_state-IsCleared report h ready =
      let (candidate, named, h1) = >>=-eq-ok (candidate_named s name) _ h in
      let (r, evaluated, h2) =
        >>=-eq-ok (evaluate p candidate policy trust (active_approvals p s) at true) _ h1 in
      let (view, viewed, h3) = >>=-eq-ok (scope_view p s candidate policy trust) _ h2 in
      let noted : Report = record r {
        blockers = r.blockers ++ withdrawal_blockers p s candidate name;
      } in
      let (compared, comparison, h4) =
        >>=-eq-ok (compare_view p name candidate view policy trust at noted) _ h3 in
      let (graph, built, h5) = >>=-eq-ok (build p s.resources) _ h4 in
      let (found, observed, h6) = >>=-eq-ok (drift w graph.resources (keys graph.resources)) _ h5 in
      let (refs, needed, h7) = >>=-eq-ok (object_refs candidate) _ h6 in
      let clear = eq-nil_of_is_empty _ (ap (λ (x : Report). x.ready) (ok-injective h7) ∙ ready) in
      let (both, objects) = append-eq-nil (compared.blockers ++ drift_blockers found) _ clear in
      let (own, drifted) = append-eq-nil compared.blockers _ both in
      let (unchanged, before) = compare_view-clear candidate view noted compared comparison own in
      let (evaluated_clear, withdrawal) = append-eq-nil r.blockers _ before in
      record {
        candidate = candidate;
        named = named-lookup candidate named;
        releasable =
            evaluate-IsReleasable p candidate policy trust (active_approvals p s) at r evaluated (
              ready_of_clear r evaluated_clear (
                evaluate-ready p candidate policy trust (active_approvals p s) at true r
                  evaluated));
        not_withdrawn = not_withdrawn_of candidate withdrawal;
        view = view;
        viewed = viewed;
        unchanged = unchanged;
        no_drift = drift_lookups graph built (observed ∙ ap ok (drift_blockers-eq-nil _ drifted));
        refs = refs;
        needed = needed;
        intact = object_blockers-eq-nil w refs objects;
      }

-- The gate under the ledger's lock passes for a release, approvals included.
abbrev pub IsReady :
    Platform
    → (c : Codec String Payload) → Workspace
    → Transaction c
    → String
    → Policy
    → Trust
    → String
    → Type 0
IsReady p c w tx name policy trust now =
    (report : Report × Checkpoint c) × (gate p w c tx name policy trust now true ≡ ok report)
    × (report.0.ready ≡ true)

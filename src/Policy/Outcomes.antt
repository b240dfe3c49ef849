-- ===== src/Policy/Outcomes.antt =====
-- What a completed run that blocks nothing has established: `outcome_blockers`.
use open_tapeout.Prelude.{
  ℕ, ◌+◌, ◌≤◌, String, Bool, true, false, not, some, Option-cases, List, [], ◌≡◌, ◌≢◌, inl, inr,
  arith, All, lookup, eq_iff, ℤ, pos, eqb_ℤ,
}
use open_tapeout.Result.{ok}
use open_tapeout.Json.{num, str, Number, number_lt}
use open_tapeout.Util.{finite_number}
use open_tapeout.Records.{Outcome, Completion, Run, Limits, Requirement, Policy, Platform}
use open_tapeout.Signing.{timestamp}
use open_tapeout.Policy.Waivers.{ValidWaiver}
use open_tapeout.Policy.Checks.{block_if, outcome_blockers, metric_blockers, is_waived}
use open_tapeout.Policy.Blocking.{
  false_of_block_if, concat-eq-nil, block_each-eq-nil, eq-nil_of_is_empty, All-map,
}

-- A metric that a requirement limits was reported, is finite and keeps within its limits.
pub record IsWithin (result : Outcome) (name : String) (bounds : Limits) : Type 0 where
  pub value : Number
  pub reported : lookup name result.metrics ≡ some value
  pub finite : finite_number (num value) ≡ true
  pub not_below : (low : Number) → bounds.min ≡ some low → number_lt value low ≡ false
  pub not_above : (high : Number) → bounds.max ≡ some high → number_lt high value ≡ false

metric_blockers-IsWithin :
    (result : Outcome) (scope name : String) (bounds : Limits)
    → metric_blockers result scope (name, bounds) ≡ []
    → IsWithin result name bounds
unfolding metric_blockers block_if
metric_blockers-IsWithin result scope name bounds h =
    elim (Option-cases (lookup name result.metrics)) [
      | inl missing ↦ absurd (ground arith)
      | inr (value, found) ↦ record {
        value = value;
        reported = found;
        finite = ground arith;
        not_below = λ low e. ground arith;
        not_above = λ high e. ground arith;
      }
    ]

-- A completed run establishes a check: its age, its exit, its report, its waivers and its metrics.
pub record IsEvidence (p : Platform) (policy : Policy) (waivers : List ValidWaiver) (at : String)
    (check : Requirement) (run : Run) (c : Completion) : Type 0 where
  pub now : ℕ
  pub ended : ℕ
  pub at_time : timestamp p (str at) ≡ ok now
  pub end_time : timestamp p (str c.completed_at) ≡ ok ended
  pub not_future : ended ≤ now
  pub not_old : now ≤ ended + p.hours check.max_age_hours
  pub no_drift : c.input_drift ≡ []
  pub succeeded : c.exit_code ≡ pos 0
  pub managed : policy.require_managed_runs ≡ true → c.capture_mode ≡ "managed"
  pub complete : c.result.complete ≡ true
  pub known : c.result.status ≢ "unknown"
  pub itemised : c.result.status ≡ "fail" → c.result.violations ≢ []
  pub waived : All (λ v. is_waived waivers run v ≡ true) c.result.violations
  pub measured : All (λ (m : String × Limits). IsWithin c.result m.0 m.1) check.metrics

exit_zero : (z : ℤ) → eqb_ℤ z (pos 0) ≡ true → z ≡ pos 0
exit_zero z h = ground arith

not-not : (b : Bool) → not b ≡ false → b ≡ true
not-not b h = ground arith

module _ (p : Platform) (policy : Policy) (waivers : List ValidWaiver) (at : String)
    (check : Requirement) (run : Run) (scope : String) where
  pub outcome_blockers-IsEvidence :
      (c : Completion) (now ended : ℕ)
      → timestamp p (str at) ≡ ok now
      → timestamp p (str c.completed_at) ≡ ok ended
      → outcome_blockers p policy waivers check run scope c now ended ≡ []
      → IsEvidence p policy waivers at check run c
  unfolding outcome_blockers
  outcome_blockers-IsEvidence c now ended at_time end_time h =
      let g = concat-eq-nil _ h in
      let too_old = false_of_block_if _ _ _ _ g.0 in
      let drifted = false_of_block_if _ _ _ _ g.1.0 in
      let failed = false_of_block_if _ _ _ _ g.1.1.0 in
      let unmanaged = false_of_block_if _ _ _ _ g.1.1.1.0 in
      let unknown = false_of_block_if _ _ _ _ g.1.1.1.1.0 in
      let bare = false_of_block_if _ _ _ _ g.1.1.1.1.1.0 in
      record {
        now = now;
        ended = ended;
        at_time = at_time;
        end_time = end_time;
        not_future = ground arith;
        not_old = ground arith;
        no_drift = eq-nil_of_is_empty _ (ground arith);
        succeeded = exit_zero c.exit_code (ground arith);
        managed = λ m. ground (arith, eq_iff c.capture_mode "managed");
        complete = ground arith;
        known = λ e. ground (arith, eq_iff c.result.status "unknown");
        itemised = λ e f. ground (arith, eq_iff c.result.status "fail");
        waived =
            All-map c.result.violations
              (λ v e. not-not (is_waived waivers run v) (false_of_block_if _ _ _ _ e))
              (block_each-eq-nil _ _ g.1.1.1.1.1.1.0);
        measured =
            All-map check.metrics (λ m e. metric_blockers-IsWithin c.result scope m.0 m.1 e)
              (block_each-eq-nil _ _ g.1.1.1.1.1.1.1.0);
      }

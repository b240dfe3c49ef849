-- ===== src/Engine/Withdrawal.antt =====
-- Withdrawal is final: what the gate says of a candidate after `release.withdrawn`.
use open_tapeout.Prelude.{
  String, true, false, some, List, ◌≡◌, sym, ap, ◌∙◌, Bool-cases, inl, inr, eq_of_some, lookup, has,
  arith,
}
use open_tapeout.Result.{ok}
use open_tapeout.Records.{Candidate, Policy, Trust, Platform}
use open_tapeout.Policy.{Report}
use open_tapeout.Engine.State.{State, LedgerEvent, replay}
use open_tapeout.Graph.Drift.{Workspace}
use open_tapeout.Engine.Release.{gate_state}
use open_tapeout.Engine.History.{withdrawn, replay-Extends}
use open_tapeout.Engine.Ready.{gate_state-IsCleared}

-- Once the digest of a candidate is withdrawn, no report of the gate with approvals says ready for
-- it, whatever events follow, and under whatever policy, trust store and time.
pub gate_state-withdrawn :
    (p : Platform) (w : Workspace) (later : List LedgerEvent) (s s' : State) (name : String)
    (candidate : Candidate) (policy : Policy) (trust : Trust) (at : String) (report : Report)
    → has (p.digest_candidate candidate) s.withdrawals ≡ true
    → replay p s later ≡ ok s'
    → lookup name s'.candidates ≡ some candidate
    → gate_state p w s' name policy trust at true ≡ ok report
    → report.ready ≡ false
gate_state-withdrawn p w later s s' name candidate policy trust at report gone follows named h =
    elim (Bool-cases report.ready) [
      | inr not_ready ↦ not_ready
      | inl ready ↦
          let cleared = gate_state-IsCleared p w s' name policy trust at report h ready in
          let same = eq_of_some (sym named ∙ cleared.named) in
          let still =
            (replay-Extends p later s s' follows).decisions withdrawn (p.digest_candidate candidate)
              gone in
          let free =
            ap (λ c. has (p.digest_candidate c) s'.withdrawals) same ∙ cleared.not_withdrawn in
          absurd (ground arith)
    ]

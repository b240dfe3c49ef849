-- ===== src/Policy.antt =====
-- src/opentapeout/policy.py: `evaluate`, the gate that says what blocks a release.
--
-- The policy has passed `validate_policy`, whose tests of the JSON are the type `Policy` here. A
-- message that quotes a value is its constant part.
pub mod Waivers
pub mod Roles
pub mod Checks
pub mod Approvals
pub mod Blocking
pub mod Outcomes
pub mod Inputs
pub mod Gate
pub mod Schema
use open_tapeout.Prelude.{
  ℕ, String, Bool, true, false, ◌&&◌, ◌||◌, not, Option, none, some, List, [], ◌∷◌, ◌++◌, map,
  length, is_empty, str_eq, Dict, values, any, if◌then◌else◌,
}
use open_tapeout.Result.{Failure, Result, ok, err, ◌>>=◌}
use open_tapeout.Json.{Json, bool, Fields, get?, field_is}
use open_tapeout.Records.{Resource, Envelope, Candidate, Policy, Trust, Platform}
use open_tapeout.Graph.{Graph, build}
use open_tapeout.Policy.Waivers.{valid_waivers}
use open_tapeout.Policy.Roles.{assign_roles}
use open_tapeout.Policy.Checks.{
  Blocker, concat, block_if, block_each, CheckRow, evaluate_checks, is_directory_tree,
}
use open_tapeout.Policy.Approvals.{collect_options}

pub record Report : Type 0 where
  pub ready : Bool
  pub candidate_sha256 : String
  pub evaluated_at : String
  pub blockers : List Blocker
  pub checks : List CheckRow
  pub approval_assignment : Dict String
  pub valid_waivers : ℕ
  pub rejected_waivers : List Failure
  pub rejected_approvals : List Failure

-- `block("DERIVATION_STALE", reason, key)` for each reason of each resource
unfoldable pub stale_blockers : String × List String → List Blocker
stale_blockers (key, reasons) =
    block_each (λ reason. block_if true "DERIVATION_STALE" reason key) reasons

-- `r["metadata"].get("dirty") is False`
abbrev pub is_clean : Fields → Bool
is_clean metadata = elim (get? "dirty" metadata) [ some (bool b) ↦ not b | _ ↦ false ]

abbrev pub is_clean_git : Resource → Bool
is_clean_git r =
    str_eq r.kind "git" && field_is "capture" "git-worktree" r.metadata && is_clean r.metadata

abbrev pub is_hashed_pdk : Resource → Bool
is_hashed_pdk r =
    str_eq r.kind "pdk" && (elim r.path [ none ↦ false | some _ ↦ true ] || is_directory_tree r)

-- What `evaluate` adds before its loop over the required checks.
unfoldable pub release_blockers : Platform → Graph → Candidate → Policy → Trust → List Blocker
release_blockers p g candidate policy trust = concat (
    block_if (not (str_eq (p.digest_policy policy) candidate.policy_sha256)) "POLICY_CHANGED"
      "Candidate is bound to a different release policy" "release"
    ∷ block_if (not (str_eq trust.sha256 candidate.trust_sha256)) "TRUST_CHANGED"
        "Trust store changed; re-review candidate and signatures" "release"
    ∷ block_each stale_blockers g.stale
    ∷ block_if (policy.require_git && not (any is_clean_git (values g.resources)))
        "GIT_PROVENANCE_MISSING" "A captured clean Git worktree with a full commit is required"
        "release"
    ∷ block_if (policy.require_hashed_pdk && not (any is_hashed_pdk (values g.resources)))
        "PDK_CHECKSUM_MISSING" "A file-backed PDK manifest/archive checksum is required" "release"
    ∷ block_if (policy.require_delivery && is_empty candidate.deliveries) "DELIVERY_MISSING"
        "At least one GDS/OASIS delivery is required" "release"
    ∷ [])

abbrev pub is_missing {ℓ} : {A : Type ℓ} → Option A → Bool
is_missing none = true
is_missing (some _) = false

unfoldable pub evaluate :
    Platform → Candidate → Policy → Trust → List Envelope → String → Bool → Result Report
evaluate p candidate policy trust approvals at include_approvals = do
  g ← build p candidate.resources
  (waivers, rejected) ← valid_waivers p candidate trust at candidate.waivers ([], [])
  (check_blockers, rows) ← evaluate_checks p g policy candidate waivers at policy.required_checks
  (options, rejected_approvals) ← collect_options p candidate policy trust at approvals ([], [])
  assignment ← assign_roles policy.approval_roles options policy.distinct_approvers
  let blockers =
      release_blockers p g candidate policy trust
      ++ check_blockers
      ++ block_if (include_approvals && is_missing assignment) "APPROVALS_MISSING"
          "Required valid approvals (and distinct principals) are not satisfied" "release"
  ok (record {
    ready = is_empty blockers;
    candidate_sha256 = p.digest_candidate candidate;
    evaluated_at = at;
    blockers = blockers;
    checks = rows;
    approval_assignment = elim assignment [ none ↦ [] | some a ↦ a ];
    valid_waivers = length waivers;
    rejected_waivers = rejected;
    rejected_approvals = rejected_approvals;
  })

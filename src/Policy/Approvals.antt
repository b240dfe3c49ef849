-- ===== src/Policy/Approvals.antt =====
-- The loop of `evaluate` over the approvals (policy.py): which principals may fill which role.
pub mod Justified
use open_tapeout.Prelude.{
  ◌+◌, String, ◌&&◌, not, List, [], ◌∷◌, ◌++◌, leb, str_eq, insert, contains, add, if◌then◌else◌,
}
use open_tapeout.Result.{Failure, Result, ok, err, ensure, ◌>>=◌, ◌>>◌, tapeout}
use open_tapeout.Json.{Json, str, get, is_text}
use open_tapeout.Records.{Envelope, Candidate, Policy, Trust, Platform}
use open_tapeout.Signing.{verify, timestamp}
use open_tapeout.Policy.Waivers.{caught}
use open_tapeout.Policy.Roles.{Options, options_for}

-- `role in policy["approval_roles"]`; the role is read as the text that it then is.
unfoldable pub required_role : Policy → Json → Result String
required_role policy (str role) = do
  ensure (contains role policy.approval_roles) "Approval role is not required by policy"
  ok role
required_role policy _ = err (tapeout "Approval role is not required by policy")

-- The body of the `try`: the role and the principal who approves in it.
unfoldable pub check_approval :
    Platform → Candidate → Policy → Trust → String → Envelope → Result (String × String)
unfolding required_role
check_approval p candidate policy trust at envelope = do
  claimed ← get "role" envelope.payload
  role ← required_role policy claimed
  (body, principal) ← verify p trust envelope role "opentapeout.approval/v1"
  candidate_sha256 ← get "candidate_sha256" body
  ensure (is_text (p.digest_candidate candidate) candidate_sha256)
      "Approval is bound to different candidate content"
  project_id ← get "project_id" body
  ensure (is_text candidate.project_id project_id)
      "Approval is bound to different candidate content"
  decision ← get "decision" body
  ensure (is_text "approve" decision) "Approval decision is not approve"
  ensure (not (policy.forbid_self_approval && str_eq principal candidate.created_by))
      "Candidate author cannot approve their own release"
  now ← timestamp p (str at)
  created_at ← get "created_at" body
  created ← timestamp p created_at
  ensure (leb created now && leb now (created + p.hours policy.max_approval_age_hours))
      "Approval expired or future-dated"
  ok (role, principal)

-- `options.setdefault(role, set()).add(principal)`
unfoldable pub add_option : String → String → Options → Options
unfolding options_for
add_option role principal options = insert role (add principal (options_for options role)) options

unfoldable pub add_approval :
    Result (String × String) → Options × List Failure → Result (Options × List Failure)
unfolding caught add_option
add_approval (ok (role, principal)) (options, rejected) =
    ok (add_option role principal options, rejected)
add_approval (err e) (options, rejected) =
    if caught e then ok (options, rejected ++ e ∷ []) else err e

unfoldable pub collect_options :
    Platform
    → Candidate
    → Policy
    → Trust
    → String
    → List Envelope
    → Options × List Failure
    → Result (Options × List Failure)
unfolding check_approval add_approval
collect_options p candidate policy trust at [] found = ok found
collect_options p candidate policy trust at (envelope ∷ rest) found = do
  found' ← add_approval (check_approval p candidate policy trust at envelope) found
  collect_options p candidate policy trust at rest found'

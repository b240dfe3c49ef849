-- ===== src/Engine/Release.antt =====
-- `_gate`, `approve` and `_candidate` of engine.py, over the events of a transaction.
use open_tapeout.Prelude.{
  String, Bool, true, false, ◌&&◌, not, none, some, List, [], ◌∷◌, ◌++◌, Dict, keys, lookup, has,
  contains, any, is_empty, str_eq, str_le, if◌then◌else◌, length, leb,
}
use open_tapeout.Result.{Result, ok, err, ensure, tapeout, type_error, ◌>>=◌, ◌>>◌}
use open_tapeout.Json.{str, Fields, end, field}
use open_tapeout.Util.{identifier, codes}
use open_tapeout.Util.Paths.{safe_relative}
use open_tapeout.Records.{Envelope, Delivery, Candidate, Policy, Trust, Platform}
use open_tapeout.Signing.{PrivateKey, sign, verify}
use open_tapeout.Graph.{build}
use open_tapeout.Graph.Drift.{Workspace, drift}
use open_tapeout.Policy.{Report, evaluate}
use open_tapeout.Policy.Checks.{Blocker}
use open_tapeout.Store.{Codec, Transaction, Checkpoint, checkpoint, append}
use open_tapeout.Engine.State.{State, Payload, approval_signed, candidate_created, state_from}
use open_tapeout.Engine.Scope.{scope_view, object_refs}

abbrev pub blocker_eq : Blocker → Blocker → Bool
blocker_eq a b = str_eq a.code b.code && str_eq a.scope b.scope && str_eq a.message b.message

-- `for blocker in live["blockers"]: if blocker not in report["blockers"]: append`
unfoldable pub add_blockers : List Blocker → List Blocker → List Blocker
add_blockers known [] = known
add_blockers known (b ∷ rest) =
    add_blockers (if any (λ k. blocker_eq k b) known then known else known ++ b ∷ []) rest

unfoldable pub drift_blockers : Dict String → List Blocker
drift_blockers [] = []
drift_blockers ((id, reason) ∷ rest) =
    record { code = "WORKSPACE_DRIFT"; scope = id; message = reason } ∷ drift_blockers rest

unfoldable pub object_blockers : Workspace → List String → List Blocker
object_blockers w [] = []
object_blockers w (checksum ∷ rest) =
    let others = object_blockers w rest in
    elim (w.object_error checksum) [
      | none ↦ others
      | some reason ↦
          record { code = "OBJECT_INTEGRITY"; scope = checksum; message = reason } ∷ others
    ]

-- `state["candidates"][name]`, behind the test that it is there
unfoldable pub candidate_named : State → String → Result Candidate
candidate_named s name = elim (lookup name s.candidates) [
  | none ↦ err (tapeout "Unknown candidate")
  | some candidate ↦ ok candidate
]

abbrev pub withdrawal_blockers : Platform → State → Candidate → String → List Blocker
withdrawal_blockers p s candidate name =
    if has (p.digest_candidate candidate) s.withdrawals
    then record {
      code = "RELEASE_WITHDRAWN";
      scope = name;
      message = "This release was withdrawn. Issue a new candidate; history is preserved.";
    }
      ∷ []
    else []

-- The report after the comparison with the candidate's present view.
unfoldable pub compare_view :
    Platform → String → Candidate → Candidate → Policy → Trust → String → Report → Result Report
compare_view p name candidate current policy trust at report =
    if str_eq (p.digest_candidate current) (p.digest_candidate candidate) then ok report else do
      live ← evaluate p current policy trust [] at false
      let changed : Blocker = record {
        code = "CANDIDATE_CHANGED";
        scope = name;
        message =
            "Resources, evidence, waivers, trust, or policy changed. Create and approve a new candidate.";
      }
      ok (record report {
        checks = live.checks;
        blockers = add_blockers (report.blockers ++ changed ∷ []) live.blockers;
      })

-- `state["approvals"]` less the revoked ones: `active_approvals` of lifecycle.py
unfoldable pub active : Platform → State → List Envelope → List Envelope
active p s [] = []
active p s (a ∷ rest) =
    let others = active p s rest in
    if has (p.digest_envelope a) s.revoked_approvals then others else a ∷ others

unfoldable pub active_approvals : Platform → State → List Envelope
unfolding active
active_approvals p s = active p s s.approvals

-- `_gate` for the state of the transaction, at the time `at`.
unfoldable pub gate_state :
    Platform → Workspace → State → String → Policy → Trust → String → Bool → Result Report
unfolding candidate_named active_approvals compare_view object_blockers drift_blockers add_blockers
gate_state p w s name policy trust at include_approvals = do
  candidate ← candidate_named s name
  report ← evaluate p candidate policy trust (active_approvals p s) at include_approvals
  let noted = record report { blockers = report.blockers ++ withdrawal_blockers p s candidate name }
  current ← scope_view p s candidate policy trust
  compared ← compare_view p name candidate current policy trust at noted
  graph ← build p s.resources
  found ← drift w graph.resources (keys graph.resources)
  refs ← object_refs candidate
  let blockers = compared.blockers ++ drift_blockers found ++ object_blockers w refs
  ok (record compared { blockers = blockers; ready = is_empty blockers })

-- `state["project"]["id"]`
unfoldable pub project_id : State → Result String
project_id s = elim s.project [ none ↦ err type_error | some project ↦ ok project.id ]

module _ (p : Platform) (w : Workspace) (c : Codec String Payload) where
  -- The report, with the checkpoint of the transaction.
  unfoldable pub gate :
      Transaction c → String → Policy → Trust → String → Bool → Result (Report × Checkpoint c)
  unfolding gate_state
  gate tx name policy trust at include_approvals = do
    s ← state_from p tx.events
    report ← gate_state p w s name policy trust at include_approvals
    ok (report, checkpoint c tx)

  -- The statement of an approval, its keys in order.
  unfoldable pub approval_statement : String → String → String → String → Fields
  approval_statement project candidate_sha256 role now =
      field "candidate_sha256" (str candidate_sha256) (
        field "created_at" (str now) (
          field "decision" (str "approve") (
            field "project_id" (str project)
              (field "role" (str role) (field "type" (str "opentapeout.approval/v1") end)))))

  unfoldable pub approve :
      PrivateKey
      → Transaction c
      → String
      → String
      → Policy
      → Trust
      → String
      → Result (Envelope × Transaction c)
  unfolding gate project_id approval_statement sign
  approve key tx name role policy trust now = do
    (report, _) ← gate tx name policy trust now false
    ensure report.ready "Evidence gate blocks approval"
    s ← state_from p tx.events
    ensure (contains role policy.approval_roles) "Role is not required by policy"
    candidate ← candidate_named s name
    project ← project_id s
    let envelope = sign key (approval_statement project (p.digest_candidate candidate) role now)
    (_, principal) ← verify p trust envelope role "opentapeout.approval/v1"
    ensure (not (policy.forbid_self_approval && str_eq principal candidate.created_by))
        "Candidate author cannot approve their own release"
    (_, tx') ← append c "approval.signed" (approval_signed envelope) principal now tx
    ok (envelope, tx')

  -- One file of a new candidate.
  unfoldable pub delivery_entry : State → String × String → Result Delivery
  delivery_entry s (filename, resource_id) = do
    _ ← safe_relative filename
    ensure (contains (p.suffix filename) (".gds" ∷ ".gdsii" ∷ ".oas" ∷ ".oasis" ∷ []))
        "Delivery must be named GDS or OASIS"
    elim (lookup resource_id s.resources) [
      | none ↦ err (tapeout "Delivery must refer to a file-backed layout resource")
      | some resource ↦ do
        ensure
            (str_eq resource.kind "layout" && elim resource.path [ none ↦ false | some _ ↦ true ])
            "Delivery must refer to a file-backed layout resource"
        ok (record {
          name = filename;
          resource_id = resource_id;
          sha256 = resource.sha256;
          size = resource.size;
        })
    ]

  unfoldable pub delivery_entries : State → Dict String → Result (List Delivery)
  unfolding delivery_entry
  delivery_entries s [] = ok []
  delivery_entries s (d ∷ rest) = do
    entry ← delivery_entry s d
    others ← delivery_entries s rest
    ok (entry ∷ others)

  -- `sorted(deliveries.items())`
  unfoldable pub insert_item : String × String → Dict String → Dict String
  insert_item d [] = d ∷ []
  insert_item d (e ∷ rest) = if str_le d.0 e.0 then d ∷ e ∷ rest else e ∷ insert_item d rest

  unfoldable pub sorted_items : Dict String → Dict String
  unfolding insert_item
  sorted_items [] = []
  sorted_items (d ∷ rest) = insert_item d (sorted_items rest)

  -- The candidate that `_candidate` records: the view of the state under its name.
  unfoldable pub draft :
      State → String → String → Dict String → Policy → Trust → String → String → Result Candidate
  unfolding delivery_entries sorted_items
  draft s name notes deliveries policy trust actor now = do
    ensure (not (has name s.candidates)) "Candidate name already exists; use a new revision"
    entries ← delivery_entries s (sorted_items deliveries)
    project ← elim s.project [ none ↦ err type_error | some project ↦ ok project ]
    scope_view p s
        (record {
          project_id = project.id;
          project_name = project.name;
          name = name;
          created_at = now;
          created_by = actor;
          notes = notes;
          deliveries = entries;
          resources = [];
          runs = [];
          waivers = [];
          policy_sha256 = "";
          trust_sha256 = "";
        })
        policy trust

  -- `_candidate`: the digest of the new candidate. The policy has passed `validate_policy`.
  unfoldable pub create_candidate :
      Transaction c
      → String
      → String
      → Dict String
      → Policy
      → Trust
      → String
      → String
      → Result (String × Transaction c)
  unfolding draft
  create_candidate tx name notes deliveries policy trust actor now = do
    _ ← identifier name
    ensure (not (str_eq (p.strip notes) "") && leb (length (codes notes)) 100000)
        "Release notes required"
    s ← state_from p tx.events
    candidate ← draft s name notes deliveries policy trust actor now
    (_, tx') ← append c "candidate.created" (candidate_created name candidate) actor now tx
    ok (p.digest_candidate candidate, tx')

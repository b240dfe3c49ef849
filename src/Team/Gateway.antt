-- ===== src/Team/Gateway.antt =====
-- `Gateway.context` and `Gateway.execute` of src/opentapeout/team.py.
use open_tapeout.Prelude.{
  ℕ, String, Bool, true, false, ◌&&◌, Option, none, some, List, [], ◌∷◌, lookup, contains, str_eq,
  leb, ◌==◌,
}
use open_tapeout.Result.{Result, ok, err, tapeout, team, ensure, require, ◌>>=◌, ◌>>◌}
use open_tapeout.Json.{Json, str, obj, Fields, get, is_text}
use open_tapeout.Records.{Envelope, Platform}
use open_tapeout.Signing.{verify}
use open_tapeout.Graph.Drift.{Workspace}
use open_tapeout.Store.{Codec, Transaction, append, checkpoint}
use open_tapeout.Engine.State.{
  State, Payload, Response, RecordedCommand, TeamCommand, team_command, state_from,
}
use open_tapeout.Engine.Release.{project_id}
use open_tapeout.Team.Tokens.{Identity}
use open_tapeout.Team.Access.{
  actions, Files, Governance, governance, member, fields, text, check_checkpoint, check_window,
  max_command,
}
use open_tapeout.Team.Decisions.{apply_action}

-- What the gateway sees at a moment: the clock, the answer of `AccessTokens.verify` for the token,
-- and the files of the project.
pub record Moment : Type 0 where
  pub now : String
  pub token : Result Identity
  pub files : Files

-- `len(canonical(...))`, and `str(uuid.UUID(...))` where it is one.
pub record Wire : Type 0 where
  pub size : Envelope → ℕ
  pub uuid : String → Option String

-- What `context` returns.
pub record Context : Type 0 where
  pub project_id : String
  pub principal : String
  pub permissions : List String
  pub governance_sha256 : String
  pub seq : ℕ
  pub hash : String

-- What `execute` returns.
pub record Answer : Type 0 where
  pub response : Response
  pub seq : ℕ
  pub hash : String
  pub replayed : Bool

-- A command that may run: who sent it, under which governance, and its request.
pub record Request : Type 0 where
  pub identity : Identity
  pub governed : Governance
  pub body : Fields
  pub action : String
  pub principal : String
  pub request_id : String

-- `str(uuid.UUID(body["request_id"])) == body["request_id"]`
unfoldable pub request_uuid : Wire → Json → Result String
request_uuid wire (str s) = elim (wire.uuid s) [
  | some canonical ↦ do
    require (str_eq canonical s) "INVALID_COMMAND" "Canonical request UUID required" 422
    ok s
  | none ↦ err (team "INVALID_COMMAND" "Canonical request UUID required" 422)
]
request_uuid wire _ = err (team "INVALID_COMMAND" "Canonical request UUID required" 422)

abbrev pub command_type : String
command_type = "opentapeout.team-command/v1"

module _ (p : Platform) (wire : Wire) (project : String) where
  -- The identity of the sender and the governance in force.
  unfoldable pub authenticate : Moment → Result (Identity × Governance)
  unfolding governance
  authenticate m = do
    identity ← m.token
    governed ← governance project m.files
    ok (identity, governed)

  -- `COMMAND_TYPE` signed in the role `team`: its body, its action and the principal who signed it
  unfoldable pub open_command : Governance → Envelope → Result (Fields × String × String)
  unfolding fields text
  open_command governed envelope = do
    (body, signer) ← verify p governed.trust envelope "team" command_type
    _ ← fields (obj body) (
        "type" ∷ "request_id" ∷ "project_id" ∷ "action" ∷ "parameters" ∷ "expected_checkpoint"
        ∷ "governance_sha256" ∷ "created_at" ∷ "expires_at" ∷ [])
    named ← get "action" body
    action ← text named "Unsupported team action"
    ensure (contains action actions) "Unsupported team action"
    ok (body, action, signer)

  -- `execute` up to the window of the command.
  unfoldable pub admit : Moment → Envelope → Result Request
  unfolding authenticate open_command member request_uuid check_window
  admit m envelope = do
    (identity, governed) ← authenticate m
    (body, action, signer) ← open_command governed envelope
    principal ← member identity governed.members action
    require (str_eq signer principal) "IDENTITY_MISMATCH"
        "Access identity and command signer must match" 403
    owner ← get "project_id" body
    require (is_text project owner) "PROJECT_MISMATCH" "Command belongs to another project" 403
    requested ← get "request_id" body
    request_id ← request_uuid wire requested
    check_window p body m.now
    ok (record {
      identity = identity;
      governed = governed;
      body = body;
      action = action;
      principal = principal;
      request_id = request_id;
    })

  -- The checks behind a potentially slow evidence gate.
  unfoldable pub recheck : Moment → Request → Result (Unit {0})
  unfolding authenticate member
  recheck m r = do
    (identity, governed) ← authenticate m
    require (str_eq governed.sha256 r.governed.sha256) "GOVERNANCE_CHANGED"
        "Governance changed during validation; transaction rolled back" 409
    _ ← member identity governed.members r.action
    ok tt

-- A request that the ledger already has.
unfoldable pub replay_answer : Platform → RecordedCommand → Envelope → Result Answer
replay_answer p previous envelope = do
  require (str_eq previous.command.request_sha256 (p.digest_envelope envelope)) "REQUEST_ID_REUSED"
      "Request ID was already used for different signed content" 409
  ok (record {
    response = previous.command.response;
    seq = previous.seq;
    hash = previous.hash;
    replayed = true;
  })

module _ (p : Platform) (w : Workspace) (c : Codec String Payload) (wire : Wire)
    (project : String) where
  abbrev pub at_checkpoint : Transaction c → ℕ × String → Bool
  at_checkpoint tx expected =
      (expected.0 == (checkpoint c tx).seq) && str_eq expected.1 (checkpoint c tx).hash

  -- The checkpoint and the governance that the sender has reviewed are those of now.
  unfoldable pub is_current : Transaction c → Request → Result (Unit {0})
  unfolding check_checkpoint checkpoint
  is_current tx r = do
    claimed ← get "expected_checkpoint" r.body
    expected ← check_checkpoint claimed
    require (at_checkpoint tx expected) "STALE_CHECKPOINT"
        "Ledger changed; fetch current context and review before signing again" 409
    reviewed ← get "governance_sha256" r.body
    require (is_text r.governed.sha256 reviewed) "GOVERNANCE_CHANGED"
        "Policy, keys or permissions changed; review the new context" 409

  abbrev pub response_of : Request → Fields → Transaction c → Response
  response_of r result tx = record {
    request_id = r.request_id;
    action = r.action;
    result = result;
    mutation_seq = (checkpoint c tx).seq;
    mutation_hash = (checkpoint c tx).hash;
  }

  abbrev pub command_of : Request → Envelope → Response → TeamCommand
  command_of r envelope response = record {
    request_id = r.request_id;
    request_sha256 = p.digest_envelope envelope;
    envelope = envelope;
    response = response;
    issuer = r.identity.issuer;
    subject = r.identity.subject;
    client_id = r.identity.client_id;
  }

  -- A new request. The decision is at the clock of `started`, the record of it at that of `finished`.
  unfoldable pub perform :
      Moment → Moment → Transaction c → State → Request → Envelope → Result (Answer × Transaction c)
  unfolding is_current recheck apply_action checkpoint
  perform started finished tx s r envelope = do
    is_current tx r
    parameters ← get "parameters" r.body
    given ← elim parameters [ obj f ↦ ok f | _ ↦ err (tapeout "Missing or unexpected fields") ]
    (result, tx1) ←
        apply_action p w c r.action tx s r.body given envelope.key_id r.principal r.governed.policy
          r.governed.trust started.now
    recheck p wire project finished r
    let response = response_of r result tx1
    (_, tx2) ←
        append c "team.command" (team_command (command_of r envelope response)) r.principal
          finished.now tx1
    let at = checkpoint c tx2
    ok (record { response = response; seq = at.seq; hash = at.hash; replayed = false }, tx2)

  -- `execute` inside the transaction.
  unfoldable pub execute_locked :
      Moment → Moment → Envelope → Transaction c → Result (Answer × Transaction c)
  unfolding admit replay_answer perform
  execute_locked started finished envelope tx = do
    r ← admit p wire project started envelope
    s ← state_from p tx.events
    own ← project_id s
    ensure (str_eq own project) "Workspace project ID mismatch"
    elim (lookup r.request_id s.team_commands) [
      | some previous ↦ do answer ← replay_answer p previous envelope; ok (answer, tx)
      | none ↦ perform started finished tx s r envelope
    ]

  -- `execute`: `queued` is the answer for the token before the lock is taken.
  unfoldable pub execute :
      Result Identity → Moment → Moment → Envelope → Transaction c → Result (Answer × Transaction c)
  unfolding execute_locked
  execute queued started finished envelope tx = do
    _ ← queued
    ensure (leb (wire.size envelope) max_command) "Command exceeds size budget"
    execute_locked started finished envelope tx

  unfoldable pub context : Moment → Transaction c → Result Context
  unfolding authenticate member checkpoint
  context m tx = do
    (identity, governed) ← authenticate p wire project m
    principal ← member identity governed.members "read"
    s ← state_from p tx.events
    own ← project_id s
    ensure (str_eq own project) "Workspace project ID mismatch"
    let at = checkpoint c tx
    ok (record {
      project_id = project;
      principal = principal;
      permissions = elim (lookup identity.subject governed.members) [
        | none ↦ []
        | some m ↦ m.permissions
      ];
      governance_sha256 = governed.sha256;
      seq = at.seq;
      hash = at.hash;
    })

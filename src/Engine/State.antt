-- ===== src/Engine/State.antt =====
-- `state_from` of engine.py: what each event of the ledger does to the state.
--
-- The `type` of an event and its payload are one constructor of `Payload`; a type that the source
-- does not know is `unknown`.
use open_tapeout.Prelude.{
  ℕ, String, not, Option, none, some, List, [], ◌∷◌, ◌++◌, Dict, lookup, insert, has, add,
}
use open_tapeout.Result.{Result, ok, err, ensure, tapeout, type_error, ◌>>=◌, ◌>>◌}
use open_tapeout.Json.{str, Fields, get}
use open_tapeout.Records.{Resource, Completion, Run, Envelope, Candidate, Platform}
use open_tapeout.Store.{Event}

pub record Project : Type 0 where
  pub id : String
  pub name : String
  pub schema : String

-- The payload of `release.sealed`.
pub record Release : Type 0 where
  pub id : String
  pub archive_sha256 : String
  pub archive_size : ℕ
  pub manifest_sha256 : String
  pub candidate_sha256 : String
  pub sealed_at : String
  pub signature : Envelope

-- The payload of `delivery.sealed`.
pub record SealedDelivery : Type 0 where
  pub id : String
  pub release_id : String
  pub project_id : String
  pub candidate_sha256 : String
  pub archive_sha256 : String
  pub archive_size : ℕ
  pub manifest_sha256 : String
  pub recipient : String
  pub disclosure_sha256 : String
  pub sealed_at : String
  pub signature : Envelope

-- The payload of `receipt.recorded`.
pub record Receipt : Type 0 where
  pub release_id : String
  pub archive_sha256 : String
  pub reference : String
  pub recorded_at : String

-- The response of the gateway that a team command leaves in the ledger.
pub record Response : Type 0 where
  pub request_id : String
  pub action : String
  pub result : Fields
  pub mutation_seq : ℕ
  pub mutation_hash : String

pub record TeamCommand : Type 0 where
  pub request_id : String
  pub request_sha256 : String
  pub envelope : Envelope
  pub response : Response
  pub issuer : String
  pub subject : String
  pub client_id : String

-- A team command with the checkpoint of its own event.
pub record RecordedCommand : Type 0 where
  pub command : TeamCommand
  pub seq : ℕ
  pub hash : String

pub data Payload : Type 0 where
  project_created : Project → Payload
  resource_registered : String → Resource → Payload
  -- the run is as `begin` records it: `sequence` is 0 and there is no completion
  run_started : Run → Payload
  run_completed : String → Completion → Payload
  waiver_signed waiver_revoked : Envelope → Payload
  candidate_created : String → Candidate → Payload
  approval_signed approval_revoked release_withdrawn : Envelope → Payload
  delivery_sealed : SealedDelivery → Payload
  delivery_received : Envelope → Payload
  release_sealed : Release → Payload
  receipt_recorded : Receipt → Payload
  team_command : TeamCommand → Payload
  unknown : String → Payload

pub record State : Type 0 where
  pub project : Option Project
  pub resources : Dict Resource
  pub runs : Dict Run
  pub waivers : Dict Envelope
  pub revoked_waivers : List String
  pub candidates : Dict Candidate
  pub approvals : List Envelope
  pub releases : Dict Release
  pub receipts : List Receipt
  pub revoked_approvals : Dict Envelope
  pub withdrawals : Dict Envelope
  pub deliveries : Dict SealedDelivery
  pub delivery_receipts : List Envelope
  pub team_commands : Dict RecordedCommand

abbrev pub initial : State
initial = record {
  project = none;
  resources = [];
  runs = [];
  waivers = [];
  revoked_waivers = [];
  candidates = [];
  approvals = [];
  releases = [];
  receipts = [];
  revoked_approvals = [];
  withdrawals = [];
  deliveries = [];
  delivery_receipts = [];
  team_commands = [];
}

abbrev pub LedgerEvent : Type 0
LedgerEvent = Event String Payload

-- `payload[key]` of a signed statement, where it is used as a key: a digest, which is a text.
unfoldable pub digest_field : String → Fields → Result String
digest_field key body = do v ← get key body; elim v [ str s ↦ ok s | _ ↦ err type_error ]

-- `state["runs"][payload["id"]].update(payload)`
unfoldable pub complete_run : String → Completion → State → Result State
complete_run id c s = elim (lookup id s.runs) [
  | none ↦ err (tapeout "Completion without run start")
  | some run ↦ ok (record s { runs = insert id (record run { completion = some c }) s.runs })
]

unfoldable pub record_command : ℕ → String → TeamCommand → State → Result State
record_command seq hash command s = do
  ensure (not (has command.request_id s.team_commands)) "Duplicate team request ID"
  ok (record s {
    team_commands =
        insert command.request_id (record { command = command; seq = seq; hash = hash })
          s.team_commands;
  })

-- The body of the loop, for an event with this sequence number and hash.
unfoldable pub apply_payload : Platform → ℕ → String → Payload → State → Result State
unfolding digest_field complete_run record_command
apply_payload p seq hash (project_created project) s = elim s.project [
  | none ↦ ok (record s { project = some project })
  | some _ ↦ err (tapeout "Duplicate project genesis")
]
apply_payload p seq hash (resource_registered id resource) s =
    ok (record s { resources = insert id resource s.resources })
apply_payload p seq hash (run_started run) s =
    ok (record s { runs = insert run.id (record run { sequence = seq }) s.runs })
apply_payload p seq hash (run_completed id c) s = complete_run id c s
apply_payload p seq hash (waiver_signed envelope) s =
    ok (record s { waivers = insert (p.digest_envelope envelope) envelope s.waivers })
apply_payload p seq hash (waiver_revoked envelope) s = do
  waiver ← digest_field "waiver_sha256" envelope.payload
  ok (record s { revoked_waivers = add waiver s.revoked_waivers })
apply_payload p seq hash (candidate_created id candidate) s =
    ok (record s { candidates = insert id candidate s.candidates })
apply_payload p seq hash (approval_signed envelope) s =
    ok (record s { approvals = s.approvals ++ envelope ∷ [] })
apply_payload p seq hash (approval_revoked envelope) s = do
  approval ← digest_field "approval_sha256" envelope.payload
  ok (record s { revoked_approvals = insert approval envelope s.revoked_approvals })
apply_payload p seq hash (release_withdrawn envelope) s = do
  candidate ← digest_field "candidate_sha256" envelope.payload
  ok (record s { withdrawals = insert candidate envelope s.withdrawals })
apply_payload p seq hash (delivery_sealed delivery) s =
    ok (record s { deliveries = insert delivery.id delivery s.deliveries })
apply_payload p seq hash (delivery_received envelope) s =
    ok (record s { delivery_receipts = s.delivery_receipts ++ envelope ∷ [] })
apply_payload p seq hash (release_sealed release) s =
    ok (record s { releases = insert release.id release s.releases })
apply_payload p seq hash (receipt_recorded receipt) s =
    ok (record s { receipts = s.receipts ++ receipt ∷ [] })
apply_payload p seq hash (team_command command) s = record_command seq hash command s
apply_payload p seq hash (unknown kind) s = err (tapeout "Unknown ledger event type")

unfoldable pub apply_event : Platform → LedgerEvent → State → Result State
unfolding apply_payload
apply_event p e s = apply_payload p e.body.seq e.hash e.body.payload s

-- The loop, from the state that it has reached.
unfoldable pub replay : Platform → State → List LedgerEvent → Result State
unfolding apply_event
replay p s [] = ok s
replay p s (e ∷ events) = do s' ← apply_event p e s; replay p s' events

unfoldable pub state_from : Platform → List LedgerEvent → Result State
unfolding replay
state_from p events = replay p initial events

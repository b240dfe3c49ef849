-- ===== src/Tests/Team.antt =====
-- A signed withdrawal through the gateway, and its retry.
use open_tapeout.Prelude.{
  ℕ, String, Bool, true, false, Option, none, some, List, [], ◌∷◌, ◌++◌, ◌≡◌, refl, if◌then◌else◌,
  str_eq, pos,
}
use open_tapeout.Result.{ok}
use open_tapeout.Json.{Json, Fields, str, obj, arr, num, int, cons, nil, field, end}
use open_tapeout.Records.{Envelope, Trust}
use open_tapeout.Store.{Body, Codec, Transaction}
use open_tapeout.Engine.State.{
  State, Release, Payload, Response, TeamCommand, initial, project_created, release_sealed,
  release_withdrawn, team_command, LedgerEvent, state_from,
}
use open_tapeout.Team.Tokens.{Identity}
use open_tapeout.Team.Gateway.{Moment, Wire, Answer, Request, admit, execute}
use open_tapeout.Team.Permitted.{IsPermitted, execute-IsPermitted}
use open_tapeout.Team.Retry.{execute-replayed}
use open_tapeout.Tests.Project.{platform, policy, waiver, evening}
use open_tapeout.Tests.Engine.{workspace}
use open_tapeout.Tests.Ledger.{string_discrete}

abbrev hash_of : String → String
hash_of kind =
    if str_eq kind "project.created"
    then "aaaaaaaaaaaaaaaaaaaaaaaaaaaaaaaaaaaaaaaaaaaaaaaaaaaaaaaaaaaaaaaa"
    else if str_eq kind "release.sealed"
    then "bbbbbbbbbbbbbbbbbbbbbbbbbbbbbbbbbbbbbbbbbbbbbbbbbbbbbbbbbbbbbbbb"
    else if str_eq kind "release.withdrawn"
    then "cccccccccccccccccccccccccccccccccccccccccccccccccccccccccccccccc"
    else "dddddddddddddddddddddddddddddddddddddddddddddddddddddddddddddddd"

abbrev pub codec : Codec String Payload
codec = record {
  Text = Body String Payload;
  canonical = λ b. b;
  text_size = λ b. 100;
  objects = λ b. [];
  is_nonfinite = λ b. false;
  parse = λ b. some (some b);
  sha256 = λ b. hash_of b.kind;
  zero_hash = "zero";
  hash_discrete = string_discrete;
  stripped_length = λ s. 4;
}

abbrev keys : Trust
keys = record {
  keys =
      (
        "dora-key",
        record {
          public_key = "dora-public";
          principal = "dora";
          roles = "release" ∷ "team" ∷ [];
          revoked = false;
        },
      )
      ∷ [];
  sha256 = "trust";
}

abbrev by_dora : Fields → Envelope
by_dora payload = record { payload = payload; key_id = "dora-key"; signature = "dora-public" }

abbrev sealed_chip : Release
sealed_chip = record {
  id = "r1";
  archive_sha256 = "archive";
  archive_size = 9;
  manifest_sha256 = "manifest";
  candidate_sha256 = "rc1";
  sealed_at = evening;
  signature = by_dora waiver.payload;
}

abbrev pub happened : ℕ → String → String → Payload → LedgerEvent
happened seq kind previous payload = record {
  body = record {
    seq = seq;
    previous = previous;
    kind = kind;
    actor = "dora";
    at = evening;
    payload = payload;
  };
  hash = hash_of kind;
}

abbrev opening : List LedgerEvent
opening =
    happened 1 "project.created" "zero"
      (project_created (record { id = "p1"; name = "chip"; schema = "s" }))
    ∷ happened 2 "release.sealed" (hash_of "project.created") (release_sealed sealed_chip)
    ∷ []

abbrev ledger : Transaction codec
ledger = record { rows = []; events = opening }

abbrev tape : Fields
tape = field "type" (str "opentapeout.release-withdrawal/v1") (
    field "project_id" (str "p1") (
      field "release_id" (str "r1") (
        field "candidate_sha256" (str "rc1") (
          field "archive_sha256" (str "archive")
            (field "reason" (str "wrong metal stack") (field "created_at" (str evening) end))))))

abbrev statement : Fields
statement =
    field "payload" (obj tape)
      (field "key_id" (str "dora-key") (field "signature" (str "dora-public") end))

abbrev checkpoint_field : Json
checkpoint_field =
    obj (field "seq" (num (int (pos 2))) (field "hash" (str (hash_of "release.sealed")) end))

abbrev command : Envelope
command = by_dora (
    field "type" (str "opentapeout.team-command/v1") (
      field "request_id" (str "u1") (
        field "project_id" (str "p1") (
          field "action" (str "release.withdraw") (
            field "parameters" (obj (field "statement" (obj statement) end)) (
              field "expected_checkpoint" checkpoint_field (
                field "governance_sha256" (str "governance") (
                  field "created_at" (str evening)
                    (field "expires_at" (str "2026-01-03T00:00:00Z") end)))))))))

abbrev dora : Identity
dora = record {
  issuer = "https://id";
  subject = "subject-dora";
  client_id = "cli";
  scopes = "opentapeout:read" ∷ "opentapeout:write" ∷ [];
  expires = pos 90;
}

abbrev access_file : Json
access_file = obj (
    field "schema" (str "opentapeout.team-access/v1") (
      field "project_id" (str "p1") (
        field "members"
          (obj (
            field "subject-dora"
              (obj (
                field "principal" (str "dora") (
                  field "permissions" (arr (cons (str "read") (cons (str "release.withdraw") nil)))
                    end)))
              end))
          end)))

abbrev moment : Moment
moment = record {
  now = evening;
  token = ok dora;
  files = record {
    is_link = false ∷ false ∷ false ∷ [];
    policy = ok policy;
    trust = ok keys;
    access = ok access_file;
    sha256 = "governance";
  };
}

abbrev wire : Wire
wire = record { size = λ e. 100; uuid = some }

abbrev response : Response
response = record {
  request_id = "u1";
  action = "release.withdraw";
  result = field "withdrawn_release" (str "r1") end;
  mutation_seq = 3;
  mutation_hash = hash_of "release.withdrawn";
}

abbrev sent : TeamCommand
sent = record {
  request_id = "u1";
  request_sha256 = "dora-key";
  envelope = command;
  response = response;
  issuer = "https://id";
  subject = "subject-dora";
  client_id = "cli";
}

abbrev third : LedgerEvent
third = happened 3 "release.withdrawn" (hash_of "release.sealed") (release_withdrawn (by_dora tape))

abbrev fourth : LedgerEvent
fourth = happened 4 "team.command" (hash_of "release.withdrawn") (team_command sent)

abbrev events_after : List LedgerEvent
events_after = opening ++ third ∷ fourth ∷ []

abbrev ledger_after : Transaction codec
ledger_after = record {
  rows =
      record { seq = 3; text = third.body; hash = third.hash }
      ∷ record { seq = 4; text = fourth.body; hash = fourth.hash }
      ∷ [];
  events = events_after;
}

abbrev answer : Answer
answer = record { response = response; seq = 4; hash = hash_of "team.command"; replayed = false }

abbrev request : Request
request = record {
  identity = dora;
  governed = record {
    policy = policy;
    trust = keys;
    members =
        (
          "subject-dora",
          record { principal = "dora"; permissions = "read" ∷ "release.withdraw" ∷ [] },
        )
        ∷ [];
    sha256 = "governance";
  };
  body = command.payload;
  action = "release.withdraw";
  principal = "dora";
  request_id = "u1";
}

abbrev state_after : State
state_after = record initial {
  project = some (record { id = "p1"; name = "chip"; schema = "s" });
  releases = ("r1", sealed_chip) ∷ [];
  withdrawals = ("rc1", by_dora tape) ∷ [];
  team_commands = ("u1", record { command = sent; seq = 4; hash = fourth.hash }) ∷ [];
}

execute-withdrawal :
    execute platform workspace codec wire "p1" (ok dora) moment moment command ledger
    ≡ ok (answer, ledger_after)
unfolding open_tapeout.Team.Gateway.execute open_tapeout.Tests.Ledger.string_discrete
    open_tapeout.Tests.Ledger.same_text mathlib.Core.Bool.decide open_tapeout.Json.field_names
    open_tapeout.Prelude.contains open_tapeout.Json.get open_tapeout.Util.identifier
    open_tapeout.Signing.verify open_tapeout.Prelude.lookup open_tapeout.Json.field_is state_from
    open_tapeout.Engine.Release.project_id open_tapeout.Util.is_hex open_tapeout.Prelude.insert
    open_tapeout.Store.append
execute-withdrawal = refl

admit-withdrawal : admit platform wire "p1" moment command ≡ ok request
unfolding open_tapeout.Team.Gateway.admit open_tapeout.Json.field_names
    open_tapeout.Prelude.contains open_tapeout.Json.get open_tapeout.Util.identifier
    open_tapeout.Signing.verify open_tapeout.Prelude.lookup open_tapeout.Json.field_is
admit-withdrawal = refl

state_from-after : state_from platform events_after ≡ ok state_after
unfolding open_tapeout.Engine.State.state_from open_tapeout.Json.get open_tapeout.Prelude.lookup
    open_tapeout.Prelude.insert
state_from-after = refl

execute-IsPermitted_example :
    IsPermitted platform workspace codec wire "p1" moment moment command ledger ledger_after
execute-IsPermitted_example =
    execute-IsPermitted platform workspace codec wire "p1" (ok dora) moment moment command ledger
      ledger_after answer execute-withdrawal refl

execute-replayed_example :
    execute platform workspace codec wire "p1" (ok dora) moment moment command ledger_after
    ≡ ok (record answer { replayed = true }, ledger_after)
execute-replayed_example =
    execute-replayed platform workspace codec wire "p1" (ok dora) (ok dora) dora moment moment
      moment moment command ledger ledger_after answer state_after request execute-withdrawal
      state_from-after refl admit-withdrawal

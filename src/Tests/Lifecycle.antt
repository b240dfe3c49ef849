-- ===== src/Tests/Lifecycle.antt =====
-- Withdrawing a release and revoking an approval in a small ledger.
use open_tapeout.Prelude.{
  ℕ, String, Bool, true, false, Option, none, some, List, [], ◌∷◌, ◌++◌, ◌≡◌, ◌≢◌, refl, lookup,
  has, Among, if◌then◌else◌, str_eq, eq_iff, arith,
}
use open_tapeout.Result.{ok}
use open_tapeout.Json.{Fields, str}
use open_tapeout.Records.{Envelope, KeyEntry, Trust}
use open_tapeout.Signing.{PrivateKey}
use open_tapeout.Store.{Body, Event, Codec, Row, Transaction}
use open_tapeout.Engine.State.{
  State, Release, Payload, project_created, release_sealed, approval_signed, approval_revoked,
  release_withdrawn, LedgerEvent, state_from,
}
use open_tapeout.Engine.Release.{active_approvals}
use open_tapeout.Lifecycle.{
  revocation_statement, withdrawal_statement, find_approval, revoke_approval, withdraw_release,
}
use open_tapeout.Lifecycle.Effects.{
  IsEntitled, withdraw_release-has, revoke_approval-active_approvals,
}
use open_tapeout.Tests.Project.{platform, waiver, bob, evening, approval}
use open_tapeout.Tests.Ledger.{string_discrete}

abbrev codec : Codec String Payload
codec = record {
  Text = Body String Payload;
  canonical = λ b. b;
  text_size = λ b. 100;
  objects = λ b. [];
  is_nonfinite = λ b. false;
  parse = λ b. some (some b);
  sha256 = λ b. b.kind;
  zero_hash = "zero";
  hash_discrete = string_discrete;
  stripped_length = λ s. 4;
}

abbrev dora : KeyEntry
dora = record {
  public_key = "dora-public";
  principal = "dora";
  roles = "release" ∷ "release-admin" ∷ [];
  revoked = false;
}

abbrev admins : Trust
admins = record { keys = ("bob-key", bob) ∷ ("dora-key", dora) ∷ []; sha256 = "admins" }

abbrev key : PrivateKey
key = record { id = "dora-key"; signature = λ payload. "dora-public" }

abbrev signed : Fields → Envelope
signed payload = record { payload = payload; key_id = "dora-key"; signature = "dora-public" }

abbrev release : Release
release = record {
  id = "r1";
  archive_sha256 = "archive";
  archive_size = 9;
  manifest_sha256 = "manifest";
  candidate_sha256 = "rc1";
  sealed_at = evening;
  signature = signed (waiver.payload);
}

abbrev event : ℕ → String → String → Payload → LedgerEvent
event seq kind actor payload = record {
  body = record {
    seq = seq;
    previous = "zero";
    kind = kind;
    actor = actor;
    at = evening;
    payload = payload;
  };
  hash = kind;
}

abbrev history : List LedgerEvent
history =
    event 1 "project.created" "alice"
      (project_created (record { id = "p1"; name = "chip"; schema = "s" }))
    ∷ event 2 "approval.signed" "bob" (approval_signed (approval "layout" "bob-key"))
    ∷ event 3 "release.sealed" "dora" (release_sealed release)
    ∷ []

abbrev tx : Transaction codec
tx = record { rows = []; events = history }

abbrev after : String → Payload → Transaction codec
after kind payload =
    let body : Body String Payload = record {
      seq = 4;
      previous = "release.sealed";
      kind = kind;
      actor = "dora";
      at = evening;
      payload = payload;
    } in
    record {
      rows = record { seq = 4; text = body; hash = kind } ∷ [];
      events = history ++ record { body = body; hash = kind } ∷ [];
    }

abbrev why : String
why = "wrong metal stack"

abbrev withdrawal : Envelope
withdrawal = signed (withdrawal_statement "p1" "r1" release why evening)

withdraw-r1 :
    withdraw_release platform codec key tx "r1" why admins evening
    ≡ ok (withdrawal, after "release.withdrawn" (release_withdrawn withdrawal))
unfolding open_tapeout.Lifecycle.withdraw_release state_from lookup open_tapeout.Prelude.insert
    open_tapeout.Engine.Release.project_id open_tapeout.Signing.verify open_tapeout.Prelude.contains
    open_tapeout.Json.field_is open_tapeout.Json.get open_tapeout.Store.append
withdraw-r1 = refl

withdraw_release-has_example :
    (s : State) × (s' : State) × (r : Release) × (state_from platform history ≡ ok s)
    × (lookup "r1" s.releases ≡ some r)
    × (state_from platform (after "release.withdrawn" (release_withdrawn withdrawal)).events
        ≡ ok s')
    × (has r.candidate_sha256 s'.withdrawals ≡ true)
withdraw_release-has_example =
    withdraw_release-has platform codec key tx why admins evening "r1" withdrawal
      (after "release.withdrawn" (release_withdrawn withdrawal)) withdraw-r1

abbrev revocation : Envelope
revocation = signed (revocation_statement "p1" "bob-key" (str "rc1") why evening)

revoke-bob :
    revoke_approval platform codec key tx "bob-key" why admins evening
    ≡ ok (revocation, after "approval.revoked" (approval_revoked revocation))
unfolding open_tapeout.Lifecycle.revoke_approval state_from lookup
    open_tapeout.Engine.Release.project_id open_tapeout.Json.get open_tapeout.Prelude.contains
    open_tapeout.Signing.verify open_tapeout.Json.field_is open_tapeout.Store.append
revoke-bob = refl

revoke_approval-active_approvals_example :
    (s : State) × (s' : State) × (a : Envelope) × (original : KeyEntry) × (state_from platform
        history
      ≡ ok s)
    × (find_approval platform codec "bob-key" s.approvals ≡ some a)
    × (lookup a.key_id admins.keys ≡ some original)
    × IsEntitled platform codec key tx why admins evening original revocation
    × (state_from platform (after "approval.revoked" (approval_revoked revocation)).events ≡ ok s')
    × ((b : Envelope)
        → Among b (active_approvals platform s')
        → platform.digest_envelope b ≢ "bob-key")
revoke_approval-active_approvals_example =
    revoke_approval-active_approvals platform codec key tx why admins evening "bob-key" revocation
      (after "approval.revoked" (approval_revoked revocation)) revoke-bob

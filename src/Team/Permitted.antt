-- ===== src/Team/Permitted.antt =====
-- Who may change a ledger through the gateway: only a member with the permission, at the
-- checkpoint that he reviewed.
use open_tapeout.Prelude.{
  String, true, false, [], ◌∷◌, ◌++◌, ◌≡◌, sym, ap, ◌∙◌, subst, arith, inl, inr, contains, str_eq,
  eq_iff, ◌==◌, and-eq-true,
}
use open_tapeout.Result.{Result, ok, >>=-eq-ok, require-eq-ok, ok-injective}
use open_tapeout.Json.{Json, str, Fields, get}
use open_tapeout.Records.{Envelope, Platform}
use open_tapeout.Signing.Authority.{IsAuthorized}
use open_tapeout.Graph.Drift.{Workspace}
use open_tapeout.Store.{Codec, Transaction, checkpoint}
use open_tapeout.Engine.State.{Payload, RecordedCommand, LedgerEvent}
use open_tapeout.Team.Tokens.{Identity}
use open_tapeout.Team.Access.{actions, Governance, governance, check_checkpoint}
use open_tapeout.Team.Performed.{IsPerformed, execute-IsExecuted}
use open_tapeout.Team.Admitted.{
  IsGranted, IsInForce, IsAllowed, IsAdmitted, admit-IsAdmitted, recheck-IsAllowed,
}
use open_tapeout.Team.Gateway.{
  Moment, Wire, Answer, Request, command_type, replay_answer, at_checkpoint, is_current, execute,
}

module _ (p : Platform) (w : Workspace) (c : Codec String Payload) (wire : Wire)
    (project : String) where
  -- Everything that stands behind an answer to a new command.
  pub record IsPermitted (started finished : Moment) (envelope : Envelope) (tx tx' : Transaction c)
      : Type 0 where
    pub identity : Identity
    pub governed : Governance
    pub action : String
    pub principal : String
    pub token : started.token ≡ ok identity
    pub files : governance project started.files ≡ ok governed
    pub granted : IsGranted identity governed action principal
    pub known_action : contains action actions ≡ true
    pub stated : get "action" envelope.payload ≡ ok (str action)
    pub signed : IsAuthorized p governed.trust envelope "team" command_type principal
    pub in_force : IsInForce p envelope.payload started.now
    pub claimed : Json
    pub named : get "expected_checkpoint" envelope.payload ≡ ok claimed
    pub reviewed : check_checkpoint claimed ≡ ok ((checkpoint c tx).seq, (checkpoint c tx).hash)
    pub still : IsAllowed p wire project finished action governed.sha256
    pub decision : LedgerEvent
    pub recorded : LedgerEvent
    pub events : tx'.events ≡ tx.events ++ decision ∷ recorded ∷ []

  record IsReviewed (tx : Transaction c) (body : Fields) : Type 0 where
    claimed : Json
    named : get "expected_checkpoint" body ≡ ok claimed
    reviewed : check_checkpoint claimed ≡ ok ((checkpoint c tx).seq, (checkpoint c tx).hash)

  is_current-IsReviewed :
      (tx : Transaction c) (r : Request)
      → is_current p w c wire project tx r ≡ ok tt
      → IsReviewed tx r.body
  unfolding is_current
  is_current-IsReviewed tx r h =
      let (claimed, named, h1) = >>=-eq-ok (get "expected_checkpoint" r.body) _ h in
      let (expected, checked, h2) = >>=-eq-ok (check_checkpoint claimed) _ h1 in
      let (equal, _) = require-eq-ok (at_checkpoint p w c wire project tx expected) _ _ _ _ h2 in
      let (seq, hash) = and-eq-true (expected.0 == (checkpoint c tx).seq) _ equal in
      let same : expected.0 ≡ (checkpoint c tx).seq = ground arith in
      record {
        claimed = claimed;
        named = named;
        reviewed =
            checked
            ∙ ap (λ n. ok (n, expected.1)) same
            ∙ ap (λ k. ok ((checkpoint c tx).seq, k))
                ((eq_iff expected.1 (checkpoint c tx).hash).0 hash);
      }

  replay_answer-replayed :
      (previous : RecordedCommand) (envelope : Envelope) (answer : Answer)
      → replay_answer p previous envelope ≡ ok answer
      → answer.replayed ≡ true
  unfolding replay_answer
  replay_answer-replayed previous envelope answer h =
      let (_, same) =
        require-eq-ok (str_eq previous.command.request_sha256 (p.digest_envelope envelope)) _ _ _ _
          h in
      ap (λ (a : Answer). a.replayed) (sym (ok-injective same))

  IsPerformed-IsPermitted :
      (started finished : Moment) (envelope : Envelope) (tx tx' : Transaction c) (answer : Answer)
      (r : Request)
      → IsAdmitted p wire project started envelope r
      → IsPerformed p w c wire project finished tx tx' r envelope answer
      → IsPermitted started finished envelope tx tx'
  IsPerformed-IsPermitted started finished envelope tx tx' answer r a x =
      let seen = is_current-IsReviewed tx r x.current in
      record {
        identity = r.identity;
        governed = r.governed;
        action = r.action;
        principal = r.principal;
        token = a.token;
        files = a.files;
        granted = a.granted;
        known_action = a.opened.known_action;
        stated = a.opened.stated;
        signed = a.opened.signed;
        in_force = subst (λ b. IsInForce p b started.now) a.opened.body a.in_force;
        claimed = seen.claimed;
        named = ap (get "expected_checkpoint") (sym a.opened.body) ∙ seen.named;
        reviewed = seen.reviewed;
        still = recheck-IsAllowed p wire project finished r x.rechecked;
        decision = x.decision;
        recorded = x.recorded;
        events = x.events;
      }

  -- A command changes the ledger only if it is permitted. When `execute` answers and the answer is not
  -- a replay, the token was good at the start and at the end; both times its subject is a member with
  -- read permission, the permission of the action and the write scope, under governance with one
  -- digest; the member himself signed the command in the role `team`; the command is in force, for at
  -- most five minutes; it names the checkpoint of the ledger; and exactly two events are added.
  pub execute-IsPermitted :
      (queued : Result Identity) (started finished : Moment) (envelope : Envelope)
      (tx tx' : Transaction c) (answer : Answer)
      → execute p w c wire project queued started finished envelope tx ≡ ok (answer, tx')
      → answer.replayed ≡ false
      → IsPermitted started finished envelope tx tx'
  execute-IsPermitted queued started finished envelope tx tx' answer h fresh =
      let x =
        execute-IsExecuted p w c wire project queued started finished envelope tx tx' answer h in
      elim x.outcome [
        | inl (previous, _, replayed, _) ↦
            let again = replay_answer-replayed previous envelope answer replayed in cc
        | inr done ↦
            IsPerformed-IsPermitted started finished envelope tx tx' answer x.request
              (admit-IsAdmitted p wire project started envelope x.request x.admitted) done
      ]

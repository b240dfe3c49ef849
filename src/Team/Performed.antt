-- ===== src/Team/Performed.antt =====
-- What `execute` of src/opentapeout/team.py has tested and added when it answers.
use open_tapeout.Prelude.{
  String, true, false, some, Option-cases, [], ◌∷◌, ◌++◌, ◌≡◌, sym, ap, ◌∙◌, inl, inr, ◌⊎◌, lookup,
  str_eq, eq_iff, leb, append_assoc,
}
use open_tapeout.Result.{Result, ok, err, tapeout, >>=-eq-ok, ensure-eq-ok, ok-injective}
use open_tapeout.Json.{obj, get}
use open_tapeout.Records.{Envelope, Platform}
use open_tapeout.Graph.Drift.{Workspace}
use open_tapeout.Store.{Codec, Transaction, append, checkpoint}
use open_tapeout.Store.Append.{append-events, append-checkpoint}
use open_tapeout.Engine.State.{
  State, Payload, LedgerEvent, Response, RecordedCommand, team_command, state_from,
}
use open_tapeout.Engine.Release.{project_id}
use open_tapeout.Team.Tokens.{Identity}
use open_tapeout.Team.Access.{max_command}
use open_tapeout.Team.Decisions.{apply_action}
use open_tapeout.Team.Appends.{apply_action-Appended}
use open_tapeout.Team.Gateway.{
  Moment, Wire, Answer, Request, admit, recheck, replay_answer, is_current, response_of, command_of,
  perform, execute_locked, execute,
}

module _ (p : Platform) (w : Workspace) (c : Codec String Payload) (wire : Wire)
    (project : String) where
  -- What a new command has added when `perform` succeeds: one event of its action, and the record of
  -- the command, whose checkpoint the answer names.
  pub record IsPerformed (finished : Moment) (tx tx' : Transaction c) (r : Request)
      (envelope : Envelope) (answer : Answer) : Type 0 where
    pub decision : LedgerEvent
    pub recorded : LedgerEvent
    pub events : tx'.events ≡ tx.events ++ decision ∷ recorded ∷ []
    pub response : Response
    pub current : is_current p w c wire project tx r ≡ ok tt
    pub rechecked : recheck p wire project finished r ≡ ok tt
    pub payload :
        recorded.body.payload ≡ team_command (command_of p w c wire project r envelope response)
    pub answered : answer ≡ record {
      response = response;
      seq = recorded.body.seq;
      hash = recorded.hash;
      replayed = false;
    }

  perform-IsPerformed :
      (started finished : Moment) (tx tx' : Transaction c) (s : State) (r : Request)
      (envelope : Envelope) (answer : Answer)
      → perform p w c wire project started finished tx s r envelope ≡ ok (answer, tx')
      → IsPerformed finished tx tx' r envelope answer
  unfolding perform
  perform-IsPerformed started finished tx tx' s r envelope answer h =
      let (_, current, h1) = >>=-eq-ok (is_current p w c wire project tx r) _ h in
      let (parameters, _, h2) = >>=-eq-ok (get "parameters" r.body) _ h1 in
      let (given, _, h3) =
        >>=-eq-ok
          (elim parameters [ obj f ↦ ok f | _ ↦ err (tapeout "Missing or unexpected fields") ]) _
          h2 in
      let (t, applied, h4) =
        >>=-eq-ok
          (apply_action p w c r.action tx s r.body given envelope.key_id r.principal
            r.governed.policy r.governed.trust started.now)
          _ h3 in
      let (_, rechecked, h5) = >>=-eq-ok (recheck p wire project finished r) _ h4 in
      let response = response_of p w c wire project r t.0 t.1 in
      let command = team_command (command_of p w c wire project r envelope response) in
      let (a, added, h6) =
        >>=-eq-ok (append c "team.command" command r.principal finished.now t.1) _ h5 in
      let (decision, first) =
        apply_action-Appended p w c r.action tx t.1 s r.body given envelope.key_id r.principal
          r.governed.policy r.governed.trust started.now t.0 applied in
      let (second, same) =
        append-events c "team.command" command r.principal finished.now t.1 a.1 a.0 added in
      let (seq, hash) =
        append-checkpoint c "team.command" command r.principal finished.now t.1 a.1 a.0 added in
      let last : a.1 ≡ tx' = ap (λ (x : Answer × Transaction c). x.1) (ok-injective h6) in
      record {
        decision = decision;
        recorded = a.0;
        events =
            ap (λ (x : Transaction c). x.events) (sym last)
            ∙ second
            ∙ ap (λ l. l ++ a.0 ∷ []) first
            ∙ append_assoc tx.events (decision ∷ []) (a.0 ∷ []);
        response = response;
        current = current;
        rechecked = rechecked;
        payload = same;
        answered =
            ap (λ (x : Answer × Transaction c). x.0) (sym (ok-injective h6))
            ∙ ap
                (λ n. record {
                  response = response;
                  seq = n;
                  hash = (checkpoint c a.1).hash;
                  replayed = false;
                })
                seq
            ∙ ap
                (λ k. record {
                  response = response;
                  seq = a.0.body.seq;
                  hash = k;
                  replayed = false;
                })
                hash;
      }

  -- What `execute` has found when it answers.
  pub record IsExecuted (m finished : Moment) (envelope : Envelope) (tx tx' : Transaction c)
      (answer : Answer) : Type 0 where
    pub request : Request
    pub state : State
    pub fits : leb (wire.size envelope) max_command ≡ true
    pub admitted : admit p wire project m envelope ≡ ok request
    pub before : state_from p tx.events ≡ ok state
    pub owned : project_id state ≡ ok project
    pub outcome :
        ((previous : RecordedCommand) × (lookup request.request_id state.team_commands
            ≡ some previous)
          × (replay_answer p previous envelope ≡ ok answer)
          × (tx ≡ tx'))
        ⊎ IsPerformed finished tx tx' request envelope answer

  pub execute-IsExecuted :
      (queued : Result Identity) (started finished : Moment) (envelope : Envelope)
      (tx tx' : Transaction c) (answer : Answer)
      → execute p w c wire project queued started finished envelope tx ≡ ok (answer, tx')
      → IsExecuted started finished envelope tx tx' answer
  unfolding execute execute_locked
  execute-IsExecuted queued started finished envelope tx tx' answer h =
      let (_, _, h1) = >>=-eq-ok queued _ h in
      let (fits, h2) = ensure-eq-ok (leb (wire.size envelope) max_command) _ _ h1 in
      let (r, admitted, h3) = >>=-eq-ok (admit p wire project started envelope) _ h2 in
      let (s, before, h4) = >>=-eq-ok (state_from p tx.events) _ h3 in
      let (own, owned, h5) = >>=-eq-ok (project_id s) _ h4 in
      let (same, h6) = ensure-eq-ok (str_eq own project) _ _ h5 in
      record {
        request = r;
        state = s;
        fits = fits;
        admitted = admitted;
        before = before;
        owned = owned ∙ ap ok ((eq_iff own project).0 same);
        outcome = elim (Option-cases (lookup r.request_id s.team_commands)) [
          | inl fresh ↦
              inr (perform-IsPerformed started finished tx tx' s r envelope answer (rw fresh at h6))
          | inr (previous, found) ↦
              let (a, replayed, h7) =
                >>=-eq-ok (replay_answer p previous envelope) _ (rw found at h6) in
              inl (
                previous,
                found,
                replayed ∙ ap (λ (x : Answer × Transaction c). ok x.0) (ok-injective h7),
                ap (λ (x : Answer × Transaction c). x.1) (ok-injective h7),
              )
        ];
      }

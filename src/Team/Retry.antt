-- ===== src/Team/Retry.antt =====
-- Sending a team command again: the ledger answers it without doing it twice.
use open_tapeout.Prelude.{
  String, true, not, none, some, Option-cases, [], ◌∷◌, ◌++◌, ◌≡◌, sym, ap, ◌∙◌, subst, inl, inr,
  lookup, lookup-insert, has, if◌then◌else◌, contains, str_eq, eq_refl,
}
use open_tapeout.Result.{
  Result, ok, err, type_error, >>=-eq-ok, >>=-ok, ensure-eq-ok, ensure-true, require-eq-ok,
  ok-injective, require, ◌>>=◌, ◌>>◌,
}
use open_tapeout.Json.{Json, str, obj, Fields, get, is_text}
use open_tapeout.Records.{Envelope, Platform}
use open_tapeout.Signing.{verify}
use open_tapeout.Signing.Authority.{verify_iff}
use open_tapeout.Graph.Drift.{Workspace}
use open_tapeout.Store.{Codec, Transaction}
use open_tapeout.Engine.State.{
  State, Payload, LedgerEvent, Response, RecordedCommand, team_command, state_from, replay,
  apply_event, apply_payload, record_command, initial,
}
use open_tapeout.Engine.History.{Extends, replay-append, replay-Extends}
use open_tapeout.Engine.Release.{project_id}
use open_tapeout.Team.Tokens.{Identity}
use open_tapeout.Team.Access.{actions, fields, text, member, Governance, check_window}
use open_tapeout.Team.Performed.{IsPerformed, IsExecuted, execute-IsExecuted}
use open_tapeout.Team.Gateway.{
  Moment, Wire, Answer, Request, request_uuid, command_type, authenticate, open_command, admit,
  replay_answer, command_of, perform, execute_locked, execute,
}

module _ (p : Platform) (w : Workspace) (c : Codec String Payload) (wire : Wire)
    (project : String) where
  str-injective : {a b : String} → str a ≡ str b → a ≡ b
  str-injective h = cc

  -- A request is the body of its envelope, and its ID stands there.
  record IsRequest (r : Request) (envelope : Envelope) : Type 0 where
    body : r.body ≡ envelope.payload
    request_id : get "request_id" r.body ≡ ok (str r.request_id)

  request_uuid-str : (v : Json) (k : String) → request_uuid wire v ≡ ok k → v ≡ str k
  unfolding request_uuid
  request_uuid-str (str s) k h = elim (Option-cases (wire.uuid s)) [
    | inl absent ↦ let bad = rw (absent, request_uuid) at h in cc
    | inr (canonical, found) ↦
        let (_, same) =
          require-eq-ok (str_eq canonical s) _ _ _ _ (rw (found, request_uuid) at h) in
        ap str (ok-injective same)
  ]
  request_uuid-str v k h = cc

  open_command-payload :
      (governed : Governance) (envelope : Envelope) (t : Fields × String × String)
      → open_command p wire project governed envelope ≡ ok t
      → t.0 ≡ envelope.payload
  unfolding open_command
  open_command-payload governed envelope t h =
      let (u, verified, h1) =
        >>=-eq-ok (verify p governed.trust envelope "team" command_type) _ h in
      let (_, _, h2) = >>=-eq-ok (fields (obj u.0) _) _ h1 in
      let (named, _, h3) = >>=-eq-ok (get "action" u.0) _ h2 in
      let (action, _, h4) = >>=-eq-ok (text named "Unsupported team action") _ h3 in
      let (_, h5) = ensure-eq-ok (contains action actions) _ _ h4 in
      ap (λ (x : Fields × String × String). x.0) (sym (ok-injective h5))
      ∙ ((verify_iff p governed.trust envelope "team" command_type u.0 u.1).0 verified).0

  admit-IsRequest :
      (m : Moment) (envelope : Envelope) (r : Request)
      → admit p wire project m envelope ≡ ok r
      → IsRequest r envelope
  unfolding admit
  admit-IsRequest m envelope r h =
      let (a, _, h1) = >>=-eq-ok (authenticate p wire project m) _ h in
      let (t, opened, h2) = >>=-eq-ok (open_command p wire project a.1 envelope) _ h1 in
      let (principal, _, h3) = >>=-eq-ok (member a.0 a.1.members t.1) _ h2 in
      let (_, h4) = require-eq-ok (str_eq t.2 principal) _ _ _ _ h3 in
      let (owner, _, h5) = >>=-eq-ok (get "project_id" t.0) _ h4 in
      let (_, h6) = require-eq-ok (is_text project owner) _ _ _ _ h5 in
      let (requested, wanted, h7) = >>=-eq-ok (get "request_id" t.0) _ h6 in
      let (request_id, named, h8) = >>=-eq-ok (request_uuid wire requested) _ h7 in
      let (_, _, h9) = >>=-eq-ok (check_window p t.0 m.now) _ h8 in
      let same = ok-injective h9 in
      let body : t.0 ≡ r.body = ap (λ (x : Request). x.body) same in
      record {
        body = sym body ∙ open_command-payload a.1 envelope t opened;
        request_id =
            ap (get "request_id") (sym body)
            ∙ wanted
            ∙ ap ok (request_uuid-str requested request_id named)
            ∙ ap (λ (x : Request). ok (str x.request_id)) same;
      }

  -- The entry that the record of a command leaves in the state.
  abbrev entry : Request → Envelope → Response → LedgerEvent → RecordedCommand
  entry r envelope response e = record {
    command = command_of p w c wire project r envelope response;
    seq = e.body.seq;
    hash = e.hash;
  }

  recorded-entry :
      (s s' : State) (r : Request) (envelope : Envelope) (response : Response) (e : LedgerEvent)
      → e.body.payload ≡ team_command (command_of p w c wire project r envelope response)
      → replay p s (e ∷ []) ≡ ok s'
      → lookup r.request_id s'.team_commands ≡ some (entry r envelope response e)
  unfolding replay apply_event apply_payload record_command
  recorded-entry s s' r envelope response e payload h =
      let command = command_of p w c wire project r envelope response in
      let (s1, applied, last) =
        >>=-eq-ok (apply_payload p e.body.seq e.hash e.body.payload s) _ h in
      let (_, made) =
        ensure-eq-ok (not (has r.request_id s.team_commands)) _ _
          (ap (λ y. apply_payload p e.body.seq e.hash y s) (sym payload) ∙ applied) in
      ap (λ (x : State). lookup r.request_id x.team_commands) (sym (ok-injective last))
      ∙ ap (λ (x : State). lookup r.request_id x.team_commands) (sym (ok-injective made))
      ∙ lookup-insert r.request_id r.request_id (entry r envelope response e) s.team_commands
      ∙ ap
          (λ b.
            if b then some (entry r envelope response e) else lookup r.request_id s.team_commands)
          (eq_refl r.request_id)

  performed-entry :
      (finished : Moment) (tx tx' : Transaction c) (s s' : State) (r : Request)
      (envelope : Envelope) (answer : Answer)
      → state_from p tx.events ≡ ok s
      → state_from p tx'.events ≡ ok s'
      → (x : IsPerformed p w c wire project finished tx tx' r envelope answer)
      → Extends s s'
        × (lookup r.request_id s'.team_commands ≡ some (entry r envelope x.response x.recorded))
  unfolding state_from
  performed-entry finished tx tx' s s' r envelope answer before after x =
      let whole : replay p initial (tx.events ++ x.decision ∷ x.recorded ∷ []) ≡ ok s' =
        ap (replay p initial) (sym x.events) ∙ after in
      let (t, first, both) =
        >>=-eq-ok (replay p initial tx.events) _
          (sym (replay-append p tx.events (x.decision ∷ x.recorded ∷ []) initial) ∙ whole) in
      let same : t ≡ s = ok-injective (sym first ∙ before) in
      let (mid, _, second) =
        >>=-eq-ok (replay p t (x.decision ∷ [])) _
          (sym (replay-append p (x.decision ∷ []) (x.recorded ∷ []) t) ∙ both) in
      (
        subst (λ z. Extends z s') same (replay-Extends p (x.decision ∷ x.recorded ∷ []) t s' both),
        recorded-entry mid s' r envelope x.response x.recorded x.payload second,
      )

  abbrev again : Answer → Answer
  again answer = record answer { replayed = true }

  replay_answer-again :
      (previous : RecordedCommand) (envelope : Envelope) (answer : Answer)
      → replay_answer p previous envelope ≡ ok answer
      → replay_answer p previous envelope ≡ ok (again answer)
  unfolding replay_answer
  replay_answer-again previous envelope answer h =
      let (_, same) =
        require-eq-ok (str_eq previous.command.request_sha256 (p.digest_envelope envelope)) _ _ _ _
          h in
      h ∙ ap ok (sym (ok-injective same) ∙ ap again (ok-injective same))

  replay_answer-entry :
      (r : Request) (envelope : Envelope) (response : Response) (e : LedgerEvent)
      → replay_answer p (entry r envelope response e) envelope
        ≡ ok (record { response = response; seq = e.body.seq; hash = e.hash; replayed = true })
  unfolding replay_answer
  replay_answer-entry r envelope response e =
      ap
        (λ b.
          require b "REQUEST_ID_REUSED" "Request ID was already used for different signed content"
            409
          >> ok (record { response = response; seq = e.body.seq; hash = e.hash; replayed = true }))
        (eq_refl (p.digest_envelope envelope))

  project_id-Extends :
      (s s' : State) → Extends s s' → project_id s ≡ ok project → project_id s' ≡ ok project
  unfolding project_id
  project_id-Extends s s' x h = elim (Option-cases s.project) [
    | inl missing ↦ let bad = rw (missing, project_id) at h in cc
    | inr (found, e) ↦
        let same : found.id ≡ project = ok-injective (rw (e, project_id) at h) in
        ap (λ o. elim o [ none ↦ err type_error | some y ↦ ok y.id ]) (x.project found e)
        ∙ ap ok same
  ]

  -- The state that an answered command leaves knows it.
  record IsKnown (s' : State) (r : Request) (envelope : Envelope) (answer : Answer) : Type 0 where
    owned : project_id s' ≡ ok project
    previous : RecordedCommand
    found : lookup r.request_id s'.team_commands ≡ some previous
    replayed : replay_answer p previous envelope ≡ ok (again answer)

  IsExecuted-IsKnown :
      (m finished : Moment) (envelope : Envelope) (tx tx' : Transaction c) (answer : Answer)
      (s' : State)
      → (x : IsExecuted p w c wire project m finished envelope tx tx' answer)
      → state_from p tx'.events ≡ ok s'
      → IsKnown s' x.request envelope answer
  IsExecuted-IsKnown m finished envelope tx tx' answer s' x after = elim x.outcome [
    | inl (previous, found, replayed, stays) ↦
        let same : x.state ≡ s' =
          ok-injective
            (sym x.before ∙ ap (λ (t : Transaction c). state_from p t.events) stays ∙ after) in
        record {
          owned = subst (λ z. project_id z ≡ ok project) same x.owned;
          previous = previous;
          found =
              subst (λ (z : State). lookup x.request.request_id z.team_commands ≡ some previous)
                same found;
          replayed = replay_answer-again previous envelope answer replayed;
        }
    | inr done ↦
        let (longer, found) =
          performed-entry finished tx tx' x.state s' x.request envelope answer x.before after
            done in
        record {
          owned = project_id-Extends x.state s' longer x.owned;
          previous = entry x.request envelope done.response done.recorded;
          found = found;
          replayed =
              replay_answer-entry x.request envelope done.response done.recorded
              ∙ ap (λ a. ok (again a)) (sym done.answered);
        }
  ]

  -- Sending a command again is safe: when `execute` has answered an envelope and the ledger it leaves
  -- can be replayed, `execute` of the same envelope on that ledger, at any later moment at which the
  -- sender is still admitted, gives the same answer marked as replayed and leaves the ledger as it is.
  pub execute-replayed :
      (queued queued' : Result Identity) (identity : Identity)
      (started finished started' finished' : Moment) (envelope : Envelope) (tx tx' : Transaction c)
      (answer : Answer) (s' : State) (r' : Request)
      → execute p w c wire project queued started finished envelope tx ≡ ok (answer, tx')
      → state_from p tx'.events ≡ ok s'
      → queued' ≡ ok identity
      → admit p wire project started' envelope ≡ ok r'
      → execute p w c wire project queued' started' finished' envelope tx'
        ≡ ok (record answer { replayed = true }, tx')
  unfolding execute execute_locked
  execute-replayed queued queued' identity started finished started' finished' envelope tx tx'
        answer s' r' h after valid admitted =
      let x =
        execute-IsExecuted p w c wire project queued started finished envelope tx tx' answer h in
      let known = IsExecuted-IsKnown started finished envelope tx tx' answer s' x after in
      let one = admit-IsRequest started envelope x.request x.admitted in
      let two = admit-IsRequest started' envelope r' admitted in
      let same : x.request.request_id ≡ r'.request_id = str-injective (
        ok-injective (
          sym one.request_id ∙ ap (get "request_id") (one.body ∙ sym two.body) ∙ two.request_id)) in
      >>=-ok _ valid
      ∙ ensure-true _ _ x.fits
      ∙ >>=-ok _ admitted
      ∙ >>=-ok _ after
      ∙ >>=-ok _ known.owned
      ∙ ensure-true _ _ (eq_refl project)
      ∙ ap
          (λ o. elim o [
            | some previous ↦ (replay_answer p previous envelope >>= λ a. ok (a, tx'))
            | none ↦ perform p w c wire project started' finished' tx' s' r' envelope
          ])
          (ap (λ k. lookup k s'.team_commands) (sym same) ∙ known.found)
      ∙ >>=-ok _ known.replayed

-- ===== src/Engine/History.antt =====
-- What no later event of the ledger undoes.
use open_tapeout.Prelude.{
  ℕ, String, Bool, true, not, some, Option-cases, List, [], ◌∷◌, ◌++◌, ◌≡◌, refl, sym, ap, ◌∙◌,
  subst, arith, Dict, lookup, insert, lookup-insert, has, contains, contains-add, eq_iff,
  append-nil, append_assoc, inl, inr,
}
use open_tapeout.Result.{Result-cases, ok, ◌>>=◌, >>=-eq-ok, ensure-eq-ok, ok-injective}
use open_tapeout.Json.{Fields}
use open_tapeout.Records.{Envelope, Completion, Platform}
use open_tapeout.Engine.State.{
  Project, RecordedCommand, TeamCommand, Payload, project_created, run_completed, waiver_revoked,
  candidate_created, approval_signed, approval_revoked, release_withdrawn, release_sealed,
  team_command, unknown, State, LedgerEvent, digest_field, complete_run, record_command,
  apply_payload, apply_event, replay,
}

pub has-insert {ℓ} :
    {V : Type ℓ} (k j : String) (v : V) (m : Dict V) → has k m ≡ true → has k (insert j v m) ≡ true
has-insert k j v m h = ground (arith, lookup-insert j k v m)

-- What the ledger can decide about a name or a digest.
pub data Decision : Type 0 where
  withdrawn approval_is_revoked waiver_is_revoked sealed candidate_exists : Decision

abbrev pub decided : State → Decision → String → Bool
decided s withdrawn k = has k s.withdrawals
decided s approval_is_revoked k = has k s.revoked_approvals
decided s waiver_is_revoked k = contains k s.revoked_waivers
decided s sealed k = has k s.releases
decided s candidate_exists k = has k s.candidates

-- Everything that has been decided stays: the project, the withdrawals, the revocations, the names of
-- sealed releases and of candidates, the signed approvals in order, and each team command with its
-- response.
pub record Extends (s s' : State) : Type 0 where
  pub project : (x : Project) → s.project ≡ some x → s'.project ≡ some x
  pub decisions : (d : Decision) (k : String) → decided s d k ≡ true → decided s' d k ≡ true
  pub approvals : (rest : List Envelope) × (s'.approvals ≡ s.approvals ++ rest)
  pub team_commands :
      (k : String) (r : RecordedCommand)
      → lookup k s.team_commands ≡ some r
      → lookup k s'.team_commands ≡ some r

pub Extends-trans : (s t u : State) → Extends s t → Extends t u → Extends s u
Extends-trans s t u a b = record {
  project = λ x h. b.project x (a.project x h);
  decisions = λ d k h. b.decisions d k (a.decisions d k h);
  approvals = (
    a.approvals.0 ++ b.approvals.0,
    b.approvals.1
        ∙ ap (λ l. l ++ b.approvals.0) a.approvals.1
        ∙ append_assoc s.approvals a.approvals.0 b.approvals.0,
  );
  team_commands = λ k r h. b.team_commands k r (a.team_commands k r h);
}

-- An event that leaves the project, the approvals and the team commands alone.
decide-Extends :
    (s s' : State)
    → s'.project ≡ s.project
    → s'.approvals ≡ s.approvals
    → s'.team_commands ≡ s.team_commands
    → ((d : Decision) (k : String) → decided s d k ≡ true → decided s' d k ≡ true)
    → Extends s s'
decide-Extends s s' project approvals commands decisions = record {
  project = λ x h. project ∙ h;
  decisions = decisions;
  approvals = ([], approvals ∙ sym (append-nil s.approvals));
  team_commands = λ k r h. ap (lookup k) commands ∙ h;
}

pub Extends-refl : (s : State) → Extends s s
Extends-refl s = decide-Extends s s refl refl refl (λ d k h. h)

module _ (s : State) where
  complete_run-Extends :
      (id : String) (c : Completion) {s' : State} → complete_run id c s ≡ ok s' → Extends s s'
  unfolding complete_run
  complete_run-Extends id c h = elim (Option-cases (lookup id s.runs)) [
    | inl missing ↦ absurd (ground arith)
    | inr (run, e) ↦
        subst (Extends s) (ok-injective (rw (e, complete_run) at h))
          (decide-Extends s _ refl refl refl (elim [ withdrawn ↦ λ k i. i | _ ↦ λ k i. i ]))
  ]

  record_command-Extends :
      (seq : ℕ) (hash : String) (c : TeamCommand) {s' : State}
      → record_command seq hash c s ≡ ok s'
      → Extends s s'
  unfolding record_command
  record_command-Extends seq hash c h =
      let (new, rest) = ensure-eq-ok (not (has c.request_id s.team_commands)) _ _ h in
      subst (Extends s) (ok-injective rest) (record {
        project = λ x k. k;
        decisions = elim [ withdrawn ↦ λ k i. i | _ ↦ λ k i. i ];
        approvals = ([], sym (append-nil s.approvals));
        team_commands = λ x r k.
            lookup-insert c.request_id x (record { command = c; seq = seq; hash = hash })
              s.team_commands
            ∙ ground (arith, eq_iff c.request_id x);
      })

-- The state that a statement with the field `key` leads to.
keyed-Extends :
    (s s' : State) (key : String) (body : Fields) (f : String → State)
    → ((x : String) → Extends s (f x))
    → (do x ← digest_field key body; ok (f x)) ≡ ok s'
    → Extends s s'
keyed-Extends s s' key body f each h =
    let (x, _, e) = >>=-eq-ok (digest_field key body) _ h in
    subst (Extends s) (ok-injective e) (each x)

apply_payload-Extends :
    (p : Platform) (seq : ℕ) (hash : String) (x : Payload) (s s' : State)
    → apply_payload p seq hash x s ≡ ok s'
    → Extends s s'
unfolding apply_payload
apply_payload-Extends p seq hash (project_created project) s s' h = elim (Option-cases s.project) [
  | inl new ↦ subst (Extends s) (ok-injective (rw new at h)) (record {
    project = λ x k. absurd (ground arith);
    decisions = elim [ withdrawn ↦ λ k i. i | _ ↦ λ k i. i ];
    approvals = ([], sym (append-nil s.approvals));
    team_commands = λ x r k. k;
  })
  | inr (x, e) ↦ absurd (ground arith)
]
apply_payload-Extends p seq hash (run_completed id c) s s' h = complete_run-Extends s id c h
apply_payload-Extends p seq hash (waiver_revoked envelope) s s' h =
    keyed-Extends s s' "waiver_sha256" envelope.payload _
      (λ x. decide-Extends s _ refl refl refl (elim [
        | waiver_is_revoked ↦ λ k i. contains-add x k s.revoked_waivers ∙ ground arith
        | _ ↦ λ k i. i
      ]))
      h
apply_payload-Extends p seq hash (candidate_created id candidate) s s' h =
    subst (Extends s) (ok-injective h) (
      decide-Extends s _ refl refl refl (elim [
        | candidate_exists ↦ λ k i. has-insert k id candidate s.candidates i
        | _ ↦ λ k i. i
      ]))
apply_payload-Extends p seq hash (approval_signed envelope) s s' h =
    subst (Extends s) (ok-injective h) (record {
      project = λ x k. k;
      decisions = elim [ withdrawn ↦ λ k i. i | _ ↦ λ k i. i ];
      approvals = (envelope ∷ [], refl);
      team_commands = λ x r k. k;
    })
apply_payload-Extends p seq hash (approval_revoked envelope) s s' h =
    keyed-Extends s s' "approval_sha256" envelope.payload _
      (λ x. decide-Extends s _ refl refl refl (elim [
        | approval_is_revoked ↦ λ k i. has-insert k x envelope s.revoked_approvals i
        | _ ↦ λ k i. i
      ]))
      h
apply_payload-Extends p seq hash (release_withdrawn envelope) s s' h =
    keyed-Extends s s' "candidate_sha256" envelope.payload _
      (λ x.
        decide-Extends s _ refl refl refl
          (elim [ withdrawn ↦ λ k i. has-insert k x envelope s.withdrawals i | _ ↦ λ k i. i ]))
      h
apply_payload-Extends p seq hash (release_sealed release) s s' h =
    subst (Extends s) (ok-injective h) (
      decide-Extends s _ refl refl refl
        (elim [ sealed ↦ λ k i. has-insert k release.id release s.releases i | _ ↦ λ k i. i ]))
apply_payload-Extends p seq hash (team_command command) s s' h =
    record_command-Extends s seq hash command h
apply_payload-Extends p seq hash (unknown kind) s s' h = cc
apply_payload-Extends p seq hash _ s s' h =
    subst (Extends s) (ok-injective h)
      (decide-Extends s _ refl refl refl (elim [ withdrawn ↦ λ k i. i | _ ↦ λ k i. i ]))

-- Whatever events follow, the state after them extends the state before: a withdrawal, a revocation,
-- a sealed release, a signed approval, the project or a team command is never undone.
pub replay-Extends :
    (p : Platform) (events : List LedgerEvent) (s s' : State)
    → replay p s events ≡ ok s'
    → Extends s s'
unfolding replay apply_event
replay-Extends p [] s s' h = subst (Extends s) (ok-injective h) (Extends-refl s)
replay-Extends p (e ∷ events) s s' h =
    let (mid, first, rest) = >>=-eq-ok (apply_payload p e.body.seq e.hash e.body.payload s) _ h in
    Extends-trans s mid s' (apply_payload-Extends p e.body.seq e.hash e.body.payload s mid first)
      (replay-Extends p events mid s' rest)

-- The state of a longer ledger is reached from the state of its beginning.
pub replay-append :
    (p : Platform) (earlier later : List LedgerEvent) (s : State)
    → replay p s (earlier ++ later) ≡ (do mid ← replay p s earlier; replay p mid later)
unfolding replay
replay-append p [] later s = refl
replay-append p (e ∷ earlier) later s = elim (Result-cases (apply_event p e s)) [
  | inl (mid, h) ↦ rw h (replay-append p earlier later mid)
  | inr (f, h) ↦ rw h
]

-- ===== src/Engine/Runs/Once.antt =====
-- `finish` of engine.py completes a run once.
use open_tapeout.Prelude.{
  ℕ, String, Bool, true, Option, none, some, ◌≡◌, sym, ap, ◌∙◌, arith, ℤ, pos, negsuc, Option-cases,
  inl, inr, lookup, insert, lookup-insert, eq_refl, if◌then◌else◌, ◌≤◌, pos_part, neg_part,
}
use open_tapeout.Result.{
  ok, err, tapeout, known, known-eq-ok, >>=-ok, ensure-true, >>=-eq-ok, ensure-eq-ok, ok-injective,
}
use open_tapeout.Records.{Completion, Run, ExecutionIdentity, Platform}
use open_tapeout.Graph.Drift.{Workspace}
use open_tapeout.Parsers.Formats.{Reports}
use open_tapeout.Store.{Codec, Transaction, append}
use open_tapeout.Engine.State.{
  State, Payload, run_completed, state_from, apply_payload, complete_run,
}
use open_tapeout.Engine.Runs.{Logs, is_exit_code, is_open, complete, finish}
use open_tapeout.Engine.Appended.{appended_state}

module _ (p : Platform) (w : Workspace) (reports : Reports) (c : Codec String Payload) where
  -- What `finish` leaves: the run was open and the exit code in range, and now the run is complete.
  pub record IsFinished (run_id : String) (exit_code : ℤ) (tx tx' : Transaction c)
      (completion : Completion) : Type 0 where
    pub before : State
    pub after : State
    pub run : Run
    pub read : state_from p tx.events ≡ ok before
    pub known_run : lookup run_id before.runs ≡ some run
    pub open_before : run.completion ≡ none
    pub bounded : (pos_part exit_code ≤ 65536) × (neg_part exit_code ≤ 65536)
    pub read_after : state_from p tx'.events ≡ ok after
    pub completed : lookup run_id after.runs ≡ some (record run { completion = some completion })

  is_exit_code-bounds :
      (z : ℤ) → is_exit_code z ≡ true → (pos_part z ≤ 65536) × (neg_part z ≤ 65536)
  is_exit_code-bounds (pos n) h = ground arith
  is_exit_code-bounds (negsuc n) h = ground arith

  is_open-none : (run : Run) → is_open run ≡ true → run.completion ≡ none
  is_open-none run h = elim (Option-cases run.completion) [
    | inl absent ↦ absent
    | inr (done, e) ↦ let bad = rw e at h in cc
  ]

  completed_state :
      (seq : ℕ) (hash run_id : String) (completion : Completion) (run : Run) (s : State)
      → lookup run_id s.runs ≡ some run
      → apply_payload p seq hash (run_completed run_id completion) s
        ≡ ok
            (record s { runs = insert run_id (record run { completion = some completion }) s.runs })
  unfolding apply_payload complete_run
  completed_state seq hash run_id completion run s found =
      ap
        (λ o. elim o [
          | none ↦ err (tapeout "Completion without run start")
          | some r ↦
              ok (record s {
                runs = insert run_id (record r { completion = some completion }) s.runs;
              })
        ])
        found

  -- When `finish` succeeds, the run was open and the exit code was in
  -- -65536 .. 65536, and the ledger it leaves has the run complete with what `finish` returned.
  pub finish-IsFinished :
      (tx tx' : Transaction c) (run_id : String) (report : Option String) (exit_code : ℤ)
      (format_name actor : String) (managed : Bool) (logs : Option Logs)
      (identity : Option ExecutionIdentity) (now : String) (completion : Completion)
      → finish p w reports c tx run_id report exit_code format_name actor managed logs identity now
        ≡ ok (completion, tx')
      → IsFinished run_id exit_code tx tx' completion
  unfolding finish
  finish-IsFinished tx tx' run_id report exit_code format_name actor managed logs identity now
        completion h =
      let (exit, h1) = ensure-eq-ok (is_exit_code exit_code) _ _ h in
      let (s, read, h2) = >>=-eq-ok (state_from p tx.events) _ h1 in
      let (run, found, h3) = >>=-eq-ok (known (lookup run_id s.runs) "Unknown run") _ h2 in
      let (opened, h4) = ensure-eq-ok (is_open run) _ _ h3 in
      let (done, _, h5) =
        >>=-eq-ok
          (complete p w reports s run_id run report exit_code format_name managed logs identity now)
          _ h4 in
      let payload = run_completed run_id done in
      let (a, added, h6) = >>=-eq-ok (append c "run.completed" payload actor now tx) _ h5 in
      let named : lookup run_id s.runs ≡ some run = known-eq-ok _ _ found in
      let finished : State = record s {
        runs = insert run_id (record run { completion = some done }) s.runs;
      } in
      let done_same : done ≡ completion =
        ap (λ (x : Completion × Transaction c). x.0) (ok-injective h6) in
      let last : a.1 ≡ tx' = ap (λ (x : Completion × Transaction c). x.1) (ok-injective h6) in
      record {
        before = s;
        after = finished;
        run = run;
        read = read;
        known_run = named;
        open_before = is_open-none run opened;
        bounded = is_exit_code-bounds exit_code exit;
        read_after =
            ap (λ (x : Transaction c). state_from p x.events) (sym last)
            ∙ appended_state p c tx now "run.completed" payload actor a.1 a.0 s read added
            ∙ completed_state a.0.body.seq a.0.hash run_id done run s named;
        completed =
            lookup-insert run_id run_id (record run { completion = some done }) s.runs
            ∙ ap
                (λ b.
                  if b then some (record run { completion = some done }) else lookup run_id s.runs)
                (eq_refl run_id)
            ∙ ap (λ x. some (record run { completion = some x })) done_same;
      }

  -- A run is completed once: on the ledger that a `finish` of the run leaves, every further `finish` of
  -- it with an exit code in range fails, whatever its report and its actor.
  pub finish-again :
      (tx tx' : Transaction c) (run_id : String) (report report' : Option String)
      (exit_code exit_code' : ℤ) (format_name format_name' actor actor' : String)
      (managed managed' : Bool) (logs logs' : Option Logs)
      (identity identity' : Option ExecutionIdentity) (now now' : String) (completion : Completion)
      → finish p w reports c tx run_id report exit_code format_name actor managed logs identity now
        ≡ ok (completion, tx')
      → is_exit_code exit_code' ≡ true
      → finish p w reports c tx' run_id report' exit_code' format_name' actor' managed' logs'
          identity' now'
        ≡ err (tapeout "Run is already completed; start a new run")
  unfolding finish known
  finish-again tx tx' run_id report report' exit_code exit_code' format_name format_name' actor
        actor' managed managed' logs logs' identity identity' now now' completion h exit =
      let x =
        finish-IsFinished tx tx' run_id report exit_code format_name actor managed logs identity now
          completion h in
      ensure-true _ _ exit
      ∙ >>=-ok _ x.read_after
      ∙ >>=-ok _ (ap (λ o. known o "Unknown run") x.completed)

-- ===== src/Engine/Appended.antt =====
-- The state of engine.py behind an event that `Transaction.append` has added.
use open_tapeout.Prelude.{String, List, [], ◌∷◌, ◌++◌, ◌≡◌, refl, ap, ◌∙◌}
use open_tapeout.Result.{Result, ok, err, ◌>>=◌}
use open_tapeout.Records.{Platform}
use open_tapeout.Store.{Codec, Transaction, append}
use open_tapeout.Store.Append.{append-events}
use open_tapeout.Engine.State.{
  State, Payload, state_from, apply_payload, apply_event, replay, LedgerEvent, initial,
}
use open_tapeout.Engine.History.{replay-append}

bind-ok {ℓ} : {A : Type ℓ} (r : Result A) → (r >>= ok) ≡ r
bind-ok (ok a) = refl
bind-ok (err e) = refl

-- The state behind an appended event.
pub state_from-append :
    (p : Platform) (earlier : List LedgerEvent) (e : LedgerEvent) (s : State)
    → state_from p earlier ≡ ok s
    → state_from p (earlier ++ e ∷ []) ≡ apply_payload p e.body.seq e.hash e.body.payload s
unfolding state_from replay apply_event
state_from-append p earlier e s h =
    replay-append p earlier (e ∷ []) initial
    ∙ ap (λ r. r >>= λ mid. replay p mid (e ∷ [])) h
    ∙ bind-ok (apply_payload p e.body.seq e.hash e.body.payload s)

module _ (p : Platform) (c : Codec String Payload) (tx : Transaction c) (now : String) where
  pub appended_state :
      (event_type : String) (payload : Payload) (actor : String) (tx' : Transaction c)
      (e : LedgerEvent) (s : State)
      → state_from p tx.events ≡ ok s
      → append c event_type payload actor now tx ≡ ok (e, tx')
      → state_from p tx'.events ≡ apply_payload p e.body.seq e.hash payload s
  appended_state event_type payload actor tx' e s before added =
      let (events, same) = append-events c event_type payload actor now tx tx' e added in
      ap (state_from p) events
      ∙ state_from-append p tx.events e s before
      ∙ ap (λ y. apply_payload p e.body.seq e.hash y s) same

-- ===== src/Lifecycle/Export.antt =====
-- `export_status` of lifecycle.py: the signed snapshot of what the ledger has revoked.
use open_tapeout.Prelude.{ℕ, ◌+◌, String, ◌&&◌, not, List, [], ◌∷◌, keys, sorted, pos}
use open_tapeout.Result.{Result, ok, ensure, ◌>>=◌, ◌>>◌}
use open_tapeout.Json.{
  Number, num, int, str, arr, obj, Items, nil, cons, Fields, end, field, number_lt,
}
use open_tapeout.Util.{finite_number}
use open_tapeout.Records.{Envelope, Trust, Platform}
use open_tapeout.Signing.{PrivateKey, sign, timestamp, verify}
use open_tapeout.Store.{Codec, Transaction, checkpoint}
use open_tapeout.Engine.State.{State, Payload, state_from}
use open_tapeout.Engine.Release.{project_id}

unfoldable pub text_items : List String → Items
text_items [] = nil
text_items (x ∷ xs) = cons (str x) (text_items xs)

-- The body of a status statement, its keys in order.
unfoldable pub status_statement : State → String → String → String → ℕ → String → Fields
unfolding text_items
status_statement s project issued expires seq hash =
    field "checkpoint" (obj (field "hash" (str hash) (field "seq" (num (int (pos seq))) end))) (
      field "created_at" (str issued) (
        field "expires_at" (str expires) (
          field "project_id" (str project) (
            field "revoked_approvals" (arr (text_items (sorted (keys s.revoked_approvals)))) (
              field "revoked_waivers" (arr (text_items (sorted s.revoked_waivers))) (
                field "type" (str "opentapeout.release-status/v1") (
                  field "withdrawn_candidates" (arr (text_items (sorted (keys s.withdrawals))))
                    end)))))))

module _ (p : Platform) (c : Codec String Payload) where
  -- `isoformat` is that of datetime.
  unfoldable pub export_status :
      (ℕ → String) → PrivateKey → Transaction c → Trust → Number → String → Result Envelope
  unfolding status_statement sign project_id
  export_status isoformat key tx trust valid_hours now = do
    ensure
        (finite_number (num valid_hours)
          && number_lt (int (pos 0)) valid_hours
          && not (number_lt (int (pos 24)) valid_hours))
        "Status validity must be positive and no more than 24 hours"
    s ← state_from p tx.events
    project ← project_id s
    start ← timestamp p (str now)
    let head = checkpoint c tx
    let envelope = sign key (
        status_statement s project now (isoformat (start + p.hours valid_hours)) head.seq head.hash)
    _ ← verify p trust envelope "release" "opentapeout.release-status/v1"
    ok envelope

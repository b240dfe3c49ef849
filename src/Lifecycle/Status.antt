-- ===== src/Lifecycle/Status.antt =====
-- `verify_status` and `check_candidate_status` of lifecycle.py: the offline check of a release
-- against a signed status statement.
pub mod InForce
pub mod Cleared
use open_tapeout.Prelude.{
  ℕ, ◌+◌, String, Bool, true, false, ◌&&◌, not, none, some, List, [], ◌∷◌, leb, ltb, contains, any,
  all, keep, same_set, texts_eq, sorted, to_set, pos,
}
use open_tapeout.Result.{Result, ok, err, ensure, tapeout, ◌>>=◌, ◌>>◌}
use open_tapeout.Json.{
  Json, num, str, arr, obj, int, Fields, get, get?, field_names, elements, is_text,
}
use open_tapeout.Util.{is_hex}
use open_tapeout.Records.{Envelope, Candidate, Trust, Platform}
use open_tapeout.Signing.{timestamp, verify}

-- `type(seq) is int and seq >= max(1, minimum_sequence)`
abbrev pub is_sequence : ℕ → Json → Bool
is_sequence minimum (num (int (pos n))) = leb 1 n && leb minimum n
is_sequence minimum _ = false

abbrev pub is_digest : Json → Bool
is_digest (str s) = is_hex s
is_digest _ = false

abbrev pub is_checkpoint : ℕ → Json → Bool
is_checkpoint minimum (obj f) =
    same_set (field_names f) ("seq" ∷ "hash" ∷ [])
    && elim (get? "seq" f) [ none ↦ false | some v ↦ is_sequence minimum v ]
    && elim (get? "hash" f) [ none ↦ false | some v ↦ is_digest v ]
is_checkpoint minimum _ = false

unfoldable pub digests : List Json → Result (List String)
digests [] = ok []
digests (str s ∷ rest) = do
  others ← digests rest
  ensure (is_hex s) "Invalid revocation digest list"
  ok (s ∷ others)
digests (_ ∷ rest) = err (tapeout "Invalid revocation digest list")

-- A list of digests that is sorted and names none twice.
unfoldable pub digest_list : String → Fields → Result (List String)
unfolding digests
digest_list key body = do
  v ← get key body
  values ← elim v [
    | arr items ↦ digests (elements items)
    | _ ↦ err (tapeout "Invalid revocation digest list")
  ]
  ensure (texts_eq values (sorted (to_set values))) "Invalid revocation digest list"
  ok values

-- The dictionary that `verify_status` returns, with the lists of its statement.
pub record Status : Type 0 where
  pub signer : String
  pub statement : Fields
  pub checked_at : ℕ
  pub revoked_approvals : List String
  pub revoked_waivers : List String
  pub withdrawn_candidates : List String

module _ (p : Platform) where
  -- The tests of the statement before its lists. The type of `minimum_sequence` is the test that it is
  -- an integer that is not negative.
  unfoldable pub check_statement_fields : Fields → String → ℕ → String → Result ℕ
  check_statement_fields body project_id minimum_sequence at = do
    ensure
        (same_set (field_names body) (
          "type" ∷ "project_id" ∷ "created_at" ∷ "expires_at" ∷ "checkpoint" ∷ "revoked_approvals"
          ∷ "revoked_waivers" ∷ "withdrawn_candidates" ∷ []))
        "Invalid status statement fields"
    project ← get "project_id" body
    ensure (is_text project_id project) "Status belongs to a different project"
    created_at ← get "created_at" body
    issued ← timestamp p created_at
    expires_at ← get "expires_at" body
    expires ← timestamp p expires_at
    current ← timestamp p (str at)
    ensure (leb issued current && ltb current expires) "Status expired or future-dated"
    ensure (ltb issued expires && leb expires (issued + p.hours (int (pos 24))))
        "Excessive status validity"
    checkpoint ← get "checkpoint" body
    ensure (is_checkpoint minimum_sequence checkpoint) "Invalid or replayed status checkpoint"
    ok current

  unfoldable pub verify_status : Trust → Envelope → String → ℕ → String → Result Status
  unfolding check_statement_fields digest_list
  verify_status trust envelope project_id minimum_sequence at = do
    (body, principal) ← verify p trust envelope "release" "opentapeout.release-status/v1"
    current ← check_statement_fields body project_id minimum_sequence at
    approvals ← digest_list "revoked_approvals" body
    waivers ← digest_list "revoked_waivers" body
    candidates ← digest_list "withdrawn_candidates" body
    ok (record {
      signer = principal;
      statement = body;
      checked_at = current;
      revoked_approvals = approvals;
      revoked_waivers = waivers;
      withdrawn_candidates = candidates;
    })

  unfoldable pub check_candidate_status :
      Trust → Candidate → List Envelope → Envelope → ℕ → String → Result (List Envelope × Status)
  unfolding verify_status
  check_candidate_status trust candidate approvals envelope minimum_sequence at = do
    status ← verify_status trust envelope candidate.project_id minimum_sequence at
    ensure (not (contains (p.digest_candidate candidate) status.withdrawn_candidates))
        "Release has been withdrawn"
    ensure
        (not (any (λ w. contains (p.digest_envelope w) status.revoked_waivers) candidate.waivers))
        "Release contains a revoked waiver"
    ok (keep (λ a. not (contains (p.digest_envelope a) status.revoked_approvals)) approvals, status)

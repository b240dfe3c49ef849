-- ===== src/Lifecycle/Withdrawn.antt =====
-- What a status that `export_status` of lifecycle.py exports keeps from being accepted offline.
use open_tapeout.Prelude.{
  ℕ, ◌+◌, String, true, List, [], ◌∷◌, ◌≡◌, ◌≢◌, sym, ap, ◌∙◌, arith, Dict, keys, has, lookup,
  contains, contains-sorted, sorted,
}
use open_tapeout.Result.{ok, >>=-eq-ok, ensure-eq-ok, ok-injective}
use open_tapeout.Json.{Number, str, get, elements}
use open_tapeout.Util.{is_hex}
use open_tapeout.Records.{Envelope, Candidate, Trust, Platform}
use open_tapeout.Signing.{PrivateKey, sign, timestamp, verify}
use open_tapeout.Store.{Codec, Transaction, checkpoint}
use open_tapeout.Engine.State.{State, Payload, state_from}
use open_tapeout.Engine.Release.{project_id}
use open_tapeout.Lifecycle.Status.{Status, digests, digest_list, check_candidate_status}
use open_tapeout.Lifecycle.Status.Cleared.{check_candidate_status-IsStatus}
use open_tapeout.Lifecycle.Export.{text_items, status_statement, export_status}

contains-keys_of_has :
    {V : Type 0} (k : String) (d : Dict V) → has k d ≡ true → contains k (keys d) ≡ true
unfolding contains lookup
contains-keys_of_has k [] h = cc
contains-keys_of_has k ((j, v) ∷ d) h = ground (arith, contains-keys_of_has k d, h)

digests-text_items : (xs ys : List String) → digests (elements (text_items xs)) ≡ ok ys → ys ≡ xs
unfolding digests elements text_items
digests-text_items [] ys h = sym (ok-injective h)
digests-text_items (x ∷ xs) ys h =
    let (rest, e, h1) = >>=-eq-ok (digests (elements (text_items xs))) _ h in
    let (_, h2) = ensure-eq-ok (is_hex x) _ _ h1 in
    sym (ok-injective h2) ∙ ap (◌∷◌ x) (digests-text_items xs rest e)

-- The list of withdrawn candidates of a status is read back as it was written.
digest_list-withdrawn :
    (s : State) (project issued expires hash : String) (seq : ℕ) (values : List String)
    → digest_list "withdrawn_candidates" (status_statement s project issued expires seq hash)
      ≡ ok values
    → values ≡ sorted (keys s.withdrawals)
unfolding digest_list status_statement get
digest_list-withdrawn s project issued expires hash seq values h =
    let (read, e, h1) =
      >>=-eq-ok (digests (elements (text_items (sorted (keys s.withdrawals))))) _ h in
    let (_, h2) = ensure-eq-ok _ _ _ h1 in
    sym (ok-injective h2) ∙ digests-text_items (sorted (keys s.withdrawals)) read e

module _ (p : Platform) (c : Codec String Payload) where
  -- An exported status states the ledger that it was exported from.
  pub record IsExported (tx : Transaction c) (envelope : Envelope) : Type 0 where
    pub state : State
    pub read : state_from p tx.events ≡ ok state
    pub project : String
    pub owner : project_id state ≡ ok project
    pub issued : String
    pub expires : String
    pub stated :
        envelope.payload
        ≡ status_statement state project issued expires (checkpoint c tx).seq (checkpoint c tx).hash

  export_status-IsExported :
      (isoformat : ℕ → String) (key : PrivateKey) (tx : Transaction c) (trust : Trust)
      (valid_hours : Number) (now : String) (envelope : Envelope)
      → export_status p c isoformat key tx trust valid_hours now ≡ ok envelope
      → IsExported tx envelope
  unfolding export_status sign
  export_status-IsExported isoformat key tx trust valid_hours now envelope h =
      let (_, h1) = ensure-eq-ok _ _ _ h in
      let (s, read, h2) = >>=-eq-ok (state_from p tx.events) _ h1 in
      let (project, owner, h3) = >>=-eq-ok (project_id s) _ h2 in
      let (start, _, h4) = >>=-eq-ok (timestamp p (str now)) _ h3 in
      let expires = isoformat (start + p.hours valid_hours) in
      let body =
        status_statement s project now expires (checkpoint c tx).seq (checkpoint c tx).hash in
      let (_, _, h5) =
        >>=-eq-ok (verify p trust (sign key body) "release" "opentapeout.release-status/v1") _ h4 in
      record {
        state = s;
        read = read;
        project = project;
        owner = owner;
        issued = now;
        expires = expires;
        stated = ap (λ (e : Envelope). e.payload) (sym (ok-injective h5));
      }

  -- A withdrawal in the ledger reaches every offline check: if a status is exported from a ledger that
  -- has withdrawn a candidate, then no offline check of that candidate against this status succeeds,
  -- whatever the trust store of the checker, the approvals, the minimum sequence and the time.
  pub check_candidate_status-withdrawn :
      (isoformat : ℕ → String) (key : PrivateKey) (tx : Transaction c) (trust trust' : Trust)
      (valid_hours : Number) (now at : String) (envelope : Envelope) (s : State)
      (candidate : Candidate) (approvals : List Envelope) (minimum_sequence : ℕ)
      (result : List Envelope × Status)
      → export_status p c isoformat key tx trust valid_hours now ≡ ok envelope
      → state_from p tx.events ≡ ok s
      → has (p.digest_candidate candidate) s.withdrawals ≡ true
      → check_candidate_status p trust' candidate approvals envelope minimum_sequence at ≢ ok result
  check_candidate_status-withdrawn isoformat key tx trust trust' valid_hours now at envelope s
        candidate approvals minimum_sequence result exported read gone accepted =
      let x = export_status-IsExported isoformat key tx trust valid_hours now envelope exported in
      let (status, live, _, _) =
        check_candidate_status-IsStatus p trust' candidate approvals result.0 envelope
          minimum_sequence at result.1 accepted in
      let same : x.state ≡ s = ok-injective (sym x.read ∙ read) in
      let listed : result.1.withdrawn_candidates ≡ sorted (keys x.state.withdrawals) =
        digest_list-withdrawn x.state x.project x.issued x.expires (checkpoint c tx).hash
          (checkpoint c tx).seq result.1.withdrawn_candidates
          (ap (digest_list "withdrawn_candidates") (sym x.stated) ∙ status.candidates) in
      let digest = p.digest_candidate candidate in
      let still : contains digest result.1.withdrawn_candidates ≡ true =
        ap (contains digest) (listed ∙ ap (λ (y : State). sorted (keys y.withdrawals)) same)
        ∙ contains-sorted digest (keys s.withdrawals)
        ∙ contains-keys_of_has digest s.withdrawals gone in
      let bad = sym still ∙ live in cc

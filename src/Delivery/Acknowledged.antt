-- ===== src/Delivery/Acknowledged.antt =====
-- What stands behind a receipt that `record_receipt` of delivery.py accepts.
use open_tapeout.Prelude.{
  ℕ, ◌≤◌, ◌&&◌, String, true, false, not, ◌⊎◌, inl, inr, some, [], ◌∷◌, ◌++◌, ◌≡◌, sym, ap, ◌∙◌,
  subst, arith, any, has, lookup, str_eq, eq_iff, leb, leb→le, and-eq-true, Bool-cases, same_set,
}
use open_tapeout.Result.{
  ok, >>=-eq-ok, ensure-eq-ok, true_of_ensure, ok-injective, known, known-eq-ok,
}
use open_tapeout.Json.{Json, str, Fields, get, field_names, is_text}
use open_tapeout.Records.{Envelope, Trust, Platform}
use open_tapeout.Signing.{timestamp, verify}
use open_tapeout.Signing.Authority.{IsAuthorized, verify_iff}
use open_tapeout.Store.{Codec, Transaction, append}
use open_tapeout.Store.Append.{append-events}
use open_tapeout.Engine.State.{
  State, SealedDelivery, Payload, LedgerEvent, delivery_received, state_from, digest_field,
}
use open_tapeout.Engine.Release.{project_id}
use open_tapeout.Delivery.Receipts.{
  receipt_fields, check_receipt, check_receipt_time, envelope_eq, add_receipt, record_receipt,
}

module _ (p : Platform) where
  -- The receipt is for exactly this capsule, by its recipient.
  pub record IsMatching (s : State) (delivery : SealedDelivery) (body : Fields) (principal : String)
      : Type 0 where
    pub recipient : principal ≡ delivery.recipient
    pub archive : Json
    pub manifest : Json
    pub archive_sha256 : get "archive_sha256" body ≡ ok archive
    pub on_archive : is_text delivery.archive_sha256 archive ≡ true
    pub manifest_sha256 : get "manifest_sha256" body ≡ ok manifest
    pub on_manifest : is_text delivery.manifest_sha256 manifest ≡ true

  check_receipt-IsMatching :
      (s : State) (delivery : SealedDelivery) (body : Fields) (principal : String) {u : Unit {0}}
      → check_receipt p s delivery body principal ≡ ok u
      → IsMatching s delivery body principal
  unfolding check_receipt
  check_receipt-IsMatching s delivery body principal h =
      let (project, _, h1) = >>=-eq-ok (get "project_id" body) _ h in
      let (own, _, h2) = >>=-eq-ok (project_id s) _ h1 in
      let (_, h3) = ensure-eq-ok (is_text own project) _ _ h2 in
      let (recipient, _, h4) = >>=-eq-ok (get "recipient" body) _ h3 in
      let (both, h5) =
        ensure-eq-ok (is_text principal recipient && str_eq principal delivery.recipient) _ _ h4 in
      let (archive, got1, h6) = >>=-eq-ok (get "archive_sha256" body) _ h5 in
      let (manifest, got2, h7) = >>=-eq-ok (get "manifest_sha256" body) _ h6 in
      let exact =
        true_of_ensure
          (is_text delivery.archive_sha256 archive && is_text delivery.manifest_sha256 manifest) _
          h7 in
      let (first, second) =
        and-eq-true (is_text delivery.archive_sha256 archive)
          (is_text delivery.manifest_sha256 manifest) exact in
      let (_, designated) =
        and-eq-true (is_text principal recipient) (str_eq principal delivery.recipient) both in
      record {
        recipient = (eq_iff principal delivery.recipient).0 designated;
        archive = archive;
        manifest = manifest;
        archive_sha256 = got1;
        on_archive = first;
        manifest_sha256 = got2;
        on_manifest = second;
      }

  -- The date of the receipt is between the sealing and the present.
  pub record IsTimely (delivery : SealedDelivery) (body : Fields) (now : String) : Type 0 where
    pub created : Json
    pub sealed : ℕ
    pub received : ℕ
    pub current : ℕ
    pub sealed_at : timestamp p (str delivery.sealed_at) ≡ ok sealed
    pub created_at : get "created_at" body ≡ ok created
    pub dated : timestamp p created ≡ ok received
    pub today : timestamp p (str now) ≡ ok current
    pub after_sealing : sealed ≤ received
    pub past : received ≤ current

  check_receipt_time-IsTimely :
      (delivery : SealedDelivery) (body : Fields) (now : String) {u : Unit {0}}
      → check_receipt_time p delivery body now ≡ ok u
      → IsTimely delivery body now
  unfolding check_receipt_time
  check_receipt_time-IsTimely delivery body now h =
      let (sealed, sealed_at, h1) = >>=-eq-ok (timestamp p (str delivery.sealed_at)) _ h in
      let (created, got, h2) = >>=-eq-ok (get "created_at" body) _ h1 in
      let (received, dated, h3) = >>=-eq-ok (timestamp p created) _ h2 in
      let (current, today, h4) = >>=-eq-ok (timestamp p (str now)) _ h3 in
      let (both, h5) = ensure-eq-ok (leb sealed received && leb received current) _ _ h4 in
      let (first, second) = and-eq-true (leb sealed received) (leb received current) both in
      record {
        created = created;
        sealed = sealed;
        received = received;
        current = current;
        sealed_at = sealed_at;
        created_at = got;
        dated = dated;
        today = today;
        after_sealing = leb→le sealed received first;
        past = leb→le received current second;
      }

module _ (p : Platform) (c : Codec String Payload) where
  -- The ledger is as it was if it had the receipt, and otherwise has one more event, with the receipt.
  abbrev pub IsNoted : State → Transaction c → Transaction c → Envelope → Type 0
  IsNoted s tx tx' envelope =
      ((any (λ e. envelope_eq e envelope) s.delivery_receipts ≡ true) × (tx' ≡ tx))
      ⊎ ((event : LedgerEvent) × (any (λ e. envelope_eq e envelope) s.delivery_receipts ≡ false)
          × (tx'.events ≡ tx.events ++ event ∷ [])
          × (event.body.payload ≡ delivery_received envelope))

  pub record IsAcknowledged (tx tx' : Transaction c) (envelope : Envelope) (trust : Trust)
      (now principal : String) : Type 0 where
    pub state : State
    pub read : state_from p tx.events ≡ ok state
    pub id : String
    pub delivery : SealedDelivery
    pub named : digest_field "delivery_id" envelope.payload ≡ ok id
    pub sealed : lookup id state.deliveries ≡ some delivery
    pub authorized :
        IsAuthorized p trust envelope "delivery-receiver" "opentapeout.delivery-receipt/v1"
          principal
    pub matching : IsMatching p state delivery envelope.payload principal
    pub timely : IsTimely p delivery envelope.payload now
    pub kept : has delivery.candidate_sha256 state.withdrawals ≡ false
    pub noted : IsNoted state tx tx' envelope

  add_receipt-IsNoted :
      (s : State) (tx tx' : Transaction c) (envelope : Envelope) (signer principal now : String)
      → add_receipt c s tx envelope signer now ≡ ok (principal, tx')
      → (signer ≡ principal) × IsNoted s tx tx' envelope
  unfolding add_receipt
  add_receipt-IsNoted s tx tx' envelope signer principal now h =
      elim (Bool-cases (any (λ e. envelope_eq e envelope) s.delivery_receipts)) [
        | inl old ↦
            let same : (signer, tx) ≡ (principal, tx') = ok-injective (rw old at h) in
            (
              ap (λ (t : String × Transaction c). t.0) same,
              inl (old, sym (ap (λ (t : String × Transaction c). t.1) same)),
            )
        | inr new ↦
            let (a, added, h1) =
              >>=-eq-ok (append c "delivery.received" (delivery_received envelope) signer now tx) _
                (rw new at h) in
            let (events, payload) =
              append-events c "delivery.received" (delivery_received envelope) signer now tx a.1 a.0
                added in
            let same = ok-injective h1 in
            (
              ap (λ (t : String × Transaction c). t.0) same,
              inr (
                a.0,
                new,
                ap (λ (t : String × Transaction c). t.1.events) (sym same) ∙ events,
                payload,
              ),
            )
      ]

  -- A receipt that `record_receipt` accepts acknowledges one sealed capsule: its signer is authorized as
  -- a receiver and is the recipient for whom the capsule was sealed, its digests are those of this
  -- archive and this manifest, its date is between the sealing and the present, the candidate is not
  -- withdrawn, and the ledger gains one event with it or, if it has an equal receipt, nothing.
  pub record_receipt-IsAcknowledged :
      (tx tx' : Transaction c) (envelope : Envelope) (trust : Trust) (now principal : String)
      → record_receipt p c tx envelope trust now ≡ ok (principal, tx')
      → IsAcknowledged tx tx' envelope trust now principal
  unfolding record_receipt
  record_receipt-IsAcknowledged tx tx' envelope trust now principal h =
      let (t, verified, h1) =
        >>=-eq-ok (verify p trust envelope "delivery-receiver" "opentapeout.delivery-receipt/v1") _
          h in
      let (same, authorized) =
        (verify_iff p trust envelope "delivery-receiver" "opentapeout.delivery-receipt/v1" t.0
            t.1).0
          verified in
      let (_, h2) = ensure-eq-ok (same_set (field_names t.0) receipt_fields) _ _ h1 in
      let (s, read, h3) = >>=-eq-ok (state_from p tx.events) _ h2 in
      let (id, named, h4) = >>=-eq-ok (digest_field "delivery_id" t.0) _ h3 in
      let (delivery, sealed, h5) =
        >>=-eq-ok (known (lookup id s.deliveries) "Unknown delivery") _ h4 in
      let (_, matching, h6) = >>=-eq-ok (check_receipt p s delivery t.0 t.1) _ h5 in
      let (_, timely, h7) = >>=-eq-ok (check_receipt_time p delivery t.0 now) _ h6 in
      let (kept, h8) = ensure-eq-ok (not (has delivery.candidate_sha256 s.withdrawals)) _ _ h7 in
      let (signer, noted) = add_receipt-IsNoted s tx tx' envelope t.1 principal now h8 in
      record {
        state = s;
        read = read;
        id = id;
        delivery = delivery;
        named = ap (digest_field "delivery_id") (sym same) ∙ named;
        sealed = known-eq-ok _ _ sealed;
        authorized =
            subst
              (IsAuthorized p trust envelope "delivery-receiver" "opentapeout.delivery-receipt/v1")
              signer authorized;
        matching =
            subst (λ (b : Fields × String). IsMatching p s delivery b.0 b.1)
              (ap (λ (b : Fields). (b, t.1)) same
                ∙ ap (λ (q : String). (envelope.payload, q)) signer)
              (check_receipt-IsMatching p s delivery t.0 t.1 matching);
        timely =
            subst (λ b. IsTimely p delivery b now) same
              (check_receipt_time-IsTimely p delivery t.0 now timely);
        kept = ground arith;
        noted = noted;
      }

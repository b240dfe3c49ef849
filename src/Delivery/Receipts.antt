-- ===== src/Delivery/Receipts.antt =====
-- `sign_receipt` and `record_receipt` of delivery.py: the recipient's acknowledgment of a capsule.
use open_tapeout.Prelude.{
  ℕ, String, Bool, false, ◌&&◌, not, List, [], ◌∷◌, any, has, lookup, leb, ltb, length, str_eq,
  same_set, if◌then◌else◌,
}
use open_tapeout.Result.{Result, ok, ensure, known, ◌>>=◌, ◌>>◌}
use open_tapeout.Json.{Json, str, Fields, end, field, get, field_names, is_text, fields_eq}
use open_tapeout.Util.{codes}
use open_tapeout.Records.{Envelope, Trust, Platform}
use open_tapeout.Signing.{PrivateKey, sign, timestamp, verify}
use open_tapeout.Store.{Codec, Transaction, append}
use open_tapeout.Engine.State.{
  State, SealedDelivery, Payload, delivery_received, state_from, digest_field,
}
use open_tapeout.Engine.Release.{project_id}
use open_tapeout.Archive.{Archive}
use open_tapeout.Delivery.Disclosed.{Disclosure}
use open_tapeout.Delivery.Capsule.{Manifest, Packing, verify_delivery}

-- `0 < len(reference.strip()) <= 512`
abbrev pub is_reference : Platform → Json → Bool
is_reference p (str reference) = let n = length (codes (p.strip reference)) in ltb 0 n && leb n 512
is_reference p _ = false

-- The statement of a receipt, its keys in order.
unfoldable pub receipt_statement : Packing → Manifest → String → String → String → Fields
receipt_statement packing manifest checksum reference now = field "archive_sha256" (str checksum) (
    field "created_at" (str now) (
      field "delivery_id" (str manifest.delivery_id) (
        field "manifest_sha256" (str (packing.zip.digest_manifest manifest)) (
          field "project_id" (str manifest.project_id) (
            field "recipient" (str manifest.recipient) (
              field "reference" (str reference)
                (field "type" (str "opentapeout.delivery-receipt/v1") end)))))))

module _ (p : Platform) where
  -- `before` and `after` are the digests of the file around its verification, `opened` what opening it
  -- gives.
  unfoldable pub sign_receipt :
      Packing
      → Disclosure
      → Trust
      → PrivateKey
      → String
      → String
      → Result (String × ℕ)
      → Result (Archive Manifest)
      → Result (String × ℕ)
      → Result Envelope
  unfolding sign receipt_statement verify_delivery
  sign_receipt packing disclosure trust key reference now before opened after = do
    ensure (is_reference p (str reference)) "Recipient reference required (max 512 characters)"
    (checksum, _) ← before
    (_, manifest) ← verify_delivery p packing disclosure trust now opened
    (again, _) ← after
    ensure (str_eq again checksum) "Delivery archive changed during receipt verification"
    let envelope = sign key (receipt_statement packing manifest checksum reference now)
    (_, principal) ← verify p trust envelope "delivery-receiver" "opentapeout.delivery-receipt/v1"
    ensure (str_eq principal manifest.recipient) "Receipt signer is not the designated recipient"
    ok envelope

  -- The tests of a receipt against the delivery that it names.
  unfoldable pub check_receipt : State → SealedDelivery → Fields → String → Result (Unit {0})
  unfolding project_id
  check_receipt s delivery body principal = do
    project ← get "project_id" body
    own ← project_id s
    ensure (is_text own project) "Receipt belongs to a different project"
    recipient ← get "recipient" body
    ensure (is_text principal recipient && str_eq principal delivery.recipient)
        "Receipt recipient mismatch"
    archive ← get "archive_sha256" body
    manifest ← get "manifest_sha256" body
    ensure (is_text delivery.archive_sha256 archive && is_text delivery.manifest_sha256 manifest)
        "Receipt does not match the exact sealed delivery"

  unfoldable pub check_receipt_time : SealedDelivery → Fields → String → Result (Unit {0})
  check_receipt_time delivery body now = do
    sealed ← timestamp p (str delivery.sealed_at)
    created_at ← get "created_at" body
    received ← timestamp p created_at
    current ← timestamp p (str now)
    ensure (leb sealed received && leb received current) "Invalid receipt time"
    reference ← get "reference" body
    ensure (is_reference p reference) "Invalid receipt reference"

abbrev pub receipt_fields : List String
receipt_fields =
    "type" ∷ "project_id" ∷ "delivery_id" ∷ "archive_sha256" ∷ "manifest_sha256" ∷ "recipient"
    ∷ "reference" ∷ "created_at" ∷ []

-- Equality of statements.
abbrev pub envelope_eq : Envelope → Envelope → Bool
envelope_eq a b =
    fields_eq a.payload b.payload && str_eq a.key_id b.key_id && str_eq a.signature b.signature

-- The end of `record_receipt`: a receipt that the ledger has is not added again.
unfoldable pub add_receipt :
    (c : Codec String Payload)
    → State
    → Transaction c
    → Envelope
    → String
    → String
    → Result (String × Transaction c)
add_receipt c s tx envelope principal now =
    if any (λ e. envelope_eq e envelope) s.delivery_receipts then ok (principal, tx) else (do
      (_, tx') ← append c "delivery.received" (delivery_received envelope) principal now tx
      ok (principal, tx'))

module _ (p : Platform) (c : Codec String Payload) where
  -- The ledger, and the principal who acknowledges the receipt.
  unfoldable pub record_receipt :
      Transaction c → Envelope → Trust → String → Result (String × Transaction c)
  unfolding check_receipt check_receipt_time known add_receipt
  record_receipt tx envelope trust now = do
    (body, principal) ←
        verify p trust envelope "delivery-receiver" "opentapeout.delivery-receipt/v1"
    ensure (same_set (field_names body) receipt_fields) "Invalid receipt fields"
    s ← state_from p tx.events
    id ← digest_field "delivery_id" body
    delivery ← known (lookup id s.deliveries) "Unknown delivery"
    check_receipt p s delivery body principal
    check_receipt_time p delivery body now
    ensure (not (has delivery.candidate_sha256 s.withdrawals))
        "Cannot accept receipt for a withdrawn release"
    add_receipt c s tx envelope principal now

-- ===== src/Signing.antt =====
-- src/opentapeout/signing.py: signing, and which signed statements a trust store accepts.
pub mod Authority
pub mod Loaded
pub mod Named
use open_tapeout.Prelude.{
  ℕ, String, Bool, true, false, ◌&&◌, not, Option, none, some, List, lookup, contains,
}
use open_tapeout.Result.{
  Failure, tapeout, team, key_error, type_error, attribute_error, out_of_fuel, Result, ok, err,
  ensure, ◌>>=◌, ◌>>◌,
}
use open_tapeout.Json.{Json, null, bool, num, str, arr, obj, Fields, get, field_is}
use open_tapeout.Records.{KeyEntry, Envelope, Trust, Platform}

-- An Ed25519 key: `key_id` of its public part, and the base64 of what it signs.
pub record PrivateKey : Type 0 where
  pub id : String
  pub signature : Fields → String

unfoldable pub sign : PrivateKey → Fields → Envelope
sign key payload = record { payload = payload; key_id = key.id; signature = key.signature payload }

module _ (p : Platform) where
  open p use {parse_timestamp, is_signed}

  -- `timestamp(value)` of util.py; what is no text has no `replace`
  unfoldable pub timestamp : Json → Result ℕ
  timestamp (str s) = elim (parse_timestamp s) [
    | none ↦ err (tapeout "Timestamp must be ISO 8601 with a timezone")
    | some t ↦ ok t
  ]
  timestamp _ = err (tapeout "Timestamp must be ISO 8601 with a timezone")

  -- The handler `except (KeyError, TypeError, ValueError, InvalidSignature)`, which raises a
  -- TapeoutError again as it is.
  unfoldable pub untrusted {ℓ} : {A : Type ℓ} → Result A → Result A
  untrusted (err key_error) =
      err (tapeout "Untrusted key, malformed statement or invalid signature")
  untrusted (err type_error) =
      err (tapeout "Untrusted key, malformed statement or invalid signature")
  untrusted r = r

  find_key : Trust → String → Result KeyEntry
  find_key trust key_id = elim (lookup key_id trust.keys) [ none ↦ err key_error | some e ↦ ok e ]

  check_statement : Trust → Envelope → String → String → Result (Fields × String)
  unfolding find_key timestamp
  check_statement trust envelope role statement_type = do
    entry ← find_key trust envelope.key_id
    ensure (not entry.revoked) "Signing key has been revoked"
    ensure (contains role entry.roles) "Signing key is not authorized for role"
    ensure (field_is "type" statement_type envelope.payload) "Wrong signature domain/type"
    created ← get "created_at" envelope.payload
    moment ← timestamp created
    ensure (is_signed entry.public_key envelope.payload envelope.signature)
        "Untrusted key, malformed statement or invalid signature"
    ok (envelope.payload, entry.principal)

  -- The type of `Envelope` is the test of its three fields and that its payload is an object.
  unfoldable pub verify : Trust → Envelope → String → String → Result (Fields × String)
  unfolding check_statement untrusted
  verify trust envelope role statement_type =
      untrusted (check_statement trust envelope role statement_type)

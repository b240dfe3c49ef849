-- ===== src/Tests/Keys.antt =====
-- A trust file with one key.
use open_tapeout.Prelude.{
  ℕ, String, true, false, none, some, Dict, lookup, List, [], ◌∷◌, ◌≡◌, refl,
}
use open_tapeout.Result.{ok}
use open_tapeout.Json.{Json, str, arr, obj, nil, cons, Fields, end, field}
use open_tapeout.Util.{identifier}
use open_tapeout.Records.{KeyEntry, Trust}
use open_tapeout.Signing.{verify}
use open_tapeout.Signing.Loaded.{Keys, key_id, load_trust}
use open_tapeout.Signing.Named.{verify-key_id}
use open_tapeout.Tests.Project.{platform, waiver}

abbrev keys : Keys
keys = record {
  digest_key = λ public. "bob-key";
  digest_trust = λ file. "trust";
  is_public_key = λ public. true;
}

abbrev file : Json
file = obj (
    field "keys"
      (obj (
        field "bob-key"
          (obj (
            field "principal" (str "bob") (
              field "public_key" (str "bob-public")
                (field "roles" (arr (cons (str "waiver") nil)) end))))
          end))
      (field "schema" (str "opentapeout.trust/v1") end))

abbrev bob : KeyEntry
bob = record {
  public_key = "bob-public";
  principal = "bob";
  roles = "waiver" ∷ [];
  revoked = false;
}

abbrev trust : Trust
trust = record { keys = ("bob-key", bob) ∷ []; sha256 = "trust" }

load_trust-file : load_trust keys file ≡ ok trust
unfolding load_trust open_tapeout.Json.get? open_tapeout.Json.field_is open_tapeout.Json.elements
    identifier
load_trust-file = refl

verify-waiver :
    verify platform trust waiver "waiver" "opentapeout.waiver/v1" ≡ ok (waiver.payload, "bob")
unfolding verify open_tapeout.Json.get open_tapeout.Json.field_is open_tapeout.Signing.timestamp
    open_tapeout.Prelude.lookup open_tapeout.Prelude.contains
verify-waiver = refl

verify-key_id_example :
    (entry : KeyEntry) × (lookup "bob-key" trust.keys ≡ some entry)
    × ("bob-key" ≡ key_id keys entry.public_key)
    × (keys.is_public_key entry.public_key ≡ true)
    × (platform.is_signed entry.public_key waiver.payload waiver.signature ≡ true)
    × (entry.principal ≡ "bob")
    × (identifier "bob" ≡ ok "bob")
verify-key_id_example =
    verify-key_id keys platform file trust waiver "waiver" "opentapeout.waiver/v1" waiver.payload
      "bob" load_trust-file verify-waiver

-- ===== src/Signing/Loaded.antt =====
-- `key_id` and `Trust.__init__` of signing.py: which files are a trust store.
use Prim.Native.String as Text
use open_tapeout.Prelude.{
  ℕ, zero, suc, String, Bool, false, not, Option, none, some, List, [], ◌∷◌, Dict, is_empty, str_eq,
}
use open_tapeout.Result.{Result, ok, err, tapeout, ensure, ◌>>=◌, ◌>>◌}
use open_tapeout.Json.{Json, bool, str, arr, obj, Fields, end, field, get?, field_is, elements}
use open_tapeout.Util.{identifier}
use open_tapeout.Records.{KeyEntry, Trust}

-- SHA-256 of `{"ed25519": public}` and of a trust file, and whether base64 and cryptography read a text
-- as an Ed25519 public key.
pub record Keys : Type 0 where
  pub digest_key : String → String
  pub digest_trust : Fields → String
  pub is_public_key : String → Bool

-- `s[:n]`
unfoldable pub prefix : ℕ → String → String
prefix zero s = ""
prefix (suc n) Text.[] = ""
prefix (suc n) (Text.◌∷◌ c s) = Text.◌∷◌ c (prefix n s)

unfoldable pub key_id : Keys → String → String
unfolding prefix
key_id k public = prefix 32 (k.digest_key public)

abbrev pub text_entry : Option Json → String → Result String
text_entry (some (str s)) message = ok s
text_entry _ message = err (tapeout message)

-- `isinstance(roles, list) and bool(roles) and all(isinstance(x, str) for x in roles)`
unfoldable pub role_names : List Json → Result (List String)
role_names [] = ok []
role_names (str s ∷ rest) = do others ← role_names rest; ok (s ∷ others)
role_names (_ ∷ rest) = err (tapeout "Trust entry must list roles")

unfoldable pub trust_roles : Option Json → Result (List String)
unfolding role_names
trust_roles (some (arr items)) = do
  roles ← role_names (elements items)
  ensure (not (is_empty roles)) "Trust entry must list roles"
  ok roles
trust_roles _ = err (tapeout "Trust entry must list roles")

-- `type(entry.get("revoked", False)) is bool`
abbrev pub revoked_of : Option Json → Result Bool
revoked_of none = ok false
revoked_of (some (bool b)) = ok b
revoked_of (some _) = err (tapeout "revoked must be a boolean")

module _ (k : Keys) where
  unfoldable pub key_entry : String → Json → Result KeyEntry
  unfolding key_id trust_roles
  key_entry name (obj entry) = do
    public ← text_entry (get? "public_key" entry) "Invalid Ed25519 public key"
    ensure (k.is_public_key public) "Invalid Ed25519 public key"
    ensure (str_eq (key_id k public) name) "Trust key ID does not match public key"
    principal ← text_entry (get? "principal" entry) "Invalid identifier"
    _ ← identifier principal
    roles ← trust_roles (get? "roles" entry)
    revoked ← revoked_of (get? "revoked" entry)
    ok (record { public_key = public; principal = principal; roles = roles; revoked = revoked })
  key_entry name _ = err (tapeout "Invalid trust entry")

  -- `for name, entry in self.keys.items()`
  unfoldable pub key_entries : Fields → Result (Dict KeyEntry)
  unfolding key_entry
  key_entries end = ok []
  key_entries (field name v rest) = do
    entry ← key_entry name v
    others ← key_entries rest
    ok ((name, entry) ∷ others)

  unfoldable pub keys_of : Option Json → Result (Dict KeyEntry)
  unfolding key_entries
  keys_of (some (obj keys)) = do
    entries ← key_entries keys
    ensure (not (is_empty entries)) "Trust store has no keys"
    ok entries
  keys_of _ = err (tapeout "Trust store has no keys")

  unfoldable pub load_trust : Json → Result Trust
  unfolding keys_of
  load_trust (obj file) = do
    ensure (field_is "schema" "opentapeout.trust/v1" file) "Invalid trust schema"
    keys ← keys_of (get? "keys" file)
    ok (record { keys = keys; sha256 = k.digest_trust file })
  load_trust _ = err (tapeout "Invalid trust schema")

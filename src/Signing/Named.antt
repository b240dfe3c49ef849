-- ===== src/Signing/Named.antt =====
-- Whose signature a statement carries that `Trust.verify` of signing.py accepts.
use open_tapeout.Prelude.{
  String, true, ◌≡◌, sym, ap, ◌∙◌, subst, All, All-Among, Dict, lookup, lookup-Among, str_eq,
  eq_iff, is_empty, not, Option, none, some,
}
use open_tapeout.Result.{ok, >>=-eq-ok, ensure-eq-ok, ok-injective}
use open_tapeout.Json.{Json, null, bool, num, str, arr, obj, Fields, end, field, get?, field_is}
use open_tapeout.Util.{identifier}
use open_tapeout.Records.{KeyEntry, Envelope, Trust, Platform}
use open_tapeout.Signing.{verify}
use open_tapeout.Signing.Authority.{verify_iff}
use open_tapeout.Signing.Loaded.{
  Keys, key_id, text_entry, trust_roles, revoked_of, key_entry, key_entries, keys_of, load_trust,
}

module _ (k : Keys) where
  -- A key stands under its own ID, is an Ed25519 key, and acts for an acceptable principal.
  pub record IsNamed (entry : String × KeyEntry) : Type 0 where
    pub id : key_id k entry.1.public_key ≡ entry.0
    pub key : k.is_public_key entry.1.public_key ≡ true
    pub principal : identifier entry.1.principal ≡ ok entry.1.principal

  identifier-same : (s t : String) → identifier s ≡ ok t → identifier s ≡ ok s
  unfolding identifier
  identifier-same s t h = let (_, h1) = ensure-eq-ok _ _ _ h in h ∙ ap ok (sym (ok-injective h1))

  key_entry-IsNamed :
      (name : String) (v : Json) (entry : KeyEntry)
      → key_entry k name v ≡ ok entry
      → IsNamed (name, entry)
  unfolding key_entry
  key_entry-IsNamed name (obj fields) entry h =
      let (public, _, h1) =
        >>=-eq-ok (text_entry (get? "public_key" fields) "Invalid Ed25519 public key") _ h in
      let (key, h2) = ensure-eq-ok (k.is_public_key public) _ _ h1 in
      let (id, h3) = ensure-eq-ok (str_eq (key_id k public) name) _ _ h2 in
      let (principal, _, h4) =
        >>=-eq-ok (text_entry (get? "principal" fields) "Invalid identifier") _ h3 in
      let (accepted, named, h5) = >>=-eq-ok (identifier principal) _ h4 in
      let (roles, _, h6) = >>=-eq-ok (trust_roles (get? "roles" fields)) _ h5 in
      let (revoked, _, h7) = >>=-eq-ok (revoked_of (get? "revoked" fields)) _ h6 in
      subst (λ (e : KeyEntry). IsNamed (name, e)) (ok-injective h7)
        (record {
          id = (eq_iff (key_id k public) name).0 id;
          key = key;
          principal = identifier-same principal accepted named;
        })
  key_entry-IsNamed name null entry h = cc
  key_entry-IsNamed name (bool b) entry h = cc
  key_entry-IsNamed name (num n) entry h = cc
  key_entry-IsNamed name (str s) entry h = cc
  key_entry-IsNamed name (arr xs) entry h = cc

  key_entries-IsNamed :
      (fields : Fields) (entries : Dict KeyEntry)
      → key_entries k fields ≡ ok entries
      → All IsNamed entries
  unfolding key_entries
  key_entries-IsNamed end entries h = subst (All IsNamed) (ok-injective h) tt
  key_entries-IsNamed (field name v rest) entries h =
      let (entry, one, h1) = >>=-eq-ok (key_entry k name v) _ h in
      let (others, more, h2) = >>=-eq-ok (key_entries k rest) _ h1 in
      subst (All IsNamed) (ok-injective h2)
        (key_entry-IsNamed name v entry one, key_entries-IsNamed rest others more)

  keys_of-IsNamed :
      (o : Option Json) (entries : Dict KeyEntry) → keys_of k o ≡ ok entries → All IsNamed entries
  unfolding keys_of
  keys_of-IsNamed (some (obj keys)) entries h =
      let (found, read, h1) = >>=-eq-ok (key_entries k keys) _ h in
      let (_, h2) = ensure-eq-ok (not (is_empty found)) _ _ h1 in
      subst (All IsNamed) (ok-injective h2) (key_entries-IsNamed keys found read)
  keys_of-IsNamed none entries h = cc
  keys_of-IsNamed (some null) entries h = cc
  keys_of-IsNamed (some (bool b)) entries h = cc
  keys_of-IsNamed (some (num n)) entries h = cc
  keys_of-IsNamed (some (str s)) entries h = cc
  keys_of-IsNamed (some (arr xs)) entries h = cc

  load_trust-IsNamed :
      (file : Json) (trust : Trust) → load_trust k file ≡ ok trust → All IsNamed trust.keys
  unfolding load_trust
  load_trust-IsNamed (obj file) trust h =
      let (_, h1) = ensure-eq-ok (field_is "schema" "opentapeout.trust/v1" file) _ _ h in
      let (keys, read, h2) = >>=-eq-ok (keys_of k (get? "keys" file)) _ h1 in
      subst (λ (t : Trust). All IsNamed t.keys) (ok-injective h2)
        (keys_of-IsNamed (get? "keys" file) keys read)
  load_trust-IsNamed null trust h = cc
  load_trust-IsNamed (bool b) trust h = cc
  load_trust-IsNamed (num n) trust h = cc
  load_trust-IsNamed (str s) trust h = cc
  load_trust-IsNamed (arr xs) trust h = cc

  -- A statement that `verify` accepts under a trust store that was loaded from a file names the key that
  -- signed it: the store has an entry under its key ID, the ID is the one computed from the entry's
  -- valid public key, under which the signature over the payload holds, and the principal that is
  -- returned is the one of this entry and an acceptable identifier.
  pub verify-key_id :
      (p : Platform) (file : Json) (trust : Trust) (envelope : Envelope)
      (role statement_type : String) (body : Fields) (principal : String)
      → load_trust k file ≡ ok trust
      → verify p trust envelope role statement_type ≡ ok (body, principal)
      → (entry : KeyEntry) × (lookup envelope.key_id trust.keys ≡ some entry)
        × (envelope.key_id ≡ key_id k entry.public_key)
        × (k.is_public_key entry.public_key ≡ true)
        × (p.is_signed entry.public_key envelope.payload envelope.signature ≡ true)
        × (entry.principal ≡ principal)
        × (identifier principal ≡ ok principal)
  verify-key_id p file trust envelope role statement_type body principal loaded verified =
      let a = ((verify_iff p trust envelope role statement_type body principal).0 verified).1 in
      let named =
        All-Among IsNamed trust.keys (load_trust-IsNamed file trust loaded)
          (lookup-Among envelope.key_id trust.keys a.known) in
      (
        a.entry,
        a.known,
        sym named.id,
        named.key,
        a.signed,
        a.acts_as,
        subst (λ s. identifier s ≡ ok s) a.acts_as named.principal,
      )

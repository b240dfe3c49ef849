-- ===== src/Signing/Authority.antt =====
-- What an accepted statement shows.
use open_tapeout.Prelude.{
  ℕ, String, true, false, some, ◌≡◌, lookup, contains, arith, not, sym, ap, ◌↔◌,
}
use open_tapeout.Result.{Result, ok, >>=-eq-ok, ensure-eq-ok, ok-injective}
use open_tapeout.Json.{Json, str, Fields, field_is, get}
use open_tapeout.Records.{KeyEntry, Envelope, Trust, Platform}
use open_tapeout.Signing.{timestamp, find_key, check_statement, untrusted, verify}

module _ (p : Platform) where
  -- The statement is signed, in its domain, by a key of the trust store that may act in the role.
  pub record IsAuthorized (trust : Trust) (envelope : Envelope)
      (role statement_type principal : String) : Type 0 where
    pub entry : KeyEntry
    pub known : lookup envelope.key_id trust.keys ≡ some entry
    pub current : entry.revoked ≡ false
    pub permitted : contains role entry.roles ≡ true
    pub domain : field_is "type" statement_type envelope.payload ≡ true
    pub created : Json
    pub moment : ℕ
    pub stamped : get "created_at" envelope.payload ≡ ok created
    pub dated : timestamp p created ≡ ok moment
    pub signed : p.is_signed entry.public_key envelope.payload envelope.signature ≡ true
    pub acts_as : entry.principal ≡ principal

  untrusted-ok :
      (r : Result (Fields × String)) {b : Fields × String} → untrusted p r ≡ ok b → r ≡ ok b
  unfolding untrusted
  untrusted-ok r h = ground arith

  verify-IsAuthorized :
      (trust : Trust) (envelope : Envelope) (role statement_type : String) (body : Fields)
      (principal : String)
      → verify p trust envelope role statement_type ≡ ok (body, principal)
      → (body ≡ envelope.payload) × IsAuthorized trust envelope role statement_type principal
  unfolding verify check_statement find_key
  verify-IsAuthorized trust envelope role statement_type body principal h =
      let checked = untrusted-ok (check_statement p trust envelope role statement_type) h in
      let (entry, found, h1) = >>=-eq-ok (find_key p trust envelope.key_id) _ checked in
      let (current, h2) = ensure-eq-ok (not entry.revoked) _ _ h1 in
      let (permitted, h3) = ensure-eq-ok (contains role entry.roles) _ _ h2 in
      let (domain, h4) = ensure-eq-ok (field_is "type" statement_type envelope.payload) _ _ h3 in
      let (created, stamped, h5) = >>=-eq-ok (get "created_at" envelope.payload) _ h4 in
      let (moment, dated, h6) = >>=-eq-ok (timestamp p created) _ h5 in
      let (signed, h7) =
        ensure-eq-ok (p.is_signed entry.public_key envelope.payload envelope.signature) _ _ h6 in
      let e = ok-injective h7 in
      (
        sym (ap (λ (t : Fields × String). t.0) e),
        record {
          entry = entry;
          known = ground arith;
          current = ground arith;
          permitted = permitted;
          domain = domain;
          signed = signed;
          acts_as = ap (λ (t : Fields × String). t.1) e;
          created = created;
          moment = moment;
          stamped = stamped;
          dated = dated;
        },
      )

  IsAuthorized-verify :
      (trust : Trust) (envelope : Envelope) (role statement_type principal : String)
      → IsAuthorized trust envelope role statement_type principal
      → verify p trust envelope role statement_type ≡ ok (envelope.payload, principal)
  unfolding verify check_statement find_key untrusted
  IsAuthorized-verify trust envelope role statement_type principal a = ground arith

  -- `verify` accepts a statement for a principal exactly if it is authorized: the key is known and
  -- not revoked, may act in the role and belongs to the principal, the payload has the wanted type
  -- and a valid date, and the signature over it holds. It returns that payload unchanged.
  pub verify_iff :
      (trust : Trust) (envelope : Envelope) (role statement_type : String) (body : Fields)
      (principal : String)
      → (verify p trust envelope role statement_type ≡ ok (body, principal))
        ↔ ((body ≡ envelope.payload) × IsAuthorized trust envelope role statement_type principal)
  verify_iff trust envelope role statement_type body principal = (
    verify-IsAuthorized trust envelope role statement_type body principal,
    λ (same, a). rw same (IsAuthorized-verify trust envelope role statement_type principal a),
  )

pub timestamp-parsed :
    (p : Platform) (s : String) (t : ℕ) → p.parse_timestamp s ≡ some t → timestamp p (str s) ≡ ok t
unfolding timestamp
timestamp-parsed p s t e = rw (e, timestamp)

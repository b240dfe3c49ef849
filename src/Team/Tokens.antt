-- ===== src/Team/Tokens.antt =====
-- src/opentapeout/team_auth.py: access tokens. Base64, JSON text and PyJWT are the fields of `Jwt`.
use open_tapeout.Prelude.{
  ℕ, ◌-◌, String, Bool, true, false, ◌&&◌, not, Option, none, some, List, [], ◌∷◌, Dict, insert,
  lookup, has, contains, any, subset, same_set, leb, ltb, length, ◌+◌, ℤ, pos_part, neg_part,
  to_set,
}
use open_tapeout.Result.{
  Result, ok, err, tapeout, team, attribute_error, out_of_fuel, ensure, require, known, ◌>>=◌, ◌>>◌,
}
use open_tapeout.Json.{
  Json, num, str, arr, obj, cons, nil, Fields, int, get, get?, field_is, field_names, elements,
  items_eq,
}
use open_tapeout.Util.{codes}

pub record Identity : Type 0 where
  pub issuer : String
  pub subject : String
  pub client_id : String
  pub scopes : List String
  pub expires : ℤ

-- The configuration of the tokens, its types checked.
pub record TokenConfig : Type 0 where
  pub issuer : String
  pub audience : String
  pub client_ids : List String
  pub max_lifetime_seconds : ℕ

-- The libraries: `token.split(".")`, the JSON object of a part (with its alphabet and its base64),
-- the bits of an RSA key, the claims that `jwt.decode` accepts for a key, an issuer and an audience
-- at a moment, `str.lower` and `str.split`. `jwks` is the file of public keys.
pub record Jwt : Type 0 where
  pub parts : String → List String
  pub decode_part : String → Result Json
  pub rsa_bits : Fields → Option ℕ
  pub claims : String → Fields → TokenConfig → Result Fields
  pub jwks_link : Bool
  pub jwks : Result Json
  pub lower : String → String
  pub words : String → List String

abbrev pub one_part : Json → Result Fields
one_part (obj f) = ok f
one_part _ = err (tapeout "Invalid JWT objects")

-- `entry.get("key_ops", ["verify"]) == ["verify"]`
abbrev pub is_for_verifying : Option Json → Bool
is_for_verifying none = true
is_for_verifying (some (arr operations)) = items_eq operations (cons (str "verify") nil)
is_for_verifying (some _) = false

-- One entry of the public keys, behind the ones before it.
unfoldable pub public_key : Jwt → Dict Fields → Json → Result (Dict Fields)
unfolding known
public_key jwt keys (obj entry) = do
  ensure
      (field_is "kty" "RSA" entry
        && field_is "use" "sig" entry
        && field_is "alg" "RS256" entry
        && not (
            any (λ k. contains k ("d" ∷ "p" ∷ "q" ∷ "dp" ∷ "dq" ∷ "qi" ∷ "oth" ∷ []))
              (field_names entry)))
      "Public RS256 signing keys required"
  kid ← elim (get? "kid" entry) [
    | some (str kid) ↦ ok kid
    | _ ↦ err (tapeout "Missing or duplicate JWKS key ID")
  ]
  ensure (ltb 0 (length (codes kid)) && leb (length (codes kid)) 128 && not (has kid keys))
      "Missing or duplicate JWKS key ID"
  ensure (is_for_verifying (get? "key_ops" entry)) "JWKS key cannot be used for verification"
  bits ← known (jwt.rsa_bits entry) "Invalid public RSA key"
  ensure (leb 2048 bits) "Invalid public RSA key"
  ok (insert kid entry keys)
public_key jwt keys _ = err (tapeout "Public RS256 signing keys required")

unfoldable pub public_keys : Jwt → Dict Fields → List Json → Result (Dict Fields)
unfolding public_key
public_keys jwt keys [] = ok keys
public_keys jwt keys (entry ∷ rest) = do
  keys' ← public_key jwt keys entry
  public_keys jwt keys' rest

-- `AccessTokens.keys`
unfoldable pub token_keys : Jwt → Result (Dict Fields)
unfolding public_keys
token_keys jwt = do
  ensure (not jwt.jwks_link) "JWKS must not be a symlink"
  data' ← jwt.jwks
  entries ← elim data' [
    | obj f ↦ do
      ensure (same_set (field_names f) ("keys" ∷ [])) "Invalid public JWKS"
      elim (get? "keys" f) [
        | some (arr items) ↦ ok (elements items)
        | _ ↦ err (tapeout "Invalid public JWKS")
      ]
    | _ ↦ err (tapeout "Invalid public JWKS")
  ]
  ensure (leb 1 (length entries) && leb (length entries) 32) "Invalid public JWKS"
  public_keys jwt [] entries

-- `isinstance(claims[k], str) and 0 < len(claims[k]) <= 512`
unfoldable pub named_claim : Fields → String → Result String
named_claim claims k = do
  v ← get k claims
  elim v [
    | str s ↦ do
      ensure (ltb 0 (length (codes s)) && leb (length (codes s)) 512) "Token identity required"
      ok s
    | _ ↦ err (tapeout "Token identity required")
  ]

-- `type(claims[k]) is int`
unfoldable pub date_claim : Fields → String → Result ℤ
date_claim claims k = do
  v ← get k claims
  elim v [ num (int n) ↦ ok n | _ ↦ err (tapeout "Integer token dates required") ]

-- `0 < expires - issued <= limit`
abbrev pub is_lifetime : ℤ → ℤ → ℕ → Bool
is_lifetime issued expires limit =
    let seconds = (pos_part expires + neg_part issued) - (pos_part issued + neg_part expires) in
    ltb 0 seconds && leb seconds limit

-- The identity that the claims of a token state.
unfoldable pub identify : Jwt → TokenConfig → Fields → Result Identity
unfolding date_claim named_claim
identify jwt config claims = do
  issued ← date_claim claims "iat"
  expires ← date_claim claims "exp"
  ensure (elim (get? "nbf" claims) [ none ↦ true | some (num (int n)) ↦ true | _ ↦ false ])
      "Integer not-before required"
  ensure (is_lifetime issued expires config.max_lifetime_seconds) "Excessive token lifetime"
  subject ← named_claim claims "sub"
  _ ← named_claim claims "jti"
  client_id ← named_claim claims "client_id"
  ensure (contains client_id config.client_ids) "Client not allowed"
  scope ← elim (get? "scope" claims) [
    | none ↦ ok ""
    | some (str s) ↦ ok s
    | some _ ↦ err (tapeout "Invalid token scope")
  ]
  ensure (leb (length (codes scope)) 4096) "Invalid token scope"
  issuer ← get "iss" claims
  ok (record {
    issuer = elim issuer [ str s ↦ s | _ ↦ "" ];
    subject = subject;
    client_id = client_id;
    scopes = to_set (jwt.words scope);
    expires = expires;
  })

-- The two objects of a token: its header and its claims, unverified.
unfoldable pub header_of : Jwt → String → Result Fields
header_of jwt token = elim (jwt.parts token) [
  | (first ∷ second ∷ third ∷ []) ↦ do
    header ← jwt.decode_part first
    untrusted ← jwt.decode_part second
    f ← one_part header
    _ ← one_part untrusted
    ok f
  | _ ↦ err (tapeout "Invalid JWT")
]

-- `AccessTokens.verify`, the body of its `try`
unfoldable pub check_token : Jwt → TokenConfig → String → Result Identity
unfolding header_of token_keys identify known
check_token jwt config token = do
  require (ltb 0 (length (codes token)) && leb (length (codes token)) 16384) "AUTHENTICATION"
      "Invalid access token" 401
  header ← header_of jwt token
  ensure
      (subset (field_names header) ("alg" ∷ "typ" ∷ "kid" ∷ [])
        && field_is "alg" "RS256" header
        && elim (get? "typ" header) [
          | some (str typ) ↦ contains (jwt.lower typ) ("at+jwt" ∷ "application/at+jwt" ∷ [])
          | _ ↦ false
        ])
      "Access token type required"
  kid ← elim (get? "kid" header) [
    | some (str kid) ↦ ok kid
    | _ ↦ err (tapeout "JWT key ID required")
  ]
  keys ← token_keys jwt
  key ← known (lookup kid keys) "Unknown JWT signing key"
  claims ← jwt.claims token key config
  identify jwt config claims

-- `except (jwt.PyJWTError, TapeoutError, ValueError, TypeError, KeyError, OSError)`
unfoldable pub hide {ℓ} : {A : Type ℓ} → Result A → Result A
hide (ok a) = ok a
hide (err attribute_error) = err attribute_error
hide (err out_of_fuel) = err out_of_fuel
hide (err _) = err (team "AUTHENTICATION" "A valid authorized access token is required" 401)

unfoldable pub verify_token : Jwt → TokenConfig → String → Result Identity
unfolding check_token hide
verify_token jwt config token = hide (check_token jwt config token)

-- ===== src/Lifecycle/Status/InForce.antt =====
-- When `verify_status` of lifecycle.py takes a status statement to be in force.
use open_tapeout.Prelude.{
  ℕ, ◌+◌, ◌≤◌, ◌<◌, ◌&&◌, String, true, false, Option, none, some, [], ◌∷◌, ◌≡◌, refl, ap, ◌∙◌,
  arith, leb, ltb, leb→le, and-eq-true, same_set, pos, negsuc,
}
use open_tapeout.Result.{ok, >>=-eq-ok, ensure-eq-ok, ok-injective}
use open_tapeout.Json.{
  Json, null, bool, num, str, arr, obj, int, double, infinity, minus_infinity, not_a_number, Fields,
  get, get?, field_names, is_text,
}
use open_tapeout.Util.{is_hex}
use open_tapeout.Records.{Platform}
use open_tapeout.Signing.{timestamp}
use open_tapeout.Lifecycle.Status.{check_statement_fields, is_checkpoint, is_sequence, is_digest}

-- A checkpoint of the ledger that is not older than the one that was seen: an object with the two
-- fields of a checkpoint, a number of at least 1 and `minimum`, and a digest.
pub record IsCheckpoint (minimum : ℕ) (v : Json) : Type 0 where
  pub fields : Fields
  pub seq : ℕ
  pub hash : String
  pub object : v ≡ obj fields
  pub named : same_set (field_names fields) ("seq" ∷ "hash" ∷ []) ≡ true
  pub at_seq : get? "seq" fields ≡ some (num (int (pos seq)))
  pub positive : 1 ≤ seq
  pub not_replayed : minimum ≤ seq
  pub at_hash : get? "hash" fields ≡ some (str hash)
  pub hex : is_hex hash ≡ true

-- A statement has its fields and the project, was issued in the past, has not expired, is valid for
-- at most 24 hours, and names a checkpoint.
pub record IsInForce (p : Platform) (body : Fields) (project_id : String) (minimum : ℕ)
    (at : String) (current : ℕ) : Type 0 where
  pub named :
      same_set (field_names body) (
        "type" ∷ "project_id" ∷ "created_at" ∷ "expires_at" ∷ "checkpoint" ∷ "revoked_approvals"
        ∷ "revoked_waivers" ∷ "withdrawn_candidates" ∷ [])
      ≡ true
  pub project : Json
  pub created_at : Json
  pub expires_at : Json
  pub checkpoint : Json
  pub issued : ℕ
  pub expires : ℕ
  pub at_project : get "project_id" body ≡ ok project
  pub of_project : is_text project_id project ≡ true
  pub at_created : get "created_at" body ≡ ok created_at
  pub is_issued : timestamp p created_at ≡ ok issued
  pub at_expires : get "expires_at" body ≡ ok expires_at
  pub is_expires : timestamp p expires_at ≡ ok expires
  pub is_current : timestamp p (str at) ≡ ok current
  pub past : issued ≤ current
  pub alive : current < expires
  pub short : expires ≤ issued + p.hours (int (pos 24))
  pub at_checkpoint : get "checkpoint" body ≡ ok checkpoint
  pub covered : IsCheckpoint minimum checkpoint

sequence_of :
    (minimum : ℕ) (o : Option Json)
    → elim o [ none ↦ false | some v ↦ is_sequence minimum v ] ≡ true
    → (n : ℕ) × (o ≡ some (num (int (pos n)))) × (1 ≤ n) × (minimum ≤ n)
sequence_of minimum (some (num (int (pos n)))) h =
    let (one, least) = and-eq-true (leb 1 n) (leb minimum n) h in
    (n, refl, leb→le 1 n one, leb→le minimum n least)
sequence_of minimum none h = cc
sequence_of minimum (some null) h = cc
sequence_of minimum (some (bool b)) h = cc
sequence_of minimum (some (str s)) h = cc
sequence_of minimum (some (arr xs)) h = cc
sequence_of minimum (some (obj f)) h = cc
sequence_of minimum (some (num (int (negsuc n)))) h = cc
sequence_of minimum (some (num (double m n))) h = cc
sequence_of minimum (some (num infinity)) h = cc
sequence_of minimum (some (num minus_infinity)) h = cc
sequence_of minimum (some (num not_a_number)) h = cc

digest_of :
    (o : Option Json)
    → elim o [ none ↦ false | some v ↦ is_digest v ] ≡ true
    → (s : String) × (o ≡ some (str s)) × (is_hex s ≡ true)
digest_of (some (str s)) h = (s, refl, h)
digest_of none h = cc
digest_of (some null) h = cc
digest_of (some (bool b)) h = cc
digest_of (some (num n)) h = cc
digest_of (some (arr xs)) h = cc
digest_of (some (obj f)) h = cc

is_checkpoint-IsCheckpoint :
    (minimum : ℕ) (v : Json) → is_checkpoint minimum v ≡ true → IsCheckpoint minimum v
is_checkpoint-IsCheckpoint minimum (obj f) h =
    let (both, third) =
      and-eq-true _ (elim (get? "hash" f) [ none ↦ false | some v ↦ is_digest v ]) h in
    let (first, second) =
      and-eq-true (same_set (field_names f) ("seq" ∷ "hash" ∷ []))
        (elim (get? "seq" f) [ none ↦ false | some v ↦ is_sequence minimum v ]) both in
    let (n, at_seq, one, least) = sequence_of minimum (get? "seq" f) second in
    let (s, at_hash, hex) = digest_of (get? "hash" f) third in
    record {
      fields = f;
      seq = n;
      hash = s;
      object = refl;
      named = first;
      at_seq = at_seq;
      positive = one;
      not_replayed = least;
      at_hash = at_hash;
      hex = hex;
    }
is_checkpoint-IsCheckpoint minimum null h = cc
is_checkpoint-IsCheckpoint minimum (bool b) h = cc
is_checkpoint-IsCheckpoint minimum (num n) h = cc
is_checkpoint-IsCheckpoint minimum (str s) h = cc
is_checkpoint-IsCheckpoint minimum (arr xs) h = cc

pub check_statement_fields-IsInForce :
    (p : Platform) (body : Fields) (project_id : String) (minimum : ℕ) (at : String) (current : ℕ)
    → check_statement_fields p body project_id minimum at ≡ ok current
    → IsInForce p body project_id minimum at current
unfolding check_statement_fields
check_statement_fields-IsInForce p body project_id minimum at current h =
    let (named, h1) = ensure-eq-ok _ _ _ h in
    let (project, at_project, h2) = >>=-eq-ok (get "project_id" body) _ h1 in
    let (of_project, h3) = ensure-eq-ok (is_text project_id project) _ _ h2 in
    let (created, at_created, h4) = >>=-eq-ok (get "created_at" body) _ h3 in
    let (issued, is_issued, h5) = >>=-eq-ok (timestamp p created) _ h4 in
    let (until, at_expires, h6) = >>=-eq-ok (get "expires_at" body) _ h5 in
    let (expires, is_expires, h7) = >>=-eq-ok (timestamp p until) _ h6 in
    let (now, is_current, h8) = >>=-eq-ok (timestamp p (str at)) _ h7 in
    let (window, h9) = ensure-eq-ok (leb issued now && ltb now expires) _ _ h8 in
    let (short, h10) =
      ensure-eq-ok (ltb issued expires && leb expires (issued + p.hours (int (pos 24)))) _ _ h9 in
    let (checkpoint, at_checkpoint, h11) = >>=-eq-ok (get "checkpoint" body) _ h10 in
    let (covered, h12) = ensure-eq-ok (is_checkpoint minimum checkpoint) _ _ h11 in
    let same = ok-injective h12 in
    record {
      named = named;
      project = project;
      created_at = created;
      expires_at = until;
      checkpoint = checkpoint;
      issued = issued;
      expires = expires;
      at_project = at_project;
      of_project = of_project;
      at_created = at_created;
      is_issued = is_issued;
      at_expires = at_expires;
      is_expires = is_expires;
      is_current = is_current ∙ ap ok same;
      past = ground (arith, same);
      alive = ground (arith, same);
      short = ground arith;
      at_checkpoint = at_checkpoint;
      covered = is_checkpoint-IsCheckpoint minimum checkpoint covered;
    }

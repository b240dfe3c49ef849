-- ===== src/Store.antt =====
-- src/opentapeout/store.py: the append-only ledger of hashed events.
--
-- The SQLite table `events` is the list of its rows in the order of `seq` (ORDER BY seq); its
-- PRIMARY KEY and UNIQUE constraints are the failures of `insert_row`. What `json` and
-- `hashlib` do is the fields of a `Codec`; `loads` of util.py, which guards `json.loads`, is defined.
pub mod Chain
pub mod Append
pub mod Evidence
use open_tapeout.Prelude.{
  ℕ, zero, suc, ◌+◌, String, Bool, true, false, ◌&&◌, ◌||◌, Option, none, some, List, [], ◌∷◌, ◌++◌,
  ltb, leb, ◌==◌, if◌then◌else◌, length, last?, get_elem?, take, any, contains, ◌-◌, ◌≡◌, ◌≤◌, not,
}
use open_tapeout.Util.{max_json_bytes}
use mathlib.Core.Bool.{decide}
use open_tapeout.Result.{Result, Failure, ok, err, ensure, tapeout, ◌>>=◌, ◌>>◌}

-- An event without its hash: the dictionary `body` of `Transaction.append`.
pub record Body (H P : Type 0) : Type 0 where
  pub seq : ℕ
  pub previous : H
  pub kind : String
  pub actor : String
  pub at : String
  pub payload : P

-- `{**body, "hash": digest(body)}`
pub record Event (H P : Type 0) : Type 0 where
  pub body : Body H P
  pub hash : H

-- JSON text, SHA-256 and the constant ZERO.
pub record Codec (H P : Type 0) : Type 1 where
  pub Text : Type 0
  pub canonical : Body H P → Text
  -- `len(data)`
  pub text_size : Text → ℕ
  -- the keys of each object of the text, as `json.loads` hands them to its `object_pairs_hook`
  pub objects : Text → List (List String)
  -- the text has a constant or a number that is not a finite one
  pub is_nonfinite : Text → Bool
  -- what `json.loads` gives: it may raise, or give a value that is not the object of an event
  pub parse : Text → Option (Option (Body H P))
  pub sha256 : Text → H
  pub zero_hash : H
  pub hash_discrete : Discrete H
  -- the length of `actor.strip()`
  pub stripped_length : String → ℕ

-- `_unique_pairs` of util.py, over the keys of one object, behind the keys `seen`. Its error is a
-- ValueError, which `loads` raises again as "Invalid JSON".
unfoldable pub unique_pairs : List String → List String → Result (Unit {0})
unique_pairs seen [] = ok tt
unique_pairs seen (key ∷ rest) = do
  ensure (not (contains key seen)) "Invalid JSON: Duplicate JSON key"
  unique_pairs (key ∷ seen) rest

unfoldable pub unique_objects : List (List String) → Result (Unit {0})
unfolding unique_pairs
unique_objects [] = ok tt
unique_objects (names ∷ rest) = do unique_pairs [] names; unique_objects rest

module _ {H P : Type 0} (c : Codec H P) where
  pub record Row : Type 0 where
    pub seq : ℕ
    pub text : c.Text
    pub hash : H

  pub record Checkpoint : Type 0 where
    pub seq : ℕ
    pub hash : H

  pub record Transaction : Type 0 where
    pub rows : List Row
    pub events : List (Event H P)

  abbrev pub same_hash : H → H → Bool
  same_hash a b = decide (c.hash_discrete a b)

  abbrev pub digest : Body H P → H
  digest b = c.sha256 (c.canonical b)

  -- `events[-1]["hash"] if events else ZERO`
  abbrev pub last_hash : List (Event H P) → H
  last_hash events = elim (last? events) [ none ↦ c.zero_hash | some e ↦ e.hash ]

  unfoldable pub checkpoint : Transaction → Checkpoint
  checkpoint tx = record { seq = length tx.events; hash = last_hash tx.events }

  -- INSERT INTO events: the row goes to the place of its key.
  unfoldable pub place_row : Row → List Row → List Row
  place_row r [] = r ∷ []
  place_row r (x ∷ xs) = if ltb r.seq x.seq then r ∷ x ∷ xs else x ∷ place_row r xs

  unfoldable pub insert_row : Row → List Row → Result (List Row)
  unfolding place_row
  insert_row r rows =
      if any (λ x. x.seq == r.seq || same_hash x.hash r.hash) rows
      then err (tapeout "UNIQUE constraint failed")
      else ok (place_row r rows)

  unfoldable pub append :
      String → P → String → String → Transaction → Result (Event H P × Transaction)
  unfolding insert_row
  append event_type payload actor now tx = do
    let size = c.stripped_length actor
    ensure (ltb 0 size && leb size 128) "Actor is required"
    let body : Body H P = record {
      seq = length tx.events + 1;
      previous = last_hash tx.events;
      kind = event_type;
      actor = actor;
      at = now;
      payload = payload;
    }
    let event : Event H P = record { body = body; hash = digest body }
    rows ←
        insert_row (record { seq = body.seq; text = c.canonical body; hash = event.hash }) tx.rows
    ok (event, record { rows = rows; events = tx.events ++ event ∷ [] })

  -- `loads` of util.py under its default limit; `none` is a value that is not the object of an event.
  unfoldable pub loads : c.Text → Result (Option (Body H P))
  unfolding unique_objects
  loads text = do
    ensure (leb (c.text_size text) max_json_bytes) "JSON exceeds size limit"
    unique_objects (c.objects text)
    ensure (not (c.is_nonfinite text)) "Invalid JSON: Nonfinite JSON number"
    elim (c.parse text) [ none ↦ err (tapeout "Invalid JSON") | some value ↦ ok value ]

  -- One row of the loop of `read_events`: its event, if it goes on the chain.
  unfoldable pub read_row : ℕ → H → Row → Result (Event H P)
  unfolding loads
  read_row index previous r = do
    value ← loads r.text
    elim value [
      | none ↦ err (tapeout "Ledger sequence gap or invalid event")
      | some body ↦ do
        ensure (body.seq == r.seq && r.seq == index) "Ledger sequence gap or invalid event"
        ensure (same_hash body.previous previous && same_hash (digest body) r.hash)
            "Ledger integrity failure"
        ok (record { body = body; hash = r.hash })
    ]

  unfoldable pub read_from : ℕ → H → List Row → Result (List (Event H P))
  read_from index previous [] = ok []
  read_from index previous (r ∷ rows) = do
    event ← read_row index previous r
    rest ← read_from (index + 1) r.hash rows
    ok (event ∷ rest)

  unfoldable pub read_events : List Row → Result (List (Event H P))
  unfolding read_row read_from
  read_events rows = read_from 1 c.zero_hash rows

  settle {ℓ} : {A : Type ℓ} → List Row → Result (A × Transaction) → Result A × List Row
  settle rows (ok (a, tx)) = (ok a, tx.rows)
  settle rows (err e) = (err e, rows)

  -- The `with` block of `transaction`: commit what the body wrote, or roll back and raise again.
  pub transaction {ℓ} :
      {A : Type ℓ} → (Transaction → Result (A × Transaction)) → List Row → Result A × List Row
  unfolding settle
  transaction body rows =
      settle rows (do events ← read_events rows; body (record { rows = rows; events = events }))

  -- `events[seq - 1]["hash"] if seq else ZERO`, behind the test that `seq` is in range
  unfoldable pub hash_at : ℕ → List (Event H P) → H
  hash_at zero events = c.zero_hash
  hash_at (suc i) events = elim (get_elem? events i) [ none ↦ c.zero_hash | some e ↦ e.hash ]

  unfoldable pub check_expected : Option Checkpoint → List (Event H P) → Result (Unit {0})
  unfolding hash_at
  check_expected none events = ok tt
  check_expected (some expected) events = do
    ensure (leb expected.seq (length events)) "Ledger truncated below checkpoint"
    ensure (same_hash (hash_at expected.seq events) expected.hash)
        "Ledger disagrees with external checkpoint"

  -- The type of `expected.seq` is the test that it is an integer that is not negative.
  unfoldable pub verify_checkpoint : Option Checkpoint → List Row → Result Checkpoint
  unfolding check_expected
  verify_checkpoint expected rows = do
    events ← read_events rows
    check_expected expected events
    ok (checkpoint (record { rows = rows; events = events }))

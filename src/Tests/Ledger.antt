-- ===== src/Tests/Ledger.antt =====
-- A ledger of two events, in a codec whose text is the event itself and whose digest keeps all of it.
use open_tapeout.Prelude.{
  ℕ, String, Bool, true, false, some, List, [], ◌∷◌, ◌++◌, ◌≡◌, refl, ◌+◌, length, take, arith,
  str_eq, eq_iff, if◌then◌else◌, ◌≤◌, ◌<◌,
}
use native.Mathlib.Decide.{ℕ_discrete}
use open_tapeout.Result.{ok, err, tapeout}
use open_tapeout.Store.{
  Body, Event, Codec, Row, Transaction, Checkpoint, append, read_events, checkpoint,
  verify_checkpoint, last_hash, digest,
}
use open_tapeout.Store.Append.{
  RoundTrips, CollisionFree, IsCurrent, append-IsCurrent, append-too_long,
}
use open_tapeout.Util.{max_json_bytes}
use open_tapeout.Store.Evidence.{verify_checkpoint-prefix}

data Hash : Type 0 where
  zeros : Hash
  of : ℕ → Hash → String → String → String → String → Hash

hash_of : Body Hash String → Hash
hash_of b = of b.seq b.previous b.kind b.actor b.at b.payload

unfoldable pub same_text : (a b : String) (same : Bool) → str_eq a b ≡ same → Dec (a ≡ b)
same_text a b true e = yes ((eq_iff a b).0 e)
same_text a b false e = no (λ h. ground (arith, eq_iff a b))

unfoldable pub string_discrete : Discrete String
unfolding same_text
string_discrete a b = same_text a b (str_eq a b) refl

Hash-discrete : Discrete Hash
Hash-discrete = hlevel (ℕ_discrete, string_discrete)

-- The size of a text by its payload: one is too long to be read.
size_of : String → ℕ
size_of payload = if str_eq payload "long" then 16777217 else 100

abbrev codec : Codec Hash String
codec = record {
  Text = Body Hash String;
  canonical = λ b. b;
  text_size = λ b. size_of b.payload;
  objects = λ b. ("actor" ∷ "at" ∷ "payload" ∷ "previous" ∷ "seq" ∷ "type" ∷ []) ∷ [];
  is_nonfinite = λ b. false;
  parse = λ b. some (some b);
  sha256 = hash_of;
  zero_hash = zeros;
  hash_discrete = Hash-discrete;
  stripped_length = λ s. 5;
}

codec-RoundTrips : RoundTrips codec
unfolding open_tapeout.Store.unique_objects open_tapeout.Store.unique_pairs
    open_tapeout.Prelude.contains
codec-RoundTrips = record { parses = λ b. refl; keyed = λ b. refl; finite = λ b. refl }

codec-CollisionFree : CollisionFree codec
unfolding hash_of
codec-CollisionFree a b h = ground arith

abbrev body1 : Body Hash String
body1 = record {
  seq = 1;
  previous = zeros;
  kind = "project.created";
  actor = "alice";
  at = "today";
  payload = "chip";
}

abbrev event1 : Event Hash String
event1 = record { body = body1; hash = hash_of body1 }

abbrev body2 : Body Hash String
body2 = record {
  seq = 2;
  previous = hash_of body1;
  kind = "waiver.signed";
  actor = "bob";
  at = "today";
  payload = "f1";
}

abbrev event2 : Event Hash String
event2 = record { body = body2; hash = hash_of body2 }

abbrev row_of : Event Hash String → Row codec
row_of e = record { seq = e.body.seq; text = e.body; hash = e.hash }

abbrev first : Transaction codec
first = record { rows = row_of event1 ∷ []; events = event1 ∷ [] }

first-IsCurrent : IsCurrent codec first
unfolding open_tapeout.Store.read_events open_tapeout.Store.read_from open_tapeout.Store.read_row
    open_tapeout.Store.loads open_tapeout.Store.unique_objects open_tapeout.Store.unique_pairs
    size_of open_tapeout.Prelude.contains Hash-discrete ℕ_discrete string_discrete same_text hash_of
    mathlib.Core.Bool.decide
first-IsCurrent = refl

f1-short : size_of "f1" ≤ max_json_bytes
unfolding size_of
f1-short = omega arith

long-too_long : max_json_bytes < size_of "long"
unfolding size_of
long-too_long = omega arith

append-IsCurrent_example :
    (e : Event Hash String) × (tx' : Transaction codec) × (append codec "waiver.signed" "f1" "bob"
        "today" first
      ≡ ok (e, tx'))
    × IsCurrent codec tx'
    × (tx'.events ≡ first.events ++ e ∷ [])
    × (e.body.seq ≡ length first.events + 1)
    × (e.body.previous ≡ last_hash codec first.events)
    × (e.body.payload ≡ "f1")
append-IsCurrent_example =
    append-IsCurrent codec "waiver.signed" "f1" "bob" "today" first codec-RoundTrips
      codec-CollisionFree first-IsCurrent (omega arith) (omega arith) f1-short

append-too_long_example :
    (e : Event Hash String) × (tx' : Transaction codec) × (append codec "waiver.signed" "long" "bob"
        "today" first
      ≡ ok (e, tx'))
    × (read_events codec tx'.rows ≡ err (tapeout "JSON exceeds size limit"))
append-too_long_example =
    append-too_long codec "waiver.signed" "long" "bob" "today" first codec-CollisionFree
      first-IsCurrent (omega arith) (omega arith) long-too_long

verify_checkpoint-later :
    verify_checkpoint codec (some (checkpoint codec first)) (row_of event1 ∷ row_of event2 ∷ [])
    ≡ ok (record { seq = 2; hash = event2.hash })
unfolding verify_checkpoint open_tapeout.Store.check_expected open_tapeout.Store.hash_at checkpoint
    open_tapeout.Store.read_events open_tapeout.Store.read_from open_tapeout.Store.read_row
    open_tapeout.Store.loads open_tapeout.Store.unique_objects open_tapeout.Store.unique_pairs
    size_of open_tapeout.Prelude.contains Hash-discrete ℕ_discrete string_discrete same_text hash_of
    mathlib.Core.Bool.decide
verify_checkpoint-later = refl

verify_checkpoint-prefix_example :
    (es : List (Event Hash String)) × (read_events codec (row_of event1 ∷ row_of event2 ∷ [])
      ≡ ok es)
    × (take 1 es ≡ event1 ∷ [])
verify_checkpoint-prefix_example =
    verify_checkpoint-prefix codec (row_of event1 ∷ []) (row_of event1 ∷ row_of event2 ∷ [])
      (event1 ∷ []) (record { seq = 2; hash = event2.hash }) codec-CollisionFree first-IsCurrent
      verify_checkpoint-later

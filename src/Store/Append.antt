-- ===== src/Store/Append.antt =====
-- `Transaction.append` keeps the table readable, and reading it gives the events back.
use open_tapeout.Prelude.{
  ℕ, ◌+◌, ◌≤◌, ◌<◌, ◌≡◌, refl, false, ◌||◌, some, List, [], ◌∷◌, ◌++◌, arith, length, length-append,
  ◌==◌, String, any, subst, ltb, leb, ◌&&◌, ap, sym, ◌∙◌,
}
use open_tapeout.Util.{max_json_bytes}
use open_tapeout.Result.{Failure, err, tapeout, ensure-eq-ok, >>=-eq-ok, ok-injective, ok}
use open_tapeout.Store.{
  Body, Event, Codec, Row, Transaction, digest, last_hash, same_hash, read_events, read_row,
  read_from, loads, unique_objects, place_row, insert_row, append, checkpoint,
}
use open_tapeout.Store.Chain.{
  Holds, Chained, done, link, same_hash_iff, read_from-Chained, Chained-read_from, Holds-read_row,
}

module _ {H P : Type 0} (c : Codec H P) where
  -- `json.loads` gives back what `json.dumps` wrote, which repeats no key and has only finite numbers.
  pub record RoundTrips : Type 0 where
    pub parses : (b : Body H P) → c.parse (c.canonical b) ≡ some (some b)
    pub keyed : (b : Body H P) → unique_objects (c.objects (c.canonical b)) ≡ ok tt
    pub finite : (b : Body H P) → c.is_nonfinite (c.canonical b) ≡ false

  -- The body of the next event of a transaction.
  abbrev pub next_body : String → P → String → String → Transaction c → Body H P
  next_body event_type payload actor now tx = record {
    seq = length tx.events + 1;
    previous = last_hash c tx.events;
    kind = event_type;
    actor = actor;
    at = now;
    payload = payload;
  }

  loads-canonical :
      (b : Body H P)
      → RoundTrips
      → c.text_size (c.canonical b) ≤ max_json_bytes
      → loads c (c.canonical b) ≡ ok (some b)
  unfolding loads
  loads-canonical b round short = ground (arith, round.parses b, round.keyed b, round.finite b)

  loads-too_long :
      (b : Body H P)
      → max_json_bytes < c.text_size (c.canonical b)
      → loads c (c.canonical b) ≡ err (tapeout "JSON exceeds size limit")
  unfolding loads
  loads-too_long b long = ground arith

  -- A row that cannot be read, behind a chain, fails the reading of the table.
  read_from-err :
      {i : ℕ} {h : H} {rows : List (Row c)} {events : List (Event H P)} (r : Row c) (why : Failure)
      → Chained c i h rows events
      → loads c r.text ≡ err why
      → read_from c i h (rows ++ r ∷ []) ≡ err why
  unfolding read_from read_row
  read_from-err r why done bad = rw bad
  read_from-err r why (link {i} {h} {r = x} {e = e} held more) bad =
      rw (Holds-read_row c i h x e held, held.recorded, read_from-err r why more bad)

  -- No two events of the program have one digest.
  abbrev pub CollisionFree : Type 0
  CollisionFree = (a b : Body H P) → digest c a ≡ digest c b → a ≡ b

  -- The list of events in memory is what the table holds.
  abbrev pub IsCurrent : Transaction c → Type 0
  IsCurrent tx = read_events c tx.rows ≡ ok tx.events

  -- The hash that the next event of a chain names.
  unfoldable pub ends : H → List (Event H P) → H
  ends h [] = h
  ends h (e ∷ events) = ends e.hash events

  pub last_hash-ends :
      (h : H) (e : Event H P) (events : List (Event H P))
      → last_hash c (e ∷ events) ≡ ends e.hash events
  unfolding ends
  last_hash-ends h e [] = refl
  last_hash-ends h e (x ∷ events) = last_hash-ends h x events

  pub last_hash_lem : (events : List (Event H P)) → last_hash c events ≡ ends c.zero_hash events
  unfolding ends
  last_hash_lem [] = refl
  last_hash_lem (e ∷ events) = last_hash-ends e.hash e events

  place_row-last :
      {i : ℕ} {h : H} {rows : List (Row c)} {events : List (Event H P)} (r : Row c)
      → Chained c i h rows events
      → r.seq ≡ i + length events
      → place_row c r rows ≡ rows ++ r ∷ []
  unfolding place_row
  place_row-last r done e = refl
  place_row-last r (link {i} {r = x} {rows = rows} {e = ev} {events = events} held more) e =
      ground (arith, held.keyed, place_row-last r more (omega arith))

  Chained-append :
      {i : ℕ} {h : H} {rows : List (Row c)} {events : List (Event H P)} (r : Row c) (e : Event H P)
      → Chained c i h rows events
      → Holds c (i + length events) (ends h events) r e
      → Chained c i h (rows ++ r ∷ []) (events ++ e ∷ [])
  unfolding ends
  Chained-append {i} {h} r e done held = link (subst (λ n. Holds c n h r e) (omega arith) held) done
  Chained-append r e (link {i} {h} {r = x} {e = y} {events = events} first more) held =
      link first (
        Chained-append r e more
          (subst (λ n. Holds c n (ends y.hash events) r e) (omega arith) held))

  -- A new event is behind every row, so its key and its hash are new.
  fresh_row :
      (free : CollisionFree) {i : ℕ} {h : H} {rows : List (Row c)} {events : List (Event H P)}
      (b : Body H P)
      → Chained c i h rows events
      → b.seq ≡ i + length events
      → any (λ x. x.seq == b.seq || same_hash c x.hash (digest c b)) rows ≡ false
  fresh_row free b done e = refl
  fresh_row free b (link {i} {r = x} {e = y} {events = events} held more) e = ground (
    arith,
    fresh_row free b more (omega arith),
    same_hash_iff c x.hash (digest c b),
    free y.body b,
  )

  pub append-events :
      (event_type : String) (payload : P) (actor now : String) (tx tx' : Transaction c)
      (e : Event H P)
      → append c event_type payload actor now tx ≡ ok (e, tx')
      → (tx'.events ≡ tx.events ++ e ∷ []) × (e.body.payload ≡ payload)
  unfolding append
  append-events event_type payload actor now tx tx' e h =
      let size = c.stripped_length actor in
      let (_, h1) = ensure-eq-ok (ltb 0 size && leb size 128) _ _ h in
      let (rows, _, h2) = >>=-eq-ok (insert_row c _ tx.rows) _ h1 in
      let pair = ok-injective h2 in
      (
        ap (λ (t : Event H P × Transaction c). t.1.events) (sym pair)
            ∙ ap (λ (t : Event H P × Transaction c). tx.events ++ t.0 ∷ []) pair,
        ap (λ (t : Event H P × Transaction c). t.0.body.payload) (sym pair),
      )

  last_hash-append :
      (events : List (Event H P)) (e : Event H P) → last_hash c (events ++ e ∷ []) ≡ e.hash
  last_hash-append [] e = refl
  last_hash-append (x ∷ []) e = refl
  last_hash-append (x ∷ y ∷ events) e = last_hash-append (y ∷ events) e

  -- The checkpoint behind a new event is its sequence number and its hash.
  pub append-checkpoint :
      (event_type : String) (payload : P) (actor now : String) (tx tx' : Transaction c)
      (e : Event H P)
      → append c event_type payload actor now tx ≡ ok (e, tx')
      → ((checkpoint c tx').seq ≡ e.body.seq) × ((checkpoint c tx').hash ≡ e.hash)
  unfolding append checkpoint
  append-checkpoint event_type payload actor now tx tx' e h =
      let size = c.stripped_length actor in
      let (events, _) = append-events event_type payload actor now tx tx' e h in
      let (_, h1) = ensure-eq-ok (ltb 0 size && leb size 128) _ _ h in
      let (rows, _, h2) = >>=-eq-ok (insert_row c _ tx.rows) _ h1 in
      let seq : length tx.events + 1 ≡ e.body.seq =
        ap (λ (t : Event H P × Transaction c). t.0.body.seq) (ok-injective h2) in
      (
        ap length events ∙ length-append tx.events (e ∷ []) ∙ seq,
        ap (last_hash c) events ∙ last_hash-append tx.events e,
      )

  -- What `append` makes of the next body on a current transaction: it goes behind the events.
  append-next :
      (event_type : String) (payload : P) (actor now : String) (tx : Transaction c)
      → CollisionFree
      → IsCurrent tx
      → 0 < c.stripped_length actor
      → c.stripped_length actor ≤ 128
      → let b = next_body event_type payload actor now tx in
        append c event_type payload actor now tx
        ≡ ok (
          record { body = b; hash = digest c b },
          record {
            rows = tx.rows ++ record { seq = b.seq; text = c.canonical b; hash = digest c b } ∷ [];
            events = tx.events ++ record { body = b; hash = digest c b } ∷ [];
          },
        )
  unfolding append insert_row read_events
  append-next event_type payload actor now tx free current lower upper =
      let body = next_body event_type payload actor now tx in
      let r : Row c = record { seq = body.seq; text = c.canonical body; hash = digest c body } in
      let chain = read_from-Chained c 1 c.zero_hash tx.rows tx.events current in
      let fresh = fresh_row free body chain (omega arith) in
      ground (arith, fresh, place_row-last r chain (omega arith))

  -- On a current transaction, `append` by an actor whose name has 1 to 128 characters succeeds, if
  -- `json.loads` reads what `json.dumps` wrote, digests do not collide, and the text of the event is
  -- not longer than the 16 MiB that `loads` reads: the event has the next sequence number and names
  -- the last hash, it is added behind the events, and reading the table gives the new list.
  pub append-IsCurrent :
      (event_type : String) (payload : P) (actor now : String) (tx : Transaction c)
      → RoundTrips
      → CollisionFree
      → IsCurrent tx
      → 0 < c.stripped_length actor
      → c.stripped_length actor ≤ 128
      → c.text_size (c.canonical (next_body event_type payload actor now tx)) ≤ max_json_bytes
      → (e : Event H P) × (tx' : Transaction c) × (append c event_type payload actor now tx
          ≡ ok (e, tx'))
        × IsCurrent tx'
        × (tx'.events ≡ tx.events ++ e ∷ [])
        × (e.body.seq ≡ length tx.events + 1)
        × (e.body.previous ≡ last_hash c tx.events)
        × (e.body.payload ≡ payload)
  unfolding read_events
  append-IsCurrent event_type payload actor now tx round free current lower upper short =
      let body = next_body event_type payload actor now tx in
      let e : Event H P = record { body = body; hash = digest c body } in
      let r : Row c = record { seq = body.seq; text = c.canonical body; hash = e.hash } in
      let chain = read_from-Chained c 1 c.zero_hash tx.rows tx.events current in
      let held : Holds c (1 + length tx.events) (ends c.zero_hash tx.events) r e = record {
        decodes = loads-canonical body round short;
        numbered = omega arith;
        keyed = omega arith;
        linked = last_hash_lem tx.events;
        hashed = refl;
        recorded = refl;
      } in
      (
        e,
        record { rows = tx.rows ++ r ∷ []; events = tx.events ++ e ∷ [] },
        append-next event_type payload actor now tx free current lower upper,
        Chained-read_from c (Chained-append r e chain held),
        refl,
        refl,
        refl,
        refl,
      )

  -- `append` has no limit of its own: on a current transaction, if digests do not collide, it
  -- succeeds as well with an event whose text is longer than `loads` reads, by an actor whose name
  -- has 1 to 128 characters, and the table that it leaves can no longer be read.
  pub append-too_long :
      (event_type : String) (payload : P) (actor now : String) (tx : Transaction c)
      → CollisionFree
      → IsCurrent tx
      → 0 < c.stripped_length actor
      → c.stripped_length actor ≤ 128
      → max_json_bytes < c.text_size (c.canonical (next_body event_type payload actor now tx))
      → (e : Event H P) × (tx' : Transaction c) × (append c event_type payload actor now tx
          ≡ ok (e, tx'))
        × (read_events c tx'.rows ≡ err (tapeout "JSON exceeds size limit"))
  unfolding read_events
  append-too_long event_type payload actor now tx free current lower upper long =
      let body = next_body event_type payload actor now tx in
      let chain = read_from-Chained c 1 c.zero_hash tx.rows tx.events current in
      (
        _,
        _,
        append-next event_type payload actor now tx free current lower upper,
        read_from-err _ _ chain (loads-too_long body long),
      )

-- ===== src/Store/Evidence.antt =====
-- What a checkpoint that is kept outside the ledger shows of a later ledger.
use open_tapeout.Prelude.{
  ℕ, zero, suc, ◌≤◌, ◌≡◌, refl, sym, ap, ◌∙◌, some, List, [], ◌∷◌, arith, length, leb, take, leb→le,
}
use open_tapeout.Result.{ok, >>=-eq-ok, ensure-eq-ok, true_of_ensure}
use open_tapeout.Store.{
  Event, Codec, Row, Checkpoint, checkpoint, last_hash, read_from, read_events, verify_checkpoint,
  hash_at, check_expected,
}
use open_tapeout.Store.Chain.{Chained, done, link, same_hash_iff, read_from-Chained}
use open_tapeout.Store.Append.{ends, last_hash_lem, CollisionFree}

module _ {H P : Type 0} (c : Codec H P) where
  -- The last hash of a chain of known length determines all of it.
  Chained-determined :
      (free : CollisionFree c) {i : ℕ} {h k : H} {rows others : List (Row c)}
      {es fs : List (Event H P)}
      → Chained c i h rows es
      → Chained c i k others fs
      → length es ≡ length fs
      → ends c h es ≡ ends c k fs
      → (h ≡ k) × (es ≡ fs)
  unfolding ends
  Chained-determined free done done n e = (e, refl)
  Chained-determined free done (link held more) n e = absurd (omega arith)
  Chained-determined free (link held more) done n e = absurd (omega arith)
  Chained-determined free (link {e = x} held more) (link {e = y} other rest) n e =
      let (hashes, tails) = Chained-determined free more rest (omega arith) e in
      let bodies = free x.body y.body (held.hashed ∙ hashes ∙ sym other.hashed) in
      (
        sym held.linked ∙ ap (λ b. b.previous) bodies ∙ other.linked,
        λ j. record { body = bodies j; hash = hashes j } ∷ tails j,
      )

  Chained-take :
      (n : ℕ) {i : ℕ} {h : H} {rows : List (Row c)} {es : List (Event H P)}
      → Chained c i h rows es
      → Chained c i h (take n rows) (take n es)
  Chained-take zero chain = done
  Chained-take (suc n) done = done
  Chained-take (suc n) (link held more) = link held (Chained-take n more)

  hash_at-ends :
      (n : ℕ) (h : H) (es : List (Event H P))
      → suc n ≤ length es
      → hash_at c (suc n) es ≡ ends c h (take (suc n) es)
  unfolding hash_at ends
  hash_at-ends n h [] p = absurd (omega arith)
  hash_at-ends zero h (e ∷ es) p = refl
  hash_at-ends (suc n) h (e ∷ es) p = hash_at-ends n e.hash es (omega arith)

  hash_at_lem :
      (n : ℕ) (es : List (Event H P))
      → n ≤ length es
      → hash_at c n es ≡ ends c c.zero_hash (take n es)
  unfolding hash_at ends
  hash_at_lem zero es p = refl
  hash_at_lem (suc n) es p = hash_at-ends n c.zero_hash es p

  length-take_le {ℓ} : {A : Type ℓ} (n : ℕ) (xs : List A) → n ≤ length xs → length (take n xs) ≡ n
  length-take_le zero xs p = refl
  length-take_le (suc n) [] p = absurd (omega arith)
  length-take_le (suc n) (x ∷ xs) p = ap suc (length-take_le n xs (omega arith))

  -- If digests do not collide: a ledger that passes `verify_checkpoint` against a checkpoint taken
  -- of an earlier readable ledger begins with exactly the events of that ledger, so nothing that
  -- the checkpoint covers was rewritten, reordered or truncated.
  pub verify_checkpoint-prefix :
      (rows later : List (Row c)) (es : List (Event H P)) (now : Checkpoint c)
      → CollisionFree c
      → read_events c rows ≡ ok es
      → verify_checkpoint c (some (checkpoint c (record { rows = rows; events = es }))) later
        ≡ ok now
      → (fs : List (Event H P)) × (read_events c later ≡ ok fs) × (take (length es) fs ≡ es)
  unfolding verify_checkpoint check_expected checkpoint read_events
  verify_checkpoint-prefix rows later es now free before after =
      let (fs, readable, checked) = >>=-eq-ok (read_from c 1 c.zero_hash later) _ after in
      let expected : Checkpoint c = record { seq = length es; hash = last_hash c es } in
      let (_, passed, _) = >>=-eq-ok (check_expected c (some expected) fs) _ checked in
      let (covers, agrees) = ensure-eq-ok (leb (length es) (length fs)) _ _ passed in
      let old = read_from-Chained c 1 c.zero_hash rows es before in
      let new = Chained-take (length es) (read_from-Chained c 1 c.zero_hash later fs readable) in
      let fits = leb→le _ _ covers in
      (
        fs,
        readable,
        (Chained-determined free new old (length-take_le (length es) fs fits) (
            sym (hash_at_lem (length es) fs fits)
            ∙ (same_hash_iff c _ _).0 (true_of_ensure _ _ agrees)
            ∙ last_hash_lem c es)).1,
      )

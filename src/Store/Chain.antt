-- ===== src/Store/Chain.antt =====
-- What `read_events` accepts, as a relation: the hash chain of store.py.
use open_tapeout.Prelude.{
  ℕ, ◌+◌, ◌≡◌, refl, ap, ◌∙◌, ◌==◌, ◌&&◌, subst, true, some, Option-cases, inl, inr, ◌↔◌, List, [],
  ◌∷◌, arith,
}
use mathlib.Core.Bool.{decide}
use open_tapeout.Result.{ok, ok-injective, >>=-eq-ok, ensure-eq-ok}
use open_tapeout.Store.{Event, Codec, Row, digest, same_hash, loads, read_row, read_from}

module _ {H P : Type 0} (c : Codec H P) where
  -- The row `r` holds the event `e`, the `index`-th of the ledger, behind the hash `previous`.
  pub record Holds (index : ℕ) (previous : H) (r : Row c) (e : Event H P) : Type 0 where
    pub decodes : loads c r.text ≡ ok (some e.body)
    pub numbered : e.body.seq ≡ index
    pub keyed : r.seq ≡ index
    pub linked : e.body.previous ≡ previous
    pub hashed : digest c e.body ≡ e.hash
    pub recorded : r.hash ≡ e.hash

  -- The rows hold the events, in order.
  pub data Chained : ℕ → H → List (Row c) → List (Event H P) → Type 0 where
    done : {i : ℕ} {h : H} → Chained i h [] []
    link :
        {i : ℕ} {h : H} {r : Row c} {rows : List (Row c)} {e : Event H P}
        {events : List (Event H P)}
        → Holds i h r e
        → Chained (i + 1) e.hash rows events
        → Chained i h (r ∷ rows) (e ∷ events)

  pub same_hash_iff : (a b : H) → (same_hash c a b ≡ true) ↔ (a ≡ b)
  unfolding decide
  same_hash_iff a b = elim (c.hash_discrete a b) as (λ d. (decide d ≡ true) ↔ (a ≡ b)) [
    | yes p ↦ (λ _. p, λ _. refl)
    | no p ↦ (λ h. cc, λ q. absurd (p q))
  ]

  read_row-Holds :
      (i : ℕ) (h : H) (r : Row c) (e : Event H P) → read_row c i h r ≡ ok e → Holds i h r e
  unfolding read_row
  read_row-Holds i h r e p =
      let (value, decoded, p1) = >>=-eq-ok (loads c r.text) _ p in
      elim (Option-cases value) [
        | inl q ↦ absurd (ground arith)
        | inr (b, q) ↦
            let p2 = rw q at p1 in
            let (numbers, p3) = ensure-eq-ok (b.seq == r.seq && r.seq == i) _ _ p2 in
            let (hashes, p4) =
              ensure-eq-ok (same_hash c b.previous h && same_hash c (digest c b) r.hash) _ _ p3 in
            let same = ok-injective p4 in
            let body = ap (λ (x : Event H P). x.body) same in
            let hash = ap (λ (x : Event H P). x.hash) same in
            record {
              decodes = decoded ∙ ap ok (q ∙ ap some body);
              numbered = ground arith;
              keyed = ground arith;
              linked = ground (arith, same_hash_iff b.previous h);
              hashed = ground (arith, same_hash_iff (digest c b) r.hash);
              recorded = hash;
            }
      ]

  pub Holds-read_row :
      (i : ℕ) (h : H) (r : Row c) (e : Event H P) → Holds i h r e → read_row c i h r ≡ ok e
  unfolding read_row
  Holds-read_row i h r e p =
      let record { decodes = d; numbered = n; keyed = k; linked = l; hashed = x; recorded = y } =
        p in
      ground (arith, same_hash_iff e.body.previous h, same_hash_iff (digest c e.body) r.hash)

  pub read_from-Chained :
      (i : ℕ) (h : H) (rows : List (Row c)) (events : List (Event H P))
      → read_from c i h rows ≡ ok events
      → Chained i h rows events
  unfolding read_from
  read_from-Chained i h [] [] p = done
  read_from-Chained i h [] (e ∷ events) p = absurd (ground arith)
  read_from-Chained i h (r ∷ rows) events p =
      let (e, head, more) = >>=-eq-ok (read_row c i h r) _ p in
      let (rest, tail, whole) = >>=-eq-ok (read_from c (i + 1) r.hash rows) _ more in
      let held = read_row-Holds i h r e head in
      subst (Chained i h (r ∷ rows)) (ok-injective whole) (
        link held (
          subst (λ k. Chained (i + 1) k rows rest) held.recorded
            (read_from-Chained (i + 1) r.hash rows rest tail)))

  pub Chained-read_from :
      {i : ℕ} {h : H} {rows : List (Row c)} {events : List (Event H P)}
      → Chained i h rows events
      → read_from c i h rows ≡ ok events
  unfolding read_from
  Chained-read_from done = refl
  Chained-read_from (link {i} {h} {r} {rows} {e} {events} held more) =
      rw (Holds-read_row i h r e held, held.recorded, Chained-read_from more)

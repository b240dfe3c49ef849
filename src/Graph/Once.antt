-- ===== src/Graph/Once.antt =====
-- Kahn's loop in `_build` of graph.py visits no resource twice.
use open_tapeout.Prelude.{
  ℕ, zero, suc, ◌+◌, ◌-◌, ◌==◌, ==_iff, ◌≤◌, ◌≡◌, sym, ap, ◌∙◌, arith, subst, String, Bool-cases,
  Option-cases, inl, inr, List, [], ◌∷◌, ◌++◌, length, str_eq, eq_iff, if◌then◌else◌, Dict, lookup,
  keys, keep, Distinct,
}
use open_tapeout.Result.{ok, >>=-eq-ok, ok-injective}
use open_tapeout.Records.{Resource, Platform}
use open_tapeout.Graph.{
  Links, Build, update, current_of, reasons_of, notify, visit, kahn, start, link_resources,
  no_links,
}
use open_tapeout.Graph.Counts.{
  List-cases, count, count-append, count-sorted, count-keep, true_of_count, count-keys,
}
use open_tapeout.Graph.Received.{received, received-append, IsBounded, link_resources-IsBounded}

-- Between two rounds and within one, where `pending` are the children still to be notified: what is
-- left of an indegree, that visited and queued resources are all different, and that they wait for
-- nothing.
record IsOnce (t : Links) (pending : List String) (s : Build) : Type 0 where
  degrees :
      (k : String) → s.indegree k + received t.children k s.order ≡ t.indegree k + count k pending
  once : (k : String) → count k (s.order ++ s.queue) ≤ 1
  ready : (k : String) → 1 ≤ count k (s.order ++ s.queue) → s.indegree k ≡ 0

once-order :
    (t : Links) (pending : List String) (s : Build)
    → IsOnce t pending s
    → (k : String) → count k s.order ≤ 1
once-order t pending s i k = ground (arith, count-append k s.order s.queue, i.once k)

-- A child that is still to be notified waits, so it is neither visited nor queued.
pending-waits :
    (t : Links) (child : String) (rest : List String) (s : Build)
    → IsBounded t
    → IsOnce t (child ∷ rest) s
    → (1 ≤ s.indegree child) × (count child (s.order ++ s.queue) ≡ 0)
unfolding count
pending-waits t child rest s bounded i =
    let below = bounded s.order (once-order t (child ∷ rest) s i) child in
    let waits : 1 ≤ s.indegree child = ground (arith, i.degrees child, below, eq_iff child child) in
    (waits, ground (arith, waits, i.ready child))

count-queue :
    (k child : String) (left : ℕ) (order queue : List String)
    → count k (order ++ (if left == 0 then queue ++ child ∷ [] else queue))
      ≡ count k (order ++ queue) + (if left == 0 then (if str_eq child k then 1 else 0) else 0)
unfolding count
count-queue k child left order queue =
    let both = count-append k order queue in
    elim (Bool-cases (left == 0)) [
      | inl e ↦ rw e (
          ground (
            arith,
            both,
            count-append k order (queue ++ child ∷ []),
            count-append k queue (child ∷ []),
          ))
      | inr e ↦ rw e (omega arith)
    ]

notify_one-IsOnce :
    (t : Links) (child : String) (rest : List String) (s : Build)
    → IsBounded t
    → IsOnce t (child ∷ rest) s
    → IsOnce t rest (record s {
      indegree = update s.indegree child (s.indegree child - 1);
      queue = if s.indegree child - 1 == 0 then s.queue ++ child ∷ [] else s.queue;
    })
unfolding update count
notify_one-IsOnce t child rest s bounded i =
    let (waits, fresh) = pending-waits t child rest s bounded i in
    let left = s.indegree child - 1 in
    let counted = λ (k : String). count-queue k child left s.order s.queue in
    record {
      degrees = λ k. elim (Bool-cases (str_eq child k)) [
        | inl same ↦
            let e = (eq_iff child k).0 same in rw same (ground (arith, i.degrees k, e, waits))
        | inr other ↦ rw other (ground (arith, i.degrees k, other))
      ];
      once = λ k. elim (Bool-cases (str_eq child k)) [
        | inl same ↦
            let new : count k (s.order ++ s.queue) ≡ 0 =
              ap (λ j. count j (s.order ++ s.queue)) (sym ((eq_iff child k).0 same)) ∙ fresh in
            ground (arith, counted k, new)
        | inr other ↦ ground (arith, counted k, i.once k)
      ];
      ready = λ k h. elim (Bool-cases (str_eq child k)) [
        | inl same ↦
            let new : count k (s.order ++ s.queue) ≡ 0 =
              ap (λ j. count j (s.order ++ s.queue)) (sym ((eq_iff child k).0 same)) ∙ fresh in
            rw same (elim (Bool-cases (left == 0)) [
              | inl last ↦ (==_iff left 0).0 last
              | inr more ↦ absurd (ground (arith, counted k, new))
            ])
        | inr other ↦ rw other (i.ready k (ground (arith, counted k)))
      ];
    }

notify-IsOnce :
    (t : Links) (pending : List String) (s : Build)
    → IsBounded t
    → IsOnce t pending s
    → IsOnce t [] (notify pending s)
unfolding notify
notify-IsOnce t [] s bounded i = i
notify-IsOnce t (child ∷ rest) s bounded i =
    notify-IsOnce t rest _ bounded (notify_one-IsOnce t child rest s bounded i)

visit-IsOnce :
    (p : Platform) (resources : Dict Resource) (t : Links) (key : String) (rest : List String)
    (s s' : Build)
    → IsBounded t
    → IsOnce t [] s
    → s.queue ≡ key ∷ rest
    → visit p resources t.children key rest s ≡ ok s'
    → IsOnce t [] s'
unfolding visit count
visit-IsOnce p resources t key rest s s' bounded i e h =
    elim (Option-cases (lookup key resources)) [
      | inl missing ↦ let bad = rw (missing, visit) at h in cc
      | inr (r, found) ↦
          let (current, _, h1) =
            >>=-eq-ok (current_of s.fingerprints r.depends_on) _ (rw (found, visit) at h) in
          let (reasons, _, h2) = >>=-eq-ok (reasons_of r.built_from s.stale current) _ h1 in
          let moved = λ (k : String).
            count-append k (s.order ++ key ∷ []) rest
            ∙ ap (λ n. n + count k rest) (count-append k s.order (key ∷ [])) in
          let before = λ (k : String).
            count-append k s.order s.queue ∙ ap (λ q. count k s.order + count k q) e in
          subst (IsOnce t []) (ok-injective h2) (
            notify-IsOnce t (t.children key) _ bounded (record {
              degrees = λ k. ground (arith, i.degrees k, received-append t.children k key s.order);
              once = λ k. ground (arith, moved k, before k, i.once k);
              ready = λ k n. i.ready k (ground (arith, moved k, before k));
            }))
    ]

kahn-IsOnce :
    (p : Platform) (resources : Dict Resource) (t : Links) (fuel : ℕ) (s s' : Build)
    → IsBounded t
    → IsOnce t [] s
    → kahn p resources t.children fuel s ≡ ok s'
    → IsOnce t [] s'
unfolding kahn
kahn-IsOnce p resources t zero s s' bounded i h = elim (List-cases s.queue) [
  | inl e ↦ subst (IsOnce t []) (ok-injective (rw (e, kahn) at h)) i
  | inr (key, rest, e) ↦ let bad = rw (e, kahn) at h in cc
]
kahn-IsOnce p resources t (suc fuel) s s' bounded i h = elim (List-cases s.queue) [
  | inl e ↦ subst (IsOnce t []) (ok-injective (rw (e, kahn) at h)) i
  | inr (key, rest, e) ↦
      let (u, visited, h1) =
        >>=-eq-ok (visit p resources t.children key rest s) _ (rw (e, kahn) at h) in
      kahn-IsOnce p resources t fuel u s' bounded
        (visit-IsOnce p resources t key rest s u bounded i e visited) h1
]

start-IsOnce :
    (resources : Dict Resource) (t : Links) → Distinct resources → IsOnce t [] (start resources t)
unfolding start received count
start-IsOnce resources t distinct =
    let free = λ (k : String). t.indegree k == 0 in
    record {
      degrees = λ k. omega arith;
      once = λ k.
          let (absent, present) = count-keys k resources distinct in
          let below = count-keep free k (keys resources) in
          elim (Option-cases (lookup k resources)) [
            | inl missing ↦
                ground (arith, count-sorted k (keep free (keys resources)), below, absent missing)
            | inr (r, found) ↦
                ground (arith, count-sorted k (keep free (keys resources)), below, present r found)
          ];
      ready = λ k h. (==_iff (t.indegree k) 0).0 (
          true_of_count free k (keys resources)
            (ground (arith, count-sorted k (keep free (keys resources)))));
    }

-- The order of Kahn's loop has no resource twice.
pub kahn-once :
    (p : Platform) (resources : Dict Resource) (t : Links) (s : Build)
    → Distinct resources
    → link_resources resources resources no_links ≡ ok t
    → kahn p resources t.children (length resources) (start resources t) ≡ ok s
    → (k : String) → count k s.order ≤ 1
kahn-once p resources t s distinct linked looped =
    let bounded = link_resources-IsBounded resources t distinct linked in
    once-order t [] s (
      kahn-IsOnce p resources t (length resources) (start resources t) s bounded
        (start-IsOnce resources t distinct) looped)

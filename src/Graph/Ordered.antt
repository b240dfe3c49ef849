-- ===== src/Graph/Ordered.antt =====
-- The order in which `Graph._build` of graph.py visits the resources.
use open_tapeout.Prelude.{
  ℕ, Distinct, keys, ◌≤◌, if◌then◌else◌, zero, suc, String, true, ◌==◌, ==_iff, some, Option-cases,
  List, [], ◌∷◌, ◌++◌, ◌≡◌, sym, ap, ◌∙◌, inl, inr, arith, subst, Dict, lookup, insert,
  lookup-insert, has, contains, contains-append, length, str_eq, eq_iff, Bool-cases,
}
use open_tapeout.Result.{ok, >>=-eq-ok, ok-injective, ensure-eq-ok}
use open_tapeout.Records.{Resource, Platform}
use open_tapeout.Graph.Counts.{
  List-cases, count, count-keys, count_of_has, count-absent, count-equal, length-keys,
}
use open_tapeout.Graph.Once.{kahn-once}
use open_tapeout.Graph.{
  Graph, Build, Links, current_of, reasons_of, notify, visit, kahn, start, build, link_resources,
  no_links,
}

-- An order in which every resource stands behind all of its dependencies.
pub data IsTopological (resources : Dict Resource) : List String → Type 0 where
  nothing : IsTopological resources []
  next :
      (order : List String) (key : String) (r : Resource)
      → IsTopological resources order
      → lookup key resources ≡ some r
      → ((d : String) → contains d r.depends_on ≡ true → contains d order ≡ true)
      → IsTopological resources (order ++ key ∷ [])

-- What the loop keeps: the order so far, and that only what was visited has a fingerprint.
record IsVisited (resources : Dict Resource) (s : Build) : Type 0 where
  pub topological : IsTopological resources s.order
  pub visited : (d : String) → has d s.fingerprints ≡ true → contains d s.order ≡ true

notify-IsVisited :
    (resources : Dict Resource) (children : List String) (s : Build)
    → IsVisited resources s
    → IsVisited resources (notify children s)
unfolding notify
notify-IsVisited resources [] s v = v
notify-IsVisited resources (child ∷ rest) s v =
    notify-IsVisited resources rest _ (record { topological = v.topological; visited = v.visited })

-- Only visited dependencies have a fingerprint to read.
current_of-visited :
    (fingerprints : Dict String) (deps : List String) (current : Dict String)
    → current_of fingerprints deps ≡ ok current
    → (d : String) → contains d deps ≡ true
    → has d fingerprints ≡ true
unfolding current_of contains
current_of-visited fingerprints [] current h d m = cc
current_of-visited fingerprints (x ∷ deps) current h d m =
    elim (Option-cases (lookup x fingerprints)) [
      | inl missing ↦ let bad = rw (missing, current_of) at h in cc
      | inr (f, found) ↦
          let (rest, e, _) =
            >>=-eq-ok (current_of fingerprints deps) _ (rw (found, current_of) at h) in
          elim (Bool-cases (str_eq x d)) [
            | inl same ↦ ground (arith, found, (eq_iff x d).0 same)
            | inr other ↦ current_of-visited fingerprints deps rest e d (rw other at m)
          ]
    ]

visited-insert :
    (s : Build) (key fingerprint : String)
    → ((d : String) → has d s.fingerprints ≡ true → contains d s.order ≡ true)
    → (d : String) → has d (insert key fingerprint s.fingerprints) ≡ true
    → contains d (s.order ++ key ∷ []) ≡ true
unfolding contains
visited-insert s key fingerprint v d m =
    contains-append d s.order (key ∷ []) ∙ elim (Bool-cases (str_eq key d)) [
      | inl same ↦ ground (arith, same)
      | inr other ↦
          let old : has d s.fingerprints ≡ true =
            ground (arith, m, other, lookup-insert key d fingerprint s.fingerprints) in
          ground (arith, v d old)
    ]

visit-IsVisited :
    (p : Platform) (resources : Dict Resource) (children : String → List String) (key : String)
    (rest : List String) (s s' : Build)
    → IsVisited resources s
    → visit p resources children key rest s ≡ ok s'
    → IsVisited resources s'
unfolding visit
visit-IsVisited p resources children key rest s s' v h =
    elim (Option-cases (lookup key resources)) [
      | inl missing ↦ let bad = rw (missing, visit) at h in cc
      | inr (r, found) ↦
          let (current, read, h1) =
            >>=-eq-ok (current_of s.fingerprints r.depends_on) _ (rw (found, visit) at h) in
          let (reasons, _, h2) = >>=-eq-ok (reasons_of r.built_from s.stale current) _ h1 in
          subst (IsVisited resources) (ok-injective h2) (
            notify-IsVisited resources (children key) _ (record {
              topological = next s.order key r v.topological found (λ d m.
                  v.visited d (current_of-visited s.fingerprints r.depends_on current read d m));
              visited = visited-insert s key _ v.visited;
            }))
    ]

start-IsVisited : (resources : Dict Resource) (t : Links) → IsVisited resources (start resources t)
unfolding start lookup
start-IsVisited resources t = record { topological = nothing; visited = λ d m. cc }

kahn-IsVisited :
    (p : Platform) (resources : Dict Resource) (children : String → List String) (fuel : ℕ)
    (s s' : Build)
    → IsVisited resources s
    → kahn p resources children fuel s ≡ ok s'
    → IsVisited resources s'
unfolding kahn
kahn-IsVisited p resources children zero s s' v h = elim (List-cases s.queue) [
  | inl e ↦ subst (IsVisited resources) (ok-injective (rw (e, kahn) at h)) v
  | inr (key, rest, e) ↦ let bad = rw (e, kahn) at h in cc
]
kahn-IsVisited p resources children (suc fuel) s s' v h = elim (List-cases s.queue) [
  | inl e ↦ subst (IsVisited resources) (ok-injective (rw (e, kahn) at h)) v
  | inr (key, rest, e) ↦
      let (t, visited, h1) =
        >>=-eq-ok (visit p resources children key rest s) _ (rw (e, kahn) at h) in
      kahn-IsVisited p resources children fuel t s'
        (visit-IsVisited p resources children key rest s t v visited) h1
]

topological-registered :
    (resources : Dict Resource) (order : List String)
    → IsTopological resources order
    → (k : String) → contains k order ≡ true
    → (r : Resource) × (lookup k resources ≡ some r)
unfolding contains
topological-registered resources [] nothing k h = cc
topological-registered resources _ (next order key r before found behind) k h =
    elim (Bool-cases (contains k order)) [
      | inl old ↦ topological-registered resources order before k old
      | inr new ↦
          let this : str_eq key k ≡ true =
            ground (arith, contains-append k order (key ∷ []), h, new) in
          (r, ap (λ j. lookup j resources) (sym ((eq_iff key k).0 this)) ∙ found)
    ]

registered-once :
    (resources : Dict Resource) (order : List String)
    → Distinct resources
    → IsTopological resources order
    → ((k : String) → count k order ≤ 1)
    → (k : String) → count k order ≤ count k (keys resources)
registered-once resources order distinct topological once k =
    let (_, present) = count-keys k resources distinct in
    elim (Bool-cases (contains k order)) [
      | inl among ↦
          let (r, found) = topological-registered resources order topological k among in
          ground (arith, once k, present r found)
      | inr absent ↦ ground (arith, count-absent k order absent)
    ]

-- A graph that `_build` accepts is in dependency order, if a key stands once in the dictionary of the
-- resources: each resource is visited, exactly once, nothing else is visited, and what is visited
-- stands behind every one of its dependencies. (An accepted graph has thus no cycle.)
pub build-IsTopological :
    (p : Platform) (resources : Dict Resource) (g : Graph)
    → Distinct resources
    → build p resources ≡ ok g
    → IsTopological resources g.order
      × ((k : String) → count k g.order ≡ (if has k resources then 1 else 0))
      × (length g.order ≡ length resources)
unfolding build
build-IsTopological p resources g distinct h =
    let (t, linked, h1) = >>=-eq-ok (link_resources resources resources no_links) _ h in
    let (s, looped, h2) =
      >>=-eq-ok (kahn p resources t.children (length resources) (start resources t)) _ h1 in
    let (whole, h3) = ensure-eq-ok (length s.order == length resources) _ _ h2 in
    let v =
      kahn-IsVisited p resources t.children (length resources) (start resources t) s
        (start-IsVisited resources t) looped in
    let size = (==_iff (length s.order) (length resources)).0 whole in
    let below =
      registered-once resources s.order distinct v.topological
        (kahn-once p resources t s distinct linked looped) in
    let equal = count-equal s.order (keys resources) below (size ∙ sym (length-keys resources)) in
    subst
      (λ (order : List String).
        IsTopological resources order
        × ((k : String) → count k order ≡ (if has k resources then 1 else 0))
        × (length order ≡ length resources))
      (ap (λ (x : Graph). x.order) (ok-injective h3))
      (v.topological, λ k. equal k ∙ count_of_has k resources distinct, size)

-- ===== src/Graph/Linked.antt =====
-- What `_build` of graph.py records of the dependencies: `children` names a resource once for each
-- time that it depends on another, and `indegree` is the number of its dependencies.
use open_tapeout.Prelude.{
  ◌+◌, ◌≡◌, sym, ap, ◌∙◌, arith, String, Bool-cases, inl, inr, none, some, List, [], ◌∷◌, length,
  str_eq, eq_iff, if◌then◌else◌, Dict, lookup, Distinct, has, ◌==◌, to_set, eq_of_some,
}
use open_tapeout.Result.{ok, >>=-eq-ok, ensure-eq-ok, ok-injective}
use open_tapeout.Util.{identifier}
use open_tapeout.Records.{Resource}
use open_tapeout.Graph.{Links, update, link_dependencies, link_resources}
use open_tapeout.Graph.Counts.{count, count-append}

link_dependencies-count :
    (resources : Dict Resource) (key : String) (deps : List String) (t t' : Links)
    → link_dependencies resources key deps t ≡ ok t'
    → ((j : String) → t'.indegree j ≡ t.indegree j)
      × ((d k : String)
          → count k (t'.children d)
            ≡ count k (t.children d) + (if str_eq key k then count d deps else 0))
unfolding link_dependencies count update
link_dependencies-count resources key [] t t' h =
    let same = ok-injective h in
    (
      λ j. ap (λ (x : Links). x.indegree j) (sym same),
      λ d k. ap (λ (x : Links). count k (x.children d)) (sym same) ∙ ground arith,
    )
link_dependencies-count resources key (x ∷ deps) t t' h =
    let (_, h1) = ensure-eq-ok (has x resources) _ _ h in
    let (degrees, counts) = link_dependencies-count resources key deps _ t' h1 in
    (
      degrees,
      λ d k.
          let more = count-append k (t.children x) (key ∷ []) in
          let later = counts d k in
          elim (Bool-cases (str_eq x d)) [
            | inl same ↦ let e = (eq_iff x d).0 same in ground (arith, more, later, e)
            | inr other ↦ ground (arith, later)
          ],
    )

-- A key that is not among the resources is no child and keeps its indegree.
pub link_resources-missing :
    (resources rest : Dict Resource) (t t' : Links) (k : String)
    → link_resources resources rest t ≡ ok t'
    → lookup k rest ≡ none
    → (t'.indegree k ≡ t.indegree k)
      × ((d : String) → count k (t'.children d) ≡ count k (t.children d))
unfolding link_resources update lookup
link_resources-missing resources [] t t' k h m =
    let same = ok-injective h in
    (
      ap (λ (x : Links). x.indegree k) (sym same),
      λ d. ap (λ (x : Links). count k (x.children d)) (sym same),
    )
link_resources-missing resources ((key, r) ∷ rest) t t' k h m =
    let (_, _, h1) = >>=-eq-ok (identifier key) _ h in
    let (_, h2) = ensure-eq-ok (length r.depends_on == length (to_set r.depends_on)) _ _ h1 in
    let (u, linked, h3) = >>=-eq-ok (link_dependencies resources key r.depends_on _) _ h2 in
    let (degrees, counts) = link_dependencies-count resources key r.depends_on _ u linked in
    elim (Bool-cases (str_eq key k)) [
      | inl same ↦ absurd (ground arith)
      | inr other ↦
          let (degree, children) = link_resources-missing resources rest u t' k h3 (ground arith) in
          (ground (arith, degree, degrees k), λ d. ground (arith, children d, counts d k))
    ]

-- A resource has its number of dependencies as indegree, and is a child for each of them.
pub link_resources-found :
    (resources rest : Dict Resource) (t t' : Links) (k : String) (r : Resource)
    → Distinct rest
    → link_resources resources rest t ≡ ok t'
    → lookup k rest ≡ some r
    → (t'.indegree k ≡ length r.depends_on)
      × ((d : String) → count k (t'.children d) ≡ count k (t.children d) + count d r.depends_on)
unfolding link_resources update lookup
link_resources-found resources [] t t' k r distinct h m = cc
link_resources-found resources ((key, x) ∷ rest) t t' k r distinct h m =
    let (_, _, h1) = >>=-eq-ok (identifier key) _ h in
    let (_, h2) = ensure-eq-ok (length x.depends_on == length (to_set x.depends_on)) _ _ h1 in
    let (u, linked, h3) = >>=-eq-ok (link_dependencies resources key x.depends_on _) _ h2 in
    let (degrees, counts) = link_dependencies-count resources key x.depends_on _ u linked in
    elim (Bool-cases (str_eq key k)) [
      | inl same ↦
          let e = (eq_iff key k).0 same in
          let this : x.depends_on ≡ r.depends_on =
            ap (λ (y : Resource). y.depends_on) (eq_of_some (rw same at m)) in
          let (degree, children) =
            link_resources-missing resources rest u t' k h3
              (ap (λ j. lookup j rest) (sym e) ∙ distinct.0) in
          (
            ground (arith, degree, degrees k, ap length this),
            λ d. ground (arith, children d, counts d k, ap (count d) this),
          )
      | inr other ↦
          let (degree, children) =
            link_resources-found resources rest u t' k r distinct.1 h3 (rw other at m) in
          (degree, λ d. ground (arith, children d, counts d k))
    ]

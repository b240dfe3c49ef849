-- ===== src/Graph/Received.antt =====
-- How often the visited resources of Kahn's loop in graph.py name a child: at most its indegree.
use open_tapeout.Prelude.{
  ℕ, ◌+◌, ◌≤◌, ◌≡◌, refl, ◌∙◌, arith, String, Option-cases, inl, inr, List, [], ◌∷◌, ◌++◌, length,
  eq_iff, Dict, lookup, Distinct,
}
use open_tapeout.Result.{ok}
use open_tapeout.Records.{Resource}
use open_tapeout.Graph.{Links, link_resources, no_links}
use open_tapeout.Graph.Counts.{count}
use open_tapeout.Graph.Linked.{link_resources-missing, link_resources-found}

-- How often the children of the visited resources name `k`.
unfoldable pub received : (String → List String) → String → List String → ℕ
unfolding count
received children k [] = 0
received children k (v ∷ visited) = count k (children v) + received children k visited

pub received-append :
    (children : String → List String) (k key : String) (visited : List String)
    → received children k (visited ++ key ∷ [])
      ≡ received children k visited + count k (children key)
unfolding received
received-append children k key [] = omega arith
received-append children k key (v ∷ visited) =
    ground (arith, received-append children k key visited)

-- How many elements of `deps` the visited resources are.
unfoldable hits : List String → List String → ℕ
unfolding count
hits deps [] = 0
hits deps (v ∷ visited) = count v deps + hits deps visited

hits-nil : (visited : List String) → hits [] visited ≡ 0
unfolding hits count
hits-nil [] = refl
hits-nil (v ∷ visited) = ground (arith, hits-nil visited)

hits-cons :
    (x : String) (deps visited : List String)
    → hits (x ∷ deps) visited ≡ count x visited + hits deps visited
unfolding hits count
hits-cons x deps [] = omega arith
hits-cons x deps (v ∷ visited) = ground (arith, hits-cons x deps visited, eq_iff x v, eq_iff v x)

-- Visited resources that are all different hit each dependency at most once.
hits-length :
    (deps visited : List String)
    → ((v : String) → count v visited ≤ 1)
    → hits deps visited ≤ length deps
hits-length [] visited once = ground (arith, hits-nil visited)
hits-length (x ∷ deps) visited once =
    ground (arith, hits-cons x deps visited, once x, hits-length deps visited once)

received-none :
    (children : String → List String) (k : String) (visited : List String)
    → ((d : String) → count k (children d) ≡ 0)
    → received children k visited ≡ 0
unfolding received
received-none children k [] none_named = refl
received-none children k (v ∷ visited) none_named =
    ground (arith, none_named v, received-none children k visited none_named)

received-hits :
    (children : String → List String) (k : String) (deps visited : List String)
    → ((d : String) → count k (children d) ≡ count d deps)
    → received children k visited ≡ hits deps visited
unfolding received hits
received-hits children k deps [] each = refl
received-hits children k deps (v ∷ visited) each =
    ground (arith, each v, received-hits children k deps visited each)

-- What the loop relies on: different visited resources name no child more often than its indegree.
abbrev pub IsBounded : Links → Type 0
IsBounded t =
    (visited : List String)
    → ((v : String) → count v visited ≤ 1)
    → (k : String) → received t.children k visited ≤ t.indegree k

pub link_resources-IsBounded :
    (resources : Dict Resource) (t : Links)
    → Distinct resources
    → link_resources resources resources no_links ≡ ok t
    → IsBounded t
unfolding count
link_resources-IsBounded resources t distinct h visited once k =
    elim (Option-cases (lookup k resources)) [
      | inl missing ↦
          let (_, named) = link_resources-missing resources resources no_links t k h missing in
          ground (arith, received-none t.children k visited named)
      | inr (r, found) ↦
          let (degree, named) =
            link_resources-found resources resources no_links t k r distinct h found in
          let each : (d : String) → count k (t.children d) ≡ count d r.depends_on =
            λ d. named d ∙ omega arith in
          ground (
            arith,
            degree,
            received-hits t.children k r.depends_on visited each,
            hits-length r.depends_on visited once,
          )
    ]

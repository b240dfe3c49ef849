-- ===== src/Graph.antt =====
-- src/opentapeout/graph.py: `Graph._build` and `closure`.
--
-- `children` and `indegree` have a key for every resource, so they are functions here. Kahn's loop
-- has one round of fuel for each resource.
pub mod Drift
pub mod Unchanged
pub mod Impact
pub mod Kinds
pub mod Reach
pub mod Fuel
pub mod Counts
pub mod Linked
pub mod Received
pub mod Once
pub mod Ordered
use open_tapeout.Prelude.{
  ℕ, zero, suc, ◌+◌, ◌-◌, String, Bool, true, false, not, Option, none, some, List, [], ◌∷◌, ◌++◌,
  if◌then◌else◌, ◌==◌, length, is_empty, str_eq, Dict, lookup, insert, keys, has, contains, to_set,
  sorted, reverse, keep,
}
use open_tapeout.Result.{tapeout, key_error, out_of_fuel, Result, ok, err, ensure, ◌>>=◌, ◌>>◌}
use open_tapeout.Util.{identifier}
use open_tapeout.Records.{Resource, Platform}

-- `m[k] = v` for a dictionary that has every key
unfoldable pub update {ℓ} : {V : Type ℓ} → (String → V) → String → V → String → V
update f k v j = if str_eq k j then v else f j

-- The dictionaries `children` and `indegree`.
pub record Links : Type 0 where
  pub children : String → List String
  pub indegree : String → ℕ

-- The fields that the `while` loop of `_build` changes, and its queue.
pub record Build : Type 0 where
  pub order : List String
  pub fingerprints : Dict String
  pub stale : Dict (List String)
  pub indegree : String → ℕ
  pub queue : List String

pub record Graph : Type 0 where
  pub resources : Dict Resource
  pub fingerprints : Dict String
  pub stale : Dict (List String)
  pub order : List String
  pub children : String → List String

-- `for dependency in deps`
unfoldable pub link_dependencies : Dict Resource → String → List String → Links → Result Links
unfolding update
link_dependencies resources key [] t = ok t
link_dependencies resources key (d ∷ deps) t = do
  ensure (has d resources) "Missing dependency"
  link_dependencies resources key deps
      (record t { children = update t.children d (t.children d ++ key ∷ []) })

-- `for key, resource in self.resources.items()`
unfoldable pub link_resources : Dict Resource → Dict Resource → Links → Result Links
unfolding link_dependencies
link_resources resources [] t = ok t
link_resources resources ((key, resource) ∷ rest) t = do
  _ ← identifier key
  let deps = resource.depends_on
  ensure (length deps == length (to_set deps)) "Duplicate dependencies"
  t' ←
      link_dependencies resources key deps
        (record t { indegree = update t.indegree key (length deps) })
  link_resources resources rest t'

-- `{dep: self.fingerprints[dep] for dep in depends_on}`
unfoldable pub current_of : Dict String → List String → Result (Dict String)
current_of fingerprints [] = ok []
current_of fingerprints (d ∷ deps) = elim (lookup d fingerprints) [
  | none ↦ err key_error
  | some f ↦ do rest ← current_of fingerprints deps; ok ((d, f) ∷ rest)
]

-- `resource["built_from"].get(dependency) != current[dependency]`
abbrev pub differs : Option String → String → Bool
differs none f = true
differs (some g) f = not (str_eq g f)

-- The reasons why a resource is stale, over the entries of `current`: one for an input that it was
-- not built from, one for an input that is stale.
unfoldable pub reasons_of : Dict String → Dict (List String) → Dict String → Result (List String)
reasons_of built_from stale [] = ok []
reasons_of built_from stale ((d, f) ∷ current) = elim (lookup d stale) [
  | none ↦ err key_error
  | some inherited ↦ do
    rest ← reasons_of built_from stale current
    let upstream = if is_empty inherited then rest else "depends on obsolete resource" ∷ rest
    ok (
        if differs (lookup d built_from) f
        then "was built against a different version" ∷ upstream
        else upstream)
]

-- `for child in children[key]`. A child is decremented once for each of its dependencies, so its
-- indegree is not 0 here.
unfoldable pub notify : List String → Build → Build
unfolding update
notify [] s = s
notify (child ∷ rest) s =
    let left = s.indegree child - 1 in
    notify rest (record s {
      indegree = update s.indegree child left;
      queue = if left == 0 then s.queue ++ child ∷ [] else s.queue;
    })

-- One round of the loop, after `key` left the queue.
unfoldable pub visit :
    Platform → Dict Resource → (String → List String) → String → List String → Build → Result Build
unfolding current_of reasons_of notify
visit p resources children key rest s = elim (lookup key resources) [
  | none ↦ err key_error
  | some resource ↦ do
    current ← current_of s.fingerprints resource.depends_on
    reasons ← reasons_of resource.built_from s.stale current
    ok (
        notify (children key) (record s {
          order = s.order ++ key ∷ [];
          fingerprints = insert key (p.digest_node resource current) s.fingerprints;
          stale = insert key reasons s.stale;
          queue = rest;
        }))
]

unfoldable pub kahn : Platform → Dict Resource → (String → List String) → ℕ → Build → Result Build
kahn p resources children zero s = elim s.queue [ [] ↦ ok s | _ ∷ _ ↦ err out_of_fuel ]
kahn p resources children (suc fuel) s = elim s.queue [
  | [] ↦ ok s
  | key ∷ rest ↦ do s' ← visit p resources children key rest s; kahn p resources children fuel s'
]

abbrev pub no_links : Links
no_links = record { children = λ _. []; indegree = λ _. 0 }

-- What the loop starts from: the keys with no dependencies, sorted, are queued.
unfoldable pub start : Dict Resource → Links → Build
start resources t = record {
  order = [];
  fingerprints = [];
  stale = [];
  indegree = t.indegree;
  queue = sorted (keep (λ k. t.indegree k == 0) (keys resources));
}

unfoldable pub build : Platform → Dict Resource → Result Graph
unfolding link_resources visit kahn start
build p resources = do
  t ← link_resources resources resources no_links
  s ← kahn p resources t.children (length resources) (start resources t)
  ensure (length s.order == length resources) "Dependency cycle detected"
  ok (record {
    resources = resources;
    fingerprints = s.fingerprints;
    stale = s.stale;
    order = s.order;
    children = t.children;
  })

-- The dependencies that the loop of `closure` can still push.
unfoldable pub edges_left : Dict Resource → List String → ℕ
edges_left [] selected = 0
edges_left ((k, r) ∷ rest) selected =
    (if contains k selected then 0 else length r.depends_on) + edges_left rest selected

-- The loop of `closure`: the head of the list is the end of Python's stack.
unfoldable pub select : Dict Resource → ℕ → List String → List String → Result (List String)
select resources fuel [] selected = ok selected
select resources zero (key ∷ rest) selected = err out_of_fuel
select resources (suc fuel) (key ∷ rest) selected = elim (lookup key resources) [
  | none ↦ err (tapeout "Unknown resource")
  | some resource ↦ elim (contains key selected) [
    | true ↦ select resources fuel rest selected
    | false ↦ select resources fuel (reverse resource.depends_on ++ rest) (selected ++ key ∷ [])
  ]
]

unfoldable pub select_fuel : Dict Resource → List String → ℕ
unfolding edges_left
select_fuel resources roots = length roots + edges_left resources []

unfoldable pub closure : Graph → List String → Result (Dict String)
unfolding current_of select select_fuel
closure g roots = do
  selected ← select g.resources (select_fuel g.resources roots) (reverse roots) []
  current_of g.fingerprints (sorted selected)

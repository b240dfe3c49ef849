-- ===== src/Planning.antt =====
-- `affected_paths` of src/opentapeout/planning.py: what a change affects, each with a path from it.
pub mod Explained
use open_tapeout.Prelude.{
  ℕ, zero, suc, String, Option, none, some, List, [], ◌∷◌, ◌++◌, Dict, has, lookup, insert, sorted,
  to_set, length, if◌then◌else◌,
}
use open_tapeout.Result.{out_of_fuel, key_error, Result, ok, err, ensure, ◌>>=◌, ◌>>◌}
use open_tapeout.Graph.{Graph}

-- The dictionary `paths` and the queue.
pub record Paths : Type 0 where
  pub paths : Dict (List String)
  pub queue : List String

-- `for key in sorted(set(changes))`
unfoldable pub add_roots : Graph → List String → Paths → Result Paths
add_roots g [] s = ok s
add_roots g (key ∷ rest) s = do
  ensure (has key g.resources) "Unknown changed resource"
  add_roots g rest (record { paths = insert key (key ∷ []) s.paths; queue = s.queue ++ key ∷ [] })

-- `for child in graph.children[parent]`, behind `paths[parent]`
unfoldable pub explain : List String → List String → Paths → Paths
explain path [] s = s
explain path (child ∷ rest) s = explain path rest (
    if has child s.paths then s else record {
      paths = insert child (path ++ child ∷ []) s.paths;
      queue = s.queue ++ child ∷ [];
    })

-- `while queue`, a round for each resource
unfoldable pub explain_all : Graph → ℕ → Paths → Result (Dict (List String))
unfolding explain
explain_all g zero s = elim s.queue [ [] ↦ ok s.paths | _ ∷ _ ↦ err out_of_fuel ]
explain_all g (suc fuel) s = elim s.queue [
  | [] ↦ ok s.paths
  | parent ∷ rest ↦ elim (lookup parent s.paths) [
    | none ↦ err key_error
    | some path ↦ explain_all g fuel (explain path (g.children parent) (record s { queue = rest }))
  ]
]

unfoldable pub affected_paths : Graph → List String → Result (Dict (List String))
unfolding add_roots explain_all
affected_paths g changes = do
  s ← add_roots g (sorted (to_set changes)) (record { paths = []; queue = [] })
  explain_all g (length g.resources) s

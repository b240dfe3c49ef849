-- ===== src/Graph/Fuel.antt =====
-- `Graph.closure` of graph.py ends: its loop has enough fuel.
use mathlib.Core.List.{reverse-cons}
use open_tapeout.Prelude.{
  ℕ, zero, suc, ◌+◌, ◌≤◌, String, false, some, Option-cases, Bool-cases, List, [], ◌∷◌, ◌++◌, ◌≡◌,
  ◌≢◌, refl, sym, ap, ◌∙◌, inl, inr, arith, reverse, Dict, lookup, contains, contains-append,
  length, length-append, str_eq, eq_iff, eq_of_some, sorted,
}
use open_tapeout.Result.{out_of_fuel, err, >>=-neq-err}
use open_tapeout.Records.{Resource}
use open_tapeout.Graph.{Graph, select, select_fuel, edges_left, current_of, closure}

length-reverse : (xs : List String) → length (reverse xs) ≡ length xs
length-reverse [] = refl
length-reverse (x ∷ xs) =
    ap length (reverse-cons x xs)
    ∙ length-append (reverse xs) (x ∷ [])
    ∙ omega (arith, length-reverse xs)

-- Selecting one more key leaves no more edges, and fewer by those of the key.
edges_left_mono :
    (resources : Dict Resource) (selected : List String) (key : String)
    → edges_left resources (selected ++ key ∷ []) ≤ edges_left resources selected
unfolding edges_left contains
edges_left_mono [] selected key = omega arith
edges_left_mono ((k, r) ∷ rest) selected key =
    ground (arith, edges_left_mono rest selected key, contains-append k selected (key ∷ []))

edges_left-push :
    (resources : Dict Resource) (selected : List String) (key : String) (r : Resource)
    → lookup key resources ≡ some r
    → contains key selected ≡ false
    → edges_left resources (selected ++ key ∷ []) + length r.depends_on
      ≤ edges_left resources selected
unfolding edges_left contains lookup
edges_left-push [] selected key r found new = cc
edges_left-push ((k, q) ∷ rest) selected key r found new = elim (Bool-cases (str_eq k key)) [
  | inl this ↦
      let is_key = (eq_iff k key).0 this in
      let same : q ≡ r = eq_of_some (rw this at found) in
      let sized : length q.depends_on ≡ length r.depends_on =
        ap (λ (x : Resource). length x.depends_on) same in
      let out : contains k selected ≡ false = ap (λ x. contains x selected) is_key ∙ new in
      ground (
        arith,
        out,
        sized,
        eq_iff key k,
        sym is_key,
        contains-append k selected (key ∷ []),
        edges_left_mono rest selected key,
      )
  | inr other ↦ ground (
    arith,
    edges_left-push rest selected key r (rw other at found) new,
    contains-append k selected (key ∷ []),
  )
]

select-ends :
    (resources : Dict Resource) (fuel : ℕ) (stack selected : List String)
    → length stack + edges_left resources selected ≤ fuel
    → select resources fuel stack selected ≢ err out_of_fuel
unfolding select
select-ends resources fuel [] selected enough h = cc
select-ends resources zero (key ∷ rest) selected enough h = omega arith
select-ends resources (suc fuel) (key ∷ rest) selected enough h =
    elim (Option-cases (lookup key resources)) [
      | inl missing ↦ let bad = rw (missing, select) at h in cc
      | inr (r, found) ↦ elim (Bool-cases (contains key selected)) [
        | inl old ↦
            select-ends resources fuel rest selected (omega arith) (rw (found, select, old) at h)
        | inr new ↦
            select-ends resources fuel (reverse r.depends_on ++ rest) (selected ++ key ∷ [])
              (omega (
                arith,
                length-append (reverse r.depends_on) rest,
                length-reverse r.depends_on,
                edges_left-push resources selected key r found new,
              ))
              (rw (found, select, new) at h)
      ]
    ]

current_of-ends :
    (fingerprints : Dict String) (deps : List String)
    → current_of fingerprints deps ≢ err out_of_fuel
unfolding current_of
current_of-ends fingerprints [] h = cc
current_of-ends fingerprints (x ∷ deps) h = elim (Option-cases (lookup x fingerprints)) [
  | inl missing ↦ let bad = rw (missing, current_of) at h in cc
  | inr (f, found) ↦
      >>=-neq-err (current_of fingerprints deps) _ (current_of-ends fingerprints deps)
        (λ rest e. cc) (rw (found, current_of) at h)
]

-- `closure` always ends, whatever the graph and its roots, also where resources depend on each other
-- in a circle: the fuel of its loop, one round for each root and for each dependency of a resource, is
-- never used up.
pub closure-ends : (g : Graph) (roots : List String) → closure g roots ≢ err out_of_fuel
unfolding closure select_fuel
closure-ends g roots =
    >>=-neq-err (select g.resources (select_fuel g.resources roots) (reverse roots) []) _
      (select-ends g.resources (select_fuel g.resources roots) (reverse roots) []
        (unfold select_fuel in omega (arith, length-reverse roots)))
      (λ found. current_of-ends g.fingerprints (sorted found))

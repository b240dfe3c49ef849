-- ===== src/Planning/Explained.antt =====
-- That the paths of `affected_paths` of planning.py explain.
use open_tapeout.Prelude.{
  ℕ, zero, suc, String, Bool, true, false, inl, inr, some, Option-cases, Bool-cases, List, [], ◌∷◌,
  ◌++◌, ◌≡◌, refl, sym, ◌∙◌, arith, subst, Dict, has, lookup, insert, lookup-insert, contains,
  contains-sorted, sorted, to_set, length, str_eq, eq_iff, eq_of_some, if◌then◌else◌,
}
use open_tapeout.Result.{ok, >>=-eq-ok, ensure-eq-ok, ok-injective}
use open_tapeout.Graph.{Graph}
use open_tapeout.Graph.Counts.{List-cases}
use open_tapeout.Planning.{Paths, add_roots, explain, explain_all, affected_paths}

-- A chain of dependents from a changed resource to the last of the path.
pub data IsPath (g : Graph) (changes : List String) : List String → String → Type 0 where
  changed : (key : String) → contains key changes ≡ true → IsPath g changes (key ∷ []) key
  child :
      (path : List String) (parent key : String)
      → IsPath g changes path parent
      → contains key (g.children parent) ≡ true
      → IsPath g changes (path ++ key ∷ []) key

module _ (g : Graph) (changes : List String) where
  abbrev AllPaths : Dict (List String) → Type 0
  AllPaths paths =
      (key : String) (path : List String) → lookup key paths ≡ some path → IsPath g changes path key

  AllPaths-insert :
      (paths : Dict (List String)) (key : String) (path : List String)
      → IsPath g changes path key
      → AllPaths paths
      → AllPaths (insert key path paths)
  AllPaths-insert paths key path p a k q h =
      let found = sym (lookup-insert key k path paths) ∙ h in
      elim (Bool-cases (str_eq key k)) [
        | inl same ↦
            let is_q : path ≡ q = eq_of_some (rw same at found) in
            subst (λ x. IsPath g changes x k) is_q
              (subst (IsPath g changes path) ((eq_iff key k).0 same) p)
        | inr other ↦ a k q (rw other at found)
      ]

  add_roots-AllPaths :
      (roots : List String) (s t : Paths)
      → ((k : String) → contains k roots ≡ true → contains k changes ≡ true)
      → AllPaths s.paths
      → add_roots g roots s ≡ ok t
      → AllPaths t.paths
  unfolding add_roots contains
  add_roots-AllPaths [] s t c a h = subst (λ (x : Paths). AllPaths x.paths) (ok-injective h) a
  add_roots-AllPaths (key ∷ rest) s t c a h =
      let (_, h1) = ensure-eq-ok (has key g.resources) _ _ h in
      add_roots-AllPaths rest _ t (λ k m. c k (ground (arith, m)))
        (AllPaths-insert s.paths key (key ∷ [])
          (changed key (c key (ground (arith, eq_iff key key)))) a)
        h1

  AllPaths-either :
      (b : Bool) (s t : Paths)
      → AllPaths s.paths
      → AllPaths t.paths
      → AllPaths (if b then s else t).paths
  AllPaths-either true s t a b = a
  AllPaths-either false s t a b = b

  explain-AllPaths :
      (path : List String) (parent : String) (children : List String) (s : Paths)
      → IsPath g changes path parent
      → ((k : String) → contains k children ≡ true → contains k (g.children parent) ≡ true)
      → AllPaths s.paths
      → AllPaths (explain path children s).paths
  unfolding explain contains
  explain-AllPaths path parent [] s p c a = a
  explain-AllPaths path parent (key ∷ rest) s p c a =
      let next : Paths = record {
        paths = insert key (path ++ key ∷ []) s.paths;
        queue = s.queue ++ key ∷ [];
      } in
      explain-AllPaths path parent rest (if has key s.paths then s else next) p
        (λ k m. c k (ground (arith, m)))
        (AllPaths-either (has key s.paths) s next a (
          AllPaths-insert s.paths key (path ++ key ∷ [])
            (child path parent key p (c key (ground (arith, eq_iff key key)))) a))

  explain_all-AllPaths :
      (fuel : ℕ) (s : Paths) (paths : Dict (List String))
      → AllPaths s.paths
      → explain_all g fuel s ≡ ok paths
      → AllPaths paths
  unfolding explain_all
  explain_all-AllPaths zero s paths a h = elim (List-cases s.queue) [
    | inl e ↦ subst AllPaths (ok-injective (rw (e, explain_all) at h)) a
    | inr (key, rest, e) ↦ let bad = rw (e, explain_all) at h in cc
  ]
  explain_all-AllPaths (suc fuel) s paths a h = elim (List-cases s.queue) [
    | inl e ↦ subst AllPaths (ok-injective (rw (e, explain_all) at h)) a
    | inr (parent, rest, e) ↦ elim (Option-cases (lookup parent s.paths)) [
      | inl missing ↦ let bad = rw (e, explain_all, missing) at h in cc
      | inr (path, found) ↦
          explain_all-AllPaths fuel (explain path (g.children parent) (record s { queue = rest }))
            paths
            (explain-AllPaths path parent (g.children parent) (record s { queue = rest })
              (a parent path found) (λ k m. m) a)
            (rw (e, explain_all, found) at h)
    ]
  ]

contains-to_set : (k : String) (xs : List String) → contains k (to_set xs) ≡ contains k xs
unfolding to_set contains
contains-to_set k [] = refl
contains-to_set k (x ∷ xs) = ground (arith, contains-to_set k xs, contains-to_set x xs, eq_iff x k)

-- Every explanation of `affected_paths` is one: the path that it gives for a resource starts at one of
-- the changes, ends at the resource, and each resource on it is a child of the one before.
pub affected_paths-IsPath :
    (g : Graph) (changes : List String) (paths : Dict (List String)) (key : String)
    (path : List String)
    → affected_paths g changes ≡ ok paths
    → lookup key paths ≡ some path
    → IsPath g changes path key
unfolding affected_paths
affected_paths-IsPath g changes paths key path h found =
    let (s, rooted, h1) =
      >>=-eq-ok (add_roots g (sorted (to_set changes)) (record { paths = []; queue = [] })) _ h in
    explain_all-AllPaths g changes (length g.resources) s paths
      (add_roots-AllPaths g changes (sorted (to_set changes)) (record { paths = []; queue = [] }) s
        (λ k m. sym (contains-sorted k (to_set changes) ∙ contains-to_set k changes) ∙ m)
        (λ k q e. unfold lookup in cc) rooted)
      h1 key path found

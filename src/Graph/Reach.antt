-- ===== src/Graph/Reach.antt =====
-- `Graph.closure` of graph.py against reachability along the dependencies.
use mathlib.Core.List.{reverse-cons}
use open_tapeout.Prelude.{
  ℕ, zero, suc, String, true, ◌||◌, some, Option-cases, Bool-cases, List, [], ◌∷◌, ◌++◌, ◌≡◌, refl,
  sym, ap, ◌∙◌, ◌↔◌, inl, inr, arith, subst, reverse, Dict, lookup, has, contains, contains-append,
  contains-sorted, sorted, str_eq, eq_iff, eq_of_some,
}
use open_tapeout.Result.{ok, >>=-eq-ok, ok-injective}
use open_tapeout.Records.{Resource}
use open_tapeout.Graph.{Graph, select, select_fuel, current_of, closure}

pub contains-reverse : (k : String) (xs : List String) → contains k (reverse xs) ≡ contains k xs
unfolding contains
contains-reverse k [] = refl
contains-reverse k (x ∷ xs) =
    ap (contains k) (reverse-cons x xs)
    ∙ contains-append k (reverse xs) (x ∷ [])
    ∙ ground (arith, contains-reverse k xs)

module _ (resources : Dict Resource) (roots : List String) where
  -- What the roots need: themselves, and the dependencies of what they need.
  pub data Needs : String → Type 0 where
    root : {k : String} → contains k roots ≡ true → Needs k
    dependency :
        {k d : String} {r : Resource}
        → Needs k
        → lookup k resources ≡ some r
        → contains d r.depends_on ≡ true
        → Needs d

  abbrev AllNeeded : List String → Type 0
  AllNeeded xs = (k : String) → contains k xs ≡ true → Needs k

  AllNeeded-tail : (x : String) (xs : List String) → AllNeeded (x ∷ xs) → AllNeeded xs
  unfolding contains
  AllNeeded-tail x xs a k h = a k (ground (arith, h))

  AllNeeded-head : (x : String) (xs : List String) → AllNeeded (x ∷ xs) → Needs x
  unfolding contains
  AllNeeded-head x xs a = a x (ground (arith, eq_iff x x))

  AllNeeded-append : (xs ys : List String) → AllNeeded xs → AllNeeded ys → AllNeeded (xs ++ ys)
  AllNeeded-append xs ys a b k h =
      let either = sym (contains-append k xs ys) ∙ h in
      elim (Bool-cases (contains k xs)) [
        | inl this ↦ a k this
        | inr other ↦ b k (rw other at either)
      ]

  AllNeeded-one : (x : String) → Needs x → AllNeeded (x ∷ [])
  unfolding contains
  AllNeeded-one x n k h = subst Needs ((eq_iff x k).0 (ground (arith, h))) n

  AllNeeded-dependencies :
      (x : String) (r : Resource)
      → Needs x
      → lookup x resources ≡ some r
      → AllNeeded (reverse r.depends_on)
  AllNeeded-dependencies x r n found k h =
      dependency n found (sym (contains-reverse k r.depends_on) ∙ h)

  -- Everything that the loop selects is needed.
  select-AllNeeded :
      (fuel : ℕ) (stack selected result : List String)
      → AllNeeded stack
      → AllNeeded selected
      → select resources fuel stack selected ≡ ok result
      → AllNeeded result
  unfolding select
  select-AllNeeded fuel [] selected result a b h = subst AllNeeded (ok-injective h) b
  select-AllNeeded zero (key ∷ rest) selected result a b h = cc
  select-AllNeeded (suc fuel) (key ∷ rest) selected result a b h =
      elim (Option-cases (lookup key resources)) [
        | inl missing ↦ let bad = rw (missing, select) at h in cc
        | inr (r, found) ↦ elim (Bool-cases (contains key selected)) [
          | inl old ↦
              select-AllNeeded fuel rest selected result (AllNeeded-tail key rest a) b
                (rw (found, select, old) at h)
          | inr new ↦
              let n = AllNeeded-head key rest a in
              select-AllNeeded fuel (reverse r.depends_on ++ rest) (selected ++ key ∷ []) result
                (AllNeeded-append (reverse r.depends_on) rest (AllNeeded-dependencies key r n found)
                  (AllNeeded-tail key rest a))
                (AllNeeded-append selected (key ∷ []) b (AllNeeded-one key n))
                (rw (found, select, new) at h)
        ]
      ]

  -- The dependencies of what is selected are selected or still on the stack.
  abbrev IsPending : List String → List String → Type 0
  IsPending stack selected =
      (k d : String) (r : Resource)
      → contains k selected ≡ true
      → lookup k resources ≡ some r
      → contains d r.depends_on ≡ true
      → (contains d selected || contains d stack) ≡ true

  record IsClosing (stack selected result : List String) : Type 0 where
    pub kept :
        (k : String) → (contains k selected || contains k stack) ≡ true → contains k result ≡ true
    pub closed :
        (k d : String) (r : Resource)
        → contains k result ≡ true
        → lookup k resources ≡ some r
        → contains d r.depends_on ≡ true
        → contains d result ≡ true

  IsPending-skip :
      (key : String) (rest selected : List String)
      → contains key selected ≡ true
      → IsPending (key ∷ rest) selected
      → IsPending rest selected
  unfolding contains
  IsPending-skip key rest selected old i k d r h found needs =
      let was = i k d r h found needs in
      elim (Bool-cases (str_eq key d)) [
        | inl same ↦ ground (arith, old, (eq_iff key d).0 same)
        | inr other ↦ ground (arith, other, was)
      ]

  IsPending-push :
      (key : String) (r : Resource) (rest selected : List String)
      → lookup key resources ≡ some r
      → IsPending (key ∷ rest) selected
      → IsPending (reverse r.depends_on ++ rest) (selected ++ key ∷ [])
  unfolding contains
  IsPending-push key r rest selected found i k d q h found' needs =
      rw
        (
          contains-append d selected (key ∷ []),
          contains-append d (reverse r.depends_on) rest,
          contains-reverse d r.depends_on,
        )
        (let either = sym (contains-append k selected (key ∷ [])) ∙ h in
          elim (Bool-cases (contains k selected)) [
            | inl this ↦ let was = i k d q this found' needs in ground (arith, was)
            | inr other ↦
                let is_key : key ≡ k = (eq_iff key k).0 (ground (arith, either, other)) in
                let same : r ≡ q =
                  eq_of_some (sym found ∙ ap (λ x. lookup x resources) is_key ∙ found') in
                let mine : contains d r.depends_on ≡ true =
                  ap (λ (x : Resource). contains d x.depends_on) same ∙ needs in
                ground (arith, mine)
          ])

  skipped :
      (key : String) (rest selected : List String)
      → contains key selected ≡ true
      → (k : String) → (contains k selected || contains k (key ∷ rest)) ≡ true
      → (contains k selected || contains k rest) ≡ true
  unfolding contains
  skipped key rest selected old k m = elim (Bool-cases (str_eq key k)) [
    | inl same ↦ ground (arith, ap (λ x. contains x selected) (sym ((eq_iff key k).0 same)) ∙ old)
    | inr other ↦ ground (arith, other, m)
  ]

  pushed :
      (key : String) (r : Resource) (rest selected : List String) (k : String)
      → (contains k selected || contains k (key ∷ rest)) ≡ true
      → (contains k (selected ++ key ∷ []) || contains k (reverse r.depends_on ++ rest)) ≡ true
  unfolding contains
  pushed key r rest selected k m =
      rw (contains-append k selected (key ∷ []), contains-append k (reverse r.depends_on) rest)
        (ground (arith, m))

  closed_at_end : (selected : List String) → IsPending [] selected → IsClosing [] selected selected
  unfolding contains
  closed_at_end selected i = record {
    kept = λ k m. ground (arith, m);
    closed = λ k d r m found needs. (let last = i k d r m found needs in ground (arith, last));
  }

  -- The loop drops nothing, and ends when every dependency of what it selected is selected.
  select-IsClosing :
      (fuel : ℕ) (stack selected result : List String)
      → IsPending stack selected
      → select resources fuel stack selected ≡ ok result
      → IsClosing stack selected result
  unfolding select
  select-IsClosing fuel [] selected result i h =
      subst (IsClosing [] selected) (ok-injective h) (closed_at_end selected i)
  select-IsClosing zero (key ∷ rest) selected result i h = cc
  select-IsClosing (suc fuel) (key ∷ rest) selected result i h =
      elim (Option-cases (lookup key resources)) [
        | inl missing ↦ let bad = rw (missing, select) at h in cc
        | inr (r, found) ↦ elim (Bool-cases (contains key selected)) [
          | inl old ↦
              let c =
                select-IsClosing fuel rest selected result (IsPending-skip key rest selected old i)
                  (rw (found, select, old) at h) in
              record {
                kept = λ k m. c.kept k (skipped key rest selected old k m);
                closed = c.closed;
              }
          | inr new ↦
              let c =
                select-IsClosing fuel (reverse r.depends_on ++ rest) (selected ++ key ∷ []) result
                  (IsPending-push key r rest selected found i) (rw (found, select, new) at h) in
              record { kept = λ k m. c.kept k (pushed key r rest selected k m); closed = c.closed }
        ]
      ]

  -- What is closed under dependencies and has the roots has what they need.
  contains_of_Needs :
      (result : List String)
      → IsClosing (reverse roots) [] result
      → (k : String) → Needs k
      → contains k result ≡ true
  unfolding contains
  contains_of_Needs result c k (root m) = c.kept k (ground (arith, contains-reverse k roots, m))
  contains_of_Needs result c k (dependency {k = j} {r = r} n found needs) =
      c.closed j k r (contains_of_Needs result c j n) found needs

-- The dictionary that `closure` returns, over the keys that are selected.
current_of-has :
    (fingerprints : Dict String) (deps : List String) (d : Dict String)
    → current_of fingerprints deps ≡ ok d
    → (k : String) → has k d ≡ contains k deps
unfolding current_of lookup contains
current_of-has fingerprints [] d h k = rw (sym (ok-injective h)) refl
current_of-has fingerprints (x ∷ deps) d h k = elim (Option-cases (lookup x fingerprints)) [
  | inl missing ↦ let bad = rw (missing, current_of) at h in cc
  | inr (f, found) ↦
      let (rest, e, h1) =
        >>=-eq-ok (current_of fingerprints deps) _ (rw (found, current_of) at h) in
      rw (sym (ok-injective h1)) (ground (arith, current_of-has fingerprints deps rest e k))
]

-- `closure` selects exactly what its roots need: if it returns, a resource is a key of the result if
-- and only if it is a root or a chain of `depends_on` leads from a root to it.
pub closure_iff :
    (g : Graph) (roots : List String) (selected : Dict String)
    → closure g roots ≡ ok selected
    → (k : String) → (has k selected ≡ true) ↔ Needs g.resources roots k
unfolding closure
closure_iff g roots selected h k =
    let fuel = select_fuel g.resources roots in
    let (found, picked, h1) = >>=-eq-ok (select g.resources fuel (reverse roots) []) _ h in
    let same : has k selected ≡ contains k found =
      current_of-has g.fingerprints (sorted found) selected h1 k ∙ contains-sorted k found in
    let needed =
      select-AllNeeded g.resources roots fuel (reverse roots) [] found
        (λ j m. root (sym (contains-reverse j roots) ∙ m)) (λ j m. unfold contains in cc) picked in
    let closing =
      select-IsClosing g.resources roots fuel (reverse roots) [] found
        (λ j d r m. unfold contains in cc) picked in
    (
      λ m. needed k (sym same ∙ m),
      λ n. same ∙ contains_of_Needs g.resources roots found closing k n,
    )

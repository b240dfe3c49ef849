-- ===== src/Prelude/Dicts.antt =====
-- Python's dictionaries and sets with text keys: association lists in insertion order, and lists.
use Prim.Native.String.{String, compare}
use Prim.Native.Nat.{Ordering}
use mathlib.Core.Path.{◌≡◌, refl}
use mathlib.Core.Bool.{Bool, true, false, ◌||◌, ◌&&◌}
use mathlib.Core.Option.{Option, none, some}
use mathlib.Core.List.{List, [], ◌∷◌, ◌++◌, map}
use native.Mathlib.Omega.{arith}
use text.Mathlib.Text.{◌==◌ as str_eq}
use text.Mathlib.TextEquality.{eq_iff}
use open_tapeout.Prelude.Tests.{if◌then◌else◌}
use open_tapeout.Prelude.Lists.{all}

abbrev pub Dict {ℓ} : Type ℓ → Type ℓ
Dict V = List (String × V)

module _ {ℓ} {V : Type ℓ} where
  abbrev pub keys : Dict V → List String
  keys = map (λ e. e.0)

  abbrev pub values : Dict V → List V
  values = map (λ e. e.1)

  -- `d[key] = value`: a known key keeps its place.
  unfoldable pub insert : String → V → Dict V → Dict V
  insert key value ((old, was) ∷ d) =
      if str_eq old key then (key, value) ∷ d else (old, was) ∷ insert key value d
  insert key value [] = (key, value) ∷ []

  -- `d.get(key)`
  unfoldable pub lookup : String → Dict V → Option V
  lookup key ((old, was) ∷ d) = if str_eq old key then some was else lookup key d
  lookup key [] = none

  -- `key in d`
  abbrev pub has : String → Dict V → Bool
  has key d = elim (lookup key d) [ none ↦ false | some _ ↦ true ]

  pub lookup-insert :
      (key wanted : String) (value : V) (d : Dict V)
      → lookup wanted (insert key value d)
        ≡ (if str_eq key wanted then some value else lookup wanted d)
  unfolding lookup insert
  lookup-insert key wanted value ((old, was) ∷ d) = ground (
    arith,
    lookup-insert key wanted value d,
    eq_iff old key,
    eq_iff old wanted,
    eq_iff key wanted,
  )
  lookup-insert key wanted value [] = refl

-- `k in xs` for a list or set of texts.
unfoldable pub contains : String → List String → Bool
contains k [] = false
contains k (x ∷ xs) = str_eq x k || contains k xs

-- `s.add(k)`, the elements in the order in which they came.
unfoldable pub add : String → List String → List String
add k xs = if contains k xs then xs else xs ++ k ∷ []

-- `set(xs)`
unfoldable pub to_set : List String → List String
to_set [] = []
to_set (x ∷ xs) = let rest = to_set xs in if contains x rest then rest else x ∷ rest

abbrev pub str_le : String → String → Bool
str_le a b = elim (compare a b) [ Ordering.gt ↦ false | _ ↦ true ]

-- `sorted(xs)`, by insertion, which is stable as Python's is.
unfoldable pub insert_sorted : String → List String → List String
insert_sorted x [] = x ∷ []
insert_sorted x (y ∷ ys) = if str_le x y then x ∷ y ∷ ys else y ∷ insert_sorted x ys

unfoldable pub sorted : List String → List String
unfolding insert_sorted
sorted [] = []
sorted (x ∷ xs) = insert_sorted x (sorted xs)

-- Equality of lists of texts, and of dictionaries of texts with one order of keys.
unfoldable pub texts_eq : List String → List String → Bool
texts_eq [] [] = true
texts_eq (x ∷ xs) (y ∷ ys) = str_eq x y && texts_eq xs ys
texts_eq _ _ = false

-- `a <= b` and `a == b` for sets.
abbrev pub subset : List String → List String → Bool
subset a b = all (λ x. contains x b) a

abbrev pub same_set : List String → List String → Bool
same_set a b = subset a b && subset b a

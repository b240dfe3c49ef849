-- ===== src/Prelude/DictLaws.antt =====
-- Laws of dictionaries, sets of texts and sorting.
use mathlib.Core.Path.{◌≡◌, refl, sym, ◌∙◌, ap}
use mathlib.Core.Logic.{inl, inr}
use mathlib.Core.Bool.{◌||◌, true}
use mathlib.Core.Option.{none, some}
use mathlib.Core.List.{List, [], ◌∷◌, ◌++◌}
use Prim.Native.String.{String}
use native.Mathlib.Omega.{arith}
use text.Mathlib.Text.{◌==◌ as str_eq}
use text.Mathlib.TextEquality.{eq_iff}
use open_tapeout.Prelude.Tests.{Bool-cases, and-eq-true, eq_of_some}
use open_tapeout.Prelude.Lists.{Among, here, there}
use open_tapeout.Prelude.Dicts.{
  Dict, keys, lookup, insert, lookup-insert, contains, subset, add, insert_sorted, sorted,
}

-- No key stands twice.
abbrev pub Distinct {ℓ} : {V : Type ℓ} → Dict V → Type ℓ
Distinct [] = Unit
Distinct ((k, v) ∷ m) = (lookup k m ≡ none) × Distinct m

module _ {ℓ} {V : Type ℓ} where
  pub insert-Distinct : (k : String) (v : V) (m : Dict V) → Distinct m → Distinct (insert k v m)
  unfolding insert
  insert-Distinct k v [] d = (unfold lookup in refl, tt)
  insert-Distinct k v ((j, w) ∷ m) d = elim (Bool-cases (str_eq j k)) [
    | inl e ↦ rw e (rw (sym ((eq_iff j k).0 e)) d)
    | inr e ↦ rw e (
      lookup-insert k j v m ∙ ground (arith, eq_iff k j, eq_iff j k, d.0),
      insert-Distinct k v m d.1,
    )
  ]

pub contains-append :
    (k : String) (xs ys : List String) → contains k (xs ++ ys) ≡ (contains k xs || contains k ys)
unfolding contains
contains-append k [] ys = refl
contains-append k (x ∷ xs) ys = ground (arith, contains-append k xs ys)

pub contains-add :
    (k j : String) (xs : List String) → contains j (add k xs) ≡ (str_eq k j || contains j xs)
unfolding add
contains-add k j xs = elim (Bool-cases (contains k xs)) [
  | inl old ↦ rw old (ground (arith, eq_iff k j))
  | inr new ↦ rw new (rw contains-append (unfold contains in ground arith))
]

pub contains-insert_sorted :
    (k x : String) (ys : List String)
    → contains k (insert_sorted x ys) ≡ (str_eq x k || contains k ys)
unfolding insert_sorted contains
contains-insert_sorted k x [] = refl
contains-insert_sorted k x (y ∷ ys) = ground (arith, contains-insert_sorted k x ys)

-- Sorting keeps the elements.
pub contains-sorted : (k : String) (xs : List String) → contains k (sorted xs) ≡ contains k xs
unfolding sorted contains
contains-sorted k [] = refl
contains-sorted k (x ∷ xs) =
    contains-insert_sorted k x (sorted xs) ∙ ap (λ b. str_eq x k || b) (contains-sorted k xs)

pub lookup-Among {ℓ} :
    {V : Type ℓ} (k : String) (d : Dict V) {v : V} → lookup k d ≡ some v → Among (k, v) d
unfolding lookup
lookup-Among k [] h = cc
lookup-Among k ((j, w) ∷ d) {v} h = elim (Bool-cases (str_eq j k)) [
  | inl this ↦
      let same : w ≡ v = eq_of_some (rw this at h) in
      here (
        ap (λ (x : String). (x, v)) (sym ((eq_iff j k).0 this)) ∙ ap (λ (x : _). (j, x)) (sym same))
  | inr other ↦ there (lookup-Among k d (rw other at h))
]

pub contains-keys {ℓ} :
    {V : Type ℓ} (k : String) (d : Dict V) → contains k (keys d) ≡ true → (v : V) × Among (k, v) d
unfolding contains
contains-keys k [] h = cc
contains-keys k ((j, w) ∷ d) h = elim (Bool-cases (str_eq j k)) [
  | inl this ↦ (w, here (ap (λ (x : String). (x, w)) (sym ((eq_iff j k).0 this))))
  | inr other ↦ let (v, m) = contains-keys k d (rw other at h) in (v, there m)
]

pub contains-subset :
    (k : String) (a b : List String) → subset a b ≡ true → contains k a ≡ true → contains k b ≡ true
unfolding contains
contains-subset k [] b h m = cc
contains-subset k (x ∷ a) b h m =
    let (this, rest) = and-eq-true (contains x b) (subset a b) h in
    elim (Bool-cases (str_eq x k)) [
      | inl same ↦ ap (λ y. contains y b) (sym ((eq_iff x k).0 same)) ∙ this
      | inr other ↦ contains-subset k a b rest (rw other at m)
    ]

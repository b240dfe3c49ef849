-- ===== src/Prelude/Lists.antt =====
-- Lists measured by native numbers, with the Boolean tests that Python writes as `in`, `any`, `all`.
use Prim.Native.Nat.{ℕ, zero, suc, ◌+◌}
use mathlib.Core.Path.{◌≡◌, sym, subst}
use mathlib.Core.Logic.{◌⊎◌, inl, inr}
use mathlib.Core.Bool.{Bool, true, false, ◌&&◌, ◌||◌}
use mathlib.Core.List.{List, [], ◌∷◌, ◌++◌}
use mathlib.Core.Option.{Option, none, some}
use native.Mathlib.Omega.{arith}
use open_tapeout.Prelude.Tests.{if◌then◌else◌}

module _ {ℓ} {A : Type ℓ} where
  abbrev pub length : List A → ℕ
  length [] = 0
  length (x ∷ xs) = suc (length xs)

  abbrev pub take : ℕ → List A → List A
  take zero xs = []
  take (suc n) [] = []
  take (suc n) (x ∷ xs) = x ∷ take n xs

  -- `last?` is `xs[-1]`.
  abbrev pub last? : List A → Option A
  last? [] = none
  last? (x ∷ []) = some x
  last? (x ∷ y ∷ ys) = last? (y ∷ ys)

  abbrev pub get_elem? : List A → ℕ → Option A
  get_elem? [] i = none
  get_elem? (x ∷ xs) zero = some x
  get_elem? (x ∷ xs) (suc i) = get_elem? xs i

  pub length-append : (xs ys : List A) → length (xs ++ ys) ≡ length xs + length ys
  length-append [] ys = omega arith
  length-append (x ∷ xs) ys = omega (arith, length-append xs ys)

  -- Membership with its position kept.
  pub data Among (a : A) : List A → Type ℓ where
    here : {x : A} {xs : List A} → a ≡ x → Among a (x ∷ xs)
    there : {x : A} {xs : List A} → Among a xs → Among a (x ∷ xs)

  -- What holds of every element.
  abbrev pub All {κ} : (A → Type κ) → List A → Type κ
  All P [] = Unit
  All P (x ∷ xs) = P x × All P xs

  -- `any` and `all` of a generator, and a filtering comprehension.
  abbrev pub any : (A → Bool) → List A → Bool
  any p [] = false
  any p (x ∷ xs) = p x || any p xs

  abbrev pub all : (A → Bool) → List A → Bool
  all p [] = true
  all p (x ∷ xs) = p x && all p xs

  abbrev pub keep : (A → Bool) → List A → List A
  keep p [] = []
  keep p (x ∷ xs) = let rest = keep p xs in if p x then x ∷ rest else rest

  -- `next((x for x in xs if p(x)), None)`
  abbrev pub find : (A → Bool) → List A → Option A
  find p [] = none
  find p (x ∷ xs) = if p x then some x else find p xs

  abbrev pub is_empty : List A → Bool
  is_empty [] = true
  is_empty (x ∷ xs) = false

pub Among-append {ℓ} :
    {A : Type ℓ} {a : A} (xs ys : List A) → Among a (xs ++ ys) → Among a xs ⊎ Among a ys
Among-append [] ys m = inr m
Among-append (x ∷ xs) ys (here e) = inl (here e)
Among-append (x ∷ xs) ys (there m) = elim (Among-append xs ys m) [
  | inl first ↦ inl (there first)
  | inr second ↦ inr second
]

pub eq_of_Among {ℓ} : {A : Type ℓ} {a x : A} → Among a (x ∷ []) → a ≡ x
eq_of_Among (here e) = e
eq_of_Among (there m) = elim m [ ]

pub All-Among {ℓ κ} :
    {A : Type ℓ} (P : A → Type κ) {a : A} (xs : List A) → All P xs → Among a xs → P a
All-Among P [] h m = elim m [ ]
All-Among P (x ∷ xs) h (here e) = subst P (sym e) h.0
All-Among P (x ∷ xs) h (there m) = All-Among P xs h.1 m

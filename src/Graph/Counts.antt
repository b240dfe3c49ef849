-- ===== src/Graph/Counts.antt =====
-- How often a text stands in a list, and when two lists have the same texts.
use open_tapeout.Prelude.{
  ℕ, suc, ◌+◌, ◌≤◌, ◌≡◌, refl, sym, ap, ◌∙◌, arith, String, Bool-cases, inl, inr, ◌⊎◌, has, true,
  false, List, [], ◌∷◌, ◌++◌, length, str_eq, eq_iff, if◌then◌else◌, contains, Dict, lookup, keys,
  none, some, Distinct, sorted, insert_sorted, keep, Bool, Option-cases,
}

pub List-cases :
    (xs : List String) → (xs ≡ []) ⊎ ((x : String) × (rest : List String) × (xs ≡ x ∷ rest))
List-cases [] = inl refl
List-cases (x ∷ rest) = inr (x, rest, refl)

-- How often `k` stands in a list.
unfoldable pub count : String → List String → ℕ
count k [] = 0
count k (x ∷ xs) = (if str_eq x k then 1 else 0) + count k xs

pub count-append : (k : String) (xs ys : List String) → count k (xs ++ ys) ≡ count k xs + count k ys
unfolding count
count-append k [] ys = omega arith
count-append k (x ∷ xs) ys = ground (arith, count-append k xs ys)

pub count-contains : (k : String) (xs : List String) → 1 ≤ count k xs → contains k xs ≡ true
unfolding count contains
count-contains k [] h = absurd (omega arith)
count-contains k (x ∷ xs) h = ground (arith, count-contains k xs)

count-insert_sorted :
    (k x : String) (ys : List String)
    → count k (insert_sorted x ys) ≡ (if str_eq x k then 1 else 0) + count k ys
unfolding insert_sorted count
count-insert_sorted k x [] = refl
count-insert_sorted k x (y ∷ ys) = ground (arith, count-insert_sorted k x ys)

pub count-sorted : (k : String) (xs : List String) → count k (sorted xs) ≡ count k xs
unfolding sorted count
count-sorted k [] = refl
count-sorted k (x ∷ xs) = ground (arith, count-insert_sorted k x (sorted xs), count-sorted k xs)

-- What is kept passes the test, and stands as often as before.
pub count-keep :
    (t : String → Bool) (k : String) (xs : List String) → (count k (keep t xs) ≤ count k xs)
unfolding count
count-keep t k [] = omega arith
count-keep t k (x ∷ xs) = elim (Bool-cases (t x)) [
  | inl e ↦ rw e (ground (arith, count-keep t k xs))
  | inr e ↦ rw e (ground (arith, count-keep t k xs))
]

pub true_of_count :
    (t : String → Bool) (k : String) (xs : List String) → 1 ≤ count k (keep t xs) → t k ≡ true
unfolding count
true_of_count t k [] h = absurd (omega arith)
true_of_count t k (x ∷ xs) h = elim (Bool-cases (t x)) [
  | inl e ↦ elim (Bool-cases (str_eq x k)) [
    | inl same ↦ ap t (sym ((eq_iff x k).0 same)) ∙ e
    | inr other ↦ true_of_count t k xs (ground arith)
  ]
  | inr e ↦ true_of_count t k xs (ground arith)
]

-- A dictionary has each of its keys once.
pub count-keys {ℓ} :
    {V : Type ℓ} (k : String) (m : Dict V)
    → Distinct m
    → (lookup k m ≡ none → count k (keys m) ≡ 0)
      × ((v : V) → lookup k m ≡ some v → count k (keys m) ≡ 1)
unfolding count lookup
count-keys k [] d = (λ _. refl, λ v h. cc)
count-keys k ((j, w) ∷ m) d = elim (Bool-cases (str_eq j k)) [
  | inl same ↦
      let missing =
        (count-keys k m d.1).0 (ap (λ x. lookup x m) (sym ((eq_iff j k).0 same)) ∙ d.0) in
      (λ h. absurd (ground arith), λ v h. ground (arith, missing))
  | inr other ↦
      let (absent, present) = count-keys k m d.1 in
      (λ h. ground (arith, absent), λ v h. ground (arith, present v))
]

pub count_of_has {ℓ} :
    {V : Type ℓ} (k : String) (m : Dict V)
    → Distinct m
    → count k (keys m) ≡ (if has k m then 1 else 0)
count_of_has k m d =
    let (absent, present) = count-keys k m d in
    elim (Option-cases (lookup k m)) [
      | inl missing ↦ ground (arith, absent missing, missing)
      | inr (v, found) ↦ ground (arith, present v found, found)
    ]

pub length-keys {ℓ} : {V : Type ℓ} (m : Dict V) → length (keys m) ≡ length m
length-keys [] = refl
length-keys (e ∷ m) = ap suc (length-keys m)

pub count-absent : (k : String) (xs : List String) → contains k xs ≡ false → count k xs ≡ 0
unfolding count contains
count-absent k [] h = refl
count-absent k (x ∷ xs) h = ground (arith, count-absent k xs)

-- A list without one occurrence of `k`.
unfoldable remove : String → List String → List String
remove k [] = []
remove k (x ∷ xs) = let rest = remove k xs in if str_eq x k then xs else x ∷ rest

count-remove :
    (k : String) (ys : List String)
    → 1 ≤ count k ys
    → (length ys ≡ suc (length (remove k ys)))
      × ((j : String) → count j ys ≡ (if str_eq k j then 1 else 0) + count j (remove k ys))
unfolding count remove
count-remove k [] h = absurd (omega arith)
count-remove k (x ∷ ys) h = elim (Bool-cases (str_eq x k)) [
  | inl same ↦ let e = (eq_iff x k).0 same in (rw same refl, λ j. rw (same, sym e) refl)
  | inr other ↦
      let (one, each) = count-remove k ys (ground arith) in
      (rw other (ap suc one), λ j. rw other (ground (arith, each j)))
]

-- Of two lists of one length, the first has each text as often as the second if it has none more often.
pub count-equal :
    (xs ys : List String)
    → ((k : String) → count k xs ≤ count k ys)
    → length xs ≡ length ys
    → (k : String) → count k xs ≡ count k ys
unfolding count
count-equal [] [] below same k = refl
count-equal [] (y ∷ ys) below same k = absurd (omega arith)
count-equal (x ∷ xs) ys below same k =
    let here : 1 ≤ count x ys = ground (arith, below x, eq_iff x x) in
    let (one, each) = count-remove x ys here in
    let rest =
      count-equal xs (remove x ys) (λ j. ground (arith, below j, each j)) (omega arith) k in
    ground (arith, rest, each k)

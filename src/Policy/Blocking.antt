-- ===== src/Policy/Blocking.antt =====
-- When the parts of a list of blockers are empty.
use open_tapeout.Prelude.{
  String, Bool, true, false, ◌≡◌, refl, List, [], ◌∷◌, ◌++◌, All, Among, here, there, is_empty,
  subst, sym,
}
use open_tapeout.Policy.Checks.{Blocker, concat, block_if, block_each}

pub append-eq-nil {ℓ} : {A : Type ℓ} (xs ys : List A) → (xs ++ ys) ≡ [] → (xs ≡ []) × (ys ≡ [])
append-eq-nil [] ys h = (refl, h)
append-eq-nil (x ∷ xs) ys h = cc

pub false_of_block_if :
    (t : Bool) (code message scope : String) → block_if t code message scope ≡ [] → t ≡ false
unfolding block_if
false_of_block_if true code message scope h = cc
false_of_block_if false code message scope h = refl

pub concat-eq-nil : (xs : List (List Blocker)) → concat xs ≡ [] → All (λ x. x ≡ []) xs
unfolding concat
concat-eq-nil [] h = tt
concat-eq-nil (x ∷ xs) h =
    let (first, rest) = append-eq-nil x (concat xs) h in (first, concat-eq-nil xs rest)

pub block_each-eq-nil {ℓ} :
    {A : Type ℓ} (f : A → List Blocker) (xs : List A)
    → block_each f xs ≡ []
    → All (λ x. f x ≡ []) xs
unfolding block_each
block_each-eq-nil f [] h = tt
block_each-eq-nil f (x ∷ xs) h =
    let (first, rest) = append-eq-nil (f x) (block_each f xs) h in
    (first, block_each-eq-nil f xs rest)

pub eq-nil_of_is_empty {ℓ} : {A : Type ℓ} (xs : List A) → is_empty xs ≡ true → xs ≡ []
eq-nil_of_is_empty [] h = refl
eq-nil_of_is_empty (x ∷ xs) h = cc

-- What holds of each element holds of every one found among them.
pub All-map {ℓ κ μ} :
    {A : Type ℓ} {P : A → Type κ} {Q : A → Type μ} (xs : List A)
    → ((x : A) → P x → Q x)
    → All P xs
    → All Q xs
All-map [] f h = tt
All-map (x ∷ xs) f h = (f x h.0, All-map xs f h.1)

pub All-Among {ℓ κ} :
    {A : Type ℓ} (P : A → Type κ) {a : A} {xs : List A} → All P xs → Among a xs → P a
All-Among P h (here e) = subst P (sym e) h.0
All-Among P h (there m) = All-Among P h.1 m

-- ===== src/Policy/Roles/Fuel.antt =====
-- The fuel of `assign_roles` is enough: each nested call of `augment` has marked one more principal.
use open_tapeout.Prelude.{
  ℕ, zero, suc, ◌+◌, ◌≤◌, ◌<◌, String, Bool, true, false, Option, none, some, Option-cases,
  Bool-cases, List, [], ◌∷◌, ◌≡◌, refl, sym, ap, ◌∙◌, inl, inr, arith, if◌then◌else◌, Dict, lookup,
  contains, add, contains-add, sorted, contains-sorted, str_eq, eq_iff, length,
}
use open_tapeout.Result.{Result, ok}
use open_tapeout.Policy.Roles.{
  Options, options_for, Search, Call, settle, try_each, augment, by_choices, match_roles,
  count_principals, first_choices, assign_roles,
}

abbrev IsMarked : List String → List String → Type 0
IsMarked v v' = (q : String) → contains q v ≡ true → contains q v' ≡ true

-- How many of the principals are not visited.
unvisited : List String → List String → ℕ
unvisited [] v = 0
unvisited (q ∷ qs) v = (if contains q v then 0 else 1) + unvisited qs v

left : Options → List String → ℕ
unfolding unvisited
left [] v = 0
left ((role, qs) ∷ options) v = unvisited qs v + left options v

unvisited_le : (qs v v' : List String) → IsMarked v v' → unvisited qs v' ≤ unvisited qs v
unfolding unvisited
unvisited_le [] v v' marked = omega arith
unvisited_le (q ∷ qs) v v' marked =
    let rest = unvisited_le qs v v' marked in
    elim (Bool-cases (contains q v)) [
      | inl old ↦ ground (arith, marked q old)
      | inr new ↦ ground arith
    ]

left_le :
    (options : Options) (v v' : List String) → IsMarked v v' → left options v' ≤ left options v
unfolding left
left_le [] v v' marked = omega arith
left_le ((role, qs) ∷ options) v v' marked =
    let here = unvisited_le qs v v' marked in let rest = left_le options v v' marked in omega arith

IsMarked-add : (q : String) (v : List String) → IsMarked v (add q v)
IsMarked-add q v k h = contains-add q k v ∙ ground arith

contains-added : (q : String) (v : List String) → contains q (add q v) ≡ true
contains-added q v = contains-add q q v ∙ ground (arith, eq_iff q q)

str_eq-sym : (a b : String) → str_eq a b ≡ false → str_eq b a ≡ false
str_eq-sym a b h = ground (arith, eq_iff a b, eq_iff b a)

-- Marking a new principal leaves fewer.
unvisited-add :
    (q : String) (qs v : List String)
    → contains q qs ≡ true
    → contains q v ≡ false
    → unvisited qs (add q v) < unvisited qs v
unfolding unvisited contains
unvisited-add q [] v h new = cc
unvisited-add q (x ∷ qs) v h new =
    let fewer = unvisited_le qs v (add q v) (IsMarked-add q v) in
    elim (Bool-cases (str_eq x q)) [
      | inl same ↦
          let is_q = (eq_iff x q).0 same in
          let was = ap (λ k. contains k v) is_q ∙ new in
          let marked = ap (λ k. contains k (add q v)) is_q ∙ contains-added q v in
          rw (was, marked) (omega arith)
      | inr other ↦
          let later = unvisited-add q qs v (rw other at h) new in
          rw (contains-add q x v, str_eq-sym x q other) (omega arith)
    ]

options_for_step :
    (role r : String) (qs : List String) (options : Options)
    → options_for ((r, qs) ∷ options) role
      ≡ (if str_eq r role then qs else options_for options role)
unfolding options_for lookup
options_for_step role r qs options = ground arith

options_for-nil : (q role : String) → contains q (options_for [] role) ≡ true → ⊥
unfolding options_for lookup contains
options_for-nil q role h = cc

left-add :
    (q role : String) (options : Options) (v : List String)
    → contains q (options_for options role) ≡ true
    → contains q v ≡ false
    → left options (add q v) < left options v
unfolding left
left-add q role [] v h new = absurd (options_for-nil q role h)
left-add q role ((r, qs) ∷ options) v h new =
    let held = ap (contains q) (sym (options_for_step role r qs options)) ∙ h in
    let fewer = unvisited_le qs v (add q v) (IsMarked-add q v) in
    let rest = left_le options v (add q v) (IsMarked-add q v) in
    elim (Bool-cases (str_eq r role)) [
      | inl same ↦ let own = unvisited-add q qs v (rw same at held) new in omega arith
      | inr other ↦ let own = left-add q role options v (rw other at held) new in omega arith
    ]

contains_head : (q : String) (qs : List String) → contains q (q ∷ qs) ≡ true
unfolding contains
contains_head q qs = ground (arith, eq_iff q q)

contains_tail :
    (q k : String) (qs : List String) → contains k qs ≡ true → contains k (q ∷ qs) ≡ true
unfolding contains
contains_tail q k qs h = ground arith

-- The call returns, and forgets no principal that was visited.
abbrev Returns : Search → Result (Bool × Search) → Type 0
Returns s r = (b : Bool) × (s' : Search) × (r ≡ ok (b, s')) × IsMarked s.visited s'.visited

abbrev IsFueled : Options → Call → ℕ → Type 0
IsFueled options call fuel =
    (role : String) (s : Search) → left options s.visited < fuel → Returns s (call role s)

try_each-Returns :
    (options : Options) (call : Call) (fuel : ℕ)
    → IsFueled options call fuel
    → (role : String) (qs : List String)
    → ((q : String) → contains q qs ≡ true → contains q (options_for options role) ≡ true)
    → (s : Search) → left options s.visited ≤ fuel
    → Returns s (try_each call role qs s)
unfolding try_each
try_each-Returns options call fuel fueled role [] known s enough = (false, s, refl, λ q h. h)
try_each-Returns options call fuel fueled role (q ∷ qs) known s enough =
    let own = known q (contains_head q qs) in
    let others : (k : String)
        → contains k qs ≡ true
        → contains k (options_for options role) ≡ true =
      (λ k h. known k (contains_tail q k qs h)) in
    elim (Bool-cases (contains q s.visited)) [
      | inl old ↦ rw old (try_each-Returns options call fuel fueled role qs others s enough)
      | inr new ↦
          let s' = record s { visited = add q s.visited } in
          let fewer = left-add q role options s.visited own new in
          elim (Option-cases (lookup q s.matched)) [
            | inl free ↦ rw (new, free) (true, (settle q role s').1, refl, IsMarked-add q s.visited)
            | inr (other, e) ↦
                let (moved, s'', called, marked) = fueled other s' (omega arith) in
                let kept : IsMarked s.visited s''.visited =
                  (λ k h. marked k (IsMarked-add q s.visited k h)) in
                let lesser = left_le options s'.visited s''.visited marked in
                elim (Bool-cases moved) [
                  | inl found ↦ (true, (settle q role s'').1, rw (new, e, called, found), kept)
                  | inr missed ↦
                      let (b, t, rest, more) =
                        try_each-Returns options call fuel fueled role qs others s''
                          (omega arith) in
                      (b, t, rw (new, e, called, missed) rest, λ k h. more k (kept k h))
                ]
          ]
    ]

augment-Returns : (options : Options) (fuel : ℕ) → IsFueled options (augment options fuel) fuel
unfolding augment
augment-Returns options zero role s enough = absurd (omega arith)
augment-Returns options (suc fuel) role s enough =
    try_each-Returns options (augment options fuel) fuel (augment-Returns options fuel) role
      (sorted (options_for options role))
      (λ q h. sym (contains-sorted q (options_for options role)) ∙ h) s (omega arith)

unvisited-nil : (qs : List String) → unvisited qs [] ≡ length qs
unfolding unvisited contains
unvisited-nil [] = refl
unvisited-nil (q ∷ qs) = let e = unvisited-nil qs in omega arith

left-nil : (options : Options) → left options [] ≡ count_principals options
unfolding left count_principals
left-nil [] = refl
left-nil ((role, qs) ∷ options) =
    let a = unvisited-nil qs in let b = left-nil options in omega arith

match_roles-ok :
    (options : Options) (fuel : ℕ) (roles : List String) (m : Dict String)
    → left options [] < fuel
    → (o : Option (Dict String)) × (match_roles options fuel roles m ≡ ok o)
unfolding match_roles
match_roles-ok options fuel [] m enough = (some m, refl)
match_roles-ok options fuel (role ∷ roles) m enough =
    let (b, s, called, _) =
      augment-Returns options fuel role (record { visited = []; matched = m }) enough in
    elim (Bool-cases b) [
      | inr missing ↦ (none, rw (called, missing))
      | inl found ↦
          let (o, e) = match_roles-ok options fuel roles s.matched enough in
          (o, rw (called, found) e)
    ]

-- The assignment of the roles always ends with an answer, an assignment or none: the matching never
-- runs out of the fuel that it is given.
pub assign_roles-ok :
    (roles : List String) (options : Options) (distinct : Bool)
    → (o : Option (Dict String)) × (assign_roles roles options distinct ≡ ok o)
unfolding assign_roles
assign_roles-ok roles options false = (first_choices options roles [], refl)
assign_roles-ok roles options true =
    let e = left-nil options in
    let (o, h) =
      match_roles-ok options (count_principals options + 1) (by_choices options roles) []
        (omega arith) in
    rw h (_, refl)

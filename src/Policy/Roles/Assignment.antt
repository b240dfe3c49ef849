-- ===== src/Policy/Roles/Assignment.antt =====
-- What an assignment of principals to roles satisfies: `assign_roles` with distinct principals.
use open_tapeout.Prelude.{
  ℕ, ◌+◌, String, true, ◌||◌, some, eq_of_some, Option-cases, Bool-cases, List, [], ◌∷◌, ◌≡◌, refl,
  sym, ap, ◌∙◌, subst, ◌⊎◌, inl, inr, arith, Dict, lookup, insert, lookup-insert, contains, str_eq,
  eq_iff, eq_refl, Distinct,
}
use open_tapeout.Result.{ok, >>=-eq-ok, ok-injective}
use open_tapeout.Policy.Roles.{
  Options, options_for, Search, augment, insert_role, by_choices, match_roles, invert, assign_roles,
  count_principals,
}
use open_tapeout.Policy.Roles.Matching.{IsAllowed, IsMatched, Good, augment-Good}

contains-insert_role :
    (options : Options) (k r : String) (rest : List String)
    → contains k (insert_role options r rest) ≡ (str_eq r k || contains k rest)
unfolding insert_role contains
contains-insert_role options k r [] = refl
contains-insert_role options k r (q ∷ rest) = ground (arith, contains-insert_role options k r rest)

contains-by_choices :
    (options : Options) (k : String) (roles : List String)
    → contains k (by_choices options roles) ≡ contains k roles
unfolding by_choices contains
contains-by_choices options k [] = refl
contains-by_choices options k (r ∷ rest) =
    contains-insert_role options k r (by_choices options rest)
    ∙ ap (λ b. str_eq r k || b) (contains-by_choices options k rest)

-- The pairs of a dictionary, by position.
data Entry (k v : String) : Dict String → Type 0 where
  first : {e : String × String} {m : Dict String} → e ≡ (k, v) → Entry k v (e ∷ m)
  later : {e : String × String} {m : Dict String} → Entry k v m → Entry k v (e ∷ m)

lookup-nil : (k : String) {v : String} → lookup k [] ≡ some v → ⊥
unfolding lookup
lookup-nil k h = cc

lookup-Entry : (k v : String) (m : Dict String) → lookup k m ≡ some v → Entry k v m
unfolding lookup
lookup-Entry k v [] h = cc
lookup-Entry k v ((j, w) ∷ m) h = elim (Bool-cases (str_eq j k)) [
  | inl same ↦ first (ground (arith, eq_iff j k))
  | inr other ↦ later (lookup-Entry k v m (ground arith))
]

Entry-lookup : (k v : String) (m : Dict String) → Distinct m → Entry k v m → lookup k m ≡ some v
unfolding lookup
Entry-lookup k v [] d e = elim e [ ]
Entry-lookup k v (e ∷ m) d (first same) = ground (arith, eq_refl k)
Entry-lookup k v ((j, w) ∷ m) d (later rest) =
    ground (arith, eq_iff j k, Entry-lookup k v m d.1 rest, d.0)

invert_sound :
    (m done : Dict String) (r q : String)
    → lookup r (invert m done) ≡ some q
    → (lookup r done ≡ some q) ⊎ Entry q r m
unfolding invert
invert_sound [] done r q h = inl h
invert_sound ((k, v) ∷ m) done r q h = elim (invert_sound m (insert v k done) r q h) [
  | inl e ↦ elim (Bool-cases (str_eq v r)) [
    | inl same ↦ inr (first (ground (arith, lookup-insert v r k done, eq_iff v r)))
    | inr other ↦ inl (ground (arith, lookup-insert v r k done))
  ]
  | inr e ↦ inr (later e)
]

-- Whatever has an entry before, or a pair in the matching, has one after.
invert_complete :
    (m done : Dict String) (r : String)
    → ((q : String) × (lookup r done ≡ some q)) ⊎ ((q : String) × Entry q r m)
    → (q : String) × (lookup r (invert m done) ≡ some q)
unfolding invert
invert_complete [] done r (inl found) = found
invert_complete [] done r (inr (q, e)) = elim e [ ]
invert_complete ((k, v) ∷ m) done r (inl (q, e)) =
    invert_complete m (insert v k done) r (elim (Bool-cases (str_eq v r)) [
      | inl same ↦ inl (k, ground (arith, lookup-insert v r k done))
      | inr other ↦ inl (q, ground (arith, lookup-insert v r k done))
    ])
invert_complete ((k, v) ∷ m) done r (inr (q, first e)) =
    invert_complete m (insert v k done) r
      (inl (k, ground (arith, lookup-insert v r k done, eq_iff v r)))
invert_complete ((k, v) ∷ m) done r (inr (q, later e)) =
    invert_complete m (insert v k done) r (inr (q, e))

match_roles_sound :
    (options : Options) (fuel : ℕ) (roles : List String) (m m' : Dict String)
    → match_roles options fuel roles m ≡ ok (some m')
    → IsAllowed options m
    → Distinct m
    → IsAllowed options m'
      × Distinct m'
      × ((r : String) → IsMatched options r m → IsMatched options r m')
      × ((r : String) → contains r roles ≡ true → IsMatched options r m')
unfolding match_roles contains
match_roles_sound options fuel [] m m' h allowed distinct =
    let e : m ≡ m' = eq_of_some (ok-injective h) in
    (
      subst (IsAllowed options) e allowed,
      subst Distinct e distinct,
      λ r (q, f). (q, ap (lookup q) (sym e) ∙ f),
      λ r c. cc,
    )
match_roles_sound options fuel (role ∷ roles) m m' h allowed distinct =
    let s : Search = record { visited = []; matched = m } in
    let (t, called, h1) = >>=-eq-ok (augment options fuel role s) _ h in
    elim (Bool-cases t.0) [
      | inl found ↦
          let g : Good options s role true t.1 =
            subst (λ b. Good options s role b t.1) found
              (augment-Good options fuel role s t.0 t.1 called) in
          let (fine, single, more, covered) =
            match_roles_sound options fuel roles t.1.matched m' (rw found at h1) (g.allowed allowed)
              (g.distinct distinct) in
          (
            fine,
            single,
            λ r held. more r (g.carried r held),
            λ r c. elim (Bool-cases (str_eq role r)) [
              | inl same ↦ more r (g.principal, g.placed ∙ ap some ((eq_iff role r).0 same))
              | inr other ↦ covered r (ground arith)
            ],
          )
      | inr missing ↦ absurd (ground arith)
    ]

assign_roles-matched :
    (roles : List String) (options : Options) (assignment : Dict String)
    → assign_roles roles options true ≡ ok (some assignment)
    → (m : Dict String) × (match_roles options
          (count_principals options + 1)
          (by_choices options roles)
          []
        ≡ ok (some m))
      × (invert m [] ≡ assignment)
unfolding assign_roles
assign_roles-matched roles options assignment h =
    let (o, matched, h1) =
      >>=-eq-ok (match_roles options (count_principals options + 1) (by_choices options roles) []) _
        h in
    elim (Option-cases o) [
      | inl missing ↦ absurd (ground arith)
      | inr (m, e) ↦ (m, matched ∙ ap ok e, eq_of_some (ok-injective (rw e at h1)))
    ]

-- If the principals must be distinct and an assignment is returned, then every role of the list has
-- a principal, no principal has two roles, and each principal has a valid approval in its role.
pub assign_roles_sound :
    (roles : List String) (options : Options) (assignment : Dict String)
    → assign_roles roles options true ≡ ok (some assignment)
    → ((role : String)
        → contains role roles ≡ true
        → (principal : String) × (lookup role assignment ≡ some principal)
          × (contains principal (options_for options role) ≡ true))
      × ((role other principal : String)
          → lookup role assignment ≡ some principal
          → lookup other assignment ≡ some principal
          → role ≡ other)
assign_roles_sound roles options assignment h =
    let (m, matched, inverted) = assign_roles-matched roles options assignment h in
    let (allowed, distinct, _, covered) =
      match_roles_sound options _ (by_choices options roles) [] m matched
        (λ q r e. absurd (lookup-nil q e)) tt in
    let held : (role principal : String)
        → lookup role assignment ≡ some principal
        → lookup principal m ≡ some role =
      (λ role principal e. elim (invert_sound m [] role principal (ap (lookup role) inverted ∙ e)) [
        | inl before ↦ absurd (lookup-nil role before)
        | inr entry ↦ Entry-lookup principal role m distinct entry
      ]) in
    (
      λ role wanted.
          let (q, e) = covered role (contains-by_choices options role roles ∙ wanted) in
          let (principal, found) = invert_complete m [] role (inr (q, lookup-Entry q role m e)) in
          let assigned = sym (ap (lookup role) inverted) ∙ found in
          (principal, assigned, allowed principal role (held role principal assigned)),
      λ role other principal e f. eq_of_some (sym (held role principal e) ∙ held other principal f),
    )

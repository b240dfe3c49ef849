-- ===== src/Policy/Roles.antt =====
-- `_assign_roles` of policy.py: principals for the approval roles, by augmenting paths.
pub mod Matching
pub mod Assignment
pub mod Fuel
use open_tapeout.Prelude.{
  ℕ, zero, suc, ◌+◌, String, Bool, true, false, not, Option, none, some, List, [], ◌∷◌, ◌++◌, map,
  leb, ltb, str_eq, lookup, insert, contains, add, Dict, if◌then◌else◌, length, sorted, all,
  is_empty,
}
use open_tapeout.Result.{Result, ok, err, out_of_fuel, key_error, ◌>>=◌}

-- The principals with a valid approval, for each role that has one.
abbrev pub Options : Type 0
Options = Dict (List String)

-- `options.get(role, set())`
unfoldable pub options_for : Options → String → List String
options_for options role = elim (lookup role options) [ none ↦ [] | some principals ↦ principals ]

-- What `augment` changes: `visited` and `principal_to_role`.
pub record Search : Type 0 where
  pub visited : List String
  pub matched : Dict String

abbrev pub Call : Type 0
Call = String → Search → Result (Bool × Search)

-- `principal_to_role[principal] = role; return True`
abbrev pub settle : String → String → Search → Bool × Search
settle principal role s = (true, record s { matched = insert principal role s.matched })

-- The loop of `augment`, which calls itself through `call`.
unfoldable pub try_each : Call → String → List String → Search → Result (Bool × Search)
try_each call role [] s = ok (false, s)
try_each call role (principal ∷ rest) s =
    let later = try_each call role rest in
    let s' = record s { visited = add principal s.visited } in
    if contains principal s.visited then later s else elim (lookup principal s.matched) [
      | none ↦ ok (settle principal role s')
      | some other ↦ do
        (moved, s'') ← call other s'
        if moved then ok (settle principal role s'') else later s''
    ]

unfoldable pub augment : Options → ℕ → String → Search → Result (Bool × Search)
unfolding try_each options_for
augment options zero role s = err out_of_fuel
augment options (suc fuel) role s =
    try_each (augment options fuel) role (sorted (options_for options role)) s

-- `sorted(roles, key=lambda r: len(options.get(r, set())))`
unfoldable pub insert_role : Options → String → List String → List String
unfolding options_for
insert_role options r [] = r ∷ []
insert_role options r (q ∷ rest) =
    if leb (length (options_for options r)) (length (options_for options q))
    then r ∷ q ∷ rest
    else q ∷ insert_role options r rest

unfoldable pub by_choices : Options → List String → List String
unfolding insert_role
by_choices options [] = []
by_choices options (r ∷ rest) = insert_role options r (by_choices options rest)

-- The loop over the roles: `none` is `return None`.
unfoldable pub match_roles : Options → ℕ → List String → Dict String → Result (Option (Dict String))
unfolding augment
match_roles options fuel [] matched = ok (some matched)
match_roles options fuel (role ∷ rest) matched = do
  (found, s) ← augment options fuel role (record { visited = []; matched = matched })
  if found then match_roles options fuel rest s.matched else ok none

-- `{role: principal for principal, role in principal_to_role.items()}`
unfoldable pub invert : Dict String → Dict String → Dict String
invert [] done = done
invert ((principal, role) ∷ rest) done = invert rest (insert role principal done)

-- A nested call marks one more principal of the options as visited.
unfoldable pub count_principals : Options → ℕ
count_principals [] = 0
count_principals ((_, principals) ∷ rest) = length principals + count_principals rest

-- `{role: sorted(options[role])[0] for role in roles}`, if each role has a principal
unfoldable pub first_choices : Options → List String → Dict String → Option (Dict String)
unfolding options_for
first_choices options [] done = some done
first_choices options (role ∷ rest) done = elim (sorted (options_for options role)) [
  | [] ↦ none
  | principal ∷ _ ↦ first_choices options rest (insert role principal done)
]

unfoldable pub assign_roles : List String → Options → Bool → Result (Option (Dict String))
unfolding by_choices match_roles invert count_principals first_choices
assign_roles roles options false = ok (first_choices options roles [])
assign_roles roles options true = do
  matched ← match_roles options (count_principals options + 1) (by_choices options roles) []
  ok (elim matched [ none ↦ none | some m ↦ some (invert m []) ])

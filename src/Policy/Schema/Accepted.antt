-- ===== src/Policy/Schema/Accepted.antt =====
-- `validate_policy` of policy.py accepts valid policies only.
use open_tapeout.Prelude.{
  String, Bool, true, false, ◌&&◌, not, Option, none, some, List, [], ◌∷◌, ◌≡◌, sym, ap, ◌∙◌, subst,
  arith, All, contains, all, is_empty, subset, same_set, str_eq, leb, length, if◌then◌else◌,
}
use open_tapeout.Result.{ok, >>=-eq-ok, ensure-eq-ok, ok-injective}
use open_tapeout.Json.{
  Json, bool, num, str, arr, obj, null, Items, nil, cons, Fields, get, get?, field_names,
}
use open_tapeout.Util.{identifier}
use open_tapeout.Records.{Requirement, Policy}
use open_tapeout.Graph.Kinds.{kinds}
use open_tapeout.Parsers.{checks}
use open_tapeout.Policy.Checks.{check_key}
use open_tapeout.Policy.Schema.{
  Strict, string_list, distinct, named, age, strict_part, lenient, metrics_of, strict_fields,
  common_fields, scope_of, requirement_of, requirements, required_checks, policy_fields, roles_of,
  switches_of, schema_of, validate_policy,
}
use open_tapeout.Policy.Schema.Valid.{
  IsPinned, IsRequirement, AreScoped, IsValid, age-is_age, strict_part-IsPinned, metrics_of-All,
}

record IsScope (strict : Bool) (t : String × String × Strict) : Type 0 where
  known_kind : contains t.0 checks ≡ true
  pinned : strict ≡ true → IsPinned t.1 t.2

scope_of-IsScope :
    (strict : Bool) (check : Fields) (t : String × String × Strict)
    → scope_of strict check ≡ ok t
    → IsScope strict t
unfolding scope_of
scope_of-IsScope strict check t h =
    let (_, h1) =
      ensure-eq-ok (same_set (field_names check) (if strict then strict_fields else common_fields))
        _ _ h in
    let (corner_field, _, h2) = >>=-eq-ok (get "corner" check) _ h1 in
    let (corner, _, h3) = >>=-eq-ok (named "Invalid identifier" corner_field) _ h2 in
    let (_, _, h4) = >>=-eq-ok (identifier corner) _ h3 in
    let (kind_field, _, h5) = >>=-eq-ok (get "kind" check) _ h4 in
    let (kind, _, h6) = >>=-eq-ok (named "Unsupported check kind" kind_field) _ h5 in
    let (known, h7) = ensure-eq-ok (contains kind checks) _ _ h6 in
    let (extra, more, h8) =
      >>=-eq-ok (if strict then strict_part corner check else ok lenient) _ h7 in
    subst (IsScope strict) (ok-injective h8) (record {
      known_kind = known;
      pinned = λ on.
          strict_part-IsPinned corner check extra
            (ap (λ b. if b then strict_part corner check else ok lenient) (sym on) ∙ more);
    })

-- A required check with its key, which none of the keys before it is.
requirement_of-IsRequirement :
    (strict : Bool) (seen : List String) (check : Fields) (r : Requirement)
    → requirement_of strict seen check ≡ ok r
    → (contains (check_key r.kind r.corner) seen ≡ false) × IsRequirement strict r
unfolding requirement_of
requirement_of-IsRequirement strict seen check r h =
    let (t, scoped, h1) = >>=-eq-ok (scope_of strict check) _ h in
    let (fresh, h2) = ensure-eq-ok (not (contains (check_key t.0 t.1) seen)) _ _ h1 in
    let (listed, _, h3) = >>=-eq-ok (get "required_resource_kinds" check) _ h2 in
    let (required, _, h4) = >>=-eq-ok (string_list "Invalid required resource kinds" listed) _ h3 in
    let (known, h5) = ensure-eq-ok (not (is_empty required) && subset required kinds) _ _ h4 in
    let (aged, _, h6) = >>=-eq-ok (get "max_age_hours" check) _ h5 in
    let (hours, young, h7) =
      >>=-eq-ok (age "Check maximum age must be positive and at most 100 years" aged) _ h6 in
    let (measured, _, h8) = >>=-eq-ok (get "metrics" check) _ h7 in
    let (metrics, ranged, h9) = >>=-eq-ok (metrics_of measured) _ h8 in
    let scope = scope_of-IsScope strict check t scoped in
    subst (λ x. (contains (check_key x.kind x.corner) seen ≡ false) × IsRequirement strict x)
      (ok-injective h9)
      (
        ground arith,
        record {
          known_kind = scope.known_kind;
          known_kinds = ground arith;
          some_kind = ground arith;
          young = age-is_age _ aged hours young;
          ranges = metrics_of-All measured metrics ranged;
          pinned = scope.pinned;
        },
      )

requirements-IsRequirement :
    (strict : Bool) (seen : List String) (items : Items) (rs : List Requirement)
    → requirements strict seen items ≡ ok rs
    → All (IsRequirement strict) rs × AreScoped seen rs
unfolding requirements
requirements-IsRequirement strict seen nil rs h =
    subst (λ x. All (IsRequirement strict) x × AreScoped seen x) (ok-injective h) (tt, tt)
requirements-IsRequirement strict seen (cons (obj check) rest) rs h =
    let (r, one, h1) = >>=-eq-ok (requirement_of strict seen check) _ h in
    let (others, more, h2) =
      >>=-eq-ok (requirements strict (check_key r.kind r.corner ∷ seen) rest) _ h1 in
    let (fresh, valid) = requirement_of-IsRequirement strict seen check r one in
    let (all_valid, scoped) =
      requirements-IsRequirement strict (check_key r.kind r.corner ∷ seen) rest others more in
    subst (λ x. All (IsRequirement strict) x × AreScoped seen x) (ok-injective h2)
      ((valid, all_valid), (fresh, scoped))
requirements-IsRequirement strict seen (cons (null) rest) rs h = cc
requirements-IsRequirement strict seen (cons (bool b) rest) rs h = cc
requirements-IsRequirement strict seen (cons (num n) rest) rs h = cc
requirements-IsRequirement strict seen (cons (str s) rest) rs h = cc
requirements-IsRequirement strict seen (cons (arr items) rest) rs h = cc

requirements-cons :
    (strict : Bool) (seen : List String) (check : Json) (rest : Items) (rs : List Requirement)
    → requirements strict seen (cons check rest) ≡ ok rs
    → is_empty rs ≡ false
unfolding requirements
requirements-cons strict seen (obj check) rest rs h =
    let (r, _, h1) = >>=-eq-ok (requirement_of strict seen check) _ h in
    let (others, _, h2) =
      >>=-eq-ok (requirements strict (check_key r.kind r.corner ∷ seen) rest) _ h1 in
    ap is_empty (sym (ok-injective h2))
requirements-cons strict seen (null) rest rs h = cc
requirements-cons strict seen (bool b) rest rs h = cc
requirements-cons strict seen (num n) rest rs h = cc
requirements-cons strict seen (str s) rest rs h = cc
requirements-cons strict seen (arr items) rest rs h = cc

required_checks-IsRequirement :
    (strict : Bool) (v : Json) (rs : List Requirement)
    → required_checks strict v ≡ ok rs
    → All (IsRequirement strict) rs × AreScoped [] rs × (is_empty rs ≡ false)
unfolding required_checks
required_checks-IsRequirement strict (arr (cons check rest)) rs h =
    let (valid, scoped) = requirements-IsRequirement strict [] (cons check rest) rs h in
    (valid, scoped, requirements-cons strict [] check rest rs h)
required_checks-IsRequirement strict (arr nil) rs h = cc
required_checks-IsRequirement strict (null) rs h = cc
required_checks-IsRequirement strict (bool b) rs h = cc
required_checks-IsRequirement strict (num n) rs h = cc
required_checks-IsRequirement strict (str s) rs h = cc
required_checks-IsRequirement strict (obj f) rs h = cc

abbrev IsRoles : List String → Type 0
IsRoles roles = (is_empty roles ≡ false) × (leb (length roles) 64 ≡ true) × (distinct roles ≡ true)

roles_of-IsRoles : (v : Json) (roles : List String) → roles_of v ≡ ok roles → IsRoles roles
unfolding roles_of
roles_of-IsRoles v roles h =
    let (found, _, h1) =
      >>=-eq-ok (string_list "Approval roles must be nonempty and unique" v) _ h in
    let (good, h2) =
      ensure-eq-ok
        (not (is_empty found)
          && all (λ r. not (str_eq r "")) found
          && distinct found
          && leb (length found) 64)
        _ _ h1 in
    subst IsRoles (ok-injective h2) (ground arith, ground arith, ground arith)

schema_of-contains :
    (o : Option Json) (schema : String)
    → schema_of o ≡ ok schema
    → contains schema ("opentapeout.policy/v1" ∷ "opentapeout.policy/v2" ∷ []) ≡ true
unfolding schema_of
schema_of-contains (some (str s)) schema h =
    let (known, h1) =
      ensure-eq-ok (contains s ("opentapeout.policy/v1" ∷ "opentapeout.policy/v2" ∷ [])) _ _ h in
    subst (λ x. contains x ("opentapeout.policy/v1" ∷ "opentapeout.policy/v2" ∷ []) ≡ true)
      (ok-injective h1) known
schema_of-contains none schema h = cc
schema_of-contains (some (null)) schema h = cc
schema_of-contains (some (bool b)) schema h = cc
schema_of-contains (some (num n)) schema h = cc
schema_of-contains (some (arr items)) schema h = cc
schema_of-contains (some (obj f)) schema h = cc

-- A policy that `validate_policy` accepts is valid: its schema is v1 or v2; it has a required check,
-- each with a known kind and known resource kinds, a maximum age above 0 and at most 876000 hours and
-- metric ranges that are not empty, and no two have one kind and corner; under v2 each has hexadecimal
-- pins that cover its corner and its tools, and known formats; and it has 1 to 64 different roles.
pub validate_policy-IsValid :
    (v : Json) (policy : Policy) → validate_policy v ≡ ok policy → IsValid policy
unfolding validate_policy
validate_policy-IsValid (obj f) policy h =
    let (schema, known, h1) = >>=-eq-ok (schema_of (get? "schema" f)) _ h in
    let (_, h2) = ensure-eq-ok (same_set (field_names f) policy_fields) _ _ h1 in
    let (listed, _, h3) = >>=-eq-ok (get "required_checks" f) _ h2 in
    let (checked, required, h4) =
      >>=-eq-ok (required_checks (str_eq schema "opentapeout.policy/v2") listed) _ h3 in
    let (named_roles, _, h5) = >>=-eq-ok (get "approval_roles" f) _ h4 in
    let (roles, approved, h6) = >>=-eq-ok (roles_of named_roles) _ h5 in
    let (switches, _, h7) = >>=-eq-ok (switches_of f) _ h6 in
    let (aged, _, h8) = >>=-eq-ok (get "max_approval_age_hours" f) _ h7 in
    let (hours, young, h9) =
      >>=-eq-ok (age "Approval maximum age must be positive and at most 100 years" aged) _ h8 in
    let (valid, scoped, some_check) = required_checks-IsRequirement _ listed checked required in
    let (some_role, few, unique) = roles_of-IsRoles named_roles roles approved in
    subst IsValid (ok-injective h9) (record {
      known_schema = schema_of-contains (get? "schema" f) schema known;
      some_check = some_check;
      checked = valid;
      scoped = scoped;
      some_role = some_role;
      few_roles = few;
      distinct_roles = unique;
      young = age-is_age _ aged hours young;
    })
validate_policy-IsValid (null) policy h = cc
validate_policy-IsValid (bool b) policy h = cc
validate_policy-IsValid (num n) policy h = cc
validate_policy-IsValid (str s) policy h = cc
validate_policy-IsValid (arr items) policy h = cc

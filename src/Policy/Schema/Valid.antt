-- ===== src/Policy/Schema/Valid.antt =====
-- What holds of every policy that `validate_policy` of policy.py accepts.
use open_tapeout.Prelude.{
  String, Bool, true, false, ◌&&◌, not, List, [], ◌∷◌, ◌≡◌, subst, arith, Dict, All, has, contains,
  is_empty, subset, str_eq, leb, length,
}
use open_tapeout.Result.{ok, >>=-eq-ok, ensure-eq-ok, ok-injective}
use open_tapeout.Json.{
  Json, bool, num, str, arr, obj, null, Number, Fields, end, field, get, field_names,
}
use open_tapeout.Util.{identifier, is_hex}
use open_tapeout.Records.{Limits, Requirement, Policy}
use open_tapeout.Graph.Kinds.{kinds}
use open_tapeout.Parsers.{checks, formats}
use open_tapeout.Policy.Checks.{check_key}
use open_tapeout.Policy.Schema.{
  Strict, string_list, distinct, boolean, is_age, age, pins_of, strict_pins, check_tools,
  strict_part, limit, is_range, limits_of, thresholds, metrics_of,
}

-- The lists of policy v2: pins for the corner and for every tool, and known formats.
pub record IsPinned (corner : String) (x : Strict) : Type 0 where
  pub corner_pin : has corner x.input_pins ≡ true
  pub tool_pins : All (λ tool. has tool x.input_pins ≡ true) x.allowed_tools
  pub some_tool : is_empty x.allowed_tools ≡ false
  pub known_formats : subset x.report_formats formats ≡ true
  pub hex_pins : All (λ (e : String × String). is_hex e.1 ≡ true) x.input_pins

pub record IsRequirement (strict : Bool) (r : Requirement) : Type 0 where
  pub known_kind : contains r.kind checks ≡ true
  pub known_kinds : subset r.required_resource_kinds kinds ≡ true
  pub some_kind : is_empty r.required_resource_kinds ≡ false
  pub young : is_age r.max_age_hours ≡ true
  pub ranges : All (λ (m : String × Limits). is_range m.1 ≡ true) r.metrics
  pub pinned :
      strict ≡ true
      → IsPinned r.corner (record {
        input_pins = r.input_pins;
        allowed_tools = r.allowed_tools;
        report_formats = r.report_formats;
        require_pinned_executable = r.require_pinned_executable;
      })

-- No two required checks have one key.
abbrev pub AreScoped : List String → List Requirement → Type 0
AreScoped seen [] = Unit
AreScoped seen (r ∷ rest) =
    (contains (check_key r.kind r.corner) seen ≡ false)
    × AreScoped (check_key r.kind r.corner ∷ seen) rest

pub record IsValid (policy : Policy) : Type 0 where
  pub known_schema :
      contains policy.schema ("opentapeout.policy/v1" ∷ "opentapeout.policy/v2" ∷ []) ≡ true
  pub some_check : is_empty policy.required_checks ≡ false
  pub checked :
      All (IsRequirement (str_eq policy.schema "opentapeout.policy/v2")) policy.required_checks
  pub scoped : AreScoped [] policy.required_checks
  pub some_role : is_empty policy.approval_roles ≡ false
  pub few_roles : leb (length policy.approval_roles) 64 ≡ true
  pub distinct_roles : distinct policy.approval_roles ≡ true
  pub young : is_age policy.max_approval_age_hours ≡ true

pub age-is_age : (message : String) (v : Json) (n : Number) → age message v ≡ ok n → is_age n ≡ true
unfolding age
age-is_age message (num n) m h =
    let (young, h1) = ensure-eq-ok (is_age n) _ _ h in
    subst (λ x. is_age x ≡ true) (ok-injective h1) young
age-is_age message (null) m h = cc
age-is_age message (bool b) m h = cc
age-is_age message (str s) m h = cc
age-is_age message (arr items) m h = cc
age-is_age message (obj f) m h = cc

check_tools-All :
    (pins : Dict String) (tools : List String)
    → check_tools pins tools ≡ ok tt
    → All (λ tool. has tool pins ≡ true) tools
unfolding check_tools
check_tools-All pins [] h = tt
check_tools-All pins (tool ∷ rest) h =
    let (_, _, h1) = >>=-eq-ok (identifier tool) _ h in
    let (pinned, h2) = ensure-eq-ok (has tool pins) _ _ h1 in (pinned, check_tools-All pins rest h2)

pins_of-All :
    (f : Fields) (pins : Dict String)
    → pins_of f ≡ ok pins
    → All (λ (e : String × String). is_hex e.1 ≡ true) pins
unfolding pins_of
pins_of-All end pins h =
    subst (All (λ (e : String × String). is_hex e.1 ≡ true)) (ok-injective h) tt
pins_of-All (field k (str v) rest) pins h =
    let (_, _, h1) = >>=-eq-ok (identifier k) _ h in
    let (hex, h2) = ensure-eq-ok (is_hex v) _ _ h1 in
    let (others, more, h3) = >>=-eq-ok (pins_of rest) _ h2 in
    subst (All (λ (e : String × String). is_hex e.1 ≡ true)) (ok-injective h3)
      (hex, pins_of-All rest others more)
pins_of-All (field k (num n) rest) pins h = cc
pins_of-All (field k (null) rest) pins h = cc
pins_of-All (field k (bool b) rest) pins h = cc
pins_of-All (field k (arr items) rest) pins h = cc
pins_of-All (field k (obj f) rest) pins h = cc

strict_pins-All :
    (v : Json) (pins : Dict String)
    → strict_pins v ≡ ok pins
    → All (λ (e : String × String). is_hex e.1 ≡ true) pins
unfolding strict_pins
strict_pins-All (obj f) pins h =
    let (_, h1) = ensure-eq-ok (not (is_empty (field_names f))) _ _ h in pins_of-All f pins h1
strict_pins-All (null) pins h = cc
strict_pins-All (bool b) pins h = cc
strict_pins-All (num n) pins h = cc
strict_pins-All (str s) pins h = cc
strict_pins-All (arr items) pins h = cc

pub strict_part-IsPinned :
    (corner : String) (check : Fields) (x : Strict)
    → strict_part corner check ≡ ok x
    → IsPinned corner x
unfolding strict_part
strict_part-IsPinned corner check x h =
    let (pinned, _, h1) = >>=-eq-ok (get "input_pins" check) _ h in
    let (pins, hexed, h2) = >>=-eq-ok (strict_pins pinned) _ h1 in
    let (tool_list, _, h3) = >>=-eq-ok (get "allowed_tools" check) _ h2 in
    let (format_list, _, h4) = >>=-eq-ok (get "report_formats" check) _ h3 in
    let (tools, _, h5) = >>=-eq-ok (string_list "Allowed tools required" tool_list) _ h4 in
    let (some_tools, h6) = ensure-eq-ok (not (is_empty tools) && distinct tools) _ _ h5 in
    let (_, tooled, h7) = >>=-eq-ok (check_tools pins tools) _ h6 in
    let (cornered, h8) = ensure-eq-ok (has corner pins) _ _ h7 in
    let (names, _, h9) =
      >>=-eq-ok (string_list "Invalid report format allowlist" format_list) _ h8 in
    let (listed, h10) =
      ensure-eq-ok (not (is_empty names) && subset names formats && distinct names) _ _ h9 in
    let (executable, _, h11) = >>=-eq-ok (get "require_pinned_executable" check) _ h10 in
    let (_, _, h12) =
      >>=-eq-ok (boolean "Executable pin requirement must be boolean" executable) _ h11 in
    subst (IsPinned corner) (ok-injective h12) (record {
      corner_pin = cornered;
      tool_pins = check_tools-All pins tools tooled;
      some_tool = ground arith;
      known_formats = ground arith;
      hex_pins = strict_pins-All pinned pins hexed;
    })

limits_of-is_range : (v : Json) (l : Limits) → limits_of v ≡ ok l → is_range l ≡ true
unfolding limits_of
limits_of-is_range (obj f) l h =
    let (_, h1) =
      ensure-eq-ok (not (is_empty (field_names f)) && subset (field_names f) ("min" ∷ "max" ∷ [])) _
        _ h in
    let (least, _, h2) = >>=-eq-ok (limit "min" f) _ h1 in
    let (most, _, h3) = >>=-eq-ok (limit "max" f) _ h2 in
    let (range, h4) = ensure-eq-ok (is_range (record { min = least; max = most })) _ _ h3 in
    subst (λ x. is_range x ≡ true) (ok-injective h4) range
limits_of-is_range (null) l h = cc
limits_of-is_range (bool b) l h = cc
limits_of-is_range (num n) l h = cc
limits_of-is_range (str s) l h = cc
limits_of-is_range (arr items) l h = cc

thresholds-All :
    (f : Fields) (metrics : Dict Limits)
    → thresholds f ≡ ok metrics
    → All (λ (m : String × Limits). is_range m.1 ≡ true) metrics
unfolding thresholds
thresholds-All end metrics h =
    subst (All (λ (m : String × Limits). is_range m.1 ≡ true)) (ok-injective h) tt
thresholds-All (field name limits rest) metrics h =
    let (l, bounded, h1) = >>=-eq-ok (limits_of limits) _ h in
    let (others, more, h2) = >>=-eq-ok (thresholds rest) _ h1 in
    subst (All (λ (m : String × Limits). is_range m.1 ≡ true)) (ok-injective h2)
      (limits_of-is_range limits l bounded, thresholds-All rest others more)

pub metrics_of-All :
    (v : Json) (metrics : Dict Limits)
    → metrics_of v ≡ ok metrics
    → All (λ (m : String × Limits). is_range m.1 ≡ true) metrics
unfolding metrics_of
metrics_of-All (obj f) metrics h = thresholds-All f metrics h
metrics_of-All (null) metrics h = cc
metrics_of-All (bool b) metrics h = cc
metrics_of-All (num n) metrics h = cc
metrics_of-All (str s) metrics h = cc
metrics_of-All (arr items) metrics h = cc

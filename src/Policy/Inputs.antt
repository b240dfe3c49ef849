-- ===== src/Policy/Inputs.antt =====
-- What the inputs of a run that block nothing have established: `stale_inputs`, `input_blockers`.
use open_tapeout.Prelude.{
  String, Bool, true, false, ◌&&◌, ◌||◌, not, Option, none, some, Option-cases, Bool-cases, List,
  [], ◌∷◌, ◌≡◌, ◌≢◌, refl, ap, ◌⊎◌, inl, inr, arith, All, Dict, lookup, keys, has, contains, str_eq,
  eq_iff, keep,
}
use open_tapeout.Result.{ok, >>=-eq-ok, ok-injective}
use open_tapeout.Records.{Resource, Run, Requirement, Policy, Platform}
use open_tapeout.Graph.{Graph, closure}
use open_tapeout.Policy.Checks.{
  block_if, input_blockers, stale_inputs, is_policy_v2, exact_input_blockers, bound_kinds,
  pdk_blockers, input_pin_blockers, pin_blockers, has_pinned_executable, is_tool_spec, option_is,
  same_dict, is_metadata_pdk, symmetric_difference,
}
use open_tapeout.Policy.Blocking.{
  append-eq-nil, false_of_block_if, concat-eq-nil, block_each-eq-nil, eq-nil_of_is_empty, All-map,
}

-- The inputs are what the run recorded: every recorded fingerprint is the current one, and the
-- inputs that the roots reach now are the recorded ones: no name is in only one of the two.
pub record IsFresh (g : Graph) (run : Run) : Type 0 where
  pub current : Dict String
  pub reached : closure g run.roots ≡ ok current
  pub recorded :
      (same_dict current run.snapshot ≡ true) ⊎ (symmetric_difference current run.snapshot ≡ [])
  pub unchanged : All (λ (e : String × String). lookup e.0 g.fingerprints ≡ some e.1) run.snapshot

some_of_option_is : (o : Option String) (s : String) → option_is o s ≡ true → o ≡ some s
some_of_option_is none s h = cc
some_of_option_is (some t) s h = ap some ((eq_iff t s).0 h)

-- A filter that keeps nothing has found nothing.
keep-eq-nil {ℓ} :
    {A : Type ℓ} (t : A → Bool) (xs : List A) → keep t xs ≡ [] → All (λ x. t x ≡ false) xs
keep-eq-nil t [] h = tt
keep-eq-nil t (x ∷ xs) h = elim (Bool-cases (t x)) [
  | inl e ↦ absurd (ground arith)
  | inr e ↦ (e, keep-eq-nil t xs (ground arith))
]

nil_of_keys {ℓ} : {V : Type ℓ} (m : Dict V) → keys m ≡ [] → m ≡ []
nil_of_keys [] h = refl
nil_of_keys (e ∷ m) h = cc

module _ (g : Graph) (run : Run) where
  abbrev moved : Dict String
  moved = keep (λ e. not (option_is (lookup e.0 g.fingerprints) e.1)) run.snapshot

  unmoved :
      moved ≡ [] → All (λ (e : String × String). lookup e.0 g.fingerprints ≡ some e.1) run.snapshot
  unmoved h =
      All-map run.snapshot (λ e u. some_of_option_is (lookup e.0 g.fingerprints) e.1 (ground arith))
        (keep-eq-nil _ run.snapshot h)

  pub stale_inputs-IsFresh : stale_inputs g run ≡ ok [] → IsFresh g run
  unfolding stale_inputs
  stale_inputs-IsFresh h =
      let (current, reached, rest) = >>=-eq-ok (closure g run.roots) _ h in
      elim (Bool-cases (same_dict current run.snapshot)) [
        | inl same ↦ record {
          current = current;
          reached = reached;
          recorded = inl same;
          unchanged = unmoved (nil_of_keys moved (ok-injective (rw same at rest)));
        }
        | inr differs ↦
            let (still, names) =
              append-eq-nil (keys moved) (symmetric_difference current run.snapshot)
                (ok-injective (rw differs at rest)) in
            record {
              current = current;
              reached = reached;
              recorded = inr names;
              unchanged = unmoved (nil_of_keys moved still);
            }
      ]

-- A pinned input is bound by the run to the pinned bytes, unless it is an allowed tool that the
-- run did not use; a pinned tool or corner is a definition that its metadata alone determines.
pub data IsPinned (p : Platform) (g : Graph) (check : Requirement) (run : Run)
    (id expected : String) : Type 0 where
  unused :
      contains id check.allowed_tools ≡ true → id ≢ run.tool → IsPinned p g check run id expected
  bound :
      (r : Resource)
      → lookup id g.resources ≡ some r
      → has id run.snapshot ≡ true
      → r.sha256 ≡ expected
      → ((str_eq id run.tool || str_eq id run.corner) ≡ true
          → (r.path ≡ none) × (r.sha256 ≡ p.digest_metadata r.metadata))
      → IsPinned p g check run id expected

-- What policy v2 asks of a run beside its pins.
pub record IsExact (p : Platform) (g : Graph) (check : Requirement) (run : Run) : Type 0 where
  pub pins : All (λ (e : String × String). IsPinned p g check run e.0 e.1) check.input_pins
  pub tool_spec : is_tool_spec g run ≡ true
  pub tool : contains run.tool check.allowed_tools ≡ true
  pub executable : check.require_pinned_executable ≡ true → has_pinned_executable run ≡ true

true_of_not : (b : Bool) → not b ≡ false → b ≡ true
true_of_not b h = ground arith

module _ (p : Platform) (g : Graph) (policy : Policy) (check : Requirement) (run : Run)
    (scope : String) where
  pin_blockers-IsPinned :
      (id expected : String) (o : Option Resource)
      → lookup id g.resources ≡ o
      → pin_blockers p run scope id expected o ≡ []
      → IsPinned p g check run id expected
  unfolding pin_blockers block_if
  pin_blockers-IsPinned id expected none found h = absurd (ground arith)
  pin_blockers-IsPinned id expected (some r) found h = elim (Option-cases r.path) [
    | inl none_path ↦
        bound r found (ground arith) (ground (arith, eq_iff r.sha256 expected))
          (λ t. (none_path, ground (arith, eq_iff r.sha256 (p.digest_metadata r.metadata))))
    | inr (path, e) ↦
        bound r found (ground arith) (ground (arith, eq_iff r.sha256 expected))
          (λ t. absurd (ground arith))
  ]

  input_pin_blockers-IsPinned :
      (e : String × String)
      → input_pin_blockers p g check run scope e ≡ []
      → IsPinned p g check run e.0 e.1
  unfolding input_pin_blockers
  input_pin_blockers-IsPinned (id, expected) h =
      elim (Bool-cases (contains id check.allowed_tools && not (str_eq id run.tool))) [
        | inl skip ↦ unused (ground arith) (λ e. ground (arith, eq_iff id run.tool))
        | inr needed ↦
            pin_blockers-IsPinned id expected (lookup id g.resources) refl (rw needed at h)
      ]

  exact_input_blockers-IsExact :
      exact_input_blockers p g check run scope ≡ [] → IsExact p g check run
  unfolding exact_input_blockers
  exact_input_blockers-IsExact h =
      let parts = concat-eq-nil _ h in
      let spec = false_of_block_if _ _ _ _ parts.1.0 in
      let allowed = false_of_block_if _ _ _ _ parts.1.1.0 in
      let identity = false_of_block_if _ _ _ _ parts.1.1.1.1.0 in
      record {
        pins = All-map check.input_pins input_pin_blockers-IsPinned (block_each-eq-nil _ _ parts.0);
        tool_spec = ground arith;
        tool = ground arith;
        executable = λ required. ground arith;
      }

  pdk-hashed :
      (k : String) (r : Resource)
      → pdk_blockers g scope k ≡ []
      → lookup k g.resources ≡ some r
      → is_metadata_pdk r ≡ false
  unfolding pdk_blockers
  pdk-hashed k r e found =
      false_of_block_if (is_metadata_pdk r) _ _ _ (rw (found, pdk_blockers) at e)

  -- What the inputs of a run establish.
  pub record IsBound (stale : List String) : Type 0 where
    pub current : stale ≡ []
    pub exact : is_policy_v2 policy ≡ true → IsExact p g check run
    pub kinds :
        All
          (λ kind. contains kind (bound_kinds g (keys run.snapshot)) ≡ true)
          check.required_resource_kinds
    pub pdks :
        policy.require_hashed_pdk ≡ true
        → All
            (λ k. (r : Resource) → lookup k g.resources ≡ some r → is_metadata_pdk r ≡ false)
            (keys run.snapshot)

  pub input_blockers-IsBound :
      (stale : List String) → input_blockers p g policy check run scope stale ≡ [] → IsBound stale
  unfolding input_blockers
  input_blockers-IsBound stale h =
      let parts = concat-eq-nil _ h in
      let fresh = false_of_block_if _ _ _ _ parts.0 in
      record {
        current = eq-nil_of_is_empty stale (ground arith);
        exact = λ v2. exact_input_blockers-IsExact (rw v2 at parts.1.0);
        kinds =
            All-map check.required_resource_kinds
              (λ kind e.
                true_of_not (contains kind (bound_kinds g (keys run.snapshot)))
                  (false_of_block_if _ _ _ _ e))
              (block_each-eq-nil _ _ parts.1.1.0);
        pdks = λ required.
            All-map (keys run.snapshot) hashed
              (block_each-eq-nil _ _ (rw required at parts.1.1.1.0));
      }
    where
      hashed :
          (k : String)
          → pdk_blockers g scope k ≡ []
          → (r : Resource) → lookup k g.resources ≡ some r
          → is_metadata_pdk r ≡ false
      hashed k e r found = pdk-hashed k r e found

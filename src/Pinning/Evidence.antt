-- ===== src/Pinning/Evidence.antt =====
-- What the tests of `pin_policy` of pinning.py establish: inputs that are fresh, evidence whose bytes
-- are intact, and the registered tool and corner of a run.
use open_tapeout.Prelude.{
  String, true, false, and-eq-true, Option, Option-cases, none, some, inl, inr, List, [], ◌∷◌, ◌≡◌,
  refl, ap, ◌∙◌, subst, arith, All, Dict, lookup, keys, is_empty, str_eq, eq_iff, all, length, ◌==◌,
  ==_iff,
}
use open_tapeout.Result.{
  ok, err, tapeout, ensure, ◌>>◌, true_of_ensure, >>=-eq-ok, ensure-eq-ok, ok-injective,
}
use open_tapeout.Json.{Json, null, bool, num, str, arr, obj, get?, fields_eq}
use open_tapeout.Util.{is_hex}
use open_tapeout.Records.{Resource, ExecutionIdentity, Run, Platform}
use open_tapeout.Policy.Blocking.{eq-nil_of_is_empty}
use open_tapeout.Graph.{Graph}
use open_tapeout.Graph.Drift.{Workspace, stale_of, drift, assert_fresh}
use open_tapeout.Graph.Unchanged.{IsUnchanged, drift-IsUnchanged}
use open_tapeout.Policy.Checks.{option_is, same_dict}
use open_tapeout.Engine.Register.{resource_at}
use open_tapeout.Pinning.{
  is_metadata_only, is_identified, executable_pin, digests_at, captured, known_tool,
}

-- The resources are not stale in the graph, and the workspace still shows what was registered.
pub record AreFresh (w : Workspace) (g : Graph) (selected : List String) : Type 0 where
  pub current : All (λ k. lookup k g.stale ≡ some []) selected
  pub unchanged :
      All (λ k. (r : Resource) × (lookup k g.resources ≡ some r) × IsUnchanged w r) selected

stale_of-nil :
    (g : Graph) (selected : List String)
    → stale_of g selected ≡ ok []
    → All (λ k. lookup k g.stale ≡ some []) selected
unfolding stale_of
stale_of-nil g [] h = tt
stale_of-nil g (key ∷ selected) h = elim (Option-cases (lookup key g.stale)) [
  | inl missing ↦ absurd (ground arith)
  | inr ([], e) ↦
      let (others, more, h1) = >>=-eq-ok (stale_of g selected) _ (rw (e, stale_of) at h) in
      (e, stale_of-nil g selected (more ∙ h1))
  | inr (why ∷ reasons, e) ↦
      let (others, more, h1) = >>=-eq-ok (stale_of g selected) _ (rw (e, stale_of) at h) in
      absurd (ground arith)
]

pub assert_fresh-AreFresh :
    (w : Workspace) (g : Graph) (selected : List String)
    → assert_fresh w g selected ≡ ok tt
    → AreFresh w g selected
unfolding assert_fresh
assert_fresh-AreFresh w g selected h =
    let (stale, s, h1) = >>=-eq-ok (stale_of g selected) _ h in
    let (no_stale, h2) = ensure-eq-ok (is_empty stale) _ _ h1 in
    let (found, f, h3) = >>=-eq-ok (drift w g.resources selected) _ h2 in
    let no_drift = true_of_ensure (is_empty found) _ h3 in
    record {
      current = stale_of-nil g selected (s ∙ ap ok (eq-nil_of_is_empty stale no_stale));
      unchanged =
          drift-IsUnchanged w g.resources selected (f ∙ ap ok (eq-nil_of_is_empty found no_drift));
    }

-- Two dictionaries of one size, of which the second has every entry of the first.
pub record AreSame (a b : Dict String) : Type 0 where
  pub sizes : length a ≡ length b
  pub entries : All (λ (e : String × String). lookup e.0 b ≡ some e.1) a

all-entries :
    (a b : Dict String)
    → all (λ e. option_is (lookup e.0 b) e.1) a ≡ true
    → All (λ (e : String × String). lookup e.0 b ≡ some e.1) a
all-entries [] b h = tt
all-entries (e ∷ a) b h =
    let (first, rest) = and-eq-true (option_is (lookup e.0 b) e.1) (all _ a) h in
    (
      elim (Option-cases (lookup e.0 b)) [
        | inl missing ↦ absurd (ground arith)
        | inr (v, found) ↦ found ∙ ap some ((eq_iff v e.1).0 (ground arith))
      ],
      all-entries a b rest,
    )

pub same_dict-AreSame : (a b : Dict String) → same_dict a b ≡ true → AreSame a b
unfolding same_dict
same_dict-AreSame a b h =
    let (sizes, entries) = and-eq-true (length a == length b) (all _ a) h in
    record { sizes = (==_iff (length a) (length b)).0 sizes; entries = all-entries a b entries }

module _ (p : Platform) (w : Workspace) where
  -- An object was captured, and the store holds its bytes.
  pub captured-intact :
      (o : Option String)
      → captured p w o ≡ ok tt
      → (checksum : String) × (o ≡ some checksum) × (w.object_error checksum ≡ none)
  unfolding captured
  captured-intact none h = cc
  captured-intact (some checksum) h = elim (Option-cases (w.object_error checksum)) [
    | inl e ↦ (checksum, refl, e)
    | inr (reason, e) ↦ absurd (ground arith)
  ]

  -- A registered resource that is its metadata alone, with their digest.
  pub record IsMetadataOnly (r : Resource) : Type 0 where
    pub pathless : r.path ≡ none
    pub digested : r.sha256 ≡ p.digest_metadata r.metadata

  is_metadata_only-IsMetadataOnly : (r : Resource) → is_metadata_only p r ≡ true → IsMetadataOnly r
  is_metadata_only-IsMetadataOnly r h =
      let (pathless, same) =
        and-eq-true (elim r.path [ none ↦ true | some _ ↦ false ])
          (str_eq r.sha256 (p.digest_metadata r.metadata)) h in
      record {
        pathless = elim (Option-cases r.path) [ inl e ↦ e | inr (path, e) ↦ absurd (ground arith) ];
        digested = (eq_iff r.sha256 (p.digest_metadata r.metadata)).0 same;
      }

  -- Tool and corner of a run are registered as metadata, the tool that ran is the registered one, and
  -- its executable has a pin.
  pub record IsKnownTool (g : Graph) (run : Run) (pin : String) : Type 0 where
    pub tool : Resource
    pub corner : Resource
    pub tool_found : lookup run.tool g.resources ≡ some tool
    pub tool_metadata : IsMetadataOnly tool
    pub corner_found : lookup run.corner g.resources ≡ some corner
    pub corner_metadata : IsMetadataOnly corner
    pub ran : fields_eq run.tool_spec tool.metadata ≡ true
    pub pinned : get? "executable_sha256" run.tool_spec ≡ some (str pin)
    pub hex : is_hex pin ≡ true

  resource_at-found :
      (resources : Dict Resource) (key : String) (r : Resource)
      → resource_at resources key ≡ ok r
      → lookup key resources ≡ some r
  unfolding resource_at
  resource_at-found resources key r h = elim (Option-cases (lookup key resources)) [
    | inl missing ↦ absurd (ground arith)
    | inr (r', e) ↦ ground arith
  ]

  pin_of :
      (o : Option Json) (pin : String)
      → elim o [
        | some (str s) ↦ do
          ensure (is_hex s) "Register an executable SHA-256 pin before execution"
          ok s
        | _ ↦ err (tapeout "Register an executable SHA-256 pin before execution")
      ]
        ≡ ok pin
      → (o ≡ some (str pin)) × (is_hex pin ≡ true)
  pin_of (some (str s)) pin h =
      let (hex, h1) = ensure-eq-ok (is_hex s) _ _ h in
      let same = ok-injective h1 in
      (ap (λ t. some (str t)) same, subst (λ t. is_hex t ≡ true) same hex)
  pin_of none pin h = cc
  pin_of (some null) pin h = cc
  pin_of (some (bool b)) pin h = cc
  pin_of (some (num n)) pin h = cc
  pin_of (some (arr xs)) pin h = cc
  pin_of (some (obj f)) pin h = cc

  pub known_tool-IsKnownTool :
      (g : Graph) (run : Run) (pin : String) → known_tool p w g run ≡ ok pin → IsKnownTool g run pin
  unfolding known_tool executable_pin
  known_tool-IsKnownTool g run pin h =
      let (tool, t, h1) = >>=-eq-ok (resource_at g.resources run.tool) _ h in
      let (plain, h2) = ensure-eq-ok (is_metadata_only p tool) _ _ h1 in
      let (corner, c, h3) = >>=-eq-ok (resource_at g.resources run.corner) _ h2 in
      let (bare, h4) = ensure-eq-ok (is_metadata_only p corner) _ _ h3 in
      let (ran, h5) = ensure-eq-ok (fields_eq run.tool_spec tool.metadata) _ _ h4 in
      let (pinned, hex) = pin_of (get? "executable_sha256" run.tool_spec) pin h5 in
      record {
        tool = tool;
        corner = corner;
        tool_found = resource_at-found g.resources run.tool tool t;
        tool_metadata = is_metadata_only-IsMetadataOnly tool plain;
        corner_found = resource_at-found g.resources run.corner corner c;
        corner_metadata = is_metadata_only-IsMetadataOnly corner bare;
        ran = ran;
        pinned = pinned;
        hex = hex;
      }

  -- The executable that ran had the digest of the pin, before and after the run.
  pub is_identified-unchanged :
      (o : Option ExecutionIdentity) (pin : String)
      → is_identified o pin ≡ true
      → (identity : ExecutionIdentity) × (o ≡ some identity)
        × (identity.sha256 ≡ pin)
        × (identity.unchanged ≡ true)
  is_identified-unchanged none pin h = cc
  is_identified-unchanged (some identity) pin h =
      let (same, unchanged) = and-eq-true (str_eq identity.sha256 pin) identity.unchanged h in
      (identity, refl, (eq_iff identity.sha256 pin).0 same, unchanged)

  -- The pins name exactly the keys, each with the digest of its resource.
  pub record ArePins (resources : Dict Resource) (selected : List String) (pins : Dict String)
      : Type 0 where
    pub named : keys pins ≡ selected
    pub digests :
        All
          (λ (pin : String × String).
            (r : Resource) × (lookup pin.0 resources ≡ some r) × (pin.1 ≡ r.sha256))
          pins

  pub digests_at-ArePins :
      (resources : Dict Resource) (selected : List String) (pins : Dict String)
      → digests_at resources selected ≡ ok pins
      → ArePins resources selected pins
  unfolding digests_at
  digests_at-ArePins resources [] pins h =
      subst (ArePins resources []) (ok-injective h) (record { named = refl; digests = tt })
  digests_at-ArePins resources (key ∷ selected) pins h =
      let (r, found, h1) = >>=-eq-ok (resource_at resources key) _ h in
      let (others, more, h2) = >>=-eq-ok (digests_at resources selected) _ h1 in
      let rest = digests_at-ArePins resources selected others more in
      subst (ArePins resources (key ∷ selected)) (ok-injective h2) (record {
        named = ap (λ ks. key ∷ ks) rest.named;
        digests = ((r, resource_at-found resources key r found, refl), rest.digests);
      })

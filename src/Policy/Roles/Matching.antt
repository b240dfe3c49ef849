-- ===== src/Policy/Roles/Matching.antt =====
-- What an assignment of principals to roles satisfies.
use open_tapeout.Prelude.{
  ℕ, zero, suc, String, Bool, true, false, none, some, Option-cases, Bool-cases, List, [], ◌∷◌, ◌≡◌,
  refl, sym, ap, ◌∙◌, subst, inl, inr, arith, if◌then◌else◌, Dict, lookup, lookup-insert, contains,
  add, contains-add, sorted, contains-sorted, str_eq, eq_iff, eq_refl, Distinct, insert-Distinct,
}
use open_tapeout.Result.{Result, ok, >>=-eq-ok, ok-injective}
use open_tapeout.Policy.Roles.{Options, options_for, Search, Call, settle, try_each, augment}

module _ (options : Options) where
  -- Every pair of the matching is one of the options.
  abbrev pub IsAllowed : Dict String → Type 0
  IsAllowed m = (q r : String) → lookup q m ≡ some r → contains q (options_for options r) ≡ true

  abbrev pub IsMatched : String → Dict String → Type 0
  IsMatched r m = (q : String) × (lookup q m ≡ some r)

  -- The role found a principal that was not yet visited; no role lost its own, and the visited
  -- principals were left alone.
  pub record Moves (s s' : Search) (role : String) : Type 0 where
    pub kept : (q : String) → contains q s.visited ≡ true → lookup q s'.matched ≡ lookup q s.matched
    pub principal : String
    pub unvisited : contains principal s.visited ≡ false
    pub placed : lookup principal s'.matched ≡ some role
    pub carried : (r : String) → IsMatched r s.matched → IsMatched r s'.matched
    pub allowed : IsAllowed s.matched → IsAllowed s'.matched
    pub distinct : Distinct s.matched → Distinct s'.matched

  pub record Stays (s s' : Search) : Type 0 where
    pub matching : s'.matched ≡ s.matched
    pub marks : (q : String) → contains q s.visited ≡ true → contains q s'.visited ≡ true

  abbrev pub Good : Search → String → Bool → Search → Type 0
  Good s role true s' = Moves s s' role
  Good s role false s' = Stays s s'

  abbrev pub IsGood : Call → Type 0
  IsGood call =
      (role : String) (s : Search) (b : Bool) (s' : Search)
      → call role s ≡ ok (b, s')
      → Good s role b s'

  -- A principal that no role holds takes the role.
  settle-Moves :
      (q role : String) (s : Search)
      → contains q s.visited ≡ false
      → contains q (options_for options role) ≡ true
      → lookup q s.matched ≡ none
      → Moves s (settle q role (record s { visited = add q s.visited })).1 role
  settle-Moves q role s new option free = record {
    kept = λ k old. lookup-insert q k role s.matched ∙ ground (arith, eq_iff q k);
    principal = q;
    unvisited = new;
    placed = lookup-insert q q role s.matched ∙ ground (arith, eq_refl q);
    carried = λ r (k, e). (k, lookup-insert q k role s.matched ∙ ground (arith, eq_iff q k));
    allowed = λ a k r e. elim (Bool-cases (str_eq q k)) [
      | inl same ↦ ground (arith, lookup-insert q k role s.matched, eq_iff q k)
      | inr other ↦ a k r (ground (arith, lookup-insert q k role s.matched))
    ];
    distinct = insert-Distinct q role s.matched;
  }

  -- The role that held the principal has found another one.
  displace-Moves :
      (q role other : String) (s s'' : Search)
      → contains q s.visited ≡ false
      → contains q (options_for options role) ≡ true
      → lookup q s.matched ≡ some other
      → Moves (record s { visited = add q s.visited }) s'' other
      → Moves s (settle q role s'').1 role
  displace-Moves q role other s s'' new option held m =
      let stays = m.kept q (contains-add q q s.visited ∙ ground (arith, eq_refl q)) in
      let moved = contains-add q m.principal s.visited in
      record {
        kept = λ k old.
            lookup-insert q k role s''.matched
            ∙ ground (arith, eq_iff q k, m.kept k, contains-add q k s.visited);
        principal = q;
        unvisited = new;
        placed = lookup-insert q q role s''.matched ∙ ground (arith, eq_refl q);
        carried = λ r held_by.
            let (k, e) = m.carried r held_by in
            elim (Bool-cases (str_eq q k)) [
              | inl same ↦ (
                m.principal,
                lookup-insert q m.principal role s''.matched
                    ∙ ground (arith, eq_iff q k, m.placed, m.unvisited, moved, stays),
              )
              | inr differs ↦ (k, lookup-insert q k role s''.matched ∙ ground arith)
            ];
        allowed = λ a k r e. elim (Bool-cases (str_eq q k)) [
          | inl same ↦ ground (arith, lookup-insert q k role s''.matched, eq_iff q k)
          | inr differs ↦ m.allowed a k r (ground (arith, lookup-insert q k role s''.matched))
        ];
        distinct = λ d. insert-Distinct q role s''.matched (m.distinct d);
      }

  Stays-Good :
      (s s1 : Search) (role : String) (b : Bool) (s2 : Search)
      → Stays s s1
      → Good s1 role b s2
      → Good s role b s2
  Stays-Good s s1 role false s2 st g = record {
    matching = g.matching ∙ st.matching;
    marks = λ q old. g.marks q (st.marks q old);
  }
  Stays-Good s s1 role true s2 st g = record {
    kept = λ q old. g.kept q (st.marks q old) ∙ ap (lookup q) st.matching;
    principal = g.principal;
    unvisited = ground (arith, st.marks g.principal, g.unvisited);
    placed = g.placed;
    carried = λ r (q, e). g.carried r (q, ap (lookup q) st.matching ∙ e);
    allowed = λ a. g.allowed (λ q r e. a q r (sym (ap (lookup q) st.matching) ∙ e));
    distinct = λ d. g.distinct (subst Distinct (sym st.matching) d);
  }

  visit-Stays : (q : String) (s : Search) → Stays s (record s { visited = add q s.visited })
  visit-Stays q s = record {
    matching = refl;
    marks = λ k old. contains-add q k s.visited ∙ ground (arith, old);
  }

  transfer :
      (s : Search) (role : String) (t : Bool × Search) (b : Bool) (s' : Search)
      → ok t ≡ ok (b, s')
      → Good s role t.0 t.1
      → Good s role b s'
  transfer s role t b s' e g = subst (λ (x : Bool × Search). Good s role x.0 x.1) (ok-injective e) g

  -- What follows the nested call, which found a principal for the role `other` or did not.
  resume-Good :
      (role other q : String) (later : Search → Result (Bool × Search)) (s : Search)
      → ((s1 : Search) (b : Bool) (s' : Search) → later s1 ≡ ok (b, s') → Good s1 role b s')
      → contains q s.visited ≡ false
      → contains q (options_for options role) ≡ true
      → lookup q s.matched ≡ some other
      → (moved : Bool) (s'' : Search)
      → Good (record s { visited = add q s.visited }) other moved s''
      → (b : Bool) (s' : Search)
      → (if moved then ok (settle q role s'') else later s'') ≡ ok (b, s')
      → Good s role b s'
  resume-Good role other q later s next new option held true s'' g b s' h =
      transfer s role (settle q role s'') b s' h
        (displace-Moves q role other s s'' new option held g)
  resume-Good role other q later s next new option held false s'' g b s' h =
      Stays-Good s s'' role b s'
        (Stays-Good s (record s { visited = add q s.visited }) role false s'' (visit-Stays q s) g)
        (next s'' b s' h)

  try_each-Good :
      (call : Call)
      → IsGood call
      → (role : String) (candidates : List String)
      → ((q : String) → contains q candidates ≡ true → contains q (options_for options role) ≡ true)
      → (s : Search) (b : Bool) (s' : Search) → try_each call role candidates s ≡ ok (b, s')
      → Good s role b s'
  unfolding try_each contains
  try_each-Good call good role [] within s b s' h =
      transfer s role (false, s) b s' h (record { matching = refl; marks = λ q old. old })
  try_each-Good call good role (q ∷ rest) within s b s' h =
      let option = within q (ground (arith, eq_refl q)) in
      let later = try_each-Good call good role rest (λ k m. within k (ground arith)) in
      elim (Bool-cases (contains q s.visited)) [
        | inl old ↦ later s b s' (rw old at h)
        | inr new ↦
            let h1 = rw new at h in
            elim (Option-cases (lookup q s.matched)) [
              | inl free ↦
                  transfer s role (settle q role (record s { visited = add q s.visited })) b s'
                    (rw free at h1) (settle-Moves q role s new option free)
              | inr (other, held) ↦
                  let (t, called, h2) = >>=-eq-ok _ _ (rw held at h1) in
                  resume-Good role other q (try_each call role rest) s later new option held t.0 t.1
                    (good other (record s { visited = add q s.visited }) t.0 t.1 called) b s' h2
            ]
      ]

  pub augment-Good : (fuel : ℕ) → IsGood (augment options fuel)
  unfolding augment
  augment-Good zero role s b s' h = cc
  augment-Good (suc fuel) role s b s' h =
      try_each-Good (augment options fuel) (augment-Good fuel) role
        (sorted (options_for options role))
        (λ q m. sym (contains-sorted q (options_for options role)) ∙ m) s b s' h

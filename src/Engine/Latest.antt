-- ===== src/Engine/Latest.antt =====
-- The runs of a candidate's view are the latest ones: `latest_by_check` and `required_runs`.
use open_tapeout.Prelude.{
  ◌≤◌, String, some, eq_of_some, Option-cases, Bool-cases, List, [], ◌∷◌, ◌≡◌, sym, ap, ◌∙◌, subst,
  arith, Dict, lookup, insert, lookup-insert, values, str_eq, eq_iff, ◌⊎◌, inl, inr, Among, here,
  there, ltb, eq_refl,
}
use open_tapeout.Result.{ok, >>=-eq-ok, ok-injective}
use open_tapeout.Records.{Run, Candidate, Requirement, Policy, Trust, Platform}
use open_tapeout.Policy.Checks.{run_key, requirement_key}
use open_tapeout.Engine.State.{State}
use open_tapeout.Engine.Scope.{
  is_newer, note_run, latest_by_check, required_runs, live_waivers, current_deliveries, scope_view,
}

-- Each run of the dictionary stands under its own check.
abbrev IsKeyed : Dict Run → Type 0
IsKeyed latest = (k : String) (r : Run) → lookup k latest ≡ some r → run_key r ≡ k

-- The dictionary has a run of the same check that is at least as new.
abbrev IsCovered : Dict Run → Run → Type 0
IsCovered latest r = (l : Run) × (lookup (run_key r) latest ≡ some l) × (r.sequence ≤ l.sequence)

note_run-IsKeyed : (r : Run) (latest : Dict Run) → IsKeyed latest → IsKeyed (note_run r latest)
unfolding note_run
note_run-IsKeyed r latest keyed k x h = elim (Bool-cases (is_newer r (lookup (run_key r) latest))) [
  | inl newer ↦ elim (Bool-cases (str_eq (run_key r) k)) [
    | inl same ↦ ground (arith, lookup-insert (run_key r) k r latest, eq_iff (run_key r) k)
    | inr other ↦ keyed k x (ground (arith, lookup-insert (run_key r) k r latest))
  ]
  | inr older ↦ keyed k x (ground arith)
]

note_run_self : (r : Run) (latest : Dict Run) → IsCovered (note_run r latest) r
unfolding note_run
note_run_self r latest = elim (Option-cases (lookup (run_key r) latest)) [
  | inl new ↦ (
    r,
    rw new (lookup-insert (run_key r) (run_key r) r latest ∙ ground (arith, eq_refl (run_key r))),
    omega arith,
  )
  | inr (old, e) ↦ elim (Bool-cases (ltb old.sequence r.sequence)) [
    | inl newer ↦ (
      r,
      rw (e, newer)
          (lookup-insert (run_key r) (run_key r) r latest ∙ ground (arith, eq_refl (run_key r))),
      omega arith,
    )
    | inr older ↦ (old, rw (e, older) e, ground arith)
  ]
]

note_run-IsCovered :
    (r x : Run) (latest : Dict Run) → IsCovered latest x → IsCovered (note_run r latest) x
unfolding note_run
note_run-IsCovered r x latest (l, e, le) =
    elim (Bool-cases (is_newer r (lookup (run_key r) latest))) [
      | inr older ↦ (l, rw older e, le)
      | inl newer ↦ elim (Bool-cases (str_eq (run_key r) (run_key x))) [
        | inr other ↦
            (l, rw newer (lookup-insert (run_key r) (run_key x) r latest ∙ ground arith), le)
        | inl same ↦ (
          r,
          rw newer (lookup-insert (run_key r) (run_key x) r latest ∙ ground arith),
          ground (arith, eq_iff (run_key r) (run_key x)),
        )
      ]
    ]

latest_by_check-keeps :
    (runs : List Run) (latest : Dict Run) (x : Run)
    → IsCovered latest x
    → IsCovered (latest_by_check runs latest) x
unfolding latest_by_check
latest_by_check-keeps [] latest x c = c
latest_by_check-keeps (r ∷ runs) latest x c =
    latest_by_check-keeps runs (note_run r latest) x (note_run-IsCovered r x latest c)

latest_by_check-IsKeyed :
    (runs : List Run) (latest : Dict Run) → IsKeyed latest → IsKeyed (latest_by_check runs latest)
unfolding latest_by_check
latest_by_check-IsKeyed [] latest keyed = keyed
latest_by_check-IsKeyed (r ∷ runs) latest keyed =
    latest_by_check-IsKeyed runs (note_run r latest) (note_run-IsKeyed r latest keyed)

latest_by_check-IsCovered :
    (runs : List Run) (latest : Dict Run) (x : Run)
    → Among x runs
    → IsCovered (latest_by_check runs latest) x
unfolding latest_by_check
latest_by_check-IsCovered (r ∷ runs) latest x (here e) =
    latest_by_check-keeps runs (note_run r latest) x
      (subst (IsCovered (note_run r latest)) (sym e) (note_run_self r latest))
latest_by_check-IsCovered (r ∷ runs) latest x (there m) =
    latest_by_check-IsCovered runs (note_run r latest) x m
latest_by_check-IsCovered [] latest x m = elim m [ ]

required_runs-latest :
    (latest : Dict Run) (checks : List Requirement) (runs : Dict Run) (id : String) (r : Run)
    → lookup id (required_runs latest checks runs) ≡ some r
    → (lookup id runs ≡ some r) ⊎ ((k : String) × (lookup k latest ≡ some r))
unfolding required_runs
required_runs-latest latest [] runs id r h = inl h
required_runs-latest latest (check ∷ checks) runs id r h =
    elim (Option-cases (lookup (requirement_key check) latest)) [
      | inl missing ↦ required_runs-latest latest checks runs id r (rw missing at h)
      | inr (l, e) ↦
          elim (required_runs-latest latest checks (insert l.id l runs) id r (rw e at h)) [
            | inr found ↦ inr found
            | inl added ↦ elim (Bool-cases (str_eq l.id id)) [
              | inl same ↦ inr (requirement_key check, ground (arith, lookup-insert l.id id l runs))
              | inr other ↦ inl (ground (arith, lookup-insert l.id id l runs))
            ]
          ]
    ]

lookup-nil : (k : String) {r : Run} → lookup k [] ≡ some r → ⊥
unfolding lookup
lookup-nil k h = cc

-- No run of the state is newer than the run of the same check that a candidate's view holds: a later
-- failing or unfinished run cannot be passed over for an older one.
pub scope_view-latest :
    (p : Platform) (s : State) (candidate view : Candidate) (policy : Policy) (trust : Trust)
    (id : String) (r other : Run)
    → scope_view p s candidate policy trust ≡ ok view
    → lookup id view.runs ≡ some r
    → Among other (values s.runs)
    → run_key other ≡ run_key r
    → other.sequence ≤ r.sequence
unfolding scope_view
scope_view-latest p s candidate view policy trust id r other h found among same =
    let latest = latest_by_check (values s.runs) [] in
    let runs = required_runs latest policy.required_checks [] in
    let (waivers, _, h1) = >>=-eq-ok (live_waivers s runs s.waivers) _ h in
    let (deliveries, _, h2) = >>=-eq-ok (current_deliveries s candidate.deliveries) _ h1 in
    let held = ap (lookup id) (ap (λ (v : Candidate). v.runs) (ok-injective h2)) ∙ found in
    elim (required_runs-latest latest policy.required_checks [] id r held) [
      | inl before ↦ absurd (lookup-nil id before)
      | inr (k, e) ↦
          let key =
            latest_by_check-IsKeyed (values s.runs) [] (λ j x i. absurd (lookup-nil j i)) k r e in
          let (l, f, le) = latest_by_check-IsCovered (values s.runs) [] other among in
          let is_r = eq_of_some (sym f ∙ ap (λ j. lookup j latest) (same ∙ key) ∙ e) in ground arith
    ]

-- ===== src/Parsers/Consistent.antt =====
-- What a report says that `validate_result` accepts.
use open_tapeout.Prelude.{
  String, true, false, ◌&&◌, not, some, List, [], ◌∷◌, ◌≡◌, refl, sym, ap, ◌∙◌, subst, arith,
  str_eq, eq_iff, contains, is_empty,
}
use open_tapeout.Result.{ok, >>=-eq-ok, ensure-eq-ok, ok-injective}
use open_tapeout.Json.{
  Json, null, bool, num, str, arr, obj, Items, elements, Fields, get?, field_is,
}
use open_tapeout.Records.{Violation, Outcome, Platform}
use open_tapeout.Policy.Blocking.{eq-nil_of_is_empty}
use open_tapeout.Parsers.{
  schema, is_one_of, drop_field, text_field, agrees, normalise_violation, normalise, flag,
  metrics_of, listed_of, status_of, cross_check, validate_result,
}
use open_tapeout.Parsers.Stated.{
  AreMeasured, text_field-some, severity_of_lem, status_of_lem, metrics_of-AreMeasured,
  listed_of-arr, flag-bool,
}

-- The fingerprints are new: none is among `seen`, and none stands twice.
abbrev pub AreFresh : List String → List Violation → Type 0
AreFresh seen [] = Unit
AreFresh seen (v ∷ vs) = (contains v.fingerprint seen ≡ false) × AreFresh (v.fingerprint ∷ seen) vs

module _ (p : Platform) where
  -- A violation is what an object of the report says, and its fingerprint is the digest of that
  -- object, which the object may state itself.
  pub record IsReported (body : Fields) (v : Violation) : Type 0 where
    pub agreed : agrees v.fingerprint (get? "fingerprint" body) ≡ true
    pub fingerprint : v.fingerprint ≡ p.digest_metadata (drop_field "fingerprint" body)
    pub rule : get? "rule" body ≡ some (str v.rule)
    pub location : get? "location" body ≡ some (str v.location)
    pub message : get? "message" body ≡ some (str v.message)
    pub severity : get? "severity" body ≡ some (str v.severity)
    pub known : contains v.severity ("error" ∷ "warning" ∷ "info" ∷ []) ≡ true

  -- The violations are those of the objects of a list, each of one object, in order.
  pub data AreReported : List Json → List Violation → Type 0 where
    nothing : AreReported [] []
    reports :
        {body : Fields} {v : Violation} {listed : List Json} {vs : List Violation}
        → IsReported body v
        → AreReported listed vs
        → AreReported (obj body ∷ listed) (v ∷ vs)

  -- What holds of a result that is accepted, and how the report says it.
  pub record IsConsistent (report : Json) (run_id : String) (outcome : Outcome) : Type 0 where
    pub fields : Fields
    pub items : Items
    pub measures : Fields
    pub object : report ≡ obj fields
    pub of_schema : field_is "schema" schema fields ≡ true
    pub of_run : field_is "run_id" run_id fields ≡ true
    pub at_status : get? "status" fields ≡ some (str outcome.status)
    pub at_complete : get? "complete" fields ≡ some (bool outcome.complete)
    pub at_metrics : get? "metrics" fields ≡ some (obj measures)
    pub at_violations : get? "violations" fields ≡ some (arr items)
    pub status : contains outcome.status ("pass" ∷ "fail" ∷ "unknown" ∷ []) ≡ true
    pub clean : outcome.status ≡ "pass" → outcome.violations ≡ []
    pub whole : outcome.status ≡ "pass" → outcome.complete ≡ true
    pub metrics : AreMeasured p measures outcome.metrics
    pub reported : AreReported (elements items) outcome.violations
    pub distinct : AreFresh [] outcome.violations

  normalise_violation-IsReported :
      (seen : List String) (body : Fields) (v : Violation)
      → normalise_violation p seen body ≡ ok v
      → IsReported body v × (contains v.fingerprint seen ≡ false)
  unfolding normalise_violation
  normalise_violation-IsReported seen body v h =
      let (_, h1) = ensure-eq-ok _ _ _ h in
      let (rule, r, h2) = >>=-eq-ok (text_field p "rule" body) _ h1 in
      let (location, l, h3) = >>=-eq-ok (text_field p "location" body) _ h2 in
      let (message, m, h4) = >>=-eq-ok (text_field p "message" body) _ h3 in
      let (known, k, h5) =
        >>=-eq-ok (is_one_of ("error" ∷ "warning" ∷ "info" ∷ []) (get? "severity" body)) _ h4 in
      let (is_known, h6) = ensure-eq-ok known _ _ h5 in
      let mark = p.digest_metadata (drop_field "fingerprint" body) in
      let (agreed, h7) = ensure-eq-ok (agrees mark (get? "fingerprint" body)) _ _ h6 in
      let (severity, in_names) = severity_of_lem p _ body (k ∙ ap ok is_known) in
      let (fresh, h8) = ensure-eq-ok (not (contains mark seen)) _ _ h7 in
      subst (λ (x : Violation). IsReported body x × (contains x.fingerprint seen ≡ false))
        (ok-injective h8)
        (
          record {
            agreed = agreed;
            fingerprint = refl;
            rule = text_field-some p "rule" rule body r;
            location = text_field-some p "location" location body l;
            message = text_field-some p "message" message body m;
            severity = severity;
            known = in_names;
          },
          ground arith,
        )

  normalise-IsReported :
      (seen : List String) (listed : List Json) (vs : List Violation)
      → normalise p seen listed ≡ ok vs
      → AreReported listed vs × AreFresh seen vs
  unfolding normalise
  normalise-IsReported seen [] vs h =
      subst (λ x. AreReported [] x × AreFresh seen x) (ok-injective h) (nothing, tt)
  normalise-IsReported seen (obj body ∷ rest) vs h =
      let (v, first, h1) = >>=-eq-ok (normalise_violation p seen body) _ h in
      let (others, more, h2) = >>=-eq-ok (normalise p (v.fingerprint ∷ seen) rest) _ h1 in
      let (reported, fresh) = normalise_violation-IsReported seen body v first in
      let (all_reported, all_fresh) =
        normalise-IsReported (v.fingerprint ∷ seen) rest others more in
      subst (λ x. AreReported (obj body ∷ rest) x × AreFresh seen x) (ok-injective h2)
        (reports reported all_reported, (fresh, all_fresh))
  normalise-IsReported seen (null ∷ rest) vs h = cc
  normalise-IsReported seen (bool b ∷ rest) vs h = cc
  normalise-IsReported seen (num n ∷ rest) vs h = cc
  normalise-IsReported seen (str s ∷ rest) vs h = cc
  normalise-IsReported seen (arr items ∷ rest) vs h = cc

  cross_check-ok :
      (f : Fields) (raw outcome : Outcome)
      → cross_check p f raw ≡ ok outcome
      → (raw ≡ outcome)
        × (raw.status ≡ "pass" → raw.violations ≡ [])
        × (raw.status ≡ "pass" → raw.complete ≡ true)
  unfolding cross_check
  cross_check-ok f raw outcome h =
      let (clean, h1) =
        ensure-eq-ok (not (str_eq raw.status "pass" && not (is_empty raw.violations))) _ _ h in
      let (whole, h2) = ensure-eq-ok (not (str_eq raw.status "pass" && not raw.complete)) _ _ h1 in
      let (_, h3) = ensure-eq-ok _ _ _ h2 in
      (
        ok-injective h3,
        λ passed. eq-nil_of_is_empty raw.violations (ground (arith, eq_iff raw.status "pass")),
        λ passed. ground (arith, eq_iff raw.status "pass"),
      )

  -- A report that `validate_result` accepts is an object for the run, and the result is what it says:
  -- its status, which is one of three; whether it is complete; its metrics, all of them, each a finite
  -- number; and its violations, one for each object of its list, in order, under the digest of that
  -- object, which no other violation of the report has. A passing one is complete and has no violation.
  pub validate_result-IsConsistent :
      (report : Json) (run_id : String) (outcome : Outcome)
      → validate_result p report run_id ≡ ok outcome
      → IsConsistent report run_id outcome
  unfolding validate_result
  validate_result-IsConsistent (obj f) run_id outcome h =
      let (of_schema, h1) = ensure-eq-ok (field_is "schema" schema f) _ _ h in
      let (of_run, h2) = ensure-eq-ok (field_is "run_id" run_id f) _ _ h1 in
      let (known, k, h3) =
        >>=-eq-ok (is_one_of ("pass" ∷ "fail" ∷ "unknown" ∷ []) (get? "status" f)) _ h2 in
      let (is_known, h4) = ensure-eq-ok known _ _ h3 in
      let (complete, flagged, h5) = >>=-eq-ok (flag p (get? "complete" f)) _ h4 in
      let (metrics, read, h6) = >>=-eq-ok (metrics_of p (get? "metrics" f)) _ h5 in
      let (listed, found, h7) = >>=-eq-ok (listed_of p (get? "violations" f)) _ h6 in
      let (vs, normal, h8) = >>=-eq-ok (normalise p [] listed) _ h7 in
      let raw : Outcome = record {
        status = status_of p f;
        complete = complete;
        metrics = metrics;
        violations = vs;
      } in
      let (same, clean, whole) = cross_check-ok f raw outcome h8 in
      let (reported, fresh) = normalise-IsReported [] listed vs normal in
      let (at_status, in_names) = status_of_lem p _ f (k ∙ ap ok is_known) in
      let (measures, at_metrics, values) =
        metrics_of-AreMeasured p (get? "metrics" f) metrics read in
      let (items, at_violations, all) = listed_of-arr p (get? "violations" f) listed found in
      subst (IsConsistent (obj f) run_id) same (record {
        fields = f;
        items = items;
        measures = measures;
        object = refl;
        of_schema = of_schema;
        of_run = of_run;
        at_status = at_status;
        at_complete = flag-bool p (get? "complete" f) complete flagged;
        at_metrics = at_metrics;
        at_violations = at_violations;
        status = in_names;
        clean = clean;
        whole = whole;
        metrics = values;
        reported = subst (λ x. AreReported x vs) (sym all) reported;
        distinct = fresh;
      })
  validate_result-IsConsistent null run_id outcome h = cc
  validate_result-IsConsistent (bool b) run_id outcome h = cc
  validate_result-IsConsistent (num n) run_id outcome h = cc
  validate_result-IsConsistent (str s) run_id outcome h = cc
  validate_result-IsConsistent (arr items) run_id outcome h = cc

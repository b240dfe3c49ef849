-- ===== src/Parsers/Stated.antt =====
-- What the fields of a report are from which `validate_result` of parsers.py reads a value.
use open_tapeout.Prelude.{
  String, Bool, true, not, Option, none, some, Option-cases, List, [], ◌∷◌, ◌≡◌, refl, sym, ap, ◌∙◌,
  subst, arith, str_eq, contains, Dict, inl, inr,
}
use open_tapeout.Result.{ok, err, tapeout, ensure, ◌>>◌, >>=-eq-ok, ensure-eq-ok, ok-injective}
use open_tapeout.Json.{
  Json, null, bool, num, str, arr, obj, Number, Items, elements, Fields, end, field, get?,
}
use open_tapeout.Util.{finite_number}
use open_tapeout.Records.{Platform}
use open_tapeout.Parsers.{
  is_one_of, text_field, severity_of, metric_values, flag, metrics_of, listed_of, status_of,
}

module _ (p : Platform) where
  -- The metrics are those of an object, in order, and each is a finite number.
  pub data AreMeasured : Fields → Dict Number → Type 0 where
    nothing_measured : AreMeasured end []
    measured :
        {k : String} {n : Number} {f : Fields} {ms : Dict Number}
        → finite_number (num n) ≡ true
        → AreMeasured f ms
        → AreMeasured (field k (num n) f) ((k, n) ∷ ms)

  pub text_field-some :
      (key s : String) (f : Fields) → text_field p key f ≡ ok s → get? key f ≡ some (str s)
  unfolding text_field
  text_field-some key s f h = elim (Option-cases (get? key f)) [
    | inl missing ↦ absurd (ground arith)
    | inr (v, e) ↦ e ∙ ap some (value v (rw (e, text_field) at h))
  ]
    where
      value :
          (v : Json)
          → elim v [
            | str t ↦ ensure (not (str_eq (p.strip t) "")) "Violation field required" >> ok t
            | _ ↦ err (tapeout "Violation field required")
          ]
            ≡ ok s
          → v ≡ str s
      value v h = ground arith

  -- The text that a value must be to be one of the names.
  pub is_one_of-str :
      (names : List String) (o : Option Json)
      → is_one_of names o ≡ ok true
      → (s : String) × (o ≡ some (str s)) × (contains s names ≡ true)
  unfolding is_one_of
  is_one_of-str names (some (str s)) h = (s, refl, ok-injective h)
  is_one_of-str names none h = cc
  is_one_of-str names (some null) h = cc
  is_one_of-str names (some (bool b)) h = cc
  is_one_of-str names (some (num n)) h = cc
  is_one_of-str names (some (arr items)) h = cc
  is_one_of-str names (some (obj f)) h = cc

  severity_of-str : (f : Fields) (s : String) → get? "severity" f ≡ some (str s) → s ≡ severity_of f
  severity_of-str f s e = sym (rw (e, severity_of) refl)

  pub severity_of_lem :
      (names : List String) (f : Fields)
      → is_one_of names (get? "severity" f) ≡ ok true
      → (get? "severity" f ≡ some (str (severity_of f))) × (contains (severity_of f) names ≡ true)
  severity_of_lem names f h =
      let (s, e, c) = is_one_of-str names (get? "severity" f) h in
      let same = severity_of-str f s e in
      (e ∙ ap (λ t. some (str t)) same, subst (λ t. contains t names ≡ true) same c)

  status_of-str : (f : Fields) (s : String) → get? "status" f ≡ some (str s) → s ≡ status_of p f
  status_of-str f s e = sym (rw (e, status_of) refl)

  pub status_of_lem :
      (names : List String) (f : Fields)
      → is_one_of names (get? "status" f) ≡ ok true
      → (get? "status" f ≡ some (str (status_of p f))) × (contains (status_of p f) names ≡ true)
  status_of_lem names f h =
      let (s, e, c) = is_one_of-str names (get? "status" f) h in
      let same = status_of-str f s e in
      (e ∙ ap (λ t. some (str t)) same, subst (λ t. contains t names ≡ true) same c)

  metric_values-AreMeasured :
      (f : Fields) (ms : Dict Number) → metric_values p f ≡ ok ms → AreMeasured f ms
  unfolding metric_values
  metric_values-AreMeasured end ms h = subst (AreMeasured end) (ok-injective h) nothing_measured
  metric_values-AreMeasured (field k (num n) rest) ms h =
      let (finite, h1) = ensure-eq-ok (finite_number (num n)) _ _ h in
      let (others, more, h2) = >>=-eq-ok (metric_values p rest) _ h1 in
      subst (AreMeasured (field k (num n) rest)) (ok-injective h2)
        (measured finite (metric_values-AreMeasured rest others more))
  metric_values-AreMeasured (field k null rest) ms h = cc
  metric_values-AreMeasured (field k (bool b) rest) ms h = cc
  metric_values-AreMeasured (field k (str s) rest) ms h = cc
  metric_values-AreMeasured (field k (arr items) rest) ms h = cc
  metric_values-AreMeasured (field k (obj f) rest) ms h = cc

  pub metrics_of-AreMeasured :
      (o : Option Json) (ms : Dict Number)
      → metrics_of p o ≡ ok ms
      → (f : Fields) × (o ≡ some (obj f)) × AreMeasured f ms
  metrics_of-AreMeasured (some (obj f)) ms h = (f, refl, metric_values-AreMeasured f ms h)
  metrics_of-AreMeasured none ms h = cc
  metrics_of-AreMeasured (some null) ms h = cc
  metrics_of-AreMeasured (some (bool b)) ms h = cc
  metrics_of-AreMeasured (some (num n)) ms h = cc
  metrics_of-AreMeasured (some (str s)) ms h = cc
  metrics_of-AreMeasured (some (arr items)) ms h = cc

  pub listed_of-arr :
      (o : Option Json) (listed : List Json)
      → listed_of p o ≡ ok listed
      → (items : Items) × (o ≡ some (arr items)) × (elements items ≡ listed)
  listed_of-arr (some (arr items)) listed h = (items, refl, ok-injective h)
  listed_of-arr none listed h = cc
  listed_of-arr (some null) listed h = cc
  listed_of-arr (some (bool b)) listed h = cc
  listed_of-arr (some (num n)) listed h = cc
  listed_of-arr (some (str s)) listed h = cc
  listed_of-arr (some (obj f)) listed h = cc

  pub flag-bool : (o : Option Json) (b : Bool) → flag p o ≡ ok b → o ≡ some (bool b)
  flag-bool (some (bool b)) b' h = ap (λ x. some (bool x)) (ok-injective h)
  flag-bool none b' h = cc
  flag-bool (some null) b' h = cc
  flag-bool (some (num n)) b' h = cc
  flag-bool (some (str s)) b' h = cc
  flag-bool (some (arr xs)) b' h = cc
  flag-bool (some (obj f)) b' h = cc

-- ===== src/Archive/Members.antt =====
-- What `getinfo`, `hash_stream` and the handler of bundle.py and delivery.py give when they succeed.
use open_tapeout.Prelude.{
  ℕ, String, true, Option, none, some, List, [], ◌∷◌, ◌≡◌, sym, ap, ◌∙◌, inl, inr, Among, here,
  there, find, str_eq, eq_iff, Bool-cases, eq_of_some, leb, Option-cases,
}
use open_tapeout.Result.{
  tapeout, team, os_error, key_error, type_error, attribute_error, out_of_fuel, Result, ok, err,
  ensure-eq-ok, ok-injective,
}
use open_tapeout.Archive.{Member, getinfo, hash_stream, repackaged}

pub repackaged-eq-ok {ℓ} :
    {A : Type ℓ} (message : String) (r : Result A) {a : A} → repackaged message r ≡ ok a → r ≡ ok a
unfolding repackaged
repackaged-eq-ok message (ok b) h = h
repackaged-eq-ok message (err (tapeout why)) h = cc
repackaged-eq-ok message (err (team code why status)) h = cc
repackaged-eq-ok message (err (os_error why)) h = cc
repackaged-eq-ok message (err key_error) h = cc
repackaged-eq-ok message (err type_error) h = cc
repackaged-eq-ok message (err attribute_error) h = cc
repackaged-eq-ok message (err out_of_fuel) h = cc

find-Among :
    (name : String) (infos : List Member) (m : Member)
    → find (λ (x : Member). str_eq x.filename name) infos ≡ some m
    → Among m infos × (m.filename ≡ name)
find-Among name [] m h = cc
find-Among name (x ∷ rest) m h = elim (Bool-cases (str_eq x.filename name)) [
  | inl this ↦
      let same : x ≡ m = eq_of_some (rw this at h) in
      (
        here (sym same),
        ap (λ (y : Member). y.filename) (sym same) ∙ (eq_iff x.filename name).0 this,
      )
  | inr other ↦ let (among, named) = find-Among name rest m (rw other at h) in (there among, named)
]

pub getinfo-Among :
    (infos : List Member) (name : String) (m : Member)
    → getinfo infos name ≡ ok m
    → Among m infos × (m.filename ≡ name)
unfolding getinfo
getinfo-Among infos name m h =
    elim (Option-cases (find (λ (x : Member). str_eq x.filename name) infos)) [
      | inl missing ↦ let bad = rw (missing, getinfo) at h in cc
      | inr (x, found) ↦
          find-Among name infos m (found ∙ ap some (ok-injective (rw (found, getinfo) at h)))
    ]

-- What is read is the content, within the limit.
pub hash_stream-eq-ok :
    (content : Option (String × ℕ)) (limit : ℕ) (r : String × ℕ)
    → hash_stream content limit ≡ ok r
    → (content ≡ some r) × (leb r.1 limit ≡ true)
unfolding hash_stream
hash_stream-eq-ok none limit r h = cc
hash_stream-eq-ok (some (checksum, size)) limit r h =
    let (small, h1) = ensure-eq-ok (leb size limit) _ _ h in
    let same = ok-injective h1 in
    (ap some same, ap (λ (t : String × ℕ). leb t.1 limit) (sym same) ∙ small)

-- ===== src/Delivery/Sealed.antt =====
-- What the stages of `seal_delivery` of delivery.py have tested when they succeed.
use open_tapeout.Prelude.{
  ℕ, ◌≤◌, String, true, false, not, Option, none, some, Option-cases, List, [], ◌∷◌, ◌≡◌, refl, sym,
  ap, ◌∙◌, subst, arith, inl, inr, All, Dict, Among, here, there, lookup, has, find, str_eq, eq_iff,
  leb, Bool-cases,
}
use open_tapeout.Result.{ok, known, known-eq-ok, >>=-eq-ok, ensure-eq-ok, ok-injective}
use open_tapeout.Records.{Envelope, Delivery, Candidate, Policy, Trust, Platform}
use open_tapeout.Signing.{PrivateKey, sign, verify}
use open_tapeout.Signing.Authority.{IsAuthorized, verify_iff}
use open_tapeout.Graph.Drift.{Workspace}
use open_tapeout.Store.{Codec, Transaction}
use open_tapeout.Engine.State.{State, Release, Payload}
use open_tapeout.Engine.Release.{gate}
use open_tapeout.Engine.Ready.{IsReady}
use open_tapeout.Archive.{Archive, FileEntry, write_archive, delivery_member}
use open_tapeout.Delivery.Disclosed.{DisclosedFile, Disclosure}
use open_tapeout.Delivery.Capsule.{Manifest, Packing, signature_statement, verify_delivery}
use open_tapeout.Delivery.Seal.{
  total_files, sources_of, same_format, verify_object, select_file, select_files, manifest_of,
  known_candidate, deliverable, sign_capsule,
}

eq_of_some : {a b : Delivery} → some a ≡ some b → a ≡ b
eq_of_some h = cc

find-Among :
    (name : String) (declared : List Delivery) (d : Delivery)
    → find (λ x. str_eq x.name name) declared ≡ some d
    → Among d declared × (d.name ≡ name)
find-Among name [] d h = cc
find-Among name (x ∷ rest) d h = elim (Bool-cases (str_eq x.name name)) [
  | inl this ↦
      let same : x ≡ d = eq_of_some (rw this at h) in
      (here (sym same), ap (λ (y : Delivery). y.name) (sym same) ∙ (eq_iff x.name name).0 this)
  | inr other ↦ let (among, named) = find-Among name rest d (rw other at h) in (there among, named)
]

pub verify_object-none :
    (w : Workspace) (checksum : String)
    → verify_object w checksum ≡ ok tt
    → w.object_error checksum ≡ none
unfolding verify_object
verify_object-none w checksum h = elim (Option-cases (w.object_error checksum)) [
  | inl intact ↦ intact
  | inr (reason, e) ↦ let bad = rw (e, verify_object) at h in cc
]

pub known_candidate-eq-ok :
    (o : Option Candidate) (candidate : Candidate)
    → known_candidate o ≡ ok candidate
    → o ≡ some candidate
unfolding known_candidate
known_candidate-eq-ok none candidate h = cc
known_candidate-eq-ok (some x) candidate h = ap some (ok-injective h)

module _ (p : Platform) (c : Codec String Payload) (packing : Packing) where
  -- A file of a capsule: one of the candidate's deliveries under a public name, intact in the store.
  pub record IsDeclared (w : Workspace) (declared : List Delivery) (file : String × FileEntry)
      : Type 0 where
    pub entry : Delivery
    pub among : Among entry declared
    pub name : String
    pub member : file.0 ≡ delivery_member name
    pub sha256 : file.1.sha256 ≡ entry.sha256
    pub size : file.1.size ≡ entry.size
    pub format : same_format p entry.name name ≡ true
    pub intact : w.object_error file.1.sha256 ≡ none

  select_file-IsDeclared :
      (w : Workspace) (declared : List Delivery) (item : DisclosedFile) (file : String × FileEntry)
      → select_file p w declared item ≡ ok file
      → IsDeclared w declared file × (file.1.sha256 ≡ item.sha256)
  unfolding select_file
  select_file-IsDeclared w declared item file h =
      let (entry, found, h1) =
        >>=-eq-ok
          (known (find (λ d. str_eq d.name item.delivery) declared)
            "Disclosure may only select declared candidate deliveries, not raw evidence")
          _ h in
      let (format, h2) = ensure-eq-ok (same_format p entry.name item.name) _ _ h1 in
      let (pinned, h3) = ensure-eq-ok (str_eq entry.sha256 item.sha256) _ _ h2 in
      let (_, stored, h4) = >>=-eq-ok (verify_object w entry.sha256) _ h3 in
      let made : FileEntry = record { sha256 = entry.sha256; size = entry.size } in
      let one : IsDeclared w declared (delivery_member item.name, made) = record {
        entry = entry;
        name = item.name;
        member = refl;
        among = (find-Among item.delivery declared entry (known-eq-ok _ _ found)).0;
        sha256 = refl;
        size = refl;
        format = format;
        intact = verify_object-none w entry.sha256 stored;
      } in
      subst (λ (x : String × FileEntry). IsDeclared w declared x × (x.1.sha256 ≡ item.sha256))
        (ok-injective h4) (one, (eq_iff entry.sha256 item.sha256).0 pinned)

  select_files-IsDeclared :
      (w : Workspace) (declared : List Delivery) (items : List DisclosedFile)
      (files : Dict FileEntry)
      → select_files p w declared items ≡ ok files
      → All (IsDeclared w declared) files
  unfolding select_files
  select_files-IsDeclared w declared [] files h =
      subst (All (IsDeclared w declared)) (ok-injective h) tt
  select_files-IsDeclared w declared (item ∷ rest) files h =
      let (f, one, h1) = >>=-eq-ok (select_file p w declared item) _ h in
      let (others, more, h2) = >>=-eq-ok (select_files p w declared rest) _ h1 in
      subst (All (IsDeclared w declared)) (ok-injective h2) (
        (select_file-IsDeclared w declared item f one).0,
        select_files-IsDeclared w declared rest others more,
      )

  pub record IsManifest (w : Workspace) (candidate : Candidate) (disclosure : Disclosure)
      (manifest : Manifest) : Type 0 where
    pub files : All (IsDeclared w candidate.deliveries) manifest.files
    pub budget : total_files manifest.files ≤ disclosure.max_bytes
    pub bound : manifest.candidate_sha256 ≡ p.digest_candidate candidate
    pub recipient : manifest.recipient ≡ disclosure.recipient

  pub manifest_of-IsManifest :
      (w : Workspace) (release : Release) (candidate : Candidate) (delivery_id : String)
      (disclosure : Disclosure) (now : String) (manifest : Manifest)
      → manifest_of p w packing release candidate delivery_id disclosure now ≡ ok manifest
      → IsManifest w candidate disclosure manifest
  unfolding manifest_of
  manifest_of-IsManifest w release candidate delivery_id disclosure now manifest h =
      let (files, selected, h1) =
        >>=-eq-ok (select_files p w candidate.deliveries disclosure.files) _ h in
      let (small, h2) = ensure-eq-ok (leb (total_files files) disclosure.max_bytes) _ _ h1 in
      subst (IsManifest w candidate disclosure) (ok-injective h2) (record {
        files = select_files-IsDeclared w candidate.deliveries disclosure.files files selected;
        budget = ground arith;
        bound = refl;
        recipient = refl;
      })

  pub record IsDeliverable (w : Workspace) (tx : Transaction c) (s : State)
      (release_id delivery_id : String) (policy : Policy) (trust : Trust) (now : String)
      (t : Release × Candidate) : Type 0 where
    pub free : has delivery_id s.deliveries ≡ false
    pub release : lookup release_id s.releases ≡ some t.0
    pub ready : IsReady p c w tx release_id policy trust now
    pub candidate : lookup release_id s.candidates ≡ some t.1

  pub deliverable-IsDeliverable :
      (w : Workspace) (tx : Transaction c) (s : State) (release_id delivery_id : String)
      (policy : Policy) (trust : Trust) (now : String) (t : Release × Candidate)
      → deliverable p c packing w tx s release_id delivery_id policy trust now ≡ ok t
      → IsDeliverable w tx s release_id delivery_id policy trust now t
  unfolding deliverable
  deliverable-IsDeliverable w tx s release_id delivery_id policy trust now t h =
      let (free, h1) = ensure-eq-ok (not (has delivery_id s.deliveries)) _ _ h in
      let (release, found, h2) =
        >>=-eq-ok
          (known (lookup release_id s.releases)
            "Seal a full evidence release before creating a delivery capsule")
          _ h1 in
      let (report, passed, h3) = >>=-eq-ok (gate p w c tx release_id policy trust now true) _ h2 in
      let (ready, h4) = ensure-eq-ok report.0.ready _ _ h3 in
      let (candidate, frozen, h5) =
        >>=-eq-ok (known_candidate (lookup release_id s.candidates)) _ h4 in
      subst (IsDeliverable w tx s release_id delivery_id policy trust now) (ok-injective h5)
        (record {
          free = ground arith;
          release = known-eq-ok _ _ found;
          ready = (report, passed, ready);
          candidate = known_candidate-eq-ok (lookup release_id s.candidates) candidate frozen;
        })

  pub record IsSigned (later : Workspace) (key : PrivateKey) (tx : Transaction c)
      (release_id : String) (disclosure : Disclosure) (manifest : Manifest) (policy : Policy)
      (trust : Trust) (now : String) (t : Envelope × String × String × ℕ) : Type 0 where
    pub made : t.0 ≡ sign key (signature_statement packing manifest)
    pub authorized : IsAuthorized p trust t.0 "release" "opentapeout.delivery-signature/v1" t.1
    pub archive : Archive Manifest
    pub packed :
        packing.zip.zip_file (write_archive manifest t.0 (sources_of manifest.files))
        ≡ ok (archive, t.2, t.3)
    pub result : String × Manifest
    pub accepted : verify_delivery p packing disclosure trust now (ok archive) ≡ ok result
    pub still : IsReady p c later tx release_id policy trust now

  pub sign_capsule-IsSigned :
      (later : Workspace) (key : PrivateKey) (tx : Transaction c) (release_id : String)
      (disclosure : Disclosure) (manifest : Manifest) (policy : Policy) (trust : Trust)
      (now : String) (t : Envelope × String × String × ℕ)
      → sign_capsule p c packing later key tx release_id disclosure manifest policy trust now ≡ ok t
      → IsSigned later key tx release_id disclosure manifest policy trust now t
  unfolding sign_capsule
  sign_capsule-IsSigned later key tx release_id disclosure manifest policy trust now t h =
      let made = sign key (signature_statement packing manifest) in
      let (u, verified, h1) =
        >>=-eq-ok (verify p trust made "release" "opentapeout.delivery-signature/v1") _ h in
      let (v, packed, h2) =
        >>=-eq-ok (packing.zip.zip_file (write_archive manifest made (sources_of manifest.files))) _
          h1 in
      let (result, accepted, h3) =
        >>=-eq-ok (verify_delivery p packing disclosure trust now (ok v.0)) _ h2 in
      let (report, passed, h4) =
        >>=-eq-ok (gate p later c tx release_id policy trust now true) _ h3 in
      let (ready, h5) = ensure-eq-ok report.0.ready _ _ h4 in
      subst (IsSigned later key tx release_id disclosure manifest policy trust now)
        (ok-injective h5)
        (record {
          made = refl;
          authorized =
              ((verify_iff p trust made "release" "opentapeout.delivery-signature/v1" u.0 u.1).0
                verified).1;
          archive = v.0;
          packed = packed;
          result = result;
          accepted = accepted;
          still = (report, passed, ready);
        })

-- ===== src/Bundle/Recorded.antt =====
-- What stands behind a release that `seal` of bundle.py records.
use open_tapeout.Prelude.{
  ℕ, String, true, false, not, none, some, List, [], ◌∷◌, ◌≡◌, refl, subst, arith, All, Dict,
  lookup, has, sorted, to_set,
}
use open_tapeout.Result.{ok, >>=-eq-ok, ensure-eq-ok, ok-injective}
use open_tapeout.Records.{Envelope, Candidate, Policy, Trust, Platform}
use open_tapeout.Signing.{PrivateKey, sign, verify}
use open_tapeout.Graph.Drift.{Workspace}
use open_tapeout.Store.{Codec, Transaction, Checkpoint}
use open_tapeout.Engine.State.{State, Payload}
use open_tapeout.Engine.Scope.{object_refs}
use open_tapeout.Engine.Release.{gate, active_approvals}
use open_tapeout.Engine.Ready.{IsReady}
use open_tapeout.Delivery.Seal.{verify_object, known_candidate}
use open_tapeout.Delivery.Sealed.{verify_object-none, known_candidate-eq-ok}
use open_tapeout.Archive.{Archive, Packing, write_archive}
use open_tapeout.Bundle.Manifest.{ReleaseManifest, release_statement}
use open_tapeout.Bundle.Verify.{max_total, Verified, verify_bundle}
use open_tapeout.Bundle.Seal.{
  Collected, approvals_for, collect_objects, collect, sealable, release_manifest, pack_release,
}

module _ (p : Platform) (c : Codec String Payload) (packing : Packing ReleaseManifest) where
  collect_objects-intact :
      (w : Workspace) (refs : List String) (t t' : Collected)
      → collect_objects packing w refs t ≡ ok t'
      → All (λ checksum. w.object_error checksum ≡ none) refs
  unfolding collect_objects
  collect_objects-intact w [] t t' h = tt
  collect_objects-intact w (checksum ∷ rest) t t' h =
      let (_, stored, h1) = >>=-eq-ok (verify_object w checksum) _ h in
      let (size, _, h2) = >>=-eq-ok (packing.object_size checksum) _ h1 in
      (verify_object-none w checksum stored, collect_objects-intact w rest _ t' h2)

  -- The objects that a candidate refers to are in the store, with their bytes.
  pub record IsIntact (w : Workspace) (candidate : Candidate) : Type 0 where
    pub refs : List String
    pub needed : object_refs candidate ≡ ok refs
    pub intact : All (λ checksum. w.object_error checksum ≡ none) (sorted (to_set refs))

  collect-IsIntact :
      (w : Workspace) (candidate : Candidate) (t : Collected)
      → collect packing w candidate ≡ ok t
      → IsIntact w candidate
  unfolding collect
  collect-IsIntact w candidate t h =
      let (refs, needed, h1) = >>=-eq-ok (object_refs candidate) _ h in
      let (u, objects, _) =
        >>=-eq-ok
          (collect_objects packing w (sorted (to_set refs))
            (record { sources = []; files = []; object_index = [] }))
          _ h1 in
      record {
        refs = refs;
        needed = needed;
        intact = collect_objects-intact w (sorted (to_set refs)) _ u objects;
      }

  pub record IsManifest (w : Workspace) (s : State) (candidate : Candidate) (policy : Policy)
      (now : String) (manifest : ReleaseManifest) : Type 0 where
    pub of_candidate : manifest.candidate ≡ candidate
    pub of_policy : manifest.policy ≡ policy
    pub dated : manifest.created_at ≡ now
    pub objects : IsIntact w candidate

  pub release_manifest-IsManifest :
      (w : Workspace) (s : State) (candidate : Candidate) (head : Checkpoint c) (policy : Policy)
      (now : String) (t : ReleaseManifest × Dict String)
      → release_manifest p c packing w s candidate head policy now ≡ ok t
      → IsManifest w s candidate policy now t.0
  unfolding release_manifest
  release_manifest-IsManifest w s candidate head policy now t h =
      let (approvals, _, h1) =
        >>=-eq-ok (approvals_for (p.digest_candidate candidate) (active_approvals p s)) _ h in
      let (u, collected, h2) = >>=-eq-ok (collect packing w candidate) _ h1 in
      subst (λ (t : ReleaseManifest × Dict String). IsManifest w s candidate policy now t.0)
        (ok-injective h2)
        (record {
          of_candidate = refl;
          of_policy = refl;
          dated = refl;
          objects = collect-IsIntact w candidate u collected;
        })

  pub record IsSealable (w : Workspace) (tx : Transaction c) (s : State) (name : String)
      (policy : Policy) (trust : Trust) (now : String) (candidate : Candidate) : Type 0 where
    pub free : has name s.releases ≡ false
    pub ready : IsReady p c w tx name policy trust now
    pub frozen : lookup name s.candidates ≡ some candidate

  pub sealable-IsSealable :
      (w : Workspace) (tx : Transaction c) (s : State) (name : String) (policy : Policy)
      (trust : Trust) (now : String) (t : Candidate × Checkpoint c)
      → sealable p c packing w tx s name policy trust now ≡ ok t
      → IsSealable w tx s name policy trust now t.0
  unfolding sealable
  sealable-IsSealable w tx s name policy trust now t h =
      let (free, h1) = ensure-eq-ok (not (has name s.releases)) _ _ h in
      let (report, passed, h2) = >>=-eq-ok (gate p w c tx name policy trust now true) _ h1 in
      let (ready, h3) = ensure-eq-ok report.0.ready _ _ h2 in
      let (candidate, found, h4) = >>=-eq-ok (known_candidate (lookup name s.candidates)) _ h3 in
      subst (λ (t : Candidate × Checkpoint c). IsSealable w tx s name policy trust now t.0)
        (ok-injective h4)
        (record {
          free = ground arith;
          ready = (report, passed, ready);
          frozen = known_candidate-eq-ok (lookup name s.candidates) candidate found;
        })

  -- The archive that was written, which `verify_bundle` accepts.
  pub record IsPacked (later : Workspace) (key : PrivateKey) (tx : Transaction c) (name : String)
      (manifest : ReleaseManifest) (sources : Dict String) (policy : Policy) (trust : Trust)
      (now : String) (t : Envelope × String × String × ℕ) : Type 0 where
    pub made : t.0 ≡ sign key (release_statement packing manifest)
    pub archive : Archive ReleaseManifest
    pub packed : packing.zip_file (write_archive manifest t.0 sources) ≡ ok (archive, t.2, t.3)
    pub result : Verified
    pub accepted :
        verify_bundle p packing policy trust max_total none 0 now (ok archive) ≡ ok result
    pub still : IsReady p c later tx name policy trust now

  pub pack_release-IsPacked :
      (later : Workspace) (key : PrivateKey) (tx : Transaction c) (name : String)
      (manifest : ReleaseManifest) (sources : Dict String) (policy : Policy) (trust : Trust)
      (now : String) (t : Envelope × String × String × ℕ)
      → pack_release p c packing later key tx name manifest sources policy trust now ≡ ok t
      → IsPacked later key tx name manifest sources policy trust now t
  unfolding pack_release
  pack_release-IsPacked later key tx name manifest sources policy trust now t h =
      let made = sign key (release_statement packing manifest) in
      let (u, _, h1) =
        >>=-eq-ok (verify p trust made "release" "opentapeout.release-signature/v1") _ h in
      let (v, packed, h2) =
        >>=-eq-ok (packing.zip_file (write_archive manifest made sources)) _ h1 in
      let (result, accepted, h3) =
        >>=-eq-ok (verify_bundle p packing policy trust max_total none 0 now (ok v.0)) _ h2 in
      let (report, passed, h4) = >>=-eq-ok (gate p later c tx name policy trust now true) _ h3 in
      let (ready, h5) = ensure-eq-ok report.0.ready _ _ h4 in
      subst (IsPacked later key tx name manifest sources policy trust now) (ok-injective h5)
        (record {
          made = refl;
          archive = v.0;
          packed = packed;
          result = result;
          accepted = accepted;
          still = (report, passed, ready);
        })

-- ===== src/Bundle/Verified.antt =====
-- What `verify_bundle` of bundle.py has established of an archive that it accepts.
use open_tapeout.Prelude.{
  ℕ, ◌≤◌, ◌&&◌, String, true, List, ◌≡◌, sym, ap, ◌∙◌, subst, str_eq, eq_iff, leb, leb→le,
  and-eq-true, Option,
}
use open_tapeout.Result.{Result, ok, >>=-eq-ok, ensure-eq-ok, ok-injective, true_of_ensure}
use open_tapeout.Json.{Json, get, is_text, str}
use open_tapeout.Records.{Envelope, Policy, Trust, Platform}
use open_tapeout.Signing.{verify, timestamp}
use open_tapeout.Signing.Authority.{IsAuthorized, verify_iff}
use open_tapeout.Policy.{Report, evaluate}
use open_tapeout.Policy.Gate.{IsReleasable, evaluate-IsReleasable}
use open_tapeout.Archive.{Archive, Packing}
use open_tapeout.Archive.Members.{repackaged-eq-ok}
use open_tapeout.Bundle.Manifest.{ReleaseManifest}
use open_tapeout.Bundle.Verify.{
  check_members, check_contents, check_signature, check_bindings, counted_approvals,
  historical_gate, check_release, check_archive, verify_bundle, Verified,
}
use open_tapeout.Bundle.Ordinary.{IsOrdinary, check_members-IsOrdinary}
use open_tapeout.Bundle.Contents.{IsComplete, check_contents-IsComplete}

module _ (p : Platform) (packing : Packing ReleaseManifest) where
  -- A release key has signed this manifest, its project and its date.
  pub record IsSigned (trust : Trust) (manifest : ReleaseManifest) (envelope : Envelope)
      (signer : String) : Type 0 where
    pub authorized :
        IsAuthorized p trust envelope "release" "opentapeout.release-signature/v1" signer
    pub digest : Json
    pub project : Json
    pub created : Json
    pub manifest_sha256 : get "manifest_sha256" envelope.payload ≡ ok digest
    pub on_manifest : is_text (packing.digest_manifest manifest) digest ≡ true
    pub project_id : get "project_id" envelope.payload ≡ ok project
    pub of_project : is_text manifest.candidate.project_id project ≡ true
    pub created_at : get "created_at" envelope.payload ≡ ok created
    pub on_date : is_text manifest.created_at created ≡ true

  check_signature-IsSigned :
      (trust : Trust) (manifest : ReleaseManifest) (envelope : Envelope) (signer : String)
      → check_signature p packing trust manifest envelope ≡ ok signer
      → IsSigned trust manifest envelope signer
  unfolding check_signature
  check_signature-IsSigned trust manifest envelope signer h =
      let (t, verified, h1) =
        >>=-eq-ok (verify p trust envelope "release" "opentapeout.release-signature/v1") _ h in
      let (same, authorized) =
        (verify_iff p trust envelope "release" "opentapeout.release-signature/v1" t.0 t.1).0
          verified in
      let (digest, got1, h2) = >>=-eq-ok (get "manifest_sha256" t.0) _ h1 in
      let (on_manifest, h3) =
        ensure-eq-ok (is_text (packing.digest_manifest manifest) digest) _ _ h2 in
      let (project, got2, h4) = >>=-eq-ok (get "project_id" t.0) _ h3 in
      let (of_project, h5) = ensure-eq-ok (is_text manifest.candidate.project_id project) _ _ h4 in
      let (created, got3, h6) = >>=-eq-ok (get "created_at" t.0) _ h5 in
      let (on_date, h7) = ensure-eq-ok (is_text manifest.created_at created) _ _ h6 in
      record {
        authorized =
            subst (IsAuthorized p trust envelope "release" "opentapeout.release-signature/v1")
              (ok-injective h7) authorized;
        digest = digest;
        project = project;
        created = created;
        manifest_sha256 = ap (get "manifest_sha256") (sym same) ∙ got1;
        on_manifest = on_manifest;
        project_id = ap (get "project_id") (sym same) ∙ got2;
        of_project = of_project;
        created_at = ap (get "created_at") (sym same) ∙ got3;
        on_date = on_date;
      }

  -- The candidate and the policy of the manifest are the ones that were signed, on a day that is past.
  pub record IsBound (policy : Policy) (now : String) (manifest : ReleaseManifest) : Type 0 where
    pub issued : ℕ
    pub current : ℕ
    pub dated : timestamp p (str manifest.created_at) ≡ ok issued
    pub today : timestamp p (str now) ≡ ok current
    pub past : issued ≤ current
    pub candidate : p.digest_candidate manifest.candidate ≡ manifest.candidate_sha256
    pub policy_of_manifest : p.digest_policy manifest.policy ≡ p.digest_policy policy
    pub policy_of_candidate : p.digest_policy policy ≡ manifest.candidate.policy_sha256

  check_bindings-IsBound :
      (policy : Policy) (now : String) (manifest : ReleaseManifest) {u : Unit {0}}
      → check_bindings p packing policy now manifest ≡ ok u
      → IsBound policy now manifest
  unfolding check_bindings
  check_bindings-IsBound policy now manifest h =
      let (issued, dated, h1) = >>=-eq-ok (timestamp p (str manifest.created_at)) _ h in
      let (current, today, h2) = >>=-eq-ok (timestamp p (str now)) _ h1 in
      let (past, h3) = ensure-eq-ok (leb issued current) _ _ h2 in
      let digest = p.digest_candidate manifest.candidate in
      let (candidate, h4) = ensure-eq-ok (str_eq digest manifest.candidate_sha256) _ _ h3 in
      let inner = p.digest_policy manifest.policy in
      let outer = p.digest_policy policy in
      let both =
        true_of_ensure (str_eq inner outer && str_eq outer manifest.candidate.policy_sha256) _ h4 in
      let (first, second) =
        and-eq-true (str_eq inner outer) (str_eq outer manifest.candidate.policy_sha256) both in
      record {
        issued = issued;
        current = current;
        dated = dated;
        today = today;
        past = leb→le issued current past;
        candidate = (eq_iff digest manifest.candidate_sha256).0 candidate;
        policy_of_manifest = (eq_iff inner outer).0 first;
        policy_of_candidate = (eq_iff outer manifest.candidate.policy_sha256).0 second;
      }

  historical_gate-IsReleasable :
      (policy : Policy) (trust : Trust) (manifest : ReleaseManifest) (approvals : List Envelope)
      (report : Report)
      → historical_gate p packing policy trust manifest approvals ≡ ok report
      → IsReleasable p manifest.candidate policy trust approvals manifest.created_at
  unfolding historical_gate
  historical_gate-IsReleasable policy trust manifest approvals report h =
      let (r, evaluated, h1) =
        >>=-eq-ok (evaluate p manifest.candidate policy trust approvals manifest.created_at true) _
          h in
      let (ready, _) = ensure-eq-ok r.ready _ _ h1 in
      evaluate-IsReleasable p manifest.candidate policy trust approvals manifest.created_at r
        evaluated ready

  pub record IsVerified (policy : Policy) (trust : Trust) (budget : ℕ) (status : Option Envelope)
      (minimum : ℕ) (now : String) (archive : Archive ReleaseManifest) (result : Verified)
      : Type 0 where
    pub manifest : ReleaseManifest
    pub read : archive.manifest ≡ ok manifest
    pub envelope : Envelope
    pub read_signature : archive.signature ≡ ok envelope
    pub signed : IsSigned trust manifest envelope result.signer
    pub bound : IsBound policy now manifest
    pub approvals : List Envelope
    pub counted :
        counted_approvals p packing trust now manifest status minimum
        ≡ ok (approvals, result.release_status)
    pub releasable : IsReleasable p manifest.candidate policy trust approvals manifest.created_at
    pub complete : IsComplete archive.infolist manifest
    pub ordinary : IsOrdinary archive.infolist budget
    pub candidate_sha256 : result.candidate_sha256 ≡ manifest.candidate_sha256

  check_archive-IsVerified :
      (policy : Policy) (trust : Trust) (budget : ℕ) (status : Option Envelope) (minimum : ℕ)
      (now : String) (archive : Archive ReleaseManifest) (result : Verified)
      → check_archive p packing policy trust budget status minimum now archive ≡ ok result
      → IsVerified policy trust budget status minimum now archive result
  unfolding check_archive check_release
  check_archive-IsVerified policy trust budget status minimum now archive result h =
      let (_, members, h1) = >>=-eq-ok (check_members archive.infolist budget) _ h in
      let (manifest, read, h2) = >>=-eq-ok archive.manifest _ h1 in
      let (envelope, read2, h3) = >>=-eq-ok archive.signature _ h2 in
      let (_, h4) = ensure-eq-ok (str_eq manifest.schema "opentapeout.release/v1") _ _ h3 in
      let (signer, signed, h5) =
        >>=-eq-ok (check_signature p packing trust manifest envelope) _ h4 in
      let (_, bindings, h6) = >>=-eq-ok (check_bindings p packing policy now manifest) _ h5 in
      let (t, counted, h7) =
        >>=-eq-ok (counted_approvals p packing trust now manifest status minimum) _ h6 in
      let (report, ready, h8) =
        >>=-eq-ok (historical_gate p packing policy trust manifest t.0) _ h7 in
      let (_, contents, h9) = >>=-eq-ok (check_contents archive.infolist manifest) _ h8 in
      let bound = check_bindings-IsBound policy now manifest bindings in
      subst (IsVerified policy trust budget status minimum now archive) (ok-injective h9) (record {
        manifest = manifest;
        read = read;
        envelope = envelope;
        read_signature = read2;
        signed = check_signature-IsSigned trust manifest envelope signer signed;
        bound = bound;
        approvals = t.0;
        counted = counted;
        releasable = historical_gate-IsReleasable policy trust manifest t.0 report ready;
        complete = check_contents-IsComplete archive.infolist manifest contents;
        ordinary = check_members-IsOrdinary archive.infolist budget members;
        candidate_sha256 = bound.candidate;
      })

  -- An archive that `verify_bundle` accepts carries its own proof, whatever archive it is: a release
  -- key of the trust store that is not revoked has signed exactly its manifest; candidate and policy
  -- have the digests that were signed; the gate of the candidate passes at the date of the release,
  -- with the approvals that the status statement, if there is one, leaves; the members are the files
  -- of the manifest and the metadata, each file with its digest and size; no two members have one name, there are at most `max_members`,
  -- their sizes sum up to at most the budget, and each is a stored, plain, regular file under a
  -- relative name; the object index is the
  -- set of objects that the candidate refers to; and each delivery of the candidate is there.
  pub verify_bundle-IsVerified :
      (policy : Policy) (trust : Trust) (budget : ℕ) (status : Option Envelope) (minimum : ℕ)
      (now : String) (opened : Result (Archive ReleaseManifest)) (result : Verified)
      → verify_bundle p packing policy trust budget status minimum now opened ≡ ok result
      → (archive : Archive ReleaseManifest) × (opened ≡ ok archive)
        × IsVerified policy trust budget status minimum now archive result
  unfolding verify_bundle
  verify_bundle-IsVerified policy trust budget status minimum now opened result h =
      let (_, h1) = ensure-eq-ok _ _ _ h in
      let (archive, open_, h2) =
        >>=-eq-ok opened _ (repackaged-eq-ok "Invalid release package" _ h1) in
      (
        archive,
        open_,
        check_archive-IsVerified policy trust budget status minimum now archive result h2,
      )

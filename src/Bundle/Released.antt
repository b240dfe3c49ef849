-- ===== src/Bundle/Released.antt =====
-- What stands behind a release that `seal` of bundle.py records: its stages together.
use open_tapeout.Prelude.{
  ◌≡◌, String, false, none, some, [], ◌∷◌, ◌++◌, ap, subst, Dict, lookup, has,
}
use open_tapeout.Result.{ok, >>=-eq-ok, ok-injective}
use open_tapeout.Util.{identifier}
use open_tapeout.Records.{Envelope, Candidate, Policy, Trust, Platform}
use open_tapeout.Signing.{PrivateKey}
use open_tapeout.Graph.Drift.{Workspace}
use open_tapeout.Store.{Codec, Transaction, append}
use open_tapeout.Store.Append.{append-events}
use open_tapeout.Engine.State.{State, Release, Payload, LedgerEvent, release_sealed, state_from}
use open_tapeout.Engine.Ready.{IsReady}
use open_tapeout.Archive.{Archive, Packing, write_archive}
use open_tapeout.Bundle.Manifest.{ReleaseManifest, release_statement}
use open_tapeout.Bundle.Verify.{max_total, Verified}
use open_tapeout.Bundle.Verified.{IsVerified, verify_bundle-IsVerified}
use open_tapeout.Bundle.Seal.{sealable, release_manifest, pack_release, seal}
use open_tapeout.Bundle.Recorded.{
  IsManifest, release_manifest-IsManifest, sealable-IsSealable, pack_release-IsPacked,
}

module _ (p : Platform) (c : Codec String Payload) (packing : Packing ReleaseManifest) where
  pub record IsReleased (w later : Workspace) (tx tx' : Transaction c) (policy : Policy)
      (trust : Trust) (now : String) (sealed : Release) : Type 0 where
    pub state : State
    pub candidate : Candidate
    pub manifest : ReleaseManifest
    pub sources : Dict String
    pub archive : Archive ReleaseManifest
    pub result : Verified
    pub event : LedgerEvent
    pub signer : String
    pub accepted_name : String
    pub named : identifier sealed.id ≡ ok accepted_name
    pub read : state_from p tx.events ≡ ok state
    pub free : has sealed.id state.releases ≡ false
    pub frozen : lookup sealed.id state.candidates ≡ some candidate
    pub ready : IsReady p c w tx sealed.id policy trust now
    pub still : IsReady p c later tx sealed.id policy trust now
    pub manifested : IsManifest p c packing w state candidate policy now manifest
    pub stated : sealed.signature.payload ≡ release_statement packing manifest
    pub packed :
        packing.zip_file (write_archive manifest sealed.signature sources)
        ≡ ok (archive, sealed.archive_sha256, sealed.archive_size)
    pub accepted : IsVerified p packing policy trust max_total none 0 now archive result
    pub added : append c "release.sealed" (release_sealed sealed) signer now tx ≡ ok (event, tx')
    pub events : tx'.events ≡ tx.events ++ event ∷ []
    pub recorded : event.body.payload ≡ release_sealed sealed

  -- A release that `seal` records is ready and whole: its name had no release, the gate of its
  -- candidate passes with approvals before and after the packing, every object of the candidate is
  -- intact in the store, the manifest is of this candidate, policy and time, the signature is on this
  -- manifest, the archive that was written from it passes the offline verification of a recipient
  -- under the same policy and trust, and one event with the returned record is added to the ledger.
  pub seal-IsReleased :
      (w later : Workspace) (key : PrivateKey) (tx tx' : Transaction c) (name : String)
      (policy : Policy) (trust : Trust) (now : String) (sealed : Release)
      → seal p c packing w later key tx name policy trust now ≡ ok (sealed, tx')
      → IsReleased w later tx tx' policy trust now sealed
  unfolding seal
  seal-IsReleased w later key tx tx' name policy trust now sealed h =
      let (accepted_name, named, h1) = >>=-eq-ok (identifier name) _ h in
      let (s, read, h2) = >>=-eq-ok (state_from p tx.events) _ h1 in
      let (t, open_for, h3) = >>=-eq-ok (sealable p c packing w tx s name policy trust now) _ h2 in
      let (m, made, h4) = >>=-eq-ok (release_manifest p c packing w s t.0 t.1 policy now) _ h3 in
      let (u, packed, h5) =
        >>=-eq-ok (pack_release p c packing later key tx name m.0 m.1 policy trust now) _ h4 in
      let released : Release = record {
        id = name;
        archive_sha256 = u.2;
        archive_size = u.3;
        manifest_sha256 = packing.digest_manifest m.0;
        candidate_sha256 = p.digest_candidate t.0;
        sealed_at = now;
        signature = u.0;
      } in
      let (a, added, h6) =
        >>=-eq-ok (append c "release.sealed" (release_sealed released) u.1 now tx) _ h5 in
      let (events, payload) =
        append-events c "release.sealed" (release_sealed released) u.1 now tx a.1 a.0 added in
      let x = sealable-IsSealable p c packing w tx s name policy trust now t open_for in
      let y =
        pack_release-IsPacked p c packing later key tx name m.0 m.1 policy trust now u packed in
      let (archive, same, verified) =
        verify_bundle-IsVerified p packing policy trust max_total none 0 now (ok y.archive) y.result
          y.accepted in
      subst (λ (z : Release × Transaction c). IsReleased w later tx z.1 policy trust now z.0)
        (ok-injective h6)
        (record {
          state = s;
          candidate = t.0;
          manifest = m.0;
          sources = m.1;
          archive = archive;
          result = y.result;
          event = a.0;
          signer = u.1;
          accepted_name = accepted_name;
          named = named;
          read = read;
          free = x.free;
          frozen = x.frozen;
          ready = x.ready;
          still = y.still;
          manifested = release_manifest-IsManifest p c packing w s t.0 t.1 policy now m made;
          stated = ap (λ (e : Envelope). e.payload) y.made;
          packed =
              subst
                (λ (b : Archive ReleaseManifest).
                  packing.zip_file (write_archive m.0 u.0 m.1) ≡ ok (b, u.2, u.3))
                (ok-injective same) y.packed;
          accepted = verified;
          added = added;
          events = events;
          recorded = payload;
        })

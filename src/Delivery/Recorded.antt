-- ===== src/Delivery/Recorded.antt =====
-- What stands behind a capsule that `seal_delivery` of delivery.py records.
use open_tapeout.Prelude.{◌≤◌, String, false, some, [], ◌∷◌, ◌++◌, ◌≡◌, ap, subst, All, lookup, has}
use open_tapeout.Result.{ok, >>=-eq-ok, ok-injective}
use open_tapeout.Util.{identifier}
use open_tapeout.Records.{Envelope, Candidate, Policy, Trust, Platform}
use open_tapeout.Signing.{PrivateKey}
use open_tapeout.Signing.Authority.{IsAuthorized}
use open_tapeout.Graph.Drift.{Workspace}
use open_tapeout.Store.{Codec, Transaction, append}
use open_tapeout.Store.Append.{append-events}
use open_tapeout.Engine.Ready.{IsReady}
use open_tapeout.Engine.State.{
  State, Release, SealedDelivery, Payload, LedgerEvent, delivery_sealed, state_from,
}
use open_tapeout.Archive.{Archive, write_archive}
use open_tapeout.Delivery.Disclosed.{Disclosure}
use open_tapeout.Delivery.Capsule.{Manifest, Packing, signature_statement, verify_delivery}
use open_tapeout.Delivery.Seal.{
  total_files, sources_of, manifest_of, deliverable, sign_capsule, seal_delivery,
}
use open_tapeout.Delivery.Sealed.{
  IsDeclared, manifest_of-IsManifest, deliverable-IsDeliverable, sign_capsule-IsSigned,
}

module _ (p : Platform) (c : Codec String Payload) (packing : Packing) where
  pub record IsSealed (w later : Workspace) (tx tx' : Transaction c) (disclosure : Disclosure)
      (policy : Policy) (trust : Trust) (now : String) (sealed : SealedDelivery) : Type 0 where
    pub state : State
    pub release : Release
    pub candidate : Candidate
    pub manifest : Manifest
    pub signer : String
    pub event : LedgerEvent
    pub read : state_from p tx.events ≡ ok state
    pub free : has sealed.id state.deliveries ≡ false
    pub released : lookup sealed.release_id state.releases ≡ some release
    pub frozen : lookup sealed.release_id state.candidates ≡ some candidate
    pub ready : IsReady p c w tx sealed.release_id policy trust now
    pub still : IsReady p c later tx sealed.release_id policy trust now
    pub files : All (IsDeclared p c packing w candidate.deliveries) manifest.files
    pub budget : total_files manifest.files ≤ disclosure.max_bytes
    pub recipient : manifest.recipient ≡ disclosure.recipient
    pub bound : manifest.candidate_sha256 ≡ p.digest_candidate candidate
    pub stated : sealed.signature.payload ≡ signature_statement packing manifest
    pub authorized :
        IsAuthorized p trust sealed.signature "release" "opentapeout.delivery-signature/v1" signer
    pub archive : Archive Manifest
    pub packed :
        packing.zip.zip_file (write_archive manifest sealed.signature (sources_of manifest.files))
        ≡ ok (archive, sealed.archive_sha256, sealed.archive_size)
    pub result : String × Manifest
    pub accepted : verify_delivery p packing disclosure trust now (ok archive) ≡ ok result
    pub events : tx'.events ≡ tx.events ++ event ∷ []
    pub recorded : event.body.payload ≡ delivery_sealed sealed

  -- A capsule that `seal_delivery` records discloses nothing else: the gate of its release passes with
  -- approvals before and after the packing, its ID was free, every file of its manifest is a declared
  -- delivery of the candidate with its digest, size and format, intact in the store, the files fit the
  -- byte budget, the manifest names the candidate and the recipient, the signature is on this manifest
  -- by an authorized release key, the archive that was written passes `verify_delivery` for the same
  -- disclosure, and one event with the returned record is added to the ledger.
  pub seal_delivery-IsSealed :
      (w later : Workspace) (key : PrivateKey) (tx tx' : Transaction c)
      (release_id delivery_id : String) (disclosure : Disclosure) (policy : Policy) (trust : Trust)
      (now : String) (sealed : SealedDelivery)
      → seal_delivery p c packing w later key tx release_id delivery_id disclosure policy trust now
        ≡ ok (sealed, tx')
      → IsSealed w later tx tx' disclosure policy trust now sealed
  unfolding seal_delivery
  seal_delivery-IsSealed w later key tx tx' release_id delivery_id disclosure policy trust now
        sealed h =
      let (_, _, h1) = >>=-eq-ok (identifier delivery_id) _ h in
      let (s, read, h2) = >>=-eq-ok (state_from p tx.events) _ h1 in
      let (t, open_for, h3) =
        >>=-eq-ok (deliverable p c packing w tx s release_id delivery_id policy trust now) _ h2 in
      let (manifest, selected, h4) =
        >>=-eq-ok (manifest_of p w packing t.0 t.1 delivery_id disclosure now) _ h3 in
      let (u, capsule, h5) =
        >>=-eq-ok
          (sign_capsule p c packing later key tx release_id disclosure manifest policy trust now) _
          h4 in
      let made : SealedDelivery = record {
        id = delivery_id;
        release_id = release_id;
        project_id = t.1.project_id;
        candidate_sha256 = p.digest_candidate t.1;
        archive_sha256 = u.2;
        archive_size = u.3;
        manifest_sha256 = packing.zip.digest_manifest manifest;
        recipient = disclosure.recipient;
        disclosure_sha256 = packing.digest_disclosure disclosure;
        sealed_at = now;
        signature = u.0;
      } in
      let (a, added, h6) =
        >>=-eq-ok (append c "delivery.sealed" (delivery_sealed made) u.1 now tx) _ h5 in
      let (events, payload) =
        append-events c "delivery.sealed" (delivery_sealed made) u.1 now tx a.1 a.0 added in
      let x =
        deliverable-IsDeliverable p c packing w tx s release_id delivery_id policy trust now t
          open_for in
      let m =
        manifest_of-IsManifest p c packing w t.0 t.1 delivery_id disclosure now manifest selected in
      let y =
        sign_capsule-IsSigned p c packing later key tx release_id disclosure manifest policy trust
          now u capsule in
      subst
        (λ (z : SealedDelivery × Transaction c).
          IsSealed w later tx z.1 disclosure policy trust now z.0)
        (ok-injective h6)
        (record {
          state = s;
          release = t.0;
          candidate = t.1;
          manifest = manifest;
          signer = u.1;
          event = a.0;
          read = read;
          free = x.free;
          released = x.release;
          frozen = x.candidate;
          ready = x.ready;
          still = y.still;
          files = m.files;
          budget = m.budget;
          recipient = m.recipient;
          bound = m.bound;
          stated = ap (λ (e : Envelope). e.payload) y.made;
          authorized = y.authorized;
          archive = y.archive;
          packed = y.packed;
          result = y.result;
          accepted = y.accepted;
          events = events;
          recorded = payload;
        })

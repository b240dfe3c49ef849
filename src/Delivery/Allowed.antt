-- ===== src/Delivery/Allowed.antt =====
-- What `verify_delivery` of delivery.py has established of a capsule that it accepts.
use open_tapeout.Prelude.{
  ℕ, ◌≤◌, ◌&&◌, String, true, some, List, [], ◌∷◌, ◌++◌, ◌==◌, ◌≡◌, sym, ap, ◌∙◌, subst, All, Dict,
  keys, str_eq, eq_iff, leb, leb→le, ==_iff, same_set, and-eq-true,
}
use open_tapeout.Result.{Result, ok, >>=-eq-ok, ensure-eq-ok, true_of_ensure, ok-injective}
use open_tapeout.Json.{Json, str, get, is_text}
use open_tapeout.Util.{identifier}
use open_tapeout.Records.{Envelope, Trust, Platform}
use open_tapeout.Signing.{verify, timestamp}
use open_tapeout.Signing.Authority.{IsAuthorized, verify_iff}
use open_tapeout.Archive.{
  Member, Archive, FileEntry, metadata, names, has_no_repeat, getinfo, hash_stream,
}
use open_tapeout.Archive.Members.{repackaged-eq-ok, getinfo-Among, hash_stream-eq-ok}
use open_tapeout.Bundle.Contents.{IsHeld, same_bytes}
use open_tapeout.Delivery.Disclosed.{Disclosure}
use open_tapeout.Delivery.Capsule.{
  Manifest, Packing, expected_files, delivered_size, check_capsule_items, check_capsule_members,
  file_entry, check_expected_files, check_capsule_signature, check_capsule_manifest, check_capsule,
  verify_delivery,
}

-- A file of the disclosure: a member of the capsule with its name whose bytes have the pinned digest.
pub record IsDisclosed (max_bytes : ℕ) (infos : List Member) (files : Dict FileEntry)
    (file : String × String) : Type 0 where
  pub entry : FileEntry
  pub listed : file_entry files file.0 ≡ ok entry
  pub pinned : entry.sha256 ≡ file.1
  pub small : entry.size ≤ max_bytes
  pub held : IsHeld infos (file.0, entry)

check_expected_files-IsDisclosed :
    (max_bytes : ℕ) (infos : List Member) (files : Dict FileEntry) (expected : Dict String)
    {u : Unit {0}}
    → check_expected_files max_bytes infos files expected ≡ ok u
    → All (IsDisclosed max_bytes infos files) expected
unfolding check_expected_files
check_expected_files-IsDisclosed max_bytes infos files [] h = tt
check_expected_files-IsDisclosed max_bytes infos files ((name, checksum) ∷ rest) h =
    let (entry, listed, h1) = >>=-eq-ok (file_entry files name) _ h in
    let (info, found, h2) = >>=-eq-ok (getinfo infos name) _ h1 in
    let (fits, h3) =
      ensure-eq-ok
        (leb entry.size max_bytes && entry.size == info.file_size && str_eq entry.sha256 checksum) _
        _ h2 in
    let (r, read, h4) = >>=-eq-ok (hash_stream info.content entry.size) _ h3 in
    let (same, h5) = ensure-eq-ok (str_eq r.0 checksum && r.1 == entry.size) _ _ h4 in
    let (sized, digest) =
      and-eq-true (leb entry.size max_bytes && entry.size == info.file_size)
        (str_eq entry.sha256 checksum) fits in
    let (small, declared) =
      and-eq-true (leb entry.size max_bytes) (entry.size == info.file_size) sized in
    let pinned = (eq_iff entry.sha256 checksum).0 digest in
    let bytes =
      same_bytes r (record { sha256 = checksum; size = entry.size }) same
      ∙ ap (λ (x : String). (x, entry.size)) (sym pinned) in
    let (among, named) = getinfo-Among infos name info found in
    let one : IsDisclosed max_bytes infos files (name, checksum) = record {
      entry = entry;
      listed = listed;
      pinned = pinned;
      small = leb→le entry.size max_bytes small;
      held = record {
        member = info;
        among = among;
        named = named;
        bytes = (hash_stream-eq-ok info.content entry.size r read).0 ∙ ap some bytes;
        declared = sym ((==_iff entry.size info.file_size).0 declared);
      };
    } in
    (one, check_expected_files-IsDisclosed max_bytes infos files rest h5)

-- The names of the members, and how much they hold together.
pub record IsExact (disclosure : Disclosure) (infos : List Member) : Type 0 where
  pub distinct : has_no_repeat (names infos) ≡ true
  pub exact : same_set (names infos) (metadata ++ keys (expected_files disclosure.files)) ≡ true
  pub budget : delivered_size infos ≤ disclosure.max_bytes

check_capsule_members-IsExact :
    (disclosure : Disclosure) (infos : List Member) {u : Unit {0}}
    → check_capsule_members disclosure infos ≡ ok u
    → IsExact disclosure infos
unfolding check_capsule_members
check_capsule_members-IsExact disclosure infos h =
    let (_, h1) = ensure-eq-ok _ _ _ h in
    let (distinct, h2) = ensure-eq-ok (has_no_repeat (names infos)) _ _ h1 in
    let (exact, h3) =
      ensure-eq-ok (same_set (names infos) (metadata ++ keys (expected_files disclosure.files))) _ _
        h2 in
    let (_, _, h4) = >>=-eq-ok (check_capsule_items disclosure.max_bytes infos) _ h3 in
    let budget = true_of_ensure (leb (delivered_size infos) disclosure.max_bytes) _ h4 in
    record {
      distinct = distinct;
      exact = exact;
      budget = leb→le (delivered_size infos) disclosure.max_bytes budget;
    }

module _ (p : Platform) (packing : Packing) where
  -- The manifest answers this disclosure and is not from the future.
  pub record IsAddressed (disclosure : Disclosure) (now : String) (manifest : Manifest)
      : Type 0 where
    pub issued : ℕ
    pub current : ℕ
    pub dated : timestamp p (str manifest.created_at) ≡ ok issued
    pub today : timestamp p (str now) ≡ ok current
    pub past : issued ≤ current
    pub disclosed : manifest.disclosure_sha256 ≡ packing.digest_disclosure disclosure
    pub recipient : manifest.recipient ≡ disclosure.recipient
    pub files : same_set (keys manifest.files) (keys (expected_files disclosure.files)) ≡ true

  check_capsule_manifest-IsAddressed :
      (disclosure : Disclosure) (now : String) (manifest : Manifest) {u : Unit {0}}
      → check_capsule_manifest p packing disclosure now manifest ≡ ok u
      → IsAddressed disclosure now manifest
  unfolding check_capsule_manifest
  check_capsule_manifest-IsAddressed disclosure now manifest h =
      let (issued, dated, h1) = >>=-eq-ok (timestamp p (str manifest.created_at)) _ h in
      let (current, today, h2) = >>=-eq-ok (timestamp p (str now)) _ h1 in
      let (past, h3) = ensure-eq-ok (leb issued current) _ _ h2 in
      let (_, _, h4) = >>=-eq-ok (identifier manifest.delivery_id) _ h3 in
      let (_, _, h5) = >>=-eq-ok (identifier manifest.project_id) _ h4 in
      let (_, h6) = ensure-eq-ok _ _ _ h5 in
      let digest = packing.digest_disclosure disclosure in
      let (both, h7) =
        ensure-eq-ok
          (str_eq manifest.disclosure_sha256 digest
            && str_eq manifest.recipient disclosure.recipient)
          _ _ h6 in
      let (first, second) =
        and-eq-true (str_eq manifest.disclosure_sha256 digest)
          (str_eq manifest.recipient disclosure.recipient) both in
      record {
        issued = issued;
        current = current;
        dated = dated;
        today = today;
        past = leb→le issued current past;
        disclosed = (eq_iff manifest.disclosure_sha256 digest).0 first;
        recipient = (eq_iff manifest.recipient disclosure.recipient).0 second;
        files =
            true_of_ensure (same_set (keys manifest.files) (keys (expected_files disclosure.files)))
              _ h7;
      }

  check_capsule_signature-IsAuthorized :
      (trust : Trust) (manifest : Manifest) (envelope : Envelope) (signer : String)
      → check_capsule_signature p packing trust manifest envelope ≡ ok signer
      → (digest : Json) × IsAuthorized p trust envelope "release"
          "opentapeout.delivery-signature/v1" signer
        × (get "manifest_sha256" envelope.payload ≡ ok digest)
        × (is_text (packing.zip.digest_manifest manifest) digest ≡ true)
  unfolding check_capsule_signature
  check_capsule_signature-IsAuthorized trust manifest envelope signer h =
      let (t, verified, h1) =
        >>=-eq-ok (verify p trust envelope "release" "opentapeout.delivery-signature/v1") _ h in
      let (same, authorized) =
        (verify_iff p trust envelope "release" "opentapeout.delivery-signature/v1" t.0 t.1).0
          verified in
      let (_, h2) = ensure-eq-ok _ _ _ h1 in
      let (digest, got, h3) = >>=-eq-ok (get "manifest_sha256" t.0) _ h2 in
      let (on_manifest, h4) =
        ensure-eq-ok (is_text (packing.zip.digest_manifest manifest) digest) _ _ h3 in
      let (project, _, h5) = >>=-eq-ok (get "project_id" t.0) _ h4 in
      let (created, _, h6) = >>=-eq-ok (get "created_at" t.0) _ h5 in
      let (_, h7) =
        ensure-eq-ok (is_text manifest.project_id project && is_text manifest.created_at created) _
          _ h6 in
      (
        digest,
        subst (IsAuthorized p trust envelope "release" "opentapeout.delivery-signature/v1")
            (ok-injective h7) authorized,
        ap (get "manifest_sha256") (sym same) ∙ got,
        on_manifest,
      )

  pub record IsAllowed (disclosure : Disclosure) (trust : Trust) (now : String)
      (archive : Archive Manifest) (signer : String) (manifest : Manifest) : Type 0 where
    pub envelope : Envelope
    pub read : archive.manifest ≡ ok manifest
    pub read_signature : archive.signature ≡ ok envelope
    pub authorized :
        IsAuthorized p trust envelope "release" "opentapeout.delivery-signature/v1" signer
    pub digest : Json
    pub stated : get "manifest_sha256" envelope.payload ≡ ok digest
    pub on_manifest : is_text (packing.zip.digest_manifest manifest) digest ≡ true
    pub members : IsExact disclosure archive.infolist
    pub addressed : IsAddressed disclosure now manifest
    pub files :
        All
          (IsDisclosed disclosure.max_bytes archive.infolist manifest.files)
          (expected_files disclosure.files)

  check_capsule-IsAllowed :
      (disclosure : Disclosure) (trust : Trust) (now : String) (archive : Archive Manifest)
      (t : String × Manifest)
      → check_capsule p packing disclosure trust now archive ≡ ok t
      → IsAllowed disclosure trust now archive t.0 t.1
  unfolding check_capsule
  check_capsule-IsAllowed disclosure trust now archive t h =
      let (_, members, h1) = >>=-eq-ok (check_capsule_members disclosure archive.infolist) _ h in
      let (manifest, read, h2) = >>=-eq-ok archive.manifest _ h1 in
      let (envelope, read2, h3) = >>=-eq-ok archive.signature _ h2 in
      let (_, h4) = ensure-eq-ok _ _ _ h3 in
      let (signer, signed, h5) =
        >>=-eq-ok (check_capsule_signature p packing trust manifest envelope) _ h4 in
      let (_, answers, h6) =
        >>=-eq-ok (check_capsule_manifest p packing disclosure now manifest) _ h5 in
      let (_, held, h7) =
        >>=-eq-ok
          (check_expected_files disclosure.max_bytes archive.infolist manifest.files
            (expected_files disclosure.files))
          _ h6 in
      let (digest, authorized, stated, on_manifest) =
        check_capsule_signature-IsAuthorized trust manifest envelope signer signed in
      subst (λ (t : String × Manifest). IsAllowed disclosure trust now archive t.0 t.1)
        (ok-injective h7)
        (record {
          envelope = envelope;
          read = read;
          read_signature = read2;
          authorized = authorized;
          digest = digest;
          stated = stated;
          on_manifest = on_manifest;
          members = check_capsule_members-IsExact disclosure archive.infolist members;
          addressed = check_capsule_manifest-IsAddressed disclosure now manifest answers;
          files =
              check_expected_files-IsDisclosed disclosure.max_bytes archive.infolist manifest.files
                (expected_files disclosure.files) held;
        })

  -- A capsule that `verify_delivery` accepts is an exact allowlist: a release key of the trust store
  -- that is not revoked has signed exactly its manifest, which names this disclosure and its recipient
  -- and is not from the future; the members are the two metadata members and the files of the
  -- disclosure and no others, none twice; each file has the digest that the disclosure pins, with the
  -- size that manifest and directory declare; and the files together stay in the byte budget.
  pub verify_delivery-IsAllowed :
      (disclosure : Disclosure) (trust : Trust) (now : String) (opened : Result (Archive Manifest))
      (signer : String) (manifest : Manifest)
      → verify_delivery p packing disclosure trust now opened ≡ ok (signer, manifest)
      → (archive : Archive Manifest) × (opened ≡ ok archive)
        × IsAllowed disclosure trust now archive signer manifest
  unfolding verify_delivery
  verify_delivery-IsAllowed disclosure trust now opened signer manifest h =
      let (archive, open_, h1) =
        >>=-eq-ok opened _ (repackaged-eq-ok "Invalid delivery package" _ h) in
      (archive, open_, check_capsule-IsAllowed disclosure trust now archive (signer, manifest) h1)

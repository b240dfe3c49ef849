-- ===== src/Bundle/Contents.antt =====
-- What the tests of an archive against its manifest, in `verify_bundle` of bundle.py, establish.
use open_tapeout.Prelude.{
  ℕ, String, true, ◌&&◌, some, Option-cases, List, [], ◌∷◌, ◌++◌, ◌==◌, ◌≡◌, ap, ◌∙◌, inl, inr, All,
  Among, Dict, keys, lookup, str_eq, eq_iff, length, same_set, and-eq-true, ==_iff,
}
use open_tapeout.Result.{ok, >>=-eq-ok, ensure-eq-ok}
use open_tapeout.Util.Paths.{safe_relative}
use open_tapeout.Records.{Delivery}
use open_tapeout.Engine.Scope.{object_refs}
use open_tapeout.Archive.{Member, FileEntry, metadata, names, getinfo, hash_stream, delivery_member}
use open_tapeout.Archive.Members.{getinfo-Among, hash_stream-eq-ok}
use open_tapeout.Bundle.Manifest.{ReleaseManifest}
use open_tapeout.Bundle.Verify.{
  check_files, check_index, holds, is_entry, check_deliveries, check_contents,
}

-- A file of the manifest: a member of the archive with its name whose bytes have the digest and size.
pub record IsHeld (infos : List Member) (file : String × FileEntry) : Type 0 where
  pub member : Member
  pub among : Among member infos
  pub named : member.filename ≡ file.0
  pub bytes : member.content ≡ some (file.1.sha256, file.1.size)
  pub declared : member.file_size ≡ file.1.size

pub same_bytes :
    (r : String × ℕ) (e : FileEntry)
    → (str_eq r.0 e.sha256 && r.1 == e.size) ≡ true
    → r ≡ (e.sha256, e.size)
same_bytes (checksum, size) e h =
    let (digest, length) = and-eq-true (str_eq checksum e.sha256) (size == e.size) h in
    ap (λ (x : String). (x, size)) ((eq_iff checksum e.sha256).0 digest)
    ∙ ap (λ (n : ℕ). (e.sha256, n)) ((==_iff size e.size).0 length)

check_files-IsHeld :
    (infos : List Member) (files : Dict FileEntry) {u : Unit {0}}
    → check_files infos files ≡ ok u
    → All (IsHeld infos) files
unfolding check_files
check_files-IsHeld infos [] h = tt
check_files-IsHeld infos ((name, entry) ∷ rest) h =
    let (_, _, h1) = >>=-eq-ok (safe_relative name) _ h in
    let (info, found, h2) = >>=-eq-ok (getinfo infos name) _ h1 in
    let (declared, h3) = ensure-eq-ok (info.file_size == entry.size) _ _ h2 in
    let (r, read, h4) = >>=-eq-ok (hash_stream info.content entry.size) _ h3 in
    let (same, h5) = ensure-eq-ok (str_eq r.0 entry.sha256 && r.1 == entry.size) _ _ h4 in
    let (among, named) = getinfo-Among infos name info found in
    let one : IsHeld infos (name, entry) = record {
      member = info;
      among = among;
      named = named;
      bytes =
          (hash_stream-eq-ok info.content entry.size r read).0 ∙ ap some (same_bytes r entry same);
      declared = (==_iff info.file_size entry.size).0 declared;
    } in
    (one, check_files-IsHeld infos rest h5)

-- An object of the index: a file of the manifest with its digest.
pub record IsIndexed (files : Dict FileEntry) (object : String × String) : Type 0 where
  pub file : FileEntry
  pub listed : lookup object.1 files ≡ some file
  pub digest : file.sha256 ≡ object.0

holds-IsIndexed :
    (files : Dict FileEntry) (checksum member : String)
    → holds (lookup member files) checksum ≡ true
    → IsIndexed files (checksum, member)
holds-IsIndexed files checksum member h = elim (Option-cases (lookup member files)) [
  | inl missing ↦ let bad = rw missing at h in cc
  | inr (file, found) ↦ record {
    file = file;
    listed = found;
    digest = (eq_iff file.sha256 checksum).0 (rw found at h);
  }
]

check_index-IsIndexed :
    (files : Dict FileEntry) (index : Dict String) {u : Unit {0}}
    → check_index files index ≡ ok u
    → All (IsIndexed files) index
unfolding check_index
check_index-IsIndexed files [] h = tt
check_index-IsIndexed files ((checksum, member) ∷ rest) h =
    let (held, h1) = ensure-eq-ok (holds (lookup member files) checksum) _ _ h in
    (holds-IsIndexed files checksum member held, check_index-IsIndexed files rest h1)

-- A delivery of the candidate: a file below `delivery/` with its digest and size.
pub record IsDelivered (files : Dict FileEntry) (d : Delivery) : Type 0 where
  pub name : String
  pub safe : safe_relative d.name ≡ ok name
  pub file : FileEntry
  pub listed : lookup (delivery_member name) files ≡ some file
  pub bytes : (file.sha256 ≡ d.sha256) × (file.size ≡ d.size)

same_entry :
    (file : FileEntry) (d : Delivery)
    → is_entry (some file) d ≡ true
    → (file.sha256 ≡ d.sha256) × (file.size ≡ d.size)
same_entry file d h =
    let (digest, length) = and-eq-true (str_eq file.sha256 d.sha256) (file.size == d.size) h in
    ((eq_iff file.sha256 d.sha256).0 digest, (==_iff file.size d.size).0 length)

entry-IsDelivered :
    (files : Dict FileEntry) (d : Delivery) (name : String)
    → safe_relative d.name ≡ ok name
    → is_entry (lookup (delivery_member name) files) d ≡ true
    → IsDelivered files d
entry-IsDelivered files d name safe h = elim (Option-cases (lookup (delivery_member name) files)) [
  | inl missing ↦ let bad = rw missing at h in cc
  | inr (file, found) ↦ record {
    name = name;
    safe = safe;
    file = file;
    listed = found;
    bytes = same_entry file d (rw found at h);
  }
]

check_deliveries-IsDelivered :
    (files : Dict FileEntry) (ds : List Delivery) {u : Unit {0}}
    → check_deliveries files ds ≡ ok u
    → All (IsDelivered files) ds
unfolding check_deliveries
check_deliveries-IsDelivered files [] h = tt
check_deliveries-IsDelivered files (d ∷ rest) h =
    let (name, safe, h1) = >>=-eq-ok (safe_relative d.name) _ h in
    let (same, h2) = ensure-eq-ok (is_entry (lookup (delivery_member name) files) d) _ _ h1 in
    (entry-IsDelivered files d name safe same, check_deliveries-IsDelivered files rest h2)

-- The members of an archive are what its manifest says, and the objects are what its candidate needs.
pub record IsComplete (infos : List Member) (manifest : ReleaseManifest) : Type 0 where
  pub exact : same_set (names infos) (keys manifest.files ++ metadata) ≡ true
  pub files : All (IsHeld infos) manifest.files
  pub refs : List String
  pub needed : object_refs manifest.candidate ≡ ok refs
  pub objects : same_set (keys manifest.object_index) refs ≡ true
  pub index : All (IsIndexed manifest.files) manifest.object_index
  pub deliveries : All (IsDelivered manifest.files) manifest.candidate.deliveries

pub check_contents-IsComplete :
    (infos : List Member) (manifest : ReleaseManifest) {u : Unit {0}}
    → check_contents infos manifest ≡ ok u
    → IsComplete infos manifest
unfolding check_contents
check_contents-IsComplete infos manifest h =
    let (exact, h1) =
      ensure-eq-ok (same_set (names infos) (keys manifest.files ++ metadata)) _ _ h in
    let (_, held, h2) = >>=-eq-ok (check_files infos manifest.files) _ h1 in
    let (refs, needed, h3) = >>=-eq-ok (object_refs manifest.candidate) _ h2 in
    let (objects, h4) = ensure-eq-ok (same_set (keys manifest.object_index) refs) _ _ h3 in
    let (_, index, h5) = >>=-eq-ok (check_index manifest.files manifest.object_index) _ h4 in
    record {
      exact = exact;
      files = check_files-IsHeld infos manifest.files held;
      refs = refs;
      needed = needed;
      objects = objects;
      index = check_index-IsIndexed manifest.files manifest.object_index index;
      deliveries = check_deliveries-IsDelivered manifest.files manifest.candidate.deliveries h5;
    }

-- ===== src/Archive.antt =====
-- The ZIP archives of bundle.py and delivery.py: what `zipfile` reads of one, the tests of its
-- members, and `write_archive`.
pub mod Members
use Prim.Native.String as Text
use Prim.Native.Nat.{◌/◌, ◌%◌}
use open_tapeout.Prelude.{
  ℕ, ◌+◌, String, Bool, true, false, ◌&&◌, ◌||◌, not, Option, none, some, List, [], ◌∷◌, ◌==◌, map,
  leb, str_eq, str_le, find, contains, Dict, if◌then◌else◌,
}
use open_tapeout.Result.{
  tapeout, team, os_error, key_error, type_error, attribute_error, out_of_fuel, Result, ok, err,
  ensure, ◌>>=◌, ◌>>◌,
}
use open_tapeout.Records.{Envelope}

-- A `ZipInfo`, with the digest and the length of the bytes that reading it to the end yields;
-- `none` where `zipfile` refuses to read them.
pub record Member : Type 0 where
  pub filename : String
  pub is_dir : Bool
  pub flag_bits : ℕ
  pub external_attr : ℕ
  pub compress_type : ℕ
  pub file_size : ℕ
  pub content : Option (String × ℕ)

-- An archive that is open for reading; `manifest` and `signature` are what `loads` makes of the two
-- metadata members, failing where these are not there or no such document.
pub record Archive (M : Type 0) : Type 0 where
  pub infolist : List Member
  pub manifest : Result M
  pub signature : Result Envelope

-- `{"sha256": ..., "size": ...}` of a manifest
pub record FileEntry : Type 0 where
  pub sha256 : String
  pub size : ℕ

-- METADATA
abbrev pub metadata : List String
metadata = "manifest.json" ∷ "signature.json" ∷ []

abbrev pub names : List Member → List String
names = map (λ (m : Member). m.filename)

-- `len(names) == len(set(names))`
unfoldable pub has_no_repeat : List String → Bool
has_no_repeat [] = true
has_no_repeat (x ∷ xs) = not (contains x xs) && has_no_repeat xs

unfoldable pub total_size : List Member → ℕ
total_size [] = 0
total_size (m ∷ rest) = m.file_size + total_size rest

-- `not (item.flag_bits & 1)`
abbrev pub is_plain_member : Member → Bool
is_plain_member m = not m.is_dir && m.flag_bits % 2 == 0

-- `(item.external_attr >> 16) & 0o170000 in (0, 0o100000)`: the file type is unset or a regular file.
abbrev pub is_regular : Member → Bool
is_regular m = let mode = m.external_attr / 268435456 % 16 in mode == 0 || mode == 8

-- `item.compress_type == zipfile.ZIP_STORED`
abbrev pub is_stored : Member → Bool
is_stored m = m.compress_type == 0

-- `archive.getinfo(name)`; the callers have tested that no two members have one name.
unfoldable pub getinfo : List Member → String → Result Member
getinfo infos name = elim (find (λ (m : Member). str_eq m.filename name) infos) [
  | none ↦ err key_error
  | some m ↦ ok m
]

-- `hash_stream(member, limit)` of util.py
unfoldable pub hash_stream : Option (String × ℕ) → ℕ → Result (String × ℕ)
hash_stream none limit = err (os_error "Bad ZIP file")
hash_stream (some (checksum, size)) limit = do
  ensure (leb size limit) "Stream exceeds size limit"
  ok (checksum, size)

-- `except (OSError, zipfile.BadZipFile, KeyError, TypeError, ValueError)`, which raises a TapeoutError
-- again as it is.
unfoldable pub repackaged {ℓ} : {A : Type ℓ} → String → Result A → Result A
repackaged message (err (os_error why)) = err (tapeout message)
repackaged message (err key_error) = err (tapeout message)
repackaged message (err type_error) = err (tapeout message)
repackaged message r = r

-- What `_entry` sets of a `ZipInfo`, besides its constant date.
pub record Entry : Type 0 where
  pub filename : String
  pub compress_type : ℕ
  pub create_system : ℕ
  pub external_attr : ℕ

-- `0o100444 << 16`: a regular file that all may read
unfoldable pub entry : String → Entry
entry name = record {
  filename = name;
  compress_type = 0;
  create_system = 3;
  external_attr = 2166620160;
}

-- What `write_archive` puts under an entry: a document as canonical JSON, or the bytes of a stored
-- object, named by its digest.
pub data Content (M : Type 0) : Type 0 where
  document : M → Content M
  signed : Envelope → Content M
  stored : String → Content M

-- `sorted(sources.items())`
unfoldable pub insert_source : String × String → Dict String → Dict String
insert_source d [] = d ∷ []
insert_source d (e ∷ rest) = if str_le d.0 e.0 then d ∷ e ∷ rest else e ∷ insert_source d rest

unfoldable pub sorted_sources : Dict String → Dict String
unfolding insert_source
sorted_sources [] = []
sorted_sources (d ∷ rest) = insert_source d (sorted_sources rest)

unfoldable pub write_sources : {M : Type 0} → Dict String → List (Entry × Content M)
unfolding entry
write_sources [] = []
write_sources ((name, source) ∷ rest) = (entry name, stored source) ∷ write_sources rest

unfoldable pub write_archive : {M : Type 0} → M → Envelope → Dict String → List (Entry × Content M)
unfolding entry sorted_sources write_sources
write_archive manifest signature sources =
    (entry "manifest.json", document manifest)
    ∷ (entry "signature.json", signed signature)
    ∷ write_sources (sorted_sources sources)

-- What is not the program's own: the digest of a manifest, the size of a stored object, and the file
-- that `zipfile` makes of these members: the archive that is read back, with its digest and size.
pub record Packing (M : Type 0) : Type 0 where
  pub digest_manifest : M → String
  pub object_size : String → Result ℕ
  pub zip_file : List (Entry × Content M) → Result (Archive M × String × ℕ)

-- `"objects/sha256/" + checksum`, `"delivery/" + name`
abbrev pub object_member : String → String
object_member checksum = Text.◌++◌ "objects/sha256/" checksum

abbrev pub delivery_member : String → String
delivery_member name = Text.◌++◌ "delivery/" name

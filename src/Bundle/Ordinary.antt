-- ===== src/Bundle/Ordinary.antt =====
-- What the members of an archive are that `verify_bundle` of bundle.py goes on to read.
use open_tapeout.Prelude.{
  ℕ, ◌≤◌, ◌&&◌, true, List, [], ◌∷◌, ◌≡◌, All, leb, leb→le, and-eq-true, length, subset, String,
}
use open_tapeout.Result.{ok, >>=-eq-ok, ensure-eq-ok}
use open_tapeout.Util.{max_json_bytes}
use open_tapeout.Util.Paths.{safe_relative}
use open_tapeout.Archive.{
  Member, metadata, names, has_no_repeat, total_size, is_plain_member, is_regular, is_stored,
  getinfo,
}
use open_tapeout.Bundle.Verify.{max_members, check_items, check_metadata, check_members}

-- A member has a relative name, is a plain file that is neither a directory nor encrypted, a link or
-- a device, and is not compressed.
pub record IsPlain (item : Member) : Type 0 where
  pub name : String
  pub relative : safe_relative item.filename ≡ ok name
  pub plain : is_plain_member item ≡ true
  pub regular : is_regular item ≡ true
  pub stored : is_stored item ≡ true

-- The members have different names, are not too many and, together, not over the budget; each is
-- plain, and the metadata are among them and not too long.
pub record IsOrdinary (infos : List Member) (budget : ℕ) : Type 0 where
  pub two : 2 ≤ length infos
  pub few : length infos ≤ max_members
  pub distinct : has_no_repeat (names infos) ≡ true
  pub within : total_size infos ≤ budget
  pub plain : All IsPlain infos
  pub has_metadata : subset metadata (names infos) ≡ true
  pub short :
      All
        (λ name.
          (info : Member) × (getinfo infos name ≡ ok info) × (info.file_size ≤ max_json_bytes))
        metadata

check_items-IsPlain : (items : List Member) → check_items items ≡ ok tt → All IsPlain items
unfolding check_items
check_items-IsPlain [] h = tt
check_items-IsPlain (item ∷ rest) h =
    let (name, relative, h1) = >>=-eq-ok (safe_relative item.filename) _ h in
    let (plain, h2) = ensure-eq-ok (is_plain_member item) _ _ h1 in
    let (regular, h3) = ensure-eq-ok (is_regular item) _ _ h2 in
    let (stored, h4) = ensure-eq-ok (is_stored item) _ _ h3 in
    (
      record {
        name = name;
        relative = relative;
        plain = plain;
        regular = regular;
        stored = stored;
      },
      check_items-IsPlain rest h4,
    )

check_metadata-short :
    (infos : List Member) (wanted : List String)
    → check_metadata infos wanted ≡ ok tt
    → All
        (λ name.
          (info : Member) × (getinfo infos name ≡ ok info) × (info.file_size ≤ max_json_bytes))
        wanted
unfolding check_metadata
check_metadata-short infos [] h = tt
check_metadata-short infos (name ∷ rest) h =
    let (info, found, h1) = >>=-eq-ok (getinfo infos name) _ h in
    let (short, h2) = ensure-eq-ok (leb info.file_size max_json_bytes) _ _ h1 in
    ((info, found, leb→le _ _ short), check_metadata-short infos rest h2)

pub check_members-IsOrdinary :
    (infos : List Member) (budget : ℕ)
    → check_members infos budget ≡ ok tt
    → IsOrdinary infos budget
unfolding check_members
check_members-IsOrdinary infos budget h =
    let (count, h1) = ensure-eq-ok (leb 2 (length infos) && leb (length infos) max_members) _ _ h in
    let (distinct, h2) = ensure-eq-ok (has_no_repeat (names infos)) _ _ h1 in
    let (within, h3) = ensure-eq-ok (leb (total_size infos) budget) _ _ h2 in
    let (_, items, h4) = >>=-eq-ok (check_items infos) _ h3 in
    let (has_metadata, h5) = ensure-eq-ok (subset metadata (names infos)) _ _ h4 in
    let (two, few) = and-eq-true (leb 2 (length infos)) (leb (length infos) max_members) count in
    record {
      two = leb→le 2 (length infos) two;
      few = leb→le (length infos) max_members few;
      distinct = distinct;
      within = leb→le (total_size infos) budget within;
      plain = check_items-IsPlain infos items;
      has_metadata = has_metadata;
      short = check_metadata-short infos metadata h5;
    }

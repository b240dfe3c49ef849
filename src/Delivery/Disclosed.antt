-- ===== src/Delivery/Disclosed.antt =====
-- `validate_disclosure` and `disclosure_template` of delivery.py: what may be disclosed to a recipient.
use open_tapeout.Prelude.{
  ℕ, ◌+◌, String, Bool, ◌&&◌, not, List, [], ◌∷◌, lookup, contains, same_set, str_eq, leb, ltb,
  length, pos,
}
use open_tapeout.Result.{Result, ok, err, tapeout, ensure, known, ◌>>=◌, ◌>>◌}
use open_tapeout.Json.{
  Json, num, str, arr, obj, int, Items, nil, cons, end, field, get, field_names, elements,
}
use open_tapeout.Util.{identifier, is_hex}
use open_tapeout.Util.Paths.{safe_relative}
use open_tapeout.Records.{Delivery}
use open_tapeout.Engine.State.{State}
use open_tapeout.Team.Access.{text}

-- The regular expression PUBLIC_NAME, `str.casefold`, `name.split(".")[0].upper()` and `Path(name).name`.
pub record Names : Type 0 where
  pub is_public : String → Bool
  pub casefold : String → String
  pub stem : String → String
  pub base : String → String

pub record DisclosedFile : Type 0 where
  pub delivery : String
  pub name : String
  pub sha256 : String

pub record Disclosure : Type 0 where
  pub recipient : String
  pub files : List DisclosedFile
  pub max_bytes : ℕ

abbrev pub reserved : List String
reserved =
    "CON" ∷ "PRN" ∷ "AUX" ∷ "NUL" ∷ "COM0" ∷ "COM1" ∷ "COM2" ∷ "COM3" ∷ "COM4" ∷ "COM5" ∷ "COM6"
    ∷ "COM7" ∷ "COM8" ∷ "COM9" ∷ "LPT0" ∷ "LPT1" ∷ "LPT2" ∷ "LPT3" ∷ "LPT4" ∷ "LPT5" ∷ "LPT6"
    ∷ "LPT7" ∷ "LPT8" ∷ "LPT9" ∷ []

-- One file, behind the folded names and the sources that are taken.
unfoldable pub disclosed_file : Names → List String → List String → Json → Result DisclosedFile
unfolding text
disclosed_file n names sources (obj item) = do
  ensure (same_set (field_names item) ("delivery" ∷ "name" ∷ "sha256" ∷ []))
      "Invalid disclosure file"
  delivery ← get "delivery" item
  path ← text delivery "Unsafe relative path"
  source ← safe_relative path
  named ← get "name" item
  name ← text named "Delivery alias must be a portable GDS/OASIS filename"
  ensure (n.is_public name) "Delivery alias must be a portable GDS/OASIS filename"
  ensure (not (contains (n.stem name) reserved)) "Reserved delivery filename"
  ensure (not (contains (n.casefold name) names) && not (contains source sources))
      "Duplicate delivery name or source"
  pinned ← get "sha256" item
  sha256 ← text pinned "Disclosure requires exact artifact SHA-256"
  ensure (is_hex sha256) "Disclosure requires exact artifact SHA-256"
  ok (record { delivery = source; name = name; sha256 = sha256 })
disclosed_file n names sources _ = err (tapeout "Invalid disclosure file")

unfoldable pub disclosed_files :
    Names → List String → List String → List Json → Result (List DisclosedFile)
unfolding disclosed_file
disclosed_files n names sources [] = ok []
disclosed_files n names sources (item ∷ rest) = do
  f ← disclosed_file n names sources item
  others ← disclosed_files n (n.casefold f.name ∷ names) (f.delivery ∷ sources) rest
  ok (f ∷ others)

unfoldable pub validate_disclosure : Names → Json → Result Disclosure
unfolding disclosed_files text
validate_disclosure n (obj policy) = do
  ensure (same_set (field_names policy) ("schema" ∷ "recipient" ∷ "files" ∷ "max_bytes" ∷ []))
      "Invalid disclosure policy; unknown fields are forbidden"
  schema ← get "schema" policy
  named ← text schema "Invalid disclosure policy; unknown fields are forbidden"
  ensure (str_eq named "opentapeout.disclosure/v1")
      "Invalid disclosure policy; unknown fields are forbidden"
  receiver ← get "recipient" policy
  recipient ← text receiver "Invalid identifier"
  _ ← identifier recipient
  budget ← get "max_bytes" policy
  max_bytes ← elim budget [
    | num (int (pos b)) ↦ ok b
    | _ ↦ err (tapeout "Disclosure byte budget must be positive and at most 1 TiB")
  ]
  ensure (ltb 0 max_bytes && leb max_bytes 1099511627776)
      "Disclosure byte budget must be positive and at most 1 TiB"
  listed ← get "files" policy
  items ← elim listed [
    | arr xs ↦ ok (elements xs)
    | _ ↦ err (tapeout "Explicit, nonempty disclosure file allowlist is required")
  ]
  ensure (ltb 0 (length items) && leb (length items) 1000)
      "Explicit, nonempty disclosure file allowlist is required"
  files ← disclosed_files n [] [] items
  ok (record { recipient = recipient; files = files; max_bytes = max_bytes })
validate_disclosure n _ = err (tapeout "Invalid disclosure policy; unknown fields are forbidden")

-- The bytes of the files together.
unfoldable pub total : List Delivery → ℕ
total [] = 0
total (d ∷ rest) = d.size + total rest

unfoldable pub template_files : Names → List Delivery → Items
template_files n [] = nil
template_files n (d ∷ rest) =
    cons
      (obj (
        field "delivery" (str d.name)
          (field "name" (str (n.base d.name)) (field "sha256" (str d.sha256) end))))
      (template_files n rest)

unfoldable pub disclosure_template : Names → State → String → String → Result Disclosure
unfolding validate_disclosure template_files total known
disclosure_template n s name recipient = do
  candidate ← known (lookup name s.candidates) "Unknown candidate"
  validate_disclosure n (
      obj (
        field "files" (arr (template_files n candidate.deliveries)) (
          field "max_bytes" (num (int (pos (total candidate.deliveries)))) (
            field "recipient" (str recipient)
              (field "schema" (str "opentapeout.disclosure/v1") end)))))

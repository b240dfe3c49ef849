-- ===== src/Graph/Kinds.antt =====
-- `validate_resource` of graph.py: which kinds and metadata a resource may have.
use open_tapeout.Prelude.{
  String, Bool, true, false, ◌&&◌, ◌||◌, not, Option, none, some, List, [], ◌∷◌, ◌==◌, str_eq, leb,
  length, contains, all, any, is_empty, if◌then◌else◌,
}
use open_tapeout.Result.{Result, ok, ensure, ◌>>◌}
use open_tapeout.Json.{Json, str, arr, Fields, end, field, get?, elements}
use open_tapeout.Util.{is_hex, codes}
use open_tapeout.Records.{Platform}

abbrev pub kinds : List String
kinds =
    "rtl" ∷ "netlist" ∷ "layout" ∷ "pdk" ∷ "tool" ∷ "corner" ∷ "rule_deck" ∷ "constraints"
    ∷ "library" ∷ "ip" ∷ "submodule" ∷ "git" ∷ "power_intent" ∷ "config" ∷ "other" ∷ []

-- `isinstance(v, str) and bool(v.strip())`
abbrev pub is_named : Platform → Option Json → Bool
is_named p (some (str s)) = not (str_eq (p.strip s) "")
is_named p _ = false

-- `isinstance(x, str) and "\x00" not in x`
abbrev pub is_argument : Json → Bool
is_argument (str s) = not (any (λ c. c == 0) (codes s))
is_argument _ = false

abbrev pub is_argv : Option Json → Bool
is_argv (some (arr items)) = not (is_empty (elements items)) && all is_argument (elements items)
is_argv _ = false

abbrev pub is_pin : Option Json → Bool
is_pin none = true
is_pin (some (str s)) = is_hex s
is_pin (some _) = false

unfoldable pub validate_tool : Platform → Fields → Result (Unit {0})
validate_tool p metadata = do
  ensure (is_pin (get? "executable_sha256" metadata)) "Invalid executable SHA-256 pin"
  ensure (is_named p (get? "name" metadata)) "Tool name required"
  ensure (is_named p (get? "version" metadata)) "Tool version required"
  ensure (is_argv (get? "argv" metadata))
      "Tool argv must be a nonempty argument array; shell commands are not accepted"

abbrev pub is_commit : Option Json → Bool
is_commit (some (str s)) =
    (length (codes s) == 40 || length (codes s) == 64)
    && all (λ c. leb b'0' c && leb c b'9' || leb b'a' c && leb c b'f') (codes s)
is_commit _ = false

abbrev pub is_empty_object : Fields → Bool
is_empty_object end = true
is_empty_object (field k v rest) = false

-- The types of `metadata` and of the dependencies are the tests that they are an object and texts.
unfoldable pub validate_resource : Platform → String → Fields → Result (Unit {0})
unfolding validate_tool
validate_resource p kind metadata = do
  ensure (contains kind kinds) "Unknown resource kind"
  if str_eq kind "tool" then validate_tool p metadata else ok tt
  ensure
      (not (contains kind ("pdk" ∷ "ip" ∷ "submodule" ∷ []))
        || is_named p (get? "version" metadata))
      "version required"
  ensure (not (str_eq kind "git") || is_commit (get? "commit" metadata))
      "Full Git commit hash required"
  ensure (not (str_eq kind "corner") || not (is_empty_object metadata))
      "Corner definition cannot be empty"

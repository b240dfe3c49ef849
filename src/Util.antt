-- ===== src/Util.antt =====
-- src/opentapeout/util.py: names, paths, digests and numbers that the program accepts.
-- A text is read as the list of its code points.
pub mod Paths
use Prim.Native.Char.{Char, code}
use Prim.Native.String as Text
use open_tapeout.Prelude.{
  ℕ, zero, suc, String, Bool, true, false, ◌&&◌, ◌||◌, not, Option, none, some, List, [], ◌∷◌, ◌++◌,
  ◌==◌, ltb, leb, length, all, any, is_empty, if◌then◌else◌, ◌*◌, ◌^◌, ◌-◌, ◌+◌, str_eq, ℤ, pos,
  negsuc,
}
use open_tapeout.Result.{Result, ok, err, ensure, ◌>>=◌, ◌>>◌}
use open_tapeout.Json.{Number, int, double, infinity, minus_infinity, not_a_number, Json, num}

-- MAX_JSON_BYTES
abbrev pub max_json_bytes : ℕ
max_json_bytes = 16777216

abbrev pub codes : String → List ℕ
codes Text.[] = []
codes (Text.◌∷◌ c s) = code c ∷ codes s

is_digit : ℕ → Bool
is_digit c = leb b'0' c && leb c b'9'

is_letter : ℕ → Bool
is_letter c = leb b'A' c && leb c b'Z' || leb b'a' c && leb c b'z'

-- HEX: `^[a-f0-9]{64}$`, under `fullmatch`
unfoldable pub is_hex : String → Bool
is_hex s =
    length (codes s) == 64
    && all (λ c. leb b'0' c && leb c b'9' || leb b'a' c && leb c b'f') (codes s)

-- IDENTIFIER: `^[A-Za-z0-9][A-Za-z0-9_.:-]{0,127}$`, under `fullmatch`
unfoldable pub is_identifier : List ℕ → Bool
unfolding is_digit is_letter
is_identifier [] = false
is_identifier (c ∷ cs) =
    (is_letter c || is_digit c)
    && all (λ d. is_letter d || is_digit d || d == b'_' || d == b'.' || d == b':' || d == b'-') cs
    && leb (length cs) 127

unfoldable pub identifier : String → Result String
unfolding is_identifier
identifier value = do ensure (is_identifier (codes value)) "Invalid identifier"; ok value

-- An integer that no double holds makes `math.isfinite` raise OverflowError: from
-- 2 ^ 1024 - 2 ^ 970 on, rounding leaves the range of doubles.
unfoldable pub finite_number : Json → Bool
finite_number (num (int (pos n))) = ltb n (2 ^ 1024 - 2 ^ 970)
finite_number (num (int (negsuc n))) = ltb (n + 1) (2 ^ 1024 - 2 ^ 970)
finite_number (num (double m k)) = true
finite_number _ = false

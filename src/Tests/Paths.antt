-- ===== src/Tests/Paths.antt =====
-- A path of the workspace.
use open_tapeout.Prelude.{String, List, [], ◌∷◌, ◌++◌, ◌≡◌, refl, ℕ}
use open_tapeout.Result.{ok}
use open_tapeout.Util.{codes}
use open_tapeout.Util.Paths.{safe_relative, walk, split, join, safe_relative-contained}

abbrev chip : String
chip = "gds/chip.gds"

abbrev root : List (List ℕ)
root = codes "work" ∷ []

safe_relative-chip : safe_relative chip ≡ ok chip
unfolding open_tapeout.Util.Paths.split open_tapeout.Util.Paths.join
    open_tapeout.Util.Paths.is_plain open_tapeout.Util.Paths.is_safe
    open_tapeout.Util.Paths.safe_relative open_tapeout.Util.Paths.walk open_tapeout.Util.is_hex
    open_tapeout.Util.is_identifier open_tapeout.Util.identifier open_tapeout.Util.finite_number
safe_relative-chip = refl

safe_relative-contained_example :
    (chip ≡ chip)
    × (walk root (split (codes chip)) ≡ root ++ split (codes chip))
    × (join (split (codes chip)) ≡ codes chip)
safe_relative-contained_example = safe_relative-contained chip chip root safe_relative-chip

-- ===== src/Bundle/Present.antt =====
-- No object that a verified release refers to is missing from its archive.
use open_tapeout.Prelude.{ℕ, String, some, List, ◌≡◌, Among}
use open_tapeout.Archive.{Member, Archive}
use open_tapeout.Bundle.Verify.{Verified}

-- A member of an archive with these bytes.
pub record IsPresent (infos : List Member) (checksum : String) : Type 0 where
  pub member : Member
  pub among : Among member infos
  pub size : ℕ
  pub bytes : member.content ≡ some (checksum, size)

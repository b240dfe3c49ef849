-- ===== src/Tests/Client.antt =====
-- A command that a client makes, with dates written in unary.
use Prim.Native.String as Text
use open_tapeout.Prelude.{
  ℕ, zero, suc, ◌+◌, ◌*◌, String, Option, some, List, [], ◌∷◌, ◌≡◌, refl, ap, length, arith,
}
use open_tapeout.Result.{ok}
use open_tapeout.Json.{Fields, end}
use open_tapeout.Util.{codes}
use open_tapeout.Records.{Envelope, Platform}
use open_tapeout.Signing.{PrivateKey, sign}
use open_tapeout.Team.Access.{check_window}
use open_tapeout.Team.Gateway.{Context}
use open_tapeout.Team.Command.{Client, command_body, make_command, make_command-check_window}
use open_tapeout.Tests.Project.{platform}

abbrev strokes : ℕ → String
strokes zero = ""
strokes (suc n) = Text.◌∷◌ "x" (strokes n)

strokes-length : (n : ℕ) → length (codes (strokes n)) ≡ n
strokes-length zero = refl
strokes-length (suc n) = ap suc (strokes-length n)

abbrev counting : Platform
counting = record platform { parse_timestamp = λ s. some (length (codes s)) }

abbrev client : Client
client = record { isoformat = strokes; size = λ body. 100 }

abbrev seen : Context
seen = record {
  project_id = "p1";
  principal = "dora";
  permissions = "read" ∷ "release.withdraw" ∷ [];
  governance_sha256 = "governance";
  seq = 2;
  hash = "aaaaaaaaaaaaaaaaaaaaaaaaaaaaaaaaaaaaaaaaaaaaaaaaaaaaaaaaaaaaaaaa";
}

abbrev dora_key : PrivateKey
dora_key = record { id = "dora-key"; signature = λ payload. "dora-public" }

abbrev made : Envelope
made = sign dora_key (command_body client seen "release.withdraw" end "u1" "" (0 + 1 * 1000000))

make_command-withdrawal :
    make_command counting client seen "release.withdraw" end dora_key "u1" 1 "" ≡ ok made
unfolding open_tapeout.Team.Access.text open_tapeout.Team.Access.check_checkpoint
    open_tapeout.Team.Command.make_command open_tapeout.Signing.timestamp open_tapeout.Json.get
    open_tapeout.Json.field_names open_tapeout.Util.is_hex open_tapeout.Prelude.contains
    open_tapeout.Prelude.to_set open_tapeout.Prelude.sorted
make_command-withdrawal = refl

make_command-check_window_example : check_window counting made.payload "xx" ≡ ok tt
make_command-check_window_example =
    make_command-check_window counting client seen "release.withdraw" end dora_key "u1" 1 "" 0 made
      "xx" 2 (λ t. ap some (strokes-length t)) make_command-withdrawal refl refl (omega arith)
      (omega arith)

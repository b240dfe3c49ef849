-- ===== src/Team/Access.antt =====
-- src/opentapeout/team.py: the membership of a project and the checks of a command's fields.
use open_tapeout.Prelude.{
  ℕ, ◌-◌, String, Bool, false, ◌&&◌, not, none, some, List, [], ◌∷◌, Dict, lookup, contains, all,
  same_set, str_eq, leb, ltb, length, if◌then◌else◌, pos,
}
use open_tapeout.Result.{Result, ok, err, tapeout, ensure, require, ◌>>=◌, ◌>>◌}
use open_tapeout.Json.{
  Json, num, str, arr, obj, Items, nil, cons, Fields, end, field, int, get, field_names,
}
use open_tapeout.Util.{codes, identifier, is_hex}
use open_tapeout.Records.{Policy, Trust, Platform}
use open_tapeout.Signing.{timestamp}
use open_tapeout.Team.Tokens.{Identity}

-- ACTIONS and PERMISSIONS
abbrev pub actions : List String
actions = "candidate.create" ∷ "approval.submit" ∷ "approval.revoke" ∷ "release.withdraw" ∷ []

abbrev pub permissions : List String
permissions =
    "candidate.create" ∷ "approval.submit" ∷ "approval.revoke" ∷ "release.withdraw" ∷ "read"
    ∷ "audit" ∷ []

-- `fields`: the object, if it has exactly these keys
unfoldable pub fields : Json → List String → Result Fields
fields (obj f) expected = do
  ensure (same_set (field_names f) expected) "Missing or unexpected fields"
  ok f
fields _ expected = err (tapeout "Missing or unexpected fields")

-- A value that must be a text.
unfoldable pub text : Json → String → Result String
text (str s) message = ok s
text _ message = err (tapeout message)

-- `check_checkpoint`: the sequence number and the hash
unfoldable pub check_checkpoint : Json → Result (ℕ × String)
unfolding fields
check_checkpoint value = do
  f ← fields value ("seq" ∷ "hash" ∷ [])
  seq ← get "seq" f
  hash ← get "hash" f
  n ← elim seq [ num (int (pos n)) ↦ ok n | _ ↦ err (tapeout "Invalid checkpoint") ]
  ensure (leb 1 n) "Invalid checkpoint"
  h ← text hash "Invalid checkpoint"
  ensure (is_hex h) "Invalid checkpoint"
  ok (n, h)

-- MAX_VALIDITY in microseconds, and MAX_COMMAND
abbrev pub max_validity : ℕ
max_validity = 300000000

abbrev pub max_command : ℕ
max_command = 131072

abbrev pub is_window : ℕ → ℕ → ℕ → Bool
is_window issued expires current =
    leb issued current
    && ltb current expires
    && ltb issued expires
    && leb (expires - issued) max_validity

unfoldable pub check_window : Platform → Fields → String → Result (Unit {0})
check_window p body now = do
  created_at ← get "created_at" body
  issued ← timestamp p created_at
  expires_at ← get "expires_at" body
  expires ← timestamp p expires_at
  current ← timestamp p (str now)
  require (is_window issued expires current) "COMMAND_EXPIRED"
      "Command expired, future-dated or exceeds five-minute validity" 409

-- An entry of `members`.
pub record Member : Type 0 where
  pub principal : String
  pub permissions : List String

unfoldable pub permission_list : Items → Result (List String)
permission_list nil = ok []
permission_list (cons (str s) rest) = do
  ensure (contains s permissions) "Invalid permission allowlist"
  others ← permission_list rest
  ensure (not (contains s others)) "Invalid permission allowlist"
  ok (s ∷ others)
permission_list (cons _ rest) = err (tapeout "Invalid permission allowlist")

-- One member, behind the principals of the ones before.
unfoldable pub check_member : List String → String → Json → Result Member
unfolding fields text permission_list
check_member principals subject entry = do
  ensure (ltb 0 (length (codes subject)) && leb (length (codes subject)) 512) "Invalid subject"
  f ← fields entry ("principal" ∷ "permissions" ∷ [])
  named ← get "principal" f
  principal ← text named "Invalid identifier"
  _ ← identifier principal
  ensure (not (contains principal principals)) "Different subjects must not share a principal"
  allowed ← get "permissions" f
  granted ← elim allowed [
    | arr items ↦ permission_list items
    | _ ↦ err (tapeout "Invalid permission allowlist")
  ]
  ok (record { principal = principal; permissions = granted })

unfoldable pub check_members : List String → Fields → Result (Dict Member)
unfolding check_member
check_members principals end = ok []
check_members principals (field subject entry rest) = do
  m ← check_member principals subject entry
  others ← check_members (m.principal ∷ principals) rest
  ok ((subject, m) ∷ others)

-- The access file of a project.
unfoldable pub check_access : String → Json → Result (Dict Member)
unfolding fields check_members
check_access project_id access = do
  f ← fields access ("schema" ∷ "project_id" ∷ "members" ∷ [])
  schema ← get "schema" f
  project ← get "project_id" f
  named ← text schema "Access file belongs to a different project"
  owner ← text project "Access file belongs to a different project"
  ensure (str_eq named "opentapeout.team-access/v1" && str_eq owner project_id)
      "Access file belongs to a different project"
  members ← get "members" f
  elim members [ obj m ↦ check_members [] m | _ ↦ err (tapeout "Invalid project membership") ]

-- What `read_json` and `Trust.from_file` read at a moment, the policy behind `validate_policy`, and
-- the digest of it all. `is_link` says of each file in turn that it is a symbolic link.
pub record Files : Type 0 where
  pub is_link : List Bool
  pub policy : Result Policy
  pub trust : Result Trust
  pub access : Result Json
  pub sha256 : String

pub record Governance : Type 0 where
  pub policy : Policy
  pub trust : Trust
  pub members : Dict Member
  pub sha256 : String

unfoldable pub governance : String → Files → Result Governance
unfolding check_access
governance project_id files = do
  ensure (all not files.is_link) "Governance files must not be symlinks"
  policy ← files.policy
  trust ← files.trust
  access ← files.access
  members ← check_access project_id access
  ok (record { policy = policy; trust = trust; members = members; sha256 = files.sha256 })

abbrev pub required_scope : String → String
required_scope permission =
    if contains permission ("read" ∷ "audit" ∷ []) then "opentapeout:read" else "opentapeout:write"

-- `member`: the principal of an identity that has a permission
unfoldable pub member : Identity → Dict Member → String → Result String
member identity members permission = elim (lookup identity.subject members) [
  | none ↦ require false "NOT_FOUND" "Project not found" 404 >> ok ""
  | some entry ↦ do
    require (contains "read" entry.permissions) "NOT_FOUND" "Project not found" 404
    require (contains permission entry.permissions) "PERMISSION_DENIED"
        "Project permission is required" 403
    require (contains (required_scope permission) identity.scopes) "SCOPE_REQUIRED"
        "Access-token scope is required" 403
    ok entry.principal
]

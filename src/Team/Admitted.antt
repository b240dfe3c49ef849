-- ===== src/Team/Admitted.antt =====
-- What `admit` and `recheck`, the two halves of the authorization in `execute` of
-- src/opentapeout/team.py, have tested when they succeed.
use open_tapeout.Prelude.{
  ℕ, ◌≤◌, ◌<◌, ◌+◌, String, true, some, Option-cases, ◌≡◌, sym, ap, ◌∙◌, subst, arith, inl, inr,
  lookup, contains, str_eq, eq_iff,
}
use open_tapeout.Result.{ok, >>=-eq-ok, ensure-eq-ok, require-eq-ok, true_of_require, ok-injective}
use open_tapeout.Json.{Json, str, obj, Fields, get, is_text}
use open_tapeout.Records.{Envelope, Platform}
use open_tapeout.Signing.{verify, timestamp}
use open_tapeout.Signing.Authority.{IsAuthorized, verify_iff}
use open_tapeout.Team.Tokens.{Identity}
use open_tapeout.Team.Access.{
  actions, Member, Governance, fields, text, member, governance, check_window, is_window,
  required_scope,
}
use open_tapeout.Team.Gateway.{
  Moment, Wire, Request, request_uuid, command_type, authenticate, open_command, admit, recheck,
}

-- The member behind an identity, with the permission and the scope.
pub record IsGranted (identity : Identity) (g : Governance) (permission principal : String)
    : Type 0 where
  pub entry : Member
  pub listed : lookup identity.subject g.members ≡ some entry
  pub reads : contains "read" entry.permissions ≡ true
  pub allowed : contains permission entry.permissions ≡ true
  pub scoped : contains (required_scope permission) identity.scopes ≡ true
  pub named : entry.principal ≡ principal

member-IsGranted :
    (identity : Identity) (g : Governance) (permission principal : String)
    → member identity g.members permission ≡ ok principal
    → IsGranted identity g permission principal
unfolding member
member-IsGranted identity g permission principal h =
    elim (Option-cases (lookup identity.subject g.members)) [
      | inl unknown ↦ let bad = rw (unknown, member) at h in cc
      | inr (entry, listed) ↦
          let (reads, h1) =
            require-eq-ok (contains "read" entry.permissions) _ _ _ _ (rw (listed, member) at h) in
          let (allowed, h2) = require-eq-ok (contains permission entry.permissions) _ _ _ _ h1 in
          let (scoped, h3) =
            require-eq-ok (contains (required_scope permission) identity.scopes) _ _ _ _ h2 in
          record {
            entry = entry;
            listed = listed;
            reads = reads;
            allowed = allowed;
            scoped = scoped;
            named = ok-injective h3;
          }
    ]

module _ (p : Platform) where
  -- The command is in force at `now`, for five minutes at most.
  pub record IsInForce (body : Fields) (now : String) : Type 0 where
    pub created_at : Json
    pub expires_at : Json
    pub issued : ℕ
    pub expires : ℕ
    pub current : ℕ
    pub created : get "created_at" body ≡ ok created_at
    pub ending : get "expires_at" body ≡ ok expires_at
    pub issued_at : timestamp p created_at ≡ ok issued
    pub ends_at : timestamp p expires_at ≡ ok expires
    pub current_at : timestamp p (str now) ≡ ok current
    pub begun : issued ≤ current
    pub open_still : current < expires
    pub short : expires ≤ issued + 300000000

  window-bounds :
      (issued expires current : ℕ)
      → is_window issued expires current ≡ true
      → (issued ≤ current) × (current < expires) × (expires ≤ issued + 300000000)
  window-bounds issued expires current h = ground arith

  check_window-IsInForce :
      (body : Fields) (now : String) → check_window p body now ≡ ok tt → IsInForce body now
  unfolding check_window
  check_window-IsInForce body now h =
      let (created_at, created, h1) = >>=-eq-ok (get "created_at" body) _ h in
      let (issued, issued_at, h2) = >>=-eq-ok (timestamp p created_at) _ h1 in
      let (expires_at, ending, h3) = >>=-eq-ok (get "expires_at" body) _ h2 in
      let (expires, ends_at, h4) = >>=-eq-ok (timestamp p expires_at) _ h3 in
      let (current, current_at, h5) = >>=-eq-ok (timestamp p (str now)) _ h4 in
      let (begun, open_still, short) =
        window-bounds issued expires current (true_of_require _ _ _ _ h5) in
      record {
        created_at = created_at;
        expires_at = expires_at;
        issued = issued;
        expires = expires;
        current = current;
        created = created;
        ending = ending;
        issued_at = issued_at;
        ends_at = ends_at;
        current_at = current_at;
        begun = begun;
        open_still = open_still;
        short = short;
      }

module _ (p : Platform) (wire : Wire) (project : String) where
  -- A sender who may run the command at a moment, under governance with this digest.
  pub record IsAllowed (m : Moment) (action sha256 : String) : Type 0 where
    pub identity : Identity
    pub governed : Governance
    pub holder : String
    pub token : m.token ≡ ok identity
    pub files : governance project m.files ≡ ok governed
    pub granted : IsGranted identity governed action holder
    pub same : governed.sha256 ≡ sha256

  text-str : (v : Json) (message k : String) → text v message ≡ ok k → v ≡ str k
  unfolding text
  text-str (str s) message k h = ap str (ok-injective h)
  text-str v message k h = cc

  pub record IsOpened (governed : Governance) (envelope : Envelope) (t : Fields × String × String)
      : Type 0 where
    pub body : t.0 ≡ envelope.payload
    pub stated : get "action" envelope.payload ≡ ok (str t.1)
    pub known_action : contains t.1 actions ≡ true
    pub signed : IsAuthorized p governed.trust envelope "team" command_type t.2

  open_command-IsOpened :
      (governed : Governance) (envelope : Envelope) (t : Fields × String × String)
      → open_command p wire project governed envelope ≡ ok t
      → IsOpened governed envelope t
  unfolding open_command
  open_command-IsOpened governed envelope t h =
      let (u, verified, h1) =
        >>=-eq-ok (verify p governed.trust envelope "team" command_type) _ h in
      let (_, _, h2) = >>=-eq-ok (fields (obj u.0) _) _ h1 in
      let (named, found, h3) = >>=-eq-ok (get "action" u.0) _ h2 in
      let (action, read, h4) = >>=-eq-ok (text named "Unsupported team action") _ h3 in
      let (known, h5) = ensure-eq-ok (contains action actions) _ _ h4 in
      let (whole, signed) =
        (verify_iff p governed.trust envelope "team" command_type u.0 u.1).0 verified in
      subst (IsOpened governed envelope) (ok-injective h5) (record {
        body = whole;
        stated =
            ap (get "action") (sym whole)
            ∙ found
            ∙ ap ok (text-str named "Unsupported team action" action read);
        known_action = known;
        signed = signed;
      })

  pub record IsAdmitted (m : Moment) (envelope : Envelope) (r : Request) : Type 0 where
    pub token : m.token ≡ ok r.identity
    pub files : governance project m.files ≡ ok r.governed
    pub granted : IsGranted r.identity r.governed r.action r.principal
    pub opened : IsOpened r.governed envelope (r.body, r.action, r.principal)
    pub in_force : IsInForce p r.body m.now

  authenticate-eq-ok :
      (m : Moment) (t : Identity × Governance)
      → authenticate p wire project m ≡ ok t
      → (m.token ≡ ok t.0) × (governance project m.files ≡ ok t.1)
  unfolding authenticate
  authenticate-eq-ok m t h =
      let (identity, token, h1) = >>=-eq-ok m.token _ h in
      let (governed, files, h2) = >>=-eq-ok (governance project m.files) _ h1 in
      (
        token ∙ ap (λ (x : Identity × Governance). ok x.0) (ok-injective h2),
        files ∙ ap (λ (x : Identity × Governance). ok x.1) (ok-injective h2),
      )

  pub admit-IsAdmitted :
      (m : Moment) (envelope : Envelope) (r : Request)
      → admit p wire project m envelope ≡ ok r
      → IsAdmitted m envelope r
  unfolding admit
  admit-IsAdmitted m envelope r h =
      let (a, who, h1) = >>=-eq-ok (authenticate p wire project m) _ h in
      let (t, opened, h2) = >>=-eq-ok (open_command p wire project a.1 envelope) _ h1 in
      let (principal, granted, h3) = >>=-eq-ok (member a.0 a.1.members t.1) _ h2 in
      let (match, h4) = require-eq-ok (str_eq t.2 principal) _ _ _ _ h3 in
      let (owner, _, h5) = >>=-eq-ok (get "project_id" t.0) _ h4 in
      let (_, h6) = require-eq-ok (is_text project owner) _ _ _ _ h5 in
      let (requested, _, h7) = >>=-eq-ok (get "request_id" t.0) _ h6 in
      let (request_id, _, h8) = >>=-eq-ok (request_uuid wire requested) _ h7 in
      let (_, window, h9) = >>=-eq-ok (check_window p t.0 m.now) _ h8 in
      let signer : t.2 ≡ principal = (eq_iff t.2 principal).0 match in
      let (token, files) = authenticate-eq-ok m a who in
      subst (IsAdmitted m envelope) (ok-injective h9) (record {
        token = token;
        files = files;
        granted = member-IsGranted a.0 a.1 t.1 principal granted;
        opened =
            subst (λ x. IsOpened a.1 envelope (t.0, t.1, x)) signer
              (open_command-IsOpened a.1 envelope t opened);
        in_force = check_window-IsInForce p t.0 m.now window;
      })

  pub recheck-IsAllowed :
      (m : Moment) (r : Request)
      → recheck p wire project m r ≡ ok tt
      → IsAllowed m r.action r.governed.sha256
  unfolding recheck
  recheck-IsAllowed m r h =
      let (a, who, h1) = >>=-eq-ok (authenticate p wire project m) _ h in
      let (same, h2) = require-eq-ok (str_eq a.1.sha256 r.governed.sha256) _ _ _ _ h1 in
      let (holder, granted, _) = >>=-eq-ok (member a.0 a.1.members r.action) _ h2 in
      let (token, files) = authenticate-eq-ok m a who in
      record {
        identity = a.0;
        governed = a.1;
        holder = holder;
        token = token;
        files = files;
        granted = member-IsGranted a.0 a.1 r.action holder granted;
        same = (eq_iff a.1.sha256 r.governed.sha256).0 same;
      }

-- ===== src/Team/Command.antt =====
-- `make_command` of src/opentapeout/team.py: the command that a client signs offline.
use open_tapeout.Prelude.{
  ℕ, ◌+◌, ◌*◌, ◌≤◌, ◌<◌, String, true, ◌&&◌, some, ◌≡◌, sym, ap, ◌∙◌, arith, contains, leb, pos,
}
use open_tapeout.Result.{
  Result, ok, ensure, require, >>=-ok, >>=-eq-ok, ensure-eq-ok, ok-injective, ◌>>=◌, ◌>>◌,
}
use open_tapeout.Json.{Json, num, str, obj, int, Fields, end, field, get, get?}
use open_tapeout.Records.{Envelope, Platform}
use open_tapeout.Signing.{PrivateKey, sign, timestamp}
use open_tapeout.Signing.Authority.{timestamp-parsed}
use open_tapeout.Team.Access.{actions, check_checkpoint, check_window, is_window, max_command}
use open_tapeout.Team.Gateway.{Context, command_type}

-- `datetime.isoformat` and `len(canonical(body))`
pub record Client : Type 0 where
  pub isoformat : ℕ → String
  pub size : Fields → ℕ

abbrev pub checkpoint_object : Context → Json
checkpoint_object x = obj (field "hash" (str x.hash) (field "seq" (num (int (pos x.seq))) end))

unfoldable pub command_body : Client → Context → String → Fields → String → String → ℕ → Fields
command_body client x action parameters request_id issued expires = field "action" (str action) (
    field "created_at" (str issued) (
      field "expected_checkpoint" (checkpoint_object x) (
        field "expires_at" (str (client.isoformat expires)) (
          field "governance_sha256" (str x.governance_sha256) (
            field "parameters" (obj parameters) (
              field "project_id" (str x.project_id)
                (field "request_id" (str request_id) (field "type" (str command_type) end))))))))

module _ (p : Platform) (client : Client) where
  -- The type of `parameters` is the test that it is an object, that of `valid_seconds` that it is an
  -- integer that is not negative.
  unfoldable pub make_command :
      Context → String → Fields → PrivateKey → String → ℕ → String → Result Envelope
  unfolding command_body sign
  make_command x action parameters key request_id valid_seconds issued = do
    ensure (contains action actions) "Unsupported command"
    ensure (leb 1 valid_seconds && leb valid_seconds 300) "Invalid command validity"
    _ ← check_checkpoint (checkpoint_object x)
    start ← timestamp p (str issued)
    let body =
        command_body client x action parameters request_id issued (start + valid_seconds * 1000000)
    ensure (leb (client.size body) max_command) "Command exceeds size budget"
    ok (sign key body)

  record IsMade (x : Context) (action : String) (parameters : Fields) (key : PrivateKey)
      (request_id : String) (valid_seconds : ℕ) (issued : String) (start : ℕ) (envelope : Envelope)
      : Type 0 where
    positive : leb 1 valid_seconds ≡ true
    short : leb valid_seconds 300 ≡ true
    made :
        sign key (
          command_body client x action parameters request_id issued
            (start + valid_seconds * 1000000))
        ≡ envelope

  make_command-IsMade :
      (x : Context) (action : String) (parameters : Fields) (key : PrivateKey) (request_id : String)
      (valid_seconds : ℕ) (issued : String) (start : ℕ) (envelope : Envelope)
      → make_command x action parameters key request_id valid_seconds issued ≡ ok envelope
      → p.parse_timestamp issued ≡ some start
      → IsMade x action parameters key request_id valid_seconds issued start envelope
  unfolding make_command
  make_command-IsMade x action parameters key request_id valid_seconds issued start envelope h
        begun =
      let (_, h1) = ensure-eq-ok (contains action actions) _ _ h in
      let (valid, h2) = ensure-eq-ok (leb 1 valid_seconds && leb valid_seconds 300) _ _ h1 in
      let (_, _, h3) = >>=-eq-ok (check_checkpoint (checkpoint_object x)) _ h2 in
      let (t, read, h4) = >>=-eq-ok (timestamp p (str issued)) _ h3 in
      let same : t ≡ start = ok-injective (sym read ∙ timestamp-parsed p issued start begun) in
      let body =
        command_body client x action parameters request_id issued (t + valid_seconds * 1000000) in
      let (_, h5) = ensure-eq-ok (leb (client.size body) max_command) _ _ h4 in
      record {
        positive = ground arith;
        short = ground arith;
        made =
            ap
              (λ n. sign key (
                command_body client x action parameters request_id issued
                  (n + valid_seconds * 1000000)))
              (sym same)
            ∙ ok-injective h5;
      }

  window-open :
      (start seconds moment : ℕ)
      → leb 1 seconds ≡ true
      → leb seconds 300 ≡ true
      → start ≤ moment
      → moment < start + seconds * 1000000
      → is_window start (start + seconds * 1000000) moment ≡ true
  window-open start seconds moment one few le lt = ground arith

  -- A command that `make_command` makes stays usable: at every moment from its making on and before
  -- `valid_seconds` have passed, the gateway's `check_window` accepts it, if printed dates are read back.
  pub make_command-check_window :
      (x : Context) (action : String) (parameters : Fields) (key : PrivateKey) (request_id : String)
      (valid_seconds : ℕ) (issued : String) (start : ℕ) (envelope : Envelope) (now : String)
      (moment : ℕ)
      → ((t : ℕ) → p.parse_timestamp (client.isoformat t) ≡ some t)
      → make_command x action parameters key request_id valid_seconds issued ≡ ok envelope
      → p.parse_timestamp issued ≡ some start
      → p.parse_timestamp now ≡ some moment
      → start ≤ moment
      → moment < start + valid_seconds * 1000000
      → check_window p envelope.payload now ≡ ok tt
  unfolding check_window command_body sign get get?
  make_command-check_window x action parameters key request_id valid_seconds issued start envelope
        now moment back h begun current le lt =
      let m =
        make_command-IsMade x action parameters key request_id valid_seconds issued start envelope h
          begun in
      let expires = start + valid_seconds * 1000000 in
      ap (λ (e : Envelope). check_window p e.payload now) (sym m.made)
      ∙ >>=-ok _ (timestamp-parsed p issued start begun)
      ∙ >>=-ok _ (timestamp-parsed p (client.isoformat expires) expires (back expires))
      ∙ >>=-ok _ (timestamp-parsed p now moment current)
      ∙ ap
          (λ b.
            require b "COMMAND_EXPIRED"
              "Command expired, future-dated or exceeds five-minute validity" 409)
          (window-open start valid_seconds moment m.positive m.short le lt)

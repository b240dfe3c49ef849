-- ===== src/Lib.antt =====
-- OpenTapeout: the release ledger of a chip project, and the gate that decides whether a candidate
-- may be signed off.
--
-- The program keeps an append-only ledger of hashed events (src/opentapeout/store.py). The state of
-- a project is the result of replaying them (engine.py: resources, runs of checks, waivers,
-- candidates, approvals, withdrawals). A candidate freezes a view of that state; `Engine._gate`
-- evaluates it against a release policy (policy.py), with the signed statements that the trust
-- store accepts (signing.py) and the dependency graph of the resources (graph.py).
--
-- Which file models which part, function names as in the source:
--   Prelude, Result   shared helpers; exceptions as a result type (util.py, team_auth.py)
--   Json, Records     JSON values and the dictionaries of the program
--   Util, Util/Paths  identifier, finite_number, safe_relative of util.py
--   Signing           sign and Trust.verify of signing.py; key_id and Trust.__init__ in Signing/Loaded
--   Store             Transaction.append, read_events, transaction, verify_checkpoint of store.py
--   Graph             Graph._build and Graph.closure of graph.py; drift and assert_fresh in Graph/Drift,
--                     impact in Graph/Impact, validate_resource in Graph/Kinds; the lemmas on closure are
--                     in Graph/Reach and Graph/Fuel, those on the order in Graph/Ordered,
--                     over Graph/Counts, Graph/Linked (children, indegree), Graph/Received and
--                     Graph/Once (the loop)
--   Policy            evaluate of policy.py, with its parts in Policy/Checks (the loop over the
--                     required checks), Policy/Waivers (valid_waivers), Policy/Approvals (the loop
--                     over the approvals), Policy/Roles (_assign_roles) and Policy/Schema
--                     (validate_policy)
--   Engine/State      state_from of engine.py: one constructor of `Payload` for each event type
--   Engine/Scope      scope_view and object_refs of engine.py
--   Engine/Release    _gate, approve and _candidate of engine.py, active_approvals of lifecycle.py
--   Lifecycle         revoke_approval and withdraw_release of lifecycle.py, and in Lifecycle/Status
--                     verify_status and check_candidate_status, in Lifecycle/Export export_status
--   Engine/Register   init, register, begin and receipt of engine.py
--   Engine/Runs       finish of engine.py
--   Engine/Waiving    waive and revoke_waiver of engine.py
--   Parsers           validate_result of parsers.py, and parse in Parsers/Formats
--   Team              team.py and team_auth.py: Tokens (keys and verify of AccessTokens), Access
--                     (governance, member, check_window), Decisions (_apply), Gateway (context, execute),
--                     Command (make_command)
--   Pinning           pin_policy of pinning.py
--   Planning          affected_paths of planning.py
--   Archive           the members of a ZIP archive, their tests, and write_archive of bundle.py
--   Bundle            bundle.py: Verify (verify_bundle), Seal (seal); a verified release is a record
--                     in Contents and Verified, a sealed one in Recorded and Released
--   Delivery          delivery.py: Disclosed (validate_disclosure, disclosure_template), Capsule
--                     (verify_delivery), Seal (seal_delivery), Receipts (sign_receipt, record_receipt)
--   Tests             a small project on which the functions are run
--
-- State is passed explicitly: a transaction is a record of the table's rows and of the events in
-- memory, and an operation returns the new one or a failure. A dictionary is an association list in
-- the order of insertion, with at most one entry for a key; a missing key is the KeyError that Python
-- raises. Free-form metadata and signed payloads stay JSON.
--
-- Fuel: `augment` may call itself once more for each principal that is not visited, so the fuel is
-- one more than the number of principals; Kahn's loop has a round for each resource; `closure` pops
-- each root and each dependency of a selected resource once; `impact` and `affected_paths` have a
-- round for each resource. Out of fuel is a failure of its own,
-- so a result that is `ok` was reached by the loop itself.
--
-- Parameters: SHA-256 and what json does (`Codec`, and the digests of `Platform`), ISO dates, string
-- trimming, Ed25519, and what the file system shows (`Workspace`). Where a property needs that
-- digests do not collide or that json reads what it wrote, it says so as a hypothesis. PyJWT, base64
-- and the public keys are in `Jwt`; a `Moment` is what the gateway sees of clock, token and files.
--
-- The ZIP library is `Packing`: what it makes of the members that `write_archive` lists, read back, and
-- with the digest and size of the file; an archive that is read is any list of members.
--
-- One `now` stands for all readings of the clock within an operation, also where `seal` and
-- `seal_delivery` read it at each step. The manifest of an archive comes as a record: what fails on one
-- of another shape is an error of `Archive.manifest`. `verify_bundle` and the gate take a policy that
-- has passed `validate_policy`.
--
-- Not modelled: file I/O (temporary files and their links to the output), the XML and text formats of
-- reports, processes, key files, the start of the team gateway, the command line and web front ends.
-- Messages that quote a value are their constant part.
mod Prelude
pub mod Result
pub mod Store
pub mod Json
pub mod Util
pub mod Records
pub mod Signing
pub mod Graph
pub mod Policy
pub mod Engine
pub mod Lifecycle
pub mod Parsers
pub mod Team
pub mod Pinning
pub mod Planning
pub mod Archive
pub mod Bundle
pub mod Delivery
mod Tests

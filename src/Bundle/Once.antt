-- ===== src/Bundle/Once.antt =====
-- `seal` of bundle.py seals a candidate once.
use open_tapeout.Prelude.{
  ℕ, String, true, ◌≡◌, refl, ◌∙◌, arith, insert, lookup-insert, eq_refl, has,
}
use open_tapeout.Result.{ok, err, tapeout, >>=-ok, >>=-err}
use open_tapeout.Records.{Policy, Trust, Platform}
use open_tapeout.Signing.{PrivateKey}
use open_tapeout.Graph.Drift.{Workspace}
use open_tapeout.Store.{Codec, Transaction}
use open_tapeout.Engine.State.{State, Release, Payload, release_sealed, state_from, apply_payload}
use open_tapeout.Engine.Appended.{appended_state}
use open_tapeout.Archive.{Packing}
use open_tapeout.Bundle.Manifest.{ReleaseManifest}
use open_tapeout.Bundle.Seal.{sealable, seal}
use open_tapeout.Bundle.Released.{seal-IsReleased}

module _ (p : Platform) (c : Codec String Payload) (packing : Packing ReleaseManifest) where
  sealed_state :
      (seq : ℕ) (hash : String) (sealed : Release) (s : State)
      → apply_payload p seq hash (release_sealed sealed) s
        ≡ ok (record s { releases = insert sealed.id sealed s.releases })
  unfolding apply_payload
  sealed_state seq hash sealed s = refl

  has-inserted :
      (sealed : Release) (s : State) → has sealed.id (insert sealed.id sealed s.releases) ≡ true
  has-inserted sealed s =
      ground (arith, lookup-insert sealed.id sealed.id sealed s.releases, eq_refl sealed.id)

  sealable-taken :
      (w : Workspace) (tx : Transaction c) (s : State) (name : String) (policy : Policy)
      (trust : Trust) (now : String)
      → has name s.releases ≡ true
      → sealable p c packing w tx s name policy trust now
        ≡ err (tapeout "Release already sealed; use a new candidate name")
  unfolding sealable
  sealable-taken w tx s name policy trust now taken = rw taken refl

  -- A name is sealed once: on the ledger that a `seal` leaves, every further `seal` of the name fails,
  -- whatever its key, policy and trust store, and for whatever workspace and time.
  pub seal-again :
      (w later w' later' : Workspace) (key key' : PrivateKey) (tx tx' : Transaction c)
      (policy policy' : Policy) (trust trust' : Trust) (name now now' : String) (sealed : Release)
      → seal p c packing w later key tx name policy trust now ≡ ok (sealed, tx')
      → seal p c packing w' later' key' tx' sealed.id policy' trust' now'
        ≡ err (tapeout "Release already sealed; use a new candidate name")
  unfolding seal
  seal-again w later w' later' key key' tx tx' policy policy' trust trust' name now now' sealed h =
      let x = seal-IsReleased p c packing w later key tx tx' name policy trust now sealed h in
      let after : State = record x.state { releases = insert sealed.id sealed x.state.releases } in
      let read_after : state_from p tx'.events ≡ ok after =
        appended_state p c tx now "release.sealed" (release_sealed sealed) x.signer tx' x.event
          x.state x.read x.added
        ∙ sealed_state x.event.body.seq x.event.hash sealed x.state in
      >>=-ok _ x.named
      ∙ >>=-ok _ read_after
      ∙ >>=-err _
          (sealable-taken w' tx' after sealed.id policy' trust' now' (has-inserted sealed x.state))

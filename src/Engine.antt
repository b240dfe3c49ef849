-- ===== src/Engine.antt =====
-- src/opentapeout/engine.py: the state of a project as a fold over its ledger, the view of a
-- candidate, and the gate under the ledger's lock.
pub mod State
pub mod Scope
pub mod Release
pub mod History
pub mod Latest
pub mod Ready
pub mod Withdrawal
pub mod Register
pub mod Runs
pub mod Waiving
pub mod Appended

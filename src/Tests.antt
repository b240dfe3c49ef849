-- ===== src/Tests.antt =====
-- A small project on which the program is run: one layout, one check with a waived violation, and
-- two reviewers.
mod Paths
mod Project
mod Keys
mod Gate
mod Dependencies
mod Engine
mod Ledger
mod Lifecycle
mod Status
mod Team
mod Reports
mod Policies
mod Release
mod Capsule
mod Withdrawn
mod Client

-- ===== src/Bundle.antt =====
-- src/opentapeout/bundle.py: signed release archives and their offline verification.
pub mod Manifest
pub mod Verify
pub mod Ordinary
pub mod Seal
pub mod Contents
pub mod Verified
pub mod Present
pub mod Recorded
pub mod Released
pub mod Once
pub mod Withdrawn

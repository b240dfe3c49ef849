-- ===== src/Delivery.antt =====
-- src/opentapeout/delivery.py: allowlisted capsules for a recipient, and the receipts for them.
pub mod Disclosed
pub mod Capsule
pub mod Seal
pub mod Sealed
pub mod Recorded
pub mod Allowed
pub mod Receipts
pub mod Acknowledged

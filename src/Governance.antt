-- ===== src/Governance.antt =====
-- governance/ledger.py: reservations of tokens and money against the limits of owner and tenant.
pub mod Models
pub mod Reservations
pub mod Settlement
pub mod Bounds
pub mod Repeating
pub mod Final

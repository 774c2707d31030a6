-- ===== src/Counterfactual.antt =====
-- counterfactual.py: what was intended, what was confirmed, and the ledger of both.
pub mod Ghost
pub mod Receipt
pub mod Preflight
pub mod Snapshot
pub mod Records
pub mod Gap
pub mod Ledger

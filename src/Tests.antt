-- ===== src/Tests.antt =====
-- The theorems at concrete inputs.
mod Sample
mod Lifecycles
mod Risks
mod Brokers
mod Ledgers
mod Gaps
mod Sessions
mod Windows
mod Words
mod Seeds
mod Forecasts
mod Blocks
mod Curricula

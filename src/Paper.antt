-- ===== src/Paper.antt =====
-- paper_trading.py: guarded paper orders, their lifecycles, the brokers and the session.
pub mod Lifecycle
pub mod Store
pub mod Order
pub mod Account
pub mod Risk
pub mod Broker
pub mod Window
pub mod Session

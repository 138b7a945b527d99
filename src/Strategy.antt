-- ===== src/Strategy.antt =====
-- contracts/xlm-strategy/src/lib.rs.
pub mod State
pub mod Helpers
pub mod Funds
pub mod Protocol
pub mod Settle
pub mod Entry
pub mod Invariant
pub mod Settled
pub mod Balance
pub mod Migration
pub mod Access
mod Tests

-- ===== src/Vault.antt =====
-- contracts/august-vault
pub mod Errors
pub mod Events
pub mod Storage
pub mod State
pub mod Emit
pub mod Frame
pub mod Pricing
pub mod Limits
pub mod Admin
pub mod Subaccounts
pub mod Wallets
pub mod Batch
pub mod Shares
pub mod Getters
pub mod Books
pub mod Ledger
pub mod Interface
pub mod Entry
pub mod History
pub mod Access
pub mod Handover
pub mod Removal
pub mod Payout
pub mod Previews
pub mod Tests

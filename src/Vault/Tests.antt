-- ===== src/Vault/Tests.antt =====
-- Runs of the vault (contracts/august-vault/src/contract.rs) on concrete inputs, with a host, a
-- share ledger, a token and a strategy that are small concrete functions.
pub mod Bank
mod Books
mod Ledger
mod Limits
mod Roles
mod Prices
mod Shares
pub mod Transfers

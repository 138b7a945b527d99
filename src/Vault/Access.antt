-- ===== src/Vault/Access.antt =====
-- Who may call what (contracts/august-vault/src/contract.rs): the role that a request needs.
pub mod Operations
pub mod Requests
use stellar_upshift_vault_co.Base.{ℕ, ◌≡◌, true, false, some, arith}
use stellar_upshift_vault_co.Base.Int.{ℤ}
use stellar_upshift_vault_co.Soroban.{Address, Ensures}
use stellar_upshift_vault_co.Vault.Storage.{Storage, is_paused, SubaccountType}
use stellar_upshift_vault_co.Vault.State.{
  Env, World, bump_instance, require_admin, require_operator, require_auth, require_not_paused,
}
use stellar_upshift_vault_co.Vault.Admin
use stellar_upshift_vault_co.Vault.Subaccounts
use stellar_upshift_vault_co.Vault.Wallets
use stellar_upshift_vault_co.Vault.Wallets.{require_co_operator}
use stellar_upshift_vault_co.Vault.Batch
use stellar_upshift_vault_co.Vault.Batch.{Updates}
use stellar_upshift_vault_co.Vault.Shares
use stellar_upshift_vault_co.Vault.Entry.{Request, execute}

-- An address that authorized the call and is the stored admin.
abbrev pub IsAdmin : {X : Type 0} → Env X → Storage → Address → Type 0
IsAdmin e s a = (e.authorized a ≡ true) × (s.admin ≡ some a)

-- An address that authorized the call and is the stored operator.
abbrev pub IsOperator : {X : Type 0} → Env X → Storage → Address → Type 0
IsOperator e s a = (e.authorized a ≡ true) × (s.operator ≡ some a)

-- What the storage and the authorizations must be for a request to return.
abbrev pub IsPermitted : {X : Type 0} → Env X → Storage → Request → Type 0
IsPermitted e s Request.extend_ttl = Unit
IsPermitted e s Request.accept_admin =
    (new : Address) × (e.authorized new ≡ true) × (s.pending_admin ≡ some new)
IsPermitted e s (Request.propose_admin a _ _) = IsAdmin e s a
IsPermitted e s (Request.cancel_admin_proposal a) = IsAdmin e s a
IsPermitted e s (Request.pause a) = IsAdmin e s a
IsPermitted e s (Request.unpause a) = IsAdmin e s a
IsPermitted e s (Request.set_operator a _) = IsAdmin e s a
IsPermitted e s (Request.set_aum_limits a _ _) = IsAdmin e s a
IsPermitted e s (Request.set_aum_window_limits a _ _ _) = IsAdmin e s a
IsPermitted e s (Request.add_subaccount a _ _) = IsAdmin e s a × (is_paused s ≡ false)
IsPermitted e s (Request.remove_subaccount a _) = IsAdmin e s a
IsPermitted e s (Request.deposit_to_subaccount o _ _) = IsOperator e s o × (is_paused s ≡ false)
IsPermitted e s (Request.withdraw_from_subaccount o _ _) = IsOperator e s o × (is_paused s ≡ false)
IsPermitted e s (Request.seed_wallet_net_deployed a _ _) = IsAdmin e s a
IsPermitted e s (Request.update_wallet_deployed o _ _) = IsOperator e s o
IsPermitted e s (Request.update_deployed_assets o _) = IsOperator e s o
IsPermitted e s (Request.update_wallet_deployed_batch o _) = IsOperator e s o
IsPermitted e s (Request.remove_wallet_and_reconcile a o _ _) = IsAdmin e s a × IsOperator e s o
IsPermitted e s (Request.transfer _ _ _) = Unit
IsPermitted e s (Request.transfer_from _ _ _ _) = Unit
IsPermitted e s (Request.approve _ _ _ _) = Unit
IsPermitted e s (Request.deposit _ _ _ o) = (e.authorized o ≡ true) × (is_paused s ≡ false)
IsPermitted e s (Request.mint _ _ _ o) = (e.authorized o ≡ true) × (is_paused s ≡ false)
IsPermitted e s (Request.withdraw _ _ _ o) = (e.authorized o ≡ true) × (is_paused s ≡ false)
IsPermitted e s (Request.redeem _ _ _ o) = (e.authorized o ≡ true) × (is_paused s ≡ false)

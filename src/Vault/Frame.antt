-- ===== src/Vault/Frame.antt =====
-- What a call of the vault leaves alone in the storage.
pub mod Admin
pub mod Shares
pub mod Settings
pub mod Batches
use stellar_upshift_vault_co.Base.{◌≡◌, refl}
use stellar_upshift_vault_co.Vault.Storage.{Storage}

-- The books: the whitelist, the types, the trackers and the aggregate.
pub record SameBooks (s s' : Storage) : Type 0 where
  pub subaccounts : s'.subaccounts ≡ s.subaccounts
  pub subaccount_types : s'.subaccount_types ≡ s.subaccount_types
  pub wallet_net_deployed : s'.wallet_net_deployed ≡ s.wallet_net_deployed
  pub deployed_assets : s'.deployed_assets ≡ s.deployed_assets

-- The settings that only admin functions change.
pub record SameSettings (s s' : Storage) : Type 0 where
  pub admin : s'.admin ≡ s.admin
  pub operator : s'.operator ≡ s.operator
  pub pending_admin : s'.pending_admin ≡ s.pending_admin
  pub admin_proposal_expiry : s'.admin_proposal_expiry ≡ s.admin_proposal_expiry
  pub paused : s'.paused ≡ s.paused
  pub aum_increase_limit : s'.aum_increase_limit ≡ s.aum_increase_limit
  pub aum_decrease_limit : s'.aum_decrease_limit ≡ s.aum_decrease_limit
  pub aum_window_duration : s'.aum_window_duration ≡ s.aum_window_duration
  pub aum_cumulative_increase_limit :
      s'.aum_cumulative_increase_limit ≡ s.aum_cumulative_increase_limit
  pub aum_cumulative_decrease_limit :
      s'.aum_cumulative_decrease_limit ≡ s.aum_cumulative_decrease_limit

-- The state of the cumulative window.
pub record SameWindow (s s' : Storage) : Type 0 where
  pub aum_window_start : s'.aum_window_start ≡ s.aum_window_start
  pub aum_cumulative_increase : s'.aum_cumulative_increase ≡ s.aum_cumulative_increase
  pub aum_cumulative_decrease : s'.aum_cumulative_decrease ≡ s.aum_cumulative_decrease
  pub aum_window_base_deployed : s'.aum_window_base_deployed ≡ s.aum_window_base_deployed

-- ===== src/Vault/Errors.antt =====
-- contracts/august-vault/src/errors.rs, and the errors of the OpenZeppelin vault library that
-- contract.rs raises itself.
pub data VaultError : Type 0 where
  unauthorized vault_paused invalid_amount subaccount_not_whitelisted : VaultError
  subaccount_already_registered aum_change_exceeds_limit math_overflow : VaultError
  max_subaccounts_reached invalid_aum_limits subaccount_returned_nothing : VaultError
  deployed_assets_underflow no_pending_admin invalid_admin_proposal : VaultError
  admin_proposal_expired asset_mismatch invalid_decimals_offset : VaultError
  negative_strategy_balance aum_cumulative_change_exceeds_limit : VaultError
  strategy_unreachable invalid_subaccount_type wallet_over_withdraw : VaultError
  wallet_tracker_not_zero wallet_seed_below_tracker empty_batch : VaultError
  duplicate_subaccount_in_batch : VaultError

pub data VaultTokenError : Type 0 where
  vault_invalid_assets_amount vault_invalid_shares_amount : VaultTokenError
  vault_exceeded_max_deposit vault_exceeded_max_mint : VaultTokenError
  vault_exceeded_max_withdraw vault_exceeded_max_redeem : VaultTokenError

-- `trap` is a failure below the contract: a missing authorization, a callee that panics, a missing
-- storage entry that is unwrapped.
pub data Panic : Type 0 where
  error : VaultError → Panic
  token_error : VaultTokenError → Panic
  trap : Panic

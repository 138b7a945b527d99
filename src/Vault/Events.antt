-- ===== src/Vault/Events.antt =====
-- contracts/august-vault/src/events.rs: the events, in the order of that file, and the two that the
-- vault library publishes for contract.rs.
use stellar_upshift_vault_co.Base.{ℕ, Option}
use stellar_upshift_vault_co.Base.Int.{ℤ}
use stellar_upshift_vault_co.Soroban.{Address}
use stellar_upshift_vault_co.Vault.Storage.{SubaccountType}

pub data StrategyProbeFailure : Type 0 where
  invoke_error convert_error : StrategyProbeFailure

pub data Event : Type 0 where
  admin_set : Address → Event
  admin_transfer_proposed : Address → Address → ℕ → Event
  admin_transfer_accepted : Address → Address → Event
  admin_transfer_cancelled : Address → Event
  operator_set : Address → Option Address → Address → Event
  aum_limits_changed : Address → ℕ → ℕ → ℕ → ℕ → Event
  aum_window_limits_changed : Address → ℕ → ℕ → ℕ → ℕ → ℕ → ℕ → Event
  deployed_assets_changed : Address → ℤ → ℤ → Event
  paused : Address → Event
  unpaused : Address → Event
  subaccount_added : Address → Address → SubaccountType → Event
  subaccount_removed : Address → Address → ℤ → Option ℤ → SubaccountType → Event
  wallet_balance_diverged : Address → ℤ → ℤ → Event
  strategy_balance_probe_failed : Address → StrategyProbeFailure → Event
  wallet_balance_probe_failed : Address → ℤ → Event
  wallet_deployed_updated : Address → Address → ℤ → ℤ → ℤ → Event
  wallet_deployed_batch_applied : Address → ℕ → ℤ → Event
  wallet_net_deployed_seeded : Address → Address → ℤ → ℤ → Event
  deposit_to_subaccount : Address → Address → ℤ → ℤ → Event
  withdraw_from_subaccount : Address → Address → ℤ → ℤ → Event
  -- `stellar_tokens::vault::{emit_deposit, emit_withdraw}`
  deposit : Address → Address → Address → ℤ → ℤ → Event
  withdraw : Address → Address → Address → ℤ → ℤ → Event

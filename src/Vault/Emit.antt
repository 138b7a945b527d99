-- ===== src/Vault/Emit.antt =====
-- contracts/august-vault/src/events.rs: the functions that publish an event.
use stellar_upshift_vault_co.Base.{ℕ, Option}
use stellar_upshift_vault_co.Base.Int.{ℤ}
use stellar_upshift_vault_co.Soroban.{Address}
use stellar_upshift_vault_co.Vault.Storage.{SubaccountType}
use stellar_upshift_vault_co.Vault.Events.{StrategyProbeFailure}
use stellar_upshift_vault_co.Vault.Events
use stellar_upshift_vault_co.Vault.State.{Action, emit}

module _ {X : Type 0} where
  abbrev pub emit_admin_set : Address → Action X (Unit {0})
  emit_admin_set admin = emit (Events.admin_set admin)

  abbrev pub emit_admin_transfer_proposed : Address → Address → ℕ → Action X (Unit {0})
  emit_admin_transfer_proposed old_admin new_admin deadline =
      emit (Events.admin_transfer_proposed old_admin new_admin deadline)

  abbrev pub emit_admin_transfer_accepted : Address → Address → Action X (Unit {0})
  emit_admin_transfer_accepted old_admin new_admin =
      emit (Events.admin_transfer_accepted old_admin new_admin)

  abbrev pub emit_admin_transfer_cancelled : Address → Action X (Unit {0})
  emit_admin_transfer_cancelled admin = emit (Events.admin_transfer_cancelled admin)

  abbrev pub emit_operator_set : Address → Option Address → Address → Action X (Unit {0})
  emit_operator_set admin old_operator new_operator =
      emit (Events.operator_set admin old_operator new_operator)

  abbrev pub emit_aum_limits_changed : Address → ℕ → ℕ → ℕ → ℕ → Action X (Unit {0})
  emit_aum_limits_changed admin old_increase_bps old_decrease_bps new_increase_bps
        new_decrease_bps =
      emit (
        Events.aum_limits_changed admin old_increase_bps old_decrease_bps new_increase_bps
          new_decrease_bps)

  abbrev pub emit_aum_window_limits_changed : Address → ℕ → ℕ → ℕ → ℕ → ℕ → ℕ → Action X (Unit {0})
  emit_aum_window_limits_changed admin old_duration old_increase old_decrease new_duration
        new_increase new_decrease =
      emit (
        Events.aum_window_limits_changed admin old_duration old_increase old_decrease new_duration
          new_increase new_decrease)

  abbrev pub emit_deployed_assets_changed : Address → ℤ → ℤ → Action X (Unit {0})
  emit_deployed_assets_changed caller old_amount new_amount =
      emit (Events.deployed_assets_changed caller old_amount new_amount)

  abbrev pub emit_paused : Address → Action X (Unit {0})
  emit_paused admin = emit (Events.paused admin)

  abbrev pub emit_unpaused : Address → Action X (Unit {0})
  emit_unpaused admin = emit (Events.unpaused admin)

  abbrev pub emit_subaccount_added : Address → Address → SubaccountType → Action X (Unit {0})
  emit_subaccount_added admin subaccount kind = emit (Events.subaccount_added admin subaccount kind)

  abbrev pub emit_subaccount_removed :
      Address → Address → ℤ → Option ℤ → SubaccountType → Action X (Unit {0})
  emit_subaccount_removed admin subaccount total_deployed_assets strategy_balance kind =
      emit (Events.subaccount_removed admin subaccount total_deployed_assets strategy_balance kind)

  abbrev pub emit_wallet_balance_diverged : Address → ℤ → ℤ → Action X (Unit {0})
  emit_wallet_balance_diverged subaccount tracked_net_deployed wallet_balance =
      emit (Events.wallet_balance_diverged subaccount tracked_net_deployed wallet_balance)

  abbrev pub emit_strategy_balance_probe_failed :
      Address → StrategyProbeFailure → Action X (Unit {0})
  emit_strategy_balance_probe_failed subaccount reason =
      emit (Events.strategy_balance_probe_failed subaccount reason)

  abbrev pub emit_wallet_balance_probe_failed : Address → ℤ → Action X (Unit {0})
  emit_wallet_balance_probe_failed subaccount tracked_net_deployed =
      emit (Events.wallet_balance_probe_failed subaccount tracked_net_deployed)

  abbrev pub emit_wallet_deployed_updated : Address → Address → ℤ → ℤ → ℤ → Action X (Unit {0})
  emit_wallet_deployed_updated operator subaccount old_tracked new_tracked delta =
      emit (Events.wallet_deployed_updated operator subaccount old_tracked new_tracked delta)

  abbrev pub emit_wallet_deployed_batch_applied : Address → ℕ → ℤ → Action X (Unit {0})
  emit_wallet_deployed_batch_applied operator count net_delta =
      emit (Events.wallet_deployed_batch_applied operator count net_delta)

  abbrev pub emit_wallet_net_deployed_seeded : Address → Address → ℤ → ℤ → Action X (Unit {0})
  emit_wallet_net_deployed_seeded admin subaccount old_amount new_amount =
      emit (Events.wallet_net_deployed_seeded admin subaccount old_amount new_amount)

  abbrev pub emit_deposit_to_subaccount : Address → Address → ℤ → ℤ → Action X (Unit {0})
  emit_deposit_to_subaccount operator subaccount amount actual_sent =
      emit (Events.deposit_to_subaccount operator subaccount amount actual_sent)

  abbrev pub emit_withdraw_from_subaccount : Address → Address → ℤ → ℤ → Action X (Unit {0})
  emit_withdraw_from_subaccount operator subaccount requested actual_received =
      emit (Events.withdraw_from_subaccount operator subaccount requested actual_received)

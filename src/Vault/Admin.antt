-- ===== src/Vault/Admin.antt =====
-- contracts/august-vault/src/contract.rs: the constructor and the admin functions.
use stellar_upshift_vault_co.Base.{ℕ, true, false, ltb, leb, ◌==◌, is_none}
use stellar_upshift_vault_co.Base.Int.{pos}
use stellar_upshift_vault_co.Soroban.{Address, ◌>>=◌, ◌>>◌, panic_if, or_panic}
use stellar_upshift_vault_co.Vault.Errors.{
  error, unauthorized, invalid_decimals_offset, invalid_admin_proposal, admin_proposal_expired,
  no_pending_admin,
}
use stellar_upshift_vault_co.Vault.Storage.{
  set_admin, set_pending_admin, set_admin_proposal_expiry, remove_pending_admin, set_operator,
  set_paused, get_aum_increase_limit, get_aum_decrease_limit, get_aum_window_duration,
  get_aum_cumulative_increase_limit, get_aum_cumulative_decrease_limit, get_deployed_assets,
  reset_aum_window,
}
use stellar_upshift_vault_co.Vault.Emit.{
  emit_admin_set, emit_admin_transfer_accepted, emit_admin_transfer_cancelled,
  emit_admin_transfer_proposed, emit_aum_limits_changed, emit_aum_window_limits_changed,
  emit_operator_set, emit_paused, emit_unpaused,
}
use stellar_upshift_vault_co.Vault.State.{
  Env, Action, load, save, invoke, try_view, set_deployed_assets, bump_instance, require_admin,
  require_auth, set_aum_limits as store_aum_limits,
  set_aum_window_limits as store_aum_window_limits,
}

module _ {X : Type 0} (e : Env X) where
  -- `__constructor`, over an empty storage.
  unfoldable pub construct : ℕ → ℕ → Address → ℕ → Address → Action X (Unit {0})
  construct name symbol asset decimals_offset admin = do
    bump_instance e
    try_view (e.token_decimals asset)
    panic_if (ltb decimals_offset 3) (error invalid_decimals_offset)
    invoke (e.set_asset asset)
    invoke (e.set_decimals_offset decimals_offset)
    decimals ← try_view e.decimals
    invoke (e.set_metadata decimals name symbol)
    save (set_admin admin)
    set_deployed_assets (pos 0)
    emit_admin_set admin

  unfoldable pub extend_ttl : Action X (Unit {0})
  extend_ttl = bump_instance e

  -- `UpgradeableInternal::_require_auth`
  unfoldable pub upgrade_require_auth : Address → Action X (Unit {0})
  upgrade_require_auth operator = require_admin e operator

  unfoldable pub propose_admin : Address → Address → ℕ → Action X (Unit {0})
  propose_admin admin new_admin deadline = do
    bump_instance e
    require_admin e admin
    panic_if (new_admin == admin) (error invalid_admin_proposal)
    panic_if (leb deadline e.timestamp) (error admin_proposal_expired)
    save (set_pending_admin new_admin)
    save (set_admin_proposal_expiry deadline)
    emit_admin_transfer_proposed admin new_admin deadline

  unfoldable pub accept_admin : Action X (Unit {0})
  accept_admin = do
    bump_instance e
    pending ← or_panic (← load (λ s. s.pending_admin)) (error no_pending_admin)
    require_auth e pending
    expiry ← or_panic (← load (λ s. s.admin_proposal_expiry)) (error admin_proposal_expired)
    panic_if (ltb expiry e.timestamp) (error admin_proposal_expired)
    old_admin ← or_panic (← load (λ s. s.admin)) (error unauthorized)
    save (set_admin pending)
    save remove_pending_admin
    emit_admin_transfer_accepted old_admin pending

  unfoldable pub cancel_admin_proposal : Address → Action X (Unit {0})
  cancel_admin_proposal admin = do
    bump_instance e
    require_admin e admin
    panic_if (is_none (← load (λ s. s.pending_admin))) (error no_pending_admin)
    save remove_pending_admin
    emit_admin_transfer_cancelled admin

  unfoldable pub set_vault_operator : Address → Address → Action X (Unit {0})
  set_vault_operator admin new_operator = do
    bump_instance e
    require_admin e admin
    old_operator ← load (λ s. s.operator)
    save (set_operator new_operator)
    emit_operator_set admin old_operator new_operator

  unfoldable pub set_aum_limits : Address → ℕ → ℕ → Action X (Unit {0})
  set_aum_limits admin increase_bps decrease_bps = do
    bump_instance e
    require_admin e admin
    old_increase ← load get_aum_increase_limit
    old_decrease ← load get_aum_decrease_limit
    store_aum_limits increase_bps decrease_bps
    emit_aum_limits_changed admin old_increase old_decrease increase_bps decrease_bps

  unfoldable pub set_aum_window_limits : Address → ℕ → ℕ → ℕ → Action X (Unit {0})
  set_aum_window_limits admin window_duration increase_bps decrease_bps = do
    bump_instance e
    require_admin e admin
    old_duration ← load get_aum_window_duration
    old_increase ← load get_aum_cumulative_increase_limit
    old_decrease ← load get_aum_cumulative_decrease_limit
    store_aum_window_limits window_duration increase_bps decrease_bps
    current_deployed ← load get_deployed_assets
    save (reset_aum_window e.timestamp current_deployed)
    emit_aum_window_limits_changed admin old_duration old_increase old_decrease window_duration
        increase_bps decrease_bps

  unfoldable pub pause : Address → Action X (Unit {0})
  pause admin = do bump_instance e; require_admin e admin; save (set_paused true); emit_paused admin

  unfoldable pub unpause : Address → Action X (Unit {0})
  unpause admin = do
    bump_instance e
    require_admin e admin
    save (set_paused false)
    emit_unpaused admin

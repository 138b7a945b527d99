-- ===== src/Vault/Limits.antt =====
-- contracts/august-vault/src/contract.rs: the limits on changes of `deployed_assets` and the change
-- itself, `apply_deployed_assets_change`.
pub mod Window
pub mod Effect
pub mod Rate
pub mod Windows
pub mod Tally
pub mod Paused
use stellar_upshift_vault_co.Base.{
  ℕ, ◌-◌, Bool, true, false, ◌&&◌, ◌||◌, not, leb, ltb, ◌==◌, if◌then◌else◌,
}
use stellar_upshift_vault_co.Base.Int.{ℤ, pos, ltb_ℤ, eqb_ℤ}
use stellar_upshift_vault_co.Soroban.{
  Address, Outcome, ok, panic, ◌>>=◌, ◌>>◌, branch, panic_if, or_panic, when,
}
use stellar_upshift_vault_co.Soroban.I128.{checked_add, checked_sub, checked_mul}
use stellar_upshift_vault_co.Vault.Errors.{
  VaultError, error, math_overflow, vault_paused, aum_change_exceeds_limit,
  aum_cumulative_change_exceeds_limit,
}
use stellar_upshift_vault_co.Vault.Events.{deployed_assets_changed}
use stellar_upshift_vault_co.Vault.Storage.{
  Storage, is_paused, get_aum_window_duration, get_aum_window_start, get_aum_window_base_deployed,
  get_aum_cumulative_increase, get_aum_cumulative_decrease, get_aum_cumulative_increase_limit,
  get_aum_cumulative_decrease_limit, get_aum_increase_limit, get_aum_decrease_limit,
  reset_aum_window, set_aum_cumulative_increase, set_aum_cumulative_decrease,
}
use stellar_upshift_vault_co.Vault.Emit.{emit_deployed_assets_changed}
use stellar_upshift_vault_co.Vault.State.{Env, Action, load, save, emit, set_deployed_assets}
use stellar_upshift_vault_co.Vault.Pricing.{local_balance}

module _ {X : Type 0} where
  unfoldable pub require_within_bps_limit : ℤ → ℤ → ℕ → VaultError → Action X (Unit {0})
  require_within_bps_limit value base limit_bps error_code = do
    lhs ← or_panic (checked_mul value (pos 10000)) (error math_overflow)
    rhs ← or_panic (checked_mul (pos limit_bps) base) (error math_overflow)
    panic_if (ltb_ℤ rhs lhs) (error error_code)

  unfoldable pub check_aum_rate_limit : ℤ → ℤ → ℕ → Action X (Unit {0})
  check_aum_rate_limit delta old_deployed limit_bps =
      require_within_bps_limit delta old_deployed limit_bps aum_change_exceeds_limit

module _ {X : Type 0} (e : Env X) where
  -- The test of `check_aum_cumulative_limit`: the window was never opened, or has run out.
  -- `saturating_sub` on `u64` is subtraction that stops at 0.
  unfoldable pub window_is_over : Storage → Bool
  window_is_over s =
      get_aum_window_start s == 0
      || leb (get_aum_window_duration s) (e.timestamp - get_aum_window_start s)

  -- The part of `check_aum_cumulative_limit` below the test for a zero base.
  unfoldable pub accumulate : ℤ → ℤ → Bool → Action X (Unit {0})
  accumulate delta base_deployed is_increase = do
    cumulative ←
        load (λ s.
          if is_increase then get_aum_cumulative_increase s else get_aum_cumulative_decrease s)
    limit_bps ← load (λ s.
        if is_increase
        then get_aum_cumulative_increase_limit s
        else get_aum_cumulative_decrease_limit s)
    new_cumulative ← or_panic (checked_add cumulative delta) (error math_overflow)
    require_within_bps_limit new_cumulative base_deployed limit_bps
        aum_cumulative_change_exceeds_limit
    save (λ s.
        if is_increase
        then set_aum_cumulative_increase new_cumulative s
        else set_aum_cumulative_decrease new_cumulative s)

  unfoldable pub check_aum_cumulative_limit : ℤ → ℤ → Bool → Action X (Unit {0})
  unfolding accumulate window_is_over
  check_aum_cumulative_limit delta old_deployed is_increase = do
    over ← load window_is_over
    when over (save (reset_aum_window e.timestamp old_deployed))
    base_deployed ← load get_aum_window_base_deployed
    when (not (eqb_ℤ base_deployed (pos 0))) (accumulate delta base_deployed is_increase)

  -- The two branches of the rate limiting in `apply_deployed_assets_change`.
  unfoldable pub limit_increase : ℤ → ℤ → Action X (Unit {0})
  limit_increase old_deployed new_deployed = do
    increase ← or_panic (checked_sub new_deployed old_deployed) (error math_overflow)
    check_aum_rate_limit increase old_deployed (← load get_aum_increase_limit)
    check_aum_cumulative_limit increase old_deployed true

  unfoldable pub limit_decrease : ℤ → ℤ → Action X (Unit {0})
  limit_decrease old_deployed new_deployed = do
    decrease ← or_panic (checked_sub old_deployed new_deployed) (error math_overflow)
    check_aum_rate_limit decrease old_deployed (← load get_aum_decrease_limit)
    check_aum_cumulative_limit decrease old_deployed false

  unfoldable pub apply_deployed_assets_change : Address → ℤ → ℤ → Action X (Unit {0})
  apply_deployed_assets_change actor old_deployed new_deployed = do
    local ← local_balance e
    or_panic (checked_add local new_deployed) (error math_overflow)
    panic_if ((← load is_paused) && ltb_ℤ old_deployed new_deployed) (error vault_paused)
    when (ltb_ℤ (pos 0) old_deployed && not (eqb_ℤ new_deployed old_deployed)) (
        branch (ltb_ℤ old_deployed new_deployed) (limit_increase old_deployed new_deployed)
          (limit_decrease old_deployed new_deployed))
    set_deployed_assets new_deployed
    emit_deployed_assets_changed actor old_deployed new_deployed

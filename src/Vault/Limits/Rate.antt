-- ===== src/Vault/Limits/Rate.antt =====
-- What `apply_deployed_assets_change` (contracts/august-vault/src/contract.rs) lets through: the
-- limit on one change, and the pause.
use stellar_upshift_vault_co.Base.{◌≡◌, true, arith}
use stellar_upshift_vault_co.Base.Int.{ℤ, pos, ◌≤ℤ◌, ◌<ℤ◌, ◌-ℤ◌, -ℤ_parts}
use stellar_upshift_vault_co.Soroban.{Address, Ensures}
use stellar_upshift_vault_co.Soroban.I128.{checked_sub}
use stellar_upshift_vault_co.Vault.Errors.{aum_change_exceeds_limit}
use stellar_upshift_vault_co.Vault.Storage.{
  Storage, is_paused, get_aum_increase_limit, get_aum_decrease_limit,
}
use stellar_upshift_vault_co.Vault.State.{Env, World, set_deployed_assets}
use stellar_upshift_vault_co.Vault.Pricing.{local_balance}
use stellar_upshift_vault_co.Vault.Limits.{
  check_aum_rate_limit, limit_increase, limit_decrease, apply_deployed_assets_change,
}
use stellar_upshift_vault_co.Vault.Limits.Window.{WithinBps, WithinBps-nonpos, require-Within}

-- Both directions of a change from `old` to `new` are within the limits of the settings.
pub record IsLimitedChange (s : Storage) (old new : ℤ) : Type 0 where
  pub increase : WithinBps (get_aum_increase_limit s) old (new -ℤ old)
  pub decrease : WithinBps (get_aum_decrease_limit s) old (old -ℤ new)

module _ {X : Type 0} (e : Env X) where
  increase-Within :
      (old new : ℤ) (w : World X)
      → Ensures
          (λ _ _. WithinBps (get_aum_increase_limit w.store) old (new -ℤ old))
          (limit_increase e old new w)
  unfolding limit_increase check_aum_rate_limit checked_sub
  increase-Within old new w = ground (
    arith,
    require-Within e (new -ℤ old) old (get_aum_increase_limit w.store) aum_change_exceeds_limit w,
  )

  decrease-Within :
      (old new : ℤ) (w : World X)
      → Ensures
          (λ _ _. WithinBps (get_aum_decrease_limit w.store) old (old -ℤ new))
          (limit_decrease e old new w)
  unfolding limit_decrease check_aum_rate_limit checked_sub
  decrease-Within old new w = ground (
    arith,
    require-Within e (old -ℤ new) old (get_aum_decrease_limit w.store) aum_change_exceeds_limit w,
  )

  -- A change of a positive aggregate that returns is within the limits on one change: the rise is
  -- at most `increase_limit` basis points of the old value, the fall at most `decrease_limit`.
  pub apply-IsLimitedChange :
      (actor : Address) (old new : ℤ) (w : World X)
      → pos 0 <ℤ old
      → Ensures
          (λ _ _. IsLimitedChange w.store old new)
          (apply_deployed_assets_change e actor old new w)
  unfolding apply_deployed_assets_change set_deployed_assets local_balance
  apply-IsLimitedChange actor old new w o = ground (
    arith,
    increase-Within old new w,
    decrease-Within old new w,
    -ℤ_parts old new,
    -ℤ_parts new old,
    WithinBps-nonpos (get_aum_increase_limit w.store) old (new -ℤ old),
    WithinBps-nonpos (get_aum_decrease_limit w.store) old (old -ℤ new),
  )

  -- While the vault is paused, a change of the aggregate that returns does not raise it.
  pub apply-NoRise :
      (actor : Address) (old new : ℤ) (w : World X)
      → is_paused w.store ≡ true
      → Ensures (λ _ _. new ≤ℤ old) (apply_deployed_assets_change e actor old new w)
  unfolding apply_deployed_assets_change set_deployed_assets local_balance
  apply-NoRise actor old new w p = ground arith

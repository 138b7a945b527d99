-- ===== src/Vault/Tests/Limits.antt =====
-- The limits on changes of the aggregate (contracts/august-vault/src/contract.rs) on concrete
-- inputs.
use stellar_upshift_vault_co.Base.{◌≡◌, refl, true, arith}
use stellar_upshift_vault_co.Base.Int.{pos, ◌+ℤ◌, ◌-ℤ◌, ◌*ℤ◌}
use stellar_upshift_vault_co.Soroban.{ok}
use stellar_upshift_vault_co.Soroban.I128.{
  fits, checked, checked_add, checked_sub, checked_mul, i128_max, i128_min,
}
use stellar_upshift_vault_co.Vault.Storage.{
  set_paused, get_aum_cumulative_increase_limit, get_aum_cumulative_decrease_limit,
}
use stellar_upshift_vault_co.Vault.State.{
  World, bump_instance, require_auth, require_operator, set_deployed_assets,
}
use stellar_upshift_vault_co.Vault.Pricing.{local_balance}
use stellar_upshift_vault_co.Vault.Limits.{
  require_within_bps_limit, check_aum_rate_limit, window_is_over, accumulate,
  check_aum_cumulative_limit, limit_increase, limit_decrease, apply_deployed_assets_change,
}
use stellar_upshift_vault_co.Vault.Limits.Window.{WithinBps, IsWithinWindow}
use stellar_upshift_vault_co.Vault.Limits.Tally.{Tally, opened, IsTallied}
use stellar_upshift_vault_co.Vault.Limits.Tally.Requests.{tally, History-tally}
use stellar_upshift_vault_co.Vault.Limits.Rate.{IsLimitedChange, apply-IsLimitedChange}
use stellar_upshift_vault_co.Vault.Limits.Paused.{NoRise, execute-NoRise}
use stellar_upshift_vault_co.Vault.Wallets.{update_deployed_assets}
use stellar_upshift_vault_co.Vault.Entry.{Request, execute}
use stellar_upshift_vault_co.Vault.History.{History, here, next}
use stellar_upshift_vault_co.Vault.Tests.Bank.{Bank, env, store, world, after}

store-IsWithinWindow : IsWithinWindow store
unfolding ◌*ℤ◌
store-IsWithinWindow = record {
  deployed_nonneg = omega arith;
  base_nonneg = omega arith;
  increase = omega arith;
  decrease = omega arith;
}

-- The aggregate falls from 1500 to 1440, 4 percent.
abbrev fall : Request
fall = Request.update_deployed_assets 2 (pos 1440)

abbrev fallen : World Bank
fallen = after world (execute env fall world)

fall_returns : execute env fall world ≡ ok tt fallen
unfolding execute update_deployed_assets bump_instance require_auth require_operator
    set_deployed_assets apply_deployed_assets_change limit_increase limit_decrease local_balance
    check_aum_rate_limit check_aum_cumulative_limit require_within_bps_limit accumulate
    window_is_over checked_add checked_sub checked_mul checked fits i128_max i128_min ◌+ℤ◌ ◌-ℤ◌ ◌*ℤ◌
fall_returns = refl

-- The window of the test's storage has never opened: the fall opens it.
abbrev unopened : Tally
unopened = opened 0 (pos 0)

unopened-IsTallied : IsTallied unopened store
unopened-IsTallied = record { start_eq = refl; base_eq = refl; rises_eq = refl; falls_eq = refl }

abbrev falling : History world fallen
falling = next env fall here fall_returns

History-tally_example :
    WithinBps
      (get_aum_cumulative_increase_limit fallen.store)
      (tally unopened falling).base
      (tally unopened falling).rises
    × WithinBps
        (get_aum_cumulative_decrease_limit fallen.store)
        (tally unopened falling).base
        (tally unopened falling).falls
History-tally_example = History-tally unopened falling unopened-IsTallied store-IsWithinWindow

apply-IsLimitedChange_example : IsLimitedChange store (pos 1500) (pos 1440)
unfolding set_deployed_assets apply_deployed_assets_change limit_increase limit_decrease
    local_balance check_aum_rate_limit check_aum_cumulative_limit require_within_bps_limit
    accumulate window_is_over checked_add checked_sub checked_mul checked fits i128_max i128_min
    ◌+ℤ◌ ◌-ℤ◌ ◌*ℤ◌
apply-IsLimitedChange_example =
    apply-IsLimitedChange env 2 (pos 1500) (pos 1440) world (omega arith)

-- The same world, paused.
abbrev halted : World Bank
halted = record world { store = set_paused true store }

execute-NoRise_example : NoRise store (fallen.store)
unfolding execute update_deployed_assets bump_instance require_auth require_operator
    set_deployed_assets apply_deployed_assets_change limit_increase limit_decrease local_balance
    check_aum_rate_limit check_aum_cumulative_limit require_within_bps_limit accumulate
    window_is_over checked_add checked_sub checked_mul checked fits i128_max i128_min ◌+ℤ◌ ◌-ℤ◌ ◌*ℤ◌
execute-NoRise_example = execute-NoRise env fall halted refl

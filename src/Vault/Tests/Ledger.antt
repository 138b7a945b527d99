-- ===== src/Vault/Tests/Ledger.antt =====
-- The ledger of subaccounts of contracts/august-vault/src/contract.rs on concrete inputs.
use stellar_upshift_vault_co.Base.{◌≡◌, refl, arith}
use stellar_upshift_vault_co.Base.Int.{pos, ◌+ℤ◌, ◌-ℤ◌, ◌*ℤ◌}
use stellar_upshift_vault_co.Soroban.{ok, Ensures}
use stellar_upshift_vault_co.Soroban.I128.{
  fits, checked, checked_add, checked_sub, checked_mul, i128_max, i128_min,
}
use stellar_upshift_vault_co.Vault.State.{
  World, bump_instance, require_auth, require_operator, set_deployed_assets,
  set_wallet_net_deployed,
}
use stellar_upshift_vault_co.Vault.Pricing.{local_balance}
use stellar_upshift_vault_co.Vault.Limits.{
  require_within_bps_limit, check_aum_rate_limit, window_is_over, accumulate,
  check_aum_cumulative_limit, limit_increase, limit_decrease, apply_deployed_assets_change,
}
use stellar_upshift_vault_co.Vault.Subaccounts.{find_subaccount_index, require_whitelisted}
use stellar_upshift_vault_co.Vault.Wallets.{require_wallet, update_wallet_deployed}
use stellar_upshift_vault_co.Vault.Entry.{Request, execute}
use stellar_upshift_vault_co.Vault.History.{here, next}
use stellar_upshift_vault_co.Vault.Ledger.{Spec, ledger}
use stellar_upshift_vault_co.Vault.Ledger.Listed.{IsListed}
use stellar_upshift_vault_co.Vault.Ledger.Requests.{execute-refines, History-IsListed}
use stellar_upshift_vault_co.Vault.Tests.Bank.{Bank, env, store, world, after}

store-IsListed : IsListed store
unfolding find_subaccount_index
store-IsListed = record {
  distinct = (refl, (refl, tt));
  few = omega arith;
  nonneg = λ a. ground arith;
  fresh = λ a h. ground (arith, h);
}

-- The first wallet's tracker rises from 1000 to 1100.
abbrev rise : Request
rise = Request.update_wallet_deployed 2 7 (pos 1100)

abbrev risen : World Bank
risen = after world (execute env rise world)

rise_returns : execute env rise world ≡ ok tt risen
unfolding execute update_wallet_deployed bump_instance require_auth require_operator require_wallet
    require_whitelisted find_subaccount_index set_wallet_net_deployed set_deployed_assets
    apply_deployed_assets_change limit_increase limit_decrease local_balance check_aum_rate_limit
    check_aum_cumulative_limit require_within_bps_limit accumulate window_is_over checked_add
    checked_sub checked_mul checked fits i128_max i128_min ◌+ℤ◌ ◌-ℤ◌ ◌*ℤ◌
rise_returns = refl

execute-refines_example :
    Ensures (λ _ w'. Spec rise (ledger store) (ledger w'.store)) (execute env rise world)
execute-refines_example = execute-refines env rise world store-IsListed

History-IsListed_example : IsListed (risen.store)
History-IsListed_example =
    History-IsListed {w = world} store-IsListed (next env rise here rise_returns)

-- ===== src/Vault/Tests/Books.antt =====
-- The books of contracts/august-vault/src/contract.rs on concrete inputs.
use stellar_upshift_vault_co.Base.{◌≡◌, refl, false, [], ◌∷◌, arith}
use mathlib.Core.Logic.{◌↔◌}
use stellar_upshift_vault_co.Base.Int.{pos, ◌+ℤ◌, ◌-ℤ◌, ◌*ℤ◌, ◌≤ℤ◌}
use stellar_upshift_vault_co.Soroban.{Address, ok, Ensures, Returns}
use stellar_upshift_vault_co.Soroban.I128.{
  fits, checked, checked_add, checked_sub, checked_mul, i128_max, i128_min,
}
use stellar_upshift_vault_co.Vault.Storage.{get_wallet_net_deployed}
use stellar_upshift_vault_co.Vault.State.{
  World, bump_instance, require_auth, require_admin, require_operator, set_deployed_assets,
  set_subaccounts, set_wallet_net_deployed,
}
use stellar_upshift_vault_co.Vault.Pricing.{local_balance}
use stellar_upshift_vault_co.Vault.Limits.{
  require_within_bps_limit, check_aum_rate_limit, window_is_over, accumulate,
  check_aum_cumulative_limit, limit_increase, limit_decrease, apply_deployed_assets_change,
}
use stellar_upshift_vault_co.Vault.Subaccounts.{
  find_subaccount_index, without_index_from, subaccounts_without_index, require_whitelisted,
  wallet_diagnosis, diagnose, do_remove_subaccount,
}
use stellar_upshift_vault_co.Vault.Wallets.{
  require_wallet, require_co_operator, update_wallet_deployed, remove_wallet_and_reconcile,
  get_wallet_deployed_assets,
}
use stellar_upshift_vault_co.Vault.Batch.{has_duplicates, update_wallet_deployed_batch}
use stellar_upshift_vault_co.Vault.Entry.{Request, execute}
use stellar_upshift_vault_co.Vault.Books.{IsBalanced, sum}
use stellar_upshift_vault_co.Vault.Books.Batches.{net_delta, AllWallets, Written, batch-Written}
use stellar_upshift_vault_co.Vault.Books.Invariant.{here, next, Reach-IsBalanced}
use stellar_upshift_vault_co.Vault.Books.Reconcile.{reconcile-balance}
use stellar_upshift_vault_co.Vault.Books.Single.{stored, one-stored}
use stellar_upshift_vault_co.Vault.Books.Query.{query-Returns}
use stellar_upshift_vault_co.Vault.Tests.Bank.{Bank, env, store, world, after}

store-IsBalanced : IsBalanced store
unfolding sum find_subaccount_index ◌+ℤ◌
store-IsBalanced = record {
  distinct = (refl, (refl, tt));
  fresh = λ a h. ground (arith, h);
  balanced = refl;
}

-- The first wallet's tracker rises from 1000 to 1100.
abbrev rise : Request
rise = Request.update_wallet_deployed 2 7 (pos 1100)

abbrev risen : World Bank
risen = after world (execute env rise world)

rise_returns : execute env rise world ≡ ok tt risen
unfolding execute update_wallet_deployed bump_instance require_auth require_operator require_wallet
    require_whitelisted find_subaccount_index set_wallet_net_deployed set_deployed_assets
    apply_deployed_assets_change limit_increase limit_decrease local_balance check_aum_rate_limit
    check_aum_cumulative_limit require_within_bps_limit accumulate window_is_over checked_add
    checked_sub checked_mul checked fits i128_max i128_min ◌+ℤ◌ ◌-ℤ◌ ◌*ℤ◌
rise_returns = refl

Reach-IsBalanced_example : IsBalanced (risen.store)
Reach-IsBalanced_example = Reach-IsBalanced store-IsBalanced (next env rise here tt rise_returns)

-- The second wallet leaves the whitelist with a tracker of 500, and the aggregate falls by 60.
abbrev reconciled : World Bank
reconciled = after world (remove_wallet_and_reconcile env 1 2 8 (pos 1440) world)

reconciled_returns : remove_wallet_and_reconcile env 1 2 8 (pos 1440) world ≡ ok tt reconciled
unfolding remove_wallet_and_reconcile bump_instance require_auth require_admin require_operator
    require_co_operator require_wallet require_whitelisted find_subaccount_index without_index_from
    subaccounts_without_index do_remove_subaccount diagnose wallet_diagnosis set_subaccounts
    set_wallet_net_deployed set_deployed_assets apply_deployed_assets_change limit_increase
    limit_decrease local_balance check_aum_rate_limit check_aum_cumulative_limit
    require_within_bps_limit accumulate window_is_over checked_add checked_sub checked_mul checked
    fits i128_max i128_min ◌+ℤ◌ ◌-ℤ◌ ◌*ℤ◌
reconciled_returns = refl

reconcile-balance_example : IsBalanced (reconciled.store) ↔ (pos 1440 +ℤ pos 500 ≡ pos 1500)
reconcile-balance_example =
    reconcile-balance env 1 2 8 (pos 1440) world reconciled store-IsBalanced reconciled_returns

one-stored_example :
    stored (update_wallet_deployed_batch env 2 ((7, pos 1100) ∷ []) world)
    ≡ stored (update_wallet_deployed env 2 7 (pos 1100) world)
one-stored_example = one-stored env 2 7 (pos 1100) world

trackers_nonneg : (a : Address) → pos 0 ≤ℤ get_wallet_net_deployed store a
trackers_nonneg a = ground arith

in_range : pos 1500 ≤ℤ i128_max
unfolding i128_max
in_range = omega arith

query-Returns_example :
    Returns (λ r w'. (r ≡ pos 1500) × (w' ≡ world)) (get_wallet_deployed_assets world)
query-Returns_example = query-Returns world store-IsBalanced trackers_nonneg in_range

-- One tracker rises by 70 and the other falls by 40.
batch-Written_example :
    Ensures
      (λ _ w'.
        (has_duplicates ((7, pos 1070) ∷ (8, pos 460) ∷ []) ≡ false)
        × AllWallets store ((7, pos 1070) ∷ (8, pos 460) ∷ [])
        × Written
            ((7, pos 1070) ∷ (8, pos 460) ∷ [])
            (net_delta store ((7, pos 1070) ∷ (8, pos 460) ∷ []))
            store
            w'.store)
      (update_wallet_deployed_batch env 2 ((7, pos 1070) ∷ (8, pos 460) ∷ []) world)
batch-Written_example = batch-Written env 2 ((7, pos 1070) ∷ (8, pos 460) ∷ []) world

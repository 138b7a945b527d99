-- ===== src/Linked/Tests.antt =====
-- The two contracts together on concrete inputs: the vault of Vault/Tests/Bank, with a strategy of
-- contracts/xlm-strategy/src/lib.rs at 9.
use stellar_upshift_vault_co.Base.{
  ◌≡◌, ◌≢◌, refl, none, some, true, [], ◌∷◌, ◌==◌, if◌then◌else◌, arith,
}
use stellar_upshift_vault_co.Base.Int.{pos, ◌≤ℤ◌, ◌+ℤ◌, ◌-ℤ◌}
use stellar_upshift_vault_co.Soroban.{Address, ok, Returns}
use stellar_upshift_vault_co.Vault.State.{World}
use stellar_upshift_vault_co.Vault.Storage.{
  SubaccountType, Map, strategy, wallet, get_subaccount_type,
}
use stellar_upshift_vault_co.Vault.Interface.{IStrategy}
use stellar_upshift_vault_co.Strategy.State.{World as StrategyWorld, Storage as StrategyStorage}
use stellar_upshift_vault_co.Soroban.I128.{
  fits, checked, checked_add, checked_sub, i128_max, i128_min,
}
use stellar_upshift_vault_co.Vault.State.{
  bump_instance, require_auth, require_operator, require_not_paused,
}
use stellar_upshift_vault_co.Vault.Pricing.{
  local_balance, reported_balance, add_strategy_balances, query_strategy_balances,
  total_assets_from, custom_total_assets,
}
use stellar_upshift_vault_co.Vault.Subaccounts.{
  add_subaccount, find_subaccount_index, require_whitelisted, deposit_to_subaccount,
  withdraw_from_subaccount, pull,
}
use stellar_upshift_vault_co.Vault.Interface.Total.{IsSolvent}
use stellar_upshift_vault_co.Vault.Books.{IsDistinct}
use stellar_upshift_vault_co.Strategy.Helpers.{
  bump_instance as strategy_bump, require_auth as strategy_auth, require_vault, actual_balance,
}
use stellar_upshift_vault_co.Strategy.Funds.{
  deposit, receive, withdraw, send, get_balance, idle_component, report_donation, report_shortfall,
}
use stellar_upshift_vault_co.Linked.{link}
use stellar_upshift_vault_co.Linked.Laws.{Exact}
use stellar_upshift_vault_co.Linked.Covered.{IsCovered}
use stellar_upshift_vault_co.Linked.Contract.{estimate, deposit_as, withdraw_as, link-IStrategy}
use stellar_upshift_vault_co.Linked.Ready.{IsReady}
use stellar_upshift_vault_co.Linked.Registration.{add_strategy-Returns}
use stellar_upshift_vault_co.Linked.Interface.{
  deposit_to_strategy-total, withdraw_from_strategy-total,
}
use stellar_upshift_vault_co.Vault.Tests.Bank.{Bank, store, bank}
use stellar_upshift_vault_co.Vault.Tests.Transfers.{base, base-Token, after}

base-Exact : Exact base 5
base-Exact = record {
  debits = λ from to amount v t t' apart h k. ground (arith, h, k);
  credits = λ from to amount v t t' apart h k. ground (arith, h, k);
  returned = λ s amount t t' h. record { asset = refl; reports = λ c other. refl };
}

link-IStrategy_example :
    IStrategy
      (link base 9)
      5
      9
      (IsCovered base 9 5)
      (estimate base 9 5)
      (deposit_as base 9 5)
      (withdraw_as base 9 5)
link-IStrategy_example = link-IStrategy base 9 5 (λ e. ground (arith, e)) base-Exact

-- The strategy tracks the 100 tokens that it holds, and 2000 that are deployed.
abbrev strategy_store : StrategyStorage
strategy_store = record {
  asset = some 5;
  vault = some 0;
  controller = some 3;
  deployed_total = some (pos 2000);
  local_balance = some (pos 100);
  deployed_total_bootstrapped = some true;
}

abbrev surroundings : StrategyWorld Bank
surroundings = record { store = strategy_store; ext = bank; ttl = 0; events = [] }

-- The strategy is set up there, and covered.
surroundings-IsCovered : IsCovered base 9 5 surroundings
surroundings-IsCovered = record {
  asset_eq = refl;
  vault_eq = refl;
  actual = pos 100;
  actual_eq = refl;
  local_nonneg = omega arith;
  local_held = omega arith;
  deployed_nonneg = omega arith;
}

abbrev types : Map SubaccountType
types a =
    if a == 7
    then some wallet
    else if a == 8
    then some wallet
    else if a == 9
    then some strategy
    else none

-- The vault with the strategy on its whitelist, and before that.
abbrev world : World (StrategyWorld Bank)
world = record {
  store = record store { subaccounts = some (7 ∷ 8 ∷ 9 ∷ []); subaccount_types = some types };
  ext = surroundings;
  ttl = 0;
  events = [];
}

abbrev unregistered : World (StrategyWorld Bank)
unregistered = record { store = store; ext = surroundings; ttl = 0; events = [] }

distinct : IsDistinct (7 ∷ 8 ∷ 9 ∷ [])
unfolding find_subaccount_index
distinct = (refl, (refl, (refl, tt)))

-- 4000 in the vault, 2100 in the strategy and 1500 with the wallets.
total_before : custom_total_assets (link base 9) world ≡ ok (pos 7600) world
unfolding custom_total_assets local_balance total_assets_from query_strategy_balances
    add_strategy_balances reported_balance get_balance idle_component report_donation
    report_shortfall strategy_bump actual_balance checked_add checked_sub checked fits i128_max
    i128_min ◌+ℤ◌ ◌-ℤ◌
total_before = refl

abbrev deposited : World (StrategyWorld Bank)
deposited = after world (deposit_to_subaccount (link base 9) 2 9 (pos 250) world)

deposit_returns : deposit_to_subaccount (link base 9) 2 9 (pos 250) world ≡ ok tt deposited
unfolding deposit_to_subaccount bump_instance require_operator require_auth require_not_paused
    require_whitelisted find_subaccount_index deposit receive strategy_bump strategy_auth
    require_vault actual_balance checked_add checked_sub checked fits i128_max i128_min ◌+ℤ◌ ◌-ℤ◌
deposit_returns = refl

abbrev withdrawn : World (StrategyWorld Bank)
withdrawn = after world (withdraw_from_subaccount (link base 9) 2 9 (pos 250) world)

withdraw_returns : withdraw_from_subaccount (link base 9) 2 9 (pos 250) world ≡ ok tt withdrawn
unfolding withdraw_from_subaccount pull bump_instance require_operator require_auth
    require_not_paused require_whitelisted find_subaccount_index withdraw send strategy_bump
    strategy_auth require_vault actual_balance checked_add checked_sub checked fits i128_max
    i128_min ◌+ℤ◌ ◌-ℤ◌
withdraw_returns = refl

apart : ◌≢◌ {A = Address} 0 9
apart e = ground (arith, e)

deposited-IsSolvent : IsSolvent (link base 9) 5 9 deposited
unfolding deposit_to_subaccount bump_instance require_operator require_auth require_not_paused
    require_whitelisted find_subaccount_index checked_add checked_sub checked fits i128_max i128_min
    ◌+ℤ◌ ◌-ℤ◌ deposit receive strategy_auth require_vault get_balance idle_component report_donation
    report_shortfall strategy_bump actual_balance
deposited-IsSolvent = record {
  held_nonneg = λ v h. ground (arith, h);
  answer = λ kind. (refl, omega arith);
}

withdrawn-IsSolvent : IsSolvent (link base 9) 5 9 withdrawn
unfolding withdraw_from_subaccount pull bump_instance require_operator require_auth
    require_not_paused require_whitelisted find_subaccount_index checked_add checked_sub checked
    fits i128_max i128_min ◌+ℤ◌ ◌-ℤ◌ withdraw send strategy_auth require_vault get_balance
    idle_component report_donation report_shortfall strategy_bump actual_balance
withdrawn-IsSolvent = record {
  held_nonneg = λ v h. ground (arith, h);
  answer = λ kind. (refl, omega arith);
}

deposit_to_strategy-total_example :
    Returns (λ total' _. total' ≡ pos 7600) (custom_total_assets (link base 9) deposited)
deposit_to_strategy-total_example =
    deposit_to_strategy-total base 9 5 apart base-Exact (base-Token 9) world refl refl refl distinct
      (omega arith) 2 (pos 250) (pos 7600) deposited total_before deposit_returns
      deposited-IsSolvent

withdraw_from_strategy-total_example :
    Returns (λ total' _. total' ≡ pos 7600) (custom_total_assets (link base 9) withdrawn)
withdraw_from_strategy-total_example =
    withdraw_from_strategy-total base 9 5 apart base-Exact (base-Token 9) world refl refl refl
      distinct (omega arith) 2 (pos 250) (pos 7600) withdrawn total_before withdraw_returns
      withdrawn-IsSolvent

in_range : pos 2100 ≤ℤ i128_max
unfolding i128_max
in_range = omega arith

ready : IsReady base 9 5 (pos 100) bank strategy_store
unfolding ◌+ℤ◌
ready = record {
  asset_eq = refl;
  vault_eq = refl;
  actual_eq = refl;
  actual_nonneg = omega arith;
  local_nonneg = omega arith;
  deployed_nonneg = omega arith;
  actual_range = in_range;
  local_range = in_range;
}

add_strategy-Returns_example :
    Returns
      (λ _ w'.
        (w'.store.subaccounts ≡ some (7 ∷ 8 ∷ 9 ∷ []))
        × (get_subaccount_type w'.store 9 ≡ strategy)
        × (w'.ext.store ≡ strategy_store)
        × (w'.ext.ext ≡ bank))
      (add_subaccount (link base 9) 1 9 strategy unregistered)
unfolding find_subaccount_index
add_strategy-Returns_example =
    add_strategy-Returns base 9 5 (pos 100) 1 unregistered ready refl refl refl refl refl refl

-- ===== src/Vault/Tests/Transfers.antt =====
-- Transfers between the vault (contracts/august-vault/src/contract.rs) and wallets on concrete
-- inputs.
use stellar_upshift_vault_co.Base.{◌≡◌, refl, [], ◌∷◌, arith}
use stellar_upshift_vault_co.Base.Int.{pos, ◌+ℤ◌, ◌-ℤ◌}
use stellar_upshift_vault_co.Soroban.{Address, Outcome, ok, panic, invoke_error, Returns}
use stellar_upshift_vault_co.Vault.State.{Env, World}
use stellar_upshift_vault_co.Vault.Interface.{Token}
use stellar_upshift_vault_co.Soroban.I128.{
  fits, checked, checked_add, checked_sub, i128_max, i128_min,
}
use stellar_upshift_vault_co.Vault.Errors.{Panic}
use stellar_upshift_vault_co.Vault.State.{
  bump_instance, require_auth, require_operator, require_not_paused, set_deployed_assets,
  set_wallet_net_deployed,
}
use stellar_upshift_vault_co.Vault.Pricing.{
  local_balance, add_strategy_balances, query_strategy_balances, total_assets_from,
  custom_total_assets,
}
use stellar_upshift_vault_co.Vault.Subaccounts.{
  find_subaccount_index, require_whitelisted, deposit_to_subaccount, withdraw_from_subaccount, pull,
  book_deposit, book_withdrawal,
}
use stellar_upshift_vault_co.Vault.Interface.Total.{IsSolvent}
use stellar_upshift_vault_co.Vault.Books.{IsDistinct}
use stellar_upshift_vault_co.Vault.Interface.Transfers.{deposit_to-total, withdraw_from-total}
use stellar_upshift_vault_co.Vault.Tests.Bank.{Bank, env, world as wallets}

-- The same surroundings, without other strategies.
abbrev pub base : Env Bank
base = record env { strategy_balance = λ s x. invoke_error }

pub base-Token : (a : Address) → Token base 5 a
base-Token a = record {
  transferred = λ amount x x' h. record { asset = refl; reports = λ c other. refl };
  transferred_from = λ amount x x' h. record { asset = refl; reports = λ c other. refl };
}

abbrev pub after : {X : Type 0} → World X → Outcome Panic (World X) (Unit {0}) → World X
after w (ok a w') = w'
after w (panic p) = w

-- A deposit to a wallet, and a withdrawal from the other, with no strategy on the whitelist.
total_of_wallets : custom_total_assets base wallets ≡ ok (pos 5500) wallets
unfolding custom_total_assets local_balance total_assets_from query_strategy_balances
    add_strategy_balances checked_add checked fits i128_max i128_min ◌+ℤ◌
total_of_wallets = refl

abbrev lent : World Bank
lent = after wallets (deposit_to_subaccount base 2 7 (pos 250) wallets)

lend_returns : deposit_to_subaccount base 2 7 (pos 250) wallets ≡ ok tt lent
unfolding deposit_to_subaccount book_deposit set_deployed_assets set_wallet_net_deployed
    bump_instance require_operator require_auth require_not_paused require_whitelisted
    find_subaccount_index checked_add checked_sub checked fits i128_max i128_min ◌+ℤ◌ ◌-ℤ◌
lend_returns = refl

abbrev repaid : World Bank
repaid = after wallets (withdraw_from_subaccount base 2 8 (pos 40) wallets)

repay_returns : withdraw_from_subaccount base 2 8 (pos 40) wallets ≡ ok tt repaid
unfolding withdraw_from_subaccount pull book_withdrawal set_deployed_assets set_wallet_net_deployed
    bump_instance require_operator require_auth require_not_paused require_whitelisted
    find_subaccount_index checked_add checked_sub checked fits i128_max i128_min ◌+ℤ◌ ◌-ℤ◌
repay_returns = refl

wallets-IsDistinct : IsDistinct (7 ∷ 8 ∷ [])
unfolding find_subaccount_index
wallets-IsDistinct = (refl, (refl, tt))

lent-IsSolvent : IsSolvent base 5 7 lent
unfolding deposit_to_subaccount bump_instance require_operator require_auth require_not_paused
    require_whitelisted find_subaccount_index checked_add checked_sub checked fits i128_max i128_min
    ◌+ℤ◌ ◌-ℤ◌ book_deposit set_deployed_assets set_wallet_net_deployed
lent-IsSolvent = record {
  held_nonneg = λ v h. ground (arith, h);
  answer = λ kind. ground (arith, kind);
}

repaid-IsSolvent : IsSolvent base 5 8 repaid
unfolding withdraw_from_subaccount pull bump_instance require_operator require_auth
    require_not_paused require_whitelisted find_subaccount_index checked_add checked_sub checked
    fits i128_max i128_min ◌+ℤ◌ ◌-ℤ◌ book_withdrawal set_deployed_assets set_wallet_net_deployed
repaid-IsSolvent = record {
  held_nonneg = λ v h. ground (arith, h);
  answer = λ kind. ground (arith, kind);
}

deposit_to-total_example : Returns (λ total' _. total' ≡ pos 5500) (custom_total_assets base lent)
deposit_to-total_example =
    deposit_to-total base 5 7 (base-Token 7) wallets refl 2 (pos 250) (pos 5500) lent tt
      wallets-IsDistinct (omega arith) total_of_wallets lend_returns lent-IsSolvent

withdraw_from-total_example :
    Returns (λ total' _. total' ≡ pos 5500) (custom_total_assets base repaid)
withdraw_from-total_example =
    withdraw_from-total base 5 8 (base-Token 8) wallets refl 2 (pos 40) (pos 5500) repaid tt
      wallets-IsDistinct (omega arith) total_of_wallets repay_returns repaid-IsSolvent

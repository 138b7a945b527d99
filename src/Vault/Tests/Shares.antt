-- ===== src/Vault/Tests/Shares.antt =====
-- The share entry points of contracts/august-vault/src/contract.rs on concrete inputs.
use stellar_upshift_vault_co.Base.{◌≡◌, inr, refl, true, some, ◌==◌, if◌then◌else◌, arith}
use stellar_upshift_vault_co.Base.Int.{pos, ◌+ℤ◌, ◌-ℤ◌}
use stellar_upshift_vault_co.Soroban.{ok, panic, Returns}
use stellar_upshift_vault_co.Soroban.I128.{
  fits, checked, checked_add, checked_pow10, i128_max, i128_min,
}
use stellar_upshift_vault_co.Vault.Errors.{
  error, token_error, vault_paused, vault_exceeded_max_withdraw, vault_exceeded_max_redeem,
}
use stellar_upshift_vault_co.Vault.State.{World}
use stellar_upshift_vault_co.Vault.Pricing.{
  local_balance, add_strategy_balances, query_strategy_balances, total_assets_from,
  custom_total_assets, convert_to_shares_with_total, convert_to_assets_with_total,
  convert_to_shares_with_rounding, preview_deposit, preview_withdraw,
}
use stellar_upshift_vault_co.Vault.Shares.{
  max_deposit, max_mint, max_withdraw, max_redeem, withdrawable, redeemable, deposit, mint,
  withdraw, redeem,
}
use stellar_upshift_vault_co.Vault.Previews.Errors.{
  paused_shares, withdraw-above_max, redeem-above_max,
}
use stellar_upshift_vault_co.Vault.Previews.Success.{share_withdrawal-Returns}
use stellar_upshift_vault_co.Vault.Tests.Bank.{Bank, env, store, bank, world}

-- 5500 in assets stand against 5000000 shares.
deposit_price : preview_deposit env (pos 100) world ≡ ok (pos 90910) world
unfolding preview_deposit convert_to_shares_with_rounding convert_to_shares_with_total
    custom_total_assets local_balance total_assets_from query_strategy_balances
    add_strategy_balances checked_pow10 checked_add checked fits i128_max i128_min ◌+ℤ◌
deposit_price = refl

withdrawal_price : preview_withdraw env (pos 100) world ≡ ok (pos 90911) world
unfolding preview_withdraw convert_to_shares_with_rounding convert_to_shares_with_total
    custom_total_assets local_balance total_assets_from query_strategy_balances
    add_strategy_balances checked_pow10 checked_add checked fits i128_max i128_min ◌+ℤ◌
withdrawal_price = refl

most_assets : max_withdraw env 4 world ≡ ok (pos 4000) world
unfolding max_withdraw withdrawable convert_to_assets_with_total local_balance total_assets_from
    query_strategy_balances add_strategy_balances checked_pow10 checked_add checked fits i128_max
    i128_min ◌+ℤ◌
most_assets = refl

most_shares : max_redeem env 4 world ≡ ok (pos 3636429) world
unfolding max_redeem redeemable convert_to_shares_with_total local_balance total_assets_from
    query_strategy_balances add_strategy_balances checked_pow10 checked_add checked fits i128_max
    i128_min ◌+ℤ◌
most_shares = refl

abbrev stopped : World Bank
stopped = record world { store = record store { paused = some true } }

paused_shares_example :
    (deposit env (pos 100) 4 4 4 stopped ≡ panic (error vault_paused))
    × (mint env (pos 100) 4 4 4 stopped ≡ panic (error vault_paused))
    × (withdraw env (pos 100) 4 4 4 stopped ≡ panic (error vault_paused))
    × (redeem env (pos 100) 4 4 4 stopped ≡ panic (error vault_paused))
    × (max_deposit env 4 stopped ≡ ok (pos 0) stopped)
    × (max_mint env 4 stopped ≡ ok (pos 0) stopped)
    × (max_withdraw env 4 stopped ≡ ok (pos 0) stopped)
    × (max_redeem env 4 stopped ≡ ok (pos 0) stopped)
paused_shares_example = paused_shares env (pos 100) 4 4 4 stopped refl

withdraw-above_max_example :
    withdraw env (pos 4001) 4 4 4 world ≡ panic (token_error vault_exceeded_max_withdraw)
withdraw-above_max_example =
    withdraw-above_max env (pos 4001) (pos 4000) 4 4 4 world refl refl most_assets (omega arith)

redeem-above_max_example :
    redeem env (pos 3636430) 4 4 4 world ≡ panic (token_error vault_exceeded_max_redeem)
redeem-above_max_example =
    redeem-above_max env (pos 3636430) (pos 3636429) 4 4 4 world refl refl most_shares (omega arith)

-- What the payment of 100 leaves.
abbrev paid : Bank
paid = record {
  balances = λ a.
      if a == 0
      then bank.balances a -ℤ pos 100
      else if a == 4
      then bank.balances a +ℤ pos 100
      else bank.balances a;
  supply = pos 5000000 -ℤ pos 90911;
}

share_withdrawal-Returns_example :
    Returns
      (λ r w'. (r ≡ pos 90911) × (w'.ext ≡ paid) × (w'.store ≡ store))
      (withdraw env (pos 100) 4 4 4 world)
share_withdrawal-Returns_example =
    share_withdrawal-Returns env (pos 100) (pos 4000) (pos 90911) 4 4 4 paid world refl refl
      most_assets (omega arith) withdrawal_price (inr (λ e. ground (arith, e))) refl

-- ===== src/Vault/Tests/Prices.antt =====
-- Total assets, conversions and payouts (contracts/august-vault/src/contract.rs) on concrete
-- inputs.
use stellar_upshift_vault_co.Base.{◌-◌, ◌+◌, ◌*◌, ◌/◌, ◌≡◌, ◌≢◌, ◌⊎◌, refl, some, [], ◌∷◌, arith}
use native.Mathlib.Nat.{div-mul-le_self, lt-div-mul-add}
use stellar_upshift_vault_co.Base.Int.{pos, ◌+ℤ◌, ◌≤ℤ◌}
use stellar_upshift_vault_co.Soroban.{Ensures}
use stellar_upshift_vault_co.Soroban.I128.{
  fits, checked, checked_add, checked_pow10, i128_max, i128_min,
}
use stellar_upshift_vault_co.Vault.State.{World}
use stellar_upshift_vault_co.Vault.Pricing.{
  reported_balance, add_strategy_balances, query_strategy_balances, total_assets_from,
  convert_to_shares_with_total, convert_to_assets_with_total,
}
use stellar_upshift_vault_co.Vault.Pricing.Total.{AllAnswer, strategy_sum, total_from-sum}
use stellar_upshift_vault_co.Vault.Pricing.RoundTrip.{
  RoundsDown, RoundsUp, no_free_assets, no_free_shares,
}
use stellar_upshift_vault_co.Vault.Shares.{withdraw}
use stellar_upshift_vault_co.Vault.Payout.{IsPaid, withdraw-IsPaid}
use stellar_upshift_vault_co.Vault.Tests.Bank.{Bank, env, store, bank, world}

-- A whitelist with a strategy that answers 100 beside the two wallets.
abbrev three : World Bank
three = record world { store = record store { subaccounts = some (9 ∷ 7 ∷ 8 ∷ []) } }

total_from-sum_example :
    (three ≡ three)
    × (pos 5600 ≡ pos 4000 +ℤ strategy_sum env three (9 ∷ 7 ∷ 8 ∷ []) +ℤ pos 1500)
    × (pos 0 ≤ℤ pos 5600)
    × AllAnswer env three (9 ∷ 7 ∷ 8 ∷ [])
unfolding total_assets_from query_strategy_balances add_strategy_balances reported_balance
    checked_add checked fits i128_max i128_min ◌+ℤ◌
total_from-sum_example = total_from-sum env (pos 4000) three

env-RoundsDown : RoundsDown env
env-RoundsDown x y d r positive h = (
  x * y / d,
  ground (arith, h),
  div-mul-le_self (x * y) d,
  grind (arith, lt-div-mul-add {a = x * y} {b = d} positive),
)

env-RoundsUp : RoundsUp env
env-RoundsUp x y d r positive h = (
  (x * y + (d - 1)) / d,
  ground (arith, h),
  grind (arith, lt-div-mul-add {a = x * y + (d - 1)} {b = d} positive),
  grind (arith, div-mul-le_self (x * y + (d - 1)) d),
)

-- 909,107 shares for assets at a total of 5500 and a supply of 5,000,000, and back.
no_free_shares_example : pos 999 ≤ℤ pos 1000
unfolding convert_to_assets_with_total checked_pow10 checked_add checked fits i128_max i128_min ◌+ℤ◌
no_free_shares_example =
    no_free_shares env env-RoundsDown env-RoundsUp 909107 5500 5000000 3 (pos 1000) (pos 999) world
      world grown grown refl refl refl refl refl refl
  where
    grown : World Bank
    grown = record world { ext = record bank { supply = pos 5909107 } }

-- 1000 assets for shares at a total of 5500 and a supply of 5,000,000, and back.
no_free_assets_example : pos 999 ≤ℤ pos 1000
unfolding convert_to_shares_with_total convert_to_assets_with_total checked_pow10 checked_add
    checked fits i128_max i128_min ◌+ℤ◌
no_free_assets_example =
    no_free_assets env env-RoundsDown 1000 5500 5000000 3 (pos 909107) (pos 999) world world grown
      grown refl refl refl refl refl refl
  where
    grown : World Bank
    grown = record world { ext = record bank { supply = pos 5909107 } }

withdraw-IsPaid_example :
    Ensures
      (λ shares w'.
        IsPaid env 4 4 4 (pos 300) shares (pos 4000) bank w'.ext
        × ((pos 300 ≤ℤ pos 0) ⊎ (shares ≢ pos 0)))
      (withdraw env (pos 300) 4 4 4 world)
withdraw-IsPaid_example = withdraw-IsPaid env (pos 300) (pos 4000) 4 4 4 5 world refl refl

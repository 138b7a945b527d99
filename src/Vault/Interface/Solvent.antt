-- ===== src/Vault/Interface/Solvent.antt =====
-- When `custom_total_assets` (contracts/august-vault/src/contract.rs) goes through.
use stellar_upshift_vault_co.Base.{◌≡◌, some, List, [], ◌∷◌, arith}
use stellar_upshift_vault_co.Base.Int.{ℤ, pos, ◌≤ℤ◌, ◌+ℤ◌, +ℤ_parts, +ℤ_assoc, +ℤ_zero, zero_+ℤ}
use stellar_upshift_vault_co.Soroban.{Address, value, Returns}
use stellar_upshift_vault_co.Soroban.I128.{checked_add, checked, fits, i128_max, i128_min}
use stellar_upshift_vault_co.Vault.Storage.{get_subaccounts, get_deployed_assets}
use stellar_upshift_vault_co.Vault.State.{Env, World}
use stellar_upshift_vault_co.Vault.Pricing.{
  local_balance, reported_balance, add_strategy_balances, query_strategy_balances,
  total_assets_from, custom_total_assets,
}
use stellar_upshift_vault_co.Vault.Pricing.Total.{answered, strategy_sum, AllAnswer}

sum_in_range :
    (l m : ℤ) → pos 0 ≤ℤ l → pos 0 ≤ℤ m → l +ℤ m ≤ℤ i128_max → checked_add l m ≡ some (l +ℤ m)
unfolding checked_add checked fits i128_min
sum_in_range l m h k r = ground (arith, +ℤ_parts l m)

sum_nonneg : (l m : ℤ) → pos 0 ≤ℤ l → pos 0 ≤ℤ m → pos 0 ≤ℤ l +ℤ m
sum_nonneg l m h k = ground (arith, +ℤ_parts l m)

first_in_range : (l m : ℤ) → pos 0 ≤ℤ m → l +ℤ m ≤ℤ i128_max → l ≤ℤ i128_max
first_in_range l m h k = ground (arith, +ℤ_parts l m)

module _ {X : Type 0} (e : Env X) where
  strategies_nonneg :
      (w : World X) (subs : List Address) → AllAnswer e w subs → pos 0 ≤ℤ strategy_sum e w subs
  strategies_nonneg w [] h = omega arith
  strategies_nonneg w (sub ∷ subs) h = ground (
    arith,
    strategies_nonneg w subs h.1,
    h.0,
    zero_+ℤ (strategy_sum e w subs),
    sum_nonneg (answered (e.strategy_balance sub w.ext)) (strategy_sum e w subs),
  )

  add_strategies-Returns :
      (subs : List Address) (total : ℤ) (w : World X)
      → pos 0 ≤ℤ total
      → AllAnswer e w subs
      → total +ℤ strategy_sum e w subs ≤ℤ i128_max
      → Returns
          (λ r w'. (r ≡ total +ℤ strategy_sum e w subs) × (w' ≡ w))
          (add_strategy_balances e subs total w)
  unfolding add_strategy_balances reported_balance
  add_strategies-Returns [] total w h a r = ground (arith, +ℤ_zero total)
  add_strategies-Returns (sub ∷ subs) total w h a r =
      let b = answered (e.strategy_balance sub w.ext) in
      let rest = strategy_sum e w subs in
      ground (
        arith,
        a.0,
        strategies_nonneg w subs a.1,
        zero_+ℤ rest,
        +ℤ_assoc total b rest,
        first_in_range (total +ℤ b) rest,
        sum_in_range total b,
        sum_nonneg total b,
        add_strategies-Returns subs total w,
        add_strategies-Returns subs (total +ℤ b) w,
      )

  -- The total is returned where the parts are known, not negative and add up within range.
  pub total-Returns :
      (asset : Address) (local : ℤ) (w : World X)
      → e.query_asset w.ext ≡ some asset
      → e.token_balance asset e.current_contract_address w.ext ≡ value local
      → pos 0 ≤ℤ local
      → AllAnswer e w (get_subaccounts w.store)
      → pos 0 ≤ℤ get_deployed_assets w.store
      → local +ℤ strategy_sum e w (get_subaccounts w.store) +ℤ get_deployed_assets w.store
        ≤ℤ i128_max
      → Returns
          (λ total _.
            total
            ≡ local +ℤ strategy_sum e w (get_subaccounts w.store) +ℤ get_deployed_assets w.store)
          (custom_total_assets e w)
  unfolding custom_total_assets local_balance total_assets_from query_strategy_balances
  total-Returns asset local w asset_eq local_eq nonneg answers deployed_nonneg range =
      let s = strategy_sum e w (get_subaccounts w.store) in
      let d = get_deployed_assets w.store in
      let s_nonneg = strategies_nonneg w (get_subaccounts w.store) answers in
      let ls = first_in_range (local +ℤ s) d deployed_nonneg range in
      let s_range : s ≤ℤ i128_max = ground (arith, ls, nonneg, +ℤ_parts local s) in
      ground (
        arith,
        asset_eq,
        local_eq,
        add_strategies-Returns (get_subaccounts w.store) (pos 0) w,
        answers,
        zero_+ℤ s,
        s_range,
        sum_in_range local s nonneg s_nonneg ls,
        sum_in_range (local +ℤ s) d (sum_nonneg local s nonneg s_nonneg) deployed_nonneg range,
        sum_nonneg (local +ℤ s) d (sum_nonneg local s nonneg s_nonneg) deployed_nonneg,
      )

-- ===== src/Vault/Pricing/Total.antt =====
-- What `total_assets_from` (contracts/august-vault/src/contract.rs) adds up.
use stellar_upshift_vault_co.Base.{◌≡◌, ◌⊎◌, List, [], ◌∷◌, arith, if◌then◌else◌}
use stellar_upshift_vault_co.Base.Int.{+ℤ_assoc, zero_+ℤ, +ℤ_zero, ℤ, pos, ◌+ℤ◌, ◌≤ℤ◌}
use stellar_upshift_vault_co.Soroban.{Address, Probe, value, convert_error, invoke_error, Ensures}
use stellar_upshift_vault_co.Soroban.I128.{checked_add, checked}
use stellar_upshift_vault_co.Vault.Storage.{
  wallet, is_strategy, get_subaccounts, get_subaccount_type, get_deployed_assets,
}
use stellar_upshift_vault_co.Vault.State.{Env, World}
use stellar_upshift_vault_co.Vault.Pricing.{
  reported_balance, add_strategy_balances, query_strategy_balances, total_assets_from,
}

-- The balance in a strategy's answer.
abbrev pub answered : Probe → ℤ
answered (value b) = b
answered convert_error = pos 0
answered invoke_error = pos 0

-- The sum of the answers of the strategies of a whitelist.
abbrev pub strategy_sum : {X : Type 0} → Env X → World X → List Address → ℤ
strategy_sum e w [] = pos 0
strategy_sum e w (sub ∷ subs) =
    (if is_strategy (get_subaccount_type w.store sub)
      then answered (e.strategy_balance sub w.ext)
      else pos 0)
    +ℤ strategy_sum e w subs

-- Every strategy of a whitelist answers, with a balance that is not negative.
abbrev pub AllAnswer : {X : Type 0} → Env X → World X → List Address → Type 0
AllAnswer e w [] = Unit
AllAnswer e w (sub ∷ subs) =
    ((get_subaccount_type w.store sub ≡ wallet)
      ⊎ ((e.strategy_balance sub w.ext ≡ value (answered (e.strategy_balance sub w.ext)))
          × (pos 0 ≤ℤ answered (e.strategy_balance sub w.ext))))
    × AllAnswer e w subs

module _ {X : Type 0} (e : Env X) where
  add_strategies-sum :
      (subs : List Address) (total : ℤ) (w : World X)
      → Ensures
          (λ r w'. (w' ≡ w) × (r ≡ total +ℤ strategy_sum e w subs) × AllAnswer e w subs)
          (add_strategy_balances e subs total w)
  unfolding add_strategy_balances reported_balance checked_add checked
  add_strategies-sum [] total w = ground (arith, +ℤ_zero total)
  add_strategies-sum (sub ∷ subs) total w =
      let b = answered (e.strategy_balance sub w.ext) in
      let rest = strategy_sum e w subs in
      ground (
        arith,
        add_strategies-sum subs total w,
        add_strategies-sum subs (total +ℤ b) w,
        +ℤ_assoc total b rest,
        zero_+ℤ rest,
      )

  -- A total that is returned is the local balance, plus the answers of the whitelisted strategies,
  -- plus `deployed_assets`, and is not negative; and every whitelisted strategy answered with a
  -- balance that is not negative.
  pub total_from-sum :
      (local : ℤ) (w : World X)
      → Ensures
          (λ total w'.
            (w' ≡ w)
            × (total
                ≡ local
                  +ℤ strategy_sum e w (get_subaccounts w.store)
                  +ℤ get_deployed_assets w.store)
            × (pos 0 ≤ℤ total)
            × AllAnswer e w (get_subaccounts w.store))
          (total_assets_from e local w)
  unfolding total_assets_from query_strategy_balances checked_add checked
  total_from-sum local w = ground (
    arith,
    add_strategies-sum (get_subaccounts w.store) (pos 0) w,
    zero_+ℤ (strategy_sum e w (get_subaccounts w.store)),
  )

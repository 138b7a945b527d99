-- ===== src/Vault/Pricing/Views.antt =====
-- The views of contracts/august-vault/src/contract.rs change nothing.
use stellar_upshift_vault_co.Base.{◌≡◌, refl, List, [], ◌∷◌, arith}
use stellar_upshift_vault_co.Base.Int.{ℤ, pos}
use stellar_upshift_vault_co.Soroban.{Address, Ensures, Probe}
use stellar_upshift_vault_co.Vault.Storage.{get_subaccounts}
use stellar_upshift_vault_co.Vault.State.{Env, World, Rounding}
use stellar_upshift_vault_co.Vault.Pricing.{
  local_balance, reported_balance, add_strategy_balances, query_strategy_balances,
  total_assets_from, custom_total_assets, convert_to_shares_with_total,
  convert_to_assets_with_total, convert_to_shares_with_rounding, convert_to_assets_with_rounding,
}

module _ {X : Type 0} (e : Env X) where
  reported-same : (p : Probe) (w : World X) → Ensures (λ _ w'. w' ≡ w) (reported_balance e p w)
  unfolding reported_balance
  reported-same p w = ground arith

  pub add_strategies-same :
      (subs : List Address) (total : ℤ) (w : World X)
      → Ensures (λ _ w'. w' ≡ w) (add_strategy_balances e subs total w)
  unfolding add_strategy_balances
  add_strategies-same [] total w = refl
  add_strategies-same (sub ∷ subs) total w = grind (arith, add_strategies-same subs, reported-same)

  pub local_balance-same : (w : World X) → Ensures (λ _ w'. w' ≡ w) (local_balance e w)
  unfolding local_balance
  local_balance-same w = ground arith

  pub query-same : (w : World X) → Ensures (λ _ w'. w' ≡ w) (query_strategy_balances e w)
  unfolding query_strategy_balances
  query-same w = ground (arith, add_strategies-same (get_subaccounts w.store) (pos 0) w)

  pub total_from-same :
      (local : ℤ) (w : World X) → Ensures (λ _ w'. w' ≡ w) (total_assets_from e local w)
  unfolding total_assets_from
  total_from-same local w = ground (arith, query-same w)

  pub custom_total-same : (w : World X) → Ensures (λ _ w'. w' ≡ w) (custom_total_assets e w)
  unfolding custom_total_assets
  custom_total-same w = grind (arith, local_balance-same, total_from-same)

  pub shares_with_total-same :
      (assets total : ℤ) (r : Rounding) (w : World X)
      → Ensures (λ _ w'. w' ≡ w) (convert_to_shares_with_total e assets total r w)
  unfolding convert_to_shares_with_total
  shares_with_total-same assets total r w = ground arith

  pub assets_with_total-same :
      (shares total : ℤ) (r : Rounding) (w : World X)
      → Ensures (λ _ w'. w' ≡ w) (convert_to_assets_with_total e shares total r w)
  unfolding convert_to_assets_with_total
  assets_with_total-same shares total r w = ground arith

  pub shares-same :
      (assets : ℤ) (r : Rounding) (w : World X)
      → Ensures (λ _ w'. w' ≡ w) (convert_to_shares_with_rounding e assets r w)
  unfolding convert_to_shares_with_rounding
  shares-same assets r w = grind (arith, custom_total-same, shares_with_total-same)

  pub assets-same :
      (shares : ℤ) (r : Rounding) (w : World X)
      → Ensures (λ _ w'. w' ≡ w) (convert_to_assets_with_rounding e shares r w)
  unfolding convert_to_assets_with_rounding
  assets-same shares r w = grind (arith, custom_total-same, assets_with_total-same)

-- ===== src/Vault/Previews/Prices.antt =====
-- The prices of contracts/august-vault/src/contract.rs do not depend on the instance's TTL, which
-- every entry point raises first.
use stellar_upshift_vault_co.Base.{ℕ, ◌≡◌, refl, List, [], ◌∷◌, arith}
use stellar_upshift_vault_co.Base.Int.{ℤ, pos, ◌+ℤ◌}
use stellar_upshift_vault_co.Soroban.{Address, Outcome, ok, panic}
use stellar_upshift_vault_co.Soroban.I128.{checked_add}
use stellar_upshift_vault_co.Vault.Errors.{Panic}
use stellar_upshift_vault_co.Vault.Storage.{get_subaccounts}
use stellar_upshift_vault_co.Vault.State.{Env, World, Rounding}
use stellar_upshift_vault_co.Vault.Pricing.Total.{answered}
use stellar_upshift_vault_co.Vault.Pricing.{
  local_balance, reported_balance, add_strategy_balances, query_strategy_balances,
  total_assets_from, custom_total_assets, convert_to_shares_with_total,
  convert_to_assets_with_total, convert_to_shares_with_rounding, convert_to_assets_with_rounding,
}

module _ {X : Type 0} (ttl : ℕ) where
  abbrev pub raised : World X → World X
  raised w = record w { ttl = ttl }

  -- The same outcome, at another TTL.
  abbrev pub raise : {A : Type 0} → Outcome Panic (World X) A → Outcome Panic (World X) A
  raise (ok a w) = ok a (raised w)
  raise (panic p) = panic p

module _ {X : Type 0} (e : Env X) (ttl : ℕ) where
  add_strategies-raised :
      (subs : List Address) (total : ℤ) (w : World X)
      → add_strategy_balances e subs total (raised ttl w)
        ≡ raise ttl (add_strategy_balances e subs total w)
  unfolding add_strategy_balances reported_balance checked_add
  add_strategies-raised [] total w = refl
  add_strategies-raised (sub ∷ subs) total w = ground (
    arith,
    add_strategies-raised subs total w,
    add_strategies-raised subs (total +ℤ answered (e.strategy_balance sub w.ext)) w,
  )

  pub local-raised : (w : World X) → local_balance e (raised ttl w) ≡ raise ttl (local_balance e w)
  unfolding local_balance
  local-raised w = ground arith

  pub total_from-raised :
      (local : ℤ) (w : World X)
      → total_assets_from e local (raised ttl w) ≡ raise ttl (total_assets_from e local w)
  unfolding total_assets_from query_strategy_balances
  total_from-raised local w =
      ground (arith, add_strategies-raised (get_subaccounts w.store) (pos 0) w)

  pub shares_with_total-raised :
      (assets total : ℤ) (r : Rounding) (w : World X)
      → convert_to_shares_with_total e assets total r (raised ttl w)
        ≡ raise ttl (convert_to_shares_with_total e assets total r w)
  unfolding convert_to_shares_with_total
  shares_with_total-raised assets total r w = ground arith

  pub assets_with_total-raised :
      (shares total : ℤ) (r : Rounding) (w : World X)
      → convert_to_assets_with_total e shares total r (raised ttl w)
        ≡ raise ttl (convert_to_assets_with_total e shares total r w)
  unfolding convert_to_assets_with_total
  assets_with_total-raised shares total r w = ground arith

  custom_total-raised :
      (w : World X) → custom_total_assets e (raised ttl w) ≡ raise ttl (custom_total_assets e w)
  unfolding custom_total_assets local_balance
  custom_total-raised w = grind (arith, total_from-raised)

  pub shares-raised :
      (assets : ℤ) (r : Rounding) (w : World X)
      → convert_to_shares_with_rounding e assets r (raised ttl w)
        ≡ raise ttl (convert_to_shares_with_rounding e assets r w)
  unfolding convert_to_shares_with_rounding
  shares-raised assets r w = grind (arith, custom_total-raised, shares_with_total-raised)

  pub assets-raised :
      (shares : ℤ) (r : Rounding) (w : World X)
      → convert_to_assets_with_rounding e shares r (raised ttl w)
        ≡ raise ttl (convert_to_assets_with_rounding e shares r w)
  unfolding convert_to_assets_with_rounding
  assets-raised shares r w = grind (arith, custom_total-raised, assets_with_total-raised)

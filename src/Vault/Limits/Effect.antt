-- ===== src/Vault/Limits/Effect.antt =====
-- What a successful `apply_deployed_assets_change` (contracts/august-vault/src/contract.rs) does to
-- the storage.
use stellar_upshift_vault_co.Base.{◌≡◌, Bool, some, arith}
use stellar_upshift_vault_co.Base.Int.{ℤ, pos, ◌≤ℤ◌}
use stellar_upshift_vault_co.Soroban.{Address, Ensures}
use stellar_upshift_vault_co.Soroban.I128.{checked_add, checked_mul}
use stellar_upshift_vault_co.Vault.Storage.{Storage}
use stellar_upshift_vault_co.Vault.State.{Env, World, set_deployed_assets}
use stellar_upshift_vault_co.Vault.Frame.{SameBooks}
use stellar_upshift_vault_co.Vault.Pricing.{local_balance}
use stellar_upshift_vault_co.Vault.Limits.{
  require_within_bps_limit, accumulate, check_aum_cumulative_limit, check_aum_rate_limit,
  limit_increase, limit_decrease, apply_deployed_assets_change,
}

-- The aggregate takes the new value, and the rest of the books stays.
pub record Applied (new : ℤ) (s s' : Storage) : Type 0 where
  pub subaccounts : s'.subaccounts ≡ s.subaccounts
  pub subaccount_types : s'.subaccount_types ≡ s.subaccount_types
  pub wallet_net_deployed : s'.wallet_net_deployed ≡ s.wallet_net_deployed
  pub deployed_assets : s'.deployed_assets ≡ some new
  pub nonneg : pos 0 ≤ℤ new

module _ {X : Type 0} (e : Env X) where
  check-SameBooks :
      (d old : ℤ) (up : Bool) (w : World X)
      → Ensures (λ _ w'. SameBooks w.store w'.store) (check_aum_cumulative_limit e d old up w)
  unfolding check_aum_cumulative_limit accumulate require_within_bps_limit checked_mul checked_add
  check-SameBooks d old up w = ground arith

  limit_increase-SameBooks :
      (old new : ℤ) (w : World X)
      → Ensures (λ _ w'. SameBooks w.store w'.store) (limit_increase e old new w)
  unfolding limit_increase check_aum_rate_limit require_within_bps_limit
  limit_increase-SameBooks old new w = grind (arith, check-SameBooks)

  limit_decrease-SameBooks :
      (old new : ℤ) (w : World X)
      → Ensures (λ _ w'. SameBooks w.store w'.store) (limit_decrease e old new w)
  unfolding limit_decrease check_aum_rate_limit require_within_bps_limit
  limit_decrease-SameBooks old new w = grind (arith, check-SameBooks)

  pub apply-Applied :
      (actor : Address) (old new : ℤ) (w : World X)
      → Ensures
          (λ _ w'. Applied new w.store w'.store)
          (apply_deployed_assets_change e actor old new w)
  unfolding apply_deployed_assets_change set_deployed_assets local_balance
  apply-Applied actor old new w =
      ground (arith, limit_increase-SameBooks old new w, limit_decrease-SameBooks old new w)

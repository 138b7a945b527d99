-- ===== src/Vault/Payout.antt =====
-- What `withdraw` and `redeem` (contracts/august-vault/src/contract.rs) pay out.
use stellar_upshift_vault_co.Base.{◌≡◌, ◌≢◌, ◌⊎◌, some, arith}
use stellar_upshift_vault_co.Base.Int.{ℤ, pos, ◌≤ℤ◌}
use stellar_upshift_vault_co.Soroban.{Address, value, Ensures}
use stellar_upshift_vault_co.Vault.State.{
  Env, World, bump_instance, require_auth, require_not_paused,
}
use stellar_upshift_vault_co.Vault.Pricing.{local_balance}
use stellar_upshift_vault_co.Vault.Pricing.Views.{
  total_from-same, shares_with_total-same, assets_with_total-same,
}
use stellar_upshift_vault_co.Vault.Shares.{withdrawable, withdraw}

-- The vault library moves `assets` for `shares`, and the vault holds the assets.
pub record IsPaid {X : Type 0} (e : Env X) (receiver owner operator : Address)
    (assets shares local : ℤ) (x x' : X) : Type 0 where
  pub moved : e.withdraw_internal receiver owner assets shares operator x ≡ some x'
  pub held : assets ≤ℤ local

module _ {X : Type 0} (e : Env X) where
  withdrawable-local :
      (owner : Address) (local total : ℤ) (w : World X)
      → Ensures (λ most w'. (w' ≡ w) × (most ≤ℤ local)) (withdrawable e owner local total w)
  unfolding withdrawable
  withdrawable-local owner local total w = grind (arith, assets_with_total-same)

  -- Where the vault's asset is set and answers `local` for the vault's balance, a withdrawal that
  -- returns makes the share ledger exchange the returned shares for the assets asked for, which are
  -- at most `local`, and a positive amount costs a number of shares that is not 0.
  pub withdraw-IsPaid :
      (assets local : ℤ) (receiver owner operator asset : Address) (w : World X)
      → e.query_asset w.ext ≡ some asset
      → e.token_balance asset e.current_contract_address w.ext ≡ value local
      → Ensures
          (λ shares w'.
            IsPaid e receiver owner operator assets shares local w.ext w'.ext
            × ((assets ≤ℤ pos 0) ⊎ (shares ≢ pos 0)))
          (withdraw e assets receiver owner operator w)
  unfolding withdraw bump_instance require_auth require_not_paused local_balance
  withdraw-IsPaid assets local receiver owner operator asset w asset_eq local_eq =
      grind (arith, asset_eq, local_eq, total_from-same, withdrawable-local, shares_with_total-same)

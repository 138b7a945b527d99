-- ===== src/Vault/Previews/Success.antt =====
-- When the share entry points of contracts/august-vault/src/contract.rs go through.
use stellar_upshift_vault_co.Base.{◌≡◌, ◌≢◌, ◌⊎◌, true, false, some, arith}
use stellar_upshift_vault_co.Base.Int.{ℤ, pos, ◌≤ℤ◌}
use stellar_upshift_vault_co.Soroban.{Address, ok, Returns}
use stellar_upshift_vault_co.Vault.Storage.{is_paused}
use stellar_upshift_vault_co.Vault.State.{
  Env, World, bump_instance, require_auth, require_not_paused,
}
use stellar_upshift_vault_co.Vault.Pricing.{
  preview_withdraw, custom_total_assets, convert_to_shares_with_rounding,
}
use stellar_upshift_vault_co.Vault.Pricing.Views.{total_from-same, local_balance-same}
use stellar_upshift_vault_co.Vault.Shares.{max_withdraw, withdraw}
use stellar_upshift_vault_co.Vault.Previews.Prices.{
  local-raised, total_from-raised, shares_with_total-raised,
}
use stellar_upshift_vault_co.Vault.Previews.Errors.{withdrawable-raised}

module _ {X : Type 0} (e : Env X) where
  -- A withdrawal goes through where the vault is not paused, the operator has authorized it,
  -- `max_withdraw` answers at least the amount for the owner, `preview_withdraw` answers a number of
  -- shares that is not 0 if the amount is positive, and the share ledger makes the exchange. It costs
  -- those shares and leaves the vault's own storage.
  pub share_withdrawal-Returns :
      (assets most shares : ℤ) (receiver owner operator : Address) (x : X) (w : World X)
      → is_paused w.store ≡ false
      → e.authorized operator ≡ true
      → max_withdraw e owner w ≡ ok most w
      → assets ≤ℤ most
      → preview_withdraw e assets w ≡ ok shares w
      → (assets ≤ℤ pos 0) ⊎ (shares ≢ pos 0)
      → e.withdraw_internal receiver owner assets shares operator w.ext ≡ some x
      → Returns
          (λ r w'. (r ≡ shares) × (w'.ext ≡ x) × (w'.store ≡ w.store))
          (withdraw e assets receiver owner operator w)
  unfolding withdraw bump_instance require_auth require_not_paused max_withdraw preview_withdraw
      convert_to_shares_with_rounding custom_total_assets
  share_withdrawal-Returns assets most shares receiver owner operator x w running signed limit
        within answer some_shares moved =
      let ttl = e.extend_ttl e.instance_ttl_threshold e.instance_extend_amount w.ttl in
      grind (
        arith,
        local-raised e ttl,
        total_from-raised e ttl,
        withdrawable-raised e ttl,
        shares_with_total-raised e ttl,
        local_balance-same e,
        total_from-same e,
      )

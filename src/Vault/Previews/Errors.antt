-- ===== src/Vault/Previews/Errors.antt =====
-- Which errors the share entry points of contracts/august-vault/src/contract.rs end with.
use stellar_upshift_vault_co.Base.{◌≡◌, true, false, arith}
use stellar_upshift_vault_co.Base.Int.{ℤ, pos, ◌<ℤ◌}
use stellar_upshift_vault_co.Soroban.{Address, ok, panic}
use stellar_upshift_vault_co.Vault.Errors.{
  error, token_error, vault_paused, vault_exceeded_max_withdraw, vault_exceeded_max_redeem,
}
use stellar_upshift_vault_co.Vault.Storage.{is_paused}
use stellar_upshift_vault_co.Vault.State.{
  Env, World, bump_instance, require_auth, require_not_paused,
}
use stellar_upshift_vault_co.Vault.Pricing.Views.{total_from-same, local_balance-same}
use stellar_upshift_vault_co.Vault.Shares.{
  max_deposit, max_mint, max_withdraw, max_redeem, withdrawable, redeemable, deposit, mint,
  withdraw, redeem,
}
use stellar_upshift_vault_co.Vault.Previews.Prices.{
  raised, raise, local-raised, total_from-raised, assets_with_total-raised,
  shares_with_total-raised,
}

module _ {X : Type 0} (e : Env X) where
  -- While the vault is paused, the four entry points of ERC-4626 end with the error `VaultPaused`,
  -- whoever asks, and `max_deposit`, `max_mint`, `max_withdraw` and `max_redeem` answer 0.
  pub paused_shares :
      (amount : ℤ) (receiver owner operator : Address) (w : World X)
      → is_paused w.store ≡ true
      → (deposit e amount receiver owner operator w ≡ panic (error vault_paused))
        × (mint e amount receiver owner operator w ≡ panic (error vault_paused))
        × (withdraw e amount receiver owner operator w ≡ panic (error vault_paused))
        × (redeem e amount receiver owner operator w ≡ panic (error vault_paused))
        × (max_deposit e receiver w ≡ ok (pos 0) w)
        × (max_mint e receiver w ≡ ok (pos 0) w)
        × (max_withdraw e owner w ≡ ok (pos 0) w)
        × (max_redeem e owner w ≡ ok (pos 0) w)
  unfolding deposit mint withdraw redeem max_deposit max_mint max_withdraw max_redeem bump_instance
      require_not_paused
  paused_shares amount receiver owner operator w paused = ground (arith, paused)

  pub withdrawable-raised :
      (ttl : _) (owner : Address) (local total : ℤ) (w : World X)
      → withdrawable e owner local total (raised ttl w)
        ≡ raise ttl (withdrawable e owner local total w)
  unfolding withdrawable
  withdrawable-raised ttl owner local total w = grind (arith, assets_with_total-raised e ttl)

  pub redeemable-raised :
      (ttl : _) (owner : Address) (local total : ℤ) (w : World X)
      → redeemable e owner local total (raised ttl w) ≡ raise ttl (redeemable e owner local total w)
  unfolding redeemable
  redeemable-raised ttl owner local total w = grind (arith, shares_with_total-raised e ttl)

  -- A withdrawal of more than `max_withdraw` answers for the owner ends with the library's error for
  -- that, where the vault is not paused and the operator has authorized it.
  pub withdraw-above_max :
      (assets most : ℤ) (receiver owner operator : Address) (w : World X)
      → is_paused w.store ≡ false
      → e.authorized operator ≡ true
      → max_withdraw e owner w ≡ ok most w
      → most <ℤ assets
      → withdraw e assets receiver owner operator w
        ≡ panic (token_error vault_exceeded_max_withdraw)
  unfolding withdraw max_withdraw bump_instance require_auth require_not_paused
  withdraw-above_max assets most receiver owner operator w running signed answer above =
      let ttl = e.extend_ttl e.instance_ttl_threshold e.instance_extend_amount w.ttl in
      grind (
        arith,
        local-raised e ttl,
        total_from-raised e ttl,
        withdrawable-raised ttl,
        local_balance-same e,
        total_from-same e,
      )

  -- Likewise a redemption of more than `max_redeem` answers.
  pub redeem-above_max :
      (shares most : ℤ) (receiver owner operator : Address) (w : World X)
      → is_paused w.store ≡ false
      → e.authorized operator ≡ true
      → max_redeem e owner w ≡ ok most w
      → most <ℤ shares
      → redeem e shares receiver owner operator w ≡ panic (token_error vault_exceeded_max_redeem)
  unfolding redeem max_redeem bump_instance require_auth require_not_paused
  redeem-above_max shares most receiver owner operator w running signed answer above =
      let ttl = e.extend_ttl e.instance_ttl_threshold e.instance_extend_amount w.ttl in
      grind (
        arith,
        local-raised e ttl,
        total_from-raised e ttl,
        redeemable-raised ttl,
        local_balance-same e,
        total_from-same e,
      )

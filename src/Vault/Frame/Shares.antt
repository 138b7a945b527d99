-- ===== src/Vault/Frame/Shares.antt =====
-- The share token and the ERC-4626 entry points of contracts/august-vault/src/contract.rs write
-- nothing to the vault's own storage.
use stellar_upshift_vault_co.Base.{ℕ, ◌≡◌, arith}
use stellar_upshift_vault_co.Base.Int.{ℤ}
use stellar_upshift_vault_co.Soroban.{Address, Ensures}
use stellar_upshift_vault_co.Vault.State.{
  Env, World, bump_instance, require_auth, require_not_paused,
}
use stellar_upshift_vault_co.Vault.Pricing.{preview_deposit, preview_mint}
use stellar_upshift_vault_co.Vault.Pricing.Views.{
  local_balance-same, total_from-same, shares_with_total-same, assets_with_total-same, shares-same,
  assets-same,
}
use stellar_upshift_vault_co.Vault.Shares.{
  transfer, transfer_from, approve, max_deposit, max_mint, withdrawable, redeemable, deposit, mint,
  withdraw, redeem,
}

module _ {X : Type 0} (e : Env X) where
  withdrawable-same :
      (owner : Address) (local total : ℤ) (w : World X)
      → Ensures (λ _ w'. w' ≡ w) (withdrawable e owner local total w)
  unfolding withdrawable
  withdrawable-same owner local total w = grind (arith, assets_with_total-same)

  redeemable-same :
      (owner : Address) (local total : ℤ) (w : World X)
      → Ensures (λ _ w'. w' ≡ w) (redeemable e owner local total w)
  unfolding redeemable
  redeemable-same owner local total w = grind (arith, shares_with_total-same)

module _ {X : Type 0} (e : Env X) (w : World X) where
  pub transfer-same :
      (from to : Address) (amount : ℤ)
      → Ensures (λ _ w'. w'.store ≡ w.store) (transfer e from to amount w)
  unfolding transfer bump_instance
  transfer-same from to amount = ground arith

  pub transfer_from-same :
      (spender from to : Address) (amount : ℤ)
      → Ensures (λ _ w'. w'.store ≡ w.store) (transfer_from e spender from to amount w)
  unfolding transfer_from bump_instance
  transfer_from-same spender from to amount = ground arith

  pub approve-same :
      (owner spender : Address) (amount : ℤ) (live_until : ℕ)
      → Ensures (λ _ w'. w'.store ≡ w.store) (approve e owner spender amount live_until w)
  unfolding approve bump_instance
  approve-same owner spender amount live_until = ground arith

  pub deposit-same :
      (assets : ℤ) (receiver from operator : Address)
      → Ensures (λ _ w'. w'.store ≡ w.store) (deposit e assets receiver from operator w)
  unfolding deposit bump_instance require_auth require_not_paused max_deposit preview_deposit
  deposit-same assets receiver from operator = grind (arith, shares-same)

  pub mint-same :
      (shares : ℤ) (receiver from operator : Address)
      → Ensures (λ _ w'. w'.store ≡ w.store) (mint e shares receiver from operator w)
  unfolding mint bump_instance require_auth require_not_paused max_mint preview_mint
  mint-same shares receiver from operator = grind (arith, assets-same)

  pub withdraw-same :
      (assets : ℤ) (receiver owner operator : Address)
      → Ensures (λ _ w'. w'.store ≡ w.store) (withdraw e assets receiver owner operator w)
  unfolding withdraw bump_instance require_auth require_not_paused
  withdraw-same assets receiver owner operator =
      grind (arith, local_balance-same, total_from-same, withdrawable-same, shares_with_total-same)

  pub redeem-same :
      (shares : ℤ) (receiver owner operator : Address)
      → Ensures (λ _ w'. w'.store ≡ w.store) (redeem e shares receiver owner operator w)
  unfolding redeem bump_instance require_auth require_not_paused
  redeem-same shares receiver owner operator =
      grind (arith, local_balance-same, total_from-same, redeemable-same, assets_with_total-same)

-- ===== src/Vault/Access/Operations.antt =====
-- The permission that each operation of contracts/august-vault/src/contract.rs checks.
use stellar_upshift_vault_co.Base.{ℕ, arith}
use stellar_upshift_vault_co.Base.Int.{ℤ}
use stellar_upshift_vault_co.Soroban.{Address, Ensures}
use stellar_upshift_vault_co.Vault.Storage.{SubaccountType}
use stellar_upshift_vault_co.Vault.State.{
  Env, World, bump_instance, require_admin, require_operator, require_auth, require_not_paused,
}
use stellar_upshift_vault_co.Vault.Admin
use stellar_upshift_vault_co.Vault.Subaccounts
use stellar_upshift_vault_co.Vault.Wallets
use stellar_upshift_vault_co.Vault.Wallets.{require_co_operator}
use stellar_upshift_vault_co.Vault.Batch
use stellar_upshift_vault_co.Vault.Batch.{Updates}
use stellar_upshift_vault_co.Vault.Shares
use stellar_upshift_vault_co.Vault.Entry.{Request}
use stellar_upshift_vault_co.Vault.Access.{IsPermitted}

module _ {X : Type 0} (e : Env X) (w : World X) where
  pub accept_admin-IsPermitted :
      Ensures (λ _ _. IsPermitted e w.store Request.accept_admin) (Admin.accept_admin e w)
  unfolding Admin.accept_admin bump_instance require_auth
  accept_admin-IsPermitted = ground arith

  pub propose_admin-IsPermitted :
      (a : Address) (b : Address) (t : ℕ)
      → Ensures
          (λ _ _. IsPermitted e w.store (Request.propose_admin a b t))
          (Admin.propose_admin e a b t w)
  unfolding Admin.propose_admin bump_instance require_admin require_operator
  propose_admin-IsPermitted a b t = ground arith

  pub cancel_admin_proposal-IsPermitted :
      (a : Address)
      → Ensures
          (λ _ _. IsPermitted e w.store (Request.cancel_admin_proposal a))
          (Admin.cancel_admin_proposal e a w)
  unfolding Admin.cancel_admin_proposal bump_instance require_admin require_operator
  cancel_admin_proposal-IsPermitted a = ground arith

  pub pause-IsPermitted :
      (a : Address) → Ensures (λ _ _. IsPermitted e w.store (Request.pause a)) (Admin.pause e a w)
  unfolding Admin.pause bump_instance require_admin require_operator
  pause-IsPermitted a = ground arith

  pub unpause-IsPermitted :
      (a : Address)
      → Ensures (λ _ _. IsPermitted e w.store (Request.unpause a)) (Admin.unpause e a w)
  unfolding Admin.unpause bump_instance require_admin require_operator
  unpause-IsPermitted a = ground arith

  pub set_operator-IsPermitted :
      (a : Address) (b : Address)
      → Ensures
          (λ _ _. IsPermitted e w.store (Request.set_operator a b))
          (Admin.set_vault_operator e a b w)
  unfolding Admin.set_vault_operator bump_instance require_admin require_operator
  set_operator-IsPermitted a b = ground arith

  pub set_aum_limits-IsPermitted :
      (a : Address) (t : ℕ) (u : ℕ)
      → Ensures
          (λ _ _. IsPermitted e w.store (Request.set_aum_limits a t u))
          (Admin.set_aum_limits e a t u w)
  unfolding Admin.set_aum_limits bump_instance require_admin require_operator
  set_aum_limits-IsPermitted a t u = ground arith

  pub set_aum_window_limits-IsPermitted :
      (a : Address) (t : ℕ) (u : ℕ) (u' : ℕ)
      → Ensures
          (λ _ _. IsPermitted e w.store (Request.set_aum_window_limits a t u u'))
          (Admin.set_aum_window_limits e a t u u' w)
  unfolding Admin.set_aum_window_limits bump_instance require_admin require_operator
  set_aum_window_limits-IsPermitted a t u u' = ground arith

  pub add_subaccount-IsPermitted :
      (a : Address) (b : Address) (k : SubaccountType)
      → Ensures
          (λ _ _. IsPermitted e w.store (Request.add_subaccount a b k))
          (Subaccounts.add_subaccount e a b k w)
  unfolding Subaccounts.add_subaccount bump_instance require_admin require_operator
      require_not_paused
  add_subaccount-IsPermitted a b k = ground arith

  pub remove_subaccount-IsPermitted :
      (a : Address) (b : Address)
      → Ensures
          (λ _ _. IsPermitted e w.store (Request.remove_subaccount a b))
          (Subaccounts.remove_subaccount e a b w)
  unfolding Subaccounts.remove_subaccount bump_instance require_admin require_operator
  remove_subaccount-IsPermitted a b = ground arith

  pub deposit_to_subaccount-IsPermitted :
      (a : Address) (b : Address) (v : ℤ)
      → Ensures
          (λ _ _. IsPermitted e w.store (Request.deposit_to_subaccount a b v))
          (Subaccounts.deposit_to_subaccount e a b v w)
  unfolding Subaccounts.deposit_to_subaccount bump_instance require_admin require_operator
      require_not_paused
  deposit_to_subaccount-IsPermitted a b v = ground arith

  pub withdraw_from_subaccount-IsPermitted :
      (a : Address) (b : Address) (v : ℤ)
      → Ensures
          (λ _ _. IsPermitted e w.store (Request.withdraw_from_subaccount a b v))
          (Subaccounts.withdraw_from_subaccount e a b v w)
  unfolding Subaccounts.withdraw_from_subaccount bump_instance require_admin require_operator
      require_not_paused
  withdraw_from_subaccount-IsPermitted a b v = ground arith

  pub seed_wallet_net_deployed-IsPermitted :
      (a : Address) (b : Address) (v : ℤ)
      → Ensures
          (λ _ _. IsPermitted e w.store (Request.seed_wallet_net_deployed a b v))
          (Wallets.seed_wallet_net_deployed e a b v w)
  unfolding Wallets.seed_wallet_net_deployed bump_instance require_admin require_operator
  seed_wallet_net_deployed-IsPermitted a b v = ground arith

  pub update_wallet_deployed-IsPermitted :
      (a : Address) (b : Address) (v : ℤ)
      → Ensures
          (λ _ _. IsPermitted e w.store (Request.update_wallet_deployed a b v))
          (Wallets.update_wallet_deployed e a b v w)
  unfolding Wallets.update_wallet_deployed bump_instance require_admin require_operator
  update_wallet_deployed-IsPermitted a b v = ground arith

  pub update_deployed_assets-IsPermitted :
      (a : Address) (v : ℤ)
      → Ensures
          (λ _ _. IsPermitted e w.store (Request.update_deployed_assets a v))
          (Wallets.update_deployed_assets e a v w)
  unfolding Wallets.update_deployed_assets bump_instance require_admin require_operator
  update_deployed_assets-IsPermitted a v = ground arith

  pub update_wallet_deployed_batch-IsPermitted :
      (a : Address) (us : Updates)
      → Ensures
          (λ _ _. IsPermitted e w.store (Request.update_wallet_deployed_batch a us))
          (Batch.update_wallet_deployed_batch e a us w)
  unfolding Batch.update_wallet_deployed_batch bump_instance require_admin require_operator
  update_wallet_deployed_batch-IsPermitted a us = ground arith

  pub remove_wallet_and_reconcile-IsPermitted :
      (a : Address) (b : Address) (c : Address) (v : ℤ)
      → Ensures
          (λ _ _. IsPermitted e w.store (Request.remove_wallet_and_reconcile a b c v))
          (Wallets.remove_wallet_and_reconcile e a b c v w)
  unfolding Wallets.remove_wallet_and_reconcile bump_instance require_admin require_operator
      require_co_operator
  remove_wallet_and_reconcile-IsPermitted a b c v = ground arith

  pub deposit-IsPermitted :
      (v : ℤ) (a : Address) (b : Address) (c : Address)
      → Ensures
          (λ _ _. IsPermitted e w.store (Request.deposit v a b c))
          (Shares.deposit e v a b c w)
  unfolding Shares.deposit bump_instance require_auth require_not_paused
  deposit-IsPermitted v a b c = ground arith

  pub mint-IsPermitted :
      (v : ℤ) (a : Address) (b : Address) (c : Address)
      → Ensures (λ _ _. IsPermitted e w.store (Request.mint v a b c)) (Shares.mint e v a b c w)
  unfolding Shares.mint bump_instance require_auth require_not_paused
  mint-IsPermitted v a b c = ground arith

  pub withdraw-IsPermitted :
      (v : ℤ) (a : Address) (b : Address) (c : Address)
      → Ensures
          (λ _ _. IsPermitted e w.store (Request.withdraw v a b c))
          (Shares.withdraw e v a b c w)
  unfolding Shares.withdraw bump_instance require_auth require_not_paused
  withdraw-IsPermitted v a b c = ground arith

  pub redeem-IsPermitted :
      (v : ℤ) (a : Address) (b : Address) (c : Address)
      → Ensures (λ _ _. IsPermitted e w.store (Request.redeem v a b c)) (Shares.redeem e v a b c w)
  unfolding Shares.redeem bump_instance require_auth require_not_paused
  redeem-IsPermitted v a b c = ground arith

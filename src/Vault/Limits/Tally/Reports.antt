-- ===== src/Vault/Limits/Tally/Reports.antt =====
-- The functions of contracts/august-vault/src/contract.rs that report values of the aggregate: each
-- calls `apply_deployed_assets_change` once, in the storage it began with, and after it moves no
-- more than trackers or removes a subaccount. So what that call ensures of the storage, and those
-- keep, each of them ensures.
use stellar_upshift_vault_co.Base.{◌≡◌, arith}
use stellar_upshift_vault_co.Base.Int.{ℤ}
use stellar_upshift_vault_co.Soroban.{Address, Ensures}
use stellar_upshift_vault_co.Vault.Storage.{Storage, get_deployed_assets}
use stellar_upshift_vault_co.Vault.State.{
  Env, World, bump_instance, require_admin, require_operator, set_wallet_net_deployed,
}
use stellar_upshift_vault_co.Vault.Limits.{apply_deployed_assets_change}
use stellar_upshift_vault_co.Vault.Subaccounts.{require_whitelisted, do_remove_subaccount}
use stellar_upshift_vault_co.Vault.Wallets
use stellar_upshift_vault_co.Vault.Wallets.{require_wallet, require_co_operator}
use stellar_upshift_vault_co.Vault.Batch.{Updates, apply_batch, update_wallet_deployed_batch}
use stellar_upshift_vault_co.Vault.Frame.Batches.{OnlyTrackers, validate-same, commit-OnlyTrackers}

module _ {X : Type 0} (e : Env X) (w : World X) (R : Storage → Type 0) (o : Address)
    (applied : (v : ℤ) (w₁ : World X)
      → w₁.store ≡ w.store
      → Ensures
          (λ _ w'. R w'.store)
          (apply_deployed_assets_change e o (get_deployed_assets w.store) v w₁)) where
  pub update_deployed_reports :
      (v : ℤ) → Ensures (λ _ w'. R w'.store) (Wallets.update_deployed_assets e o v w)
  unfolding Wallets.update_deployed_assets bump_instance require_operator
  update_deployed_reports v = grind (arith, applied)

  module _
      (removed : (a b : Address) (w₁ : World X)
        → R w₁.store
        → Ensures (λ _ w'. R w'.store) (do_remove_subaccount e a b w₁)) where
    pub reconcile_reports :
        (a b : Address) (t : ℤ)
        → Ensures (λ _ w'. R w'.store) (Wallets.remove_wallet_and_reconcile e a o b t w)
    unfolding Wallets.remove_wallet_and_reconcile bump_instance require_admin require_wallet
        require_whitelisted require_co_operator require_operator
    reconcile_reports a b t = grind (arith, applied, removed)

  module _ (kept : (s s' : Storage) → OnlyTrackers s s' → R s → R s') where
    pub update_wallet_reports :
        (a : Address) (v : ℤ)
        → Ensures (λ _ w'. R w'.store) (Wallets.update_wallet_deployed e o a v w)
    unfolding Wallets.update_wallet_deployed bump_instance require_operator require_wallet
        require_whitelisted set_wallet_net_deployed
    update_wallet_reports a v = grind (arith, applied, kept)

    pub apply_batch_reports :
        (u : Updates) (d : ℤ) (w₁ : World X)
        → w₁.store ≡ w.store
        → Ensures (λ _ w'. R w'.store) (apply_batch e o u d w₁)
    unfolding apply_batch
    apply_batch_reports u d w₁ same = grind (arith, applied, kept, commit-OnlyTrackers e o u)

    pub batch_reports :
        (u : Updates) → Ensures (λ _ w'. R w'.store) (update_wallet_deployed_batch e o u w)
    unfolding update_wallet_deployed_batch bump_instance require_operator
    batch_reports u = grind (arith, apply_batch_reports u, validate-same)

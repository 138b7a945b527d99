-- ===== src/Vault/Frame/Settings.antt =====
-- The operator's functions and the changes of the whitelist
-- (contracts/august-vault/src/contract.rs) leave the settings alone, and all but those that call
-- `apply_deployed_assets_change` the window too.
use stellar_upshift_vault_co.Base.{◌≡◌, Bool, some, inl, inr, Option-cases, arith}
use stellar_upshift_vault_co.Base.Int.{ℤ, pos, ◌≤ℤ◌}
use stellar_upshift_vault_co.Soroban.{Address, Ensures}
use stellar_upshift_vault_co.Vault.Storage.{
  SubaccountType, get_deployed_assets, get_subaccounts, get_subaccount_type, remove_subaccount_type,
}
use stellar_upshift_vault_co.Vault.State.{
  Env, World, set_deployed_assets, set_subaccounts, set_wallet_net_deployed, bump_instance,
  require_admin, require_operator, require_not_paused,
}
use stellar_upshift_vault_co.Vault.Limits.{
  require_within_bps_limit, check_aum_rate_limit, accumulate, check_aum_cumulative_limit,
  limit_increase, limit_decrease, apply_deployed_assets_change,
}
use stellar_upshift_vault_co.Vault.Pricing.{local_balance}
use stellar_upshift_vault_co.Vault.Subaccounts.{
  require_whitelisted, find_subaccount_index, subaccounts_without_index, smoke_test, add_subaccount,
  do_remove_subaccount, remove_subaccount, diagnose, wallet_diagnosis, strategy_diagnosis,
  book_deposit, deposit_to_subaccount, pull, book_withdrawal, withdraw_from_subaccount,
}
use stellar_upshift_vault_co.Vault.Wallets.{
  require_wallet, seed_wallet_net_deployed, update_deployed_assets, update_wallet_deployed,
  require_co_operator, remove_wallet_and_reconcile,
}
use stellar_upshift_vault_co.Vault.Frame.{SameSettings, SameWindow}
use stellar_upshift_vault_co.Vault.Storage.{Storage}

-- Settings and window stay, and a nonnegative aggregate stays nonnegative.
pub record Kept (s s' : Storage) : Type 0 where
  pub settings : SameSettings s s'
  pub window : SameWindow s s'
  pub nonneg : pos 0 ≤ℤ get_deployed_assets s → pos 0 ≤ℤ get_deployed_assets s'

module _ {X : Type 0} (e : Env X) where
  pub smoke_test-store :
      (a : Address) (w : World X) → Ensures (λ _ w'. w'.store ≡ w.store) (smoke_test e a w)
  unfolding smoke_test
  smoke_test-store a w = ground arith

  pub add-Kept :
      (admin a : Address) (kind : SubaccountType) (w : World X)
      → Ensures (λ _ w'. Kept w.store w'.store) (add_subaccount e admin a kind w)
  unfolding add_subaccount bump_instance require_admin require_not_paused set_subaccounts
  add-Kept admin a kind w = grind (arith, smoke_test-store)

  diagnose-store :
      (a : Address) (kind : SubaccountType) (w : World X)
      → Ensures (λ _ w'. w'.store ≡ w.store) (diagnose e a kind w)
  unfolding diagnose wallet_diagnosis strategy_diagnosis
  diagnose-store a kind w = ground arith

  pub do_remove-Kept :
      (remover a : Address) (w : World X)
      → Ensures (λ _ w'. Kept w.store w'.store) (do_remove_subaccount e remover a w)
  unfolding do_remove_subaccount set_subaccounts
  do_remove-Kept remover a w =
      elim (Option-cases (find_subaccount_index (get_subaccounts w.store) a)) [
        | inl missing ↦ ground (arith, missing)
        | inr (i, found) ↦ ground (
          arith,
          found,
          diagnose-store a (get_subaccount_type w.store a) (record w {
            store = remove_subaccount_type a (record (w.store) {
              subaccounts = some (subaccounts_without_index (get_subaccounts w.store) i);
            });
          }),
        )
      ]

  pub remove-Kept :
      (admin a : Address) (w : World X)
      → Ensures (λ _ w'. Kept w.store w'.store) (remove_subaccount e admin a w)
  unfolding remove_subaccount bump_instance require_admin
  remove-Kept admin a w = grind (arith, do_remove-Kept)

  book_deposit-Kept :
      (a : Address) (r : ℤ) (w : World X)
      → Ensures (λ _ w'. Kept w.store w'.store) (book_deposit e a r w)
  unfolding book_deposit set_deployed_assets set_wallet_net_deployed
  book_deposit-Kept a r w = ground arith

  book_withdrawal-Kept :
      (a : Address) (r : ℤ) (w : World X)
      → Ensures (λ _ w'. Kept w.store w'.store) (book_withdrawal e a r w)
  unfolding book_withdrawal set_deployed_assets set_wallet_net_deployed
  book_withdrawal-Kept a r w = ground arith

  pub deposit_to-Kept :
      (operator a : Address) (amount : ℤ) (w : World X)
      → Ensures (λ _ w'. Kept w.store w'.store) (deposit_to_subaccount e operator a amount w)
  unfolding deposit_to_subaccount bump_instance require_operator require_not_paused
      require_whitelisted
  deposit_to-Kept operator a amount w = grind (arith, book_deposit-Kept)

  pub withdraw_from-Kept :
      (operator a : Address) (amount : ℤ) (w : World X)
      → Ensures (λ _ w'. Kept w.store w'.store) (withdraw_from_subaccount e operator a amount w)
  unfolding withdraw_from_subaccount bump_instance require_operator require_not_paused
      require_whitelisted pull
  withdraw_from-Kept operator a amount w = grind (arith, book_withdrawal-Kept)

  pub seed-Kept :
      (admin a : Address) (amount : ℤ) (w : World X)
      → Ensures (λ _ w'. Kept w.store w'.store) (seed_wallet_net_deployed e admin a amount w)
  unfolding seed_wallet_net_deployed bump_instance require_admin require_wallet require_whitelisted
      set_wallet_net_deployed
  seed-Kept admin a amount w = ground arith

  check-Settings :
      (d old : ℤ) (up : Bool) (w : World X)
      → Ensures (λ _ w'. SameSettings w.store w'.store) (check_aum_cumulative_limit e d old up w)
  unfolding check_aum_cumulative_limit accumulate require_within_bps_limit
  check-Settings d old up w = ground arith

  increase-Settings :
      (old new : ℤ) (w : World X)
      → Ensures (λ _ w'. SameSettings w.store w'.store) (limit_increase e old new w)
  unfolding limit_increase check_aum_rate_limit require_within_bps_limit
  increase-Settings old new w = grind (arith, check-Settings)

  decrease-Settings :
      (old new : ℤ) (w : World X)
      → Ensures (λ _ w'. SameSettings w.store w'.store) (limit_decrease e old new w)
  unfolding limit_decrease check_aum_rate_limit require_within_bps_limit
  decrease-Settings old new w = grind (arith, check-Settings)

  pub apply-Settings :
      (actor : Address) (old new : ℤ) (w : World X)
      → Ensures
          (λ _ w'. SameSettings w.store w'.store)
          (apply_deployed_assets_change e actor old new w)
  unfolding apply_deployed_assets_change set_deployed_assets local_balance
  apply-Settings actor old new w =
      ground (arith, increase-Settings old new w, decrease-Settings old new w)

  pub update_deployed-Settings :
      (operator : Address) (amount : ℤ) (w : World X)
      → Ensures (λ _ w'. SameSettings w.store w'.store) (update_deployed_assets e operator amount w)
  unfolding update_deployed_assets bump_instance require_operator
  update_deployed-Settings operator amount w = grind (arith, apply-Settings)

  pub update_wallet-Settings :
      (operator a : Address) (v : ℤ) (w : World X)
      → Ensures (λ _ w'. SameSettings w.store w'.store) (update_wallet_deployed e operator a v w)
  unfolding update_wallet_deployed bump_instance require_operator require_wallet require_whitelisted
      set_wallet_net_deployed
  update_wallet-Settings operator a v w = grind (arith, apply-Settings)

  pub reconcile-Settings :
      (admin operator a : Address) (total : ℤ) (w : World X)
      → Ensures
          (λ _ w'. SameSettings w.store w'.store)
          (remove_wallet_and_reconcile e admin operator a total w)
  unfolding remove_wallet_and_reconcile bump_instance require_admin require_wallet
      require_whitelisted require_co_operator require_operator
  reconcile-Settings admin operator a total w = grind (arith, apply-Settings, do_remove-Kept)

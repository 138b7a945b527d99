-- ===== src/Vault/Removal.antt =====
-- When `remove_subaccount` (contracts/august-vault/src/contract.rs) returns.
use stellar_upshift_vault_co.Base.{
  ℕ, suc, ◌≡◌, ◌≢◌, ◌≤◌, true, none, some, List, [], ◌∷◌, length, arith,
}
use stellar_upshift_vault_co.Base.Int.{pos}
use stellar_upshift_vault_co.Soroban.{Address, Returns}
use stellar_upshift_vault_co.Vault.Storage.{
  SubaccountType, max_subaccounts, get_subaccounts, get_subaccount_type, get_wallet_net_deployed,
  remove_subaccount_type,
}
use stellar_upshift_vault_co.Vault.State.{Env, World, bump_instance, require_admin, set_subaccounts}
use stellar_upshift_vault_co.Vault.Subaccounts.{
  find_subaccount_index, without_index_from, subaccounts_without_index, wallet_diagnosis,
  strategy_diagnosis, diagnose, do_remove_subaccount, remove_subaccount,
}

length-without_index_from :
    (i : ℕ) (subs : List Address) (idx : ℕ) → length (without_index_from i subs idx) ≤ length subs
unfolding without_index_from
length-without_index_from i [] idx = omega arith
length-without_index_from i (sub ∷ subs) idx =
    ground (arith, length-without_index_from (suc i) subs idx)

pub length-without :
    (subs : List Address) (idx : ℕ) → length (subaccounts_without_index subs idx) ≤ length subs
unfolding subaccounts_without_index
length-without subs idx = length-without_index_from 0 subs idx

module _ {X : Type 0} (e : Env X) where
  diagnose-Returns :
      (a : Address) (kind : SubaccountType) (w : World X)
      → e.query_asset w.ext ≢ none
      → Returns (λ _ w'. w'.store ≡ w.store) (diagnose e a kind w)
  unfolding diagnose wallet_diagnosis strategy_diagnosis
  diagnose-Returns a kind w asset = ground arith

  do_remove-Returns :
      (remover a : Address) (i : ℕ) (w : World X)
      → find_subaccount_index (get_subaccounts w.store) a ≡ some i
      → length (get_subaccounts w.store) ≤ max_subaccounts
      → e.query_asset w.ext ≢ none
      → Returns
          (λ _ w'.
            (w'.store.subaccounts ≡ some (subaccounts_without_index (get_subaccounts w.store) i))
            × (w'.store.deployed_assets ≡ w.store.deployed_assets)
            × (get_wallet_net_deployed w'.store a ≡ pos 0))
          (do_remove_subaccount e remover a w)
  unfolding do_remove_subaccount set_subaccounts
  do_remove-Returns remover a i w found few asset = ground (
    arith,
    length-without (get_subaccounts w.store) i,
    diagnose-Returns a (get_subaccount_type w.store a) (record w {
      store = remove_subaccount_type a (record (w.store) {
        subaccounts = some (subaccounts_without_index (get_subaccounts w.store) i);
      });
    }),
  )

  -- The stored admin, authorizing the call, can always remove a whitelisted subaccount whose
  -- tracker is 0, whatever the subaccount answers to the probe, error included, as long as the
  -- vault's asset is set and the whitelist is within its bound: the call returns, the whitelist has
  -- lost that position, and the aggregate stays.
  pub remove-Returns :
      (admin a : Address) (i : ℕ) (w : World X)
      → e.authorized admin ≡ true
      → w.store.admin ≡ some admin
      → find_subaccount_index (get_subaccounts w.store) a ≡ some i
      → get_wallet_net_deployed w.store a ≡ pos 0
      → length (get_subaccounts w.store) ≤ max_subaccounts
      → e.query_asset w.ext ≢ none
      → Returns
          (λ _ w'.
            (w'.store.subaccounts ≡ some (subaccounts_without_index (get_subaccounts w.store) i))
            × (w'.store.deployed_assets ≡ w.store.deployed_assets)
            × (get_wallet_net_deployed w'.store a ≡ pos 0))
          (remove_subaccount e admin a w)
  unfolding remove_subaccount bump_instance require_admin
  remove-Returns admin a i w signed stored found untracked few asset = ground (
    arith,
    do_remove-Returns admin a i
        (record w { ttl = e.extend_ttl e.instance_ttl_threshold e.instance_extend_amount w.ttl })
        found few asset,
  )

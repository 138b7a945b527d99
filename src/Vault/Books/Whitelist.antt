-- ===== src/Vault/Books/Whitelist.antt =====
-- Changes of the whitelist (contracts/august-vault/src/contract.rs) as moves of the books.
use stellar_upshift_vault_co.Base.{ℕ, unwrap_or, ◌≡◌, Option, none, some, [], ◌∷◌, ◌++◌, arith}
use stellar_upshift_vault_co.Base.Int.{ℤ, pos, ◌+ℤ◌, int_laws}
use stellar_upshift_vault_co.Soroban.{Address, Ensures, Ensures-mono}
use stellar_upshift_vault_co.Vault.Storage.{
  Storage, get_subaccounts, get_subaccount_type, get_deployed_assets, get_wallet_net_deployed,
  with_entry, without_entry, wallet, SubaccountType,
}
use stellar_upshift_vault_co.Vault.State.{
  Env, World, set_subaccounts, bump_instance, require_admin, require_operator, require_not_paused,
}
use stellar_upshift_vault_co.Vault.Limits.Effect.{apply-Applied}
use stellar_upshift_vault_co.Vault.Subaccounts.{
  find_subaccount_index, subaccounts_without_index, require_whitelisted, smoke_test, add_subaccount,
  do_remove_subaccount, remove_subaccount, diagnose, wallet_diagnosis, strategy_diagnosis,
}
use stellar_upshift_vault_co.Vault.Wallets.{
  remove_wallet_and_reconcile, require_co_operator, require_wallet,
}
use stellar_upshift_vault_co.Vault.Books.{contribution, Move, enlist, delist}

record Enlisted (a : Address) (kind : SubaccountType) (s s' : Storage) : Type 0 where
  unlisted : find_subaccount_index (get_subaccounts s) a ≡ none
  subaccounts : s'.subaccounts ≡ some (get_subaccounts s ++ a ∷ [])
  subaccount_types : s'.subaccount_types ≡ with_entry s.subaccount_types a kind
  wallet_net_deployed : s'.wallet_net_deployed ≡ s.wallet_net_deployed
  deployed_assets : s'.deployed_assets ≡ s.deployed_assets

-- A subaccount and its entries are gone, and the aggregate is `d`.
pub record Delisted (a : Address) (d : Option ℤ) (s s' : Storage) : Type 0 where
  pub index : ℕ
  pub found : find_subaccount_index (get_subaccounts s) a ≡ some index
  pub subaccounts : s'.subaccounts ≡ some (subaccounts_without_index (get_subaccounts s) index)
  pub subaccount_types : s'.subaccount_types ≡ without_entry s.subaccount_types a
  pub wallet_net_deployed : s'.wallet_net_deployed ≡ without_entry s.wallet_net_deployed a
  pub deployed_assets : s'.deployed_assets ≡ d

pub Delisted-Move :
    {a : Address} {d : Option ℤ} {s s' : Storage}
    → Delisted a d s s'
    → unwrap_or d (pos 0) +ℤ contribution s a ≡ get_deployed_assets s
    → Move s s'
Delisted-Move {a} l t =
    delist a l.index l.found l.subaccounts l.subaccount_types l.wallet_net_deployed
      (rw l.deployed_assets t)

no_contribution :
    (s : Storage) (a : Address)
    → get_wallet_net_deployed s a ≡ pos 0
    → get_deployed_assets s +ℤ contribution s a ≡ get_deployed_assets s
no_contribution s a z = grind int_laws

module _ {X : Type 0} (e : Env X) where
  smoke_test-same :
      (a : Address) (w : World X) → Ensures (λ _ w'. w'.store ≡ w.store) (smoke_test e a w)
  unfolding smoke_test
  smoke_test-same a w = ground arith

  abbrev bumped : World X → World X
  bumped w = record w { ttl = e.extend_ttl e.instance_ttl_threshold e.instance_extend_amount w.ttl }

  add-Enlisted :
      (admin a : Address) (kind : SubaccountType) (w : World X)
      → Ensures (λ _ w'. Enlisted a kind w.store w'.store) (add_subaccount e admin a kind w)
  unfolding add_subaccount bump_instance require_admin require_not_paused set_subaccounts
  add-Enlisted admin a kind w = ground (arith, smoke_test-same a (bumped w))

  pub add-Move :
      (admin a : Address) (kind : SubaccountType) (w : World X)
      → Ensures (λ _ w'. Move w.store w'.store) (add_subaccount e admin a kind w)
  add-Move admin a kind w =
      Ensures-mono (add_subaccount e admin a kind w) (add-Enlisted admin a kind w) λ _ w' n.
        enlist a kind n.unlisted n.subaccounts n.subaccount_types n.wallet_net_deployed
          n.deployed_assets

  diagnose-same :
      (a : Address) (kind : SubaccountType) (w : World X)
      → Ensures (λ _ w'. w'.store ≡ w.store) (diagnose e a kind w)
  unfolding diagnose wallet_diagnosis strategy_diagnosis
  diagnose-same a kind w = ground arith

  pub do_remove-Delisted :
      (remover a : Address) (w : World X)
      → Ensures
          (λ _ w'. Delisted a w.store.deployed_assets w.store w'.store)
          (do_remove_subaccount e remover a w)
  unfolding do_remove_subaccount set_subaccounts
  do_remove-Delisted remover a w = grind (arith, diagnose-same)

  pub remove-Delisted :
      (admin a : Address) (w : World X)
      → Ensures
          (λ _ w'.
            (get_wallet_net_deployed w.store a ≡ pos 0)
            × Delisted a w.store.deployed_assets w.store w'.store)
          (remove_subaccount e admin a w)
  unfolding remove_subaccount bump_instance require_admin
  remove-Delisted admin a w = ground (arith, do_remove-Delisted admin a (bumped w))

  pub remove-Move :
      (admin a : Address) (w : World X)
      → Ensures (λ _ w'. Move w.store w'.store) (remove_subaccount e admin a w)
  remove-Move admin a w =
      Ensures-mono (remove_subaccount e admin a w) (remove-Delisted admin a w)
        λ _ w' r. Delisted-Move r.1 (no_contribution w.store a r.0)

  pub reconcile-Delisted :
      (admin operator a : Address) (total : ℤ) (w : World X)
      → Ensures
          (λ _ w'.
            (get_subaccount_type w.store a ≡ wallet) × Delisted a (some total) w.store w'.store)
          (remove_wallet_and_reconcile e admin operator a total w)
  unfolding remove_wallet_and_reconcile bump_instance require_admin require_wallet
      require_whitelisted require_co_operator require_operator
  reconcile-Delisted admin operator a total w = grind (arith, apply-Applied, do_remove-Delisted)

  pub reconcile-Move :
      (admin operator a : Address) (total : ℤ) (w : World X)
      → total +ℤ get_wallet_net_deployed w.store a ≡ get_deployed_assets w.store
      → Ensures
          (λ _ w'. Move w.store w'.store)
          (remove_wallet_and_reconcile e admin operator a total w)
  reconcile-Move admin operator a total w exact =
      Ensures-mono (remove_wallet_and_reconcile e admin operator a total w)
        (reconcile-Delisted admin operator a total w) λ _ w' r. Delisted-Move r.1 (rw r.0 exact)

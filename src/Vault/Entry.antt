-- ===== src/Vault/Entry.antt =====
-- The entry points of contracts/august-vault/src/contract.rs that change state, as one type of
-- requests.
use stellar_upshift_vault_co.Base.{ℕ}
use stellar_upshift_vault_co.Base.Int.{ℤ}
use stellar_upshift_vault_co.Soroban.{Address, ◌>>◌, pure}
use stellar_upshift_vault_co.Vault.Storage.{SubaccountType}
use stellar_upshift_vault_co.Vault.State.{Env, Action}
use stellar_upshift_vault_co.Vault.Admin
use stellar_upshift_vault_co.Vault.Subaccounts
use stellar_upshift_vault_co.Vault.Wallets
use stellar_upshift_vault_co.Vault.Batch
use stellar_upshift_vault_co.Vault.Batch.{Updates}
use stellar_upshift_vault_co.Vault.Shares

pub data Request : Type 0 where
  extend_ttl accept_admin : Request
  propose_admin : Address → Address → ℕ → Request
  cancel_admin_proposal pause unpause : Address → Request
  set_operator : Address → Address → Request
  set_aum_limits : Address → ℕ → ℕ → Request
  set_aum_window_limits : Address → ℕ → ℕ → ℕ → Request
  add_subaccount : Address → Address → SubaccountType → Request
  remove_subaccount : Address → Address → Request
  deposit_to_subaccount withdraw_from_subaccount : Address → Address → ℤ → Request
  seed_wallet_net_deployed update_wallet_deployed : Address → Address → ℤ → Request
  update_deployed_assets : Address → ℤ → Request
  update_wallet_deployed_batch : Address → Updates → Request
  remove_wallet_and_reconcile : Address → Address → Address → ℤ → Request
  transfer : Address → Address → ℤ → Request
  transfer_from : Address → Address → Address → ℤ → Request
  approve : Address → Address → ℤ → ℕ → Request
  deposit mint withdraw redeem : ℤ → Address → Address → Address → Request

module _ {X : Type 0} (e : Env X) where
  unfoldable pub execute : Request → Action X (Unit {0})
  execute extend_ttl = Admin.extend_ttl e
  execute accept_admin = Admin.accept_admin e
  execute (propose_admin admin new_admin deadline) = Admin.propose_admin e admin new_admin deadline
  execute (cancel_admin_proposal admin) = Admin.cancel_admin_proposal e admin
  execute (pause admin) = Admin.pause e admin
  execute (unpause admin) = Admin.unpause e admin
  execute (set_operator admin operator) = Admin.set_vault_operator e admin operator
  execute (set_aum_limits admin increase decrease) = Admin.set_aum_limits e admin increase decrease
  execute (set_aum_window_limits admin duration increase decrease) =
      Admin.set_aum_window_limits e admin duration increase decrease
  execute (add_subaccount admin a kind) = Subaccounts.add_subaccount e admin a kind
  execute (remove_subaccount admin a) = Subaccounts.remove_subaccount e admin a
  execute (deposit_to_subaccount operator a amount) =
      Subaccounts.deposit_to_subaccount e operator a amount
  execute (withdraw_from_subaccount operator a amount) =
      Subaccounts.withdraw_from_subaccount e operator a amount
  execute (seed_wallet_net_deployed admin a amount) =
      Wallets.seed_wallet_net_deployed e admin a amount
  execute (update_wallet_deployed operator a amount) =
      Wallets.update_wallet_deployed e operator a amount
  execute (update_deployed_assets operator amount) =
      Wallets.update_deployed_assets e operator amount
  execute (update_wallet_deployed_batch operator updates) =
      Batch.update_wallet_deployed_batch e operator updates
  execute (remove_wallet_and_reconcile admin operator a total) =
      Wallets.remove_wallet_and_reconcile e admin operator a total
  execute (transfer from to amount) = Shares.transfer e from to amount
  execute (transfer_from spender from to amount) = Shares.transfer_from e spender from to amount
  execute (approve owner spender amount live_until) =
      Shares.approve e owner spender amount live_until
  execute (deposit assets receiver from operator) =
      Shares.deposit e assets receiver from operator >> pure tt
  execute (mint shares receiver from operator) =
      Shares.mint e shares receiver from operator >> pure tt
  execute (withdraw assets receiver owner operator) =
      Shares.withdraw e assets receiver owner operator >> pure tt
  execute (redeem shares receiver owner operator) =
      Shares.redeem e shares receiver owner operator >> pure tt

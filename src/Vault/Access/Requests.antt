-- ===== src/Vault/Access/Requests.antt =====
-- The permissions of whole requests to contracts/august-vault/src/contract.rs.
use stellar_upshift_vault_co.Base.{arith}
use stellar_upshift_vault_co.Soroban.{Ensures}
use stellar_upshift_vault_co.Vault.State.{Env, World}
use stellar_upshift_vault_co.Vault.Entry.{Request, execute}
use stellar_upshift_vault_co.Vault.Access.{IsPermitted}
use stellar_upshift_vault_co.Vault.Access.Operations.{
  accept_admin-IsPermitted, propose_admin-IsPermitted, cancel_admin_proposal-IsPermitted,
  pause-IsPermitted, unpause-IsPermitted, set_operator-IsPermitted, set_aum_limits-IsPermitted,
  set_aum_window_limits-IsPermitted, add_subaccount-IsPermitted, remove_subaccount-IsPermitted,
  deposit_to_subaccount-IsPermitted, withdraw_from_subaccount-IsPermitted,
  seed_wallet_net_deployed-IsPermitted, update_wallet_deployed-IsPermitted,
  update_deployed_assets-IsPermitted, update_wallet_deployed_batch-IsPermitted,
  remove_wallet_and_reconcile-IsPermitted, deposit-IsPermitted, mint-IsPermitted,
  withdraw-IsPermitted, redeem-IsPermitted,
}

-- A request that returns was permitted: the admin's and the operator's functions were authorized by
-- the address stored in that role, `remove_wallet_and_reconcile` by both, `accept_admin` by the
-- pending admin, and `deposit`, `mint`, `withdraw` and `redeem` by their operator; these four,
-- `add_subaccount`, `deposit_to_subaccount` and `withdraw_from_subaccount` found the vault unpaused.
pub execute-IsPermitted :
    {X : Type 0} (e : Env X) (r : Request) (w : World X)
    → Ensures (λ _ _. IsPermitted e w.store r) (execute e r w)
unfolding execute
execute-IsPermitted e Request.extend_ttl w = ground arith
execute-IsPermitted e (Request.transfer f t v) w = ground arith
execute-IsPermitted e (Request.transfer_from p f t v) w = ground arith
execute-IsPermitted e (Request.approve o p v l) w = ground arith
execute-IsPermitted e Request.accept_admin w = accept_admin-IsPermitted e w
execute-IsPermitted e (Request.propose_admin a b t) w = propose_admin-IsPermitted e w a b t
execute-IsPermitted e (Request.cancel_admin_proposal a) w = cancel_admin_proposal-IsPermitted e w a
execute-IsPermitted e (Request.pause a) w = pause-IsPermitted e w a
execute-IsPermitted e (Request.unpause a) w = unpause-IsPermitted e w a
execute-IsPermitted e (Request.set_operator a b) w = set_operator-IsPermitted e w a b
execute-IsPermitted e (Request.set_aum_limits a t u) w = set_aum_limits-IsPermitted e w a t u
execute-IsPermitted e (Request.set_aum_window_limits a t u u') w =
    set_aum_window_limits-IsPermitted e w a t u u'
execute-IsPermitted e (Request.add_subaccount a b k) w = add_subaccount-IsPermitted e w a b k
execute-IsPermitted e (Request.remove_subaccount a b) w = remove_subaccount-IsPermitted e w a b
execute-IsPermitted e (Request.deposit_to_subaccount a b v) w =
    deposit_to_subaccount-IsPermitted e w a b v
execute-IsPermitted e (Request.withdraw_from_subaccount a b v) w =
    withdraw_from_subaccount-IsPermitted e w a b v
execute-IsPermitted e (Request.seed_wallet_net_deployed a b v) w =
    seed_wallet_net_deployed-IsPermitted e w a b v
execute-IsPermitted e (Request.update_wallet_deployed a b v) w =
    update_wallet_deployed-IsPermitted e w a b v
execute-IsPermitted e (Request.update_deployed_assets a v) w =
    update_deployed_assets-IsPermitted e w a v
execute-IsPermitted e (Request.update_wallet_deployed_batch a us) w =
    update_wallet_deployed_batch-IsPermitted e w a us
execute-IsPermitted e (Request.remove_wallet_and_reconcile a b c v) w =
    remove_wallet_and_reconcile-IsPermitted e w a b c v
execute-IsPermitted e (Request.deposit v a b c) w = ground (arith, deposit-IsPermitted e w v a b c)
execute-IsPermitted e (Request.mint v a b c) w = ground (arith, mint-IsPermitted e w v a b c)
execute-IsPermitted e (Request.withdraw v a b c) w =
    ground (arith, withdraw-IsPermitted e w v a b c)
execute-IsPermitted e (Request.redeem v a b c) w = ground (arith, redeem-IsPermitted e w v a b c)

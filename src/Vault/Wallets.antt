-- ===== src/Vault/Wallets.antt =====
-- contracts/august-vault/src/contract.rs: the functions that set wallet trackers and the aggregate.
use stellar_upshift_vault_co.Base.{not, List, [], ◌∷◌, ◌==◌}
use stellar_upshift_vault_co.Base.Int.{ℤ, pos, ltb_ℤ}
use stellar_upshift_vault_co.Soroban.{Address, ◌>>=◌, ◌>>◌, pure, branch, panic_if, or_panic}
use stellar_upshift_vault_co.Soroban.I128.{checked_add, checked_sub}
use stellar_upshift_vault_co.Vault.Errors.{
  error, math_overflow, invalid_amount, invalid_subaccount_type, wallet_seed_below_tracker,
  deployed_assets_underflow, unauthorized,
}
use stellar_upshift_vault_co.Vault.Storage.{
  strategy, wallet, is_wallet, get_subaccounts, get_subaccount_type, get_deployed_assets,
  get_wallet_net_deployed,
}
use stellar_upshift_vault_co.Vault.Emit.{
  emit_wallet_deployed_updated, emit_wallet_net_deployed_seeded,
}
use stellar_upshift_vault_co.Vault.State.{
  Env, Action, load, set_wallet_net_deployed, bump_instance, require_admin, require_operator,
}
use stellar_upshift_vault_co.Vault.Limits.{apply_deployed_assets_change}
use stellar_upshift_vault_co.Vault.Subaccounts.{require_whitelisted, do_remove_subaccount}

-- `get_wallet_deployed_assets`, its loop with the running total.
module _ {X : Type 0} where
  unfoldable pub add_wallet_trackers : List Address → ℤ → Action X ℤ
  add_wallet_trackers [] total = pure total
  add_wallet_trackers (sub ∷ subs) total = do
    kind ← load (λ s. get_subaccount_type s sub)
    elim kind [
      | strategy ↦ add_wallet_trackers subs total
      | wallet ↦ do
        tracked ← load (λ s. get_wallet_net_deployed s sub)
        total' ← or_panic (checked_add total tracked) (error math_overflow)
        add_wallet_trackers subs total'
    ]

  unfoldable pub get_wallet_deployed_assets : Action X ℤ
  get_wallet_deployed_assets = do subs ← load get_subaccounts; add_wallet_trackers subs (pos 0)

module _ {X : Type 0} (e : Env X) where
  -- `require_whitelisted` and the test of the type that follows it wherever a wallet is wanted.
  unfoldable pub require_wallet : Address → Action X (Unit {0})
  require_wallet a = do
    require_whitelisted e a
    kind ← load (λ s. get_subaccount_type s a)
    panic_if (not (is_wallet kind)) (error invalid_subaccount_type)

  unfoldable pub seed_wallet_net_deployed : Address → Address → ℤ → Action X (Unit {0})
  seed_wallet_net_deployed admin a amount = do
    bump_instance e
    require_admin e admin
    panic_if (ltb_ℤ amount (pos 0)) (error invalid_amount)
    require_wallet a
    old_amount ← load (λ s. get_wallet_net_deployed s a)
    panic_if (ltb_ℤ amount old_amount) (error wallet_seed_below_tracker)
    set_wallet_net_deployed a amount
    emit_wallet_net_deployed_seeded admin a old_amount amount

  unfoldable pub update_deployed_assets : Address → ℤ → Action X (Unit {0})
  update_deployed_assets operator amount = do
    bump_instance e
    require_operator e operator
    panic_if (ltb_ℤ amount (pos 0)) (error invalid_amount)
    old_deployed ← load get_deployed_assets
    apply_deployed_assets_change e operator old_deployed amount

  unfoldable pub update_wallet_deployed : Address → Address → ℤ → Action X (Unit {0})
  update_wallet_deployed operator a new_tracked = do
    bump_instance e
    require_operator e operator
    panic_if (ltb_ℤ new_tracked (pos 0)) (error invalid_amount)
    require_wallet a
    old_tracked ← load (λ s. get_wallet_net_deployed s a)
    delta ← or_panic (checked_sub new_tracked old_tracked) (error math_overflow)
    old_deployed ← load get_deployed_assets
    new_deployed ← or_panic (checked_add old_deployed delta) (error math_overflow)
    panic_if (ltb_ℤ new_deployed (pos 0)) (error deployed_assets_underflow)
    apply_deployed_assets_change e operator old_deployed new_deployed
    set_wallet_net_deployed a new_tracked
    emit_wallet_deployed_updated operator a old_tracked new_tracked delta

  -- The operator's part of the authorization of `remove_wallet_and_reconcile`: one key in both
  -- roles is not asked to authorize twice.
  unfoldable pub require_co_operator : Address → Address → Action X (Unit {0})
  require_co_operator admin operator =
      branch (not (admin == operator)) (require_operator e operator) do
        stored ← or_panic (← load (λ s. s.operator)) (error unauthorized)
        panic_if (not (operator == stored)) (error unauthorized)

  unfoldable pub remove_wallet_and_reconcile : Address → Address → Address → ℤ → Action X (Unit {0})
  remove_wallet_and_reconcile admin operator a new_deployed_total = do
    bump_instance e
    require_admin e admin
    require_co_operator admin operator
    panic_if (ltb_ℤ new_deployed_total (pos 0)) (error invalid_amount)
    require_wallet a
    old_deployed ← load get_deployed_assets
    apply_deployed_assets_change e operator old_deployed new_deployed_total
    do_remove_subaccount e admin a

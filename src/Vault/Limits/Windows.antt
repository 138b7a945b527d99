-- ===== src/Vault/Limits/Windows.antt =====
-- The cumulative window over whole histories of the vault (contracts/august-vault/src/contract.rs).
use stellar_upshift_vault_co.Base.{ℕ, ◌≡◌, some, arith}
use stellar_upshift_vault_co.Base.Int.{ℤ}
use stellar_upshift_vault_co.Soroban.{Address, Outcome, Ensures, Ensures-mono}
use stellar_upshift_vault_co.Vault.Errors.{Panic}
use stellar_upshift_vault_co.Vault.Storage.{Storage, get_deployed_assets}
use stellar_upshift_vault_co.Vault.State.{
  Env, World, bump_instance, require_admin, require_auth, require_operator, set_wallet_net_deployed,
}
use stellar_upshift_vault_co.Vault.State
use stellar_upshift_vault_co.Vault.Limits.Window.{IsWithinWindow, reset-Window, apply-Window}
use stellar_upshift_vault_co.Vault.Admin
use stellar_upshift_vault_co.Vault.Subaccounts.{require_whitelisted, do_remove_subaccount}
use stellar_upshift_vault_co.Vault.Wallets
use stellar_upshift_vault_co.Vault.Wallets.{require_wallet, require_co_operator}
use stellar_upshift_vault_co.Vault.Entry.{Request, execute}
use stellar_upshift_vault_co.Vault.History.{History, History-invariant}
use stellar_upshift_vault_co.Vault.Frame.Shares
use stellar_upshift_vault_co.Vault.Frame.Settings.{
  Kept, add-Kept, remove-Kept, do_remove-Kept, deposit_to-Kept, withdraw_from-Kept, seed-Kept,
}
use stellar_upshift_vault_co.Vault.Frame.Batches.{batch-Window}

Kept-Window : {s s' : Storage} → Kept s s' → IsWithinWindow s → IsWithinWindow s'
Kept-Window k h = record {
  deployed_nonneg = k.nonneg h.deployed_nonneg;
  base_nonneg = rw k.window.aum_window_base_deployed h.base_nonneg;
  increase =
      rw
        (
          k.window.aum_window_base_deployed, k.window.aum_cumulative_increase,
          k.settings.aum_cumulative_increase_limit,
        )
        h.increase;
  decrease =
      rw
        (
          k.window.aum_window_base_deployed, k.window.aum_cumulative_decrease,
          k.settings.aum_cumulative_decrease_limit,
        )
        h.decrease;
}

do_remove-Window :
    {X : Type 0} (e : Env X) (r a : Address) (w : World X)
    → IsWithinWindow w.store
    → Ensures (λ _ w'. IsWithinWindow w'.store) (do_remove_subaccount e r a w)
do_remove-Window e r a w h =
    Ensures-mono (do_remove_subaccount e r a w) (do_remove-Kept e r a w) (λ _ w' k. Kept-Window k h)

module _ {X : Type 0} (e : Env X) (w : World X) (h : IsWithinWindow w.store) where
  abbrev After : Outcome Panic (World X) (Unit {0}) → Type 0
  After o = Ensures (λ _ w'. IsWithinWindow w'.store) o

  by-Kept :
      (o : Outcome Panic (World X) (Unit {0})) → Ensures (λ _ w'. Kept w.store w'.store) o → After o
  by-Kept o k = Ensures-mono o k (λ _ w' r. Kept-Window r h)

  by_same :
      (o : Outcome Panic (World X) (Unit {0})) → Ensures (λ _ w'. w'.store ≡ w.store) o → After o
  by_same o s = Ensures-mono o s (λ _ w' r. rw r h)

  extend_ttl-Window : After (Admin.extend_ttl e w)
  unfolding Admin.extend_ttl bump_instance
  extend_ttl-Window = h

  accept-Window : After (Admin.accept_admin e w)
  unfolding Admin.accept_admin bump_instance require_auth
  accept-Window = ground arith

  propose-Window : (a n : Address) (t : ℕ) → After (Admin.propose_admin e a n t w)
  unfolding Admin.propose_admin bump_instance require_admin
  propose-Window a n t = ground arith

  cancel-Window : (a : Address) → After (Admin.cancel_admin_proposal e a w)
  unfolding Admin.cancel_admin_proposal bump_instance require_admin
  cancel-Window a = ground arith

  pause-Window : (a : Address) → After (Admin.pause e a w)
  unfolding Admin.pause bump_instance require_admin
  pause-Window a = ground arith

  unpause-Window : (a : Address) → After (Admin.unpause e a w)
  unfolding Admin.unpause bump_instance require_admin
  unpause-Window a = ground arith

  operator-Window : (a o : Address) → After (Admin.set_vault_operator e a o w)
  unfolding Admin.set_vault_operator bump_instance require_admin
  operator-Window a o = ground arith

  limits-Window : (a : Address) (i d : ℕ) → After (Admin.set_aum_limits e a i d w)
  unfolding Admin.set_aum_limits bump_instance require_admin State.set_aum_limits
  limits-Window a i d = ground arith

  window_limits-Window : (a : Address) (t i d : ℕ) → After (Admin.set_aum_window_limits e a t i d w)
  unfolding Admin.set_aum_window_limits bump_instance require_admin State.set_aum_window_limits
  window_limits-Window a t i d = ground (
    arith,
    reset-Window e (get_deployed_assets w.store)
        (record (w.store) {
          aum_window_duration = some t;
          aum_cumulative_increase_limit = some i;
          aum_cumulative_decrease_limit = some d;
        })
        h.deployed_nonneg h.deployed_nonneg,
  )

  update_deployed-Window : (o : Address) (v : ℤ) → After (Wallets.update_deployed_assets e o v w)
  unfolding Wallets.update_deployed_assets bump_instance require_operator
  update_deployed-Window o v = grind (arith, apply-Window)

  update_wallet-Window : (o a : Address) (v : ℤ) → After (Wallets.update_wallet_deployed e o a v w)
  unfolding Wallets.update_wallet_deployed bump_instance require_operator require_wallet
      require_whitelisted set_wallet_net_deployed
  update_wallet-Window o a v = grind (arith, apply-Window)

  reconcile-Window :
      (a o b : Address) (t : ℤ) → After (Wallets.remove_wallet_and_reconcile e a o b t w)
  unfolding Wallets.remove_wallet_and_reconcile bump_instance require_admin require_wallet
      require_whitelisted require_co_operator require_operator
  reconcile-Window a o b t = grind (arith, apply-Window, do_remove-Window)

-- Every request that returns keeps what accumulated in the window within the limits.
execute-Window :
    {X : Type 0} (e : Env X) (r : Request) (w : World X)
    → IsWithinWindow w.store
    → Ensures (λ _ w'. IsWithinWindow w'.store) (execute e r w)
unfolding execute
execute-Window e Request.extend_ttl w h = extend_ttl-Window e w h
execute-Window e Request.accept_admin w h = accept-Window e w h
execute-Window e (Request.propose_admin a n d) w h = propose-Window e w h a n d
execute-Window e (Request.cancel_admin_proposal a) w h = cancel-Window e w h a
execute-Window e (Request.pause a) w h = pause-Window e w h a
execute-Window e (Request.unpause a) w h = unpause-Window e w h a
execute-Window e (Request.set_operator a o) w h = operator-Window e w h a o
execute-Window e (Request.set_aum_limits a i d) w h = limits-Window e w h a i d
execute-Window e (Request.set_aum_window_limits a t i d) w h = window_limits-Window e w h a t i d
execute-Window e (Request.add_subaccount a b k) w h = by-Kept e w h _ (add-Kept e a b k w)
execute-Window e (Request.remove_subaccount a b) w h = by-Kept e w h _ (remove-Kept e a b w)
execute-Window e (Request.deposit_to_subaccount o a v) w h =
    by-Kept e w h _ (deposit_to-Kept e o a v w)
execute-Window e (Request.withdraw_from_subaccount o a v) w h =
    by-Kept e w h _ (withdraw_from-Kept e o a v w)
execute-Window e (Request.seed_wallet_net_deployed a b v) w h =
    by-Kept e w h _ (seed-Kept e a b v w)
execute-Window e (Request.update_wallet_deployed o a v) w h = update_wallet-Window e w h o a v
execute-Window e (Request.update_deployed_assets o v) w h = update_deployed-Window e w h o v
execute-Window e (Request.update_wallet_deployed_batch o u) w h = batch-Window e o u w h
execute-Window e (Request.remove_wallet_and_reconcile a o b t) w h = reconcile-Window e w h a o b t
execute-Window e (Request.transfer f t v) w h = by_same e w h _ (Shares.transfer-same e w f t v)
execute-Window e (Request.transfer_from p f t v) w h =
    by_same e w h _ (Shares.transfer_from-same e w p f t v)
execute-Window e (Request.approve o p v l) w h = by_same e w h _ (Shares.approve-same e w o p v l)
execute-Window e (Request.deposit v r f o) w h =
    by_same e w h _ (ground (arith, Shares.deposit-same e w v r f o))
execute-Window e (Request.mint v r f o) w h =
    by_same e w h _ (ground (arith, Shares.mint-same e w v r f o))
execute-Window e (Request.withdraw v r f o) w h =
    by_same e w h _ (ground (arith, Shares.withdraw-same e w v r f o))
execute-Window e (Request.redeem v r f o) w h =
    by_same e w h _ (ground (arith, Shares.redeem-same e w v r f o))

-- Along any history of the vault, whatever the requests and their environments: what accumulated in
-- the window since it opened is, in either direction, at most the cumulative limit of that
-- direction in basis points of the aggregate at the window's opening, and the aggregate is not
-- negative, if that holds where the history begins.
pub History-IsWithinWindow :
    {X : Type 0} {w w' : World X} → IsWithinWindow w.store → History w w' → IsWithinWindow w'.store
History-IsWithinWindow h past = History-invariant IsWithinWindow execute-Window h past

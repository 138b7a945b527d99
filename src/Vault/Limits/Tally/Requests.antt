-- ===== src/Vault/Limits/Tally/Requests.antt =====
-- The tally over whole histories of the vault (contracts/august-vault/src/contract.rs).
use stellar_upshift_vault_co.Base.{ℕ, ◌≡◌, [], arith}
use stellar_upshift_vault_co.Base.Int.{pos}
use stellar_upshift_vault_co.Soroban.{Address, Outcome, Ensures, Ensures-mono, Ensures_ok}
use stellar_upshift_vault_co.Vault.Errors.{Panic}
use stellar_upshift_vault_co.Vault.Storage.{
  Storage, get_deployed_assets, get_aum_cumulative_increase_limit,
  get_aum_cumulative_decrease_limit,
}
use stellar_upshift_vault_co.Vault.State.{Env, World, bump_instance, require_admin, require_auth}
use stellar_upshift_vault_co.Vault.State
use stellar_upshift_vault_co.Vault.Limits.Window.{WithinBps, IsWithinWindow}
use stellar_upshift_vault_co.Vault.Limits.Windows.{History-IsWithinWindow}
use stellar_upshift_vault_co.Vault.Limits.Tally.{Tally, opened, IsTallied}
use stellar_upshift_vault_co.Vault.Limits.Tally.Counted.{
  reported, Kept-IsTallied, Counted, reports-Counted,
}
use stellar_upshift_vault_co.Vault.Admin
use stellar_upshift_vault_co.Vault.Entry.{Request, execute}
use stellar_upshift_vault_co.Vault.History.{History, here, next, outside}
use stellar_upshift_vault_co.Vault.Frame.Shares
use stellar_upshift_vault_co.Vault.Frame.Settings.{
  Kept, add-Kept, remove-Kept, deposit_to-Kept, withdraw_from-Kept, seed-Kept,
}

-- The tally after a request that returns. Setting the limits opens a window; the four functions that
-- report values count; transfers to and from subaccounts, and the rest, do not.
abbrev pub tallied : {X : Type 0} → Env X → Request → Storage → Storage → Tally → Tally
tallied e (Request.set_aum_window_limits _ _ _ _) s s' g =
    opened e.timestamp (get_deployed_assets s)
tallied e (Request.update_deployed_assets _ _) s s' g = reported e.timestamp s s' g
tallied e (Request.update_wallet_deployed _ _ _) s s' g = reported e.timestamp s s' g
tallied e (Request.update_wallet_deployed_batch _ _) s s' g = reported e.timestamp s s' g
tallied e (Request.remove_wallet_and_reconcile _ _ _ _) s s' g = reported e.timestamp s s' g
tallied e _ s s' g = g

-- The tally along a history.
abbrev pub tally : {X : Type 0} {w w' : World X} → Tally → History w w' → Tally
tally g here = g
tally g (next {w₁} {w₂} e r past _) = tallied e r w₁.store w₂.store (tally g past)
tally g (outside _ past) = tally g past

module _ {X : Type 0} (e : Env X) (w : World X) (g : Tally) (h : IsTallied g w.store) where
  abbrev Stays : Outcome Panic (World X) (Unit {0}) → Type 0
  Stays o = Ensures (λ _ w'. IsTallied g w'.store) o

  by-Kept :
      (o : Outcome Panic (World X) (Unit {0})) → Ensures (λ _ w'. Kept w.store w'.store) o → Stays o
  by-Kept o k = Ensures-mono o k (λ _ w' r. Kept-IsTallied r h)

  by_same :
      (o : Outcome Panic (World X) (Unit {0})) → Ensures (λ _ w'. w'.store ≡ w.store) o → Stays o
  by_same o s = Ensures-mono o s (λ _ w' r. rw r h)

  settings-IsTallied :
      (a n : Address) (t i d : ℕ)
      → Stays (Admin.extend_ttl e w)
        × Stays (Admin.accept_admin e w)
        × Stays (Admin.propose_admin e a n t w)
        × Stays (Admin.cancel_admin_proposal e a w)
        × Stays (Admin.pause e a w)
        × Stays (Admin.unpause e a w)
        × Stays (Admin.set_vault_operator e a n w)
        × Stays (Admin.set_aum_limits e a i d w)
  unfolding Admin.extend_ttl Admin.accept_admin Admin.propose_admin Admin.cancel_admin_proposal
      Admin.pause Admin.unpause Admin.set_vault_operator Admin.set_aum_limits bump_instance
      require_admin require_auth State.set_aum_limits
  settings-IsTallied a n t i d = ground (arith, h.start_eq, h.base_eq, h.rises_eq, h.falls_eq)

  window_limits-IsTallied :
      (a : Address) (t i d : ℕ)
      → Ensures
          (λ _ w'. IsTallied (opened e.timestamp (get_deployed_assets w.store)) w'.store)
          (Admin.set_aum_window_limits e a t i d w)
  unfolding Admin.set_aum_window_limits bump_instance require_admin State.set_aum_window_limits
  window_limits-IsTallied a t i d = ground arith

-- Every request that returns keeps the counters equal to the tally.
execute-IsTallied :
    {X : Type 0} (e : Env X) (r : Request) (w : World X) (g : Tally)
    → IsTallied g w.store
    → Ensures (λ _ w'. IsTallied (tallied e r w.store w'.store g) w'.store) (execute e r w)
unfolding execute Counted
execute-IsTallied e Request.extend_ttl w g h = (settings-IsTallied e w g h 0 0 0 0 0).0
execute-IsTallied e Request.accept_admin w g h = (settings-IsTallied e w g h 0 0 0 0 0).1
execute-IsTallied e (Request.propose_admin a n d) w g h = (settings-IsTallied e w g h a n d 0 0).2
execute-IsTallied e (Request.cancel_admin_proposal a) w g h =
    (settings-IsTallied e w g h a 0 0 0 0).3
execute-IsTallied e (Request.pause a) w g h = (settings-IsTallied e w g h a 0 0 0 0).4
execute-IsTallied e (Request.unpause a) w g h = (settings-IsTallied e w g h a 0 0 0 0).5
execute-IsTallied e (Request.set_operator a o) w g h = (settings-IsTallied e w g h a o 0 0 0).6
execute-IsTallied e (Request.set_aum_limits a i d) w g h = (settings-IsTallied e w g h a 0 0 i d).7
execute-IsTallied e (Request.set_aum_window_limits a t i d) w g h =
    window_limits-IsTallied e w g h a t i d
execute-IsTallied e (Request.add_subaccount a b k) w g h = by-Kept e w g h _ (add-Kept e a b k w)
execute-IsTallied e (Request.remove_subaccount a b) w g h = by-Kept e w g h _ (remove-Kept e a b w)
execute-IsTallied e (Request.deposit_to_subaccount o a v) w g h =
    by-Kept e w g h _ (deposit_to-Kept e o a v w)
execute-IsTallied e (Request.withdraw_from_subaccount o a v) w g h =
    by-Kept e w g h _ (withdraw_from-Kept e o a v w)
execute-IsTallied e (Request.seed_wallet_net_deployed a b v) w g h =
    by-Kept e w g h _ (seed-Kept e a b v w)
execute-IsTallied e (Request.update_deployed_assets o v) w g h =
    (reports-Counted e w g h o 0 0 v []).0
execute-IsTallied e (Request.update_wallet_deployed o a v) w g h =
    (reports-Counted e w g h o a 0 v []).1
execute-IsTallied e (Request.update_wallet_deployed_batch o u) w g h =
    (reports-Counted e w g h o 0 0 (pos 0) u).2
execute-IsTallied e (Request.remove_wallet_and_reconcile a o b t) w g h =
    (reports-Counted e w g h o a b t []).3
execute-IsTallied e (Request.transfer f t v) w g h =
    by_same e w g h _ (Shares.transfer-same e w f t v)
execute-IsTallied e (Request.transfer_from p f t v) w g h =
    by_same e w g h _ (Shares.transfer_from-same e w p f t v)
execute-IsTallied e (Request.approve o p v l) w g h =
    by_same e w g h _ (Shares.approve-same e w o p v l)
execute-IsTallied e (Request.deposit v r f o) w g h =
    by_same e w g h _ (ground (arith, Shares.deposit-same e w v r f o))
execute-IsTallied e (Request.mint v r f o) w g h =
    by_same e w g h _ (ground (arith, Shares.mint-same e w v r f o))
execute-IsTallied e (Request.withdraw v r f o) w g h =
    by_same e w g h _ (ground (arith, Shares.withdraw-same e w v r f o))
execute-IsTallied e (Request.redeem v r f o) w g h =
    by_same e w g h _ (ground (arith, Shares.redeem-same e w v r f o))

-- Along a history the counters stay the tally.
History-IsTallied :
    {X : Type 0} {w w' : World X} (g : Tally) (past : History w w')
    → IsTallied g w.store
    → IsTallied (tally g past) w'.store
History-IsTallied g here h = h
History-IsTallied g (next {w₁} {w₂} e r past returned) h =
    Ensures_ok (λ _ w₂. IsTallied (tallied e r w₁.store w₂.store (tally g past)) w₂.store) returned
      (execute-IsTallied e r w₁ (tally g past) (History-IsTallied g past h))
History-IsTallied g (outside x past) h = History-IsTallied g past h

-- Along any history of the vault, whatever the requests and their environments: the rises and the
-- falls of the aggregate that the tally sums over the history's reports since the window opened are
-- each, where the history ends, at most the cumulative limit of that direction, as it is then, in
-- basis points of the aggregate at the window's opening. The reports are the four functions that set
-- the aggregate; transfers to and from subaccounts do not count, nor does a report that moves the
-- aggregate from 0 or comes in a window that opened at 0. The history begins where the counters are
-- the tally it is given and are within the limits.
pub History-tally :
    {X : Type 0} {w w' : World X} (g : Tally) (past : History w w')
    → IsTallied g w.store
    → IsWithinWindow w.store
    → WithinBps
        (get_aum_cumulative_increase_limit w'.store)
        (tally g past).base
        (tally g past).rises
      × WithinBps
          (get_aum_cumulative_decrease_limit w'.store)
          (tally g past).base
          (tally g past).falls
History-tally {w'} g past h within =
    let t = History-IsTallied g past h in
    let limits = History-IsWithinWindow within past in
    (rw (← t.base_eq, ← t.rises_eq) limits.increase, rw (← t.base_eq, ← t.falls_eq) limits.decrease)

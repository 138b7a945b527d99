-- ===== src/Vault/Handover.antt =====
-- The two-step transfer of the admin role (contracts/august-vault/src/contract.rs).
use stellar_upshift_vault_co.Base.{
  ℕ, ◌≡◌, ◌≢◌, ◌⊎◌, inl, inr, ◌≤◌, ◌<◌, true, none, some, arith, refl,
}
use stellar_upshift_vault_co.Soroban.{Address, Outcome, ◌>>◌, Ensures, Ensures-mono, Returns}
use stellar_upshift_vault_co.Vault.Errors.{Panic}
use stellar_upshift_vault_co.Vault.Storage.{Storage}
use stellar_upshift_vault_co.Vault.State.{Env, World, bump_instance, require_admin, require_auth}
use stellar_upshift_vault_co.Vault.State
use stellar_upshift_vault_co.Vault.Admin
use stellar_upshift_vault_co.Vault.Admin.{propose_admin, accept_admin}
use stellar_upshift_vault_co.Vault.Entry.{Request, execute}
use stellar_upshift_vault_co.Vault.Frame.{SameSettings}
use stellar_upshift_vault_co.Vault.Frame.Shares
use stellar_upshift_vault_co.Vault.Frame.Settings.{
  Kept, add-Kept, remove-Kept, deposit_to-Kept, withdraw_from-Kept, seed-Kept,
  update_deployed-Settings, update_wallet-Settings, reconcile-Settings,
}
use stellar_upshift_vault_co.Vault.Frame.Batches.{batch-Settings}

-- The pending admin, authorizing the call no later than the deadline, becomes the admin, and
-- nothing is pending any more.
pub record IsHandover {X : Type 0} (e : Env X) (s s' : Storage) : Type 0 where
  pub new_admin : Address
  pub deadline : ℕ
  pub pending : s.pending_admin ≡ some new_admin
  pub authorized : e.authorized new_admin ≡ true
  pub expiry : s.admin_proposal_expiry ≡ some deadline
  pub in_time : e.timestamp ≤ deadline
  pub admin : s'.admin ≡ some new_admin
  pub done : s'.pending_admin ≡ none

-- How the admin may change.
abbrev pub AdminStep : {X : Type 0} → Env X → Storage → Storage → Type 0
AdminStep e s s' = (s'.admin ≡ s.admin) ⊎ IsHandover e s s'

module _ {X : Type 0} (e : Env X) (w : World X) where
  abbrev Stays : Outcome Panic (World X) (Unit {0}) → Type 0
  Stays o = Ensures (λ _ w'. w'.store.admin ≡ w.store.admin) o

  Stays-AdminStep :
      (o : Outcome Panic (World X) (Unit {0}))
      → Stays o
      → Ensures (λ _ w'. AdminStep e w.store w'.store) o
  Stays-AdminStep o h = Ensures-mono o h (λ _ w' r. inl r)

  by-Kept :
      (o : Outcome Panic (World X) (Unit {0}))
      → Ensures (λ _ w'. Kept w.store w'.store) o
      → Ensures (λ _ w'. AdminStep e w.store w'.store) o
  by-Kept o h = Ensures-mono o h (λ _ w' r. inl r.settings.admin)

  by_settings :
      (o : Outcome Panic (World X) (Unit {0}))
      → Ensures (λ _ w'. SameSettings w.store w'.store) o
      → Ensures (λ _ w'. AdminStep e w.store w'.store) o
  by_settings o h = Ensures-mono o h (λ _ w' r. inl r.admin)

  by_same :
      (o : Outcome Panic (World X) (Unit {0}))
      → Ensures (λ _ w'. w'.store ≡ w.store) o
      → Ensures (λ _ w'. AdminStep e w.store w'.store) o
  by_same o h = Ensures-mono o h (λ _ w' r. inl (rw r refl))

  extend_ttl-admin : Stays (Admin.extend_ttl e w)
  unfolding Admin.extend_ttl bump_instance
  extend_ttl-admin = refl

  propose-admin : (a n : Address) (t : ℕ) → Stays (propose_admin e a n t w)
  unfolding propose_admin bump_instance require_admin
  propose-admin a n t = ground arith

  cancel-admin : (a : Address) → Stays (Admin.cancel_admin_proposal e a w)
  unfolding Admin.cancel_admin_proposal bump_instance require_admin
  cancel-admin a = ground arith

  pause-admin : (a : Address) → Stays (Admin.pause e a w)
  unfolding Admin.pause bump_instance require_admin
  pause-admin a = ground arith

  unpause-admin : (a : Address) → Stays (Admin.unpause e a w)
  unfolding Admin.unpause bump_instance require_admin
  unpause-admin a = ground arith

  operator-admin : (a o : Address) → Stays (Admin.set_vault_operator e a o w)
  unfolding Admin.set_vault_operator bump_instance require_admin
  operator-admin a o = ground arith

  limits-admin : (a : Address) (i d : ℕ) → Stays (Admin.set_aum_limits e a i d w)
  unfolding Admin.set_aum_limits bump_instance require_admin State.set_aum_limits
  limits-admin a i d = ground arith

  window_limits-admin : (a : Address) (t i d : ℕ) → Stays (Admin.set_aum_window_limits e a t i d w)
  unfolding Admin.set_aum_window_limits bump_instance require_admin State.set_aum_window_limits
  window_limits-admin a t i d = ground arith

  accept-IsHandover : Ensures (λ _ w'. IsHandover e w.store w'.store) (accept_admin e w)
  unfolding accept_admin bump_instance require_auth
  accept-IsHandover = ground arith

-- Whatever request returns, the admin stays the same, or a handover took place: the pending admin
-- authorized the call no later than the deadline of the proposal and is the admin now.
pub execute-AdminStep :
    {X : Type 0} (e : Env X) (r : Request) (w : World X)
    → Ensures (λ _ w'. AdminStep e w.store w'.store) (execute e r w)
unfolding execute
execute-AdminStep e Request.extend_ttl w = Stays-AdminStep e w _ (extend_ttl-admin e w)
execute-AdminStep e Request.accept_admin w =
    Ensures-mono (accept_admin e w) (accept-IsHandover e w) (λ _ w' h. inr h)
execute-AdminStep e (Request.propose_admin a n d) w =
    Stays-AdminStep e w _ (propose-admin e w a n d)
execute-AdminStep e (Request.cancel_admin_proposal a) w = Stays-AdminStep e w _ (cancel-admin e w a)
execute-AdminStep e (Request.pause a) w = Stays-AdminStep e w _ (pause-admin e w a)
execute-AdminStep e (Request.unpause a) w = Stays-AdminStep e w _ (unpause-admin e w a)
execute-AdminStep e (Request.set_operator a o) w = Stays-AdminStep e w _ (operator-admin e w a o)
execute-AdminStep e (Request.set_aum_limits a i d) w =
    Stays-AdminStep e w _ (limits-admin e w a i d)
execute-AdminStep e (Request.set_aum_window_limits a t i d) w =
    Stays-AdminStep e w _ (window_limits-admin e w a t i d)
execute-AdminStep e (Request.add_subaccount a b k) w = by-Kept e w _ (add-Kept e a b k w)
execute-AdminStep e (Request.remove_subaccount a b) w = by-Kept e w _ (remove-Kept e a b w)
execute-AdminStep e (Request.deposit_to_subaccount o a v) w =
    by-Kept e w _ (deposit_to-Kept e o a v w)
execute-AdminStep e (Request.withdraw_from_subaccount o a v) w =
    by-Kept e w _ (withdraw_from-Kept e o a v w)
execute-AdminStep e (Request.seed_wallet_net_deployed a b v) w = by-Kept e w _ (seed-Kept e a b v w)
execute-AdminStep e (Request.update_wallet_deployed o a v) w =
    by_settings e w _ (update_wallet-Settings e o a v w)
execute-AdminStep e (Request.update_deployed_assets o v) w =
    by_settings e w _ (update_deployed-Settings e o v w)
execute-AdminStep e (Request.update_wallet_deployed_batch o u) w =
    by_settings e w _ (batch-Settings e o u w)
execute-AdminStep e (Request.remove_wallet_and_reconcile a o b t) w =
    by_settings e w _ (reconcile-Settings e a o b t w)
execute-AdminStep e (Request.transfer f t v) w = by_same e w _ (Shares.transfer-same e w f t v)
execute-AdminStep e (Request.transfer_from p f t v) w =
    by_same e w _ (Shares.transfer_from-same e w p f t v)
execute-AdminStep e (Request.approve o p v l) w = by_same e w _ (Shares.approve-same e w o p v l)
execute-AdminStep e (Request.deposit v r f o) w =
    by_same e w _ (ground (arith, Shares.deposit-same e w v r f o))
execute-AdminStep e (Request.mint v r f o) w =
    by_same e w _ (ground (arith, Shares.mint-same e w v r f o))
execute-AdminStep e (Request.withdraw v r f o) w =
    by_same e w _ (ground (arith, Shares.withdraw-same e w v r f o))
execute-AdminStep e (Request.redeem v r f o) w =
    by_same e w _ (ground (arith, Shares.redeem-same e w v r f o))

-- A proposal that the stored admin authorizes, for another address and with a deadline ahead,
-- followed by an acceptance that the new admin authorizes no later than the deadline: both calls
-- return, the new address is the admin, and nothing is pending.
pub propose-accept :
    {X : Type 0} (e e' : Env X) (admin new : Address) (deadline : ℕ) (w : World X)
    → w.store.admin ≡ some admin
    → e.authorized admin ≡ true
    → e'.authorized new ≡ true
    → new ≢ admin
    → e.timestamp < deadline
    → e'.timestamp ≤ deadline
    → Returns
        (λ _ w'.
          (w'.store.admin ≡ some new)
          × (w'.store.pending_admin ≡ none)
          × (w'.store.admin_proposal_expiry ≡ none))
        ((propose_admin e admin new deadline >> accept_admin e') w)
unfolding propose_admin accept_admin bump_instance require_admin require_auth
propose-accept e e' admin new deadline w stored signed accepted other ahead in_time = ground arith

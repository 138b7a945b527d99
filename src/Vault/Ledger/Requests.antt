-- ===== src/Vault/Ledger/Requests.antt =====
-- Whole requests of contracts/august-vault/src/contract.rs: the shape of the whitelist, and the
-- abstract ledger.
use stellar_upshift_vault_co.Base.{◌≡◌, ◌≢◌, ◌⊎◌, inl, inr, refl, Option, none, some, arith}
use stellar_upshift_vault_co.Base.Int.{ℤ, pos}
use stellar_upshift_vault_co.Soroban.{Address, Outcome, Ensures, Ensures-mono}
use stellar_upshift_vault_co.Vault.Errors.{Panic}
use stellar_upshift_vault_co.Vault.Storage.{
  Storage, SubaccountType, strategy, wallet, get_subaccounts, get_subaccount_type,
  get_wallet_net_deployed,
}
use stellar_upshift_vault_co.Vault.State.{Env, World, bump_instance, require_operator}
use stellar_upshift_vault_co.Vault.Limits.Effect.{apply-Applied}
use stellar_upshift_vault_co.Vault.Subaccounts.{find_subaccount_index}
use stellar_upshift_vault_co.Vault.Wallets.{update_deployed_assets}
use stellar_upshift_vault_co.Vault.Entry.{Request, execute}
use stellar_upshift_vault_co.Vault.History.{History, History-invariant}
use stellar_upshift_vault_co.Vault.Frame.{SameBooks}
use stellar_upshift_vault_co.Vault.Frame.Admin
use stellar_upshift_vault_co.Vault.Frame.Shares
use stellar_upshift_vault_co.Vault.Books.Batches.{batch-Written}
use stellar_upshift_vault_co.Vault.Books.Whitelist.{Delisted, remove-Delisted, reconcile-Delisted}
use stellar_upshift_vault_co.Vault.Ledger.{
  Ledger, by_strategy, by_wallet, ledger, Same, Tracks, Spec, Rise, Fall,
}
use stellar_upshift_vault_co.Vault.Ledger.Changes.{
  Untouched, Moved, Passed, add-Entered, seed-Wrote, update-Wrote, deposit_to-Changed,
  withdraw_from-Changed,
}
use stellar_upshift_vault_co.Vault.Ledger.Listed.{
  IsListed, Untouched-IsListed, Wrote-IsListed, Entered-IsListed, Delisted-IsListed, Moved-IsListed,
  Written-IsListed,
}
use stellar_upshift_vault_co.Vault.Ledger.Refines.{
  ledger_wallet, ledger_strategy, Untouched-Same, Entered-put, Delisted-drop, Wrote-Tracks,
  Changed-Spec, AllWallets-AllTracked, Written-put_all,
}

-- What stands in the ledger at an address whose tracker is 0.
untracked :
    (kind : SubaccountType) (s : Storage) (k : Address)
    → get_subaccount_type s k ≡ kind
    → find_subaccount_index (get_subaccounts s) k ≢ none
    → get_wallet_net_deployed s k ≡ pos 0
    → (ledger s k ≡ some by_strategy) ⊎ (ledger s k ≡ some (by_wallet (pos 0)))
untracked strategy s k kind listed zero = inl (ledger_strategy s k listed kind)
untracked wallet s k kind listed zero = inr (ground (arith, ledger_wallet s k listed kind, zero))

Delisted-listed :
    {k : Address} {d : Option ℤ} {s s' : Storage}
    → Delisted k d s s'
    → find_subaccount_index (get_subaccounts s) k ≢ none
Delisted-listed u = ground (arith, u.found)

update_deployed-Untouched :
    {X : Type 0} (e : Env X) (operator : Address) (amount : ℤ) (w : World X)
    → Ensures (λ _ w'. Untouched w.store w'.store) (update_deployed_assets e operator amount w)
unfolding update_deployed_assets bump_instance require_operator
update_deployed-Untouched e operator amount w = grind (arith, apply-Applied)

module _ {X : Type 0} (e : Env X) (w : World X) (h : IsListed w.store) where
  -- The invariant holds again, and the ledger changed as `R` says.
  abbrev Keeps : (Ledger → Ledger → Type 0) → Outcome Panic (World X) (Unit {0}) → Type 0
  Keeps R o = Ensures (λ _ w'. IsListed w'.store × R (ledger w.store) (ledger w'.store)) o

  by-Untouched :
      (o : Outcome Panic (World X) (Unit {0}))
      → Ensures (λ _ w'. Untouched w.store w'.store) o
      → Keeps Same o
  by-Untouched o u = Ensures-mono o u (λ _ w' m. (Untouched-IsListed m h, Untouched-Same m))

  by_frame :
      (o : Outcome Panic (World X) (Unit {0}))
      → Ensures (λ _ w'. SameBooks w.store w'.store) o
      → Keeps Same o
  by_frame o f = by-Untouched o (
      Ensures-mono o f λ _ w' m. record {
        subaccounts = m.subaccounts;
        subaccount_types = m.subaccount_types;
        wallet_net_deployed = m.wallet_net_deployed;
      })

  by-Same :
      (o : Outcome Panic (World X) (Unit {0}))
      → Ensures (λ _ w'. w'.store ≡ w.store) o
      → Keeps Same o
  by-Same o f = by-Untouched o (
      Ensures-mono o f λ _ w' m. record {
        subaccounts = rw m refl;
        subaccount_types = rw m refl;
        wallet_net_deployed = rw m refl;
      })

  by_change :
      (R : ℤ → ℤ → Type 0) (k : Address) (o : Outcome Panic (World X) (Unit {0}))
      → Ensures (λ _ w'. Passed k w.store w'.store ⊎ Moved R k w.store w'.store) o
      → Keeps (λ l l'. ((l k ≡ some by_strategy) × Same l l') ⊎ Tracks R k l l') o
  by_change R k o c = Ensures-mono o c (λ _ w' m. (Moved-IsListed m h, Changed-Spec m))

  by_record :
      (r : Request) {P : World X → Type 0} (o : Outcome Panic (World X) (Unit {0}))
      → Ensures (λ _ w'. P w') o
      → ((w' : World X) → P w' → IsListed w'.store × Spec r (ledger w.store) (ledger w'.store))
      → Keeps (Spec r) o
  by_record r o p f = Ensures-mono o p (λ _. f)

execute-Keeps :
    {X : Type 0} (e : Env X) (r : Request) (w : World X) (h : IsListed w.store)
    → Keeps e w h (Spec r) (execute e r w)
unfolding execute
execute-Keeps e Request.extend_ttl w h = by_frame e w h _ (Admin.extend_ttl-SameBooks e w)
execute-Keeps e Request.accept_admin w h = by_frame e w h _ (Admin.accept-SameBooks e w)
execute-Keeps e (Request.propose_admin a n d) w h =
    by_frame e w h _ (Admin.propose-SameBooks e w a n d)
execute-Keeps e (Request.cancel_admin_proposal a) w h =
    by_frame e w h _ (Admin.cancel-SameBooks e w a)
execute-Keeps e (Request.pause a) w h = by_frame e w h _ (Admin.pause-SameBooks e w a)
execute-Keeps e (Request.unpause a) w h = by_frame e w h _ (Admin.unpause-SameBooks e w a)
execute-Keeps e (Request.set_operator a o) w h = by_frame e w h _ (Admin.operator-SameBooks e w a o)
execute-Keeps e (Request.set_aum_limits a i d) w h =
    by_frame e w h _ (Admin.limits-SameBooks e w a i d)
execute-Keeps e (Request.set_aum_window_limits a t i d) w h =
    by_frame e w h _ (Admin.window_limits-SameBooks e w a t i d)
execute-Keeps e (Request.add_subaccount a k kind) w h =
    by_record e w h (Request.add_subaccount a k kind) _ (add-Entered e a k kind w) λ w' u.
      (Entered-IsListed u h, (ground (arith, u.unlisted), Entered-put (h.fresh k u.unlisted) u))
execute-Keeps e (Request.remove_subaccount a k) w h =
    by_record e w h (Request.remove_subaccount a k) _ (remove-Delisted e a k w) λ w' u. (
      Delisted-IsListed u.1 h,
      (
        untracked (get_subaccount_type w.store k) w.store k refl (Delisted-listed u.1) u.0,
        Delisted-drop h.distinct u.1,
      ),
    )
execute-Keeps e (Request.deposit_to_subaccount o k v) w h =
    by_change e w h Rise k _ (deposit_to-Changed e o k v w)
execute-Keeps e (Request.withdraw_from_subaccount o k v) w h =
    by_change e w h Fall k _ (withdraw_from-Changed e o k v w)
execute-Keeps e (Request.seed_wallet_net_deployed a k v) w h =
    by_record e w h (Request.seed_wallet_net_deployed a k v) _ (seed-Wrote e a k v w)
      λ w' u. (Wrote-IsListed u.1 h, Wrote-Tracks (refl, u.0) u.1)
execute-Keeps e (Request.update_wallet_deployed o k v) w h =
    by_record e w h (Request.update_wallet_deployed o k v) _ (update-Wrote e o k v w)
      λ w' u. (Wrote-IsListed u h, Wrote-Tracks (refl, u.nonneg) u)
execute-Keeps e (Request.update_deployed_assets o v) w h =
    by-Untouched e w h _ (update_deployed-Untouched e o v w)
execute-Keeps e (Request.update_wallet_deployed_batch o u) w h =
    by_record e w h (Request.update_wallet_deployed_batch o u) _ (batch-Written e o u w) λ w' b. (
      Written-IsListed u b.1 b.2 h,
      (AllWallets-AllTracked w.store u b.1, Written-put_all u b.1 b.2),
    )
execute-Keeps e (Request.remove_wallet_and_reconcile a o k t) w h =
    by_record e w h (Request.remove_wallet_and_reconcile a o k t) _ (reconcile-Delisted e a o k t w)
      λ w' u. (
        Delisted-IsListed u.1 h,
        (
          (get_wallet_net_deployed w.store k, ledger_wallet w.store k (Delisted-listed u.1) u.0),
          Delisted-drop h.distinct u.1,
        ),
      )
execute-Keeps e (Request.transfer f t v) w h = by-Same e w h _ (Shares.transfer-same e w f t v)
execute-Keeps e (Request.transfer_from s f t v) w h =
    by-Same e w h _ (Shares.transfer_from-same e w s f t v)
execute-Keeps e (Request.approve o s v l) w h = by-Same e w h _ (Shares.approve-same e w o s v l)
execute-Keeps e (Request.deposit v r f o) w h =
    by-Same e w h _ (ground (arith, Shares.deposit-same e w v r f o))
execute-Keeps e (Request.mint v r f o) w h =
    by-Same e w h _ (ground (arith, Shares.mint-same e w v r f o))
execute-Keeps e (Request.withdraw v r f o) w h =
    by-Same e w h _ (ground (arith, Shares.withdraw-same e w v r f o))
execute-Keeps e (Request.redeem v r f o) w h =
    by-Same e w h _ (ground (arith, Shares.redeem-same e w v r f o))

-- The vault refines the ledger: a request that returns, from a whitelist without repetitions and
-- within its bound and trackers that are not negative and 0 off the whitelist, changes the ledger as
-- the specification says. Adding enters an address that was absent, with tracker 0; removing takes
-- out a strategy or a wallet with tracker 0; a reconciliation takes out a wallet; a transfer to a
-- wallet raises its tracker, one from it lowers it to no less than 0, and one to or from a strategy
-- changes nothing; a seed raises a tracker to the amount or leaves it, updates set trackers to the
-- amounts; every other request leaves the ledger.
pub execute-refines :
    {X : Type 0} (e : Env X) (r : Request) (w : World X)
    → IsListed w.store
    → Ensures (λ _ w'. Spec r (ledger w.store) (ledger w'.store)) (execute e r w)
execute-refines e r w h = Ensures-mono (execute e r w) (execute-Keeps e r w h) (λ _ w' k. k.1)

-- Along any history of the vault, whatever the requests and their environments, the whitelist has no
-- repetition and at most 10 addresses, no tracker is negative, and none stands off the whitelist, if
-- that holds where the history begins.
pub History-IsListed :
    {X : Type 0} {w w' : World X} → IsListed w.store → History w w' → IsListed w'.store
History-IsListed h past =
    History-invariant IsListed
      (λ e r w k. Ensures-mono (execute e r w) (execute-Keeps e r w k) (λ _ w' m. m.0)) h past

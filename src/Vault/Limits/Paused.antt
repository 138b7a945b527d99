-- ===== src/Vault/Limits/Paused.antt =====
-- The aggregate while the vault is paused (contracts/august-vault/src/contract.rs).
use stellar_upshift_vault_co.Base.{◌≡◌, refl, true, false, arith}
use stellar_upshift_vault_co.Base.Int.{ℤ, ◌≤ℤ◌}
use stellar_upshift_vault_co.Soroban.{Address, Outcome, Ensures, Ensures-mono}
use stellar_upshift_vault_co.Vault.Errors.{Panic}
use stellar_upshift_vault_co.Vault.Storage.{Storage, is_paused, get_deployed_assets}
use stellar_upshift_vault_co.Vault.State.{
  Env, World, bump_instance, require_admin, require_operator, set_wallet_net_deployed,
}
use stellar_upshift_vault_co.Vault.Limits.{apply_deployed_assets_change}
use stellar_upshift_vault_co.Vault.Limits.Effect.{apply-Applied}
use stellar_upshift_vault_co.Vault.Limits.Rate.{apply-NoRise}
use stellar_upshift_vault_co.Vault.Access.{IsAdmin, IsOperator}
use stellar_upshift_vault_co.Vault.Access.Operations.{
  add_subaccount-IsPermitted, deposit_to_subaccount-IsPermitted,
  withdraw_from_subaccount-IsPermitted,
}
use stellar_upshift_vault_co.Vault.Subaccounts.{
  require_whitelisted, do_remove_subaccount, remove_subaccount,
}
use stellar_upshift_vault_co.Vault.Wallets.{
  require_wallet, require_co_operator, seed_wallet_net_deployed, update_deployed_assets,
  update_wallet_deployed, remove_wallet_and_reconcile,
}
use stellar_upshift_vault_co.Vault.Batch.{Updates, apply_batch, update_wallet_deployed_batch}
use stellar_upshift_vault_co.Vault.Entry.{Request, execute}
use stellar_upshift_vault_co.Vault.Frame.{SameBooks}
use stellar_upshift_vault_co.Vault.Frame.Admin
use stellar_upshift_vault_co.Vault.Frame.Shares
use stellar_upshift_vault_co.Vault.Frame.Batches.{validate-same, commit-OnlyTrackers}
use stellar_upshift_vault_co.Vault.Books.Whitelist.{do_remove-Delisted}

-- The aggregate has not risen.
abbrev pub NoRise : Storage → Storage → Type 0
NoRise s s' = get_deployed_assets s' ≤ℤ get_deployed_assets s

module _ {X : Type 0} (e : Env X) where
  apply-same_or_less :
      (actor : Address) (new : ℤ) (w : World X)
      → is_paused w.store ≡ true
      → Ensures
          (λ _ w'. NoRise w.store w'.store)
          (apply_deployed_assets_change e actor (get_deployed_assets w.store) new w)
  apply-same_or_less actor new w p = ground (
    arith,
    apply-NoRise e actor (get_deployed_assets w.store) new w p,
    apply-Applied e actor (get_deployed_assets w.store) new w,
  )

  apply_batch-NoRise :
      (operator : Address) (updates : Updates) (d : ℤ) (w : World X)
      → is_paused w.store ≡ true
      → Ensures (λ _ w'. NoRise w.store w'.store) (apply_batch e operator updates d w)
  unfolding apply_batch
  apply_batch-NoRise operator updates d w p = grind (arith, apply-same_or_less, commit-OnlyTrackers)

  do_remove-NoRise :
      (r a : Address) (w : World X)
      → Ensures
          (λ _ w'. get_deployed_assets w'.store ≡ get_deployed_assets w.store)
          (do_remove_subaccount e r a w)
  do_remove-NoRise r a w =
      Ensures-mono (do_remove_subaccount e r a w) (do_remove-Delisted e r a w)
        (λ _ w' l. rw l.deployed_assets refl)

module _ {X : Type 0} (e : Env X) (w : World X) (p : is_paused w.store ≡ true) where
  abbrev Falls : Outcome Panic (World X) (Unit {0}) → Type 0
  Falls o = Ensures (λ _ w'. NoRise w.store w'.store) o

  by_frame :
      (o : Outcome Panic (World X) (Unit {0}))
      → Ensures (λ _ w'. SameBooks w.store w'.store) o
      → Falls o
  by_frame o h = Ensures-mono o h (λ _ w' m. rw m.deployed_assets (omega arith))

  by_same :
      (o : Outcome Panic (World X) (Unit {0})) → Ensures (λ _ w'. w'.store ≡ w.store) o → Falls o
  by_same o h = Ensures-mono o h (λ _ w' m. rw m (omega arith))

  by_pause :
      (A : Type 0) (o : Outcome Panic (World X) (Unit {0}))
      → Ensures (λ _ _. A × (is_paused w.store ≡ false)) o
      → Falls o
  by_pause A o h = Ensures-mono o h (λ _ w' f. ground (arith, f.1, p))

  seed-NoRise : (a b : Address) (v : ℤ) → Falls (seed_wallet_net_deployed e a b v w)
  unfolding seed_wallet_net_deployed bump_instance require_admin require_wallet require_whitelisted
      set_wallet_net_deployed
  seed-NoRise a b v = ground arith

  remove-NoRise : (a b : Address) → Falls (remove_subaccount e a b w)
  unfolding remove_subaccount bump_instance require_admin
  remove-NoRise a b = grind (arith, do_remove-NoRise)

  update_deployed-NoRise : (o : Address) (v : ℤ) → Falls (update_deployed_assets e o v w)
  unfolding update_deployed_assets bump_instance require_operator
  update_deployed-NoRise o v = grind (arith, apply-same_or_less)

  update_wallet-NoRise : (o a : Address) (v : ℤ) → Falls (update_wallet_deployed e o a v w)
  unfolding update_wallet_deployed bump_instance require_operator require_wallet require_whitelisted
      set_wallet_net_deployed
  update_wallet-NoRise o a v = grind (arith, apply-same_or_less)

  batch-NoRise : (o : Address) (u : Updates) → Falls (update_wallet_deployed_batch e o u w)
  unfolding update_wallet_deployed_batch bump_instance require_operator
  batch-NoRise o u = grind (arith, validate-same, apply_batch-NoRise)

  reconcile-NoRise : (a o b : Address) (t : ℤ) → Falls (remove_wallet_and_reconcile e a o b t w)
  unfolding remove_wallet_and_reconcile bump_instance require_admin require_wallet
      require_whitelisted require_co_operator require_operator
  reconcile-NoRise a o b t = grind (arith, apply-same_or_less, do_remove-NoRise)

-- While the vault is paused, no request that returns raises `deployed_assets`.
pub execute-NoRise :
    {X : Type 0} (e : Env X) (r : Request) (w : World X)
    → is_paused w.store ≡ true
    → Ensures (λ _ w'. NoRise w.store w'.store) (execute e r w)
unfolding execute
execute-NoRise e Request.extend_ttl w p = by_frame e w p _ (Admin.extend_ttl-SameBooks e w)
execute-NoRise e Request.accept_admin w p = by_frame e w p _ (Admin.accept-SameBooks e w)
execute-NoRise e (Request.propose_admin a n d) w p =
    by_frame e w p _ (Admin.propose-SameBooks e w a n d)
execute-NoRise e (Request.cancel_admin_proposal a) w p =
    by_frame e w p _ (Admin.cancel-SameBooks e w a)
execute-NoRise e (Request.pause a) w p = by_frame e w p _ (Admin.pause-SameBooks e w a)
execute-NoRise e (Request.unpause a) w p = by_frame e w p _ (Admin.unpause-SameBooks e w a)
execute-NoRise e (Request.set_operator a o) w p =
    by_frame e w p _ (Admin.operator-SameBooks e w a o)
execute-NoRise e (Request.set_aum_limits a i d) w p =
    by_frame e w p _ (Admin.limits-SameBooks e w a i d)
execute-NoRise e (Request.set_aum_window_limits a t i d) w p =
    by_frame e w p _ (Admin.window_limits-SameBooks e w a t i d)
execute-NoRise e (Request.add_subaccount a b k) w p =
    by_pause e w p (IsAdmin e w.store a) _ (add_subaccount-IsPermitted e w a b k)
execute-NoRise e (Request.remove_subaccount a b) w p = remove-NoRise e w p a b
execute-NoRise e (Request.deposit_to_subaccount o a v) w p =
    by_pause e w p (IsOperator e w.store o) _ (deposit_to_subaccount-IsPermitted e w o a v)
execute-NoRise e (Request.withdraw_from_subaccount o a v) w p =
    by_pause e w p (IsOperator e w.store o) _ (withdraw_from_subaccount-IsPermitted e w o a v)
execute-NoRise e (Request.seed_wallet_net_deployed a b v) w p = seed-NoRise e w p a b v
execute-NoRise e (Request.update_wallet_deployed o a v) w p = update_wallet-NoRise e w p o a v
execute-NoRise e (Request.update_deployed_assets o v) w p = update_deployed-NoRise e w p o v
execute-NoRise e (Request.update_wallet_deployed_batch o u) w p = batch-NoRise e w p o u
execute-NoRise e (Request.remove_wallet_and_reconcile a o b t) w p = reconcile-NoRise e w p a o b t
execute-NoRise e (Request.transfer f t v) w p = by_same e w p _ (Shares.transfer-same e w f t v)
execute-NoRise e (Request.transfer_from s f t v) w p =
    by_same e w p _ (Shares.transfer_from-same e w s f t v)
execute-NoRise e (Request.approve o s v l) w p = by_same e w p _ (Shares.approve-same e w o s v l)
execute-NoRise e (Request.deposit v r f o) w p =
    by_same e w p _ (ground (arith, Shares.deposit-same e w v r f o))
execute-NoRise e (Request.mint v r f o) w p =
    by_same e w p _ (ground (arith, Shares.mint-same e w v r f o))
execute-NoRise e (Request.withdraw v r f o) w p =
    by_same e w p _ (ground (arith, Shares.withdraw-same e w v r f o))
execute-NoRise e (Request.redeem v r f o) w p =
    by_same e w p _ (ground (arith, Shares.redeem-same e w v r f o))

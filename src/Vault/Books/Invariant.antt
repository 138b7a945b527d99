-- ===== src/Vault/Books/Invariant.antt =====
-- The books over whole histories of the vault (contracts/august-vault/src/contract.rs).
use stellar_upshift_vault_co.Base.{◌≡◌, arith}
use stellar_upshift_vault_co.Base.Int.{◌+ℤ◌}
use stellar_upshift_vault_co.Soroban.{Outcome, ok, Ensures, Ensures-mono, Ensures_ok}
use stellar_upshift_vault_co.Vault.Errors.{Panic}
use stellar_upshift_vault_co.Vault.Storage.{Storage, get_deployed_assets, get_wallet_net_deployed}
use stellar_upshift_vault_co.Vault.State.{Env, World}
use stellar_upshift_vault_co.Vault.Frame.{SameBooks}
use stellar_upshift_vault_co.Vault.Frame.Admin
use stellar_upshift_vault_co.Vault.Frame.Shares
use stellar_upshift_vault_co.Vault.Entry.{Request, execute}
use stellar_upshift_vault_co.Vault.Books.{IsBalanced, Move, keep}
use stellar_upshift_vault_co.Vault.Books.Moves.{Move-IsBalanced}
use stellar_upshift_vault_co.Vault.Books.Transfers.{deposit_to-Move, withdraw_from-Move}
use stellar_upshift_vault_co.Vault.Books.Whitelist.{add-Move, remove-Move, reconcile-Move}
use stellar_upshift_vault_co.Vault.Books.Updates.{update_wallet-Move}
use stellar_upshift_vault_co.Vault.Books.Batches.{batch-IsBalanced}

-- The requests that move trackers and aggregate in step: all but the two escape hatches, and
-- `remove_wallet_and_reconcile` where the new total is the old one less the wallet's tracker.
abbrev pub InStep : Storage → Request → Type 0
InStep s (Request.seed_wallet_net_deployed _ _ _) = ⊥
InStep s (Request.update_deployed_assets _ _) = ⊥
InStep s (Request.remove_wallet_and_reconcile _ _ a total) =
    total +ℤ get_wallet_net_deployed s a ≡ get_deployed_assets s
InStep s _ = Unit

-- A history: invocations that return, each with its own environment, and changes outside the vault
-- between them. An invocation that panics is rolled back, so it leaves no trace here.
pub data Reach {X : Type 0} (w : World X) : World X → Type 0 where
  here : Reach w w
  next :
      {w₁ w₂ : World X} (e : Env X) (r : Request)
      → Reach w w₁
      → InStep w₁.store r
      → execute e r w₁ ≡ ok tt w₂
      → Reach w w₂
  outside : {w₁ : World X} (x : X) → Reach w w₁ → Reach w (record w₁ { ext = x })

module _ {X : Type 0} (e : Env X) (w : World X) where
  abbrev Balances : World X → Type 0
  Balances w' = IsBalanced w.store → IsBalanced w'.store

  by-Move :
      (o : Outcome Panic (World X) (Unit {0}))
      → Ensures (λ _ w'. Move w.store w'.store) o
      → Ensures (λ _ w'. Balances w') o
  by-Move o h = Ensures-mono o h (λ _ w' m. Move-IsBalanced m)

  by_frame :
      (o : Outcome Panic (World X) (Unit {0}))
      → Ensures (λ _ w'. SameBooks w.store w'.store) o
      → Ensures (λ _ w'. Balances w') o
  by_frame o h = Ensures-mono o h λ _ w' m.
      Move-IsBalanced
        (keep m.subaccounts m.subaccount_types m.wallet_net_deployed m.deployed_assets)

  by_same :
      (o : Outcome Panic (World X) (Unit {0}))
      → Ensures (λ _ w'. w'.store ≡ w.store) o
      → Ensures (λ _ w'. Balances w') o
  by_same o h = Ensures-mono o h (λ _ w' m b. rw m b)

  execute-IsBalanced :
      (r : Request) → InStep w.store r → Ensures (λ _ w'. Balances w') (execute e r w)
  unfolding execute
  execute-IsBalanced Request.extend_ttl s = by_frame _ (Admin.extend_ttl-SameBooks e w)
  execute-IsBalanced Request.accept_admin s = by_frame _ (Admin.accept-SameBooks e w)
  execute-IsBalanced (Request.propose_admin a n d) s =
      by_frame _ (Admin.propose-SameBooks e w a n d)
  execute-IsBalanced (Request.cancel_admin_proposal a) s = by_frame _ (Admin.cancel-SameBooks e w a)
  execute-IsBalanced (Request.pause a) s = by_frame _ (Admin.pause-SameBooks e w a)
  execute-IsBalanced (Request.unpause a) s = by_frame _ (Admin.unpause-SameBooks e w a)
  execute-IsBalanced (Request.set_operator a o) s = by_frame _ (Admin.operator-SameBooks e w a o)
  execute-IsBalanced (Request.set_aum_limits a i d) s =
      by_frame _ (Admin.limits-SameBooks e w a i d)
  execute-IsBalanced (Request.set_aum_window_limits a t i d) s =
      by_frame _ (Admin.window_limits-SameBooks e w a t i d)
  execute-IsBalanced (Request.add_subaccount a b k) s = by-Move _ (add-Move e a b k w)
  execute-IsBalanced (Request.remove_subaccount a b) s = by-Move _ (remove-Move e a b w)
  execute-IsBalanced (Request.deposit_to_subaccount o a v) s = by-Move _ (deposit_to-Move e o a v w)
  execute-IsBalanced (Request.withdraw_from_subaccount o a v) s =
      by-Move _ (withdraw_from-Move e o a v w)
  execute-IsBalanced (Request.seed_wallet_net_deployed _ _ _) s = absurd s
  execute-IsBalanced (Request.update_wallet_deployed o a v) s =
      by-Move _ (update_wallet-Move e o a v w)
  execute-IsBalanced (Request.update_deployed_assets _ _) s = absurd s
  execute-IsBalanced (Request.update_wallet_deployed_batch o u) s = batch-IsBalanced e o u w
  execute-IsBalanced (Request.remove_wallet_and_reconcile a o b t) s =
      by-Move _ (reconcile-Move e a o b t w s)
  execute-IsBalanced (Request.transfer f t v) s = by_same _ (Shares.transfer-same e w f t v)
  execute-IsBalanced (Request.transfer_from p f t v) s =
      by_same _ (Shares.transfer_from-same e w p f t v)
  execute-IsBalanced (Request.approve o p v l) s = by_same _ (Shares.approve-same e w o p v l)
  execute-IsBalanced (Request.deposit v r f o) s =
      by_same _ (ground (arith, Shares.deposit-same e w v r f o))
  execute-IsBalanced (Request.mint v r f o) s =
      by_same _ (ground (arith, Shares.mint-same e w v r f o))
  execute-IsBalanced (Request.withdraw v r f o) s =
      by_same _ (ground (arith, Shares.withdraw-same e w v r f o))
  execute-IsBalanced (Request.redeem v r f o) s =
      by_same _ (ground (arith, Shares.redeem-same e w v r f o))

-- Along any history of requests that move trackers and aggregate in step, the books stay balanced:
-- the whitelist has no repetition, no address off it has a tracker, and the trackers of its wallets
-- add up to `deployed_assets`.
pub Reach-IsBalanced :
    {X : Type 0} {w w' : World X} → IsBalanced w.store → Reach w w' → IsBalanced w'.store
Reach-IsBalanced b here = b
Reach-IsBalanced b (next {w₁} {w₂} e r h s returned) =
    Ensures_ok (λ _ w'. Balances e w₁ w') returned (execute-IsBalanced e w₁ r s)
      (Reach-IsBalanced b h)
Reach-IsBalanced b (outside x h) = Reach-IsBalanced b h

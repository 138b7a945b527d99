-- ===== src/Strategy/Entry.antt =====
-- The entry points of contracts/xlm-strategy/src/lib.rs as one type of requests, and histories of
-- the strategy: invocations that return, and changes outside the strategy between them. An
-- invocation that panics is rolled back, so it leaves no trace.
use stellar_upshift_vault_co.Base.{◌≡◌}
use stellar_upshift_vault_co.Base.Int.{ℤ}
use stellar_upshift_vault_co.Soroban.{Address, ok, ◌>>◌, pure, Ensures, Ensures_ok}
use stellar_upshift_vault_co.Strategy.State.{Storage, Env, World, Action}
use stellar_upshift_vault_co.Strategy.Funds
use stellar_upshift_vault_co.Strategy.Protocol
use stellar_upshift_vault_co.Strategy.Settle

pub data Request : Type 0 where
  extend_ttl get_asset get_balance : Request
  deposit withdraw : Address → ℤ → Request
  set_controller : Address → Address → Request
  deploy_to_protocol recall_from_protocol recover_donation : Address → Address → ℤ → Request
  settle_protocol_returns seed_local_balance seed_deployed_total : Address → ℤ → Request

module _ {X : Type 0} (e : Env X) where
  unfoldable pub execute : Request → Action X (Unit {0})
  execute extend_ttl = Funds.extend_ttl e
  execute get_asset = Funds.get_asset e >> pure tt
  execute get_balance = Funds.get_balance e >> pure tt
  execute (deposit from amount) = Funds.deposit e from amount
  execute (withdraw to amount) = Funds.withdraw e to amount >> pure tt
  execute (set_controller current new) = Funds.set_controller e current new
  execute (deploy_to_protocol controller protocol amount) =
      Protocol.deploy_to_protocol e controller protocol amount
  execute (recall_from_protocol controller protocol amount) =
      Protocol.recall_from_protocol e controller protocol amount
  execute (recover_donation controller recipient amount) =
      Protocol.recover_donation e controller recipient amount
  execute (settle_protocol_returns controller total) =
      Settle.settle_protocol_returns e controller total
  execute (seed_local_balance controller amount) = Settle.seed_local_balance e controller amount
  execute (seed_deployed_total controller amount) = Settle.seed_deployed_total e controller amount

pub data History {X : Type 0} (w : World X) : World X → Type 0 where
  here : History w w
  next :
      {w₁ w₂ : World X} (e : Env X) (r : Request)
      → History w w₁
      → execute e r w₁ ≡ ok tt w₂
      → History w w₂
  outside : {w₁ : World X} (x : X) → History w w₁ → History w (record w₁ { ext = x })

-- What every request keeps holds along a history.
pub History-invariant :
    {X : Type 0} (P : Storage → Type 0)
    → ((e : Env X) (r : Request) (w : World X)
        → P w.store
        → Ensures (λ _ w'. P w'.store) (execute e r w))
    → {w w' : World X} → P w.store
    → History w w'
    → P w'.store
History-invariant P step p here = p
History-invariant P step p (next {w₁} {w₂} e r h returned) =
    Ensures_ok (λ _ w'. P w'.store) returned (step e r w₁ (History-invariant P step p h))
History-invariant P step p (outside x h) = History-invariant P step p h

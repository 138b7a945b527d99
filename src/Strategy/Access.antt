-- ===== src/Strategy/Access.antt =====
-- Who may call what (contracts/xlm-strategy/src/lib.rs).
use stellar_upshift_vault_co.Base.{◌≡◌, ◌≢◌, ◌⊎◌, true, some, arith}
use stellar_upshift_vault_co.Base.Int.{ℤ, pos, ◌≤ℤ◌}
use stellar_upshift_vault_co.Soroban.{Address, Ensures}
use stellar_upshift_vault_co.Strategy.State.{Storage, Env, World}
use stellar_upshift_vault_co.Strategy.Helpers.{
  bump_instance, require_auth, require_vault, require_controller, require_valid_protocol_target,
}
use stellar_upshift_vault_co.Strategy.Funds
use stellar_upshift_vault_co.Strategy.Protocol
use stellar_upshift_vault_co.Strategy.Settle
use stellar_upshift_vault_co.Strategy.Entry.{Request, execute}

-- An address that authorized the call and is the stored controller.
abbrev pub IsController : {X : Type 0} → Env X → Storage → Address → Type 0
IsController e s a = (e.authorized a ≡ true) × (s.controller ≡ some a)

-- The stored vault; it authorized the call where the amount is positive.
abbrev pub IsVault : {X : Type 0} → Env X → Storage → Address → ℤ → Type 0
IsVault e s a v = (s.vault ≡ some a) × ((v ≤ℤ pos 0) ⊎ (e.authorized a ≡ true))

-- A target of transfers: neither the strategy nor its vault.
abbrev pub IsTarget : {X : Type 0} → Env X → Storage → Address → Type 0
IsTarget e s a = (a ≢ e.current_contract_address) × (s.vault ≢ some a)

-- What the storage and the authorizations must be for a request to return.
abbrev pub IsPermitted : {X : Type 0} → Env X → Storage → Request → Type 0
IsPermitted e s Request.extend_ttl = Unit
IsPermitted e s Request.get_asset = Unit
IsPermitted e s Request.get_balance = Unit
IsPermitted e s (Request.deposit a v) = IsVault e s a v
IsPermitted e s (Request.withdraw a v) = IsVault e s a v
IsPermitted e s (Request.set_controller a _) = IsController e s a
IsPermitted e s (Request.deploy_to_protocol a b _) = IsController e s a × IsTarget e s b
IsPermitted e s (Request.recall_from_protocol a b _) = IsController e s a × IsTarget e s b
IsPermitted e s (Request.recover_donation a b _) = IsController e s a × IsTarget e s b
IsPermitted e s (Request.settle_protocol_returns a _) = IsController e s a
IsPermitted e s (Request.seed_local_balance a _) = IsController e s a
IsPermitted e s (Request.seed_deployed_total a _) = IsController e s a

module _ {X : Type 0} (e : Env X) (w : World X) where
  deposit-IsPermitted :
      (a : Address) (v : ℤ)
      → Ensures (λ _ _. IsPermitted e w.store (Request.deposit a v)) (Funds.deposit e a v w)
  unfolding Funds.deposit bump_instance require_auth require_vault Funds.receive
  deposit-IsPermitted a v = ground arith

  withdraw-IsPermitted :
      (a : Address) (v : ℤ)
      → Ensures (λ _ _. IsPermitted e w.store (Request.withdraw a v)) (Funds.withdraw e a v w)
  unfolding Funds.withdraw bump_instance require_auth require_vault
  withdraw-IsPermitted a v = ground arith

  set_controller-IsPermitted :
      (a : Address) (b : Address)
      → Ensures
          (λ _ _. IsPermitted e w.store (Request.set_controller a b))
          (Funds.set_controller e a b w)
  unfolding Funds.set_controller bump_instance require_auth require_controller
  set_controller-IsPermitted a b = ground arith

  deploy_to_protocol-IsPermitted :
      (a : Address) (b : Address) (v : ℤ)
      → Ensures
          (λ _ _. IsPermitted e w.store (Request.deploy_to_protocol a b v))
          (Protocol.deploy_to_protocol e a b v w)
  unfolding Protocol.deploy_to_protocol bump_instance require_auth require_controller
      require_valid_protocol_target
  deploy_to_protocol-IsPermitted a b v = ground arith

  recall_from_protocol-IsPermitted :
      (a : Address) (b : Address) (v : ℤ)
      → Ensures
          (λ _ _. IsPermitted e w.store (Request.recall_from_protocol a b v))
          (Protocol.recall_from_protocol e a b v w)
  unfolding Protocol.recall_from_protocol bump_instance require_auth require_controller
      require_valid_protocol_target
  recall_from_protocol-IsPermitted a b v = ground arith

  recover_donation-IsPermitted :
      (a : Address) (b : Address) (v : ℤ)
      → Ensures
          (λ _ _. IsPermitted e w.store (Request.recover_donation a b v))
          (Protocol.recover_donation e a b v w)
  unfolding Protocol.recover_donation bump_instance require_auth require_controller
      require_valid_protocol_target
  recover_donation-IsPermitted a b v = ground arith

  settle_protocol_returns-IsPermitted :
      (a : Address) (v : ℤ)
      → Ensures
          (λ _ _. IsPermitted e w.store (Request.settle_protocol_returns a v))
          (Settle.settle_protocol_returns e a v w)
  unfolding Settle.settle_protocol_returns bump_instance require_auth require_controller
  settle_protocol_returns-IsPermitted a v = ground arith

  seed_local_balance-IsPermitted :
      (a : Address) (v : ℤ)
      → Ensures
          (λ _ _. IsPermitted e w.store (Request.seed_local_balance a v))
          (Settle.seed_local_balance e a v w)
  unfolding Settle.seed_local_balance bump_instance require_auth require_controller
  seed_local_balance-IsPermitted a v = ground arith

  seed_deployed_total-IsPermitted :
      (a : Address) (v : ℤ)
      → Ensures
          (λ _ _. IsPermitted e w.store (Request.seed_deployed_total a v))
          (Settle.seed_deployed_total e a v w)
  unfolding Settle.seed_deployed_total bump_instance require_auth require_controller
  seed_deployed_total-IsPermitted a v = ground arith

-- A request of the strategy that returns was permitted: the controller's functions were authorized
-- by the stored controller, and move tokens only to or from an address that is neither the strategy
-- nor its vault; `deposit` and `withdraw` were called for the stored vault, which authorized any
-- positive amount.
pub execute-IsStrategyPermitted :
    {X : Type 0} (e : Env X) (r : Request) (w : World X)
    → Ensures (λ _ _. IsPermitted e w.store r) (execute e r w)
unfolding execute
execute-IsStrategyPermitted e Request.extend_ttl w = ground arith
execute-IsStrategyPermitted e Request.get_asset w = ground arith
execute-IsStrategyPermitted e Request.get_balance w = ground arith
execute-IsStrategyPermitted e (Request.deposit a v) w = deposit-IsPermitted e w a v
execute-IsStrategyPermitted e (Request.withdraw a v) w =
    ground (arith, withdraw-IsPermitted e w a v)
execute-IsStrategyPermitted e (Request.set_controller a b) w = set_controller-IsPermitted e w a b
execute-IsStrategyPermitted e (Request.deploy_to_protocol a b v) w =
    deploy_to_protocol-IsPermitted e w a b v
execute-IsStrategyPermitted e (Request.recall_from_protocol a b v) w =
    recall_from_protocol-IsPermitted e w a b v
execute-IsStrategyPermitted e (Request.recover_donation a b v) w =
    recover_donation-IsPermitted e w a b v
execute-IsStrategyPermitted e (Request.settle_protocol_returns a v) w =
    settle_protocol_returns-IsPermitted e w a v
execute-IsStrategyPermitted e (Request.seed_local_balance a v) w =
    seed_local_balance-IsPermitted e w a v
execute-IsStrategyPermitted e (Request.seed_deployed_total a v) w =
    seed_deployed_total-IsPermitted e w a v

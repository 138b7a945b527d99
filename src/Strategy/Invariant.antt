-- ===== src/Strategy/Invariant.antt =====
-- The two trackers and the latch of contracts/xlm-strategy/src/lib.rs over whole histories.
use stellar_upshift_vault_co.Base.{◌≡◌, ◌⊎◌, true, arith}
use stellar_upshift_vault_co.Base.Int.{ℤ, pos, ◌≤ℤ◌, ◌<ℤ◌, +ℤ_parts, -ℤ_parts, max_ℤ, min_ℤ}
use stellar_upshift_vault_co.Soroban.{Address, Ensures}
use stellar_upshift_vault_co.Soroban.I128.{checked_add, checked_sub, saturating_sub, i128_min}
use stellar_upshift_vault_co.Strategy.State.{
  Storage, Env, World, get_local_balance, get_deployed_total, is_deployed_total_bootstrapped,
}
use stellar_upshift_vault_co.Strategy.Helpers.{
  bump_instance, require_auth, require_vault, require_controller, require_valid_protocol_target,
  actual_balance, check_settle_rate_limit, require_within_settle_limit,
}
use stellar_upshift_vault_co.Strategy.Funds
use stellar_upshift_vault_co.Strategy.Protocol
use stellar_upshift_vault_co.Strategy.Settle
use stellar_upshift_vault_co.Strategy.Entry.{Request, execute, History, History-invariant}

-- Neither tracker is negative, and a positive deployed total has set the latch that turns the
-- settle limit on.
pub record IsSound (s : Storage) : Type 0 where
  pub local_nonneg : pos 0 ≤ℤ get_local_balance s
  pub deployed_nonneg : pos 0 ≤ℤ get_deployed_total s
  pub latched : (get_deployed_total s ≡ pos 0) ⊎ (is_deployed_total_bootstrapped s ≡ true)

-- What `recall_from_protocol` leaves of the deployed total.
abbrev left : ℤ → ℤ → ℤ
left deployed received = max_ℤ (saturating_sub deployed received) (pos 0)

left_nonneg : (d r : ℤ) → pos 0 ≤ℤ left d r
left_nonneg d r = ground arith

left_zero : (r : ℤ) → pos 0 <ℤ r → left (pos 0) r ≡ pos 0
unfolding saturating_sub i128_min
left_zero r h = ground (arith, -ℤ_parts (pos 0) r)

module _ {X : Type 0} (e : Env X) (w : World X) (h : IsSound w.store) where
  deposit-IsSound :
      (a : Address) (v : ℤ) → Ensures (λ _ w'. IsSound w'.store) (Funds.deposit e a v w)
  unfolding Funds.deposit Funds.receive bump_instance require_auth require_vault actual_balance
      checked_add
  deposit-IsSound a v =
      ground (
        arith,
        h.local_nonneg,
        h.deployed_nonneg,
        h.latched,
        +ℤ_parts (get_local_balance w.store) v,
      )

  withdraw-IsSound :
      (a : Address) (v : ℤ) → Ensures (λ _ w'. IsSound w'.store) (Funds.withdraw e a v w)
  unfolding Funds.withdraw Funds.send bump_instance require_auth require_vault checked_sub
  withdraw-IsSound a v = ground (
    arith,
    h.local_nonneg,
    h.deployed_nonneg,
    h.latched,
    -ℤ_parts (get_local_balance w.store) (min_ℤ v (get_local_balance w.store)),
  )

  get_balance-IsSound : Ensures (λ _ w'. IsSound w'.store) (Funds.get_balance e w)
  unfolding Funds.get_balance Funds.idle_component Funds.report_donation Funds.report_shortfall
      bump_instance actual_balance
  get_balance-IsSound = ground (arith, h.local_nonneg, h.deployed_nonneg, h.latched)

  extend_ttl-IsSound : Ensures (λ _ w'. IsSound w'.store) (Funds.extend_ttl e w)
  unfolding Funds.extend_ttl bump_instance
  extend_ttl-IsSound = h

  get_asset-IsSound : Ensures (λ _ w'. IsSound w'.store) (Funds.get_asset e w)
  unfolding Funds.get_asset bump_instance
  get_asset-IsSound = ground arith

  set_controller-IsSound :
      (a b : Address) → Ensures (λ _ w'. IsSound w'.store) (Funds.set_controller e a b w)
  unfolding Funds.set_controller bump_instance require_auth require_controller
  set_controller-IsSound a b = ground (arith, h.local_nonneg, h.deployed_nonneg, h.latched)

  deploy-IsSound :
      (a b : Address) (v : ℤ)
      → Ensures (λ _ w'. IsSound w'.store) (Protocol.deploy_to_protocol e a b v w)
  unfolding Protocol.deploy_to_protocol bump_instance require_auth require_controller
      require_valid_protocol_target checked_sub checked_add
  deploy-IsSound a b v = ground (
    arith,
    h.local_nonneg,
    h.deployed_nonneg,
    -ℤ_parts (get_local_balance w.store) v,
    +ℤ_parts (get_deployed_total w.store) v,
  )

  recover-IsSound :
      (a b : Address) (v : ℤ)
      → Ensures (λ _ w'. IsSound w'.store) (Protocol.recover_donation e a b v w)
  unfolding Protocol.recover_donation bump_instance require_auth require_controller
      require_valid_protocol_target actual_balance
  recover-IsSound a b v = ground (arith, h.local_nonneg, h.deployed_nonneg, h.latched)

  check-same : (p n : ℤ) (u : World X) → Ensures (λ _ u'. u' ≡ u) (check_settle_rate_limit e p n u)
  unfolding check_settle_rate_limit require_within_settle_limit
  check-same p n u = ground arith

  settle-IsSound :
      (a : Address) (v : ℤ)
      → Ensures (λ _ w'. IsSound w'.store) (Settle.settle_protocol_returns e a v w)
  unfolding Settle.settle_protocol_returns bump_instance require_auth require_controller
  settle-IsSound a v = grind (arith, check-same)

  seed_local-IsSound :
      (a : Address) (v : ℤ) → Ensures (λ _ w'. IsSound w'.store) (Settle.seed_local_balance e a v w)
  unfolding Settle.seed_local_balance bump_instance require_auth require_controller actual_balance
  seed_local-IsSound a v = ground (arith, h.deployed_nonneg, h.latched)

  seed_deployed-IsSound :
      (a : Address) (v : ℤ)
      → Ensures (λ _ w'. IsSound w'.store) (Settle.seed_deployed_total e a v w)
  unfolding Settle.seed_deployed_total bump_instance require_auth require_controller
  seed_deployed-IsSound a v = ground (arith, h.local_nonneg)

  book_recall-IsSound :
      (r : ℤ) (u : World X)
      → pos 0 <ℤ r
      → IsSound u.store
      → Ensures (λ _ w'. IsSound w'.store) (Protocol.book_recall e r u)
  unfolding Protocol.book_recall checked_add
  book_recall-IsSound r u positive k = ground (
    arith,
    k.local_nonneg,
    k.deployed_nonneg,
    k.latched,
    +ℤ_parts (get_local_balance u.store) r,
    left_nonneg (get_deployed_total u.store) r,
    left_zero r positive,
  )

  recall-IsSound :
      (a b : Address) (v : ℤ)
      → Ensures (λ _ w'. IsSound w'.store) (Protocol.recall_from_protocol e a b v w)
  unfolding Protocol.recall_from_protocol bump_instance require_auth require_controller
      require_valid_protocol_target
  recall-IsSound a b v = grind (arith, book_recall-IsSound)

-- Every request that returns keeps the trackers and the latch sound.
execute-IsSound :
    {X : Type 0} (e : Env X) (r : Request) (w : World X)
    → IsSound w.store
    → Ensures (λ _ w'. IsSound w'.store) (execute e r w)
unfolding execute
execute-IsSound e Request.extend_ttl w h = extend_ttl-IsSound e w h
execute-IsSound e Request.get_asset w h = ground (arith, get_asset-IsSound e w h)
execute-IsSound e Request.get_balance w h = ground (arith, get_balance-IsSound e w h)
execute-IsSound e (Request.deposit a v) w h = deposit-IsSound e w h a v
execute-IsSound e (Request.withdraw a v) w h = ground (arith, withdraw-IsSound e w h a v)
execute-IsSound e (Request.set_controller a b) w h = set_controller-IsSound e w h a b
execute-IsSound e (Request.deploy_to_protocol a b v) w h = deploy-IsSound e w h a b v
execute-IsSound e (Request.recall_from_protocol a b v) w h = recall-IsSound e w h a b v
execute-IsSound e (Request.recover_donation a b v) w h = recover-IsSound e w h a b v
execute-IsSound e (Request.settle_protocol_returns a v) w h = settle-IsSound e w h a v
execute-IsSound e (Request.seed_local_balance a v) w h = seed_local-IsSound e w h a v
execute-IsSound e (Request.seed_deployed_total a v) w h = seed_deployed-IsSound e w h a v

-- Along any history of the strategy neither tracker is negative, and while anything is deployed the
-- latch that turns the settle limit on is set, if that holds where the history begins.
pub History-IsSound :
    {X : Type 0} {w w' : World X} → IsSound w.store → History w w' → IsSound w'.store
History-IsSound h past = History-invariant IsSound execute-IsSound h past

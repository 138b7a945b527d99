-- ===== src/Strategy/Settle.antt =====
-- contracts/xlm-strategy/src/lib.rs: `settle_protocol_returns` and the two migration seeds.
use stellar_upshift_vault_co.Base.{not, ◌&&◌}
use stellar_upshift_vault_co.Base.Int.{ℤ, pos, ltb_ℤ, eqb_ℤ}
use stellar_upshift_vault_co.Soroban.{Address, ◌>>=◌, ◌>>◌, panic_if, when}
use stellar_upshift_vault_co.Strategy.State.{
  error, invalid_amount, local_balance_already_seeded, seed_exceeds_actual_balance,
  deployed_total_already_initialized, deployed_total_settled, local_balance_seeded,
  deployed_total_seeded, Env, Action, load, save, emit, get_local_balance, get_deployed_total,
  is_deployed_total_bootstrapped, set_local_balance, set_deployed_total,
  set_deployed_total_bootstrapped,
}
use stellar_upshift_vault_co.Strategy.Helpers.{
  bump_instance, require_auth, require_controller, actual_balance, check_settle_rate_limit,
}

module _ {X : Type 0} (e : Env X) where
  unfoldable pub settle_protocol_returns : Address → ℤ → Action X (Unit {0})
  settle_protocol_returns controller new_total = do
    bump_instance e
    require_auth e controller
    require_controller e controller
    panic_if (ltb_ℤ new_total (pos 0)) (error invalid_amount)
    previous ← load get_deployed_total
    check_settle_rate_limit e previous new_total
    save (set_deployed_total new_total)
    bootstrapped ← load is_deployed_total_bootstrapped
    when (ltb_ℤ (pos 0) new_total && not bootstrapped) (save set_deployed_total_bootstrapped)
    emit (deployed_total_settled controller previous new_total)

  unfoldable pub seed_local_balance : Address → ℤ → Action X (Unit {0})
  seed_local_balance controller amount = do
    bump_instance e
    require_auth e controller
    require_controller e controller
    panic_if (ltb_ℤ amount (pos 0)) (error invalid_amount)
    tracked ← load get_local_balance
    panic_if (not (eqb_ℤ tracked (pos 0))) (error local_balance_already_seeded)
    actual ← actual_balance e
    panic_if (ltb_ℤ actual amount) (error seed_exceeds_actual_balance)
    save (set_local_balance amount)
    emit (local_balance_seeded controller amount)

  unfoldable pub seed_deployed_total : Address → ℤ → Action X (Unit {0})
  seed_deployed_total controller amount = do
    bump_instance e
    require_auth e controller
    require_controller e controller
    panic_if (ltb_ℤ amount (pos 0)) (error invalid_amount)
    bootstrapped ← load is_deployed_total_bootstrapped
    panic_if bootstrapped (error deployed_total_already_initialized)
    save (set_deployed_total amount)
    save set_deployed_total_bootstrapped
    emit (deployed_total_seeded controller amount)

-- ===== src/Strategy/Settled.antt =====
-- How far `settle_protocol_returns` (contracts/xlm-strategy/src/lib.rs) can move the deployed total.
use stellar_upshift_vault_co.Base.{ℕ, ◌*◌, ◌≤◌, ◌<◌, ◌≡◌, ◌⊎◌, true, arith}
use stellar_upshift_vault_co.Base.Int.{pos, -ℤ_parts, pos-mul}
use stellar_upshift_vault_co.Soroban.{Address, Ensures}
use stellar_upshift_vault_co.Soroban.I128.{checked_sub, checked_mul}
use stellar_upshift_vault_co.Strategy.State.{
  Env, World, get_deployed_total, is_deployed_total_bootstrapped,
}
use stellar_upshift_vault_co.Strategy.Helpers.{
  bump_instance, require_auth, require_controller, check_settle_rate_limit,
  require_within_settle_limit,
}
use stellar_upshift_vault_co.Strategy.Settle.{settle_protocol_returns}

-- `n` is at most 10 percent above `p` and at most 5 percent below it.
abbrev pub InBand : ℕ → ℕ → Type 0
InBand p n = (10 * n ≤ 11 * p) × (19 * p ≤ 20 * n)

module _ {X : Type 0} (e : Env X) where
  limit-InBand :
      (p n : ℕ) (w : World X)
      → Ensures (λ _ w'. (w' ≡ w) × InBand p n) (require_within_settle_limit e (pos p) (pos n) w)
  unfolding require_within_settle_limit checked_sub checked_mul
  limit-InBand p n w =
      ground
        (arith, -ℤ_parts (pos p) (pos n), -ℤ_parts (pos n) (pos p), pos-mul p 1000, pos-mul p 500)

  check-InBand :
      (p n : ℕ) (w : World X)
      → (is_deployed_total_bootstrapped w.store ≡ true) ⊎ (0 < p)
      → Ensures (λ _ w'. (w' ≡ w) × InBand p n) (check_settle_rate_limit e (pos p) (pos n) w)
  unfolding check_settle_rate_limit
  check-InBand p n w h = ground (arith, limit-InBand p n w)

  -- A settlement that returns, from a total `p` to a total `n`, once the latch is set or while `p`
  -- is positive: `n` is within 10 percent above and 5 percent below `p`, and is the new total.
  pub settle-InBand :
      (controller : Address) (p n : ℕ) (w : World X)
      → get_deployed_total w.store ≡ pos p
      → (is_deployed_total_bootstrapped w.store ≡ true) ⊎ (0 < p)
      → Ensures
          (λ _ w'. InBand p n × (get_deployed_total w'.store ≡ pos n))
          (settle_protocol_returns e controller (pos n) w)
  unfolding settle_protocol_returns bump_instance require_auth require_controller
  settle-InBand controller p n w total limited = grind (arith, check-InBand)

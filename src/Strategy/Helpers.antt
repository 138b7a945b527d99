-- ===== src/Strategy/Helpers.antt =====
-- contracts/xlm-strategy/src/lib.rs: the internal helpers.
use stellar_upshift_vault_co.Base.{ℕ, zero, suc, ◌/◌, not, ◌&&◌, ◌==◌, if◌then◌else◌}
use stellar_upshift_vault_co.Base.Int.{ℤ, pos, negsuc, ltb_ℤ, leb_ℤ, eqb_ℤ}
use stellar_upshift_vault_co.Soroban.{Address, ok, ◌>>=◌, ◌>>◌, pure, branch, panic_if, or_panic}
use stellar_upshift_vault_co.Soroban.I128.{checked_sub, checked_mul}
use stellar_upshift_vault_co.Strategy.State.{
  error, trap, not_vault, not_controller, invalid_target, math_overflow, settle_rate_limit_exceeded,
  Env, Action, load, load_some, try_view, is_deployed_total_bootstrapped, settle_increase_bps,
  settle_decrease_bps, bps_divisor, instance_ttl_threshold, instance_extend_amount,
}

-- -m, for a number m.
abbrev neg : ℕ → ℤ
neg zero = pos zero
neg (suc m) = negsuc m

-- `v.checked_div(BPS_DIVISOR)`: division by a positive constant truncates towards zero.
abbrev pub div_bps : ℤ → ℤ
div_bps (pos n) = pos (n / bps_divisor)
div_bps (negsuc n) = neg (suc n / bps_divisor)

module _ {X : Type 0} (e : Env X) where
  unfoldable pub bump_instance : Action X (Unit {0})
  bump_instance w =
      ok tt (record w { ttl = e.extend_ttl instance_ttl_threshold instance_extend_amount w.ttl })

  -- `address.require_auth()`
  unfoldable pub require_auth : Address → Action X (Unit {0})
  require_auth a = panic_if (not (e.authorized a)) trap

  unfoldable pub require_vault : Address → Action X (Unit {0})
  require_vault a = do
    vault ← load_some (λ s. s.vault)
    panic_if (not (a == vault)) (error not_vault)

  unfoldable pub require_controller : Address → Action X (Unit {0})
  require_controller a = do
    controller ← load_some (λ s. s.controller)
    panic_if (not (a == controller)) (error not_controller)

  unfoldable pub require_valid_protocol_target : Address → Action X (Unit {0})
  require_valid_protocol_target protocol = do
    panic_if (protocol == e.current_contract_address) (error invalid_target)
    vault ← load_some (λ s. s.vault)
    panic_if (protocol == vault) (error invalid_target)

  -- `token_client(e).balance(&e.current_contract_address())`
  unfoldable pub actual_balance : Action X ℤ
  actual_balance = do
    asset ← load_some (λ s. s.asset)
    try_view (e.token_balance asset e.current_contract_address)

  -- The part of `check_settle_rate_limit` below its two early returns.
  unfoldable pub require_within_settle_limit : ℤ → ℤ → Action X (Unit {0})
  require_within_settle_limit previous new_total = do
    delta ←
        or_panic
          (if ltb_ℤ previous new_total
            then checked_sub new_total previous
            else checked_sub previous new_total)
          (error math_overflow)
    let limit_bps = if ltb_ℤ previous new_total then settle_increase_bps else settle_decrease_bps
    product ← or_panic (checked_mul previous limit_bps) (error math_overflow)
    panic_if (ltb_ℤ (div_bps product) delta) (error settle_rate_limit_exceeded)

  unfoldable pub check_settle_rate_limit : ℤ → ℤ → Action X (Unit {0})
  check_settle_rate_limit previous new_total = do
    bootstrapped ← load is_deployed_total_bootstrapped
    branch (eqb_ℤ new_total previous) (pure tt) (
        branch (leb_ℤ previous (pos 0) && not bootstrapped) (pure tt)
          (require_within_settle_limit previous new_total))

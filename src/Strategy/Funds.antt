-- ===== src/Strategy/Funds.antt =====
-- contracts/xlm-strategy/src/lib.rs: the constructor, the vault's deposit and withdraw, the views,
-- and the rotation of the controller.
use stellar_upshift_vault_co.Base.{Bool, ◌||◌, some, ◌==◌}
use stellar_upshift_vault_co.Base.Int.{ℤ, pos, ltb_ℤ, leb_ℤ, eqb_ℤ, min_ℤ}
use stellar_upshift_vault_co.Soroban.{Address, ◌>>=◌, ◌>>◌, pure, branch, panic_if, or_panic, when}
use stellar_upshift_vault_co.Soroban.I128.{checked_add, checked_sub}
use stellar_upshift_vault_co.Strategy.State.{
  error, invalid_controller, invalid_amount, math_overflow, deposit_shortfall, donation_detected,
  tracker_exceeds_balance, controller_changed, Env, Action, load, load_some, save, invoke, emit,
  get_local_balance, get_deployed_total, is_deployed_total_bootstrapped, set_local_balance,
}
use stellar_upshift_vault_co.Strategy.Helpers.{
  bump_instance, require_auth, require_vault, require_controller, actual_balance,
}

module _ {X : Type 0} (e : Env X) where
  -- `__constructor`
  unfoldable pub construct : Address → Address → Address → Action X (Unit {0})
  construct asset vault controller = do
    bump_instance e
    panic_if
        (vault == controller
          || vault == e.current_contract_address
          || controller == e.current_contract_address)
        (error invalid_controller)
    save (λ s. record s {
      asset = some asset;
      vault = some vault;
      controller = some controller;
      deployed_total = some (pos 0);
    })

  -- `deposit` on a positive amount.
  unfoldable pub receive : Address → ℤ → Action X (Unit {0})
  receive from amount = do
    require_auth e from
    tracked ← load get_local_balance
    new_local ← or_panic (checked_add tracked amount) (error math_overflow)
    save (set_local_balance new_local)
    actual_idle ← actual_balance e
    panic_if (ltb_ℤ actual_idle new_local) (error deposit_shortfall)

  unfoldable pub deposit : Address → ℤ → Action X (Unit {0})
  deposit from amount = do
    bump_instance e
    require_vault e from
    branch (eqb_ℤ amount (pos 0)) (pure tt)
        do panic_if (ltb_ℤ amount (pos 0)) (error invalid_amount); receive from amount

  -- The transfer of `withdraw` when there is something to send.
  unfoldable pub send : Address → Address → ℤ → ℤ → Action X (Unit {0})
  send asset to tracked actual = do
    invoke (e.token_transfer asset e.current_contract_address to actual)
    new_local ← or_panic (checked_sub tracked actual) (error math_overflow)
    save (set_local_balance new_local)

  unfoldable pub withdraw : Address → ℤ → Action X ℤ
  withdraw to amount = do
    bump_instance e
    require_vault e to
    branch (leb_ℤ amount (pos 0)) (pure (pos 0)) do
      require_auth e to
      asset ← load_some (λ s. s.asset)
      tracked ← load get_local_balance
      when (ltb_ℤ (pos 0) (min_ℤ amount tracked)) (send asset to tracked (min_ℤ amount tracked))
      pure (min_ℤ amount tracked)

  unfoldable pub extend_ttl : Action X (Unit {0})
  extend_ttl = bump_instance e

  unfoldable pub set_controller : Address → Address → Action X (Unit {0})
  set_controller current new_controller = do
    bump_instance e
    require_auth e current
    require_controller e current
    vault ← load_some (λ s. s.vault)
    panic_if (new_controller == vault || new_controller == e.current_contract_address)
        (error invalid_controller)
    save (λ s. record s { controller = some new_controller })
    emit (controller_changed current new_controller)

  unfoldable pub get_asset : Action X Address
  get_asset = do bump_instance e; load_some (λ s. s.asset)

  abbrev pub get_vault : Action X Address
  get_vault = load_some (λ s. s.vault)

  abbrev pub get_controller : Action X Address
  get_controller = load_some (λ s. s.controller)

  abbrev pub is_deployed_total_initialized : Action X Bool
  is_deployed_total_initialized = load is_deployed_total_bootstrapped

  -- The two reporting branches of `get_balance`, and its idle part.
  unfoldable pub report_donation : ℤ → ℤ → Action X ℤ
  report_donation actual_idle tracked = do
    excess ← or_panic (checked_sub actual_idle tracked) (error math_overflow)
    emit (donation_detected excess tracked actual_idle)
    pure tracked

  unfoldable pub report_shortfall : ℤ → ℤ → Action X ℤ
  report_shortfall actual_idle tracked = do
    shortfall ← or_panic (checked_sub tracked actual_idle) (error math_overflow)
    emit (tracker_exceeds_balance tracked actual_idle shortfall)
    pure actual_idle

  unfoldable pub idle_component : ℤ → ℤ → Action X ℤ
  idle_component actual_idle tracked =
      branch (ltb_ℤ tracked actual_idle) (report_donation actual_idle tracked)
        (branch (ltb_ℤ actual_idle tracked) (report_shortfall actual_idle tracked) (pure tracked))

  unfoldable pub get_balance : Action X ℤ
  get_balance = do
    bump_instance e
    actual_idle ← actual_balance e
    tracked ← load get_local_balance
    deployed ← load get_deployed_total
    idle ← idle_component actual_idle tracked
    or_panic (checked_add idle deployed) (error math_overflow)

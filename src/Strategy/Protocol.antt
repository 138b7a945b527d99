-- ===== src/Strategy/Protocol.antt =====
-- contracts/xlm-strategy/src/lib.rs: the controller's transfers to and from protocols.
use stellar_upshift_vault_co.Base.{not}
use stellar_upshift_vault_co.Base.Int.{ℤ, pos, ltb_ℤ, leb_ℤ, eqb_ℤ, max_ℤ}
use stellar_upshift_vault_co.Soroban.{Address, ◌>>=◌, ◌>>◌, panic_if, or_panic, when}
use stellar_upshift_vault_co.Soroban.I128.{checked_add, checked_sub, saturating_sub}
use stellar_upshift_vault_co.Strategy.State.{
  error, invalid_amount, insufficient_balance, math_overflow, balance_decreased_on_transfer,
  no_donation_to_recover, deployed_to_protocol, recalled_from_protocol, deployed_total_underflow,
  donation_recovered, Env, Action, load, load_some, try_view, save, invoke, emit, get_local_balance,
  get_deployed_total, is_deployed_total_bootstrapped, set_local_balance, set_deployed_total,
  set_deployed_total_bootstrapped,
}
use stellar_upshift_vault_co.Strategy.Helpers.{
  bump_instance, require_auth, require_controller, require_valid_protocol_target, actual_balance,
}

module _ {X : Type 0} (e : Env X) where
  unfoldable pub deploy_to_protocol : Address → Address → ℤ → Action X (Unit {0})
  deploy_to_protocol controller protocol amount = do
    bump_instance e
    require_auth e controller
    require_controller e controller
    require_valid_protocol_target e protocol
    panic_if (leb_ℤ amount (pos 0)) (error invalid_amount)
    tracked ← load get_local_balance
    panic_if (ltb_ℤ tracked amount) (error insufficient_balance)
    asset ← load_some (λ s. s.asset)
    invoke (e.token_transfer asset e.current_contract_address protocol amount)
    new_local ← or_panic (checked_sub tracked amount) (error math_overflow)
    save (set_local_balance new_local)
    deployed ← load get_deployed_total
    new_deployed ← or_panic (checked_add deployed amount) (error math_overflow)
    save (set_deployed_total new_deployed)
    bootstrapped ← load is_deployed_total_bootstrapped
    when (not bootstrapped) (save set_deployed_total_bootstrapped)
    emit (deployed_to_protocol controller protocol amount)

  -- The bookkeeping of `recall_from_protocol`, by the measured receipt.
  unfoldable pub book_recall : ℤ → Action X (Unit {0})
  book_recall actual_received = do
    deployed ← load get_deployed_total
    when (ltb_ℤ deployed actual_received) (emit (deployed_total_underflow deployed actual_received))
    save (set_deployed_total (max_ℤ (saturating_sub deployed actual_received) (pos 0)))
    tracked ← load get_local_balance
    new_local ← or_panic (checked_add tracked actual_received) (error math_overflow)
    save (set_local_balance new_local)

  unfoldable pub recall_from_protocol : Address → Address → ℤ → Action X (Unit {0})
  recall_from_protocol controller protocol amount = do
    bump_instance e
    require_auth e controller
    require_controller e controller
    require_valid_protocol_target e protocol
    panic_if (leb_ℤ amount (pos 0)) (error invalid_amount)
    asset ← load_some (λ s. s.asset)
    balance_before ← try_view (e.token_balance asset e.current_contract_address)
    invoke (e.token_transfer asset protocol e.current_contract_address amount)
    balance_after ← try_view (e.token_balance asset e.current_contract_address)
    actual_received ← or_panic (checked_sub balance_after balance_before) (error math_overflow)
    panic_if (ltb_ℤ actual_received (pos 0)) (error balance_decreased_on_transfer)
    panic_if (eqb_ℤ actual_received (pos 0)) (error invalid_amount)
    book_recall actual_received
    emit (recalled_from_protocol controller protocol actual_received)

  unfoldable pub recover_donation : Address → Address → ℤ → Action X (Unit {0})
  recover_donation controller recipient amount = do
    bump_instance e
    require_auth e controller
    require_controller e controller
    require_valid_protocol_target e recipient
    panic_if (leb_ℤ amount (pos 0)) (error invalid_amount)
    actual_idle ← actual_balance e
    tracked ← load get_local_balance
    excess ← or_panic (checked_sub actual_idle tracked) (error math_overflow)
    panic_if (leb_ℤ excess (pos 0)) (error no_donation_to_recover)
    panic_if (ltb_ℤ excess amount) (error insufficient_balance)
    asset ← load_some (λ s. s.asset)
    invoke (e.token_transfer asset e.current_contract_address recipient amount)
    balance_after ← actual_balance e
    expected ← or_panic (checked_sub actual_idle amount) (error math_overflow)
    panic_if (not (eqb_ℤ balance_after expected)) (error balance_decreased_on_transfer)
    emit (donation_recovered controller recipient amount)

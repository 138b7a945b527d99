-- ===== src/Vault/Pricing.antt =====
-- contracts/august-vault/src/contract.rs: total assets, the conversions between assets and shares,
-- and the previews.
pub mod Views
pub mod RoundTrip
pub mod Total
use stellar_upshift_vault_co.Base.{
  ℕ, Bool, true, false, ◌&&◌, Option, none, some, List, [], ◌∷◌, ◌==◌, if◌then◌else◌,
}
use stellar_upshift_vault_co.Base.Int.{ℤ, pos, ltb_ℤ, eqb_ℤ}
use stellar_upshift_vault_co.Soroban.{
  Address, Outcome, ok, panic, Probe, value, convert_error, invoke_error, ◌>>=◌, ◌>>◌, pure, branch,
  panic_if, or_panic, panic_with_error,
}
use stellar_upshift_vault_co.Soroban.I128.{checked_add, checked_pow10}
use stellar_upshift_vault_co.Vault.Errors.{
  error, token_error, trap, math_overflow, strategy_unreachable, negative_strategy_balance,
  vault_invalid_assets_amount, vault_invalid_shares_amount,
}
use stellar_upshift_vault_co.Vault.Storage.{
  Storage, SubaccountType, strategy, wallet, is_strategy, get_subaccounts, get_subaccount_type,
  get_deployed_assets,
}
use stellar_upshift_vault_co.Vault.State.{
  Env, World, Action, Rounding, floor, ceil, load, view, try_view,
}

-- `token::Client::balance`: traps where `try_balance` answers an error.
abbrev pub balance_or_trap : Probe → Option ℤ
balance_or_trap (value b) = some b
balance_or_trap convert_error = none
balance_or_trap invoke_error = none

module _ {X : Type 0} (e : Env X) where
  -- `token_client.balance(&account)`, for the client of `asset`.
  abbrev pub client_balance : Address → Address → Action X ℤ
  client_balance asset account = try_view (λ x. balance_or_trap (e.token_balance asset account x))

  unfoldable pub local_balance : Action X ℤ
  local_balance = do asset ← try_view e.query_asset; client_balance asset e.current_contract_address

  -- The answer of `try_get_balance`, as `query_strategy_balances` takes it.
  unfoldable pub reported_balance : Probe → Action X ℤ
  reported_balance (value b) = do
    panic_if (ltb_ℤ b (pos 0)) (error negative_strategy_balance)
    pure b
  reported_balance convert_error = panic_with_error (error strategy_unreachable)
  reported_balance invoke_error = panic_with_error (error strategy_unreachable)

  -- The loop of `query_strategy_balances`, with its running total.
  unfoldable pub add_strategy_balances : List Address → ℤ → Action X ℤ
  add_strategy_balances [] total = pure total
  add_strategy_balances (sub ∷ subs) total = do
    kind ← load (λ s. get_subaccount_type s sub)
    elim kind [
      | wallet ↦ add_strategy_balances subs total
      | strategy ↦ do
        balance ← reported_balance (← view (e.strategy_balance sub))
        total' ← or_panic (checked_add total balance) (error math_overflow)
        add_strategy_balances subs total'
    ]

  unfoldable pub query_strategy_balances : Action X ℤ
  query_strategy_balances = do subs ← load get_subaccounts; add_strategy_balances subs (pos 0)

  unfoldable pub total_assets_from : ℤ → Action X ℤ
  total_assets_from local = do
    strategy_balances ← query_strategy_balances
    deployed ← load get_deployed_assets
    v ← or_panic (checked_add local strategy_balances) (error math_overflow)
    total ← or_panic (checked_add v deployed) (error math_overflow)
    panic_if (ltb_ℤ total (pos 0)) (error math_overflow)
    pure total

  unfoldable pub custom_total_assets : Action X ℤ
  custom_total_assets = do total_assets_from (← local_balance)

  unfoldable pub convert_to_shares_with_total : ℤ → ℤ → Rounding → Action X ℤ
  convert_to_shares_with_total assets total_assets rounding = do
    panic_if (ltb_ℤ assets (pos 0)) (token_error vault_invalid_assets_amount)
    branch (eqb_ℤ assets (pos 0)) (pure (pos 0)) do
      pow ← or_panic (checked_pow10 (← view e.get_decimals_offset)) (error math_overflow)
      y ← or_panic (checked_add (← view e.total_supply) pow) (error math_overflow)
      denominator ← or_panic (checked_add total_assets (pos 1)) (error math_overflow)
      or_panic (e.mul_div assets y denominator rounding) trap

  unfoldable pub convert_to_assets_with_total : ℤ → ℤ → Rounding → Action X ℤ
  convert_to_assets_with_total shares total_assets rounding = do
    panic_if (ltb_ℤ shares (pos 0)) (token_error vault_invalid_shares_amount)
    branch (eqb_ℤ shares (pos 0)) (pure (pos 0)) do
      y ← or_panic (checked_add total_assets (pos 1)) (error math_overflow)
      pow ← or_panic (checked_pow10 (← view e.get_decimals_offset)) (error math_overflow)
      denominator ← or_panic (checked_add (← view e.total_supply) pow) (error math_overflow)
      or_panic (e.mul_div shares y denominator rounding) trap

  unfoldable pub convert_to_shares_with_rounding : ℤ → Rounding → Action X ℤ
  convert_to_shares_with_rounding assets rounding = do
    total ← custom_total_assets
    convert_to_shares_with_total assets total rounding

  unfoldable pub convert_to_assets_with_rounding : ℤ → Rounding → Action X ℤ
  convert_to_assets_with_rounding shares rounding = do
    total ← custom_total_assets
    convert_to_assets_with_total shares total rounding

  unfoldable pub convert_to_shares : ℤ → Action X ℤ
  convert_to_shares assets = convert_to_shares_with_rounding assets floor

  unfoldable pub convert_to_assets : ℤ → Action X ℤ
  convert_to_assets shares = convert_to_assets_with_rounding shares floor

  unfoldable pub preview_deposit : ℤ → Action X ℤ
  preview_deposit assets = convert_to_shares_with_rounding assets floor

  unfoldable pub preview_mint : ℤ → Action X ℤ
  preview_mint shares = convert_to_assets_with_rounding shares ceil

  unfoldable pub preview_withdraw : ℤ → Action X ℤ
  preview_withdraw assets = convert_to_shares_with_rounding assets ceil

  unfoldable pub preview_redeem : ℤ → Action X ℤ
  preview_redeem shares = convert_to_assets_with_rounding shares floor

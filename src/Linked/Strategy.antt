-- ===== src/Linked/Strategy.antt =====
-- What the vault's calls of contracts/xlm-strategy/src/lib.rs do in one invocation.
use stellar_upshift_vault_co.Base.{◌≡◌, ◌⊎◌, some, arith}
use stellar_upshift_vault_co.Base.Int.{ℤ, ◌+ℤ◌, ◌-ℤ◌, min_ℤ, int_laws, +ℤ_zero}
use stellar_upshift_vault_co.Soroban.{Address, value, Ensures}
use stellar_upshift_vault_co.Soroban.I128.{checked_add, checked_sub}
use stellar_upshift_vault_co.Vault.State.{Env}
use stellar_upshift_vault_co.Vault.Pricing.Total.{answered}
use stellar_upshift_vault_co.Strategy.State.{
  World as StrategyWorld, get_local_balance, get_deployed_total,
}
use stellar_upshift_vault_co.Strategy.Helpers.{
  bump_instance, require_auth, require_vault, actual_balance,
}
use stellar_upshift_vault_co.Strategy.Funds.{
  deposit, receive, withdraw, send, get_balance, get_asset, idle_component, report_donation,
  report_shortfall,
}
use stellar_upshift_vault_co.Linked.{strategy_env, link}

module _ {T : Type 0} (b : Env T) (s : Address) where
  abbrev pub idle : Address → StrategyWorld T → ℤ
  idle asset y = answered (b.token_balance asset s y.ext)

  -- The answer of `get_balance`: the smaller of the idle balance and the tracker, and the deployed
  -- total.
  abbrev pub Reported : Address → StrategyWorld T → ℤ → Type 0
  Reported asset y balance =
      (b.token_balance asset s y.ext ≡ value (idle asset y))
      × (balance ≡ min_ℤ (idle asset y) (get_local_balance y.store) +ℤ get_deployed_total y.store)

  get_balance-Reported :
      (y : StrategyWorld T) (asset : Address)
      → y.store.asset ≡ some asset
      → Ensures (λ balance _. Reported asset y balance) (get_balance (strategy_env b s) y)
  unfolding get_balance idle_component report_donation report_shortfall bump_instance actual_balance
      checked_add
  get_balance-Reported y asset asset_eq = grind (int_laws, asset_eq)

  pub probe-Reported :
      (y : StrategyWorld T) (asset : Address) (balance : ℤ)
      → y.store.asset ≡ some asset
      → (link b s).strategy_balance s y ≡ value balance
      → Reported asset y balance
  probe-Reported y asset balance asset_eq answer =
      ground (arith, get_balance-Reported y asset asset_eq)

  pub asset_answer :
      (y : StrategyWorld T) (asset : Address)
      → (link b s).strategy_asset s y ≡ some asset
      → y.store.asset ≡ some asset
  unfolding get_asset bump_instance
  asset_answer y asset h = ground arith

  -- What a deposit of the vault leaves.
  abbrev pub DepositResult : ℤ → Address → StrategyWorld T → StrategyWorld T → Type 0
  DepositResult amount asset y y' =
      (y'.ext ≡ y.ext)
      × (y'.store.asset ≡ y.store.asset)
      × (get_deployed_total y'.store ≡ get_deployed_total y.store)
      × (get_local_balance y'.store ≡ get_local_balance y.store +ℤ amount)

  pub deposit_result :
      (amount : ℤ) (asset : Address) (y : StrategyWorld T)
      → y.store.asset ≡ some asset
      → Ensures
          (λ _. DepositResult amount asset y)
          (deposit (strategy_env b s) b.current_contract_address amount y)
  unfolding deposit receive bump_instance require_auth require_vault actual_balance checked_add
  deposit_result amount asset y asset_eq =
      ground (arith, asset_eq, +ℤ_zero (get_local_balance y.store))

  -- What a withdrawal of the vault leaves: it pays the smaller of the amount and the tracker, or
  -- nothing.
  abbrev pub WithdrawResult : ℤ → Address → StrategyWorld T → StrategyWorld T → Type 0
  WithdrawResult amount asset y y' =
      (y'.store.asset ≡ y.store.asset)
      × (get_deployed_total y'.store ≡ get_deployed_total y.store)
      × (((y'.ext ≡ y.ext) × (get_local_balance y'.store ≡ get_local_balance y.store))
          ⊎ ((b.token_transfer asset s b.current_contract_address
                  (min_ℤ amount (get_local_balance y.store)) y.ext
                ≡ some y'.ext)
              × (get_local_balance y'.store
                  ≡ get_local_balance y.store -ℤ min_ℤ amount (get_local_balance y.store))))

  pub withdraw_result :
      (amount : ℤ) (asset : Address) (y : StrategyWorld T)
      → y.store.asset ≡ some asset
      → Ensures
          (λ _. WithdrawResult amount asset y)
          (withdraw (strategy_env b s) b.current_contract_address amount y)
  unfolding withdraw send bump_instance require_auth require_vault checked_sub
  withdraw_result amount asset y asset_eq = ground (arith, asset_eq)

-- ===== src/Vault/Getters.antt =====
-- contracts/august-vault/src/contract.rs: the read-only entry points.
use stellar_upshift_vault_co.Base.{ℕ, Bool, Option, List}
use stellar_upshift_vault_co.Base.Int.{ℤ}
use stellar_upshift_vault_co.Soroban.{Address, ◌>>=◌, ◌>>◌, or_panic}
use stellar_upshift_vault_co.Vault.Errors.{error, unauthorized}
use stellar_upshift_vault_co.Vault.Storage.{SubaccountType}
use stellar_upshift_vault_co.Vault.Storage
use stellar_upshift_vault_co.Vault.State.{Env, Action, load}
use stellar_upshift_vault_co.Vault.Pricing.{query_strategy_balances}
use stellar_upshift_vault_co.Vault.Subaccounts.{require_whitelisted}

module _ {X : Type 0} where
  abbrev pub get_admin : Action X Address
  get_admin = do or_panic (← load (λ s. s.admin)) (error unauthorized)

  abbrev pub get_operator : Action X (Option Address)
  get_operator = load (λ s. s.operator)

  abbrev pub get_pending_admin : Action X (Option Address)
  get_pending_admin = load (λ s. s.pending_admin)

  abbrev pub is_paused : Action X Bool
  is_paused = load Storage.is_paused

  abbrev pub get_deployed_assets : Action X ℤ
  get_deployed_assets = load Storage.get_deployed_assets

  abbrev pub get_wallet_net_deployed : Address → Action X ℤ
  get_wallet_net_deployed a = load (λ s. Storage.get_wallet_net_deployed s a)

  abbrev pub get_aum_increase_limit : Action X ℕ
  get_aum_increase_limit = load Storage.get_aum_increase_limit

  abbrev pub get_aum_decrease_limit : Action X ℕ
  get_aum_decrease_limit = load Storage.get_aum_decrease_limit

  abbrev pub get_aum_window_duration : Action X ℕ
  get_aum_window_duration = load Storage.get_aum_window_duration

  abbrev pub get_aum_window_inc_limit : Action X ℕ
  get_aum_window_inc_limit = load Storage.get_aum_cumulative_increase_limit

  abbrev pub get_aum_window_dec_limit : Action X ℕ
  get_aum_window_dec_limit = load Storage.get_aum_cumulative_decrease_limit

  abbrev pub get_subaccounts : Action X (List Address)
  get_subaccounts = load Storage.get_subaccounts

module _ {X : Type 0} (e : Env X) where
  unfoldable pub get_strategy_balances : Action X ℤ
  get_strategy_balances = query_strategy_balances e

  unfoldable pub get_subaccount_type : Address → Action X SubaccountType
  get_subaccount_type a = do require_whitelisted e a; load (λ s. Storage.get_subaccount_type s a)

-- ===== src/Linked.antt =====
-- contracts/august-vault with contracts/xlm-strategy as a strategy at the address `s`: the calls of
-- `StrategyClient` at `s` run the functions of contracts/xlm-strategy/src/lib.rs.
pub mod Strategy
pub mod Laws
pub mod Interface
pub mod Covered
pub mod Withdrawal
pub mod Contract
pub mod Ready
pub mod Registration
mod Tests
use stellar_upshift_vault_co.Base.{Bool, Option, none, some, ◌==◌, if◌then◌else◌}
use stellar_upshift_vault_co.Base.Int.{ℤ}
use stellar_upshift_vault_co.Soroban.{Address, Outcome, ok, panic, Probe, value, invoke_error}
use stellar_upshift_vault_co.Vault.Pricing.{balance_or_trap}
use stellar_upshift_vault_co.Vault.State.{Env}
use stellar_upshift_vault_co.Strategy.State.{
  Env as StrategyEnv, World as StrategyWorld, Panic as StrategyPanic, get_local_balance,
}
use stellar_upshift_vault_co.Strategy.Funds.{deposit, withdraw, get_balance, get_asset}

-- The state after a call of the strategy, and its answer.
abbrev pub state_of :
    {T A : Type 0} → Outcome StrategyPanic (StrategyWorld T) A → Option (StrategyWorld T)
state_of (ok _ y) = some y
state_of (panic _) = none

abbrev pub answer_of : {T A : Type 0} → Outcome StrategyPanic (StrategyWorld T) A → Option A
answer_of (ok a _) = some a
answer_of (panic _) = none

abbrev pub probe_of : {T : Type 0} → Outcome StrategyPanic (StrategyWorld T) ℤ → Probe
probe_of (ok b _) = value b
probe_of (panic _) = invoke_error

-- A call of anything else leaves the strategy's own storage.
abbrev pub beside : {T : Type 0} → (T → Option T) → StrategyWorld T → Option (StrategyWorld T)
beside f y = elim (f y.ext) [ none ↦ none | some t ↦ some (record y { ext = t }) ]

module _ {T : Type 0} (b : Env T) (s : Address) where
  -- An invocation of the strategy in a frame with these authorizations.
  abbrev pub strategy_env_as : (Address → Bool) → StrategyEnv T
  strategy_env_as auth = record {
    current_contract_address = s;
    authorized = auth;
    extend_ttl = b.extend_ttl;
    token_balance = λ asset a t. balance_or_trap (b.token_balance asset a t);
    token_transfer = b.token_transfer;
  }

  -- An invocation of the strategy by the vault: the vault is its direct caller, whose `require_auth`
  -- the host grants.
  abbrev pub strategy_env : StrategyEnv T
  strategy_env = strategy_env_as (λ a. a == b.current_contract_address)

  -- The vault's environment `b`, with the strategy at `s`.
  abbrev pub link : Env (StrategyWorld T)
  link = record {
    current_contract_address = b.current_contract_address;
    timestamp = b.timestamp;
    authorized = b.authorized;
    extend_ttl = b.extend_ttl;
    instance_ttl_threshold = b.instance_ttl_threshold;
    instance_extend_amount = b.instance_extend_amount;
    set_asset = λ a. beside (b.set_asset a);
    set_decimals_offset = λ n. beside (b.set_decimals_offset n);
    set_metadata = λ d n m. beside (b.set_metadata d n m);
    query_asset = λ y. b.query_asset y.ext;
    get_decimals_offset = λ y. b.get_decimals_offset y.ext;
    decimals = λ y. b.decimals y.ext;
    total_supply = λ y. b.total_supply y.ext;
    share_balance = λ y. b.share_balance y.ext;
    transfer = λ from to amount. beside (b.transfer from to amount);
    transfer_from = λ spender from to amount. beside (b.transfer_from spender from to amount);
    approve = λ owner spender amount live. beside (b.approve owner spender amount live);
    deposit_internal = λ receiver assets shares from operator.
        beside (b.deposit_internal receiver assets shares from operator);
    withdraw_internal = λ receiver owner assets shares operator.
        beside (b.withdraw_internal receiver owner assets shares operator);
    mul_div = b.mul_div;
    token_decimals = λ asset y. b.token_decimals asset y.ext;
    token_balance = λ asset a y. b.token_balance asset a y.ext;
    token_transfer = λ asset from to amount. beside (b.token_transfer asset from to amount);
    token_transfer_from =
        λ asset spender from to amount. beside (b.token_transfer_from asset spender from to amount);
    strategy_deposit = λ a from amount y.
        if a == s
        then state_of (deposit strategy_env from amount y)
        else beside (b.strategy_deposit a from amount) y;
    strategy_withdraw = λ a to amount y.
        if a == s
        then state_of (withdraw strategy_env to amount y)
        else beside (b.strategy_withdraw a to amount) y;
    strategy_balance =
        λ a y. if a == s then probe_of (get_balance strategy_env y) else b.strategy_balance a y.ext;
    strategy_local_balance = λ a y.
        if a == s then some (get_local_balance y.store) else b.strategy_local_balance a y.ext;
    strategy_asset =
        λ a y. if a == s then answer_of (get_asset strategy_env y) else b.strategy_asset a y.ext;
  }

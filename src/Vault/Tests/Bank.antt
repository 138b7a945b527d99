-- ===== src/Vault/Tests/Bank.antt =====
-- The environment and the storage that the runs of contracts/august-vault/src/contract.rs use.
use stellar_upshift_vault_co.Base.{
  ◌+◌, ◌-◌, ◌*◌, ◌/◌, ◌||◌, Option, none, some, [], ◌∷◌, ◌==◌, if◌then◌else◌,
}
use stellar_upshift_vault_co.Base.Int.{ℤ, pos, ◌+ℤ◌, ◌-ℤ◌, ltb_ℤ}
use stellar_upshift_vault_co.Soroban.{Address, Outcome, ok, panic, value, invoke_error}
use stellar_upshift_vault_co.Vault.Errors.{Panic}
use stellar_upshift_vault_co.Vault.Storage.{Storage, SubaccountType, Map, wallet}
use stellar_upshift_vault_co.Vault.State.{Env, World, Rounding, floor, ceil}

-- The token's balances, and the supply of shares.
pub record Bank : Type 0 where
  pub balances : Address → ℤ
  pub supply : ℤ

abbrev pub move : Address → Address → ℤ → Bank → Option Bank
move from to amount x =
    if ltb_ℤ (x.balances from) amount
    then none
    else some (record x {
      balances = λ a.
          if a == from
          then x.balances a -ℤ amount
          else if a == to
          then x.balances a +ℤ amount
          else x.balances a;
    })

-- Floor and ceiling of `x * y / d` on numbers.
abbrev pub mul_div : ℤ → ℤ → ℤ → Rounding → Option ℤ
mul_div (pos x) (pos y) (pos d) floor = some (pos (x * y / d))
mul_div (pos x) (pos y) (pos d) ceil = some (pos ((x * y + (d - 1)) / d))
mul_div x y d r = none

-- The vault is 0, the admin 1, the operator 2, the admin to be 3, a user 4, the token 5; 6 is a
-- strategy that cannot be reached, 7 and 8 are wallets.
abbrev pub env : Env Bank
env = record {
  current_contract_address = 0;
  timestamp = 1000000;
  authorized = λ a. a == 1 || a == 2 || a == 3 || a == 4;
  extend_ttl = λ threshold extend_to ttl. extend_to;
  instance_ttl_threshold = 100;
  instance_extend_amount = 200;
  set_asset = λ a x. some x;
  set_decimals_offset = λ n x. some x;
  set_metadata = λ d n s x. some x;
  query_asset = λ x. some 5;
  get_decimals_offset = λ x. 3;
  decimals = λ x. some 10;
  total_supply = λ x. x.supply;
  share_balance = λ x a. if a == 4 then x.supply else pos 0;
  transfer = λ from to amount x. some x;
  transfer_from = λ spender from to amount x. some x;
  approve = λ owner spender amount live x. some x;
  deposit_internal = λ receiver assets shares from operator x. some x;
  withdraw_internal = λ receiver owner assets shares operator x. elim (move 0 receiver assets x) [
    | none ↦ none
    | some x' ↦ some (record x' { supply = x'.supply -ℤ shares })
  ];
  mul_div = mul_div;
  token_decimals = λ asset x. some 7;
  token_balance = λ asset a x. value (x.balances a);
  token_transfer = λ asset from to amount x. move from to amount x;
  token_transfer_from = λ asset spender from to amount x. move from to amount x;
  strategy_deposit = λ s vault amount x. none;
  strategy_withdraw = λ s vault amount x. none;
  strategy_balance = λ s x. if s == 6 then invoke_error else value (x.balances s);
  strategy_local_balance = λ s x. none;
  strategy_asset = λ s x. none;
}

abbrev pub types : Map SubaccountType
types a = if a == 7 then some wallet else if a == 8 then some wallet else none

abbrev pub trackers : Map ℤ
trackers a = if a == 7 then some (pos 1000) else if a == 8 then some (pos 500) else none

abbrev pub store : Storage
store = record {
  admin = some 1;
  pending_admin = some 3;
  admin_proposal_expiry = some 1000000;
  operator = some 2;
  deployed_assets = some (pos 1500);
  subaccounts = some (7 ∷ 8 ∷ []);
  subaccount_types = some types;
  wallet_net_deployed = some trackers;
  paused = none;
  aum_increase_limit = none;
  aum_decrease_limit = none;
  aum_window_duration = none;
  aum_cumulative_increase_limit = none;
  aum_cumulative_decrease_limit = none;
  aum_window_start = none;
  aum_cumulative_increase = none;
  aum_cumulative_decrease = none;
  aum_window_base_deployed = none;
}

abbrev pub bank : Bank
bank = record { balances = λ a. if a == 0 then pos 4000 else pos 100; supply = pos 5000000 }

abbrev pub world : World Bank
world = record { store = store; ext = bank; ttl = 0; events = [] }

-- The state after a call, or the one before it, if the call panics.
abbrev pub after : {A : Type 0} → World Bank → Outcome Panic (World Bank) A → World Bank
after w (ok a w') = w'
after w (panic p) = w

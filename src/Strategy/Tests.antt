-- ===== src/Strategy/Tests.antt =====
-- Runs of the strategy (contracts/xlm-strategy/src/lib.rs) on concrete inputs, with a host and a
-- token that are small concrete functions.
use stellar_upshift_vault_co.Base.{
  ◌*◌, ◌≡◌, inl, inr, refl, true, ◌||◌, Option, none, some, [], arith, ◌==◌, if◌then◌else◌,
}
use stellar_upshift_vault_co.Base.Int.{ℤ, pos, ◌+ℤ◌, ◌-ℤ◌, ◌*ℤ◌, ◌≤ℤ◌, ◌<ℤ◌, ltb_ℤ}
use stellar_upshift_vault_co.Soroban.{Address, Outcome, ok, panic, Returns}
use stellar_upshift_vault_co.Soroban.I128.{
  fits, checked, checked_add, checked_sub, checked_mul, saturating_sub, i128_max, i128_min,
}
use stellar_upshift_vault_co.Strategy.State.{
  Panic, Storage, Env, World, get_local_balance, get_deployed_total,
}
use stellar_upshift_vault_co.Strategy.Helpers.{
  bump_instance, require_auth, require_vault, require_controller, require_valid_protocol_target,
  actual_balance, require_within_settle_limit, check_settle_rate_limit,
}
use stellar_upshift_vault_co.Strategy.Funds.{
  receive, deposit, withdraw, get_balance, idle_component, report_donation, report_shortfall,
}
use stellar_upshift_vault_co.Strategy.Protocol.{
  deploy_to_protocol, recall_from_protocol, book_recall,
}
use stellar_upshift_vault_co.Strategy.Settle.{seed_local_balance, settle_protocol_returns}
use stellar_upshift_vault_co.Strategy.Migration.{seed-Returns, settle-Returns}
use stellar_upshift_vault_co.Strategy.Entry.{Request, execute, here, next}
use stellar_upshift_vault_co.Strategy.Invariant.{IsSound, History-IsSound}
use stellar_upshift_vault_co.Strategy.Settled.{InBand, settle-InBand}
use stellar_upshift_vault_co.Strategy.Balance.{
  get_balance-min, deploy-conserves, deposit-IsBacked, withdraw-Returns,
}
use stellar_upshift_vault_co.Strategy.Access.{IsController, IsTarget, execute-IsStrategyPermitted}

-- The state outside: the token's balances.
abbrev Balances : Type 0
Balances = Address → ℤ

abbrev move : Address → Address → ℤ → Balances → Option Balances
move from to amount x =
    if ltb_ℤ (x from) amount
    then none
    else some λ a. if a == from then x a -ℤ amount else if a == to then x a +ℤ amount else x a

-- The strategy is 0, the vault 1, the controller 2, the token 3, a protocol 4.
abbrev env : Env Balances
env = record {
  current_contract_address = 0;
  authorized = λ a. a == 1 || a == 2;
  extend_ttl = λ threshold extend_to ttl. extend_to;
  token_balance = λ asset a x. some (x a);
  token_transfer = λ asset from to amount x. move from to amount x;
}

abbrev store : Storage
store = record {
  asset = some 3;
  vault = some 1;
  controller = some 2;
  deployed_total = some (pos 2000);
  local_balance = some (pos 700);
  deployed_total_bootstrapped = some true;
}

-- The strategy holds 50 more than its tracker says.
abbrev balances : Balances
balances a = if a == 0 then pos 750 else pos 5000

abbrev world : World Balances
world = record { store = store; ext = balances; ttl = 0; events = [] }

-- The state after a call, or the one before it, if the call panics.
abbrev after : World Balances → Outcome Panic (World Balances) (Unit {0}) → World Balances
after w (ok a w') = w'
after w (panic p) = w

store-IsSound : IsSound store
store-IsSound = record {
  local_nonneg = omega arith;
  deployed_nonneg = omega arith;
  latched = inr refl;
}

abbrev recall : Request
recall = Request.recall_from_protocol 2 4 (pos 2100)

abbrev recalled : World Balances
recalled = after world (execute env recall world)

recall_returns : execute env recall world ≡ ok tt recalled
unfolding execute recall_from_protocol book_recall bump_instance require_auth require_controller
    require_valid_protocol_target saturating_sub checked_sub checked_add checked fits i128_max
    i128_min ◌+ℤ◌ ◌-ℤ◌
recall_returns = refl

History-IsSound_example : IsSound (recalled.store)
History-IsSound_example = History-IsSound store-IsSound (next env recall here recall_returns)

settle-InBand_example : InBand 2000 2150 × (pos 2150 ≡ pos 2150)
unfolding settle_protocol_returns check_settle_rate_limit require_within_settle_limit bump_instance
    require_auth require_controller checked_sub checked_mul checked fits i128_max i128_min ◌-ℤ◌ ◌*ℤ◌
settle-InBand_example = settle-InBand env 2 2000 2150 world refl (inl refl)

execute-IsStrategyPermitted_example : IsController env store 2 × IsTarget env store 4
unfolding execute deploy_to_protocol bump_instance require_auth require_controller
    require_valid_protocol_target checked_sub checked_add checked fits i128_max i128_min ◌+ℤ◌ ◌-ℤ◌
execute-IsStrategyPermitted_example =
    execute-IsStrategyPermitted env (Request.deploy_to_protocol 2 4 (pos 300)) world

get_balance-min_example : (pos 2700 ≡ pos 700 +ℤ pos 2000) × (store ≡ store)
unfolding get_balance idle_component report_donation report_shortfall bump_instance actual_balance
    checked_sub checked_add checked fits i128_max i128_min ◌+ℤ◌ ◌-ℤ◌
get_balance-min_example = get_balance-min env world 3 (pos 750) refl refl

deploy-conserves_example :
    (pos 400 +ℤ pos 2300 ≡ pos 700 +ℤ pos 2000)
    × (pos 2300 ≡ pos 2000 +ℤ pos 300)
    × (pos 300 ≤ℤ pos 700)
    × (pos 0 <ℤ pos 300)
unfolding deploy_to_protocol bump_instance require_auth require_controller
    require_valid_protocol_target checked_sub checked_add checked fits i128_max i128_min ◌+ℤ◌ ◌-ℤ◌
deploy-conserves_example = deploy-conserves env 2 4 (pos 300) world

deposit-IsBacked_example :
    (store.vault ≡ some 1)
    × (pos 740 ≡ pos 700 +ℤ pos 40)
    × (pos 740 ≤ℤ pos 750)
    × (pos 2000 ≡ pos 2000)
unfolding deposit receive bump_instance require_auth require_vault actual_balance checked_add
    checked fits i128_max i128_min ◌+ℤ◌
deposit-IsBacked_example = deposit-IsBacked env 1 3 (pos 40) (pos 750) world (omega arith) refl refl

-- What the transfer of the whole tracker leaves.
abbrev emptied : Balances
emptied a =
    if a == 0 then balances a -ℤ pos 700 else if a == 1 then balances a +ℤ pos 700 else balances a

in_range : pos 700 ≤ℤ i128_max
unfolding i128_max
in_range = omega arith

withdraw-Returns_example :
    Returns
      (λ paid w'.
        (paid ≡ pos 700)
        × (get_local_balance w'.store ≡ pos 700 -ℤ paid)
        × (get_deployed_total w'.store ≡ pos 2000)
        × (w'.ext ≡ emptied))
      (withdraw env 1 (pos 900) world)
withdraw-Returns_example =
    withdraw-Returns env 1 3 (pos 900) emptied world (omega arith) (omega arith) in_range refl refl
      refl refl

-- The same world after the tracker has run down to 0.
abbrev drained : World Balances
drained = record world { store = record store { local_balance = some (pos 0) } }

seed-Returns_example :
    Returns
      (λ _ w'. (get_local_balance w'.store ≡ pos 600) × (get_deployed_total w'.store ≡ pos 2000))
      (seed_local_balance env 2 (pos 600) drained)
seed-Returns_example =
    seed-Returns env 2 3 (pos 600) (pos 750) drained refl refl refl refl refl (omega arith)
      (omega arith)

large_in_range : pos (2000 * 1000) ≤ℤ i128_max
unfolding i128_max
large_in_range = omega arith

settle-Returns_example :
    Returns
      (λ _ w'. (get_deployed_total w'.store ≡ pos 1950) × (get_local_balance w'.store ≡ pos 700))
      (settle_protocol_returns env 2 (pos 1950) world)
settle-Returns_example =
    settle-Returns env 2 2000 1950 world refl refl refl (omega arith, omega arith) large_in_range
      (omega (arith, large_in_range))

-- ===== src/Strategy/State.antt =====
-- contracts/xlm-strategy/src/lib.rs: errors, events, the instance storage (a field for each
-- `StorageKey`, `none` is a key that was never written) and the world of an invocation.
use stellar_upshift_vault_co.Base.{
  ℕ, ◌-◌, ◌*◌, Bool, true, false, Option, none, some, List, ◌∷◌, unwrap_or,
}
use stellar_upshift_vault_co.Base.Int.{ℤ, pos}
use stellar_upshift_vault_co.Soroban.{Address, ok, panic, Call, or_panic}

pub data StrategyError : Type 0 where
  not_vault not_controller invalid_amount insufficient_balance invalid_target : StrategyError
  invalid_controller math_overflow balance_decreased_on_transfer : StrategyError
  settle_rate_limit_exceeded no_donation_to_recover local_balance_already_seeded : StrategyError
  seed_exceeds_actual_balance deployed_total_already_initialized deposit_shortfall : StrategyError

-- `trap` is a failure below the contract, as in Vault/Errors.
pub data Panic : Type 0 where
  error : StrategyError → Panic
  trap : Panic

pub data Event : Type 0 where
  deployed_to_protocol : Address → Address → ℤ → Event
  recalled_from_protocol : Address → Address → ℤ → Event
  controller_changed : Address → Address → Event
  deployed_total_underflow : ℤ → ℤ → Event
  deployed_total_settled : Address → ℤ → ℤ → Event
  donation_detected : ℤ → ℤ → ℤ → Event
  donation_recovered : Address → Address → ℤ → Event
  local_balance_seeded : Address → ℤ → Event
  deployed_total_seeded : Address → ℤ → Event
  tracker_exceeds_balance : ℤ → ℤ → ℤ → Event

pub record Storage : Type 0 where
  pub asset : Option Address
  pub vault : Option Address
  pub controller : Option Address
  pub deployed_total : Option ℤ
  pub local_balance : Option ℤ
  pub deployed_total_bootstrapped : Option Bool

abbrev pub day_in_ledgers : ℕ
day_in_ledgers = 17280

abbrev pub instance_extend_amount : ℕ
instance_extend_amount = 30 * day_in_ledgers

abbrev pub instance_ttl_threshold : ℕ
instance_ttl_threshold = instance_extend_amount - day_in_ledgers

abbrev pub settle_increase_bps : ℤ
settle_increase_bps = pos 1000

abbrev pub settle_decrease_bps : ℤ
settle_decrease_bps = pos 500

abbrev pub bps_divisor : ℕ
bps_divisor = 10000

-- The environment of an invocation: the host, and the token that the strategy manages, as
-- parameters. `X` is the state outside the strategy; a call that traps answers `none`.
pub record Env (X : Type 0) : Type 0 where
  pub current_contract_address : Address
  pub authorized : Address → Bool
  pub extend_ttl : ℕ → ℕ → ℕ → ℕ
  pub token_balance : Address → Address → X → Option ℤ
  pub token_transfer : Address → Address → Address → ℤ → X → Option X

pub record World (X : Type 0) : Type 0 where
  pub store : Storage
  pub ext : X
  pub ttl : ℕ
  pub events : List Event

-- A call of the strategy.
abbrev pub Action : Type 0 → Type 0 → Type 0
Action X A = Call Panic (World X) A

abbrev pub get_local_balance : Storage → ℤ
get_local_balance s = unwrap_or s.local_balance (pos 0)

abbrev pub get_deployed_total : Storage → ℤ
get_deployed_total s = unwrap_or s.deployed_total (pos 0)

abbrev pub is_deployed_total_bootstrapped : Storage → Bool
is_deployed_total_bootstrapped s = unwrap_or s.deployed_total_bootstrapped false

abbrev pub set_local_balance : ℤ → Storage → Storage
set_local_balance v s = record s { local_balance = some v }

abbrev pub set_deployed_total : ℤ → Storage → Storage
set_deployed_total v s = record s { deployed_total = some v }

abbrev pub set_deployed_total_bootstrapped : Storage → Storage
set_deployed_total_bootstrapped s = record s { deployed_total_bootstrapped = some true }

module _ {X : Type 0} where
  abbrev pub load : {A : Type 0} → (Storage → A) → Action X A
  load f w = ok (f w.store) w

  -- A stored value that is unwrapped.
  abbrev pub load_some : {A : Type 0} → (Storage → Option A) → Action X A
  load_some f w = or_panic (f w.store) trap w

  abbrev pub try_view : {A : Type 0} → (X → Option A) → Action X A
  try_view f w = or_panic (f w.ext) trap w

  abbrev pub save : (Storage → Storage) → Action X (Unit {0})
  save f w = ok tt (record w { store = f w.store })

  abbrev pub invoke : (X → Option X) → Action X (Unit {0})
  invoke f w = elim (f w.ext) [ none ↦ panic trap | some x ↦ ok tt (record w { ext = x }) ]

  -- `publish`: the newest event stands first.
  abbrev pub emit : Event → Action X (Unit {0})
  emit ev w = ok tt (record w { events = ev ∷ w.events })

-- ===== src/Linked/Ready.antt =====
-- When contracts/xlm-strategy/src/lib.rs is set up for a vault, and what its calls leave then.
use stellar_upshift_vault_co.Base.{◌≡◌, refl, some, arith}
use stellar_upshift_vault_co.Base.Int.{ℤ, pos, ◌≤ℤ◌, ◌+ℤ◌, ◌-ℤ◌, -ℤ_parts, +ℤ_parts}
use stellar_upshift_vault_co.Soroban.{Address, Outcome, ok, panic, value, Returns}
use stellar_upshift_vault_co.Soroban.I128.{
  checked_add, checked_sub, checked, fits, i128_max, i128_min,
}
use stellar_upshift_vault_co.Vault.State.{Env}
use stellar_upshift_vault_co.Strategy.State.{
  World as StrategyWorld, Panic as StrategyPanic, Storage as StrategyStorage, get_local_balance,
  get_deployed_total,
}
use stellar_upshift_vault_co.Linked.{state_of, probe_of}

-- A strategy that is set up for the vault at `b` describes, with what it holds and tracks in range.
pub record IsReady {T : Type 0} (b : Env T) (s asset : Address) (actual : ℤ) (t : T)
    (store : StrategyStorage) : Type 0 where
  pub asset_eq : store.asset ≡ some asset
  pub vault_eq : store.vault ≡ some b.current_contract_address
  pub actual_eq : b.token_balance asset s t ≡ value actual
  pub actual_nonneg : pos 0 ≤ℤ actual
  pub local_nonneg : pos 0 ≤ℤ get_local_balance store
  pub deployed_nonneg : pos 0 ≤ℤ get_deployed_total store
  pub actual_range : actual +ℤ get_deployed_total store ≤ℤ i128_max
  pub local_range : get_local_balance store +ℤ get_deployed_total store ≤ℤ i128_max

-- Sums and differences in range.
pub sum_fits :
    (l m : ℤ) → pos 0 ≤ℤ l → pos 0 ≤ℤ m → l +ℤ m ≤ℤ i128_max → checked_add l m ≡ some (l +ℤ m)
unfolding checked_add checked fits i128_min
sum_fits l m h k r = ground (arith, +ℤ_parts l m)

pub difference_fits :
    (l m d : ℤ)
    → pos 0 ≤ℤ m
    → m ≤ℤ l
    → pos 0 ≤ℤ d
    → l +ℤ d ≤ℤ i128_max
    → checked_sub l m ≡ some (l -ℤ m)
unfolding checked_sub checked fits i128_min
difference_fits l m d h k n r = ground (arith, -ℤ_parts l m, +ℤ_parts l d)

-- What a call of the strategy that returns leaves, and answers.
pub returned_state :
    {T A : Type 0} (Q : StrategyWorld T → Type 0) (o : Outcome StrategyPanic (StrategyWorld T) A)
    → Returns (λ _. Q) o
    → (y' : StrategyWorld T) × (state_of o ≡ some y') × Q y'
returned_state Q (ok a y') h = (y', refl, h)
returned_state Q (panic p) h = absurd h

pub returned_answer :
    {T : Type 0} (Q : ℤ → Type 0) (o : Outcome StrategyPanic (StrategyWorld T) ℤ)
    → Returns (λ v _. Q v) o
    → (v : ℤ) × (probe_of o ≡ value v) × Q v
returned_answer Q (ok v y') h = (v, refl, h)
returned_answer Q (panic p) h = absurd h

-- Nothing but the TTL, and the log, differs.
pub record IsSame {T : Type 0} (y y' : StrategyWorld T) : Type 0 where
  pub store : y'.store ≡ y.store
  pub ext : y'.ext ≡ y.ext

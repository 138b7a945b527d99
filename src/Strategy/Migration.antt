-- ===== src/Strategy/Migration.antt =====
-- When `seed_local_balance` and `settle_protocol_returns` (contracts/xlm-strategy/src/lib.rs)
-- return.
use stellar_upshift_vault_co.Base.{ℕ, ◌*◌, ◌≡◌, true, some, arith}
use stellar_upshift_vault_co.Base.Int.{ℤ, pos, ◌≤ℤ◌, ◌-ℤ◌, -ℤ_parts, pos-mul}
use stellar_upshift_vault_co.Soroban.{Address, Returns}
use stellar_upshift_vault_co.Soroban.I128.{
  checked, checked_sub, checked_mul, fits, i128_max, i128_min,
}
use stellar_upshift_vault_co.Strategy.State.{Env, World, get_local_balance, get_deployed_total}
use stellar_upshift_vault_co.Strategy.Helpers.{
  bump_instance, require_auth, require_controller, actual_balance, check_settle_rate_limit,
  require_within_settle_limit,
}
use stellar_upshift_vault_co.Strategy.Settle.{seed_local_balance, settle_protocol_returns}
use stellar_upshift_vault_co.Strategy.Settled.{InBand}

-- A number in the range of `i128` passes the range check.
checked_number : (a : ℤ) → pos 0 ≤ℤ a → a ≤ℤ i128_max → checked a ≡ some a
unfolding checked fits i128_min
checked_number a h k = ground arith

module _ {X : Type 0} (e : Env X) where
  -- The stored controller, authorizing the call, can seed the local tracker whenever it is 0, with
  -- any amount from 0 to the strategy's balance `actual` of the stored asset, whatever was seeded
  -- before: the call returns, and the tracker is the amount.
  pub seed-Returns :
      (controller asset : Address) (amount actual : ℤ) (w : World X)
      → e.authorized controller ≡ true
      → w.store.controller ≡ some controller
      → w.store.asset ≡ some asset
      → e.token_balance asset e.current_contract_address w.ext ≡ some actual
      → get_local_balance w.store ≡ pos 0
      → pos 0 ≤ℤ amount
      → amount ≤ℤ actual
      → Returns
          (λ _ w'.
            (get_local_balance w'.store ≡ amount)
            × (get_deployed_total w'.store ≡ get_deployed_total w.store))
          (seed_local_balance e controller amount w)
  unfolding seed_local_balance bump_instance require_auth require_controller actual_balance
  seed-Returns controller asset amount actual w signed stored asset_eq actual_eq empty h k =
      ground (arith, signed, stored, asset_eq, actual_eq, empty)

  limit-Returns :
      (p n : ℕ) (w : World X)
      → InBand p n
      → pos (p * 1000) ≤ℤ i128_max
      → pos n ≤ℤ i128_max
      → Returns (λ _ w'. w' ≡ w) (require_within_settle_limit e (pos p) (pos n) w)
  unfolding require_within_settle_limit checked_sub checked_mul
  limit-Returns p n w band range range' = ground (
    arith,
    band,
    pos-mul p 1000,
    pos-mul p 500,
    -ℤ_parts (pos p) (pos n),
    -ℤ_parts (pos n) (pos p),
    checked_number (pos n -ℤ pos p),
    checked_number (pos p -ℤ pos n),
    checked_number (pos (p * 1000)),
    checked_number (pos (p * 500)),
  )

  check-Returns :
      (p n : ℕ) (w : World X)
      → InBand p n
      → pos (p * 1000) ≤ℤ i128_max
      → pos n ≤ℤ i128_max
      → Returns (λ _ w'. w' ≡ w) (check_settle_rate_limit e (pos p) (pos n) w)
  unfolding check_settle_rate_limit
  check-Returns p n w band range range' = ground (arith, limit-Returns p n w band range range')

  -- The stored controller, authorizing the call, can settle the deployed total from `p` to any `n`
  -- within 10 percent above and 5 percent below it, as long as 1000 times `p` and `n` are in the
  -- range of `i128`: the call returns, the deployed total is `n`, and the local tracker stays.
  pub settle-Returns :
      (controller : Address) (p n : ℕ) (w : World X)
      → e.authorized controller ≡ true
      → w.store.controller ≡ some controller
      → get_deployed_total w.store ≡ pos p
      → InBand p n
      → pos (p * 1000) ≤ℤ i128_max
      → pos n ≤ℤ i128_max
      → Returns
          (λ _ w'.
            (get_deployed_total w'.store ≡ pos n)
            × (get_local_balance w'.store ≡ get_local_balance w.store))
          (settle_protocol_returns e controller (pos n) w)
  unfolding settle_protocol_returns bump_instance require_auth require_controller
  settle-Returns controller p n w signed stored total band range range' =
      grind (arith, check-Returns)

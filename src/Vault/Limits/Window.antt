-- ===== src/Vault/Limits/Window.antt =====
-- The limits on changes of the aggregate (contracts/august-vault/src/contract.rs): what each test
-- of `apply_deployed_assets_change` lets through, and the state of the cumulative window after it.
use stellar_upshift_vault_co.Base.{
  ℕ, ◌≡◌, Bool, true, false, not, inl, inr, Option-cases, Bool-cases, arith,
}
use stellar_upshift_vault_co.Base.Int.{ℤ, pos, ◌≤ℤ◌, ◌*ℤ◌, eqb_ℤ}
use stellar_upshift_vault_co.Soroban.{Address, Ensures, when}
use stellar_upshift_vault_co.Soroban.I128.{checked_add, checked_mul}
use stellar_upshift_vault_co.Vault.Errors.{VaultError, aum_cumulative_change_exceeds_limit}
use stellar_upshift_vault_co.Vault.Storage.{
  Storage, get_deployed_assets, get_aum_cumulative_increase, get_aum_cumulative_increase_limit,
  get_aum_cumulative_decrease, get_aum_cumulative_decrease_limit, get_aum_window_base_deployed,
  reset_aum_window,
}
use stellar_upshift_vault_co.Vault.State.{Env, World, set_deployed_assets}
use stellar_upshift_vault_co.Vault.Pricing.{local_balance}
use stellar_upshift_vault_co.Vault.Limits.{
  require_within_bps_limit, window_is_over, accumulate, check_aum_cumulative_limit,
  check_aum_rate_limit, limit_increase, limit_decrease, apply_deployed_assets_change,
}

-- `change` is at most `limit_bps` basis points of `base`.
abbrev pub WithinBps : ℕ → ℤ → ℤ → Type 0
WithinBps limit_bps base change = change *ℤ pos 10000 ≤ℤ pos limit_bps *ℤ base

-- The invariant of the window: what has accumulated in either direction is within the limit.
pub record IsWithinWindow (s : Storage) : Type 0 where
  pub deployed_nonneg : pos 0 ≤ℤ get_deployed_assets s
  pub base_nonneg : pos 0 ≤ℤ get_aum_window_base_deployed s
  pub increase :
      WithinBps
        (get_aum_cumulative_increase_limit s)
        (get_aum_window_base_deployed s)
        (get_aum_cumulative_increase s)
  pub decrease :
      WithinBps
        (get_aum_cumulative_decrease_limit s)
        (get_aum_window_base_deployed s)
        (get_aum_cumulative_decrease s)

-- A change that is not positive is within any limit.
pub WithinBps-nonpos :
    (limit : ℕ) (base change : ℤ) → pos 0 ≤ℤ base → change ≤ℤ pos 0 → WithinBps limit base change
unfolding ◌*ℤ◌
WithinBps-nonpos limit base change b c = ground arith

module _ {X : Type 0} (e : Env X) where
  pub require-Within :
      (value base : ℤ) (limit : ℕ) (c : VaultError) (w : World X)
      → Ensures
          (λ _ w'. (w' ≡ w) × WithinBps limit base value)
          (require_within_bps_limit value base limit c w)
  unfolding require_within_bps_limit checked_mul
  require-Within value base limit c w = ground arith

  accumulate-Window :
      (d : ℤ) (up : Bool) (w : World X)
      → IsWithinWindow w.store
      → Ensures
          (λ _ w'. IsWithinWindow w'.store)
          (accumulate e d (get_aum_window_base_deployed w.store) up w)
  unfolding accumulate
  accumulate-Window d true w h =
      elim (Option-cases (checked_add (get_aum_cumulative_increase w.store) d)) [
        | inl overflow ↦ ground (arith, overflow)
        | inr (new, sum) ↦ ground (
          arith,
          sum,
          h.deployed_nonneg,
          h.base_nonneg,
          h.decrease,
          require-Within new (get_aum_window_base_deployed w.store)
              (get_aum_cumulative_increase_limit w.store) aum_cumulative_change_exceeds_limit w,
        )
      ]
  accumulate-Window d false w h =
      elim (Option-cases (checked_add (get_aum_cumulative_decrease w.store) d)) [
        | inl overflow ↦ ground (arith, overflow)
        | inr (new, sum) ↦ ground (
          arith,
          sum,
          h.deployed_nonneg,
          h.base_nonneg,
          h.increase,
          require-Within new (get_aum_window_base_deployed w.store)
              (get_aum_cumulative_decrease_limit w.store) aum_cumulative_change_exceeds_limit w,
        )
      ]

  pub reset-Window :
      (base : ℤ) (s : Storage)
      → pos 0 ≤ℤ get_deployed_assets s
      → pos 0 ≤ℤ base
      → IsWithinWindow (reset_aum_window e.timestamp base s)
  reset-Window base s d b = record {
    deployed_nonneg = d;
    base_nonneg = b;
    increase = WithinBps-nonpos _ base (pos 0) b (omega arith);
    decrease = WithinBps-nonpos _ base (pos 0) b (omega arith);
  }

  accumulate_if-Window :
      (d : ℤ) (up : Bool) (w : World X)
      → IsWithinWindow w.store
      → Ensures
          (λ _ w'. IsWithinWindow w'.store)
          (when
            (not (eqb_ℤ (get_aum_window_base_deployed w.store) (pos 0)))
            (accumulate e d (get_aum_window_base_deployed w.store) up)
            w)
  accumulate_if-Window d up w h =
      elim (Bool-cases (eqb_ℤ (get_aum_window_base_deployed w.store) (pos 0))) [
        | inl zero ↦ rw zero h
        | inr nonzero ↦ rw nonzero (accumulate-Window d up w h)
      ]

  pub check-Window :
      (d old : ℤ) (up : Bool) (w : World X)
      → pos 0 ≤ℤ old
      → IsWithinWindow w.store
      → Ensures (λ _ w'. IsWithinWindow w'.store) (check_aum_cumulative_limit e d old up w)
  unfolding check_aum_cumulative_limit
  check-Window d old up w o h = elim (Bool-cases (window_is_over e w.store)) [
    | inl over ↦ rw over (
        accumulate_if-Window d up (record w { store = reset_aum_window e.timestamp old (w.store) })
          (reset-Window old w.store h.deployed_nonneg o))
    | inr open_still ↦ rw open_still (accumulate_if-Window d up w h)
  ]

  increase-Window :
      (old new : ℤ) (w : World X)
      → pos 0 ≤ℤ old
      → IsWithinWindow w.store
      → Ensures (λ _ w'. IsWithinWindow w'.store) (limit_increase e old new w)
  unfolding limit_increase check_aum_rate_limit require_within_bps_limit
  increase-Window old new w o h = grind (arith, check-Window)

  decrease-Window :
      (old new : ℤ) (w : World X)
      → pos 0 ≤ℤ old
      → IsWithinWindow w.store
      → Ensures (λ _ w'. IsWithinWindow w'.store) (limit_decrease e old new w)
  unfolding limit_decrease check_aum_rate_limit require_within_bps_limit
  decrease-Window old new w o h = grind (arith, check-Window)

  pub apply-Window :
      (actor : Address) (old new : ℤ) (w : World X)
      → IsWithinWindow w.store
      → Ensures (λ _ w'. IsWithinWindow w'.store) (apply_deployed_assets_change e actor old new w)
  unfolding apply_deployed_assets_change set_deployed_assets local_balance
  apply-Window actor old new w h = grind (arith, increase-Window, decrease-Window)

-- ===== src/Vault/Limits/Tally.antt =====
-- The cumulative window of contracts/august-vault/src/contract.rs against a tally of the changes of
-- the aggregate: what the reported values have risen and fallen by since the window opened, summed
-- over the requests of a history, with no look at the counters that the code keeps.
pub mod Reports
pub mod Counted
pub mod Requests
use stellar_upshift_vault_co.Base.{
  ℕ, ◌-◌, ◌≡◌, Bool, true, false, not, ◌&&◌, ◌||◌, ◌==◌, leb, if◌then◌else◌, arith,
}
use stellar_upshift_vault_co.Base.Int.{ℤ, pos, ◌+ℤ◌, ◌-ℤ◌, ltb_ℤ, eqb_ℤ}
use stellar_upshift_vault_co.Soroban.{Address, Ensures}
use stellar_upshift_vault_co.Soroban.I128.{checked_add, checked_sub}
use stellar_upshift_vault_co.Vault.Storage.{
  Storage, get_deployed_assets, get_aum_window_duration, get_aum_window_start,
  get_aum_window_base_deployed, get_aum_cumulative_increase, get_aum_cumulative_decrease,
}
use stellar_upshift_vault_co.Vault.State.{Env, World, set_deployed_assets}
use stellar_upshift_vault_co.Vault.Pricing.{local_balance}
use stellar_upshift_vault_co.Vault.Limits.{
  require_within_bps_limit, window_is_over, accumulate, check_aum_cumulative_limit,
  check_aum_rate_limit, limit_increase, limit_decrease, apply_deployed_assets_change,
}

-- When the window opened, the aggregate then, and the sums of the rises and of the falls since.
pub record Tally : Type 0 where
  pub start : ℕ
  pub base : ℤ
  pub rises : ℤ
  pub falls : ℤ

abbrev pub opened : ℕ → ℤ → Tally
opened timestamp deployed = record {
  start = timestamp;
  base = deployed;
  rises = pos 0;
  falls = pos 0;
}

-- A window of this length that never opened, or has run out, opens with this change.
abbrev pub renewed : ℕ → ℕ → ℤ → Tally → Tally
renewed timestamp duration old g =
    if g.start == 0 || leb duration (timestamp - g.start) then opened timestamp old else g

-- A rise or a fall counts, but for a window that opened at an aggregate of 0, where no percentage
-- is defined.
abbrev pub added : Bool → ℤ → Tally → Tally
added up d g =
    if eqb_ℤ g.base (pos 0)
    then g
    else if up
    then record g { rises = g.rises +ℤ d }
    else record g { falls = g.falls +ℤ d }

-- A report that moves the aggregate from `old` to `new`. Only moves from a positive value count.
abbrev pub counted : ℕ → ℕ → ℤ → ℤ → Tally → Tally
counted timestamp duration old new g =
    if ltb_ℤ (pos 0) old && not (eqb_ℤ new old)
    then (if ltb_ℤ old new
        then added true (new -ℤ old) (renewed timestamp duration old g)
        else added false (old -ℤ new) (renewed timestamp duration old g))
    else g

-- The counters of the storage are the tally.
pub record IsTallied (g : Tally) (s : Storage) : Type 0 where
  pub start_eq : get_aum_window_start s ≡ g.start
  pub base_eq : get_aum_window_base_deployed s ≡ g.base
  pub rises_eq : get_aum_cumulative_increase s ≡ g.rises
  pub falls_eq : get_aum_cumulative_decrease s ≡ g.falls

module _ {X : Type 0} (e : Env X) where
  check-IsTallied :
      (g : Tally) (d old : ℤ) (up : Bool) (w : World X)
      → IsTallied g w.store
      → Ensures
          (λ _ w'.
            IsTallied
              (added up d (renewed e.timestamp (get_aum_window_duration w.store) old g))
              w'.store)
          (check_aum_cumulative_limit e d old up w)
  unfolding check_aum_cumulative_limit accumulate window_is_over require_within_bps_limit
      checked_add
  check-IsTallied g d old up w h = ground (arith, h.start_eq, h.base_eq, h.rises_eq, h.falls_eq)

  increase-IsTallied :
      (g : Tally) (old new : ℤ) (w : World X)
      → IsTallied g w.store
      → Ensures
          (λ _ w'.
            IsTallied
              (added true
                (new -ℤ old)
                (renewed e.timestamp (get_aum_window_duration w.store) old g))
              w'.store)
          (limit_increase e old new w)
  unfolding limit_increase check_aum_rate_limit require_within_bps_limit checked_sub
  increase-IsTallied g old new w h = ground (arith, check-IsTallied g (new -ℤ old) old true w h)

  decrease-IsTallied :
      (g : Tally) (old new : ℤ) (w : World X)
      → IsTallied g w.store
      → Ensures
          (λ _ w'.
            IsTallied
              (added false
                (old -ℤ new)
                (renewed e.timestamp (get_aum_window_duration w.store) old g))
              w'.store)
          (limit_decrease e old new w)
  unfolding limit_decrease check_aum_rate_limit require_within_bps_limit checked_sub
  decrease-IsTallied g old new w h = ground (arith, check-IsTallied g (old -ℤ new) old false w h)

  pub apply-IsTallied :
      (g : Tally) (actor : Address) (old new : ℤ) (w : World X)
      → IsTallied g w.store
      → Ensures
          (λ _ w'.
            (get_deployed_assets w'.store ≡ new)
            × IsTallied (counted e.timestamp (get_aum_window_duration w.store) old new g) w'.store)
          (apply_deployed_assets_change e actor old new w)
  unfolding apply_deployed_assets_change set_deployed_assets local_balance
  apply-IsTallied g actor old new w h = ground (
    arith,
    h.start_eq,
    h.base_eq,
    h.rises_eq,
    h.falls_eq,
    increase-IsTallied g old new w h,
    decrease-IsTallied g old new w h,
  )

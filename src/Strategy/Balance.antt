-- ===== src/Strategy/Balance.antt =====
-- What `get_balance` (contracts/xlm-strategy/src/lib.rs) reports to the vault.
use stellar_upshift_vault_co.Base.{◌≡◌, some, true, arith}
use stellar_upshift_vault_co.Base.Int.{ℤ, pos, ◌≤ℤ◌, ◌<ℤ◌, ◌+ℤ◌, ◌-ℤ◌, int_laws, -ℤ_parts, min_ℤ}
use stellar_upshift_vault_co.Soroban.{Address, Ensures, Returns}
use stellar_upshift_vault_co.Soroban.I128.{
  checked_add, checked_sub, checked, fits, i128_max, i128_min,
}
use stellar_upshift_vault_co.Strategy.State.{Env, World, get_local_balance, get_deployed_total}
use stellar_upshift_vault_co.Strategy.Helpers.{
  bump_instance, require_auth, require_vault, require_controller, require_valid_protocol_target,
  actual_balance,
}
use stellar_upshift_vault_co.Strategy.Funds.{
  get_balance, idle_component, report_donation, report_shortfall, deposit, receive, withdraw, send,
}
use stellar_upshift_vault_co.Strategy.Protocol.{deploy_to_protocol}

move_lem : (l d v : ℤ) → l -ℤ v +ℤ (d +ℤ v) ≡ l +ℤ d
move_lem l d v = omega int_laws

-- A part of a number in the range of `i128` can be taken off it.
within : (l m : ℤ) → pos 0 ≤ℤ m → m ≤ℤ l → l ≤ℤ i128_max → checked_sub l m ≡ some (l -ℤ m)
unfolding checked_sub checked fits i128_min
within l m h k r = ground (arith, -ℤ_parts l m)

module _ {X : Type 0} (e : Env X) where
  -- Where the stored asset's balance of the strategy is `actual`, a `get_balance` that returns
  -- answers the smaller of `actual` and the local tracker, plus the deployed total, and leaves the
  -- storage.
  pub get_balance-min :
      (w : World X) (asset : Address) (actual : ℤ)
      → w.store.asset ≡ some asset
      → e.token_balance asset e.current_contract_address w.ext ≡ some actual
      → Ensures
          (λ balance w'.
            (balance ≡ min_ℤ actual (get_local_balance w.store) +ℤ get_deployed_total w.store)
            × (w'.store ≡ w.store))
          (get_balance e w)
  unfolding get_balance idle_component report_donation report_shortfall bump_instance actual_balance
      checked_add
  get_balance-min w asset actual asset_eq actual_eq = grind (int_laws, asset_eq, actual_eq)

  -- `deploy_to_protocol`, where it returns, moves the amount from the local tracker to the deployed
  -- total: their sum stays, and the tracker covered the amount.
  pub deploy-conserves :
      (controller protocol : Address) (amount : ℤ) (w : World X)
      → Ensures
          (λ _ w'.
            (get_local_balance w'.store +ℤ get_deployed_total w'.store
              ≡ get_local_balance w.store +ℤ get_deployed_total w.store)
            × (get_deployed_total w'.store ≡ get_deployed_total w.store +ℤ amount)
            × (amount ≤ℤ get_local_balance w.store)
            × (pos 0 <ℤ amount))
          (deploy_to_protocol e controller protocol amount w)
  unfolding deploy_to_protocol bump_instance require_auth require_controller
      require_valid_protocol_target checked_sub checked_add
  deploy-conserves controller protocol amount w =
      ground (arith, move_lem (get_local_balance w.store) (get_deployed_total w.store) amount)

  -- Where the stored asset's balance of the strategy is `actual`, a positive deposit that returns
  -- was made for the vault, raises the local tracker by the amount, to at most `actual`, and leaves
  -- the deployed total.
  pub deposit-IsBacked :
      (from asset : Address) (amount actual : ℤ) (w : World X)
      → pos 0 <ℤ amount
      → w.store.asset ≡ some asset
      → e.token_balance asset e.current_contract_address w.ext ≡ some actual
      → Ensures
          (λ _ w'.
            (w.store.vault ≡ some from)
            × (get_local_balance w'.store ≡ get_local_balance w.store +ℤ amount)
            × (get_local_balance w'.store ≤ℤ actual)
            × (get_deployed_total w'.store ≡ get_deployed_total w.store))
          (deposit e from amount w)
  unfolding deposit receive bump_instance require_auth require_vault actual_balance checked_add
      checked
  deposit-IsBacked from asset amount actual w positive asset_eq actual_eq =
      ground (arith, asset_eq, actual_eq)

  -- A withdrawal that the vault authorizes, of a positive amount, returns the smaller of the amount
  -- and the local tracker, takes it off the tracker, and leaves the deployed total, provided that
  -- the token's transfer of it goes through and the tracker is positive and in the range of `i128`.
  pub withdraw-Returns :
      (to asset : Address) (amount : ℤ) (x : X) (w : World X)
      → pos 0 <ℤ amount
      → pos 0 <ℤ get_local_balance w.store
      → get_local_balance w.store ≤ℤ i128_max
      → w.store.vault ≡ some to
      → w.store.asset ≡ some asset
      → e.authorized to ≡ true
      → e.token_transfer asset e.current_contract_address to
          (min_ℤ amount (get_local_balance w.store))
          w.ext
        ≡ some x
      → Returns
          (λ paid w'.
            (paid ≡ min_ℤ amount (get_local_balance w.store))
            × (get_local_balance w'.store ≡ get_local_balance w.store -ℤ paid)
            × (get_deployed_total w'.store ≡ get_deployed_total w.store)
            × (w'.ext ≡ x))
          (withdraw e to amount w)
  unfolding withdraw send bump_instance require_auth require_vault
  withdraw-Returns to asset amount x w positive tracked range vault_eq asset_eq signed moved =
      ground (
        arith,
        vault_eq,
        asset_eq,
        signed,
        moved,
        within (get_local_balance w.store) (min_ℤ amount (get_local_balance w.store)),
      )

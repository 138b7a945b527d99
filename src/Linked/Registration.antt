-- ===== src/Linked/Registration.antt =====
-- The interface checks of `add_subaccount` (contracts/august-vault/src/contract.rs) on
-- contracts/xlm-strategy/src/lib.rs.
use stellar_upshift_vault_co.Base.{
  ◌≡◌, none, some, true, false, List, [], ◌∷◌, ◌++◌, length, length-append, leb, ltb, arith,
}
use stellar_upshift_vault_co.Base.Int.{ℤ, pos, ◌≤ℤ◌, +ℤ_parts}
use stellar_upshift_vault_co.Soroban.{Address, value, Returns}
use stellar_upshift_vault_co.Vault.State.{
  Env, World, bump_instance as bump, require_admin, require_auth as require_signed,
  require_not_paused, set_subaccounts,
}
use stellar_upshift_vault_co.Vault.Storage.{
  strategy, is_paused, max_subaccounts, get_subaccounts, get_subaccount_type,
}
use stellar_upshift_vault_co.Vault.Subaccounts.{find_subaccount_index, smoke_test, add_subaccount}
use stellar_upshift_vault_co.Strategy.State.{
  World as StrategyWorld, get_local_balance, get_deployed_total,
}
use stellar_upshift_vault_co.Strategy.Helpers.{bump_instance, require_vault, actual_balance}
use stellar_upshift_vault_co.Strategy.Funds.{
  deposit, withdraw, get_balance, get_asset, idle_component, report_donation, report_shortfall,
}
use stellar_upshift_vault_co.Linked.{strategy_env, link}
use stellar_upshift_vault_co.Linked.Ready.{
  IsReady, IsSame, sum_fits, difference_fits, returned_state, returned_answer,
}

module _ {T : Type 0} (b : Env T) (s asset : Address) (actual : ℤ) where
  ready_balance :
      (y : StrategyWorld T)
      → IsReady b s asset actual y.ext y.store
      → Returns (λ balance _. pos 0 ≤ℤ balance) (get_balance (strategy_env b s) y)
  unfolding get_balance idle_component report_donation report_shortfall bump_instance actual_balance
  ready_balance y h =
      let l = get_local_balance y.store in
      let d = get_deployed_total y.store in
      ground (
        arith,
        h.asset_eq,
        h.actual_eq,
        h.actual_nonneg,
        h.local_nonneg,
        h.deployed_nonneg,
        h.actual_range,
        h.local_range,
        sum_fits actual d,
        sum_fits l d,
        difference_fits actual l d,
        difference_fits l actual d,
        +ℤ_parts actual d,
        +ℤ_parts l d,
      )

  -- Zero-amount calls change nothing but the TTL of the strategy.
  deposit_zero :
      (y : StrategyWorld T)
      → y.store.vault ≡ some b.current_contract_address
      → Returns (λ _. IsSame y) (deposit (strategy_env b s) b.current_contract_address (pos 0) y)
  unfolding deposit bump_instance require_vault
  deposit_zero y h = ground (arith, h)

  withdraw_zero :
      (y : StrategyWorld T)
      → y.store.vault ≡ some b.current_contract_address
      → Returns (λ _. IsSame y) (withdraw (strategy_env b s) b.current_contract_address (pos 0) y)
  unfolding withdraw bump_instance require_vault
  withdraw_zero y h = ground (arith, h)

  moved-IsReady :
      (y y' : StrategyWorld T)
      → IsSame y y'
      → IsReady b s asset actual y.ext y.store
      → IsReady b s asset actual y'.ext y'.store
  moved-IsReady y y' m h = rw (m.store, m.ext) h

  -- Each interface check as the vault sees it.
  pub deposit_check :
      (y : StrategyWorld T)
      → y.store.vault ≡ some b.current_contract_address
      → (y' : StrategyWorld T) × ((link b s).strategy_deposit s b.current_contract_address (pos 0) y
          ≡ some y')
        × IsSame y y'
  deposit_check y h =
      let (y', e, same) =
        returned_state (IsSame y) (deposit (strategy_env b s) b.current_contract_address (pos 0) y)
          (deposit_zero y h) in
      (y', ground (arith, e), same)

  pub withdraw_check :
      (y : StrategyWorld T)
      → y.store.vault ≡ some b.current_contract_address
      → (y' : StrategyWorld T) × ((link b s).strategy_withdraw s b.current_contract_address
            (pos 0)
            y
          ≡ some y')
        × IsSame y y'
  withdraw_check y h =
      let (y', e, same) =
        returned_state (IsSame y) (withdraw (strategy_env b s) b.current_contract_address (pos 0) y)
          (withdraw_zero y h) in
      (y', ground (arith, e), same)

  balance_check :
      (y : StrategyWorld T)
      → IsReady b s asset actual y.ext y.store
      → (v : ℤ) × ((link b s).strategy_balance s y ≡ value v) × (pos 0 ≤ℤ v)
  balance_check y h =
      let (v, e, nonneg) =
        returned_answer (λ v. pos 0 ≤ℤ v) (get_balance (strategy_env b s) y) (ready_balance y h) in
      (v, ground (arith, e), nonneg)

  others_check :
      (y : StrategyWorld T)
      → y.store.asset ≡ some asset
      → ((link b s).strategy_asset s y ≡ some asset)
        × ((link b s).strategy_local_balance s y ≡ some (get_local_balance y.store))
  unfolding get_asset bump_instance
  others_check y h = ground (arith, h)

  -- A strategy that is ready passes the interface checks, which change nothing but its TTL.
  smoke_test-Returns :
      (w : World (StrategyWorld T))
      → IsReady b s asset actual w.ext.ext w.ext.store
      → b.query_asset w.ext.ext ≡ some asset
      → Returns
          (λ _ w'. (w'.store ≡ w.store) × (w'.ext.store ≡ w.ext.store) × (w'.ext.ext ≡ w.ext.ext))
          (smoke_test (link b s) s w)
  unfolding smoke_test
  smoke_test-Returns w h queried =
      let (y₁, deposited, same₁) = deposit_check w.ext h.vault_eq in
      let h₁ = moved-IsReady w.ext y₁ same₁ h in
      let (y₂, withdrawn, same₂) = withdraw_check y₁ h₁.vault_eq in
      let h₂ = moved-IsReady y₁ y₂ same₂ h₁ in
      let (v, answer, nonneg) = balance_check y₂ h₂ in
      let others = others_check y₂ h₂.asset_eq in
      ground (
        arith, deposited, withdrawn, answer, nonneg, others, h₂.local_nonneg, same₁.store,
        same₁.ext, same₂.store, same₂.ext, queried,
      )

  append_fits :
      (subs : List Address) (a : Address)
      → leb max_subaccounts (length subs) ≡ false
      → ltb max_subaccounts (length (subs ++ a ∷ [])) ≡ false
  append_fits subs a h = ground (arith, length-append subs (a ∷ []), h)

  -- The strategy of this repository can be registered: where it is set up for this vault and its
  -- asset, with trackers that are not negative and in range, `add_subaccount` by the authorized
  -- admin of a vault that is not paused, with room on the whitelist, returns; the strategy stands
  -- last on the whitelist, as a strategy, its own storage and the rest of the world stay.
  pub add_strategy-Returns :
      (admin : Address) (w : World (StrategyWorld T))
      → IsReady b s asset actual w.ext.ext w.ext.store
      → b.query_asset w.ext.ext ≡ some asset
      → b.authorized admin ≡ true
      → w.store.admin ≡ some admin
      → is_paused w.store ≡ false
      → find_subaccount_index (get_subaccounts w.store) s ≡ none
      → leb max_subaccounts (length (get_subaccounts w.store)) ≡ false
      → Returns
          (λ _ w'.
            (w'.store.subaccounts ≡ some (get_subaccounts w.store ++ s ∷ []))
            × (get_subaccount_type w'.store s ≡ strategy)
            × (w'.ext.store ≡ w.ext.store)
            × (w'.ext.ext ≡ w.ext.ext))
          (add_subaccount (link b s) admin s strategy w)
  unfolding add_subaccount bump require_admin require_signed require_not_paused set_subaccounts
  add_strategy-Returns admin w h queried signed is_admin running unlisted room = ground (
    arith,
    signed,
    is_admin,
    running,
    unlisted,
    room,
    append_fits (get_subaccounts w.store) s room,
    smoke_test-Returns
        (record w { ttl = b.extend_ttl b.instance_ttl_threshold b.instance_extend_amount w.ttl }) h
        queried,
  )

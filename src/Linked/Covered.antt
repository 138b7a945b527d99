-- ===== src/Linked/Covered.antt =====
-- What the documentation of the strategy interface (contracts/august-vault/src/strategy.rs) demands
-- of the calls of contracts/xlm-strategy/src/lib.rs, where the strategy is set up for the vault and
-- its tracker is covered by its tokens.
use stellar_upshift_vault_co.Base.{◌≡◌, refl, true, Bool, some, arith}
use stellar_upshift_vault_co.Base.Int.{ℤ, pos, ◌≤ℤ◌, ◌<ℤ◌, ◌+ℤ◌, +ℤ_parts}
use stellar_upshift_vault_co.Soroban.{Address, value, Ensures, Ensures-mono}
use stellar_upshift_vault_co.Soroban.I128.{checked_add}
use stellar_upshift_vault_co.Vault.State.{Env}
use stellar_upshift_vault_co.Vault.Interface.{IsNoOp}
use stellar_upshift_vault_co.Strategy.State.{
  World as StrategyWorld, get_local_balance, get_deployed_total,
}
use stellar_upshift_vault_co.Strategy.Helpers.{
  bump_instance, require_auth, require_vault, actual_balance,
}
use stellar_upshift_vault_co.Strategy.Funds.{
  deposit, receive, withdraw, get_balance, idle_component, report_donation, report_shortfall,
}
use stellar_upshift_vault_co.Linked.{strategy_env, strategy_env_as, link, state_of, probe_of}
use stellar_upshift_vault_co.Linked.Ready.{IsSame}

-- The strategy at `s` is set up for the vault and its asset, with trackers that are not negative, and
-- holds the tokens that it tracks.
pub record IsCovered {T : Type 0} (b : Env T) (s asset : Address) (y : StrategyWorld T)
    : Type 0 where
  pub asset_eq : y.store.asset ≡ some asset
  pub vault_eq : y.store.vault ≡ some b.current_contract_address
  pub actual : ℤ
  pub actual_eq : b.token_balance asset s y.ext ≡ value actual
  pub local_nonneg : pos 0 ≤ℤ get_local_balance y.store
  pub local_held : get_local_balance y.store ≤ℤ actual
  pub deployed_nonneg : pos 0 ≤ℤ get_deployed_total y.store

-- What the vault's calls leave of a strategy that is set up.
unfoldable pub Kept : {T : Type 0} → StrategyWorld T → StrategyWorld T → Type 0
Kept y y' =
    (y'.store.asset ≡ y.store.asset)
    × (y'.store.vault ≡ y.store.vault)
    × (get_deployed_total y'.store ≡ get_deployed_total y.store)

module _ {T : Type 0} (b : Env T) (s asset : Address) where
  pub deposit_access :
      (auth : Address → Bool) (from : Address) (amount : ℤ) (y y' : StrategyWorld T)
      → IsCovered b s asset y
      → pos 0 <ℤ amount
      → state_of (deposit (strategy_env_as b s auth) from amount y) ≡ some y'
      → (from ≡ b.current_contract_address) × (auth b.current_contract_address ≡ true)
  unfolding deposit receive bump_instance require_auth require_vault
  deposit_access auth from amount y y' c positive h = ground (arith, c.vault_eq, h)

  pub withdraw_access :
      (auth : Address → Bool) (to : Address) (amount : ℤ) (y y' : StrategyWorld T)
      → IsCovered b s asset y
      → pos 0 <ℤ amount
      → state_of (withdraw (strategy_env_as b s auth) to amount y) ≡ some y'
      → (to ≡ b.current_contract_address) × (auth b.current_contract_address ≡ true)
  unfolding withdraw bump_instance require_auth require_vault
  withdraw_access auth to amount y y' c positive h = ground (arith, c.vault_eq, h)

  deposit_parts :
      (amount : ℤ) (y : StrategyWorld T) (c : IsCovered b s asset y)
      → Ensures
          (λ _ y'.
            (y'.ext ≡ y.ext)
            × Kept y y'
            × (pos 0 ≤ℤ get_local_balance y'.store)
            × (get_local_balance y'.store ≤ℤ c.actual))
          (deposit (strategy_env b s) b.current_contract_address amount y)
  unfolding deposit receive bump_instance require_auth require_vault actual_balance checked_add Kept
  deposit_parts amount y c = ground (
    arith,
    c.asset_eq,
    c.vault_eq,
    c.actual_eq,
    c.local_nonneg,
    c.local_held,
    +ℤ_parts (get_local_balance y.store) amount,
  )

  pub deposit-IsCovered :
      (amount : ℤ) (y : StrategyWorld T)
      → IsCovered b s asset y
      → Ensures
          (λ _ y'.
            IsCovered b s asset y' × (get_deployed_total y'.store ≡ get_deployed_total y.store))
          (deposit (strategy_env b s) b.current_contract_address amount y)
  unfolding Kept
  deposit-IsCovered amount y c =
      Ensures-mono (deposit (strategy_env b s) b.current_contract_address amount y)
        (deposit_parts amount y c)
        (λ _ y' (ext, (same_asset, same_vault, deployed), nonneg, held). (
          record {
            asset_eq = rw same_asset c.asset_eq;
            vault_eq = rw same_vault c.vault_eq;
            actual = c.actual;
            actual_eq = rw ext c.actual_eq;
            local_nonneg = nonneg;
            local_held = held;
            deployed_nonneg = rw deployed c.deployed_nonneg;
          },
          deployed,
        ))

  covered_balance :
      (y : StrategyWorld T)
      → IsCovered b s asset y
      → Ensures
          (λ v _. (v ≡ get_local_balance y.store +ℤ get_deployed_total y.store) × (pos 0 ≤ℤ v))
          (get_balance (strategy_env b s) y)
  unfolding get_balance idle_component report_donation report_shortfall bump_instance actual_balance
      checked_add
  covered_balance y c = ground (
    arith,
    c.asset_eq,
    c.actual_eq,
    c.local_nonneg,
    c.local_held,
    c.deployed_nonneg,
    +ℤ_parts (get_local_balance y.store) (get_deployed_total y.store),
  )

  pub covered_report :
      (balance : ℤ) (y : StrategyWorld T)
      → IsCovered b s asset y
      → (link b s).strategy_balance s y ≡ value balance
      → (balance ≡ get_local_balance y.store +ℤ get_deployed_total y.store) × (pos 0 ≤ℤ balance)
  covered_report balance y c h = ground (arith, covered_balance y c, h)

  -- The answers of the strategy depend on its storage and the token alone.
  same_balance :
      (y y' : StrategyWorld T)
      → IsSame y y'
      → probe_of (get_balance (strategy_env b s) y') ≡ probe_of (get_balance (strategy_env b s) y)
  unfolding get_balance idle_component report_donation report_shortfall bump_instance actual_balance
  same_balance y y' m = ground (arith, m.store, m.ext)

  pub same-IsNoOp : (y y' : StrategyWorld T) → IsSame y y' → IsNoOp (link b s) s y y'
  same-IsNoOp y y' m = record {
    holdings = λ a c. rw m.ext refl;
    report = ground (arith, same_balance y y' m);
    local = ground (arith, m.store);
  }

-- ===== src/Linked/Contract.antt =====
-- contracts/xlm-strategy/src/lib.rs fulfils what the documentation of the strategy interface
-- (contracts/august-vault/src/strategy.rs) demands.
use stellar_upshift_vault_co.Base.{◌≡◌, ◌≢◌, refl, ◌==◌, Bool, Option, some, arith}
use stellar_upshift_vault_co.Base.Int.{ℤ, pos, ◌≤ℤ◌, ◌+ℤ◌, ◌-ℤ◌, min_ℤ, int_laws}
use stellar_upshift_vault_co.Soroban.{Address, value}
use stellar_upshift_vault_co.Vault.State.{Env}
use stellar_upshift_vault_co.Vault.Interface.{IStrategy, IsNoOp}
use stellar_upshift_vault_co.Strategy.State.{
  World as StrategyWorld, get_local_balance, get_deployed_total,
}
use stellar_upshift_vault_co.Strategy.Funds.{deposit, withdraw}
use stellar_upshift_vault_co.Linked.{strategy_env, strategy_env_as, link, state_of}
use stellar_upshift_vault_co.Linked.Strategy.{
  asset_answer, deposit_result, DepositResult, withdraw_result, WithdrawResult,
}
use stellar_upshift_vault_co.Linked.Laws.{
  Exact, beside-some, state_ok, deposit_state, withdraw_state, withdrawn_local_result,
}
use stellar_upshift_vault_co.Linked.Registration.{deposit_check, withdraw_check}
use stellar_upshift_vault_co.Linked.Interface.{link-Accounts, managed_answer}
use stellar_upshift_vault_co.Linked.Covered.{
  IsCovered, same-IsNoOp, deposit_access, withdraw_access, covered_report, deposit-IsCovered, Kept,
}
use stellar_upshift_vault_co.Linked.Withdrawal.{
  Pays, withdraw_parts, withdraw-IsCovered, paid_range,
}

raised : (l a d : ℤ) → l ≤ℤ a → pos 0 ≤ℤ d → l ≤ℤ a +ℤ d
raised l a d h n = omega int_laws

module _ {T : Type 0} (b : Env T) (s asset : Address) where
  -- The strategy's estimate of the capital outside.
  abbrev pub estimate : StrategyWorld T → ℤ
  estimate y = get_deployed_total y.store

  -- Its functions in a frame with these authorizations.
  abbrev pub deposit_as :
      (Address → Bool) → Address → ℤ → StrategyWorld T → Option (StrategyWorld T)
  deposit_as auth from amount y = state_of (deposit (strategy_env_as b s auth) from amount y)

  abbrev pub withdraw_as :
      (Address → Bool) → Address → ℤ → StrategyWorld T → Option (StrategyWorld T)
  withdraw_as auth to amount y = state_of (withdraw (strategy_env_as b s auth) to amount y)

  local_answer :
      (y : StrategyWorld T) (tracked : ℤ)
      → (link b s).strategy_local_balance s y ≡ some tracked
      → get_local_balance y.store ≡ tracked
  local_answer y tracked h = ground (arith, h)

  local_shown :
      (y : StrategyWorld T) (tracked : ℤ)
      → get_local_balance y.store ≡ tracked
      → (link b s).strategy_local_balance s y ≡ some tracked
  local_shown y tracked h = ground (arith, h)

  same_local :
      (y y' : StrategyWorld T)
      → y'.store ≡ y.store
      → (link b s).strategy_local_balance s y' ≡ (link b s).strategy_local_balance s y
  same_local y y' h = ground (arith, h)

  deposit_called :
      (from : Address) (amount : ℤ) (y : StrategyWorld T)
      → (link b s).strategy_deposit s from amount y
        ≡ deposit_as (λ c. c == b.current_contract_address) from amount y
  deposit_called from amount y = ground arith

  withdraw_called :
      (to : Address) (amount : ℤ) (y : StrategyWorld T)
      → (link b s).strategy_withdraw s to amount y
        ≡ withdraw_as (λ c. c == b.current_contract_address) to amount y
  withdraw_called to amount y = ground arith

  module _ (apart : b.current_contract_address ≢ s) (exact : Exact b asset) where
    Keeps : StrategyWorld T → StrategyWorld T → Type 0
    Keeps y y' = IsCovered b s asset y' × (estimate y' ≡ estimate y)

    deposit-Keeps :
        (amount : ℤ) (y y' : StrategyWorld T)
        → IsCovered b s asset y
        → (link b s).strategy_deposit s b.current_contract_address amount y ≡ some y'
        → Keeps y y'
    unfolding Keeps
    deposit-Keeps amount y y' c h =
        state_ok b s asset apart exact (Keeps y)
          (deposit (strategy_env b s) b.current_contract_address amount y) y'
          (deposit_state b s asset apart exact amount y y' h)
          (deposit-IsCovered b s asset amount y c)

    withdrawal :
        (amount : ℤ) (y y' : StrategyWorld T)
        → IsCovered b s asset y
        → (link b s).strategy_withdraw s b.current_contract_address amount y ≡ some y'
        → Kept y y' × Pays b s asset (min_ℤ amount (get_local_balance y.store)) y y'
    withdrawal amount y y' c h =
        state_ok b s asset apart exact
          (λ u. Kept y u × Pays b s asset (min_ℤ amount (get_local_balance y.store)) y u)
          (withdraw (strategy_env b s) b.current_contract_address amount y) y'
          (withdraw_state b s asset apart exact amount y y' h) (withdraw_parts b s asset amount y c)

    donation :
        (from : Address) (amount : ℤ) (y y' : StrategyWorld T)
        → IsCovered b s asset y
        → from ≢ s
        → pos 0 ≤ℤ amount
        → (link b s).token_transfer asset from s amount y ≡ some y'
        → IsCovered b s asset y'
          × ((link b s).strategy_local_balance s y' ≡ (link b s).strategy_local_balance s y)
          × (estimate y' ≡ estimate y)
    donation from amount y y' c other nonneg h =
        let (moved, same) = beside-some (b.token_transfer asset from s amount) y y' h in
        let held = c.local_held in
        (
          record {
            asset_eq = rw same c.asset_eq;
            vault_eq = rw same c.vault_eq;
            actual = c.actual +ℤ amount;
            actual_eq = exact.credits from s amount c.actual y.ext y'.ext other moved c.actual_eq;
            local_nonneg = rw same c.local_nonneg;
            local_held = rw same (raised (get_local_balance y.store) c.actual amount held nonneg);
            deployed_nonneg = rw same c.deployed_nonneg;
          },
          same_local y y' same,
          rw same refl,
        )

    no_deposit :
        (y : StrategyWorld T)
        → IsCovered b s asset y
        → (y' : StrategyWorld T) × ((link b s).strategy_deposit s b.current_contract_address
              (pos 0)
              y
            ≡ some y')
          × IsNoOp (link b s) s y y'
    no_deposit y c =
        let (y', e, same) = deposit_check b s asset c.actual y c.vault_eq in
        (y', e, same-IsNoOp b s asset y y' same)

    no_withdrawal :
        (y : StrategyWorld T)
        → IsCovered b s asset y
        → (y' : StrategyWorld T) × ((link b s).strategy_withdraw s b.current_contract_address
              (pos 0)
              y
            ≡ some y')
          × IsNoOp (link b s) s y y'
    no_withdrawal y c =
        let (y', e, same) = withdraw_check b s asset c.actual y c.vault_eq in
        (y', e, same-IsNoOp b s asset y y' same)

    report_sum :
        (balance tracked : ℤ) (y : StrategyWorld T)
        → IsCovered b s asset y
        → (link b s).strategy_local_balance s y ≡ some tracked
        → (link b s).strategy_balance s y ≡ value balance
        → balance ≡ tracked +ℤ estimate y
    report_sum balance tracked y c local answer =
        rw (← local_answer y tracked local) (covered_report b s asset balance y c answer).0

    -- The strategy of this repository, at an address other than the vault's, fulfils the documented
    -- contract of the interface in the states where it is set up for the vault and the vault's asset,
    -- its trackers are not negative and it holds the tokens that it tracks: only the vault's
    -- authorized calls of `deposit` and `withdraw` on a positive amount go through, its calls on a
    -- zero amount return and change nothing shown, `withdraw` pays up to the amount, `get_balance`,
    -- where it answers, is the local balance and the deployed total and not negative, the local
    -- balance follows the vault's calls and ignores donations, and its report moves by what left or
    -- reached the vault. The token's transfers move the amount from one balance to the other.
    pub link-IStrategy :
        IStrategy (link b s) asset s (IsCovered b s asset) estimate deposit_as withdraw_as
    unfolding Keeps
    link-IStrategy = record {
      accounts = link-Accounts b s asset apart exact;
      deposit_called = deposit_called;
      withdraw_called = withdraw_called;
      deposit_restricted = deposit_access b s asset;
      withdraw_restricted = withdraw_access b s asset;
      deposit_zero = no_deposit;
      withdraw_zero = no_withdrawal;
      withdraw_up_to = λ amount before after y y' c nonneg had h has.
          paid_range b s asset apart exact amount before after y y' nonneg had
            (withdrawal amount y y' c h).1 has;
      managed = λ y c. managed_answer b s asset apart exact y c.asset_eq;
      balance_nonneg = λ balance y c answer. (covered_report b s asset balance y c answer).1;
      balance_sum = report_sum;
      local_nonneg = λ tracked y c local. rw (← local_answer y tracked local) c.local_nonneg;
      deposited_local = λ amount tracked y y' managed local h.
          let asset_eq = asset_answer b s y asset managed in
          let result =
            state_ok b s asset apart exact (DepositResult b s amount asset y)
              (deposit (strategy_env b s) b.current_contract_address amount y) y'
              (deposit_state b s asset apart exact amount y y' h)
              (deposit_result b s amount asset y asset_eq) in
          local_shown y' (tracked +ℤ amount) (rw (← local_answer y tracked local) result.3);
      withdrawn_local = λ amount before after tracked y y' managed had local h has.
          let asset_eq = asset_answer b s y asset managed in
          let result =
            state_ok b s asset apart exact (WithdrawResult b s amount asset y)
              (withdraw (strategy_env b s) b.current_contract_address amount y) y'
              (withdraw_state b s asset apart exact amount y y' h)
              (withdraw_result b s amount asset y asset_eq) in
          local_shown y' (tracked -ℤ (after -ℤ before)) (
            rw (← local_answer y tracked local) (
              withdrawn_local_result b s asset apart exact amount before after y y' had result
                has));
      donation_ignored = donation;
      deposit_keeps = deposit-Keeps;
      withdraw_keeps = λ amount y y' c h.
          let (kept, paid) = withdrawal amount y y' c h in
          withdraw-IsCovered b s asset apart exact amount y y' c kept paid;
    }

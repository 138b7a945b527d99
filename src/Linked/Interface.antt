-- ===== src/Linked/Interface.antt =====
-- contracts/xlm-strategy/src/lib.rs fills the interface of contracts/august-vault/src/strategy.rs,
-- and what that gives of the vault with the strategy on its whitelist.
use stellar_upshift_vault_co.Base.{◌≡◌, ◌≢◌, inl, inr, refl, some, arith}
use stellar_upshift_vault_co.Base.Int.{ℤ, min_ℤ}
use stellar_upshift_vault_co.Soroban.{Address, ok, Ensures}
use stellar_upshift_vault_co.Vault.State.{Env}
use stellar_upshift_vault_co.Vault.Interface.{Aside, Token, Accounts}
use stellar_upshift_vault_co.Strategy.State.{World as StrategyWorld, get_local_balance}
use stellar_upshift_vault_co.Strategy.Helpers.{
  bump_instance, require_auth, require_vault, actual_balance,
}
use stellar_upshift_vault_co.Strategy.Funds.{deposit, receive, withdraw, get_asset}
use stellar_upshift_vault_co.Linked.{strategy_env, link}
use stellar_upshift_vault_co.Linked.Strategy.{asset_answer, withdraw_result, WithdrawResult}
use stellar_upshift_vault_co.Linked.Laws.{
  Exact, beside-some, state_ok, deposit_state, withdraw_state, withdrawn_result, deposited_result,
}
use stellar_upshift_vault_co.Vault.State.{World}
use stellar_upshift_vault_co.Vault.Storage.{strategy, get_subaccounts, get_subaccount_type}
use stellar_upshift_vault_co.Vault.Pricing.{custom_total_assets}
use stellar_upshift_vault_co.Vault.Subaccounts.{deposit_to_subaccount, withdraw_from_subaccount}
use stellar_upshift_vault_co.Soroban.{Returns}
use stellar_upshift_vault_co.Base.Int.{pos, ◌≤ℤ◌}
use stellar_upshift_vault_co.Vault.Storage.{get_deployed_assets}
use stellar_upshift_vault_co.Vault.Interface.Total.{IsSolvent}
use stellar_upshift_vault_co.Vault.Books.{IsDistinct}
use stellar_upshift_vault_co.Vault.Interface.Transfers.{deposit_to-total, withdraw_from-total}

module _ {T : Type 0} (b : Env T) (s : Address) where
  deposit_ext :
      (amount : ℤ) (y : StrategyWorld T)
      → Ensures
          (λ _ y'. y'.ext ≡ y.ext)
          (deposit (strategy_env b s) b.current_contract_address amount y)
  unfolding deposit receive bump_instance require_auth require_vault actual_balance
  deposit_ext amount y = ground arith

  -- Nobody's report but that of `s` depends on the strategy's storage.
  other_report :
      (c : Address) (y : StrategyWorld T)
      → c ≢ s
      → (link b s).strategy_balance c y ≡ b.strategy_balance c y.ext
  other_report c y other = ground arith

  same-Aside : (y y' : StrategyWorld T) → y'.ext ≡ y.ext → Aside (link b s) s y y'
  same-Aside y y' h = record {
    asset = rw h refl;
    reports = λ c other. rw (other_report c y other, other_report c y' other, h) refl;
  }

  ext-Aside : (y y' : StrategyWorld T) → Aside b s y.ext y'.ext → Aside (link b s) s y y'
  ext-Aside y y' h = record {
    asset = h.asset;
    reports = λ c other. rw (other_report c y other, other_report c y' other) (h.reports c other);
  }

  -- The token of the vault is still one when the strategy stands at `s`.
  link-Token : (asset : Address) → Token b asset s → Token (link b s) asset s
  link-Token asset token = record {
    transferred = λ amount y y' h. ext-Aside y y' (
        token.transferred amount y.ext y'.ext
          (beside-some (b.token_transfer asset b.current_contract_address s amount) y y' h).0);
    transferred_from = λ amount y y' h. ext-Aside y y' (
        token.transferred_from amount y.ext y'.ext
          (beside-some
            (b.token_transfer_from asset b.current_contract_address s b.current_contract_address
              amount)
            y y' h).0);
  }

  module _ (asset : Address) (apart : b.current_contract_address ≢ s) (exact : Exact b asset) where
    local_answer :
        (y : StrategyWorld T) (tracked : ℤ)
        → (link b s).strategy_local_balance s y ≡ some tracked
        → get_local_balance y.store ≡ tracked
    local_answer y tracked h = ground (arith, h)

    local_shown :
        (y : StrategyWorld T) (tracked : ℤ)
        → get_local_balance y.store ≡ tracked
        → (link b s).strategy_local_balance s y ≡ some tracked
    local_shown y tracked h = ground (arith, h)

    withdrawal-Aside :
        (amount : ℤ) (y y' : StrategyWorld T)
        → WithdrawResult b s amount asset y y'
        → Aside (link b s) s y y'
    withdrawal-Aside amount y y' result = elim result.2 [
      | inl (same, _) ↦ same-Aside y y' same
      | inr (moved, _) ↦
          ext-Aside y y'
            (exact.returned s (min_ℤ amount (get_local_balance y.store)) y.ext y'.ext moved)
    ]

    -- A deposit of the vault raises the strategy's report, where it answers, by what left the vault, a
    -- withdrawal lowers it by what reached the vault, and both leave the vault's asset and the other
    -- strategies' reports.
    pub link-Accounts : Accounts (link b s) asset s
    link-Accounts = record {
      deposited =
          λ amount before after balance balance' y y₁ y₂ managed had answer moved left notified
              answer'.
            deposited_result b s asset apart exact amount before after balance balance' y y₁ y₂
              (asset_answer b s y asset managed) had answer moved left notified answer';
      deposit_notifies = λ amount y y' h.
          rw
            (state_ok b s asset apart exact (λ u. u.ext ≡ y.ext)
              (deposit (strategy_env b s) b.current_contract_address amount y) y'
              (deposit_state b s asset apart exact amount y y' h) (deposit_ext amount y))
            refl;
      deposit_aside = λ amount y y' h. same-Aside y y' (
          state_ok b s asset apart exact (λ u. u.ext ≡ y.ext)
            (deposit (strategy_env b s) b.current_contract_address amount y) y'
            (deposit_state b s asset apart exact amount y y' h) (deposit_ext amount y));
      withdrawn = λ amount before after balance balance' y y' managed had answer paid has answer'.
          withdrawn_result b s asset apart exact amount before after balance balance' y y'
            (asset_answer b s y asset managed) had answer paid has answer';
      withdraw_aside = λ amount y y' managed h. withdrawal-Aside amount y y' (
          state_ok b s asset apart exact (WithdrawResult b s amount asset y)
            (withdraw (strategy_env b s) b.current_contract_address amount y) y'
            (withdraw_state b s asset apart exact amount y y' h)
            (withdraw_result b s amount asset y (asset_answer b s y asset managed)));
    }

    pub managed_answer :
        (y : StrategyWorld T)
        → y.store.asset ≡ some asset
        → (link b s).strategy_asset s y ≡ some asset
    unfolding get_asset bump_instance
    managed_answer y h = ground (arith, h)

    module _ (token : Token b asset s) (w : World (StrategyWorld T))
        (asset_eq : b.query_asset w.ext.ext ≡ some asset) (managed : w.ext.store.asset ≡ some asset)
        (kind : get_subaccount_type w.store s ≡ strategy)
        (distinct : IsDistinct (get_subaccounts w.store))
        (nonneg : pos 0 ≤ℤ get_deployed_assets w.store) where
      -- A deposit of the vault to the strategy of this repository leaves the vault's total assets: the
      -- total is returned after it and is the total before it. Both manage the same token, whose
      -- transfers move the amount from one balance to the other and concern nobody else, the
      -- whitelist has no repetition, the aggregate is not negative, and after the deposit the vault
      -- holds no negative balance and the strategy answers with none.
      pub deposit_to_strategy-total :
          (operator : Address) (amount total : ℤ) (w' : World (StrategyWorld T))
          → custom_total_assets (link b s) w ≡ ok total w
          → deposit_to_subaccount (link b s) operator s amount w ≡ ok tt w'
          → IsSolvent (link b s) asset s w'
          → Returns (λ total' _. total' ≡ total) (custom_total_assets (link b s) w')
      deposit_to_strategy-total operator amount total w' =
          deposit_to-total (link b s) asset s (link-Token asset token) w asset_eq operator amount
            total w' (rw kind (link-Accounts, managed_answer w.ext managed)) distinct nonneg

      -- A withdrawal of the vault from it leaves the total too, under the same conditions.
      pub withdraw_from_strategy-total :
          (operator : Address) (amount total : ℤ) (w' : World (StrategyWorld T))
          → custom_total_assets (link b s) w ≡ ok total w
          → withdraw_from_subaccount (link b s) operator s amount w ≡ ok tt w'
          → IsSolvent (link b s) asset s w'
          → Returns (λ total' _. total' ≡ total) (custom_total_assets (link b s) w')
      withdraw_from_strategy-total operator amount total w' =
          withdraw_from-total (link b s) asset s (link-Token asset token) w asset_eq operator amount
            total w' (rw kind (link-Accounts, managed_answer w.ext managed)) distinct nonneg

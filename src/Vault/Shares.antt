-- ===== src/Vault/Shares.antt =====
-- contracts/august-vault/src/contract.rs: the share token and the ERC-4626 entry points.
use stellar_upshift_vault_co.Base.{ℕ, ◌&&◌, if◌then◌else◌}
use stellar_upshift_vault_co.Base.Int.{ℤ, pos, ltb_ℤ, eqb_ℤ, min_ℤ}
use stellar_upshift_vault_co.Soroban.{Address, ◌>>=◌, ◌>>◌, pure, branch, panic_if}
use stellar_upshift_vault_co.Soroban.I128.{i128_max}
use stellar_upshift_vault_co.Vault.Errors.{
  token_error, vault_invalid_assets_amount, vault_invalid_shares_amount, vault_exceeded_max_deposit,
  vault_exceeded_max_mint, vault_exceeded_max_withdraw, vault_exceeded_max_redeem,
}
use stellar_upshift_vault_co.Vault.Events
use stellar_upshift_vault_co.Vault.Storage.{is_paused}
use stellar_upshift_vault_co.Vault.State.{
  Env, Action, floor, ceil, load, view, invoke, emit, require_not_paused, bump_instance,
  require_auth,
}
use stellar_upshift_vault_co.Vault.Pricing.{
  local_balance, total_assets_from, convert_to_shares_with_total, convert_to_assets_with_total,
  preview_deposit, preview_mint,
}

module _ {X : Type 0} (e : Env X) where
  unfoldable pub transfer : Address → Address → ℤ → Action X (Unit {0})
  transfer from to amount = do bump_instance e; invoke (e.transfer from to amount)

  unfoldable pub transfer_from : Address → Address → Address → ℤ → Action X (Unit {0})
  transfer_from spender from to amount = do
    bump_instance e
    invoke (e.transfer_from spender from to amount)

  unfoldable pub approve : Address → Address → ℤ → ℕ → Action X (Unit {0})
  approve owner spender amount live_until_ledger = do
    bump_instance e
    invoke (e.approve owner spender amount live_until_ledger)

  unfoldable pub max_deposit : Address → Action X ℤ
  max_deposit receiver = do paused ← load is_paused; pure (if paused then pos 0 else i128_max)

  unfoldable pub max_mint : Address → Action X ℤ
  max_mint receiver = do paused ← load is_paused; pure (if paused then pos 0 else i128_max)

  -- What an owner can take out, given the local balance and the total: the smaller of the value of
  -- the shares and the local balance.
  unfoldable pub withdrawable : Address → ℤ → ℤ → Action X ℤ
  withdrawable owner local total_assets = do
    owned ← view (λ x. e.share_balance x owner)
    entitled ← convert_to_assets_with_total e owned total_assets floor
    pure (min_ℤ entitled local)

  -- The shares that an owner can redeem, likewise.
  unfoldable pub redeemable : Address → ℤ → ℤ → Action X ℤ
  redeemable owner local total_assets = do
    user_shares ← view (λ x. e.share_balance x owner)
    shares_for_available ← convert_to_shares_with_total e local total_assets floor
    pure (min_ℤ user_shares shares_for_available)

  unfoldable pub max_withdraw : Address → Action X ℤ
  max_withdraw owner = do
    paused ← load is_paused
    branch paused (pure (pos 0)) do
      local ← local_balance e
      total ← total_assets_from e local
      withdrawable owner local total

  unfoldable pub max_redeem : Address → Action X ℤ
  max_redeem owner = do
    paused ← load is_paused
    branch paused (pure (pos 0))
        do local ← local_balance e; total ← total_assets_from e local; redeemable owner local total

  unfoldable pub deposit : ℤ → Address → Address → Address → Action X ℤ
  deposit assets receiver from operator = do
    bump_instance e
    require_not_paused
    require_auth e operator
    max_assets ← max_deposit receiver
    panic_if (ltb_ℤ max_assets assets) (token_error vault_exceeded_max_deposit)
    shares ← preview_deposit e assets
    panic_if (ltb_ℤ (pos 0) assets && eqb_ℤ shares (pos 0))
        (token_error vault_invalid_assets_amount)
    invoke (e.deposit_internal receiver assets shares from operator)
    emit (Events.deposit operator from receiver assets shares)
    pure shares

  unfoldable pub mint : ℤ → Address → Address → Address → Action X ℤ
  mint shares receiver from operator = do
    bump_instance e
    require_not_paused
    require_auth e operator
    max_shares ← max_mint receiver
    panic_if (ltb_ℤ max_shares shares) (token_error vault_exceeded_max_mint)
    assets ← preview_mint e shares
    panic_if (ltb_ℤ (pos 0) shares && eqb_ℤ assets (pos 0))
        (token_error vault_invalid_shares_amount)
    invoke (e.deposit_internal receiver assets shares from operator)
    emit (Events.deposit operator from receiver assets shares)
    pure assets

  unfoldable pub withdraw : ℤ → Address → Address → Address → Action X ℤ
  withdraw assets receiver owner operator = do
    bump_instance e
    require_not_paused
    require_auth e operator
    local ← local_balance e
    total ← total_assets_from e local
    max_assets ← withdrawable owner local total
    panic_if (ltb_ℤ max_assets assets) (token_error vault_exceeded_max_withdraw)
    shares ← convert_to_shares_with_total e assets total ceil
    panic_if (ltb_ℤ (pos 0) assets && eqb_ℤ shares (pos 0))
        (token_error vault_invalid_assets_amount)
    invoke (e.withdraw_internal receiver owner assets shares operator)
    emit (Events.withdraw operator receiver owner assets shares)
    pure shares

  unfoldable pub redeem : ℤ → Address → Address → Address → Action X ℤ
  redeem shares receiver owner operator = do
    bump_instance e
    require_not_paused
    require_auth e operator
    local ← local_balance e
    total ← total_assets_from e local
    max_shares ← redeemable owner local total
    panic_if (ltb_ℤ max_shares shares) (token_error vault_exceeded_max_redeem)
    assets ← convert_to_assets_with_total e shares total floor
    panic_if (ltb_ℤ (pos 0) shares && eqb_ℤ assets (pos 0))
        (token_error vault_invalid_shares_amount)
    invoke (e.withdraw_internal receiver owner assets shares operator)
    emit (Events.withdraw operator receiver owner assets shares)
    pure assets

-- ===== src/Vault/Interface/Transfers.antt =====
-- `deposit_to_subaccount` and `withdraw_from_subaccount` (contracts/august-vault/src/contract.rs)
-- between a vault and strategies that keep to their interface.
use stellar_upshift_vault_co.Base.{◌≡◌, refl, some}
use stellar_upshift_vault_co.Base.Int.{ℤ}
use stellar_upshift_vault_co.Soroban.{Address, ok, Ensures}
use stellar_upshift_vault_co.Soroban.{Returns}
use stellar_upshift_vault_co.Base.Int.{pos, ◌≤ℤ◌}
use stellar_upshift_vault_co.Vault.Storage.{
  get_deployed_assets, SubaccountType, strategy, wallet, get_subaccounts, get_subaccount_type,
}
use stellar_upshift_vault_co.Vault.State.{Env, World}
use stellar_upshift_vault_co.Vault.Pricing.Total.{answered}
use stellar_upshift_vault_co.Vault.Subaccounts.{deposit_to_subaccount, withdraw_from_subaccount}
use stellar_upshift_vault_co.Vault.Interface.{Token, Accounts}
use stellar_upshift_vault_co.Vault.Interface.Total.{IsSolvent, Shifted, Valued, Shifted-total}
use stellar_upshift_vault_co.Vault.Pricing.{custom_total_assets}
use stellar_upshift_vault_co.Vault.Books.{IsDistinct}
use stellar_upshift_vault_co.Soroban.{Ensures_ok}
use stellar_upshift_vault_co.Vault.Interface.Total.{total-Valued}
use stellar_upshift_vault_co.Vault.Interface.Shifts.{
  Answering, deposit_strategy-Shifted, deposit_wallet-Shifted, withdraw_strategy-Shifted,
  withdraw_wallet-Shifted,
}

module _ {X : Type 0} (e : Env X) (asset a : Address) (token : Token e asset a) (w : World X)
    (asset_eq : e.query_asset w.ext ≡ some asset) where
  -- What the vault asks of the subaccount `a`: a strategy manages its asset and keeps to the
  -- interface.
  abbrev pub Complies : SubaccountType → Type 0
  Complies strategy = Accounts e asset a × (e.strategy_asset a w.ext ≡ some asset)
  Complies wallet = Unit

  deposit_to-Shifted :
      (kind : SubaccountType) (operator : Address) (amount total : ℤ)
      → get_subaccount_type w.store a ≡ kind
      → Complies kind
      → Valued e w total
      → Ensures
          (λ _ w'. Answering e asset a token w asset_eq w' → Shifted e a w w')
          (deposit_to_subaccount e operator a amount w)
  deposit_to-Shifted strategy operator amount total kind (s, s_asset) v =
      deposit_strategy-Shifted e asset a token w asset_eq operator amount
        (answered (e.strategy_balance a w.ext)) s s_asset (λ listed. v.answers a listed kind) kind
  deposit_to-Shifted wallet operator amount total kind h v =
      deposit_wallet-Shifted e asset a token w asset_eq operator amount kind

  withdraw_from-Shifted :
      (kind : SubaccountType) (operator : Address) (amount total : ℤ)
      → get_subaccount_type w.store a ≡ kind
      → Complies kind
      → Valued e w total
      → Ensures
          (λ _ w'. Answering e asset a token w asset_eq w' → Shifted e a w w')
          (withdraw_from_subaccount e operator a amount w)
  withdraw_from-Shifted strategy operator amount total kind (s, s_asset) v =
      withdraw_strategy-Shifted e asset a token w asset_eq operator amount
        (answered (e.strategy_balance a w.ext)) s s_asset (λ listed. v.answers a listed kind) kind
  withdraw_from-Shifted wallet operator amount total kind h v =
      withdraw_wallet-Shifted e asset a token w asset_eq operator amount kind

  -- A deposit to a subaccount moves no value: the total after it is returned, and is the total
  -- before it. The whitelist has no repetition, the aggregate is not negative, the token's transfers
  -- between the vault and the subaccount concern nobody else, and the subaccount, if it is a
  -- strategy, manages the asset and keeps to the interface; after the deposit the vault holds no
  -- negative balance, and such a strategy answers with none.
  pub deposit_to-total :
      (operator : Address) (amount total : ℤ) (w' : World X)
      → Complies (get_subaccount_type w.store a)
      → IsDistinct (get_subaccounts w.store)
      → pos 0 ≤ℤ get_deployed_assets w.store
      → custom_total_assets e w ≡ ok total w
      → deposit_to_subaccount e operator a amount w ≡ ok tt w'
      → IsSolvent e asset a w'
      → Returns (λ total' _. total' ≡ total) (custom_total_assets e w')
  deposit_to-total operator amount total w' complies distinct nonneg valued moved solvent =
      let v = (Ensures_ok (λ t u. (u ≡ w) × Valued e w t) valued (total-Valued e w)).1 in
      let shifted =
        Ensures_ok (λ _ u. Answering e asset a token w asset_eq u → Shifted e a w u) moved
          (deposit_to-Shifted (get_subaccount_type w.store a) operator amount total refl complies
            v) in
      Shifted-total distinct nonneg asset_eq solvent
        (shifted (λ listed kind. (solvent.answer kind).0)) v

  -- A withdrawal from a subaccount moves no value either: the total after it is returned, and is the
  -- total before it, under the same conditions.
  pub withdraw_from-total :
      (operator : Address) (amount total : ℤ) (w' : World X)
      → Complies (get_subaccount_type w.store a)
      → IsDistinct (get_subaccounts w.store)
      → pos 0 ≤ℤ get_deployed_assets w.store
      → custom_total_assets e w ≡ ok total w
      → withdraw_from_subaccount e operator a amount w ≡ ok tt w'
      → IsSolvent e asset a w'
      → Returns (λ total' _. total' ≡ total) (custom_total_assets e w')
  withdraw_from-total operator amount total w' complies distinct nonneg valued moved solvent =
      let v = (Ensures_ok (λ t u. (u ≡ w) × Valued e w t) valued (total-Valued e w)).1 in
      let shifted =
        Ensures_ok (λ _ u. Answering e asset a token w asset_eq u → Shifted e a w u) moved
          (withdraw_from-Shifted (get_subaccount_type w.store a) operator amount total refl complies
            v) in
      Shifted-total distinct nonneg asset_eq solvent
        (shifted (λ listed kind. (solvent.answer kind).0)) v

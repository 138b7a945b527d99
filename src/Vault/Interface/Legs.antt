-- ===== src/Vault/Interface/Legs.antt =====
-- The calls that `deposit_to_subaccount` and `withdraw_from_subaccount`
-- (contracts/august-vault/src/contract.rs) make on the way, and the books they leave.
use stellar_upshift_vault_co.Base.{◌≡◌, ◌≢◌, none, some, unwrap_or, arith}
use stellar_upshift_vault_co.Base.Int.{ℤ, pos, ◌≤ℤ◌, ◌+ℤ◌, ◌-ℤ◌}
use stellar_upshift_vault_co.Soroban.{Address, value, Ensures}
use stellar_upshift_vault_co.Soroban.I128.{checked_add, checked_sub}
use stellar_upshift_vault_co.Vault.Storage.{
  strategy, wallet, get_subaccounts, get_subaccount_type, get_deployed_assets,
}
use stellar_upshift_vault_co.Vault.State.{
  Env, World, bump_instance, require_operator, require_not_paused, set_deployed_assets,
  set_wallet_net_deployed,
}
use stellar_upshift_vault_co.Vault.Pricing.Total.{answered}
use stellar_upshift_vault_co.Vault.Subaccounts.{
  find_subaccount_index, require_whitelisted, book_deposit, deposit_to_subaccount, pull,
  book_withdrawal, withdraw_from_subaccount,
}

module _ {X : Type 0} (e : Env X) (asset a : Address) where
  abbrev pub held : X → ℤ
  held x = answered (e.token_balance asset e.current_contract_address x)

  abbrev pub middle_of : World X → ℤ → X
  middle_of w amount =
      unwrap_or (e.token_transfer asset e.current_contract_address a amount w.ext) w.ext

  pub deposit_leg :
      (operator : Address) (amount : ℤ) (w : World X)
      → e.query_asset w.ext ≡ some asset
      → get_subaccount_type w.store a ≡ strategy
      → Ensures
          (λ _ w'.
            (w'.store ≡ w.store)
            × (e.token_balance asset e.current_contract_address w.ext ≡ value (held w.ext))
            × (e.token_transfer asset e.current_contract_address a amount w.ext
                ≡ some (middle_of w amount))
            × (e.token_balance asset e.current_contract_address (middle_of w amount)
                ≡ value (held (middle_of w amount)))
            × (e.strategy_deposit a e.current_contract_address
                  (held w.ext -ℤ held (middle_of w amount))
                  (middle_of w amount)
                ≡ some w'.ext)
            × (find_subaccount_index (get_subaccounts w.store) a ≢ none))
          (deposit_to_subaccount e operator a amount w)
  unfolding deposit_to_subaccount bump_instance require_operator require_not_paused
      require_whitelisted checked_sub
  deposit_leg operator amount w asset_eq kind = ground arith

  -- A deposit to a wallet.
  pub deposit_wallet_leg :
      (operator : Address) (amount : ℤ) (w : World X)
      → e.query_asset w.ext ≡ some asset
      → get_subaccount_type w.store a ≡ wallet
      → Ensures
          (λ _ w'.
            (w'.store.subaccounts ≡ w.store.subaccounts)
            × (w'.store.subaccount_types ≡ w.store.subaccount_types)
            × (get_deployed_assets w'.store
                ≡ get_deployed_assets w.store +ℤ (held w.ext -ℤ held w'.ext))
            × (pos 0 ≤ℤ get_deployed_assets w'.store)
            × (e.token_balance asset e.current_contract_address w.ext ≡ value (held w.ext))
            × (e.token_transfer asset e.current_contract_address a amount w.ext ≡ some w'.ext)
            × (e.token_balance asset e.current_contract_address w'.ext ≡ value (held w'.ext))
            × (find_subaccount_index (get_subaccounts w.store) a ≢ none))
          (deposit_to_subaccount e operator a amount w)
  unfolding deposit_to_subaccount bump_instance require_operator require_not_paused
      require_whitelisted checked_sub book_deposit checked_add set_deployed_assets
      set_wallet_net_deployed
  deposit_wallet_leg operator amount w asset_eq kind = ground arith

  pub withdraw_leg :
      (operator : Address) (amount : ℤ) (w : World X)
      → e.query_asset w.ext ≡ some asset
      → get_subaccount_type w.store a ≡ strategy
      → Ensures
          (λ _ w'.
            (w'.store ≡ w.store)
            × (e.token_balance asset e.current_contract_address w.ext ≡ value (held w.ext))
            × (e.strategy_withdraw a e.current_contract_address amount w.ext ≡ some w'.ext)
            × (e.token_balance asset e.current_contract_address w'.ext ≡ value (held w'.ext))
            × (find_subaccount_index (get_subaccounts w.store) a ≢ none))
          (withdraw_from_subaccount e operator a amount w)
  unfolding withdraw_from_subaccount pull bump_instance require_operator require_not_paused
      require_whitelisted checked_sub
  withdraw_leg operator amount w asset_eq kind = ground arith

  pub withdraw_wallet_leg :
      (operator : Address) (amount : ℤ) (w : World X)
      → e.query_asset w.ext ≡ some asset
      → get_subaccount_type w.store a ≡ wallet
      → Ensures
          (λ _ w'.
            (w'.store.subaccounts ≡ w.store.subaccounts)
            × (w'.store.subaccount_types ≡ w.store.subaccount_types)
            × (get_deployed_assets w'.store
                ≡ get_deployed_assets w.store -ℤ (held w'.ext -ℤ held w.ext))
            × (pos 0 ≤ℤ get_deployed_assets w'.store)
            × (e.token_balance asset e.current_contract_address w.ext ≡ value (held w.ext))
            × (e.token_transfer_from asset e.current_contract_address a e.current_contract_address
                  amount w.ext
                ≡ some w'.ext)
            × (e.token_balance asset e.current_contract_address w'.ext ≡ value (held w'.ext))
            × (find_subaccount_index (get_subaccounts w.store) a ≢ none))
          (withdraw_from_subaccount e operator a amount w)
  unfolding withdraw_from_subaccount pull bump_instance require_operator require_not_paused
      require_whitelisted checked_sub book_withdrawal set_deployed_assets set_wallet_net_deployed
  withdraw_wallet_leg operator amount w asset_eq kind = ground arith

-- ===== src/Vault/Interface/Shifts.antt =====
-- What `deposit_to_subaccount` and `withdraw_from_subaccount`
-- (contracts/august-vault/src/contract.rs) shift between the vault and the subaccount.
use stellar_upshift_vault_co.Base.{◌≡◌, ◌≢◌, refl, none, some}
use stellar_upshift_vault_co.Base.Int.{ℤ, pos, ◌+ℤ◌, ◌-ℤ◌, int_laws}
use stellar_upshift_vault_co.Soroban.{Address, value, Ensures, Ensures-mono}
use stellar_upshift_vault_co.Vault.Storage.{
  strategy, wallet, get_subaccounts, get_subaccount_type, get_deployed_assets,
}
use stellar_upshift_vault_co.Vault.State.{Env, World}
use stellar_upshift_vault_co.Vault.Pricing.Total.{answered}
use stellar_upshift_vault_co.Vault.Subaccounts.{
  find_subaccount_index, deposit_to_subaccount, withdraw_from_subaccount,
}
use stellar_upshift_vault_co.Vault.Interface.{Token, Accounts}
use stellar_upshift_vault_co.Vault.Interface.Total.{Shifted}
use stellar_upshift_vault_co.Vault.Interface.Legs.{
  held, middle_of, deposit_leg, deposit_wallet_leg, withdraw_leg, withdraw_wallet_leg,
}

strategy_shift : (a b r d : ℤ) → a +ℤ (r +ℤ (b -ℤ a)) +ℤ d ≡ b +ℤ r +ℤ d
strategy_shift a b r d = omega int_laws

strategy_shift_back : (a b r d : ℤ) → a +ℤ (r -ℤ (a -ℤ b)) +ℤ d ≡ b +ℤ r +ℤ d
strategy_shift_back a b r d = omega int_laws

wallet_shift : (a b r d : ℤ) → a +ℤ r +ℤ (d +ℤ (b -ℤ a)) ≡ b +ℤ r +ℤ d
wallet_shift a b r d = omega int_laws

wallet_shift_back : (a b r d : ℤ) → a +ℤ r +ℤ (d -ℤ (a -ℤ b)) ≡ b +ℤ r +ℤ d
wallet_shift_back a b r d = omega int_laws

module _ {X : Type 0} (e : Env X) (asset a : Address) (token : Token e asset a) (w : World X)
    (asset_eq : e.query_asset w.ext ≡ some asset) where
  -- The subaccount, if it is a listed strategy, answers.
  abbrev pub Answering : World X → Type 0
  Answering w' =
      find_subaccount_index (get_subaccounts w'.store) a ≢ none
      → get_subaccount_type w'.store a ≡ strategy
      → e.strategy_balance a w'.ext ≡ value (answered (e.strategy_balance a w'.ext))

  pub deposit_strategy-Shifted :
      (operator : Address) (amount balance : ℤ)
      → Accounts e asset a
      → e.strategy_asset a w.ext ≡ some asset
      → (find_subaccount_index (get_subaccounts w.store) a ≢ none
          → e.strategy_balance a w.ext ≡ value balance)
      → get_subaccount_type w.store a ≡ strategy
      → Ensures
          (λ _ w'. Answering w' → Shifted e a w w')
          (deposit_to_subaccount e operator a amount w)
  deposit_strategy-Shifted operator amount balance s s_asset answers kind =
      Ensures-mono (deposit_to_subaccount e operator a amount w)
        (deposit_leg e asset a operator amount w asset_eq kind)
        λ _ w' (store, before, moved, after, notified, listed) answering.
          let answer = answers listed in
          let held_before = held e asset a w.ext in
          let middle = middle_of e asset a w amount in
          let held_after = held e asset a middle in
          let aside_token = token.transferred amount w.ext middle moved in
          let aside = s.deposit_aside (held_before -ℤ held_after) middle w'.ext notified in
          let answer' =
            s.deposited amount held_before held_after balance
              (answered (e.strategy_balance a w'.ext)) w.ext middle w'.ext s_asset before answer
              moved after notified (answering (rw store listed) (rw store kind)) in
          record {
            listed = listed;
            subaccounts = rw store refl;
            subaccount_types = rw store refl;
            deployed_nonneg = λ h. rw store h;
            asset = asset;
            before = held_before;
            after = held_after;
            asset_eq = asset_eq;
            asset_eq' = rw (aside.asset, aside_token.asset) asset_eq;
            before_eq = before;
            after_eq =
                rw (s.deposit_notifies (held_before -ℤ held_after) middle w'.ext notified) after;
            counts =
                rw (store, kind, answer, answer')
                  (strategy_shift held_after held_before balance (get_deployed_assets w.store));
            others = λ c other. rw (aside.reports c other) (aside_token.reports c other);
          }

  pub deposit_wallet-Shifted :
      (operator : Address) (amount : ℤ)
      → get_subaccount_type w.store a ≡ wallet
      → Ensures
          (λ _ w'. Answering w' → Shifted e a w w')
          (deposit_to_subaccount e operator a amount w)
  deposit_wallet-Shifted operator amount kind =
      Ensures-mono (deposit_to_subaccount e operator a amount w)
        (deposit_wallet_leg e asset a operator amount w asset_eq kind)
        λ _ w' (subaccounts, types, deployed, nonneg, before, moved, after, listed) answering.
          let held_before = held e asset a w.ext in
          let held_after = held e asset a w'.ext in
          let aside = token.transferred amount w.ext w'.ext moved in
          record {
            listed = listed;
            subaccounts = subaccounts;
            subaccount_types = types;
            deployed_nonneg = λ h. nonneg;
            asset = asset;
            before = held_before;
            after = held_after;
            asset_eq = asset_eq;
            asset_eq' = rw aside.asset asset_eq;
            before_eq = before;
            after_eq = after;
            counts =
                rw (types, kind, deployed)
                  (wallet_shift held_after held_before (pos 0) (get_deployed_assets w.store));
            others = aside.reports;
          }

  pub withdraw_strategy-Shifted :
      (operator : Address) (amount balance : ℤ)
      → Accounts e asset a
      → e.strategy_asset a w.ext ≡ some asset
      → (find_subaccount_index (get_subaccounts w.store) a ≢ none
          → e.strategy_balance a w.ext ≡ value balance)
      → get_subaccount_type w.store a ≡ strategy
      → Ensures
          (λ _ w'. Answering w' → Shifted e a w w')
          (withdraw_from_subaccount e operator a amount w)
  withdraw_strategy-Shifted operator amount balance s s_asset answers kind =
      Ensures-mono (withdraw_from_subaccount e operator a amount w)
        (withdraw_leg e asset a operator amount w asset_eq kind)
        λ _ w' (store, before, paid, after, listed) answering.
          let answer = answers listed in
          let held_before = held e asset a w.ext in
          let held_after = held e asset a w'.ext in
          let aside = s.withdraw_aside amount w.ext w'.ext s_asset paid in
          let answer' =
            s.withdrawn amount held_before held_after balance
              (answered (e.strategy_balance a w'.ext)) w.ext w'.ext s_asset before answer paid after
              (answering (rw store listed) (rw store kind)) in
          record {
            listed = listed;
            subaccounts = rw store refl;
            subaccount_types = rw store refl;
            deployed_nonneg = λ h. rw store h;
            asset = asset;
            before = held_before;
            after = held_after;
            asset_eq = asset_eq;
            asset_eq' = rw aside.asset asset_eq;
            before_eq = before;
            after_eq = after;
            counts =
                rw (store, kind, answer, answer')
                  (strategy_shift_back held_after held_before balance
                    (get_deployed_assets w.store));
            others = aside.reports;
          }

  pub withdraw_wallet-Shifted :
      (operator : Address) (amount : ℤ)
      → get_subaccount_type w.store a ≡ wallet
      → Ensures
          (λ _ w'. Answering w' → Shifted e a w w')
          (withdraw_from_subaccount e operator a amount w)
  withdraw_wallet-Shifted operator amount kind =
      Ensures-mono (withdraw_from_subaccount e operator a amount w)
        (withdraw_wallet_leg e asset a operator amount w asset_eq kind)
        λ _ w' (subaccounts, types, deployed, nonneg, before, moved, after, listed) answering.
          let held_before = held e asset a w.ext in
          let held_after = held e asset a w'.ext in
          let aside = token.transferred_from amount w.ext w'.ext moved in
          record {
            listed = listed;
            subaccounts = subaccounts;
            subaccount_types = types;
            deployed_nonneg = λ h. nonneg;
            asset = asset;
            before = held_before;
            after = held_after;
            asset_eq = asset_eq;
            asset_eq' = rw aside.asset asset_eq;
            before_eq = before;
            after_eq = after;
            counts =
                rw (types, kind, deployed)
                  (wallet_shift_back held_after held_before (pos 0) (get_deployed_assets w.store));
            others = aside.reports;
          }

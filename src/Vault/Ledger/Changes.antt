-- ===== src/Vault/Ledger/Changes.antt =====
-- What the requests of contracts/august-vault/src/contract.rs write to the whitelist, the types and
-- the trackers, leaving `deployed_assets` and the settings aside.
use stellar_upshift_vault_co.Base.{
  ◌≡◌, ◌≢◌, ◌≤◌, ◌⊎◌, refl, none, some, [], ◌∷◌, ◌++◌, length, arith,
}
use stellar_upshift_vault_co.Base.Int.{ℤ, pos, ◌≤ℤ◌, ◌<ℤ◌, ◌+ℤ◌, ◌-ℤ◌, +ℤ_parts, -ℤ_parts}
use stellar_upshift_vault_co.Soroban.{Address, Ensures, Ensures-mono}
use stellar_upshift_vault_co.Soroban.I128.{checked_add, checked_sub}
use stellar_upshift_vault_co.Vault.Storage.{
  Storage, SubaccountType, strategy, wallet, max_subaccounts, get_subaccounts, get_subaccount_type,
  get_wallet_net_deployed, with_entry,
}
use stellar_upshift_vault_co.Vault.State.{
  Env, World, set_deployed_assets, set_subaccounts, set_wallet_net_deployed, bump_instance,
  require_admin, require_operator, require_not_paused,
}
use stellar_upshift_vault_co.Vault.Limits.Effect.{apply-Applied}
use stellar_upshift_vault_co.Vault.Subaccounts.{
  find_subaccount_index, require_whitelisted, add_subaccount, book_deposit, deposit_to_subaccount,
  pull, book_withdrawal, withdraw_from_subaccount,
}
use stellar_upshift_vault_co.Vault.Wallets.{
  require_wallet, seed_wallet_net_deployed, update_wallet_deployed,
}
use stellar_upshift_vault_co.Vault.Ledger.{Rise, Fall}
use stellar_upshift_vault_co.Vault.Frame.Settings.{smoke_test-store}

-- Whitelist, types and trackers stay.
pub record Untouched (s s' : Storage) : Type 0 where
  pub subaccounts : s'.subaccounts ≡ s.subaccounts
  pub subaccount_types : s'.subaccount_types ≡ s.subaccount_types
  pub wallet_net_deployed : s'.wallet_net_deployed ≡ s.wallet_net_deployed

-- The tracker of the wallet `k` becomes `v`.
pub record Wrote (k : Address) (v : ℤ) (s s' : Storage) : Type 0 where
  pub listed : find_subaccount_index (get_subaccounts s) k ≢ none
  pub kind : get_subaccount_type s k ≡ wallet
  pub nonneg : pos 0 ≤ℤ v
  pub subaccounts : s'.subaccounts ≡ s.subaccounts
  pub subaccount_types : s'.subaccount_types ≡ s.subaccount_types
  pub wallet_net_deployed : s'.wallet_net_deployed ≡ with_entry s.wallet_net_deployed k v

-- `k` enters the whitelist, which stays within its bound.
pub record Entered (k : Address) (kind : SubaccountType) (s s' : Storage) : Type 0 where
  pub unlisted : find_subaccount_index (get_subaccounts s) k ≡ none
  pub few : length (get_subaccounts s ++ k ∷ []) ≤ max_subaccounts
  pub subaccounts : s'.subaccounts ≡ some (get_subaccounts s ++ k ∷ [])
  pub subaccount_types : s'.subaccount_types ≡ with_entry s.subaccount_types k kind
  pub wallet_net_deployed : s'.wallet_net_deployed ≡ s.wallet_net_deployed

-- The tracker of a wallet goes from its value to a `new` that is in the relation `R` to it.
pub record Moved (R : ℤ → ℤ → Type 0) (k : Address) (s s' : Storage) : Type 0 where
  pub new : ℤ
  pub related : R (get_wallet_net_deployed s k) new
  pub wrote : Wrote k new s s'

-- Nothing is written for a listed strategy.
pub record Passed (k : Address) (s s' : Storage) : Type 0 where
  pub listed : find_subaccount_index (get_subaccounts s) k ≢ none
  pub kind : get_subaccount_type s k ≡ strategy
  pub untouched : Untouched s s'

module _ {X : Type 0} (e : Env X) where
  abbrev bumped : World X → World X
  bumped w = record w { ttl = e.extend_ttl e.instance_ttl_threshold e.instance_extend_amount w.ttl }

  pub add-Entered :
      (admin k : Address) (kind : SubaccountType) (w : World X)
      → Ensures (λ _ w'. Entered k kind w.store w'.store) (add_subaccount e admin k kind w)
  unfolding add_subaccount bump_instance require_admin require_not_paused set_subaccounts
  add-Entered admin k kind w = ground (arith, smoke_test-store e k (bumped w))

  pub seed-Wrote :
      (admin k : Address) (v : ℤ) (w : World X)
      → Ensures
          (λ _ w'. (get_wallet_net_deployed w.store k ≤ℤ v) × Wrote k v w.store w'.store)
          (seed_wallet_net_deployed e admin k v w)
  unfolding seed_wallet_net_deployed bump_instance require_admin require_wallet require_whitelisted
      set_wallet_net_deployed
  seed-Wrote admin k v w = ground arith

  pub update-Wrote :
      (operator k : Address) (v : ℤ) (w : World X)
      → Ensures (λ _ w'. Wrote k v w.store w'.store) (update_wallet_deployed e operator k v w)
  unfolding update_wallet_deployed bump_instance require_operator require_wallet require_whitelisted
      set_wallet_net_deployed
  update-Wrote operator k v w = grind (arith, apply-Applied)

  book_deposit-Wrote :
      (k : Address) (r : ℤ) (w : World X)
      → find_subaccount_index (get_subaccounts w.store) k ≢ none
      → get_subaccount_type w.store k ≡ wallet
      → Ensures
          (λ _ w'. Wrote k (get_wallet_net_deployed w.store k +ℤ r) w.store w'.store)
          (book_deposit e k r w)
  unfolding book_deposit set_deployed_assets set_wallet_net_deployed checked_add
  book_deposit-Wrote k r w listed kind = ground arith

  book_deposit-Moved :
      (k : Address) (r : ℤ) (w : World X)
      → pos 0 <ℤ r
      → find_subaccount_index (get_subaccounts w.store) k ≢ none
      → get_subaccount_type w.store k ≡ wallet
      → Ensures (λ _ w'. Moved Rise k w.store w'.store) (book_deposit e k r w)
  book_deposit-Moved k r w positive listed kind =
      Ensures-mono (book_deposit e k r w) (book_deposit-Wrote k r w listed kind) λ _ w' h. record {
        new = get_wallet_net_deployed w.store k +ℤ r;
        related = ground (arith, +ℤ_parts (get_wallet_net_deployed w.store k) r);
        wrote = h;
      }

  book_withdrawal-Wrote :
      (k : Address) (r : ℤ) (w : World X)
      → find_subaccount_index (get_subaccounts w.store) k ≢ none
      → get_subaccount_type w.store k ≡ wallet
      → Ensures
          (λ _ w'. Wrote k (get_wallet_net_deployed w.store k -ℤ r) w.store w'.store)
          (book_withdrawal e k r w)
  unfolding book_withdrawal set_deployed_assets set_wallet_net_deployed checked_sub
  book_withdrawal-Wrote k r w listed kind = ground arith

  book_withdrawal-Moved :
      (k : Address) (r : ℤ) (w : World X)
      → pos 0 <ℤ r
      → find_subaccount_index (get_subaccounts w.store) k ≢ none
      → get_subaccount_type w.store k ≡ wallet
      → Ensures (λ _ w'. Moved Fall k w.store w'.store) (book_withdrawal e k r w)
  book_withdrawal-Moved k r w positive listed kind =
      Ensures-mono (book_withdrawal e k r w) (book_withdrawal-Wrote k r w listed kind) λ _ w' h.
        record {
          new = get_wallet_net_deployed w.store k -ℤ r;
          related = (h.nonneg, ground (arith, -ℤ_parts (get_wallet_net_deployed w.store k) r));
          wrote = h;
        }

  pub deposit_to-Changed :
      (operator k : Address) (amount : ℤ) (w : World X)
      → Ensures
          (λ _ w'. Passed k w.store w'.store ⊎ Moved Rise k w.store w'.store)
          (deposit_to_subaccount e operator k amount w)
  unfolding deposit_to_subaccount bump_instance require_operator require_not_paused
      require_whitelisted
  deposit_to-Changed operator k amount w = grind (arith, book_deposit-Moved)

  pull-store :
      (asset k : Address) (amount : ℤ) (kind : SubaccountType) (w : World X)
      → Ensures (λ _ w'. w'.store ≡ w.store) (pull e asset k amount kind w)
  unfolding pull
  pull-store asset k amount kind w = ground arith

  withdraw_from_kind :
      (kind : SubaccountType) (operator k : Address) (amount : ℤ) (w : World X)
      → get_subaccount_type w.store k ≡ kind
      → Ensures
          (λ _ w'. Passed k w.store w'.store ⊎ Moved Fall k w.store w'.store)
          (withdraw_from_subaccount e operator k amount w)
  unfolding withdraw_from_subaccount bump_instance require_operator require_not_paused
      require_whitelisted
  withdraw_from_kind strategy operator k amount w kind_eq = grind (arith, pull-store)
  withdraw_from_kind wallet operator k amount w kind_eq =
      grind (arith, pull-store, book_withdrawal-Moved)

  pub withdraw_from-Changed :
      (operator k : Address) (amount : ℤ) (w : World X)
      → Ensures
          (λ _ w'. Passed k w.store w'.store ⊎ Moved Fall k w.store w'.store)
          (withdraw_from_subaccount e operator k amount w)
  withdraw_from-Changed operator k amount w =
      withdraw_from_kind (get_subaccount_type w.store k) operator k amount w refl

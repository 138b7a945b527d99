-- ===== src/Vault/Books/Transfers.antt =====
-- The transfers to and from subaccounts (contracts/august-vault/src/contract.rs) as moves of the
-- books.
use stellar_upshift_vault_co.Base.{◌≡◌, ◌≢◌, none, arith}
use stellar_upshift_vault_co.Base.Int.{ℤ, ◌+ℤ◌, ◌-ℤ◌, int_laws}
use stellar_upshift_vault_co.Soroban.{Address, Ensures, Ensures-mono}
use stellar_upshift_vault_co.Soroban.I128.{checked_add, checked_sub}
use stellar_upshift_vault_co.Vault.Storage.{
  Storage, get_subaccounts, get_subaccount_type, get_deployed_assets, get_wallet_net_deployed,
  with_entry, wallet,
}
use stellar_upshift_vault_co.Vault.State.{
  Env, World, set_deployed_assets, set_wallet_net_deployed, bump_instance, require_operator,
  require_not_paused,
}
use stellar_upshift_vault_co.Vault.Subaccounts.{
  find_subaccount_index, require_whitelisted, book_deposit, deposit_to_subaccount, pull,
  book_withdrawal, withdraw_from_subaccount,
}
use stellar_upshift_vault_co.Vault.Books.{Move, keep, book}

-- The tracker of `a` becomes `v`, and the aggregate moves by the same amount.
pub record Booked (a : Address) (v : ℤ) (s s' : Storage) : Type 0 where
  pub subaccounts : s'.subaccounts ≡ s.subaccounts
  pub subaccount_types : s'.subaccount_types ≡ s.subaccount_types
  pub wallet_net_deployed : s'.wallet_net_deployed ≡ with_entry s.wallet_net_deployed a v
  pub in_step : get_deployed_assets s' +ℤ get_wallet_net_deployed s a ≡ get_deployed_assets s +ℤ v

pub Booked-Move :
    {a : Address} {v : ℤ} {s s' : Storage}
    → find_subaccount_index (get_subaccounts s) a ≢ none
    → get_subaccount_type s a ≡ wallet
    → Booked a v s s'
    → Move s s'
Booked-Move {a} {v} listed kind b =
    book a v listed kind b.subaccounts b.subaccount_types b.wallet_net_deployed b.in_step

deposit_shift : (d r t : ℤ) → d +ℤ r +ℤ t ≡ d +ℤ (t +ℤ r)
deposit_shift d r t = omega int_laws

withdrawal_shift : (d r t : ℤ) → d -ℤ r +ℤ t ≡ d +ℤ (t -ℤ r)
withdrawal_shift d r t = omega int_laws

module _ {X : Type 0} (e : Env X) where
  book_deposit-Booked :
      (a : Address) (r : ℤ) (w : World X)
      → Ensures
          (λ _ w'. Booked a (get_wallet_net_deployed w.store a +ℤ r) w.store w'.store)
          (book_deposit e a r w)
  unfolding book_deposit set_deployed_assets set_wallet_net_deployed checked_add
  book_deposit-Booked a r w =
      ground
        (arith, deposit_shift (get_deployed_assets w.store) r (get_wallet_net_deployed w.store a))

  book_deposit-Move :
      (a : Address) (r : ℤ) (w : World X)
      → find_subaccount_index (get_subaccounts w.store) a ≢ none
      → get_subaccount_type w.store a ≡ wallet
      → Ensures (λ _ w'. Move w.store w'.store) (book_deposit e a r w)
  book_deposit-Move a r w listed kind =
      Ensures-mono (book_deposit e a r w) (book_deposit-Booked a r w)
        (λ _ w'. Booked-Move listed kind)

  book_withdrawal-Booked :
      (a : Address) (r : ℤ) (w : World X)
      → Ensures
          (λ _ w'. Booked a (get_wallet_net_deployed w.store a -ℤ r) w.store w'.store)
          (book_withdrawal e a r w)
  unfolding book_withdrawal set_deployed_assets set_wallet_net_deployed checked_sub
  book_withdrawal-Booked a r w =
      ground (
        arith,
        withdrawal_shift (get_deployed_assets w.store) r (get_wallet_net_deployed w.store a),
      )

  book_withdrawal-Move :
      (a : Address) (r : ℤ) (w : World X)
      → find_subaccount_index (get_subaccounts w.store) a ≢ none
      → get_subaccount_type w.store a ≡ wallet
      → Ensures (λ _ w'. Move w.store w'.store) (book_withdrawal e a r w)
  book_withdrawal-Move a r w listed kind =
      Ensures-mono (book_withdrawal e a r w) (book_withdrawal-Booked a r w)
        (λ _ w'. Booked-Move listed kind)

  pub deposit_to-Move :
      (operator a : Address) (amount : ℤ) (w : World X)
      → Ensures (λ _ w'. Move w.store w'.store) (deposit_to_subaccount e operator a amount w)
  unfolding deposit_to_subaccount bump_instance require_operator require_not_paused
      require_whitelisted
  deposit_to-Move operator a amount w = grind (arith, book_deposit-Move, keep)

  pub withdraw_from-Move :
      (operator a : Address) (amount : ℤ) (w : World X)
      → Ensures (λ _ w'. Move w.store w'.store) (withdraw_from_subaccount e operator a amount w)
  unfolding withdraw_from_subaccount bump_instance require_operator require_not_paused
      require_whitelisted pull
  withdraw_from-Move operator a amount w = grind (arith, book_withdrawal-Move, keep)

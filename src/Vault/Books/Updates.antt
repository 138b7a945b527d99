-- ===== src/Vault/Books/Updates.antt =====
-- The reconciliations of wallets (contracts/august-vault/src/contract.rs) as moves of the books.
use stellar_upshift_vault_co.Base.{◌≡◌, ◌≢◌, none, arith}
use stellar_upshift_vault_co.Base.Int.{ℤ, ◌+ℤ◌, ◌-ℤ◌, int_laws}
use stellar_upshift_vault_co.Soroban.{Address, Ensures, Ensures-mono}
use stellar_upshift_vault_co.Soroban.I128.{checked_add, checked_sub}
use stellar_upshift_vault_co.Vault.Storage.{
  Storage, get_subaccounts, get_subaccount_type, get_deployed_assets, get_wallet_net_deployed,
  wallet,
}
use stellar_upshift_vault_co.Vault.State.{
  Env, World, set_wallet_net_deployed, bump_instance, require_operator,
}
use stellar_upshift_vault_co.Vault.Limits.Effect.{apply-Applied}
use stellar_upshift_vault_co.Vault.Subaccounts.{find_subaccount_index, require_whitelisted}
use stellar_upshift_vault_co.Vault.Wallets.{require_wallet, update_wallet_deployed}
use stellar_upshift_vault_co.Vault.Books.Transfers.{Booked, Booked-Move}
use stellar_upshift_vault_co.Vault.Books.{Move}

update_shift : (d v t : ℤ) → d +ℤ (v -ℤ t) +ℤ t ≡ d +ℤ v
update_shift d v t = omega int_laws

module _ {X : Type 0} (e : Env X) where
  abbrev bumped : World X → World X
  bumped w = record w { ttl = e.extend_ttl e.instance_ttl_threshold e.instance_extend_amount w.ttl }

  record Updated (a : Address) (v : ℤ) (s s' : Storage) : Type 0 where
    listed : find_subaccount_index (get_subaccounts s) a ≢ none
    kind : get_subaccount_type s a ≡ wallet
    booked : Booked a v s s'

  update_wallet-Updated :
      (operator a : Address) (v : ℤ) (w : World X)
      → Ensures (λ _ w'. Updated a v w.store w'.store) (update_wallet_deployed e operator a v w)
  unfolding update_wallet_deployed bump_instance require_operator require_wallet require_whitelisted
      set_wallet_net_deployed checked_sub checked_add
  update_wallet-Updated operator a v w = ground (
    arith,
    apply-Applied e operator (get_deployed_assets w.store)
        (get_deployed_assets w.store +ℤ (v -ℤ get_wallet_net_deployed w.store a)) (bumped w),
    update_shift (get_deployed_assets w.store) v (get_wallet_net_deployed w.store a),
  )

  pub update_wallet-Move :
      (operator a : Address) (v : ℤ) (w : World X)
      → Ensures (λ _ w'. Move w.store w'.store) (update_wallet_deployed e operator a v w)
  update_wallet-Move operator a v w =
      Ensures-mono (update_wallet_deployed e operator a v w) (update_wallet-Updated operator a v w)
        λ _ w' u. Booked-Move u.listed u.kind u.booked

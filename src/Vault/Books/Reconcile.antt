-- ===== src/Vault/Books/Reconcile.antt =====
-- When `remove_wallet_and_reconcile` (contracts/august-vault/src/contract.rs) keeps the books
-- balanced.
use stellar_upshift_vault_co.Base.{◌≡◌, refl, some, arith, ◌∙◌, sym}
use mathlib.Core.Logic.{◌↔◌}
use stellar_upshift_vault_co.Base.Int.{ℤ, ◌+ℤ◌, ◌-ℤ◌, int_laws}
use stellar_upshift_vault_co.Soroban.{Address, ok, Ensures_ok}
use stellar_upshift_vault_co.Vault.Storage.{
  Storage, wallet, get_subaccount_type, get_deployed_assets, get_wallet_net_deployed,
}
use stellar_upshift_vault_co.Vault.State.{Env, World}
use stellar_upshift_vault_co.Vault.Wallets.{remove_wallet_and_reconcile}
use stellar_upshift_vault_co.Vault.Books.{IsBalanced, contribution}
use stellar_upshift_vault_co.Vault.Books.Moves.{Move-IsBalanced}
use stellar_upshift_vault_co.Vault.Books.Whitelist.{Delisted, Delisted-Move, reconcile-Delisted}

shift : (d t : ℤ) → d -ℤ t +ℤ t ≡ d
shift d t = omega int_laws

-- The aggregate that a removal leaves is determined by balance.
Delisted-total :
    {a : Address} {total : ℤ} {s s' : Storage}
    → Delisted a (some total) s s'
    → IsBalanced s
    → IsBalanced s'
    → total +ℤ contribution s a ≡ get_deployed_assets s
Delisted-total {a} {total} {s} {s'} l b b' =
    let d = get_deployed_assets s in
    let c = contribution s a in
    let exact = record s' { deployed_assets = some (d -ℤ c) } in
    let m =
      Delisted-Move {a = a} {d = some (d -ℤ c)} {s = s} {s' = exact}
        (record {
          index = l.index;
          found = l.found;
          subaccounts = l.subaccounts;
          subaccount_types = l.subaccount_types;
          wallet_net_deployed = l.wallet_net_deployed;
          deployed_assets = refl;
        })
        (shift d c) in
    let same : get_deployed_assets s' ≡ d -ℤ c = sym b'.balanced ∙ (Move-IsBalanced m b).balanced in
    ground (arith, same, l.deployed_assets, shift d c)

-- From balanced books, a `remove_wallet_and_reconcile` that returns leaves the books balanced if
-- and only if the new total is the old aggregate less the wallet's tracker.
pub reconcile-balance :
    {X : Type 0} (e : Env X) (admin operator a : Address) (total : ℤ) (w w' : World X)
    → IsBalanced w.store
    → remove_wallet_and_reconcile e admin operator a total w ≡ ok tt w'
    → IsBalanced w'.store
      ↔ (total +ℤ get_wallet_net_deployed w.store a ≡ get_deployed_assets w.store)
reconcile-balance e admin operator a total w w' b returned =
    let r =
      Ensures_ok
        (λ _ w'.
          (get_subaccount_type w.store a ≡ wallet) × Delisted a (some total) w.store w'.store)
        returned (reconcile-Delisted e admin operator a total w) in
    (
      λ b'. ground (arith, r.0, Delisted-total r.1 b b'),
      λ exact. Move-IsBalanced (Delisted-Move r.1 (rw r.0 exact)) b,
    )

-- ===== src/Vault/Books/Query.antt =====
-- `get_wallet_deployed_assets` (contracts/august-vault/src/contract.rs) against the books.
use stellar_upshift_vault_co.Base.{◌≡◌, refl, true, some, List, [], ◌∷◌, arith}
use stellar_upshift_vault_co.Base.Int.{+ℤ_assoc, zero_+ℤ, ℤ, pos, ◌≤ℤ◌, ◌+ℤ◌, int_laws, +ℤ_parts}
use stellar_upshift_vault_co.Soroban.{Address, Returns}
use stellar_upshift_vault_co.Soroban.I128.{checked_add, fits, i128_max, i128_min}
use stellar_upshift_vault_co.Vault.Storage.{
  get_subaccounts, get_deployed_assets, get_wallet_net_deployed,
}
use stellar_upshift_vault_co.Vault.State.{World}
use stellar_upshift_vault_co.Vault.Wallets.{add_wallet_trackers, get_wallet_deployed_assets}
use stellar_upshift_vault_co.Vault.Books.{sum, contribution, IsBalanced}

fits_below : (a b : ℤ) → pos 0 ≤ℤ a → a ≤ℤ b → b ≤ℤ i128_max → fits a ≡ true
unfolding fits i128_min
fits_below a b h k l = ground arith

module _ {X : Type 0} (w : World X)
    (nonneg : (a : Address) → pos 0 ≤ℤ get_wallet_net_deployed w.store a) where
  sum_nonneg : (subs : List Address) → pos 0 ≤ℤ sum (contribution w.store) subs
  unfolding sum
  sum_nonneg [] = omega arith
  sum_nonneg (sub ∷ subs) = ground (
    arith,
    nonneg sub,
    sum_nonneg subs,
    +ℤ_parts (contribution w.store sub) (sum (contribution w.store) subs),
  )

  checked_in_range :
      (total t rest : ℤ)
      → pos 0 ≤ℤ total
      → pos 0 ≤ℤ t
      → pos 0 ≤ℤ rest
      → total +ℤ (t +ℤ rest) ≤ℤ i128_max
      → checked_add total t ≡ some (total +ℤ t)
  unfolding checked_add
  checked_in_range total t rest h k l m =
      rw
        (fits_below (total +ℤ t) (total +ℤ (t +ℤ rest)) (ground (arith, +ℤ_parts total t))
          (ground (arith, +ℤ_parts total t, +ℤ_parts total (t +ℤ rest), +ℤ_parts t rest)) m)
        refl

  add_trackers-Returns :
      (subs : List Address) (total : ℤ)
      → pos 0 ≤ℤ total
      → total +ℤ sum (contribution w.store) subs ≤ℤ i128_max
      → Returns
          (λ r w'. (r ≡ total +ℤ sum (contribution w.store) subs) × (w' ≡ w))
          (add_wallet_trackers subs total w)
  unfolding add_wallet_trackers sum
  add_trackers-Returns [] total h k = (omega int_laws, refl)
  add_trackers-Returns (sub ∷ subs) total h k =
      let t = get_wallet_net_deployed w.store sub in
      let rest = sum (contribution w.store) subs in
      ground (
        arith,
        nonneg sub,
        sum_nonneg subs,
        checked_in_range total t rest h (nonneg sub) (sum_nonneg subs),
        +ℤ_assoc total t rest,
        zero_+ℤ rest,
        +ℤ_parts total t,
        add_trackers-Returns subs total,
        add_trackers-Returns subs (total +ℤ t),
      )

-- While the books are balanced, no tracker is negative and the aggregate is in the range of `i128`,
-- `get_wallet_deployed_assets` returns exactly the aggregate.
pub query-Returns :
    {X : Type 0} (w : World X)
    → IsBalanced w.store
    → ((a : Address) → pos 0 ≤ℤ get_wallet_net_deployed w.store a)
    → get_deployed_assets w.store ≤ℤ i128_max
    → Returns (λ r w'. (r ≡ get_deployed_assets w.store) × (w' ≡ w)) (get_wallet_deployed_assets w)
unfolding get_wallet_deployed_assets
query-Returns w b nonneg range =
    let total = b.balanced in
    ground (
      arith,
      total,
      zero_+ℤ (sum (contribution w.store) (get_subaccounts w.store)),
      add_trackers-Returns w nonneg (get_subaccounts w.store) (pos 0),
    )

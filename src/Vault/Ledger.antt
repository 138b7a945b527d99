-- ===== src/Vault/Ledger.antt =====
-- The abstract ledger of subaccounts: what the whitelist, the types and the trackers of
-- contracts/august-vault/src/contract.rs stand for, and what each request does to it.
pub mod Changes
pub mod Listed
pub mod Refines
pub mod Requests
use stellar_upshift_vault_co.Base.{
  ◌≡◌, ◌⊎◌, Bool, true, false, Option, none, some, List, [], ◌∷◌, ◌==◌, is_some, if◌then◌else◌,
}
use stellar_upshift_vault_co.Base.Int.{ℤ, pos, ◌≤ℤ◌, ◌<ℤ◌}
use stellar_upshift_vault_co.Soroban.{Address}
use stellar_upshift_vault_co.Vault.Storage.{
  Storage, SubaccountType, strategy, wallet, get_subaccounts, get_subaccount_type,
  get_wallet_net_deployed,
}
use stellar_upshift_vault_co.Vault.Subaccounts.{find_subaccount_index}
use stellar_upshift_vault_co.Vault.Batch.{Updates}
use stellar_upshift_vault_co.Vault.Entry.{Request}

-- What the vault holds at a subaccount: a strategy reports for itself, a wallet has a tracker.
pub data Holding : Type 0 where
  by_strategy : Holding
  by_wallet : ℤ → Holding

abbrev pub Ledger : Type 0
Ledger = Address → Option Holding

abbrev pub holding : SubaccountType → ℤ → Holding
holding strategy tracked = by_strategy
holding wallet tracked = by_wallet tracked

-- The ledger of a storage. It forgets the order of the whitelist and what stands off it.
abbrev pub ledger : Storage → Ledger
ledger s a =
    if is_some (find_subaccount_index (get_subaccounts s) a)
    then some (holding (get_subaccount_type s a) (get_wallet_net_deployed s a))
    else none

abbrev pub put : Address → Holding → Ledger → Ledger
put k h l a = if a == k then some h else l a

abbrev pub drop : Address → Ledger → Ledger
drop k l a = if a == k then none else l a

abbrev pub put_all : Updates → Ledger → Ledger
put_all [] l = l
put_all ((k, v) ∷ updates) l = put_all updates (put k (by_wallet v) l)

abbrev pub Same : Ledger → Ledger → Type 0
Same l l' = (a : Address) → l' a ≡ l a

-- The tracker of `k` goes from some `old` to some `new` that are in the relation `R`.
abbrev pub Tracks : (ℤ → ℤ → Type 0) → Address → Ledger → Ledger → Type 0
Tracks R k l l' =
    (old : ℤ) × (new : ℤ) × (l k ≡ some (by_wallet old))
    × R old new
    × Same (put k (by_wallet new) l) l'

abbrev pub AllTracked : Ledger → Updates → Type 0
AllTracked l [] = Unit
AllTracked l ((k, v) ∷ updates) =
    ((old : ℤ) × (l k ≡ some (by_wallet old))) × (pos 0 ≤ℤ v) × AllTracked l updates

-- The two ways in which a transfer moves a tracker.
abbrev pub Rise : ℤ → ℤ → Type 0
Rise old new = old <ℤ new

abbrev pub Fall : ℤ → ℤ → Type 0
Fall old new = (pos 0 ≤ℤ new) × (new <ℤ old)

-- What a request that returns does to the ledger.
abbrev pub Spec : Request → Ledger → Ledger → Type 0
Spec (Request.add_subaccount _ k kind) l l' =
    (l k ≡ none) × Same (put k (holding kind (pos 0)) l) l'
Spec (Request.remove_subaccount _ k) l l' =
    ((l k ≡ some by_strategy) ⊎ (l k ≡ some (by_wallet (pos 0)))) × Same (drop k l) l'
Spec (Request.remove_wallet_and_reconcile _ _ k _) l l' =
    ((old : ℤ) × (l k ≡ some (by_wallet old))) × Same (drop k l) l'
Spec (Request.deposit_to_subaccount _ k _) l l' =
    ((l k ≡ some by_strategy) × Same l l') ⊎ Tracks Rise k l l'
Spec (Request.withdraw_from_subaccount _ k _) l l' =
    ((l k ≡ some by_strategy) × Same l l') ⊎ Tracks Fall k l l'
Spec (Request.seed_wallet_net_deployed _ k v) l l' =
    Tracks (λ old new. (new ≡ v) × (old ≤ℤ new)) k l l'
Spec (Request.update_wallet_deployed _ k v) l l' =
    Tracks (λ old new. (new ≡ v) × (pos 0 ≤ℤ new)) k l l'
Spec (Request.update_wallet_deployed_batch _ updates) l l' =
    AllTracked l updates × Same (put_all updates l) l'
Spec _ l l' = Same l l'

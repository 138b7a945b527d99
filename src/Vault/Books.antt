-- ===== src/Vault/Books.antt =====
-- The books of the vault: what the doc comment of `custom_total_assets`
-- (contracts/august-vault/src/contract.rs) calls the invariant
-- Σ WalletNetDeployed[w] == deployed_assets, stated over the storage and its changes.
pub mod Sums
pub mod Moves
pub mod Transfers
pub mod Whitelist
pub mod Updates
pub mod Batches
pub mod Query
pub mod Single
pub mod Reconcile
pub mod Invariant
use stellar_upshift_vault_co.Base.{
  ℕ, ◌≡◌, ◌≢◌, Bool, true, Option, none, some, List, [], ◌∷◌, ◌++◌, if◌then◌else◌,
}
use stellar_upshift_vault_co.Base.Int.{ℤ, pos, ◌+ℤ◌}
use stellar_upshift_vault_co.Soroban.{Address}
use stellar_upshift_vault_co.Vault.Storage.{
  Storage, SubaccountType, wallet, is_wallet, get_subaccounts, get_subaccount_type,
  get_wallet_net_deployed, get_deployed_assets, with_entry, without_entry,
}
use stellar_upshift_vault_co.Vault.Subaccounts.{find_subaccount_index, subaccounts_without_index}

-- No address stands twice in a whitelist.
abbrev pub IsDistinct : List Address → Type 0
IsDistinct [] = Unit
IsDistinct (sub ∷ subs) = (find_subaccount_index subs sub ≡ none) × IsDistinct subs

-- The sum of a value over a whitelist.
unfoldable pub sum : (Address → ℤ) → List Address → ℤ
sum c [] = pos 0
sum c (sub ∷ subs) = c sub +ℤ sum c subs

-- What a subaccount adds to Σ WalletNetDeployed: the tracker of a wallet.
abbrev pub contribution : Storage → Address → ℤ
contribution s a =
    if is_wallet (get_subaccount_type s a) then get_wallet_net_deployed s a else pos 0

-- The wallet trackers add up to the aggregate, and no address off the whitelist has a tracker.
pub record IsBalanced (s : Storage) : Type 0 where
  pub distinct : IsDistinct (get_subaccounts s)
  pub fresh :
      (a : Address)
      → find_subaccount_index (get_subaccounts s) a ≡ none
      → get_wallet_net_deployed s a ≡ pos 0
  pub balanced : sum (contribution s) (get_subaccounts s) ≡ get_deployed_assets s

-- The changes of the books that keep them balanced.
pub data Move (s s' : Storage) : Type 0 where
  -- Nothing in the books changes.
  keep :
      s'.subaccounts ≡ s.subaccounts
      → s'.subaccount_types ≡ s.subaccount_types
      → s'.wallet_net_deployed ≡ s.wallet_net_deployed
      → s'.deployed_assets ≡ s.deployed_assets
      → Move s s'
  -- The tracker of a whitelisted wallet and the aggregate move by the same amount.
  book :
      (a : Address) (v : ℤ)
      → find_subaccount_index (get_subaccounts s) a ≢ none
      → get_subaccount_type s a ≡ wallet
      → s'.subaccounts ≡ s.subaccounts
      → s'.subaccount_types ≡ s.subaccount_types
      → s'.wallet_net_deployed ≡ with_entry s.wallet_net_deployed a v
      → get_deployed_assets s' +ℤ get_wallet_net_deployed s a ≡ get_deployed_assets s +ℤ v
      → Move s s'
  -- A new subaccount enters the whitelist.
  enlist :
      (a : Address) (kind : SubaccountType)
      → find_subaccount_index (get_subaccounts s) a ≡ none
      → s'.subaccounts ≡ some (get_subaccounts s ++ a ∷ [])
      → s'.subaccount_types ≡ with_entry s.subaccount_types a kind
      → s'.wallet_net_deployed ≡ s.wallet_net_deployed
      → s'.deployed_assets ≡ s.deployed_assets
      → Move s s'
  -- A subaccount leaves the whitelist, and the aggregate falls by what it added.
  delist :
      (a : Address) (i : ℕ)
      → find_subaccount_index (get_subaccounts s) a ≡ some i
      → s'.subaccounts ≡ some (subaccounts_without_index (get_subaccounts s) i)
      → s'.subaccount_types ≡ without_entry s.subaccount_types a
      → s'.wallet_net_deployed ≡ without_entry s.wallet_net_deployed a
      → get_deployed_assets s' +ℤ contribution s a ≡ get_deployed_assets s
      → Move s s'
